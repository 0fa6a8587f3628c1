-- ===== src/Server/Streams.antt =====
-- A stream gives the whole text, in pieces.
use di_spec.Prelude.{
  ℕ, ◌≡◌, refl, sym, ap, ◌∙◌, List, [], ◌∷◌, ◌++◌, append_assoc, append-nil, arith, length,
  length-append, drop_of_append, lt→ltb, le→ltb,
}
use di_spec.Server.{Tokenizer, Pending, Message, push_delta}

-- What a client of a stream reads, up to the end of the stream.
abbrev pub text_of : List Message → List ℕ
text_of [] = []
text_of (Message.delta text ∷ messages) = text ++ text_of messages
text_of (Message.end_of_stream ∷ messages) = []
text_of (Message.result output_ids ∷ messages) = []

module _ (K : Tokenizer) where
  -- `_push_delta` for the outputs of the steps of a request, one after the other.
  unfoldable pub push_all : Pending → List (List ℕ) → Pending × List Message
  push_all p [] = (p, [])
  push_all p (output_ids ∷ more) =
      let (p₁, first) = push_delta K p output_ids in
      let (p₂, rest) = push_all p₁ more in (p₂, first ++ rest)

  -- Texts that grow: each decoding goes on from the one before it.
  pub data Grows : List ℕ → List (List ℕ) → List ℕ → Type 0 where
    stays : {text : List ℕ} → Grows text [] text
    grows :
        {output_ids last text : List ℕ} {more : List (List ℕ)} (suffix : List ℕ)
        → K.decode output_ids ≡ text ++ suffix
        → Grows (text ++ suffix) more last
        → Grows text (output_ids ∷ more) last

  -- What one push sends.
  push_delta_text :
      (p : Pending) (output_ids suffix : List ℕ) (rest : List Message)
      → K.decode output_ids ≡ p.decoded ++ suffix
      → ((push_delta K p output_ids).0 ≡ record p { decoded = p.decoded ++ suffix })
        × (text_of ((push_delta K p output_ids).1 ++ rest) ≡ suffix ++ text_of rest)
  unfolding push_delta
  push_delta_text p output_ids [] rest e =
      rw (e, append-nil p.decoded, le→ltb (length p.decoded) (length p.decoded) (omega arith))
        (refl, refl)
  push_delta_text p output_ids (c ∷ cs) rest e =
      rw
        (
          e,
          lt→ltb (length p.decoded) (length (p.decoded ++ c ∷ cs))
              (omega (arith, length-append p.decoded (c ∷ cs))),
          drop_of_append p.decoded (c ∷ cs),
        )
        (refl, refl)

  push_all_text :
      (p : Pending) (outs : List (List ℕ)) (last : List ℕ) (rest : List Message)
      → Grows p.decoded outs last
      → ((push_all p outs).0.decoded ≡ last)
        × (p.decoded ++ text_of ((push_all p outs).1 ++ rest) ≡ last ++ text_of rest)
  unfolding push_all
  push_all_text p [] _ rest Grows.stays = (refl, refl)
  push_all_text p (output_ids ∷ more) last rest (Grows.grows suffix e g) =
      let p' : Pending = record p { decoded = p.decoded ++ suffix } in
      let (state, _) = push_delta_text p output_ids suffix [] e in
      let after : List Message = (push_all p' more).1 in
      let (d, t) = push_all_text p' more last rest g in
      rw state (
        d,
        rw (append_assoc, (push_delta_text p output_ids suffix (after ++ rest) e).1)
            (sym (append_assoc p.decoded suffix (text_of (after ++ rest))) ∙ t),
      )

  -- The pieces that a stream sends for the outputs of the steps of its request, put one after the
  -- other up to the end of the stream, are the text of the last output, when each text goes on from
  -- the one before it.
  pub stream_text :
      (p : Pending) (outs : List (List ℕ)) (last : List ℕ)
      → p.decoded ≡ []
      → Grows p.decoded outs last
      → text_of ((push_all p outs).1 ++ Message.end_of_stream ∷ []) ≡ last
  stream_text p outs last fresh g = rw⁻¹ (append-nil last) (
      ap (λ d. d ++ text_of ((push_all p outs).1 ++ Message.end_of_stream ∷ [])) (sym fresh)
      ∙ (push_all_text p outs last (Message.end_of_stream ∷ []) g).1)
