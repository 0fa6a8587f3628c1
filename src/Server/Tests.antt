-- ===== src/Server/Tests.antt =====
-- A result and a stream that finish in one round, and two tokenizers.
use di_spec.Prelude.{ℕ, ◌<◌, ◌≡◌, refl, arith, true, false, List, [], ◌∷◌, ◌++◌, none, keys, count}
use di_spec.Server.{Tokenizer, Pending, end_of_stream, Output, Desk, reap, push_delta}
use di_spec.Server.Reaping.{ids, accounted, reap-finals}
use di_spec.Server.Streams.{text_of, push_all, Grows, stream_text}

-- A token is a character.
abbrev spelled : Tokenizer
spelled = record { encode = λ text. text; decode = λ output_ids. output_ids; eos_token_id = none }

abbrev fresh : Pending
fresh = record { t_submit = 1; t_first = 0; streaming = true; decoded = [] }

abbrev desk : Desk
desk = record {
  pending = (3, record fresh { streaming = false }) ∷ (5, fresh) ∷ (6, fresh) ∷ [];
  sent = [];
  observed = [];
}

abbrev both : List Output
both = record { id = 5; output_ids = 70 ∷ 71 ∷ [] } ∷ record { id = 3; output_ids = 72 ∷ [] } ∷ []

abbrev live : List Output
live = record { id = 6; output_ids = 73 ∷ [] } ∷ []

reap-finals_example :
    (accounted spelled 5 (reap spelled 9 live both desk) ≡ accounted spelled 5 desk)
    × (0 < count 5 (ids both) → count 5 (keys (reap spelled 9 live both desk).pending) ≡ 0)
    × (count 5 (ids both) ≡ 0
        → count 5 (keys (reap spelled 9 live both desk).pending) ≡ count 5 (keys desk.pending))
unfolding count
reap-finals_example = reap-finals spelled 9 5 live both desk (ground arith)

abbrev spoken : List (List ℕ)
spoken = (70 ∷ []) ∷ (70 ∷ 71 ∷ []) ∷ (70 ∷ 71 ∷ 72 ∷ []) ∷ []

stream_text_example :
    text_of ((push_all spelled fresh spoken).1 ++ end_of_stream ∷ []) ≡ 70 ∷ 71 ∷ 72 ∷ []
stream_text_example = stream_text spelled fresh spoken (70 ∷ 71 ∷ 72 ∷ []) refl (
    Grows.grows (70 ∷ []) refl
      (Grows.grows (71 ∷ []) refl (Grows.grows (72 ∷ []) refl Grows.stays)))

-- A character of two tokens: the first alone decodes to the replacement character.
abbrev pairs : List ℕ → List ℕ
pairs [] = []
pairs (a ∷ []) = 65533 ∷ []
pairs (a ∷ b ∷ rest) = a ∷ pairs rest

abbrev paired : Tokenizer
paired = record { encode = λ text. text; decode = pairs; eos_token_id = none }

-- The client of a stream is left with the replacement character, where the text is another.
half_character :
    text_of ((push_all paired fresh ((8 ∷ []) ∷ (8 ∷ 9 ∷ []) ∷ [])).1 ++ end_of_stream ∷ [])
    ≡ 65533 ∷ []
unfolding push_all push_delta
half_character = refl

whole_character : paired.decode (8 ∷ 9 ∷ []) ≡ 8 ∷ []
whole_character = refl
