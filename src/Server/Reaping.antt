-- ===== src/Server/Reaping.antt =====
-- Every request is answered once: `_reap` settles what is finished and nothing else.
use di_spec.Prelude.{
  ℕ, ◌+◌, ◌≤◌, ◌<◌, ◌≡◌, refl, sym, ap, ◌∙◌, Bool, true, false, List, [], ◌∷◌, ◌++◌, map, Option,
  none, some, arith, ◌==◌, if◌then◌else◌, Dict, keys, lookup, count, hit, hit_self, has-false-count,
  has-false_of_lookup, ==→eq, subst, count-keys-remove_present, count-keys-remove, Bool-cases, inl,
  inr, ltb, length,
}
use mathlib.Core.List.{map-append}
use di_spec.Server.{
  Tokenizer, Pending, Message, delta, end_of_stream, result, Output, Desk, push_delta, first_token,
  visit, complete, to, output_of, visit_all, settle, complete_all, reap,
}

-- How many final messages were sent to a request: its result, or the end of its stream.
abbrev pub finals : ℕ → List (ℕ × Message) → ℕ
finals rid [] = 0
finals rid ((r, delta text) ∷ sent) = finals rid sent
finals rid ((r, end_of_stream) ∷ sent) = hit rid r + finals rid sent
finals rid ((r, result output_ids) ∷ sent) = hit rid r + finals rid sent

-- How often a request stands in a list.
abbrev pub ids : List Output → List ℕ
ids = map (λ o. o.id)

finals-append :
    (rid : ℕ) (a b : List (ℕ × Message)) → finals rid (a ++ b) ≡ finals rid a + finals rid b
finals-append rid [] b = omega arith
finals-append rid ((r, delta text) ∷ a) b = finals-append rid a b
finals-append rid ((r, end_of_stream) ∷ a) b = omega (arith, finals-append rid a b)
finals-append rid ((r, result output_ids) ∷ a) b = omega (arith, finals-append rid a b)

module _ (K : Tokenizer) where
  push_delta-finals :
      (rid r : ℕ) (p : Pending) (output_ids : List ℕ)
      → finals rid (to K r (push_delta K p output_ids).1) ≡ 0
  unfolding push_delta
  push_delta-finals rid r p output_ids =
      elim (Bool-cases (ltb (length p.decoded) (length (K.decode output_ids)))) [
        | inl e ↦ rw e refl
        | inr e ↦ rw e refl
      ]

  -- A request that runs gets no final message.
  visit-finals :
      (now rid r : ℕ) (o : Option (List ℕ)) (p : Pending)
      → finals rid (to K r (visit K now o p).1.messages) ≡ 0
  unfolding visit
  visit-finals now rid r none p = refl
  visit-finals now rid r (some []) p = refl
  visit-finals now rid r (some (t ∷ ts)) p = elim (Bool-cases (first_token K now p).0.streaming) [
    | inl e ↦ rw e (push_delta-finals rid r (first_token K now p).0 (t ∷ ts))
    | inr e ↦ rw e refl
  ]

  visit_all-finals :
      (now rid : ℕ) (live : List Output) (d : Dict Pending)
      → finals rid (visit_all K now live d).sent ≡ 0
  unfolding visit_all
  visit_all-finals now rid live [] = refl
  visit_all-finals now rid live ((r, p) ∷ d) =
      finals-append rid (to K r (visit K now (output_of K r live) p).1.messages)
        (visit_all K now live d).sent
      ∙ omega
          (arith, visit-finals now rid r (output_of K r live) p, visit_all-finals now rid live d)

  visit_all-keys :
      (now : ℕ) (live : List Output) (d : Dict Pending)
      → keys (visit_all K now live d).pending ≡ keys d
  unfolding visit_all
  visit_all-keys now live [] = refl
  visit_all-keys now live ((r, p) ∷ d) = ap (◌∷◌ r) (visit_all-keys now live d)

  -- A request that is completed gets one.
  ending-finals :
      (rid r : ℕ) (streaming : Bool) (messages : List Message) (output_ids : List ℕ)
      → finals rid (to K r messages) ≡ 0
      → finals rid
          (to K r (if streaming then messages ++ end_of_stream ∷ [] else result output_ids ∷ []))
        ≡ hit rid r
  ending-finals rid r false messages output_ids h = omega arith
  ending-finals rid r true messages output_ids h =
      ap (finals rid) (map-append (λ m. (r, m)) messages (end_of_stream ∷ []))
      ∙ finals-append rid (to K r messages) (to K r (end_of_stream ∷ []))
      ∙ omega (arith, h)

  complete-finals :
      (now rid r : ℕ) (output_ids : List ℕ) (p : Pending)
      → finals rid (to K r (complete K now output_ids p).messages) ≡ hit rid r
  unfolding complete
  complete-finals now rid r output_ids p =
      ending-finals rid r p.streaming (push_delta K p output_ids).1 output_ids
        (push_delta-finals rid r p output_ids)

  -- What a request got and what it is owed.
  abbrev pub accounted : ℕ → Desk → ℕ
  accounted rid s = finals rid s.sent + count rid (keys s.pending)

  settle-accounted :
      (now rid : ℕ) (o : Output) (found : Option Pending) (s : Desk)
      → lookup o.id s.pending ≡ found
      → accounted rid (settle K now o found s) ≡ accounted rid s
  unfolding settle
  settle-accounted now rid o none s e = refl
  settle-accounted now rid o (some p) s e = omega (
    arith,
    finals-append rid s.sent (to K o.id (complete K now o.output_ids p).messages),
    complete-finals now rid o.id o.output_ids p,
    count-keys-remove_present rid o.id s.pending {v = p} e,
  )

  complete_all-accounted :
      (now rid : ℕ) (done : List Output) (s : Desk)
      → accounted rid (complete_all K now done s) ≡ accounted rid s
  unfolding complete_all
  complete_all-accounted now rid [] s = refl
  complete_all-accounted now rid (o ∷ os) s =
      complete_all-accounted now rid os (settle K now o (lookup o.id s.pending) s)
      ∙ settle-accounted now rid o (lookup o.id s.pending) s refl

  settle-keys :
      (now rid : ℕ) (o : Output) (found : Option Pending) (s : Desk)
      → lookup o.id s.pending ≡ found
      → count rid (keys (settle K now o found s).pending) ≤ count rid (keys s.pending)
  unfolding settle
  settle-keys now rid o none s e = omega arith
  settle-keys now rid o (some p) s e = count-keys-remove rid o.id s.pending

  complete_all-keys :
      (now rid : ℕ) (done : List Output) (s : Desk)
      → count rid (keys (complete_all K now done s).pending) ≤ count rid (keys s.pending)
  unfolding complete_all
  complete_all-keys now rid [] s = omega arith
  complete_all-keys now rid (o ∷ os) s = omega (
    arith,
    complete_all-keys now rid os (settle K now o (lookup o.id s.pending) s),
    settle-keys now rid o (lookup o.id s.pending) s refl,
  )

  -- What is finished is not pending any more.
  settle_removes :
      (now : ℕ) (o : Output) (found : Option Pending) (s : Desk)
      → lookup o.id s.pending ≡ found
      → count o.id (keys s.pending) ≤ 1
      → count o.id (keys (settle K now o found s).pending) ≡ 0
  unfolding settle
  settle_removes now o none s e once =
      has-false-count o.id s.pending (has-false_of_lookup o.id s.pending e)
  settle_removes now o (some p) s e once =
      omega (arith, once, count-keys-remove_present o.id o.id s.pending {v = p} e, hit_self o.id)

  complete_all_removes :
      (now rid : ℕ) (done : List Output) (s : Desk)
      → 0 < count rid (ids done)
      → count rid (keys s.pending) ≤ 1
      → count rid (keys (complete_all K now done s).pending) ≡ 0
  unfolding complete_all count
  complete_all_removes now rid [] s h once = absurd (omega (arith, h))
  complete_all_removes now rid (o ∷ os) s h once =
      let s' : Desk = settle K now o (lookup o.id s.pending) s in
      elim (Bool-cases (rid == o.id)) [
        | inl e ↦
            let gone : count rid (keys s'.pending) ≡ 0 =
              subst (λ k. count k (keys s.pending) ≤ 1 → count k (keys s'.pending) ≡ 0)
                (sym (==→eq rid o.id e)) (settle_removes now o (lookup o.id s.pending) s refl)
                once in
            omega (arith, gone, complete_all-keys now rid os s')
        | inr e ↦
            complete_all_removes now rid os s' (ground (arith, h, e))
              (omega (arith, once, settle-keys now rid o (lookup o.id s.pending) s refl))
      ]

  complete_all_keeps :
      (now rid : ℕ) (done : List Output) (s : Desk)
      → count rid (ids done) ≡ 0
      → count rid (keys (complete_all K now done s).pending) ≡ count rid (keys s.pending)
  unfolding complete_all count settle
  complete_all_keeps now rid [] s h = refl
  complete_all_keeps now rid (o ∷ os) s h =
      complete_all_keeps now rid os (settle K now o (lookup o.id s.pending) s) (omega (arith, h))
      ∙ settle_keeps (lookup o.id s.pending) refl
    where
      settle_keeps :
          (found : Option Pending)
          → lookup o.id s.pending ≡ found
          → count rid (keys (settle K now o found s).pending) ≡ count rid (keys s.pending)
      settle_keeps none e = refl
      settle_keeps (some p) e =
          omega (arith, h, count-keys-remove_present rid o.id s.pending {v = p} e)

  -- `_reap` answers the requests that are finished and no other: a request that is finished and was
  -- pending once gets exactly one final message, its result or the end of its stream, and is not
  -- pending any more; one that is not finished gets none and stays pending; and one that is not
  -- pending gets none.
  pub reap-finals :
      (now rid : ℕ) (live done : List Output) (s : Desk)
      → count rid (keys s.pending) ≤ 1
      → (accounted rid (reap K now live done s) ≡ accounted rid s)
        × (0 < count rid (ids done) → count rid (keys (reap K now live done s).pending) ≡ 0)
        × (count rid (ids done) ≡ 0
            → count rid (keys (reap K now live done s).pending) ≡ count rid (keys s.pending))
  unfolding reap
  reap-finals now rid live done s once =
      let visited : Desk = visit_all K now live s.pending in
      let s' : Desk = record {
        pending = visited.pending;
        sent = s.sent ++ visited.sent;
        observed = s.observed ++ visited.observed;
      } in
      let same : count rid (keys s'.pending) ≡ count rid (keys s.pending) =
        ap (count rid) (visit_all-keys now live s.pending) in
      (
        complete_all-accounted now rid done s'
            ∙ omega (
              arith,
              same,
              finals-append rid s.sent visited.sent,
              visit_all-finals now rid live s.pending,
            ),
        λ h. complete_all_removes now rid done s' h (omega (arith, same, once)),
        λ h. complete_all_keeps now rid done s' h ∙ same,
      )
