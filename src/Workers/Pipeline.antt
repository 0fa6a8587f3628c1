-- ===== src/Workers/Pipeline.antt =====
-- The two processes answer what one process would, whatever the order of their turns.
use di_spec.Prelude.{
  ℕ, ◌+◌, ◌≡◌, ◌⊎◌, inl, inr, refl, sym, ap, ◌∙◌, Bool, true, false, List, [], ◌∷◌, ◌++◌,
  append_assoc, append-nil, map, Option, none, some, Outcome, ok, raise,
}
use di_spec.PagedCache.{Tensors}
use di_spec.Scheduler.{Runner}
use di_spec.Speculative.{Cache}
use di_spec.Transport.{
  IpcQueue, Packed, pack, unpack, from_items, get_or, take_next, ipc_send, ipc_recv,
}
use di_spec.Workers.{prefill_export, decode_from_kv}
use di_spec.Workers.Disaggregated.{
  DisaggConfig, Job, Answer, Info, Payload, decode_with, Worker, Disaggregated, to_send, to_answer,
  prefill_job, decode_payload, send_kv, put_answer, prefill_main, take_payload, decode_main,
}

pub data Turn : Type 0 where
  prefill decode : Turn

abbrev listed {ℓ} : {A : Type ℓ} → Option A → List A
listed none = []
listed (some a) = a ∷ []

module _ (T : Tensors) (R : Runner T) (cfg : DisaggConfig) where
  -- The workers' turns in a given order.
  unfoldable pub run : List Turn → Disaggregated T → Disaggregated T
  run [] s = s
  run (Turn.prefill ∷ turns) s = run turns (prefill_main T R cfg s)
  run (Turn.decode ∷ turns) s = run turns (decode_main T R cfg s)

  -- Both stages in one process, one request after the other; an exception ends it.
  unfoldable pub then_answer : (Worker T → List Answer) → Option Answer × Worker T → List Answer
  then_answer rest (none, dc) = []
  then_answer rest (some a, dc) = a ∷ rest dc

  unfoldable pub then_decode :
      (Worker T → Worker T → List Answer) → Worker T → Option (Payload T) × Worker T → List Answer
  then_decode rest dc (none, pf) = []
  then_decode rest dc (some p, pf) = then_answer (rest pf) (decode_payload T R cfg p dc)

  unfoldable pub colocated : List Job → Worker T → Worker T → List Answer
  colocated [] pf dc = []
  colocated (job ∷ jobs) pf dc = then_decode (colocated jobs) dc (prefill_job T R cfg job pf)

  -- What stands on the queue between the workers.
  abbrev Packet : Type 0
  Packet = Packed (List (List T.Row)) (Option Info)

  abbrev packets : Option (Payload T) → List (Option Packet)
  packets made = map some (map pack (listed made))

  -- What a worker will still make of its queue.
  unfoldable prefill_rest : List (Option Job) → Worker T → List (Option Packet)
  prefill_rest [] w = []
  prefill_rest (none ∷ jobs) w = []
  prefill_rest (some job ∷ jobs) w = elim w.alive [
    | false ↦ []
    | true ↦ let (made, w') = prefill_job T R cfg job w in packets made ++ prefill_rest jobs w'
  ]

  unfoldable decode_packet : Option (Payload T) → Worker T → Option Answer × Worker T
  decode_packet none w = (none, record w { alive = false })
  decode_packet (some p) w = decode_payload T R cfg p w

  unfoldable decode_rest : List (Option Packet) → Worker T → List Answer
  decode_rest [] w = []
  decode_rest (none ∷ ps) w = []
  decode_rest (some obj ∷ ps) w = elim w.alive [
    | false ↦ []
    | true ↦ let (made, w') = decode_packet (unpack none obj) w in listed made ++ decode_rest ps w'
  ]

  abbrev outcome : Disaggregated T → List Answer
  outcome s = s.res_q ++ decode_rest (s.kv_q.queue ++ prefill_rest s.req_q s.pf) s.dc

  prefill_rest_dead :
      (jobs : List (Option Job)) (w : Worker T) → w.alive ≡ false → prefill_rest jobs w ≡ []
  unfolding prefill_rest
  prefill_rest_dead [] w h = refl
  prefill_rest_dead (none ∷ jobs) w h = refl
  prefill_rest_dead (some job ∷ jobs) w h = rw h refl

  decode_rest_dead :
      (ps : List (Option Packet)) (w : Worker T) → w.alive ≡ false → decode_rest ps w ≡ []
  unfolding decode_rest
  decode_rest_dead [] w h = refl
  decode_rest_dead (none ∷ ps) w h = refl
  decode_rest_dead (some p ∷ ps) w h = rw h refl

  send_kv-queue :
      (made : Option (Payload T)) (q : IpcQueue (List (List T.Row)) (Option Info))
      → (send_kv T R cfg made q).queue ≡ q.queue ++ packets made
  unfolding send_kv ipc_send
  send_kv-queue none q = sym (append-nil q.queue)
  send_kv-queue (some p) q = refl

  put_answer_lem :
      (made : Option Answer) (res_q : List Answer)
      → put_answer T R cfg made res_q ≡ res_q ++ listed made
  unfolding put_answer
  put_answer_lem none res_q = sym (append-nil res_q)
  put_answer_lem (some a) res_q = refl

  prefill_main-outcome : (s : Disaggregated T) → outcome (prefill_main T R cfg s) ≡ outcome s
  unfolding prefill_main prefill_rest
  prefill_main-outcome s = go s.pf.alive refl s.req_q refl
    where
      go :
          (b : Bool)
          → s.pf.alive ≡ b
          → (jobs : List (Option Job)) → s.req_q ≡ jobs
          → outcome (prefill_main T R cfg s) ≡ outcome s
      go false e jobs d = rw e refl
      go true e [] d = rw (e, d) refl
      go true e (none ∷ jobs) d =
          rw (e, d)
            (ap (λ ps. s.res_q ++ decode_rest (s.kv_q.queue ++ ps) s.dc)
              (prefill_rest_dead jobs (record (s.pf) { alive = false }) refl))
      go true e (some job ∷ jobs) d =
          let w : Worker T = record (s.pf) { alive = true } in
          let made : Option (Payload T) = (prefill_job T R cfg job w).0 in
          let rest : List (Option Packet) = prefill_rest jobs (prefill_job T R cfg job w).1 in
          rw (e, d)
            (ap (λ ps. s.res_q ++ decode_rest (ps ++ rest) s.dc) (send_kv-queue made s.kv_q)
              ∙ ap (λ ps. s.res_q ++ decode_rest ps s.dc)
                  (append_assoc s.kv_q.queue (packets made) rest))

  decode_main-outcome : (s : Disaggregated T) → outcome (decode_main T R cfg s) ≡ outcome s
  unfolding decode_main decode_rest decode_packet ipc_recv take_next take_payload
  decode_main-outcome s = go s.dc.alive refl s.kv_q.queue refl
    where
      taken :
          (obj : Packet) (q : List (Option Packet)) (o : Option (Payload T))
          → s.dc.alive ≡ true
          → s.kv_q.queue ≡ some obj ∷ q
          → unpack none obj ≡ o
          → outcome (decode_main T R cfg s) ≡ outcome s
      taken obj q none e d h = rw (e, d, h) refl
      taken obj q (some p) e d h =
          let w : Worker T = record (s.dc) { alive = true } in
          let made : Option Answer = (decode_payload T R cfg p w).0 in
          let rest : List Answer =
            decode_rest (q ++ prefill_rest s.req_q s.pf) (decode_payload T R cfg p w).1 in
          rw (e, d, h)
            (ap (λ answers. answers ++ rest) (put_answer_lem made s.res_q)
              ∙ append_assoc s.res_q (listed made) rest)

      go :
          (b : Bool)
          → s.dc.alive ≡ b
          → (q : List (Option Packet)) → s.kv_q.queue ≡ q
          → outcome (decode_main T R cfg s) ≡ outcome s
      go false e q d = rw e refl
      go true e [] d = rw (e, d) refl
      go true e (none ∷ q) d =
          rw (e, d)
            (ap (λ answers. s.res_q ++ answers)
              (decode_rest_dead (q ++ prefill_rest s.req_q s.pf) (record (s.dc) { alive = false })
                refl))
      go true e (some obj ∷ q) d = taken obj q (unpack none obj) e d refl

  run-outcome : (turns : List Turn) (s : Disaggregated T) → outcome (run turns s) ≡ outcome s
  unfolding run
  run-outcome [] s = refl
  run-outcome (Turn.prefill ∷ turns) s =
      run-outcome turns (prefill_main T R cfg s) ∙ prefill_main-outcome s
  run-outcome (Turn.decode ∷ turns) s =
      run-outcome turns (decode_main T R cfg s) ∙ decode_main-outcome s

  -- Neither worker has anything left to do.
  abbrev pub IsSettled : Disaggregated T → Type 0
  IsSettled s =
      ((s.pf.alive ≡ false) ⊎ (s.req_q ≡ [])) × ((s.dc.alive ≡ false) ⊎ (s.kv_q.queue ≡ []))

  settled-outcome : (s : Disaggregated T) → IsSettled s → outcome s ≡ s.res_q
  unfolding prefill_rest decode_rest
  settled-outcome s (a, inl d) =
      ap (λ answers. s.res_q ++ answers)
        (decode_rest_dead (s.kv_q.queue ++ prefill_rest s.req_q s.pf) s.dc d)
      ∙ append-nil s.res_q
  settled-outcome s (inl a, inr q) = rw (q, prefill_rest_dead s.req_q s.pf a) (append-nil s.res_q)
  settled-outcome s (inr a, inr q) = rw (q, a) (append-nil s.res_q)

  -- A stage that makes nothing has ended its worker.
  Goes : {A : Type 0} → Option A × Worker T → Type 0
  Goes {A} made =
      ((a : A) × (w : Worker T) × (made ≡ (some a, w)) × (w.alive ≡ true))
      ⊎ ((w : Worker T) × (made ≡ (none, w)) × (w.alive ≡ false))

  prefill_job-Goes : (job : Job) (w : Worker T) → Goes (prefill_job T R cfg job w)
  unfolding Goes prefill_job to_send
  prefill_job-Goes job w =
      go (prefill_export T R cfg.num_layers (w.sid + 1) job.prompt_ids cfg.params w.cache)
    where
      go :
          (o : Outcome (Cache T) ((List (List T.Row) × List (List T.Row)) × ℕ))
          → Goes (to_send T R cfg job (w.sid + 1) o)
      go (raise e c) = inr (_, refl, refl)
      go (ok ((k, v), first) c) = inl (_, _, refl, refl)

  decode_payload-Goes : (p : Payload T) (w : Worker T) → Goes (decode_payload T R cfg p w)
  unfolding Goes decode_payload decode_with to_answer
  decode_payload-Goes p w = go p.info
    where
      answered :
          (rid : ℕ) (o : Outcome (Cache T) (List ℕ)) → Goes (to_answer T R cfg rid (w.sid + 1) o)
      answered rid (raise e c) = inr (_, refl, refl)
      answered rid (ok out c) = inl (_, _, refl, refl)

      go : (info : Option Info) → Goes (decode_with T R cfg info p w)
      go none = inr (_, refl, refl)
      go (some info) = answered info.rid (
          decode_from_kv T R (w.sid + 1) p.tokens p.k p.v info.first_token cfg.max_new_tokens
            cfg.params cfg.eos_id w.cache)

  unpack-pack : (p : Payload T) → unpack none (pack p) ≡ some p
  unfolding pack unpack from_items get_or
  unpack-pack p = refl

  stages-colocated :
      (jobs : List Job) (pf dc : Worker T)
      → pf.alive ≡ true
      → dc.alive ≡ true
      → decode_rest (prefill_rest (map some jobs) pf) dc ≡ colocated jobs pf dc
  unfolding prefill_rest decode_rest decode_packet colocated then_decode then_answer Goes
  stages-colocated [] pf dc a b = refl
  stages-colocated (job ∷ jobs) pf dc a b = elim (prefill_job-Goes job pf) [
    | inr (w, e, dead) ↦ simp (a, e, prefill_rest_dead (map some jobs) w dead) refl
    | inl (p, w, e, live) ↦ elim (decode_payload-Goes p dc) [
      | inr (u, d, dead) ↦
          simp (a, e, unpack-pack p, b, d, decode_rest_dead (prefill_rest (map some jobs) w) u dead)
            refl
      | inl (answer, u, d, live') ↦
          simp (a, e, unpack-pack p, b, d) (ap (◌∷◌ answer) (stages-colocated jobs w u live live'))
    ]
  ]

  -- Whatever the order in which the two worker processes take their turns, once neither has anything
  -- left to do, the answers that were put are those of one process that serves the requests one after
  -- the other, in the order in which they were submitted; a worker that ends by an exception cuts them
  -- short at the same request.
  pub run-colocated :
      (turns : List Turn) (jobs : List Job) (s : Disaggregated T)
      → s.pf.alive ≡ true
      → s.dc.alive ≡ true
      → s.req_q ≡ map some jobs
      → s.kv_q.queue ≡ []
      → s.res_q ≡ []
      → IsSettled (run turns s)
      → (run turns s).res_q ≡ colocated jobs s.pf s.dc
  run-colocated turns jobs s a b submitted idle empty settled =
      sym (settled-outcome (run turns s) settled)
      ∙ run-outcome turns s
      ∙ rw (submitted, idle, empty) (stages-colocated jobs s.pf s.dc a b)
