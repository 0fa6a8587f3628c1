-- ===== src/Server.antt =====
-- dispec/router/server.py over the scheduler of dispec/sched and the autoscaler. The lock makes a
-- submit and a round of the scheduler thread atomic, so each is one step on the server's state. What
-- the thread hands to the event loops is the list `sent`, in the order of the calls, with the id of
-- the request; what it hands to Prometheus is the list `observed`. Times are numbers.
pub mod Reaping
pub mod Streams
mod Tests
use di_spec.Prelude.{
  ℕ, zero, suc, ◌+◌, ◌-◌, max, ◌≡◌, Bool, true, false, List, [], ◌∷◌, ◌++◌, map, Option, none, some,
  length, drop, ltb, ◌==◌, if◌then◌else◌, Dict, lookup, insert, remove, M, Outcome, ok, raise,
  ◌>>=◌, ret, ℤ,
}
use di_spec.PagedCache.{Tensors}
use di_spec.Scheduler.{SamplingParams, Request, Runner, Engine}
use di_spec.Scheduler.Step.{add_request}
use di_spec.Scheduler.Finish.{step, has_work}
use di_spec.Autoscale.{DraftPoolAutoscaler, observe}

-- What is used of the tokenizer; a text is its list of characters.
pub record Tokenizer : Type 0 where
  pub encode : List ℕ → List ℕ
  pub decode : List ℕ → List ℕ
  pub eos_token_id : Option ℕ

-- `_Pending`: `streaming` is whether there is a queue; a `t_first` of 0 is not yet.
pub record Pending : Type 0 where
  pub t_submit : ℕ
  pub t_first : ℕ
  pub streaming : Bool
  pub decoded : List ℕ

pub data Message : Type 0 where
  delta : List ℕ → Message
  end_of_stream : Message
  result : List ℕ → Message

pub data Metric : Type 0 where
  ttft e2e tokens batch running waiting draft_replicas : ℕ → Metric
  request : Metric
  tpot : ℕ → ℕ → Metric

-- A request as `_reap` sees it.
pub record Output : Type 0 where
  pub id : ℕ
  pub output_ids : List ℕ

-- What one request makes the thread send and observe.
pub record Effects : Type 0 where
  pub messages : List Message
  pub metrics : List Metric

-- What `_reap` works on.
pub record Desk : Type 0 where
  pub pending : Dict Pending
  pub sent : List (ℕ × Message)
  pub observed : List Metric

module _ (K : Tokenizer) where
  -- `_push_delta`
  unfoldable pub push_delta : Pending → List ℕ → Pending × List Message
  push_delta p output_ids =
      let full : List ℕ = K.decode output_ids in
      if ltb (length p.decoded) (length full)
      then (record p { decoded = full }, delta (drop (length p.decoded) full) ∷ [])
      else (p, [])

  unfoldable pub first_token : ℕ → Pending → Pending × List Metric
  first_token now p =
      if p.t_first == 0 then (record p { t_first = now }, ttft (now - p.t_submit) ∷ []) else (p, [])

  -- The body of the first loop of `_reap`, for a request that is running.
  unfoldable pub visit : ℕ → Option (List ℕ) → Pending → Pending × Effects
  visit now none p = (p, record { messages = []; metrics = [] })
  visit now (some []) p = (p, record { messages = []; metrics = [] })
  visit now (some (t ∷ ts)) p =
      let (p₁, metrics) = first_token now p in
      let (p₂, messages) = if p₁.streaming then push_delta p₁ (t ∷ ts) else (p₁, []) in
      (p₂, record { messages = messages; metrics = metrics })

  -- The body of the second loop, for a request that is pending.
  unfoldable pub complete : ℕ → List ℕ → Pending → Effects
  complete now output_ids p =
      let t_first : ℕ = if p.t_first == 0 then now else p.t_first in
      let n : ℕ = length output_ids in
      record {
        messages =
            if p.streaming
            then (push_delta p output_ids).1 ++ end_of_stream ∷ []
            else result output_ids ∷ [];
        metrics =
            e2e (now - p.t_submit)
            ∷ request
            ∷ tokens n
            ∷ (if ltb 1 n then tpot (now - t_first) (n - 1) ∷ [] else []);
      }

  abbrev pub to : ℕ → List Message → List (ℕ × Message)
  to rid messages = map (λ m. (rid, m)) messages

  -- `by_id.get(rid)`: of two requests with one id the later one is in the dictionary.
  unfoldable pub output_of : ℕ → List Output → Option (List ℕ)
  output_of rid [] = none
  output_of rid (o ∷ os) = elim (output_of rid os) [
    | some found ↦ some found
    | none ↦ if rid == o.id then some o.output_ids else none
  ]

  -- The first loop: over the items of `_pending`, whose values it changes in place.
  unfoldable pub visit_all : ℕ → List Output → Dict Pending → Desk
  visit_all now live [] = record { pending = []; sent = []; observed = [] }
  visit_all now live ((rid, p) ∷ rest) =
      let (p', effects) = visit now (output_of rid live) p in
      let more : Desk = visit_all now live rest in
      record {
        pending = (rid, p') ∷ more.pending;
        sent = to rid effects.messages ++ more.sent;
        observed = effects.metrics ++ more.observed;
      }

  -- The second loop and its body.
  unfoldable pub settle : ℕ → Output → Option Pending → Desk → Desk
  settle now o none s = s
  settle now o (some p) s =
      let effects : Effects = complete now o.output_ids p in
      record {
        pending = remove o.id s.pending;
        sent = s.sent ++ to o.id effects.messages;
        observed = s.observed ++ effects.metrics;
      }

  unfoldable pub complete_all : ℕ → List Output → Desk → Desk
  complete_all now [] s = s
  complete_all now (o ∷ os) s = complete_all now os (settle now o (lookup o.id s.pending) s)

  -- `_reap` on what is running and what is finished; clearing the list of finished is `run_once`'s.
  unfoldable pub reap : ℕ → List Output → List Output → Desk → Desk
  reap now live done s =
      let visited : Desk = visit_all now live s.pending in
      complete_all now done (record {
        pending = visited.pending;
        sent = s.sent ++ visited.sent;
        observed = s.observed ++ visited.observed;
      })

module _ (T : Tensors) (R : Runner T) (K : Tokenizer) where
  pub record InferenceServer : Type 0 where
    pub engine : Engine T
    pub autoscaler : DraftPoolAutoscaler
    pub desk : Desk

  -- The requests of a list of ids.
  unfoldable pub outputs : Dict (Request T) → List ℕ → List Output
  outputs reqs [] = []
  outputs reqs (rid ∷ rids) = elim (lookup rid reqs) [
    | none ↦ outputs reqs rids
    | some r ↦ record { id = r.id; output_ids = r.output_ids } ∷ outputs reqs rids
  ]

  -- `generate` and `generate_stream` up to their wait: the request is queued and noted as pending.
  unfoldable pub submit : Bool → List ℕ → ℕ → SamplingParams → ℤ → ℕ → M InferenceServer ℕ
  submit streaming prompt max_new_tokens params priority now s =
      elim (add_request T (K.encode prompt) max_new_tokens params K.eos_token_id priority none
        s.engine) [
          | raise x e ↦ raise x (record s { engine = e })
          | ok rid e ↦
              let p : Pending = record {
                t_submit = now;
                t_first = 0;
                streaming = streaming;
                decoded = [];
              } in
              ok rid (record {
                engine = e;
                autoscaler = s.autoscaler;
                desk = record s.desk { pending = insert rid p s.desk.pending };
              })
        ]

  unfoldable pub work_done : Engine T → ℕ
  work_done e = e.num_prefill_tokens + e.num_decode_tokens

  -- One round of `_run` under the lock, at the time `now` of `_reap`; the result is whether it was
  -- idle. An exception of `step` ends the thread. The time of the step is not observed here.
  unfoldable pub run_once : ℕ → M InferenceServer Bool
  run_once now s = elim (has_work T R s.engine) [
    | false ↦ ok true s
    | true ↦ elim (step T R s.engine) [
      | raise x e ↦ raise x (record s { engine = e })
      | ok _ e ↦
          let a : DraftPoolAutoscaler = observe s.autoscaler (length e.running_ids) in
          let gauges : List Metric =
            batch (max (work_done e - work_done s.engine) 1)
            ∷ running (length e.running_ids)
            ∷ waiting (length e.waiting_ids)
            ∷ draft_replicas a.replicas
            ∷ [] in
          ok false (record {
            engine = record e { finished_ids = [] };
            autoscaler = a;
            desk =
                reap K now (outputs e.reqs e.running_ids) (outputs e.reqs e.finished_ids)
                  (record s.desk { observed = s.desk.observed ++ gauges });
          })
    ]
  ]
