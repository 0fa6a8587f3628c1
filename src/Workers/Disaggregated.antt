-- ===== src/Workers/Disaggregated.antt =====
-- The two worker processes and their queues. A turn of a worker is one round of its loop: it takes
-- what is next in its queue, or waits. A worker ends at the sentinel, or by an exception.
use di_spec.Prelude.{
  ℕ, zero, suc, ◌+◌, Bool, true, false, List, [], ◌∷◌, ◌++◌, Option, none, some, Outcome, ok, raise,
}
use di_spec.PagedCache.{Tensors}
use di_spec.Scheduler.{SamplingParams, Runner}
use di_spec.Speculative.{Cache}
use di_spec.Transport.{KvPayload, IpcQueue, Received, ipc_send, ipc_recv}
use di_spec.Workers.{prefill_export, decode_from_kv}

pub record DisaggConfig : Type 0 where
  pub num_layers : ℕ
  pub num_blocks : ℕ
  pub max_new_tokens : ℕ
  pub eos_id : Option ℕ
  pub params : SamplingParams

-- A request: its id and its prompt.
pub record Job : Type 0 where
  pub rid : ℕ
  pub prompt_ids : List ℕ

pub record Answer : Type 0 where
  pub rid : ℕ
  pub out : List ℕ

-- The metadata that is sent with a prompt's KV; `none` of it is the empty dictionary.
pub record Info : Type 0 where
  pub rid : ℕ
  pub first_token : ℕ

module _ (T : Tensors) where
  open T use {Row}

  abbrev pub Payload : Type 0
  Payload = KvPayload (List (List Row)) (Option Info)

  pub record Worker : Type 0 where
    pub cache : Cache T
    pub sid : ℕ
    pub alive : Bool

  pub record Disaggregated : Type 0 where
    pub req_q : List (Option Job)
    pub kv_q : IpcQueue (List (List Row)) (Option Info)
    pub res_q : List Answer
    pub pf : Worker
    pub dc : Worker

  module _ (R : Runner T) (cfg : DisaggConfig) where
    -- What is sent of a `prefill_export`, and the worker after it.
    unfoldable pub to_send :
        Job
        → ℕ
        → Outcome (Cache T) ((List (List Row) × List (List Row)) × ℕ)
        → Option Payload × Worker
    to_send job sid (raise e c) = (none, record { cache = c; sid = sid; alive = false })
    to_send job sid (ok ((k, v), first) c) = (
      some (record {
        tokens = job.prompt_ids;
        k = k;
        v = v;
        info = some (record { rid = job.rid; first_token = first });
      }),
      record { cache = c; sid = sid; alive = true },
    )

    unfoldable pub prefill_job : Job → Worker → Option Payload × Worker
    prefill_job job w =
        to_send job (w.sid + 1)
          (prefill_export T R cfg.num_layers (w.sid + 1) job.prompt_ids cfg.params w.cache)

    unfoldable pub to_answer : ℕ → ℕ → Outcome (Cache T) (List ℕ) → Option Answer × Worker
    to_answer rid sid (raise e c) = (none, record { cache = c; sid = sid; alive = false })
    to_answer rid sid (ok out c) =
        (some (record { rid = rid; out = out }), record { cache = c; sid = sid; alive = true })

    -- `payload.meta["first_token"]` of an empty dictionary is a KeyError.
    unfoldable pub decode_with : Option Info → Payload → Worker → Option Answer × Worker
    decode_with none p w = (none, record { cache = w.cache; sid = w.sid + 1; alive = false })
    decode_with (some info) p w = to_answer info.rid (w.sid + 1) (
        decode_from_kv T R (w.sid + 1) p.tokens p.k p.v info.first_token cfg.max_new_tokens
          cfg.params cfg.eos_id w.cache)

    unfoldable pub decode_payload : Payload → Worker → Option Answer × Worker
    decode_payload p w = decode_with p.info p w

    -- Putting what a turn made on the next queue.
    unfoldable pub send_kv :
        Option Payload
        → IpcQueue (List (List Row)) (Option Info)
        → IpcQueue (List (List Row)) (Option Info)
    send_kv none q = q
    send_kv (some p) q = ipc_send p q

    unfoldable pub put_answer : Option Answer → List Answer → List Answer
    put_answer none res_q = res_q
    put_answer (some a) res_q = res_q ++ a ∷ []

    -- The loop bodies of `_prefill_main` and `_decode_main`.
    unfoldable pub prefill_main : Disaggregated → Disaggregated
    prefill_main s = elim s.pf.alive [
      | false ↦ s
      | true ↦ elim s.req_q [
        | [] ↦ s
        | none ∷ rest ↦ record s { req_q = rest; pf = record (s.pf) { alive = false } }
        | some job ∷ rest ↦
            let (made, w) = prefill_job job s.pf in
            record s { req_q = rest; kv_q = send_kv made s.kv_q; pf = w }
      ]
    ]

    -- What `recv` gives; an exception in it ends the worker.
    unfoldable pub take_payload :
        Outcome (IpcQueue (List (List Row)) (Option Info)) (Received Payload)
        → Disaggregated
        → Disaggregated
    take_payload (raise e q) s = record s { kv_q = q; dc = record (s.dc) { alive = false } }
    take_payload (ok Received.waits q) s = s
    take_payload (ok Received.shutdown q) s = record s {
      kv_q = q;
      dc = record (s.dc) { alive = false };
    }
    take_payload (ok (Received.payload p) q) s =
        let (made, w) = decode_payload p s.dc in
        record s { kv_q = q; res_q = put_answer made s.res_q; dc = w }

    unfoldable pub decode_main : Disaggregated → Disaggregated
    decode_main s = elim s.dc.alive [ false ↦ s | true ↦ take_payload (ipc_recv none s.kv_q) s ]

  unfoldable pub submit : Job → Disaggregated → Disaggregated
  submit job s = record s { req_q = s.req_q ++ some job ∷ [] }

  -- `[self.res_q.get() for _ in range(n)]`; `none` waits for more.
  unfoldable pub collect : ℕ → Disaggregated → Option (List Answer × Disaggregated)
  collect zero s = some ([], s)
  collect (suc n) s = elim s.res_q [
    | [] ↦ none
    | a ∷ rest ↦ elim (collect n (record s { res_q = rest })) [
      | none ↦ none
      | some (answers, s') ↦ some (a ∷ answers, s')
    ]
  ]
