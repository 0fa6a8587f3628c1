-- ===== src/Scheduler/Finish.antt =====
-- The end of `step`: one forward pass, a token for each request that has one, and retirement.
use di_spec.Prelude.{
  ℕ, zero, suc, ◌+◌, Bool, true, false, ◌||◌, List, [], ◌∷◌, ◌++◌, Option, none, some, length,
  get_elem?, ltb, if◌then◌else◌, M, ok, raise, ◌>>=◌, ◌>>◌, ret, or_raise, index_error,
}
use di_spec.BlockManager.{BlockManager, BlockTable}
use di_spec.BlockManager
use di_spec.PagedCache.{Tensors}
use di_spec.Scheduler.{finished, Request, Runner, Engine, get_last, remove_id, done}
use di_spec.Scheduler.Step.{StepState, empty_batch, on_mgr, request, update, build}

-- `[r for r, s in zip(batch, sampled) if s]`
unfoldable pub chosen : List ℕ → List Bool → List ℕ
chosen [] flags = []
chosen (r ∷ rs) [] = []
chosen (r ∷ rs) (f ∷ fs) = if f then r ∷ chosen rs fs else chosen rs fs

-- `hidden[idx]` for an index that is kept as the cursor behind it; cursor 0 is index -1.
unfoldable pub row_at {ℓ} : {A : Type ℓ} → List A → ℕ → Option A
row_at rows zero = get_last rows
row_at rows (suc i) = get_elem? rows i

unfoldable pub rows_at {ℓ} : {A : Type ℓ} → List A → List ℕ → Option (List A)
rows_at rows [] = some []
rows_at rows (c ∷ cs) = elim (row_at rows c) [
  | none ↦ none
  | some x ↦ elim (rows_at rows cs) [ none ↦ none | some xs ↦ some (x ∷ xs) ]
]

module _ (T : Tensors) where
  -- The first loop of phase 5: outputs are appended; what is returned is the list of requests done.
  unfoldable pub record_one : ℕ → ℕ → M (StepState T) Bool
  record_one rid token = do
    req ← request T rid
    table ← on_mgr T (BlockManager.block_table rid)
    let req' : Request T = record req {
      output_ids = req.output_ids ++ token ∷ [];
      cur_len = table.num_tokens;
    }
    if done T req'
        then (do update T rid (record req' { state = finished }); ret true)
        else (do update T rid req'; ret false)

  unfoldable pub record_outputs : List ℕ → List ℕ → M (StepState T) (List ℕ)
  record_outputs [] tokens = ret []
  record_outputs (r ∷ rs) [] = ret []
  record_outputs (r ∷ rs) (t ∷ ts) = do
    over ← record_one r t
    rest ← record_outputs rs ts
    ret (if over then r ∷ rest else rest)

  -- The second loop: a finished request leaves `running` and gives its blocks back.
  unfoldable pub retire : List ℕ → M (StepState T) (Unit {0})
  retire [] = ret tt
  retire (rid ∷ rids) = do
    (λ s. ok tt (record s {
      eng = record s.eng {
        running_ids = remove_id rid s.eng.running_ids;
        finished_ids = s.eng.finished_ids ++ rid ∷ [];
      };
    }))
    on_mgr T (BlockManager.free rid)
    retire rids

  module _ (R : Runner T) where
    open R use {forward, logits, sample}

    unfoldable pub sample_batch : List R.Hidden → M (StepState T) (Unit {0})
    sample_batch hidden s =
        (do
          rows ← or_raise (rows_at hidden s.b.last_idx) index_error
          let sampling : List ℕ = chosen s.b.batch s.b.sampled
          first ← or_raise (get_elem? sampling 0) index_error
          req ← request T first
          over ← record_outputs sampling (sample (logits rows) req.params)
          retire over)
          s

    -- Phases 3 to 5.
    unfoldable pub run_batch : M (StepState T) (Unit {0})
    run_batch s = elim s.b.batch [
      | [] ↦ ok tt s
      | _ ∷ _ ↦
          let (hidden, store) =
            forward s.b.token_ids s.b.positions s.b.write_slots s.b.seq_meta s.eng.store in
          let s' : StepState T = record s {
            eng = record s.eng { store = store; num_steps = s.eng.num_steps + 1 };
          } in
          elim s.b.last_idx [ [] ↦ ok tt s' | _ ∷ _ ↦ sample_batch hidden s' ]
    ]

    -- `step`
    unfoldable pub step : M (Engine T) (Unit {0})
    step e = elim (build T (record { eng = e; b = empty_batch e.max_batch_tokens })) [
      | raise x s ↦ raise x s.eng
      | ok _ s ↦ elim (run_batch s) [ ok _ s' ↦ ok tt s'.eng | raise x s' ↦ raise x s'.eng ]
    ]

    unfoldable pub has_work : Engine T → Bool
    has_work e =
        ltb 0 (length e.waiting_ids)
        || ltb 0 (length e.prefilling_ids)
        || ltb 0 (length e.running_ids)

    -- `run_until_done`, its `max_steps` as fuel: the source counts up to it.
    unfoldable pub run_until_done : ℕ → M (Engine T) (Unit {0})
    run_until_done zero e = ok tt e
    run_until_done (suc max_steps) e = elim (has_work e) [
      | false ↦ ok tt e
      | true ↦ (do step; run_until_done max_steps) e
    ]
