-- ===== src/Workers.antt =====
-- dispec/workers/disaggregated.py and escalation.py. A worker's paged cache is the `Cache` of the
-- speculative engine and its model a `Runner`; the devices and the timings are left out.
pub mod Disaggregated
pub mod Pipeline
pub mod Prefilling
pub mod Escalation
pub mod Cleanup
pub mod Tests
use di_spec.Prelude.{
  ℕ, zero, suc, ◌+◌, ◌*◌, Bool, true, false, not, ◌&&◌, List, [], ◌∷◌, ◌++◌, Option, none, some,
  length, get_elem?, range_from, ltb, if◌then◌else◌, M, Outcome, ok, raise, ◌>>=◌, ◌>>◌, ret,
  or_raise, zoom, index_error,
}
use di_spec.BlockManager.{BlockTable}
use di_spec.BlockManager
use di_spec.PagedCache.{
  Tensors, KvStore, slots_for_positions, context_slots, export_contiguous, import_contiguous,
}
use di_spec.Scheduler.{SamplingParams, SeqMeta, Runner, get_last, same_token}
use di_spec.Speculative.{Cache, on_mgr}

-- `xs[-1:]`
unfoldable pub last_row {ℓ} : {A : Type ℓ} → List A → List A
last_row xs = elim (get_last xs) [ none ↦ [] | some x ↦ x ∷ [] ]

-- `k.shape[1]`
unfoldable pub tokens_of {ℓ} : {A : Type ℓ} → List (List A) → ℕ
tokens_of [] = 0
tokens_of (layer ∷ layers) = length layer

module _ (T : Tensors) (R : Runner T) where
  open T use {Row}

  unfoldable pub run_forward : List ℕ → List ℕ → List ℕ → SeqMeta → M (Cache T) (List R.Hidden)
  run_forward tokens positions slots meta c =
      let (hidden, store) = R.forward tokens positions slots (meta ∷ []) c.store in
      ok hidden (record c { store = store })

  -- `int(sample(runner.logits(hidden[-1:]), params)[0])`
  unfoldable pub next_token : List R.Hidden → SamplingParams → M (Cache T) ℕ
  next_token hidden params =
      or_raise (get_elem? (R.sample (R.logits (last_row hidden)) params) 0) index_error

  -- The prefill of a prompt: the hidden rows and the table.
  unfoldable pub prefill : ℕ → List ℕ → M (Cache T) (BlockTable × List R.Hidden)
  prefill sid prompt_ids c =
      (do
        let n : ℕ = length prompt_ids
        table ← on_mgr T (BlockManager.allocate sid n [])
        slots ← or_raise (context_slots c.mgr.block_size table.block_ids n) index_error
        on_mgr T (BlockManager.set_num_tokens sid n)
        hidden ←
            run_forward prompt_ids (range_from 0 n) slots
              (record { block_ids = table.block_ids; q_len = n; ctx_len = n })
        ret (table, hidden))
        c

  unfoldable pub export_rows : ℕ → List ℕ → ℕ → M (Cache T) (List (List Row) × List (List Row))
  export_rows num_layers block_ids n c =
      or_raise (export_contiguous T num_layers c.mgr.block_size block_ids n c.store) index_error c

  unfoldable pub import_rows : List ℕ → List (List Row) → List (List Row) → M (Cache T) (Unit {0})
  import_rows block_ids k v c =
      zoom (λ c. c.store) (λ c store. record c { store = store })
        (import_contiguous T c.mgr.block_size block_ids (tokens_of k) k v) c

  -- `prefill_export`: the keys, the values and the first token.
  unfoldable pub prefill_export :
      ℕ → ℕ → List ℕ → SamplingParams → M (Cache T) ((List (List Row) × List (List Row)) × ℕ)
  prefill_export num_layers sid prompt_ids params = do
    done ← prefill sid prompt_ids
    let (table, hidden) = done
    first ← next_token hidden params
    kv ← export_rows num_layers table.block_ids (length prompt_ids)
    on_mgr T (BlockManager.free sid)
    ret (kv, first)

  -- One round of the loop of `decode_from_kv`.
  unfoldable pub decode_step : ℕ → SamplingParams → ℕ → ℕ → M (Cache T) ℕ
  decode_step sid params nxt cur c =
      (do
        place ← on_mgr T (BlockManager.append_token sid)
        table ← on_mgr T (BlockManager.block_table sid)
        hidden ←
            run_forward (nxt ∷ []) (cur ∷ []) ((place.0 * c.mgr.block_size + place.1) ∷ [])
              (record { block_ids = table.block_ids; q_len = 1; ctx_len = cur + 1 })
        next_token hidden params)
        c

  -- The loop; every round adds a token, so `max_new` rounds are enough.
  unfoldable pub decode_rounds :
      ℕ → ℕ → SamplingParams → Option ℕ → ℕ → List ℕ → ℕ → ℕ → M (Cache T) (List ℕ)
  decode_rounds zero sid params eos max_new out nxt cur = ret out
  decode_rounds (suc fuel) sid params eos max_new out nxt cur =
      elim (ltb (length out) max_new && not (same_token (some nxt) eos)) [
        | false ↦ ret out
        | true ↦ (do
          t ← decode_step sid params nxt cur
          decode_rounds fuel sid params eos max_new (out ++ t ∷ []) t (cur + 1))
      ]

  unfoldable pub decode_from_kv :
      ℕ
      → List ℕ
      → List (List Row)
      → List (List Row)
      → ℕ
      → ℕ
      → SamplingParams
      → Option ℕ
      → M (Cache T) (List ℕ)
  decode_from_kv sid prompt_ids k v first_token max_new params eos = do
    let n : ℕ = length prompt_ids
    table ← on_mgr T (BlockManager.allocate sid n [])
    import_rows table.block_ids k v
    on_mgr T (BlockManager.set_num_tokens sid n)
    out ← decode_rounds max_new sid params eos max_new (first_token ∷ []) first_token n
    on_mgr T (BlockManager.free sid)
    ret out
