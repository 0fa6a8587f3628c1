-- ===== src/Workers/Escalation.antt =====
-- dispec/workers/escalation.py: a prompt's KV goes from a small model's cache through a map to a large
-- model's engine.
use di_spec.Prelude.{
  ℕ, ◌-◌, Bool, map, List, Option, some, length, range_from, M, Call, ok, raise, ◌>>=◌, try_finally,
  ℤ,
}
use di_spec.Prelude.Rings.{Ring}
use di_spec.BlockManager
use di_spec.PagedCache.{Tensors}
use di_spec.Scheduler.{SamplingParams, PrefixKv, Runner, Engine}
use di_spec.Scheduler.Step.{add_request}
use di_spec.Speculative.{Cache, on_mgr}
use di_spec.KvTransfer.{rope_tables}
use di_spec.KvTransfer.Maps.{Linear, KvMap, map_kv}
use di_spec.Workers.{prefill, export_rows}

-- A row of the cache is the heads of a token.
module _ {A : Type 0} (r : Ring A) (L : Linear A) (T : Tensors)
    (heads_of : T.Row → List (List A)) where
  open T use {Row}

  abbrev pub Kv : Type 0
  Kv = List (List (List (List A))) × List (List (List (List A)))

  unfoldable pub read_heads : List (List Row) → List (List (List (List A)))
  read_heads layers = map (map heads_of) layers

  -- A model's rotary module.
  abbrev pub Rotary : Type 0
  Rotary = List ℕ → List (List A) × List (List A)

  -- A call that does not touch the cache.
  unfoldable pub lift : {B : Type 0} → Call B → M (Cache T) B
  lift m c = elim (m tt) [ ok b _ ↦ ok b c | raise e _ ↦ raise e c ]

  unfoldable pub map_prefix :
      Runner T → ℕ → Rotary → Rotary → KvMap r L → List ℕ → ℕ → Bool → M (Cache T) Kv
  map_prefix source_runner num_layers source_rotary target_rotary kv_map block_ids n_tokens
        use_residual =
      do
        let n : ℕ = n_tokens - 1
        kv ← export_rows T source_runner num_layers block_ids n
        let positions : List ℕ = range_from 0 n
        lift (
            map_kv r L kv_map (read_heads kv.0) (read_heads kv.1)
              (rope_tables source_rotary positions) (rope_tables target_rotary positions)
              use_residual)

  -- `prefill_and_map`; the `try` starts after the forward pass.
  unfoldable pub prefill_and_map :
      Runner T → ℕ → Rotary → Rotary → KvMap r L → ℕ → List ℕ → Bool → M (Cache T) Kv
  prefill_and_map source_runner num_layers source_rotary target_rotary kv_map sid prompt_ids
        use_residual =
      do
        done ← prefill T source_runner sid prompt_ids
        try_finally
            (map_prefix source_runner num_layers source_rotary target_rotary kv_map done.0.block_ids
              (length prompt_ids) use_residual)
            (on_mgr T (BlockManager.free sid))

-- `params or SamplingParams()` is the caller's here.
unfoldable pub escalate :
    (T : Tensors) → List ℕ → PrefixKv T → ℕ → SamplingParams → Option ℕ → ℤ → M (Engine T) ℕ
escalate T prompt_ids mapped_kv max_new_tokens params eos_id priority =
    add_request T prompt_ids max_new_tokens params eos_id priority (some mapped_kv)
