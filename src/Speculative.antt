-- ===== src/Speculative.antt =====
-- dispec/spec/speculative.py, `_forward`: the pass of a model over the next tokens of a sequence. The
-- model is a `Runner` of the scheduler.
pub mod Forward
mod Tests
use di_spec.Prelude.{
  ℕ, ◌+◌, List, [], ◌∷◌, length, range_from, M, Outcome, ok, raise, ◌>>=◌, ◌>>◌, ret, or_raise,
  zoom, index_error,
}
use di_spec.BlockManager.{BlockManager, BlockTable}
use di_spec.BlockManager
use di_spec.PagedCache.{Tensors, KvStore, slots_for_positions}
use di_spec.Scheduler.{SeqMeta, Runner}

module _ (T : Tensors) where
  -- What `_forward` uses of a `PagedKVCache`.
  pub record Cache : Type 0 where
    pub mgr : BlockManager
    pub store : KvStore T

  abbrev pub on_mgr {ℓ} : {A : Type ℓ} → M BlockManager A → M Cache A
  on_mgr = zoom (λ c. c.mgr) (λ c m. record c { mgr = m })

  module _ (R : Runner T) where
    open R use {logits}

    -- `runner.forward` and `runner.logits`.
    unfoldable pub run_model : List ℕ → List ℕ → List ℕ → SeqMeta → M Cache (List R.Logits)
    run_model tokens positions slots meta c =
        let (hidden, store) = R.forward tokens positions slots (meta ∷ []) c.store in
        ok (logits hidden) (record c { store = store })

    -- `_forward`: `table` is the object that `reserve` extends. What `reserve` is given is
    -- `start_pos + n - table.num_tokens`.
    unfoldable pub forward : ℕ → List ℕ → ℕ → M Cache (List R.Logits)
    forward sid tokens start_pos c =
        (do
          before ← on_mgr (BlockManager.block_table sid)
          let n : ℕ = length tokens
          on_mgr (BlockManager.reserve sid (start_pos + n) before.num_tokens)
          table ← on_mgr (BlockManager.block_table sid)
          let positions : List ℕ = range_from start_pos n
          slots ←
              or_raise (slots_for_positions c.mgr.block_size table.block_ids positions) index_error
          on_mgr (BlockManager.set_num_tokens sid (start_pos + n))
          run_model tokens positions slots
              (record { block_ids = table.block_ids; q_len = n; ctx_len = start_pos + n }))
          c
