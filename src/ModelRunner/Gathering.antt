-- ===== src/ModelRunner/Gathering.antt =====
-- Attending to a fresh prompt directly instead of gathering it back.
use di_spec.Prelude.{
  ℕ, ◌<◌, ◌≤◌, ◌≡◌, ◌∙◌, List, some, arith, length, count, ==_self, length-range_from, range_from,
}
use di_spec.Prelude.Rings.{Ring}
use di_spec.PagedCache.{Tensors, KvStore, write, gather, context_slots}
use di_spec.PagedCache.Slots.{slots_once, count-range_from, slots_for_positions-length}
use di_spec.ModelRunner.{Weights, context_rows}

-- A fresh prompt, whose keys and values were just written at the slots of its context, attends to the
-- rows that gathering its context would give, when no block stands twice in its table.
pub context_rows_fresh :
    {A : Type 0} (r : Ring A) (W : Weights A) (T : Tensors) (block_size : ℕ)
    (to_row : List (List A) → T.Row) (layer_idx : ℕ) (block_ids slots : List ℕ) (k v : List T.Row)
    (s : KvStore T)
    → 0 < block_size
    → ((b : ℕ) → count b block_ids ≤ 1)
    → context_slots block_size block_ids (length k) ≡ some slots
    → length k ≡ length v
    → context_rows r W T block_size to_row layer_idx
        (record { block_ids = block_ids; q_len = length k; ctx_len = length k })
        k
        v
        (write T layer_idx slots k v s)
      ≡ some (gather T layer_idx slots (write T layer_idx slots k v s))
unfolding context_rows write gather context_slots
context_rows_fresh r W T block_size to_row layer_idx block_ids slots k v s positive once e same =
    let distinct : (p : ℕ) → count p slots ≤ 1 =
      slots_once block_size block_ids (range_from 0 (length k)) slots positive once
        (λ c. ground (arith, count-range_from c 0 (length k))) e in
    let size : length slots ≡ length k =
      slots_for_positions-length block_size block_ids (range_from 0 (length k)) slots e
      ∙ length-range_from 0 (length k) in
    ground (
      arith,
      ==_self (length k),
      T.index-index_copy layer_idx slots k s.key distinct size,
      T.index-index_copy layer_idx slots v s.value distinct (size ∙ same),
    )
