-- ===== src/PagedCache/Exclusive.antt =====
-- Where no block is shared, no two tokens of the cache share a slot.
use di_spec.Prelude.{ℕ, ◌*◌, ◌≤◌, ◌≡◌, ◌≢◌, List, some, count, lookup, range_from, arith}
use di_spec.BlockManager.{BlockManager, BlockTable}
use di_spec.BlockManager.Invariant.{IsValid}
use di_spec.BlockManager.Exclusive.{IsExclusive, no_pins, table_once, tables_apart}
use di_spec.PagedCache.{context_slots}
use di_spec.PagedCache.Slots.{slots_once, slots_apart, count-range_from}

-- In a valid manager without shared blocks the context slots of a sequence are distinct, and those
-- of two sequences have none in common: no sequence reads or writes the KV of another one.
pub context_slots_apart :
    (m : BlockManager) (seq_id other : ℕ) (t u : BlockTable) (n k : ℕ) (ss os : List ℕ)
    → IsValid no_pins m
    → IsExclusive m
    → other ≢ seq_id
    → lookup seq_id m.tables ≡ some t
    → lookup other m.tables ≡ some u
    → context_slots m.block_size t.block_ids n ≡ some ss
    → context_slots m.block_size u.block_ids k ≡ some os
    → (s : ℕ) → (count s ss ≤ 1) × (count s ss * count s os ≡ 0)
unfolding context_slots
context_slots_apart m seq_id other t u n k ss os v x ne e f hs ho s = (
  slots_once m.block_size t.block_ids (range_from 0 n) ss v.positive (table_once m seq_id t x e)
      (λ c. ground (arith, count-range_from c 0 n)) hs s,
  slots_apart m.block_size t.block_ids u.block_ids (range_from 0 n) (range_from 0 k) ss os
      v.positive (tables_apart m seq_id other t u x ne e f) hs ho s,
)
