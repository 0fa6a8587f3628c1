-- ===== src/BlockManager/Invariant.antt =====
-- The invariant of `BlockManager`: every block of the pool is free or referenced, never both, and
-- its count is the number of places in the block tables that name it, plus the references that
-- `pins` (the prefix cache) holds.
use di_spec.Prelude.{
  ℕ, zero, suc, ◌+◌, ◌≤◌, ◌<◌, ◌≡◌, refl, ap, [], ◌∷◌, none, some, arith, length, Dict, lookup,
  insert, remove, IsOnce, insert-IsOnce, count,
}
use di_spec.BlockManager.{BlockManager, BlockTable, Pool, init, all_blocks}
use di_spec.BlockManager.Balance.{IsBalanced, in_pool}

-- How often the tables name a block.
unfoldable pub held : Dict BlockTable → ℕ → ℕ
held [] b = 0
held ((_, t) ∷ d) b = count b t.block_ids + held d b

pub held-remove :
    (k b : ℕ) (d : Dict BlockTable) (t : BlockTable)
    → lookup k d ≡ some t
    → held d b ≡ held (remove k d) b + count b t.block_ids
unfolding held lookup remove
held-remove k b [] t h = cc
held-remove k b ((j, w) ∷ d) t h = ground (arith, held-remove k b d t)

pub held-insert_new :
    (k b : ℕ) (d : Dict BlockTable) (t : BlockTable)
    → lookup k d ≡ none
    → held (insert k t d) b ≡ held d b + count b t.block_ids
unfolding held lookup insert
held-insert_new k b [] t h = omega arith
held-insert_new k b ((j, w) ∷ d) t h = ground (arith, held-insert_new k b d t)

pub held-insert :
    (k b : ℕ) (d : Dict BlockTable) (t t' : BlockTable)
    → lookup k d ≡ some t
    → held (insert k t' d) b + count b t.block_ids ≡ held d b + count b t'.block_ids
unfolding held lookup insert
held-insert k b [] t t' h = cc
held-insert k b ((j, w) ∷ d) t t' h = ground (arith, held-insert k b d t t')

pub held_of_lookup :
    (k b : ℕ) (d : Dict BlockTable) (t : BlockTable)
    → lookup k d ≡ some t
    → count b t.block_ids ≤ held d b
held_of_lookup k b d t h = omega (arith, held-remove k b d t h)

pub record IsValid (pins : ℕ → ℕ) (m : BlockManager) : Type 0 where
  pub positive : 0 < m.block_size
  pub balanced : IsBalanced m.num_blocks (λ b. held m.tables b + pins b) m.pool
  pub once : IsOnce m.tables

count-all_blocks : (n b : ℕ) → count b (all_blocks n) ≡ in_pool n b
unfolding all_blocks count
count-all_blocks zero b = ground arith
count-all_blocks (suc n) b = ground (arith, count-all_blocks n b)

length-all_blocks : (n : ℕ) → length (all_blocks n) ≡ n
unfolding all_blocks
length-all_blocks zero = refl
length-all_blocks (suc n) = ap suc (length-all_blocks n)

-- A new manager is valid, and all of its blocks are free.
pub init-IsValid :
    (num_blocks block_size : ℕ)
    → 0 < block_size
    → IsValid (λ b. 0) (init num_blocks block_size)
      × (length (init num_blocks block_size).pool.free ≡ num_blocks)
unfolding init held lookup count
init-IsValid n size h = (
  record {
    positive = h;
    balanced = record {
      counted = λ b. refl;
      stored = λ b e. cc;
      conserved = λ b. omega (arith, count-all_blocks n b);
      once = λ k. omega arith;
    };
    once = λ k. omega arith;
  },
  length-all_blocks n,
)

-- The manager with another pool and one table written.
abbrev pub with_table : BlockManager → Pool → ℕ → BlockTable → BlockManager
with_table m p k t = record m { pool = p; tables = insert k t m.tables }

pub table-IsValid :
    {pins : ℕ → ℕ} {m : BlockManager} {p : Pool} (k : ℕ) (t : BlockTable)
    → IsValid pins m
    → IsBalanced m.num_blocks (λ b. held (insert k t m.tables) b + pins b) p
    → IsValid pins (with_table m p k t)
table-IsValid k t v w = record {
  positive = v.positive;
  balanced = w;
  once = insert-IsOnce k t _ v.once;
}
