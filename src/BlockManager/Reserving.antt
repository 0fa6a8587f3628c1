-- ===== src/BlockManager/Reserving.antt =====
-- `reserve`: capacity for tokens to come.
use di_spec.Prelude.{
  ℕ, ◌+◌, ◌-◌, ◌*◌, ◌≤◌, ◌<◌, ◌≡◌, inl, inr, List, [], ◌++◌, append-nil, some, arith, length,
  length-append, ltb, ltb→le, if◌then◌else◌, lookup, insert, count-append, insert_same, Bool-cases,
  ok, raise, out_of_blocks,
}
use di_spec.BlockManager.{
  BlockManager, BlockTable, Pool, blocks_needed, num_free_blocks, reserve, extend, block_table,
  set_table,
}
use di_spec.BlockManager.Balance.{IsBalanced-cong}
use di_spec.BlockManager.Pooling.{alloc_blocks-IsBalanced}
use di_spec.BlockManager.Invariant.{IsValid, held-insert, with_table, table-IsValid}

-- Enough blocks for the tokens, and no block too many.
pub blocks_needed_bounds :
    (block_size n : ℕ)
    → 0 < block_size
    → (n ≤ blocks_needed block_size n * block_size)
      × (blocks_needed block_size n * block_size < n + block_size)
unfolding blocks_needed
blocks_needed_bounds block_size n h = (grind arith, grind arith)

covered :
    (l bs less want f : ℕ) (ids : List ℕ)
    → length ids ≡ l + f
    → want - (l * bs + less) ≤ f * bs
    → want ≤ length ids * bs + less
covered l bs less want f ids e h = rw e (grind arith)

-- The blocks that `reserve` adds to a table.
abbrev pub extra_blocks : BlockManager → BlockTable → ℕ → ℕ → ℕ
extra_blocks m t num_new less =
    if ltb (length t.block_ids * m.block_size + less) (num_new + t.num_tokens)
    then blocks_needed m.block_size
        (num_new + t.num_tokens - (length t.block_ids * m.block_size + less))
    else 0

-- The table that `reserve` leaves.
abbrev pub extended : BlockTable → List ℕ → BlockTable
extended t fresh = record t { block_ids = t.block_ids ++ fresh }

module _ {pins : ℕ → ℕ} {m : BlockManager} (seq_id : ℕ) (t : BlockTable) (v : IsValid pins m)
    (e : lookup seq_id m.tables ≡ some t) where
  extend-IsValid :
      (extra : ℕ)
      → extra ≤ num_free_blocks m
      → (fresh : List ℕ) × (p : Pool) × (extend seq_id t extra m
          ≡ ok tt (with_table m p seq_id (extended t fresh)))
        × IsValid pins (with_table m p seq_id (extended t fresh))
        × (length fresh ≡ extra)
        × (length p.free + extra ≡ num_free_blocks m)
  unfolding extend set_table
  extend-IsValid extra room =
      let (fresh, p, e₁, v₁, l, spent, _) = alloc_blocks-IsBalanced extra v.balanced room in
      let t' : BlockTable = extended t fresh in
      (
        fresh,
        p,
        ground (arith, e₁),
        table-IsValid seq_id t' v (
            IsBalanced-cong
              (λ c.
                omega
                  (arith, held-insert seq_id c m.tables t t' e, count-append c t.block_ids fresh))
              v₁),
        l,
        spent,
      )

  same_table : insert seq_id (extended t []) m.tables ≡ m.tables
  same_table = rw (append-nil t.block_ids) (insert_same seq_id t m.tables e)

  -- With enough free blocks `reserve` keeps the manager valid, leaves every other table alone and
  -- gives this one capacity for `num_new - less` tokens more than it has, by as many fresh blocks
  -- at its end as that takes.
  pub reserve-IsValid :
      (num_new less : ℕ)
      → extra_blocks m t num_new less ≤ num_free_blocks m
      → (fresh : List ℕ) × (p : Pool) × (reserve seq_id num_new less m
          ≡ ok tt (with_table m p seq_id (extended t fresh)))
        × IsValid pins (with_table m p seq_id (extended t fresh))
        × (length fresh ≡ extra_blocks m t num_new less)
        × (num_new + t.num_tokens ≤ length (t.block_ids ++ fresh) * m.block_size + less)
        × (length p.free + length fresh ≡ num_free_blocks m)
  unfolding reserve block_table
  reserve-IsValid num_new less room =
      let bs : ℕ = m.block_size in
      let have : ℕ = length t.block_ids * bs + less in
      let want : ℕ = num_new + t.num_tokens in
      elim (Bool-cases (ltb have want)) [
        | inr fits ↦ (
          [],
          m.pool,
          ground (arith, e, same_table),
          rw same_table v,
          rw fits,
          rw append-nil (ltb→le have want fits),
          omega arith,
        )
        | inl short ↦
            let extra : ℕ = blocks_needed bs (want - have) in
            let enough : extra ≤ num_free_blocks m = rw short at room in
            let (fresh, p, e₁, v', l, spent) = extend-IsValid extra enough in
            (
              fresh,
              p,
              ground (arith, e, e₁),
              v',
              rw short l,
              covered (length t.block_ids) bs less want (length fresh) (t.block_ids ++ fresh)
                  (length-append t.block_ids fresh)
                  (rw l ((blocks_needed_bounds bs (want - have) v.positive).0)),
              omega arith,
            )
      ]

  -- Without them it raises and changes nothing.
  pub reserve_refuses :
      (num_new less : ℕ)
      → num_free_blocks m < extra_blocks m t num_new less
      → reserve seq_id num_new less m ≡ raise out_of_blocks m
  unfolding reserve block_table
  reserve_refuses num_new less h = ground (arith, e)
