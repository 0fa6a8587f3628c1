-- ===== src/BlockManager/Exclusive.antt =====
-- Managers that share no block: what the batching engine's manager always is, since the engine
-- neither forks nor adopts blocks.
use di_spec.Prelude.{
  ℕ, ◌+◌, ◌*◌, ◌%◌, ◌≤◌, ◌<◌, ◌≡◌, ◌≢◌, ◌∙◌, List, [], none, some, arith, length, lookup, remove,
  lookup-remove_ne, count, count-append, count-take-drop, ok,
}
use di_spec.BlockManager.{
  BlockManager, BlockTable, Pool, blocks_needed, num_free_blocks, allocate, append_token,
}
use di_spec.BlockManager.Invariant.{
  IsValid, held, held-insert_new, held-insert, held-remove, held_of_lookup, with_table,
}
use di_spec.BlockManager.Growth.{adopted, appended, allocate-IsValid, append_token-IsValid}
use di_spec.BlockManager.Release.{truncated, without}

-- No block stands in two tables, or twice in one.
abbrev pub IsExclusive : BlockManager → Type 0
IsExclusive m = (b : ℕ) → held m.tables b ≤ 1

abbrev pub no_pins : ℕ → ℕ
no_pins b = 0

pub table_once :
    (m : BlockManager) (seq_id : ℕ) (t : BlockTable)
    → IsExclusive m
    → lookup seq_id m.tables ≡ some t
    → (b : ℕ) → count b t.block_ids ≤ 1
table_once m seq_id t x e b = omega (arith, x b, held_of_lookup seq_id b m.tables t e)

pub tables_apart :
    (m : BlockManager) (seq_id other : ℕ) (t u : BlockTable)
    → IsExclusive m
    → other ≢ seq_id
    → lookup seq_id m.tables ≡ some t
    → lookup other m.tables ≡ some u
    → (b : ℕ) → 0 < count b t.block_ids
    → count b u.block_ids ≡ 0
tables_apart m seq_id other t u x ne e f b h = omega (
  arith,
  x b,
  held-remove seq_id b m.tables t e,
  held_of_lookup other b (remove seq_id m.tables) u (lookup-remove_ne other seq_id m.tables ne ∙ f),
)

fresh_bound : (n h : ℕ) → h ≤ 1 → (0 < n → (n ≡ 1) × (h + 0 ≡ 0)) → h + n ≤ 1
fresh_bound n h le f = grind arith

-- `allocate` of a new sequence without reused blocks succeeds exactly as the free list allows, and
-- keeps the manager valid and without shared blocks.
pub allocate-IsExclusive :
    {m : BlockManager} (seq_id num_tokens : ℕ)
    → IsValid no_pins m
    → IsExclusive m
    → lookup seq_id m.tables ≡ none
    → blocks_needed m.block_size num_tokens ≤ num_free_blocks m
    → (ids : List ℕ) × (p : Pool) × (allocate seq_id num_tokens [] m
        ≡ ok (adopted num_tokens [] ids) (with_table m p seq_id (adopted num_tokens [] ids)))
      × IsValid no_pins (with_table m p seq_id (adopted num_tokens [] ids))
      × IsExclusive (with_table m p seq_id (adopted num_tokens [] ids))
      × (length ids ≡ blocks_needed m.block_size num_tokens)
      × (length p.free + blocks_needed m.block_size num_tokens ≡ num_free_blocks m)
unfolding count
allocate-IsExclusive {m} seq_id num_tokens v x new_id room =
    let (ids, p, e, v', l, spent, fresh) =
      allocate-IsValid seq_id num_tokens [] v new_id (λ b h. absurd (omega arith)) (omega arith) in
    (
      ids,
      p,
      e,
      v',
      λ b. omega (
        arith,
        held-insert_new seq_id b m.tables (adopted num_tokens [] ids) new_id,
        fresh_bound (count b ids) (held m.tables b) (x b) (fresh b),
      ),
      omega (arith, l),
      omega (arith, spent),
    )

-- `append_token` keeps a manager valid and without shared blocks.
pub append_token-IsExclusive :
    {m : BlockManager} (seq_id : ℕ) (t : BlockTable)
    → IsValid no_pins m
    → IsExclusive m
    → lookup seq_id m.tables ≡ some t
    → t.num_tokens ≤ length t.block_ids * m.block_size
    → (t.num_tokens % m.block_size ≡ 0 → 0 < num_free_blocks m)
    → (b : ℕ) × (fresh : List ℕ) × (p : Pool) × (append_token seq_id m
        ≡ ok (b, t.num_tokens % m.block_size) (with_table m p seq_id (appended t fresh)))
      × IsValid no_pins (with_table m p seq_id (appended t fresh))
      × IsExclusive (with_table m p seq_id (appended t fresh))
append_token-IsExclusive {m} seq_id t v x e fits room =
    let (b, fresh, p, e', v', _, _, _, apart) = append_token-IsValid seq_id t v e fits room in
    (
      b,
      fresh,
      p,
      e',
      v',
      λ c. omega (
        arith,
        held-insert seq_id c m.tables t (appended t fresh) e,
        count-append c t.block_ids fresh,
        fresh_bound (count c fresh) (held m.tables c) (x c) (apart c),
      ),
    )

-- Giving blocks back shares none.
pub truncate-IsExclusive :
    (m : BlockManager) (p : Pool) (seq_id num_tokens : ℕ) (t : BlockTable)
    → IsExclusive m
    → lookup seq_id m.tables ≡ some t
    → IsExclusive (with_table m p seq_id (truncated m t num_tokens))
truncate-IsExclusive m p seq_id num_tokens t x e b = omega (
  arith,
  x b,
  held-insert seq_id b m.tables t (truncated m t num_tokens) e,
  count-take-drop b (blocks_needed m.block_size num_tokens) t.block_ids,
)

pub free-IsExclusive :
    (m : BlockManager) (p : Pool) (seq_id : ℕ) (t : BlockTable)
    → IsExclusive m
    → lookup seq_id m.tables ≡ some t
    → IsExclusive (without m p seq_id)
free-IsExclusive m p seq_id t x e b = omega (arith, x b, held-remove seq_id b m.tables t e)
