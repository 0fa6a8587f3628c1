-- ===== src/BlockManager/Release.antt =====
-- `truncate`, `free`, `release` and `add_ref`: the operations that give references back, or take
-- one more.
use di_spec.Prelude.{
  ℕ, ◌+◌, ◌-◌, ◌≤◌, ◌<◌, ◌≡◌, refl, ap, ◌∙◌, List, none, some, arith, length, take, drop, lookup,
  insert, remove, count, hit, count-take-drop, lookup-insert_self, lookup-remove_self,
  remove-IsOnce, remove-insert, Dict, ok,
}
use di_spec.BlockManager.{
  BlockManager, BlockTable, Pool, blocks_needed, num_free_blocks, allocate, truncate, free, release,
  add_ref, block_table, set_table,
}
use di_spec.BlockManager.Balance.{
  IsBalanced, IsBalanced-cong, refs, decref-IsBalanced, incref-IsBalanced,
}
use di_spec.BlockManager.Pooling.{decref_all-IsBalanced}
use di_spec.BlockManager.Invariant.{
  IsValid, held, held-insert, held-remove, with_table, table-IsValid,
}
use di_spec.BlockManager.Growth.{IsShared, adopted, allocate-IsValid}

-- The table that `truncate` leaves.
abbrev pub truncated : BlockManager → BlockTable → ℕ → BlockTable
truncated m t num_tokens = record {
  block_ids = take (blocks_needed m.block_size num_tokens) t.block_ids;
  num_tokens = num_tokens;
}

-- `truncate` never fails on a sequence of a valid manager: it keeps the leading blocks that the
-- tokens need, drops one reference to each of the others, records the length, leaves every other
-- table alone and keeps the manager valid.
pub truncate-IsValid :
    {pins : ℕ → ℕ} {m : BlockManager} (seq_id : ℕ) (t : BlockTable) (num_tokens : ℕ)
    → IsValid pins m
    → lookup seq_id m.tables ≡ some t
    → (p : Pool) × (truncate seq_id num_tokens m
        ≡ ok tt (with_table m p seq_id (truncated m t num_tokens)))
      × IsValid pins (with_table m p seq_id (truncated m t num_tokens))
unfolding truncate block_table set_table
truncate-IsValid {pins} {m} seq_id t num_tokens v e =
    let keep : ℕ = blocks_needed m.block_size num_tokens in
    let t' : BlockTable = truncated m t num_tokens in
    let (p, e₁, v₁) =
      decref_all-IsBalanced (drop keep t.block_ids)
        (λ b. held (insert seq_id t' m.tables) b + pins b) v.balanced
        (λ b.
          omega
            (arith, held-insert seq_id b m.tables t t' e, count-take-drop b keep t.block_ids)) in
    (p, ground (arith, e, e₁), table-IsValid seq_id t' v v₁)

-- The manager without a sequence.
abbrev pub without : BlockManager → Pool → ℕ → BlockManager
without m p seq_id = record m { pool = p; tables = remove seq_id m.tables }

-- `free` never fails on a valid manager: the sequence is gone, every other one keeps its table, and
-- the manager stays valid.
pub free-IsValid :
    {pins : ℕ → ℕ} {m : BlockManager} (seq_id : ℕ) (t : BlockTable)
    → IsValid pins m
    → lookup seq_id m.tables ≡ some t
    → (p : Pool) × (free seq_id m ≡ ok tt (without m p seq_id))
      × IsValid pins (without m p seq_id)
      × (lookup seq_id (without m p seq_id).tables ≡ none)
unfolding free
free-IsValid {pins} {m} seq_id t v e =
    let rest = remove seq_id m.tables in
    let (p, e₁, v₁) =
      decref_all-IsBalanced t.block_ids (λ b. held rest b + pins b) v.balanced
        (λ b. omega (arith, held-remove seq_id b m.tables t e)) in
    (
      p,
      ground (arith, e, e₁),
      record { positive = v.positive; balanced = v₁; once = remove-IsOnce seq_id m.tables v.once },
      lookup-remove_self seq_id m.tables (v.once seq_id),
    )

-- Freeing a sequence that is not there changes nothing.
pub free_unknown :
    (m : BlockManager) (seq_id : ℕ) → lookup seq_id m.tables ≡ none → free seq_id m ≡ ok tt m
unfolding free
free_unknown m seq_id e = ground (arith, e)

-- `add_ref` of a referenced block is a pin more, and `release` of a pinned block is a pin less.
pub add_ref-IsValid :
    {pins : ℕ → ℕ} {m : BlockManager} (b : ℕ)
    → IsValid pins m
    → 0 < held m.tables b + pins b
    → (p : Pool) × (add_ref b m ≡ ok tt (record m { pool = p }))
      × IsValid (λ c. pins c + hit c b) (record m { pool = p })
      × (p.free ≡ m.pool.free)
unfolding add_ref
add_ref-IsValid {pins} {m} b v h =
    let (p, e₁, v₁, f₁) = incref-IsBalanced v.balanced b h in
    (
      p,
      ground (arith, e₁),
      record {
        positive = v.positive;
        balanced = IsBalanced-cong (λ c. omega arith) v₁;
        once = v.once;
      },
      f₁,
    )

pub release-IsValid :
    {pins : ℕ → ℕ} {m : BlockManager} (b : ℕ) (pins' : ℕ → ℕ)
    → IsValid pins m
    → ((c : ℕ) → pins c ≡ pins' c + hit c b)
    → (p : Pool) × (release b m ≡ ok tt (record m { pool = p }))
      × IsValid pins' (record m { pool = p })
unfolding release
release-IsValid {pins} {m} b pins' v h =
    let (p, e₁, v₁) =
      decref-IsBalanced v.balanced b (λ c. held m.tables c + pins' c) (λ c. omega (arith, h c)) in
    (p, ground (arith, e₁), record { positive = v.positive; balanced = v₁; once = v.once })

-- Two valid states with the same references have the same free blocks.
pub free_agree :
    {n : ℕ} {own own' : ℕ → ℕ} {p p' : Pool}
    → IsBalanced n own p
    → IsBalanced n own' p'
    → ((b : ℕ) → own b ≡ own' b)
    → (b : ℕ) → count b p.free ≡ count b p'.free
free_agree v w h b = omega (arith, v.conserved b, w.conserved b, v.counted b, w.counted b, h b)

-- What `allocate` takes, `free` gives back: the sequence is gone again, and every block stands in
-- the free list as often, and is referenced as often, as before.
pub free-allocate :
    {pins : ℕ → ℕ} {m : BlockManager} (seq_id num_tokens : ℕ) (reuse : List ℕ)
    → IsValid pins m
    → lookup seq_id m.tables ≡ none
    → IsShared pins m reuse
    → blocks_needed m.block_size num_tokens - length reuse ≤ num_free_blocks m
    → (t : BlockTable) × (m₁ : BlockManager) × (p : Pool) × (allocate seq_id num_tokens reuse m
        ≡ ok t m₁)
      × (free seq_id m₁ ≡ ok tt (record m { pool = p }))
      × ((b : ℕ) → count b p.free ≡ count b m.pool.free)
      × ((b : ℕ) → refs p.ref_count b ≡ refs m.pool.ref_count b)
free-allocate {pins} {m} seq_id num_tokens reuse v new_id shared room =
    let (new, p₁, e₁, v₁, _, _, _) =
      allocate-IsValid seq_id num_tokens reuse v new_id shared room in
    let t : BlockTable = adopted num_tokens reuse new in
    let m₁ : BlockManager = with_table m p₁ seq_id t in
    let (p₂, e₂, v₂, _) =
      free-IsValid {m = m₁} seq_id t v₁ (lookup-insert_self seq_id t m.tables) in
    let back : remove seq_id (insert seq_id t m.tables) ≡ m.tables =
      remove-insert seq_id t m.tables new_id in
    let v₃ : IsValid pins (record m { pool = p₂ }) = rw back at v₂ in
    (
      t,
      m₁,
      p₂,
      e₁,
      e₂ ∙ ap (λ (d : Dict BlockTable). ok tt (record m { pool = p₂; tables = d })) back,
      free_agree v₃.balanced v.balanced (λ b. refl),
      λ b. omega (arith, v₃.balanced.counted b, v.balanced.counted b),
    )
