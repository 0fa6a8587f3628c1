-- ===== src/BlockManager/Growth.antt =====
-- `allocate`, `append_token` and `reserve`: the operations that take blocks.
use di_spec.Prelude.{
  ℕ, ◌+◌, ◌-◌, ◌*◌, ◌/◌, ◌%◌, ◌≤◌, ◌<◌, ◌≡◌, refl, ap, ◌∙◌, ◌≢◌, inl, inr, List, [], ◌∷◌, ◌++◌,
  append-nil, none, some, true, false, arith, length, length-append, get_elem?, get_elem?_of_lt,
  le→ltb, ◌==◌, ==→eq, ==→ne, if◌then◌else◌, lookup, insert, has, insert-insert, Dict, count,
  count-append, has-false_of_lookup, Bool-cases, ok, raise, value_error, out_of_blocks,
}
use di_spec.BlockManager.{
  BlockManager, BlockTable, Pool, blocks_needed, num_free_blocks, allocate, adopt, set_table,
  append_token, grow, slot, block_table,
}
use di_spec.BlockManager.Balance.{IsBalanced, IsBalanced-cong, alloc_block-IsBalanced, own_of_free}
use di_spec.BlockManager.Pooling.{
  taken-IsFresh, incref_all-IsBalanced, alloc_blocks-IsBalanced, nonempty,
}
use di_spec.BlockManager.Invariant.{
  IsValid, held, held-insert_new, held-insert, with_table, table-IsValid,
}

-- Every block of the list is referenced already, by a table or by `pins`.
abbrev pub IsShared : (ℕ → ℕ) → BlockManager → List ℕ → Type 0
IsShared pins m bs = (b : ℕ) → 0 < count b bs → 0 < held m.tables b + pins b

-- The table that `allocate` makes.
abbrev pub adopted : ℕ → List ℕ → List ℕ → BlockTable
adopted num_tokens reuse new = record { block_ids = reuse ++ new; num_tokens = num_tokens }

adopt-IsValid :
    {pins : ℕ → ℕ} {m : BlockManager} (seq_id num_tokens : ℕ) (reuse : List ℕ) (n_new : ℕ)
    → IsValid pins m
    → lookup seq_id m.tables ≡ none
    → IsShared pins m reuse
    → n_new ≤ num_free_blocks m
    → (new : List ℕ) × (p : Pool) × (adopt seq_id num_tokens reuse n_new m
        ≡ ok (adopted num_tokens reuse new) (with_table m p seq_id (adopted num_tokens reuse new)))
      × IsValid pins (with_table m p seq_id (adopted num_tokens reuse new))
      × (length new ≡ n_new)
      × (length p.free + n_new ≡ num_free_blocks m)
      × ((c : ℕ) → 0 < count c new → (count c new ≡ 1) × (held m.tables c + pins c ≡ 0))
unfolding adopt set_table
adopt-IsValid {pins} {m} seq_id num_tokens reuse n_new v new_id shared room =
    let (p₁, e₁, v₁, f₁) = incref_all-IsBalanced reuse v.balanced shared in
    let (new, p₂, e₂, v₂, l₂, f₂, taken) =
      alloc_blocks-IsBalanced n_new v₁ (omega (arith, ap length f₁)) in
    let t : BlockTable = adopted num_tokens reuse new in
    (
      new,
      p₂,
      ground (arith, e₁, e₂),
      table-IsValid seq_id t v (
          IsBalanced-cong
            (λ b.
              omega (arith, held-insert_new seq_id b m.tables t new_id, count-append b reuse new))
            v₂),
      l₂,
      omega (arith, ap length f₁),
      taken-IsFresh new p₂.free v.balanced (λ c. taken c ∙ ap (count c) f₁),
    )

-- On a valid manager, for a new sequence, with the reused blocks referenced and room for the rest:
-- `allocate` returns a table of the reused blocks followed by fresh ones, registers it, takes that
-- many blocks off the free list, changes no other table and keeps the manager valid. Each fresh block
-- stands once in the table, and nothing referenced it before.
pub allocate-IsValid :
    {pins : ℕ → ℕ} {m : BlockManager} (seq_id num_tokens : ℕ) (reuse : List ℕ)
    → IsValid pins m
    → lookup seq_id m.tables ≡ none
    → IsShared pins m reuse
    → blocks_needed m.block_size num_tokens - length reuse ≤ num_free_blocks m
    → (new : List ℕ) × (p : Pool) × (allocate seq_id num_tokens reuse m
        ≡ ok (adopted num_tokens reuse new) (with_table m p seq_id (adopted num_tokens reuse new)))
      × IsValid pins (with_table m p seq_id (adopted num_tokens reuse new))
      × (length new ≡ blocks_needed m.block_size num_tokens - length reuse)
      × (length p.free + (blocks_needed m.block_size num_tokens - length reuse) ≡ num_free_blocks m)
      × ((c : ℕ) → 0 < count c new → (count c new ≡ 1) × (held m.tables c + pins c ≡ 0))
unfolding allocate
allocate-IsValid {pins} {m} seq_id num_tokens reuse v new_id shared room =
    let n_new : ℕ = blocks_needed m.block_size num_tokens - length reuse in
    let (new, p, e, v', l, spent, fresh) =
      adopt-IsValid seq_id num_tokens reuse n_new v new_id shared room in
    (
      new,
      p,
      rw (has-false_of_lookup seq_id m.tables new_id, le→ltb (num_free_blocks m) n_new room) e,
      v',
      l,
      spent,
      fresh,
    )

-- A second `allocate` of a sequence, and one that wants more blocks than are free, raise and leave
-- the manager as it was.
pub allocate_refuses :
    (m : BlockManager) (seq_id num_tokens : ℕ) (reuse : List ℕ)
    → ((has seq_id m.tables ≡ true) → allocate seq_id num_tokens reuse m ≡ raise value_error m)
      × ((has seq_id m.tables ≡ false)
          → num_free_blocks m < blocks_needed m.block_size num_tokens - length reuse
          → allocate seq_id num_tokens reuse m ≡ raise out_of_blocks m)
unfolding allocate
allocate_refuses m seq_id num_tokens reuse = (λ h. rw h, λ h room. ground arith)

div_bound : (n b l : ℕ) → 0 < b → n ≤ l * b → n / b ≤ l
div_bound n b l h le = grind arith

pub div_lt : (n b l : ℕ) → 0 < b → n ≤ l * b → n % b ≢ 0 → n / b < l
div_lt n b l h le r = grind arith

-- What `grow` leaves: the table with a fresh block at a block boundary, and as it was elsewhere.
-- The write of the table that follows in `append_token` covers the one that `grow` makes.
abbrev Grows : (ℕ → ℕ) → BlockManager → ℕ → BlockTable → ℕ → Type 0
Grows pins m seq_id t extra =
    (fresh : List ℕ) × (m₁ : BlockManager) × (grow seq_id t m
      ≡ ok (record t { block_ids = t.block_ids ++ fresh }) m₁)
    × IsBalanced m.num_blocks (λ b. held m.tables b + count b fresh + pins b) m₁.pool
    × ((t' : BlockTable) → with_table m₁ m₁.pool seq_id t' ≡ with_table m m₁.pool seq_id t')
    × (length fresh ≡ extra)
    × (num_free_blocks m₁ + extra ≡ num_free_blocks m)
    × ((c : ℕ) → 0 < count c fresh → (count c fresh ≡ 1) × (held m.tables c + pins c ≡ 0))

module _ {pins : ℕ → ℕ} {m : BlockManager} (seq_id : ℕ) (t : BlockTable) (v : IsValid pins m) where
  grow_within : (t.num_tokens % m.block_size == 0) ≡ false → Grows pins m seq_id t 0
  unfolding grow count
  grow_within within = (
    [],
    m,
    ground (arith, append-nil t.block_ids),
    IsBalanced-cong (λ b. omega arith) v.balanced,
    λ t'. refl,
    refl,
    omega arith,
    λ c q. absurd (omega arith),
  )

  grow_boundary :
      (t.num_tokens % m.block_size == 0) ≡ true → 0 < num_free_blocks m → Grows pins m seq_id t 1
  unfolding grow set_table count
  grow_boundary full room =
      let (b, rest, f) = nonempty m.pool.free room in
      let (p, e₁, v₁, f₁) = alloc_block-IsBalanced v.balanced b rest f in
      let grown : BlockTable = record t { block_ids = t.block_ids ++ b ∷ [] } in
      (
        b ∷ [],
        record m { pool = p; tables = insert seq_id grown m.tables },
        ground (arith, e₁),
        IsBalanced-cong (λ c. omega arith) v₁,
        λ t'.
            ap (λ (d : Dict BlockTable). record m { pool = p; tables = d })
              (insert-insert seq_id grown t' m.tables),
        refl,
        omega (arith, ap length f, ap length f₁),
        λ c q. ground (arith, own_of_free v.balanced b rest f, ==→eq c b),
      )

  grow-Grows :
      (t.num_tokens % m.block_size ≡ 0 → 0 < num_free_blocks m)
      → Grows pins m seq_id t (if t.num_tokens % m.block_size == 0 then 1 else 0)
  grow-Grows room = elim (Bool-cases (t.num_tokens % m.block_size == 0)) [
    | inr within ↦ rw within (grow_within within)
    | inl full ↦ rw full (grow_boundary full (room (==→eq _ 0 full)))
  ]

-- The block that holds the next token stands in the table once `grow` is done.
next_block :
    (n b : ℕ) (ids fresh : List ℕ)
    → 0 < b
    → n ≤ length ids * b
    → length fresh ≡ (if n % b == 0 then 1 else 0)
    → n / b < length (ids ++ fresh)
next_block n b ids fresh h fits l = elim (Bool-cases (n % b == 0)) [
  | inl full ↦ omega (
    arith,
    length-append ids fresh,
    div_bound n b (length ids) h fits,
    l ∙ ap (λ c. if c then 1 else 0) full,
  )
  | inr within ↦
      omega (arith, length-append ids fresh, div_lt n b (length ids) h fits (==→ne _ 0 within))
]

-- The table that `append_token` leaves.
abbrev pub appended : BlockTable → List ℕ → BlockTable
appended t fresh = record { block_ids = t.block_ids ++ fresh; num_tokens = t.num_tokens + 1 }

-- `append_token` on a valid manager, for a sequence whose blocks have room for its tokens, and with
-- a free block if the last one is full: it returns the place of the next token, in a block of the
-- table, counts the token, takes a block exactly at a block boundary, changes no other table and
-- keeps the manager valid. Nothing referenced the fresh block before.
pub append_token-IsValid :
    {pins : ℕ → ℕ} {m : BlockManager} (seq_id : ℕ) (t : BlockTable)
    → IsValid pins m
    → lookup seq_id m.tables ≡ some t
    → t.num_tokens ≤ length t.block_ids * m.block_size
    → (t.num_tokens % m.block_size ≡ 0 → 0 < num_free_blocks m)
    → (b : ℕ) × (fresh : List ℕ) × (p : Pool) × (append_token seq_id m
        ≡ ok (b, t.num_tokens % m.block_size) (with_table m p seq_id (appended t fresh)))
      × IsValid pins (with_table m p seq_id (appended t fresh))
      × (get_elem? (t.block_ids ++ fresh) (t.num_tokens / m.block_size) ≡ some b)
      × (length fresh ≡ (if t.num_tokens % m.block_size == 0 then 1 else 0))
      × (length p.free + length fresh ≡ num_free_blocks m)
      × ((c : ℕ) → 0 < count c fresh → (count c fresh ≡ 1) × (held m.tables c + pins c ≡ 0))
unfolding append_token block_table slot set_table
append_token-IsValid {pins} {m} seq_id t v e fits room =
    let (fresh, m₁, e₁, v₁, covers, l, spent, apart) = grow-Grows seq_id t v room in
    let t' : BlockTable = appended t fresh in
    let (b, at) =
      get_elem?_of_lt (t.block_ids ++ fresh) (t.num_tokens / m.block_size)
        (next_block t.num_tokens m.block_size t.block_ids fresh v.positive fits l) in
    (
      b,
      fresh,
      m₁.pool,
      ground (arith, e₁, e, at, covers t'),
      table-IsValid seq_id t' v (
          IsBalanced-cong
            (λ c.
              omega (arith, held-insert seq_id c m.tables t t' e, count-append c t.block_ids fresh))
            v₁),
      at,
      l,
      omega arith,
      apart,
    )
