-- ===== src/BlockManager/Forking.antt =====
-- `fork`: sharing a table with a child sequence.
use di_spec.Prelude.{
  ℕ, ◌+◌, ◌*◌, ◌/◌, ◌%◌, ◌≤◌, ◌<◌, ◌≡◌, sym, ap, ◌∙◌, ◌≢◌, List, [], ◌∷◌, ◌++◌, append-nil, none,
  some, arith, length, get_elem?, get_elem?_of_lt, ◌==◌, refl, inl, inr, Option-cases,
  insert-IsOnce, M, ◌>>◌, ret, bind_of_ok, ne→==, if◌then◌else◌, lookup, count, hit_self,
  lookup-insert_self, lookup-insert_ne, ok,
}
use di_spec.BlockManager.{
  BlockManager, BlockTable, Pool, num_free_blocks, fork, free, append_token, block_table, set_table,
}
use di_spec.BlockManager.Balance.{IsBalanced, IsBalanced-cong}
use di_spec.BlockManager.Pooling.{incref_all-IsBalanced}
use di_spec.BlockManager.Invariant.{
  IsValid, held, held-insert_new, held-insert, held_of_lookup, with_table, table-IsValid,
}
use di_spec.BlockManager.Release.{without, free-IsValid}
use di_spec.BlockManager.Growth.{appended, div_lt, append_token-IsValid}

module _ {pins : ℕ → ℕ} {m : BlockManager} (parent_id child_id : ℕ) (t : BlockTable)
    (v : IsValid pins m) (e : lookup parent_id m.tables ≡ some t) where
  fork_runs :
      (p : Pool) × (fork parent_id child_id m ≡ ok t (with_table m p child_id t))
      × IsBalanced m.num_blocks (λ b. held m.tables b + pins b + count b t.block_ids) p
      × (p.free ≡ m.pool.free)
  unfolding fork block_table set_table
  fork_runs =
      let (p, e₁, v₁, f₁) =
        incref_all-IsBalanced t.block_ids v.balanced
          (λ b h. omega (arith, held_of_lookup parent_id b m.tables t e)) in
      (p, ground (arith, e, e₁), v₁, f₁)

  -- `fork` to a new sequence: the child has the parent's blocks and length, no block is taken, and
  -- the manager stays valid, with every shared block counted once more.
  pub fork-IsValid :
      lookup child_id m.tables ≡ none
      → (p : Pool) × (fork parent_id child_id m ≡ ok t (with_table m p child_id t))
        × IsValid pins (with_table m p child_id t)
        × (p.free ≡ m.pool.free)
  fork-IsValid new_id =
      let (p, e₁, v₁, f₁) = fork_runs in
      (
        p,
        e₁,
        table-IsValid child_id t v
            (IsBalanced-cong (λ b. omega (arith, held-insert_new child_id b m.tables t new_id)) v₁),
        f₁,
      )

  -- `fork` does not look whether the child exists. If it does, its old table is dropped with its
  -- references still counted: they are pins that nobody holds.
  fork_pins :
      (old : BlockTable)
      → lookup child_id m.tables ≡ some old
      → (p : Pool) × (fork parent_id child_id m ≡ ok t (with_table m p child_id t))
        × IsValid (λ b. pins b + count b old.block_ids) (with_table m p child_id t)
  fork_pins old known =
      let (p, e₁, v₁, _) = fork_runs in
      (
        p,
        e₁,
        record {
          positive = v.positive;
          balanced =
              IsBalanced-cong (λ b. omega (arith, held-insert child_id b m.tables old t known)) v₁;
          once = insert-IsOnce child_id t m.tables v.once;
        },
      )

-- `free` of several sequences, one after the other.
unfoldable pub free_each : List ℕ → M BlockManager (Unit {0})
free_each [] = ret tt
free_each (k ∷ ks) = do free k; free_each ks

free_absent : (m : BlockManager) (k : ℕ) → lookup k m.tables ≡ none → free k m ≡ ok tt m
unfolding free
free_absent m k e = rw (free, e) refl

free_each-IsValid :
    {pins : ℕ → ℕ} (ids : List ℕ) (m : BlockManager)
    → IsValid pins m
    → (m' : BlockManager) × (free_each ids m ≡ ok tt m') × IsValid pins m'
unfolding free_each
free_each-IsValid [] m v = (m, refl, v)
free_each-IsValid (k ∷ ks) m v = elim (Option-cases (lookup k m.tables)) [
  | inl e ↦
      let (m', e', v') = free_each-IsValid ks m v in
      (m', bind_of_ok (free k) _ m tt m (free_absent m k e) e', v')
  | inr (t, e) ↦
      let (p, f, w, _) = free-IsValid k t v e in
      let (m', e', v') = free_each-IsValid ks (without m p k) w in
      (m', bind_of_ok (free k) _ m tt (without m p k) f e', v')
]

-- `fork` does not look whether the child exists. If it does on a valid manager, and has a block, its
-- old table is dropped with the references that it held still counted: the manager is no longer
-- valid, and it is what it would be if someone else held a reference for each place of the old
-- table. So no calls of `free`, of whatever sequences, ever give a block of the old table back.
pub fork_leaks :
    {pins : ℕ → ℕ} {m : BlockManager} (parent_id child_id : ℕ) (t old : BlockTable) (b : ℕ)
    (rest : List ℕ)
    → IsValid pins m
    → lookup parent_id m.tables ≡ some t
    → lookup child_id m.tables ≡ some old
    → old.block_ids ≡ b ∷ rest
    → (m' : BlockManager) × (fork parent_id child_id m ≡ ok t m')
      × (¬ IsValid pins m')
      × IsValid (λ c. pins c + count c old.block_ids) m'
      × ((ids : List ℕ)
          → (m'' : BlockManager) × (free_each ids m' ≡ ok tt m'')
            × ((c : ℕ) → 0 < count c old.block_ids → count c m''.pool.free ≡ 0))
unfolding count
fork_leaks {pins} {m} parent_id child_id t old b rest v e known blocks =
    let (p, e₁, w) = fork_pins parent_id child_id t v e old known in
    let m' : BlockManager = with_table m p child_id t in
    (
      m',
      e₁,
      λ v'.
          omega
            (arith, w.balanced.counted b, v'.balanced.counted b, ap (count b) blocks, hit_self b),
      w,
      λ ids.
          let (m'', f, u) = free_each-IsValid ids m' w in
          (m'', f, λ c h. ground (arith, h, u.balanced.counted c, u.balanced.conserved c)),
    )

-- The place of the next token depends on the table alone when the last block is not full.
module _ {pins : ℕ → ℕ} {m : BlockManager} (seq_id : ℕ) (t : BlockTable) (v : IsValid pins m) where
  append_within :
      (b : ℕ)
      → lookup seq_id m.tables ≡ some t
      → t.num_tokens % m.block_size ≢ 0
      → get_elem? t.block_ids (t.num_tokens / m.block_size) ≡ some b
      → t.num_tokens ≤ length t.block_ids * m.block_size
      → (p : Pool) × (append_token seq_id m
          ≡ ok (b, t.num_tokens % m.block_size) (with_table m p seq_id (appended t [])))
        × IsValid pins (with_table m p seq_id (appended t []))
  append_within b e partial at fits =
      from (append_token-IsValid seq_id t v e fits (λ z. absurd (partial z)))
    where
      from :
          ((b' : ℕ) × (fresh : List ℕ) × (p : Pool) × (append_token seq_id m
              ≡ ok (b', t.num_tokens % m.block_size) (with_table m p seq_id (appended t fresh)))
            × IsValid pins (with_table m p seq_id (appended t fresh))
            × (get_elem? (t.block_ids ++ fresh) (t.num_tokens / m.block_size) ≡ some b')
            × (length fresh ≡ (if t.num_tokens % m.block_size == 0 then 1 else 0))
            × (length p.free + length fresh ≡ num_free_blocks m)
            × ((c : ℕ) → 0 < count c fresh → (count c fresh ≡ 1) × (held m.tables c + pins c ≡ 0)))
          → (p : Pool) × (append_token seq_id m
              ≡ ok (b, t.num_tokens % m.block_size) (with_table m p seq_id (appended t [])))
            × IsValid pins (with_table m p seq_id (appended t []))
      from (b', [], p, e', v', at', l, _, _) =
          (p, ground (arith, e', at, at', append-nil t.block_ids), v')
      from (b', f ∷ fs, p, e', v', at', l, _, _) =
          absurd (omega (arith, l ∙ ap (λ c. if c then 1 else 0) (ne→== _ 0 partial)))

-- After a fork with a partly filled last block, the next token of the parent and the next token of
-- the child get the same place: the shared block is written by both, and nothing copies it.
pub fork_aliases :
    {pins : ℕ → ℕ} {m : BlockManager} (parent_id child_id : ℕ) (t : BlockTable)
    → IsValid pins m
    → lookup parent_id m.tables ≡ some t
    → lookup child_id m.tables ≡ none
    → t.num_tokens % m.block_size ≢ 0
    → t.num_tokens ≤ length t.block_ids * m.block_size
    → (b : ℕ) × (m₁ : BlockManager) × (m₂ : BlockManager) × (m₃ : BlockManager) × (fork parent_id
          child_id m
        ≡ ok t m₁)
      × (append_token parent_id m₁ ≡ ok (b, t.num_tokens % m.block_size) m₂)
      × (append_token child_id m₂ ≡ ok (b, t.num_tokens % m.block_size) m₃)
fork_aliases {pins} {m} parent_id child_id t v e new_id partial fits =
    let apart : parent_id ≢ child_id = λ same. absurd (ground (arith, e, new_id, same)) in
    let (p₁, e₁, v₁, _) = fork-IsValid parent_id child_id t v e new_id in
    let m₁ : BlockManager = with_table m p₁ child_id t in
    let (b, at) =
      get_elem?_of_lt t.block_ids (t.num_tokens / m.block_size)
        (div_lt t.num_tokens m.block_size (length t.block_ids) v.positive fits partial) in
    let known : lookup parent_id m₁.tables ≡ some t =
      lookup-insert_ne parent_id child_id t m.tables apart ∙ e in
    let (p₂, e₂, v₂) = append_within parent_id t v₁ b known partial at fits in
    let m₂ : BlockManager = with_table m₁ p₂ parent_id (appended t []) in
    let child_known : lookup child_id m₂.tables ≡ some t =
      lookup-insert_ne child_id parent_id (appended t []) m₁.tables (λ same. apart (sym same))
      ∙ lookup-insert_self child_id t m.tables in
    let (p₃, e₃, _) = append_within {m = m₂} child_id t v₂ b child_known partial at fits in
    (b, m₁, m₂, with_table m₂ p₃ child_id (appended t []), e₁, e₂, e₃)
