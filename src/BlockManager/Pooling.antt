-- ===== src/BlockManager/Pooling.antt =====
-- The loops over the pool: referencing, allocating and dropping lists of blocks.
use di_spec.Prelude.{
  ℕ, zero, suc, ◌+◌, ◌≤◌, ◌<◌, ◌≡◌, refl, ap, ◌∙◌, List, [], ◌∷◌, arith, length, count, hit_self,
  ok,
}
use di_spec.BlockManager.{Pool, incref_all, decref_all, alloc_blocks}
use di_spec.BlockManager.Balance.{
  IsBalanced, IsBalanced-cong, in_pool, incref-IsBalanced, decref-IsBalanced,
  alloc_block-IsBalanced,
}

-- Blocks that are referenced can all be referenced once more; the free list stays.
pub incref_all-IsBalanced :
    (bs : List ℕ) {n : ℕ} {own : ℕ → ℕ} {p : Pool}
    → IsBalanced n own p
    → ((b : ℕ) → 0 < count b bs → 0 < own b)
    → (p' : Pool) × (incref_all bs p ≡ ok tt p')
      × IsBalanced n (λ c. own c + count c bs) p'
      × (p'.free ≡ p.free)
unfolding incref_all count
incref_all-IsBalanced [] {p = p} v h = (p, refl, IsBalanced-cong (λ c. omega arith) v, refl)
incref_all-IsBalanced (b ∷ bs) v h =
    let (p₁, e₁, v₁, f₁) = incref-IsBalanced v b (h b (omega (arith, hit_self b))) in
    let (p₂, e₂, v₂, f₂) = incref_all-IsBalanced bs v₁ (λ c q. omega (arith, h c (omega arith))) in
    (p₂, ground (arith, e₁, e₂), IsBalanced-cong (λ c. omega arith) v₂, f₂ ∙ f₁)

pub nonempty : (fs : List ℕ) → 0 < length fs → (b : ℕ) × (rest : List ℕ) × (fs ≡ b ∷ rest)
nonempty [] h = absurd (omega arith)
nonempty (b ∷ rest) h = (b, rest, refl)

-- As many blocks as are free can be taken, each with one reference.
pub alloc_blocks-IsBalanced :
    (k : ℕ) {n : ℕ} {own : ℕ → ℕ} {p : Pool}
    → IsBalanced n own p
    → k ≤ length p.free
    → (bs : List ℕ) × (p' : Pool) × (alloc_blocks k p ≡ ok bs p')
      × IsBalanced n (λ c. own c + count c bs) p'
      × (length bs ≡ k)
      × (length p'.free + k ≡ length p.free)
      × ((c : ℕ) → count c bs + count c p'.free ≡ count c p.free)
unfolding alloc_blocks count
alloc_blocks-IsBalanced zero {p = p} v h =
    ([], p, refl, IsBalanced-cong (λ c. omega arith) v, refl, omega arith, λ c. omega arith)
alloc_blocks-IsBalanced (suc k) {p = p} v h =
    let (b, rest, e) = nonempty p.free (omega arith) in
    let (p₁, e₁, v₁, f₁) = alloc_block-IsBalanced v b rest e in
    let (bs, p₂, e₂, v₂, l₂, f₂, taken) =
      alloc_blocks-IsBalanced k v₁ (omega (arith, ap length e, ap length f₁)) in
    (
      b ∷ bs,
      p₂,
      ground (arith, e₁, e₂),
      IsBalanced-cong (λ c. omega arith) v₂,
      ap suc l₂,
      omega (arith, ap length e, ap length f₁),
      λ c. omega (arith, taken c, ap (count c) e, ap (count c) f₁),
    )

-- Blocks taken off the free list were not referenced, and each is taken once.
pub taken-IsFresh :
    {n : ℕ} {own : ℕ → ℕ} {p : Pool} (bs free' : List ℕ)
    → IsBalanced n own p
    → ((c : ℕ) → count c bs + count c free' ≡ count c p.free)
    → (c : ℕ) → 0 < count c bs
    → (count c bs ≡ 1) × (own c ≡ 0)
taken-IsFresh {n} bs free' v h c q =
    let bound : in_pool n c ≤ 1 = ground arith in
    (omega (arith, h c, v.conserved c, v.counted c), omega (arith, h c, v.conserved c, v.counted c))

-- References that `own` expects can all be dropped; `own'` is what is left.
pub decref_all-IsBalanced :
    (bs : List ℕ) (own' : ℕ → ℕ) {n : ℕ} {own : ℕ → ℕ} {p : Pool}
    → IsBalanced n own p
    → ((c : ℕ) → own c ≡ own' c + count c bs)
    → (p' : Pool) × (decref_all bs p ≡ ok tt p') × IsBalanced n own' p'
unfolding decref_all count
decref_all-IsBalanced [] own' {p = p} v h = (p, refl, IsBalanced-cong (λ c. omega (arith, h c)) v)
decref_all-IsBalanced (b ∷ bs) own' v h =
    let (p₁, e₁, v₁) = decref-IsBalanced v b (λ c. own' c + count c bs) (λ c. omega (arith, h c)) in
    let (p₂, e₂, v₂) = decref_all-IsBalanced bs own' v₁ (λ c. refl) in
    (p₂, ground (arith, e₁, e₂), v₂)
