-- ===== src/Engine/Admission.antt =====
-- The blocks that a generation starts with: adopted ones, which the cache pins, and fresh ones.
use di_spec.Prelude.{
  ℕ, zero, suc, ◌+◌, ◌-◌, ◌*◌, ◌≤◌, ◌<◌, ◌≡◌, refl, ap, inl, inr, Bool, true, false, List, [], ◌∷◌,
  ◌++◌, none, arith, length, length-append, take, ltb, Option-cases, Bool-cases, Dict, lookup,
  insert, lookup-insert_self, lookup-insert_ne, count, count-take-drop, ok, raise, out_of_blocks,
  subst, ◌⊎◌, has-false_of_lookup,
}
use di_spec.BlockManager.{BlockManager, BlockTable, blocks_needed, num_free_blocks, allocate}
use di_spec.BlockManager.Invariant.{with_table}
use di_spec.BlockManager.Growth.{IsShared, adopted, allocate-IsValid, allocate_refuses}
use di_spec.BlockManager.Reserving.{blocks_needed_bounds}
use di_spec.PagedCache.{Tensors}
use di_spec.PrefixCache.{Node, PrefixCache, block_hashes, match_loop, match_blocks}
use di_spec.PrefixCache.Pins.{
  pins_of, match_loop-pins, pins_of-touch, pins_of-remove, IsSound, match_blocks-IsSound,
}
use di_spec.Engine.Running.{IsRunning, more_room}
use di_spec.Engine.{trim, Model, LlmEngine, reused}

-- What is matched is pinned by the cache.
matched_pins :
    (ks : List ℕ) (t : ℕ) (d : Dict Node) (b : ℕ)
    → 0 < count b (match_loop ks t d).0
    → 0 < pins_of d b
unfolding match_loop count
matched_pins [] t d b = λ h. absurd (omega arith)
matched_pins (k ∷ ks) t d b = elim (Option-cases (lookup k d)) [
  | inl e ↦ rw (e, match_loop, count) (λ h. absurd (omega arith))
  | inr (n, e) ↦
      let ih = matched_pins ks t (insert k (record n { last_used = t }) d) b in
      rw (e, match_loop, count)
        (λ h. ground (arith, ih, pins_of-touch k b t d n e, pins_of-remove k b d n e))
]

count-trim :
    (bs n fuel : ℕ) (reuse : List ℕ) (b : ℕ) → count b (trim bs n fuel reuse) ≤ count b reuse
unfolding trim
count-trim bs n zero reuse b = omega arith
count-trim bs n (suc fuel) reuse b = ground (
  arith,
  count-trim bs n fuel (take (length reuse - 1) reuse) b,
  count-take-drop b (length reuse - 1) reuse,
)

adopts : (n k a l b : ℕ) → l ≡ k - a → n ≤ k * b → n ≤ (a + l) * b
adopts n k a l b e h =
    let more : k + (a + l - k) ≡ a + l = omega (arith, e) in
    subst (λ x. n ≤ x * b) more (more_room n k (a + l - k) b h)

pub allocate-outcome :
    (sid n : ℕ) (reuse : List ℕ) (c : PrefixCache)
    → IsSound c
    → lookup sid c.mgr.tables ≡ none
    → IsShared (pins_of c.nodes) c.mgr reuse
    → (allocate sid n reuse c.mgr ≡ raise out_of_blocks c.mgr)
      ⊎ ((t : BlockTable) × (m : BlockManager) × (allocate sid n reuse c.mgr ≡ ok t m)
          × IsRunning c.mgr.tables sid n (record c { mgr = m }))
allocate-outcome sid n reuse c s new_id shared =
    let need : ℕ = blocks_needed c.mgr.block_size n - length reuse in
    elim (Bool-cases (ltb (num_free_blocks c.mgr) need)) [
      | inl few ↦ inl (
          (allocate_refuses c.mgr sid n reuse).1 (has-false_of_lookup sid c.mgr.tables new_id)
            (ground arith))
      | inr room ↦
          let (new, p, e, v, len, _, _) =
            allocate-IsValid sid n reuse s.pinned new_id shared (ground arith) in
          let t : BlockTable = adopted n reuse new in
          let fits : n ≤ length (reuse ++ new) * c.mgr.block_size = rw (length-append reuse new) (
            adopts n (blocks_needed c.mgr.block_size n) (length reuse) (length new) c.mgr.block_size
              len (blocks_needed_bounds c.mgr.block_size n s.pinned.positive).0) in
          inr (
            t,
            with_table c.mgr p sid t,
            e,
            record {
              sound = record { pinned = v; once = s.once };
              table = t;
              found = lookup-insert_self sid t c.mgr.tables;
              prompt_fits = fits;
              fits = fits;
              others = λ k h. lookup-insert_ne k sid t c.mgr.tables h;
            },
          )
    ]

module _ (T : Tensors) (R : Model T) (hash : ℕ → List ℕ → ℕ) (prompt_ids : List ℕ) where
  pub reused-IsShared :
      (e : LlmEngine T R hash)
      → IsSound e.prefix
      → (reuse : List ℕ) × (e₁ : LlmEngine T R hash) × (reused T R hash prompt_ids e ≡ ok reuse e₁)
        × IsSound e₁.prefix
        × (e₁.prefix.mgr ≡ e.prefix.mgr)
        × IsShared (pins_of e₁.prefix.nodes) e₁.prefix.mgr reuse
  unfolding reused count match_blocks
  reused-IsShared e s = elim (Bool-cases e.use_prefix) [
    | inr off ↦ (
      [],
      e,
      ap
          (λ (u : Bool). elim u [
            | false ↦ ok [] e
            | true ↦
                ok
                  (trim e.prefix.mgr.block_size (length prompt_ids)
                    (length (match_blocks hash prompt_ids e.prefix).0)
                    (match_blocks hash prompt_ids e.prefix).0)
                  (record e { prefix = (match_blocks hash prompt_ids e.prefix).1 })
          ])
          off,
      s,
      refl,
      λ b h. absurd (omega (arith, h)),
    )
    | inl on ↦
        let r = match_blocks hash prompt_ids e.prefix in
        (
          trim e.prefix.mgr.block_size (length prompt_ids) (length r.0) r.0,
          record e { prefix = r.1 },
          ap
              (λ (u : Bool). elim u [
                | false ↦ ok [] e
                | true ↦
                    ok (trim e.prefix.mgr.block_size (length prompt_ids) (length r.0) r.0)
                      (record e { prefix = r.1 })
              ])
              on,
          match_blocks-IsSound hash prompt_ids e.prefix s,
          refl,
          λ b h.
              let found =
                matched_pins (block_hashes hash e.prefix.bs prompt_ids) (e.prefix.clock + 1)
                  e.prefix.nodes b
                  (omega (
                    arith,
                    h,
                    count-trim e.prefix.mgr.block_size (length prompt_ids) (length r.0) r.0 b,
                  )) in
              omega (
                arith,
                found,
                (match_loop-pins (block_hashes hash e.prefix.bs prompt_ids) (e.prefix.clock + 1)
                      e.prefix.nodes s.once).0
                    b,
              ),
        )
  ]
