-- ===== src/Attention/Blocks.antt =====
-- The loop over blocks computes the softmax of all scores of the context, whatever the block size.
use di_spec.Prelude.{
  ℕ, zero, suc, ◌+◌, ◌-◌, ◌≤◌, ◌<◌, ◌≡◌, refl, sym, ap, ◌∙◌, List, ◌++◌, map, Option, none, some,
  arith, ltb, range_from, range_from-append, Bool-cases, inl, inr, ltb→lt, ltb→le, cons_congr,
}
use mathlib.Core.List.{map-append}
use di_spec.Prelude.Rings
use di_spec.Prelude.Rings.{Ring}
use di_spec.Attention.{
  Floats, Launch, maximum, exp_diff, sum, Lane, max_scores, Running, block, blocks,
}
use di_spec.Attention.Online.{
  Sums, Begun, total, weighted, block-Sums, max_scores-append, maximum-none, total-append,
  weighted-append, zero-mul, maximum_finite,
}

-- Functions that agree on a range agree on its list.
pub map-range_from {ℓ} :
    {B : Type ℓ} (f g : ℕ → B) (start n : ℕ)
    → ((i : ℕ) → start ≤ i → i < start + n → f i ≡ g i)
    → map f (range_from start n) ≡ map g (range_from start n)
unfolding range_from
map-range_from f g start zero h = refl
map-range_from f g start (suc n) h =
    cons_congr (h start (omega arith) (omega arith))
      (map-range_from f g (start + 1) n (λ i a b. h i (omega arith) (omega arith)))

module _ {ℓ} {A : Type ℓ} (r : Ring A) (F : Floats r) where
  open r use {add, mul}

  -- A masked lane adds nothing.
  abbrev Dead : Lane r F → Type ℓ
  Dead x = (x.score ≡ none) × ((d : ℕ) → x.value d ≡ r.zero)

  masked_lanes :
      (f : ℕ → Lane r F) (start n : ℕ) (c : A)
      → ((i : ℕ) → start ≤ i → Dead (f i))
      → (max_scores r F (map f (range_from start n)) ≡ none)
        × (total r F (some c) (map f (range_from start n)) ≡ r.zero)
        × ((d : ℕ) → weighted r F (some c) d (map f (range_from start n)) ≡ r.zero)
  unfolding range_from max_scores sum maximum exp_diff
  masked_lanes f start zero c h = (refl, refl, λ d. refl)
  masked_lanes f start (suc n) c h =
      let (e, v) = h start (omega arith) in
      let (m, t, w) = masked_lanes f (start + 1) n c (λ i a. h i (omega arith)) in
      (
        rw (e, m) refl,
        rw (e, t) (r.zero-add r.zero),
        λ d.
            rw (e, w d)
              (ap (λ x. add x r.zero) (zero-mul r F ((f start).value d)) ∙ r.zero-add r.zero),
      )

  first_finite :
      (f : ℕ → Lane r F) (start n : ℕ) (b : A)
      → 0 < n
      → (f start).score ≡ some b
      → (c : A) × (max_scores r F (map f (range_from start n)) ≡ some c)
  unfolding range_from max_scores
  first_finite f start zero b h e = absurd (omega (arith, h))
  first_finite f start (suc n) b h e =
      let (c, d) = finite_first b (max_scores r F (map f (range_from (start + 1) n))) in
      (c, ap (λ m. maximum r F m (max_scores r F (map f (range_from (start + 1) n)))) e ∙ d)
    where
      finite_first : (b : A) (m : Option A) → (c : A) × (maximum r F (some b) m ≡ some c)
      finite_first b none = (b, maximum-none r F (some b))
      finite_first b (some a) = maximum_finite r F (some b) a

  -- Lanes of which the first `ctx_len` have a score and the others are masked.
  pub record IsMasked (f : ℕ → Lane r F) (ctx_len : ℕ) : Type ℓ where
    pub live : (i : ℕ) → i < ctx_len → (b : A) × ((f i).score ≡ some b)
    pub dead : (i : ℕ) → ctx_len ≤ i → Dead (f i)

  module _ (c : Launch A) (k_ptr v_ptr : ℕ → A) (f : ℕ → Lane r F) (ctx_len : ℕ) where
    abbrev upto : ℕ → List (Lane r F)
    upto n = map f (range_from 0 n)

    upto-append : (m n : ℕ) → upto m ++ map f (range_from m n) ≡ upto (m + n)
    upto-append m n =
        let same : 0 + m ≡ m = omega arith in
        sym (
          ap (map f) (range_from-append 0 m n ∙ ap (λ k. range_from 0 m ++ range_from k n) same)
          ∙ map-append f (range_from 0 m) (range_from m n))

    pub blocks-Sums :
        (fuel start : ℕ) (s : Running r F)
        → 0 < c.block_n
        → IsMasked f ctx_len
        → ctx_len ≤ start + fuel
        → Sums r F (upto start) s
        → Begun r F (upto start)
        → (stop : ℕ) × (ctx_len ≤ stop)
          × Sums r F (upto stop) (blocks r F c k_ptr v_ptr f ctx_len fuel start s)
    unfolding blocks
    blocks-Sums zero start s hb k enough i b = (start, omega (arith, enough), i)
    blocks-Sums (suc fuel) start s hb k enough i b = elim (Bool-cases (ltb start ctx_len)) [
      | inr e ↦ (start, ltb→le start ctx_len e, rw e i)
      | inl e ↦
          let (score, at) = k.live start (ltb→lt start ctx_len e) in
          let (top, finite) = first_finite f start c.block_n score hb at in
          let (i', b') =
            block-Sums r F (upto start) (map f (range_from start c.block_n)) s top b finite i in
          rw e (
            blocks-Sums fuel (start + c.block_n) (block r F (map f (range_from start c.block_n)) s)
              hb k (omega (arith, enough, hb)) (rw (sym (upto-append start c.block_n)) i')
              (rw (sym (upto-append start c.block_n)) b'))
    ]

    -- Masked lanes after the context change nothing.
    pub drop_masked :
        (stop : ℕ)
        → 0 < ctx_len
        → ctx_len ≤ stop
        → IsMasked f ctx_len
        → (s : Running r F) → Sums r F (upto stop) s
        → Sums r F (upto ctx_len) s
    drop_masked stop some_token past k s i =
        let (b, at) = k.live 0 some_token in
        let (a, finite) = first_finite f 0 ctx_len b some_token at in
        let (none_dead, _, _) = masked_lanes f ctx_len (stop - ctx_len) a k.dead in
        let whole : upto stop ≡ upto ctx_len ++ map f (range_from ctx_len (stop - ctx_len)) =
          let full : ctx_len + (stop - ctx_len) ≡ stop = omega (arith, past) in
          ap upto (sym full) ∙ sym (upto-append ctx_len (stop - ctx_len)) in
        let top : s.m ≡ max_scores r F (upto ctx_len) =
          i.top
          ∙ ap (max_scores r F) whole
          ∙ max_scores-append r F (upto ctx_len) (map f (range_from ctx_len (stop - ctx_len)))
          ∙ ap (maximum r F (max_scores r F (upto ctx_len))) none_dead
          ∙ maximum-none r F (max_scores r F (upto ctx_len)) in
        let (_, no_weight, no_row) = masked_lanes f ctx_len (stop - ctx_len) a k.dead in
        record {
          top = top;
          weight =
              i.weight
              ∙ rw (top ∙ finite, whole)
                  (sym (
                      total-append r F (some a) (upto ctx_len)
                        (map f (range_from ctx_len (stop - ctx_len))))
                    ∙ ap (add (total r F (some a) (upto ctx_len))) no_weight
                    ∙ Rings.add-zero r (total r F (some a) (upto ctx_len)));
          row = λ d.
              i.row d
              ∙ rw (top ∙ finite, whole)
                  (sym (
                      weighted-append r F (some a) d (upto ctx_len)
                        (map f (range_from ctx_len (stop - ctx_len))))
                    ∙ ap (add (weighted r F (some a) d (upto ctx_len))) (no_row d)
                    ∙ Rings.add-zero r (weighted r F (some a) d (upto ctx_len)));
        }
