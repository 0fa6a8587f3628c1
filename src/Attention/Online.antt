-- ===== src/Attention/Online.antt =====
-- The online softmax: what the running maximum, sum and accumulator are after some lanes.
use di_spec.Prelude.{
  ℕ, ◌≡◌, ◌⊎◌, refl, sym, ap, ◌∙◌, List, [], ◌∷◌, ◌++◌, map, Option, none, some, inl, inr,
}
use mathlib.Core.List.{map-append}
use di_spec.Prelude.Rings
use di_spec.Prelude.Rings.{Ring}
use di_spec.Attention.{
  Floats, maximum, exp_diff, sum, Lane, max_scores, Running, start_state, block,
}

module _ {ℓ} {A : Type ℓ} (r : Ring A) (F : Floats r) where
  open r use {zero, add, mul}

  -- The sum of the weights of some lanes, and of their values with these weights.
  abbrev pub total : Option A → List (Lane r F) → A
  total m xs = sum r F (map (λ x. exp_diff r F x.score m) xs)

  abbrev pub weighted : Option A → ℕ → List (Lane r F) → A
  weighted m d xs = sum r F (map (λ x. mul (exp_diff r F x.score m) (x.value d)) xs)

  sum-append : (xs ys : List A) → sum r F (xs ++ ys) ≡ add (sum r F xs) (sum r F ys)
  unfolding sum
  sum-append [] ys = sym (r.zero-add (sum r F ys))
  sum-append (x ∷ xs) ys =
      ap (add x) (sum-append xs ys) ∙ sym (r.add_assoc x (sum r F xs) (sum r F ys))

  maximum_assoc :
      (a b c : Option A) → maximum r F (maximum r F a b) c ≡ maximum r F a (maximum r F b c)
  unfolding maximum
  maximum_assoc none b c = refl
  maximum_assoc (some a) none c = refl
  maximum_assoc (some a) (some b) none = refl
  maximum_assoc (some a) (some b) (some c) = ap some (F.max_assoc a b c)

  pub maximum-none : (a : Option A) → maximum r F a none ≡ a
  unfolding maximum
  maximum-none none = refl
  maximum-none (some a) = refl

  pub max_scores-append :
      (xs ys : List (Lane r F))
      → max_scores r F (xs ++ ys) ≡ maximum r F (max_scores r F xs) (max_scores r F ys)
  unfolding max_scores maximum
  max_scores-append [] ys = refl
  max_scores-append (x ∷ xs) ys =
      ap (maximum r F x.score) (max_scores-append xs ys)
      ∙ sym (maximum_assoc x.score (max_scores r F xs) (max_scores r F ys))

  -- A factor moves a weight from one maximum to another.
  rescale :
      (s : Option A) (a b : A)
      → mul (exp_diff r F s (some a)) (exp_diff r F (some a) (some b)) ≡ exp_diff r F s (some b)
  unfolding exp_diff
  rescale none a b = r.mul_comm zero (F.exp_sub a b) ∙ Rings.mul-zero r (F.exp_sub a b)
  rescale (some s) a b = F.exp_sub_trans s a b

  pub zero-mul : (a : A) → mul zero a ≡ zero
  zero-mul a = r.mul_comm zero a ∙ Rings.mul-zero r a

  rescale_total :
      (xs : List (Lane r F)) (a b : A)
      → mul (total (some a) xs) (exp_diff r F (some a) (some b)) ≡ total (some b) xs
  unfolding sum
  rescale_total [] a b = zero-mul (exp_diff r F (some a) (some b))
  rescale_total (x ∷ xs) a b =
      Rings.add-mul r (exp_diff r F x.score (some a)) (total (some a) xs)
        (exp_diff r F (some a) (some b))
      ∙ ap (λ y. add y (mul (total (some a) xs) (exp_diff r F (some a) (some b))))
          (rescale x.score a b)
      ∙ ap (add (exp_diff r F x.score (some b))) (rescale_total xs a b)

  rescale_weighted :
      (xs : List (Lane r F)) (d : ℕ) (a b : A)
      → mul (weighted (some a) d xs) (exp_diff r F (some a) (some b)) ≡ weighted (some b) d xs
  unfolding sum
  rescale_weighted [] d a b = zero-mul (exp_diff r F (some a) (some b))
  rescale_weighted (x ∷ xs) d a b =
      let e : A = exp_diff r F (some a) (some b) in
      let p : A = exp_diff r F x.score (some a) in
      let moved : mul (mul p (x.value d)) e ≡ mul (exp_diff r F x.score (some b)) (x.value d) =
        r.mul_assoc p (x.value d) e
        ∙ ap (mul p) (r.mul_comm (x.value d) e)
        ∙ sym (r.mul_assoc p e (x.value d))
        ∙ ap (λ y. mul y (x.value d)) (rescale x.score a b) in
      Rings.add-mul r (mul p (x.value d)) (weighted (some a) d xs) e
      ∙ ap (λ y. add y (mul (weighted (some a) d xs) e)) moved
      ∙ ap (add (mul (exp_diff r F x.score (some b)) (x.value d))) (rescale_weighted xs d a b)

  -- The state is that of a one-pass softmax over the lanes `xs`.
  pub record Sums (xs : List (Lane r F)) (s : Running r F) : Type ℓ where
    pub top : s.m ≡ max_scores r F xs
    pub weight : s.l ≡ total s.m xs
    pub row : (d : ℕ) → s.acc d ≡ weighted s.m d xs

  pub start-Sums : Sums [] (start_state r F)
  unfolding start_state max_scores sum
  start-Sums = record { top = refl; weight = refl; row = λ d. refl }

  -- A score of some lane is finite, or there is no lane yet.
  abbrev pub Begun : List (Lane r F) → Type ℓ
  Begun xs = (xs ≡ []) ⊎ ((a : A) × (max_scores r F xs ≡ some a))

  pub total-append :
      (m : Option A) (xs ys : List (Lane r F)) → add (total m xs) (total m ys) ≡ total m (xs ++ ys)
  total-append m xs ys = sym (
      ap (sum r F) (map-append (λ x. exp_diff r F x.score m) xs ys)
      ∙ sum-append (map (λ x. exp_diff r F x.score m) xs) (map (λ x. exp_diff r F x.score m) ys))

  pub weighted-append :
      (m : Option A) (d : ℕ) (xs ys : List (Lane r F))
      → add (weighted m d xs) (weighted m d ys) ≡ weighted m d (xs ++ ys)
  weighted-append m d xs ys =
      let f : Lane r F → A = λ x. mul (exp_diff r F x.score m) (x.value d) in
      sym (ap (sum r F) (map-append f xs ys) ∙ sum-append (map f xs) (map f ys))

  -- What was summed under the old maximum, brought to the new one.
  carried_total :
      (xs : List (Lane r F)) (m : Option A) (c : A)
      → Begun xs
      → m ≡ max_scores r F xs
      → mul (total m xs) (exp_diff r F m (some c)) ≡ total (some c) xs
  unfolding sum
  carried_total xs m c (inl e) h = rw e (zero-mul (exp_diff r F m (some c)))
  carried_total xs m c (inr (a, e)) h = rw (h ∙ e) (rescale_total xs a c)

  carried_weighted :
      (xs : List (Lane r F)) (d : ℕ) (m : Option A) (c : A)
      → Begun xs
      → m ≡ max_scores r F xs
      → mul (weighted m d xs) (exp_diff r F m (some c)) ≡ weighted (some c) d xs
  unfolding sum
  carried_weighted xs d m c (inl e) h = rw e (zero-mul (exp_diff r F m (some c)))
  carried_weighted xs d m c (inr (a, e)) h = rw (h ∙ e) (rescale_weighted xs d a c)

  -- A maximum with a finite score is finite.
  pub maximum_finite : (a : Option A) (b : A) → (c : A) × (maximum r F a (some b) ≡ some c)
  unfolding maximum
  maximum_finite none b = (b, refl)
  maximum_finite (some a) b = (F.max a b, refl)

  pub block-Sums :
      (xs ys : List (Lane r F)) (s : Running r F) (b : A)
      → Begun xs
      → max_scores r F ys ≡ some b
      → Sums xs s
      → Sums (xs ++ ys) (block r F ys s) × Begun (xs ++ ys)
  unfolding block
  block-Sums xs ys s b begun h i =
      let (c, e) = maximum_finite s.m b in
      let new : maximum r F s.m (max_scores r F ys) ≡ some c = ap (maximum r F s.m) h ∙ e in
      let top : maximum r F s.m (max_scores r F ys) ≡ max_scores r F (xs ++ ys) =
        ap (λ m. maximum r F m (max_scores r F ys)) i.top ∙ sym (max_scores-append xs ys) in
      (
        record {
          top = top;
          weight =
              rw (new, i.weight)
                (ap (λ x. add x (total (some c) ys)) (carried_total xs s.m c begun i.top)
                  ∙ total-append (some c) xs ys);
          row = λ d.
              rw (new, i.row d)
                (ap (λ x. add x (weighted (some c) d ys)) (carried_weighted xs d s.m c begun i.top)
                  ∙ weighted-append (some c) d xs ys);
        },
        inr (c, sym top ∙ new),
      )
