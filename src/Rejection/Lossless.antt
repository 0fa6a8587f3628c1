-- ===== src/Rejection/Lossless.antt =====
-- Losslessness: a token comes out with its target weight.
use di_spec.Prelude.{
  ℕ, zero, suc, ◌+◌, ◌-◌, ◌*◌, ◌≡◌, ◌≤◌, ◌<◌, refl, ap, ◌∙◌, min, List, [], ◌∷◌, some, arith,
  length, get_elem?, ltb, if◌then◌else◌, Bool-cases, inl, inr, mul_mono,
}
use di_spec.Rejection.{total, accepts, clamp, residual}

-- Of the draws `0/d, 1/d, …` below `n/d`, how many are accepted.
unfoldable pub accepted_draws : ℕ → ℕ → ℕ → ℕ → ℕ
accepted_draws zero d qi pi = 0
accepted_draws (suc n) d qi pi =
    (if accepts (record { num = n; den = d }) qi pi then 1 else 0) + accepted_draws n d qi pi

accepts_below :
    (u qi pi : ℕ) → 0 < qi → accepts (record { num = u; den = qi }) qi pi ≡ ltb u (min qi pi)
unfolding accepts
accepts_below u qi pi h = elim (Bool-cases (ltb u pi)) [
  | inl e ↦
      let less : qi * (u + 1) ≤ qi * pi = mul_mono qi (u + 1) pi (ground arith) in
      ground (arith, less)
  | inr e ↦ let more : qi * pi ≤ qi * u = mul_mono qi pi u (ground arith) in ground (arith, more)
]

accepted_draws_lem : (n qi pi : ℕ) → 0 < qi → accepted_draws n qi qi pi ≡ min n (min qi pi)
unfolding accepted_draws
accepted_draws_lem zero qi pi h = omega arith
accepted_draws_lem (suc n) qi pi h =
    ground (arith, accepts_below n qi pi h, accepted_draws_lem n qi pi h)

-- Of `qi` equally likely draws, `min qi pi` are accepted.
pub accepted_draws-min : (qi pi : ℕ) → accepted_draws qi qi qi pi ≡ min qi pi
unfolding accepted_draws
accepted_draws-min zero pi = omega arith
accepted_draws-min (suc qi) pi =
    omega (arith, accepted_draws_lem (suc qi) (suc qi) pi (omega arith))

-- The weight with which the draft token is rejected, over all tokens.
unfoldable pub rejected : List ℕ → List ℕ → ℕ
rejected [] q = 0
rejected (a ∷ p) [] = 0
rejected (a ∷ p) (b ∷ q) = (b - accepted_draws b b b a) + rejected p q

rejected-clamp :
    (p q : List ℕ) → length p ≡ length q → total q + total (clamp p q) ≡ total p + rejected p q
unfolding total clamp rejected
rejected-clamp [] [] h = refl
rejected-clamp [] (b ∷ q) h = omega arith
rejected-clamp (a ∷ p) [] h = omega arith
rejected-clamp (a ∷ p) (b ∷ q) h =
    omega (arith, rejected-clamp p q (omega arith), accepted_draws-min b a)

get_elem?-clamp :
    (p q : List ℕ) (x a b : ℕ)
    → get_elem? p x ≡ some a
    → get_elem? q x ≡ some b
    → (get_elem? (clamp p q) x ≡ some (a - b)) × (a - b ≤ total (clamp p q))
unfolding clamp total
get_elem?-clamp [] q x a b h g = cc
get_elem?-clamp (c ∷ p) [] x a b h g = cc
get_elem?-clamp (c ∷ p) (d ∷ q) zero a b h g = (ground arith, ground arith)
get_elem?-clamp (c ∷ p) (d ∷ q) (suc x) a b h g =
    let (e, l) = get_elem?-clamp p q x a b h g in (e, omega arith)

spread : (m d s : ℕ) → m * s + s * d ≡ (m + d) * s
spread m d s = omega arith

kept_and_corrected : (a b s : ℕ) → min b a * s + s * (a - b) ≡ a * s
kept_and_corrected a b s =
    let parts : min b a + (a - b) ≡ a = omega arith in
    spread (min b a) (a - b) s ∙ ap (λ n. n * s) parts

-- Let draft and target weights have the same total, and draw a draft token by its weight. The
-- weight with which token `x` is accepted, and the weight with which some token is rejected times
-- the part of `x` in the residual, add up to the target weight of `x`: speculative decoding emits
-- tokens with the target's distribution. All is over the common factor `total (residual p q)`.
pub rejection-lossless :
    (p q : List ℕ) (x a b : ℕ)
    → length p ≡ length q
    → total p ≡ total q
    → get_elem? p x ≡ some a
    → get_elem? q x ≡ some b
    → (r : ℕ) × (get_elem? (residual p q) x ≡ some r)
      × (accepted_draws b b b a * total (residual p q) + rejected p q * r
          ≡ a * total (residual p q))
unfolding residual
rejection-lossless p q x a b l t h g =
    let same : rejected p q ≡ total (clamp p q) = omega (arith, rejected-clamp p q l) in
    let (e, small) = get_elem?-clamp p q x a b h g in
    elim (Bool-cases (ltb 0 (total (clamp p q)))) [
      | inl s ↦ rw s (
        a - b,
        e,
        ap (λ n. n * total (clamp p q) + rejected p q * (a - b)) (accepted_draws-min b a)
            ∙ ap (λ n. min b a * total (clamp p q) + n * (a - b)) same
            ∙ kept_and_corrected a b (total (clamp p q)),
      )
      | inr s ↦
          let none_left : total (clamp p q) ≡ 0 = ground arith in
          let all : accepted_draws b b b a ≡ a = omega (arith, accepted_draws-min b a) in
          rw s (
            a,
            h,
            ap (λ n. n * total p + rejected p q * a) all
                ∙ ap (λ n. a * total p + n * a) (same ∙ none_left)
                ∙ omega arith,
          )
    ]
