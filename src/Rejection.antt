-- ===== src/Rejection.antt =====
-- dispec/spec/rejection.py. A distribution is a list of weights over a common total; what is drawn
-- from weights does not depend on their scale, so the division by the sum is left out. The
-- generator is a state `G`; `rand` and `multinomial` are PyTorch's draws.
pub mod Shape
pub mod Lossless
mod Tests
use di_spec.Prelude.{
  ℕ, zero, suc, ◌+◌, ◌-◌, ◌*◌, Bool, true, false, ◌&&◌, List, [], ◌∷◌, ◌++◌, Option, none, some,
  get_elem?, ltb, ◌==◌, if◌then◌else◌,
}
use di_spec.Autoscale.{Ratio}

unfoldable pub total : List ℕ → ℕ
total [] = 0
total (w ∷ ws) = w + total ws

-- `r < ratio`, with `ratio` 1 when `qi` is 0, else `min(1, pi / qi)`.
unfoldable pub accepts : Ratio → ℕ → ℕ → Bool
accepts r qi pi =
    if qi == 0 then ltb r.num r.den else ltb r.num r.den && ltb (r.num * qi) (pi * r.den)

-- `torch.clamp(p - q, min=0)`
unfoldable pub clamp : List ℕ → List ℕ → List ℕ
clamp [] q = []
clamp (a ∷ p) [] = []
clamp (a ∷ p) (b ∷ q) = (a - b) ∷ clamp p q

-- What a correction is drawn from.
unfoldable pub residual : List ℕ → List ℕ → List ℕ
residual p q = if ltb 0 (total (clamp p q)) then clamp p q else p

module _ {ℓ} {G : Type ℓ} (rand : G → Ratio × G) (multinomial : List ℕ → G → ℕ × G) where
  -- The loop from position `i` on; `none` is an IndexError.
  unfoldable pub rejection_loop :
      ℕ → List ℕ → List (List ℕ) → List (List ℕ) → List ℕ → List ℕ → G → Option ((List ℕ × ℕ) × G)
  rejection_loop i [] q p p_bonus out g =
      let (t, g') = multinomial p_bonus g in some ((out ++ t ∷ [], i), g')
  rejection_loop i (t ∷ ts) [] p p_bonus out g = none
  rejection_loop i (t ∷ ts) (qi ∷ q) [] p_bonus out g = none
  rejection_loop i (t ∷ ts) (qi ∷ q) (pi ∷ p) p_bonus out g = elim (get_elem? qi t) [
    | none ↦ none
    | some a ↦ elim (get_elem? pi t) [
      | none ↦ none
      | some b ↦
          let (r, g₁) = rand g in
          let (x, g₂) = multinomial (residual pi qi) g₁ in
          elim (accepts r a b) [
            | true ↦ rejection_loop (i + 1) ts q p p_bonus (out ++ t ∷ []) g₁
            | false ↦ some ((out ++ x ∷ [], i), g₂)
          ]
    ]
  ]

  unfoldable pub rejection_sample :
      List ℕ → List (List ℕ) → List (List ℕ) → List ℕ → G → Option ((List ℕ × ℕ) × G)
  rejection_sample draft_tokens q p p_bonus g = rejection_loop 0 draft_tokens q p p_bonus [] g
