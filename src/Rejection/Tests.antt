-- ===== src/Rejection/Tests.antt =====
-- Weights over three tokens, and the theorems at them.
use di_spec.Prelude.{
  ℕ, ◌+◌, ◌*◌, ◌≡◌, ◌<◌, true, refl, List, [], ◌∷◌, ◌++◌, some, length, take, get_elem?,
}
use di_spec.Autoscale.{Ratio}
use di_spec.Rejection.{total, clamp, residual, rejection_sample, rejection_loop, accepts}
use di_spec.Rejection.Shape.{Drafted, Judged, Ends, rejection_sample_lem}
use di_spec.Rejection.Lossless.{accepted_draws, rejected, rejection-lossless}

abbrev target : List ℕ
target = 5 ∷ 1 ∷ 4 ∷ []

abbrev draft : List ℕ
draft = 2 ∷ 6 ∷ 2 ∷ []

abbrev tokens : List ℕ
tokens = 0 ∷ 1 ∷ []

abbrev drafts : List (List ℕ)
drafts = draft ∷ draft ∷ []

abbrev targets : List (List ℕ)
targets = target ∷ target ∷ []

-- A generator that counts, and a draw that shows how many weights there were.
abbrev rand : ℕ → Ratio × ℕ
rand g = (record { num = g; den = 8 }, g + 1)

abbrev multinomial : List ℕ → ℕ → ℕ × ℕ
multinomial weights g = (length weights, g)

-- The first token is accepted, the second is corrected.
corrected :
    rejection_sample rand multinomial tokens drafts targets target 3 ≡ some ((0 ∷ 3 ∷ [], 1), 5)
unfolding rejection_sample rejection_loop accepts residual total clamp
corrected = refl

rejection-lossless_example :
    (r : ℕ) × (get_elem? (residual target draft) 2 ≡ some r)
    × (accepted_draws 2 2 2 4 * total (residual target draft) + rejected target draft * r
        ≡ 4 * total (residual target draft))
unfolding total
rejection-lossless_example = rejection-lossless target draft 2 4 2 refl refl refl refl

rejection_sample_lem_example :
    (k : ℕ) × (d : ℕ × ℕ) × (rejection_sample rand multinomial tokens drafts targets target 3
      ≡ some ((take k tokens ++ d.0 ∷ [], k), d.1))
    × ((j : ℕ) → j < k → Judged rand multinomial tokens drafts targets 3 j true)
    × Ends rand multinomial tokens drafts targets target 3 k d
unfolding Drafted
rejection_sample_lem_example =
    rejection_sample_lem rand multinomial tokens drafts targets target 3
      ((2, refl), (5, refl), ((6, refl), (1, refl), tt))
