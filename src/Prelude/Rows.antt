-- ===== src/Prelude/Rows.antt =====
-- Rows of numbers: elementwise operations, repetition and joining.
use Prim.Native.Nat.{ℕ, zero, suc, min}
use mathlib.Core.Path.{◌≡◌, refl, ap, ◌∙◌}
use mathlib.Core.List.{List, [], ◌∷◌, ◌++◌}
use native.Mathlib.Omega.{arith}
use di_spec.Prelude.Lists.{length, take, drop}

pub cons_congr {ℓ} : {A : Type ℓ} {x y : A} {xs ys : List A} → x ≡ y → xs ≡ ys → x ∷ xs ≡ y ∷ ys
cons_congr {y = y} {xs = xs} p q = ap (λ z. z ∷ xs) p ∙ ap (◌∷◌ y) q

unfoldable pub zip_with {ℓ κ μ} :
    {A : Type ℓ} {B : Type κ} {C : Type μ} → (A → B → C) → List A → List B → List C
zip_with f [] ys = []
zip_with f (x ∷ xs) [] = []
zip_with f (x ∷ xs) (y ∷ ys) = f x y ∷ zip_with f xs ys

unfoldable pub replicate {ℓ} : {A : Type ℓ} → ℕ → A → List A
replicate zero x = []
replicate (suc n) x = x ∷ replicate n x

unfoldable pub concat {ℓ} : {A : Type ℓ} → List (List A) → List A
concat [] = []
concat (xs ∷ xss) = xs ++ concat xss

pub length-zip_with {ℓ κ μ} :
    {A : Type ℓ} {B : Type κ} {C : Type μ} (f : A → B → C) (xs : List A) (ys : List B)
    → length (zip_with f xs ys) ≡ min (length xs) (length ys)
unfolding zip_with
length-zip_with f [] ys = omega arith
length-zip_with f (x ∷ xs) [] = omega arith
length-zip_with f (x ∷ xs) (y ∷ ys) = omega (arith, length-zip_with f xs ys)

pub length-replicate {ℓ} : {A : Type ℓ} (n : ℕ) (x : A) → length (replicate n x) ≡ n
unfolding replicate
length-replicate zero x = refl
length-replicate (suc n) x = ap suc (length-replicate n x)

pub zip_with-append {ℓ κ μ} :
    {A : Type ℓ} {B : Type κ} {C : Type μ} (f : A → B → C) (xs ys : List A) (us vs : List B)
    → length xs ≡ length us
    → zip_with f (xs ++ ys) (us ++ vs) ≡ zip_with f xs us ++ zip_with f ys vs
unfolding zip_with
zip_with-append f [] ys [] vs h = refl
zip_with-append f [] ys (u ∷ us) vs h = absurd (omega arith)
zip_with-append f (x ∷ xs) ys [] vs h = absurd (omega arith)
zip_with-append f (x ∷ xs) ys (u ∷ us) vs h =
    ap (◌∷◌ (f x u)) (zip_with-append f xs ys us vs (omega arith))

pub take_of_append {ℓ} : {A : Type ℓ} (xs ys : List A) → take (length xs) (xs ++ ys) ≡ xs
take_of_append [] ys = refl
take_of_append (x ∷ xs) ys = ap (◌∷◌ x) (take_of_append xs ys)

pub drop_of_append {ℓ} : {A : Type ℓ} (xs ys : List A) → drop (length xs) (xs ++ ys) ≡ ys
drop_of_append [] ys = refl
drop_of_append (x ∷ xs) ys = drop_of_append xs ys
