-- ===== src/Prelude/Pointwise.antt =====
-- What holds of each element of a list, and loops whose rounds all return.
use Prim.Native.Nat.{ℕ, zero, suc}
use mathlib.Core.Path.{◌≡◌, refl, ap, subst}
use mathlib.Core.List.{List, [], ◌∷◌, map}
use mathlib.Core.Option.{some, some-injective}
use di_spec.Prelude.Lists.{length, get_elem?}
use di_spec.Prelude.Rows.{zip_with, replicate}
use di_spec.Prelude.Outcomes.{Call, ok, ◌>>=◌, ret, for_each, bind_of_ok}

pub data Each {ℓ κ} {A : Type ℓ} (P : A → Type κ) : List A → Type (ℓ ⊔ κ) where
  none_left : Each P []
  each : {x : A} {xs : List A} → P x → Each P xs → Each P (x ∷ xs)

pub map-Each {ℓ κ μ ν} :
    {A : Type ℓ} {B : Type κ} {P : A → Type μ} {Q : B → Type ν} (f : A → B) {xs : List A}
    → ((x : A) → P x → Q (f x))
    → Each P xs
    → Each Q (map f xs)
map-Each f h Each.none_left = Each.none_left
map-Each f h (Each.each {x} p ps) = Each.each (h x p) (map-Each f h ps)

pub Each-mono {ℓ μ ν} :
    {A : Type ℓ} {P : A → Type μ} {Q : A → Type ν} {xs : List A}
    → ((x : A) → P x → Q x)
    → Each P xs
    → Each Q xs
Each-mono h Each.none_left = Each.none_left
Each-mono h (Each.each {x} p ps) = Each.each (h x p) (Each-mono h ps)

pub replicate-Each {ℓ μ} :
    {A : Type ℓ} (P : A → Type μ) (n : ℕ) (x : A) → P x → Each P (replicate n x)
unfolding replicate
replicate-Each P zero x p = Each.none_left
replicate-Each P (suc n) x p = Each.each p (replicate-Each P n x p)

pub zip_with-Each {ℓ κ μ} :
    {A : Type ℓ} {B : Type ℓ} {C : Type ℓ} {P : A → Type κ} {Q : B → Type κ} {R : C → Type μ}
    (f : A → B → C) {xs : List A} {ys : List B}
    → ((x : A) (y : B) → P x → Q y → R (f x y))
    → Each P xs
    → Each Q ys
    → Each R (zip_with f xs ys)
unfolding zip_with
zip_with-Each f h Each.none_left qs = Each.none_left
zip_with-Each f h (Each.each p ps) Each.none_left = Each.none_left
zip_with-Each f h (Each.each {x} p ps) (Each.each {x = y} q qs) =
    Each.each (h x y p q) (zip_with-Each f h ps qs)

pub get_elem?-Each {ℓ μ} :
    {A : Type ℓ} {P : A → Type μ} {xs : List A} (i : ℕ) (x : A)
    → Each P xs
    → get_elem? xs i ≡ some x
    → P x
get_elem?-Each i x Each.none_left e = cc
get_elem?-Each {P = P} zero x (Each.each p ps) e = subst P (some-injective _ _ e) p
get_elem?-Each (suc i) x (Each.each p ps) e = get_elem?-Each i x ps e

-- A call that returns, with a value of which `Q` holds.
abbrev pub Gives {κ μ} : {A : Type κ} → (A → Type μ) → Call A → Type (κ ⊔ μ)
Gives {A = A} Q m = (a : A) × (m tt ≡ ok a tt) × Q a

pub bind-Gives {κ ν μ} :
    {A : Type κ} {B : Type ν} {Q : A → Type μ} {R : B → Type μ} (m : Call A) (f : A → Call B)
    → Gives Q m
    → ((a : A) → Q a → Gives R (f a))
    → Gives R (m >>= f)
bind-Gives m f (a, e, q) h = let (b, d, r) = h a q in (b, bind_of_ok m f tt a tt e d, r)

pub for_each-Gives {κ ν μ} :
    {A : Type κ} {B : Type ν} {Q : B → Type μ} (body : A → Call B) {xs : List A}
    → Each (λ x. Gives Q (body x)) xs
    → Gives (λ ys. (length ys ≡ length xs) × Each Q ys) (for_each xs body)
unfolding for_each
for_each-Gives body Each.none_left = ([], refl, (refl, Each.none_left))
for_each-Gives {Q = Q} body (Each.each {x} {xs} (y, e, q) gs) =
    let (ys, d, (n, qs)) = for_each-Gives {Q = Q} body gs in
    (
      y ∷ ys,
      bind_of_ok (body x) (λ y. for_each xs body >>= λ ys. ret (y ∷ ys)) tt y tt e
          (bind_of_ok (for_each xs body) (λ ys. ret (y ∷ ys)) tt ys tt d refl),
      (ap suc n, Each.each q qs),
    )
