-- ===== src/Prelude/Outcomes.antt =====
-- Python calls on mutable state: each returns or raises, and leaves a state behind either way.
use mathlib.Core.Option.{Option, none, some}
use mathlib.Core.List.{List, [], ◌∷◌}
use mathlib.Core.Path.{◌≡◌, refl, ap, ◌∙◌}

pub data Exc : Type 0 where
  out_of_blocks value_error key_error index_error stop_iteration connection_error : Exc
  file_not_found attribute_error type_error runtime_error : Exc

pub data Outcome {ℓ κ} (S : Type ℓ) (A : Type κ) : Type (ℓ ⊔ κ) where
  ok : A → S → Outcome S A
  raise : Exc → S → Outcome S A

abbrev pub M {ℓ κ} : Type ℓ → Type κ → Type (ℓ ⊔ κ)
M S A = S → Outcome S A

infixl 5 ◌>>=◌ ◌>>◌
abbrev pub ◌>>=◌ {ℓ κ μ} : {S : Type ℓ} {A : Type κ} {B : Type μ} → M S A → (A → M S B) → M S B
◌>>=◌ m f s = elim (m s) [ ok a s' ↦ f a s' | raise e s' ↦ raise e s' ]

abbrev pub ◌>>◌ {ℓ κ} : {S : Type ℓ} {B : Type κ} → M S (Unit {0}) → M S B → M S B
m >> k = m >>= λ _. k

abbrev pub ret {ℓ κ} : {S : Type ℓ} {A : Type κ} → A → M S A
ret a s = ok a s

abbrev pub fail {ℓ κ} : {S : Type ℓ} {A : Type κ} → Exc → M S A
fail e s = raise e s

-- The state left behind, on a return and on a raise.
abbrev pub final {ℓ κ} : {S : Type ℓ} {A : Type κ} → Outcome S A → S
final (ok a s) = s
final (raise e s) = s

-- A call that reads and writes nothing.
abbrev pub Call {κ} : Type κ → Type κ
Call A = M (Unit {0}) A

-- The loop of a comprehension whose body may raise.
unfoldable pub for_each {ℓ κ μ} :
    {S : Type ℓ} {A : Type κ} {B : Type μ} → List A → (A → M S B) → M S (List B)
for_each [] body = ret []
for_each (x ∷ xs) body = do y ← body x; ys ← for_each xs body; ret (y ∷ ys)

-- Indexing a dictionary or a list: the value found, or the exception.
abbrev pub or_raise {ℓ κ} : {S : Type ℓ} {A : Type κ} → Option A → Exc → M S A
or_raise none e s = raise e s
or_raise (some a) e s = ok a s

-- A call on a part of the state.
abbrev pub zoom {ℓ κ μ} :
    {S : Type ℓ} {T : Type κ} {A : Type μ} → (S → T) → (S → T → S) → M T A → M S A
zoom get put m s = elim (m (get s)) [ ok a t ↦ ok a (put s t) | raise e t ↦ raise e (put s t) ]

-- `try: body finally: clean`, for a clean-up that does not raise.
abbrev pub finally {ℓ κ} : {S : Type ℓ} {A : Type κ} → M S A → (S → S) → M S A
finally m clean s = elim (m s) [ ok a s' ↦ ok a (clean s') | raise e s' ↦ raise e (clean s') ]

-- The same, for a clean-up that may raise: its exception takes the place of the body's.
abbrev pub try_finally {ℓ κ} : {S : Type ℓ} {A : Type κ} → M S A → M S (Unit {0}) → M S A
try_finally m clean s = elim (m s) [
  | ok a s' ↦ elim (clean s') [ ok _ t ↦ ok a t | raise e t ↦ raise e t ]
  | raise x s' ↦ elim (clean s') [ ok _ t ↦ raise x t | raise e t ↦ raise e t ]
]

-- `try: body except OutOfBlocksError:`, with `none` for what the handler sees.
unfoldable pub catch {ℓ κ} : {S : Type ℓ} {A : Type κ} → Outcome S A → Outcome S (Option A)
catch (ok a s) = ok (some a) s
catch (raise out_of_blocks s) = ok none s
catch (raise e s) = raise e s

-- What holds of an outcome: `Q` of a value that is returned, `E` of the state that an exception
-- leaves.
abbrev pub Post {ℓ κ μ} :
    {S : Type ℓ} {A : Type κ} → (A → S → Type μ) → (S → Type μ) → Outcome S A → Type μ
Post Q E (ok a s) = Q a s
Post Q E (raise e s) = E s

pub bind-Post {ℓ κ ν μ} :
    {S : Type ℓ} {A : Type κ} {B : Type ν} (Q : A → S → Type μ) (R : B → S → Type μ)
    (E : S → Type μ) (o : Outcome S A) (f : A → M S B)
    → Post Q E o
    → ((a : A) (s : S) → Q a s → Post R E (f a s))
    → Post R E (elim o [ ok a s ↦ f a s | raise e s ↦ raise e s ])
bind-Post Q R E (ok a s) f h k = k a s h
bind-Post Q R E (raise e s) f h k = h

pub zoom-Post {ℓ κ ν μ} :
    {S : Type ℓ} {T : Type κ} {A : Type ν} (Q : A → S → Type μ) (E : S → Type μ) (put : S → T → S)
    (s : S) (o : Outcome T A)
    → ((a : A) (t : T) → Q a (put s t))
    → ((t : T) → E (put s t))
    → Post Q E (elim o [ ok a t ↦ ok a (put s t) | raise e t ↦ raise e (put s t) ])
zoom-Post Q E put s (ok a t) h k = h a t
zoom-Post Q E put s (raise e t) h k = k t

pub or_raise-Post {ℓ κ μ} :
    {S : Type ℓ} {A : Type κ} (Q : A → S → Type μ) (E : S → Type μ) (o : Option A) (e : Exc) (s : S)
    → ((a : A) → Q a s)
    → E s
    → Post Q E (or_raise o e s)
or_raise-Post Q E none e s h k = k
or_raise-Post Q E (some a) e s h k = h a

pub bind_of_ok {ℓ κ μ} :
    {S : Type ℓ} {A : Type κ} {B : Type μ} (m : M S A) (f : A → M S B) (s : S) (a : A) (t : S)
    {r : Outcome S B}
    → m s ≡ ok a t
    → f a t ≡ r
    → (m >>= f) s ≡ r
bind_of_ok m f s a t e h = ap (λ o. elim o [ ok a s ↦ f a s | raise x s ↦ raise x s ]) e ∙ h

pub zoom_of_ok {ℓ κ μ} :
    {S : Type ℓ} {T : Type κ} {A : Type μ} (get : S → T) (put : S → T → S) (m : M T A) (s : S)
    (a : A) (t : T)
    → m (get s) ≡ ok a t
    → zoom get put m s ≡ ok a (put s t)
zoom_of_ok get put m s a t e =
    ap (λ o. elim o [ ok a t ↦ ok a (put s t) | raise x t ↦ raise x (put s t) ]) e

-- What a call that returned did.
pub ok_of_bind {ℓ κ μ} :
    {S : Type ℓ} {A : Type κ} {B : Type μ} (o : Outcome S A) (f : A → M S B) {b : B} {t : S}
    → elim o [ ok a s ↦ f a s | raise e s ↦ raise e s ] ≡ ok b t
    → (a : A) × (s : S) × (o ≡ ok a s) × (f a s ≡ ok b t)
ok_of_bind (ok a s) f h = (a, s, refl, h)
ok_of_bind (raise e s) f h = absurd cc

pub ok_of_or_raise {ℓ κ} :
    {S : Type ℓ} {A : Type κ} (o : Option A) (e : Exc) (s : S) {a : A} {t : S}
    → or_raise o e s ≡ ok a t
    → o ≡ some a
ok_of_or_raise none e s h = absurd cc
ok_of_or_raise (some a) e s h = cc

-- What holds of the state left behind.
pub bind-final {ℓ κ μ ν} :
    {S : Type ℓ} {A : Type κ} {B : Type μ} (P : S → Type ν) (o : Outcome S A) (f : A → M S B)
    → P (final o)
    → ((a : A) (s : S) → P s → P (final (f a s)))
    → P (final (elim o [ ok a s ↦ f a s | raise e s ↦ raise e s ]))
bind-final P (ok a s) f h k = k a s h
bind-final P (raise e s) f h k = h

pub or_raise-final {ℓ κ ν} :
    {S : Type ℓ} {A : Type κ} (P : S → Type ν) (o : Option A) (e : Exc) (s : S)
    → P s
    → P (final (or_raise o e s))
or_raise-final P none e s h = h
or_raise-final P (some a) e s h = h

pub zoom-final {ℓ κ μ ν} :
    {S : Type ℓ} {T : Type κ} {A : Type μ} (P : S → Type ν) (put : S → T → S) (s : S)
    (o : Outcome T A)
    → P (put s (final o))
    → P (final (elim o [ ok a t ↦ ok a (put s t) | raise e t ↦ raise e (put s t) ]))
zoom-final P put s (ok a t) h = h
zoom-final P put s (raise e t) h = h
