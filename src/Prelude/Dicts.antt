-- ===== src/Prelude/Dicts.antt =====
-- A Python `dict` with integer keys: an association list in insertion order. Assigning to a key
-- that is present keeps its place, a new key goes to the end.
use Prim.Native.Nat.{ℕ, ◌+◌, ◌≤◌}
use mathlib.Core.Path.{◌≡◌, refl}
use mathlib.Core.Logic.{◌≢◌}
use mathlib.Core.Bool.{Bool, true, false}
use mathlib.Core.List.{List, [], ◌∷◌, map}
use mathlib.Core.Option.{Option, none, some}
use native.Mathlib.Omega.{arith}
use di_spec.Prelude.Tests.{◌==◌, ==→eq, if◌then◌else◌}
use di_spec.Prelude.Lists.{count, hit}

abbrev pub Dict {ℓ} : Type ℓ → Type ℓ
Dict V = List (ℕ × V)

module _ {ℓ} {V : Type ℓ} where
  unfoldable pub lookup : ℕ → Dict V → Option V
  lookup k [] = none
  lookup k ((j, v) ∷ d) = if k == j then some v else lookup k d

  -- `d[k] = v`
  unfoldable pub insert : ℕ → V → Dict V → Dict V
  insert k v [] = (k, v) ∷ []
  insert k v ((j, w) ∷ d) = if k == j then (k, v) ∷ d else (j, w) ∷ insert k v d

  -- `del d[k]`, `d.pop(k, None)`
  unfoldable pub remove : ℕ → Dict V → Dict V
  remove k [] = []
  remove k ((j, w) ∷ d) = if k == j then d else (j, w) ∷ remove k d

  -- `k in d`
  unfoldable pub has : ℕ → Dict V → Bool
  has k [] = false
  has k ((j, w) ∷ d) = if k == j then true else has k d

  abbrev pub keys : Dict V → List ℕ
  keys = map (λ e. e.0)

  pub has-lookup-none : (k : ℕ) (d : Dict V) → has k d ≡ false → lookup k d ≡ none
  unfolding has lookup
  has-lookup-none k [] h = refl
  has-lookup-none k (e ∷ d) h = ground (arith, has-lookup-none k d)

  pub has_of_lookup : (k : ℕ) (d : Dict V) {v : V} → lookup k d ≡ some v → has k d ≡ true
  unfolding has lookup
  has_of_lookup k [] h = cc
  has_of_lookup k (e ∷ d) {v} h = ground (arith, has_of_lookup k d {v = v})

  pub has-false_of_lookup : (k : ℕ) (d : Dict V) → lookup k d ≡ none → has k d ≡ false
  unfolding has lookup
  has-false_of_lookup k [] h = refl
  has-false_of_lookup k (e ∷ d) h = ground (arith, has-false_of_lookup k d)

  pub lookup-insert :
      (j k : ℕ) (v : V) (d : Dict V)
      → lookup j (insert k v d) ≡ (if j == k then some v else lookup j d)
  unfolding lookup insert
  lookup-insert j k v [] = refl
  lookup-insert j k v (e ∷ d) = ground (arith, lookup-insert j k v d)

  pub lookup-insert_self : (key : ℕ) (v : V) (d : Dict V) → lookup key (insert key v d) ≡ some v
  lookup-insert_self key v d = ground (arith, lookup-insert key key v d)

  pub lookup-insert_ne :
      (other key : ℕ) (w : V) (d : Dict V)
      → other ≢ key
      → lookup other (insert key w d) ≡ lookup other d
  lookup-insert_ne other key w d h = ground (arith, lookup-insert other key w d)

  pub lookup-remove_ne : (j k : ℕ) (d : Dict V) → j ≢ k → lookup j (remove k d) ≡ lookup j d
  unfolding lookup remove
  lookup-remove_ne j k [] h = refl
  lookup-remove_ne j k (e ∷ d) h = ground (arith, lookup-remove_ne j k d)

  -- Every key stands once.
  abbrev pub IsOnce : Dict V → Type 0
  IsOnce d = (k : ℕ) → count k (keys d) ≤ 1

  pub lookup_of_count : (k : ℕ) (d : Dict V) → count k (keys d) ≡ 0 → lookup k d ≡ none
  unfolding lookup count
  lookup_of_count k [] h = refl
  lookup_of_count k (e ∷ d) h = ground (arith, lookup_of_count k d)

  pub lookup-remove_self :
      (k : ℕ) (d : Dict V) → count k (keys d) ≤ 1 → lookup k (remove k d) ≡ none
  unfolding lookup remove count
  lookup-remove_self k [] h = refl
  lookup-remove_self k (e ∷ d) h = ground (arith, lookup-remove_self k d, lookup_of_count k d)

  pub count-keys-remove : (j k : ℕ) (d : Dict V) → count j (keys (remove k d)) ≤ count j (keys d)
  unfolding remove count
  count-keys-remove j k [] = omega arith
  count-keys-remove j k (e ∷ d) = ground (arith, count-keys-remove j k d)

  -- Removing a key that is there takes away one occurrence of it.
  pub count-keys-remove_present :
      (j k : ℕ) (d : Dict V) {v : V}
      → lookup k d ≡ some v
      → count j (keys (remove k d)) + hit j k ≡ count j (keys d)
  unfolding remove count lookup
  count-keys-remove_present j k [] h = cc
  count-keys-remove_present j k (e ∷ d) {v} h =
      ground (arith, count-keys-remove_present j k d {v = v}, ==→eq k e.0)

  pub count-keys-insert :
      (j k : ℕ) (v : V) (d : Dict V)
      → count j (keys (insert k v d)) ≡ count j (keys d) + (if has k d then 0 else hit j k)
  unfolding insert count has
  count-keys-insert j k v [] = ground arith
  count-keys-insert j k v (e ∷ d) = ground (arith, count-keys-insert j k v d)

  pub has-false-count : (k : ℕ) (d : Dict V) → has k d ≡ false → count k (keys d) ≡ 0
  unfolding has count
  has-false-count k [] h = refl
  has-false-count k (e ∷ d) h = ground (arith, has-false-count k d)

  pub insert-IsOnce : (k : ℕ) (v : V) (d : Dict V) → IsOnce d → IsOnce (insert k v d)
  insert-IsOnce k v d once j =
      ground (arith, count-keys-insert j k v d, has-false-count k d, once j)

  pub remove-IsOnce : (k : ℕ) (d : Dict V) → IsOnce d → IsOnce (remove k d)
  remove-IsOnce k d once j = omega (arith, count-keys-remove j k d, once j)

  pub insert-insert : (k : ℕ) (v w : V) (d : Dict V) → insert k w (insert k v d) ≡ insert k w d
  unfolding insert
  insert-insert k v w [] = ground arith
  insert-insert k v w (e ∷ d) = ground (arith, insert-insert k v w d)

  -- A new key that is removed again leaves the dictionary as it was.
  pub remove-insert : (k : ℕ) (v : V) (d : Dict V) → lookup k d ≡ none → remove k (insert k v d) ≡ d
  unfolding remove insert lookup
  remove-insert k v [] h = ground arith
  remove-insert k v (e ∷ d) h = ground (arith, remove-insert k v d)

  -- Writing what is there changes nothing.
  pub insert_same : (k : ℕ) (v : V) (d : Dict V) → lookup k d ≡ some v → insert k v d ≡ d
  unfolding insert lookup
  insert_same k v [] h = cc
  insert_same k v (e ∷ d) h = ground (arith, insert_same k v d, ==→eq k e.0)
