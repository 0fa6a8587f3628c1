-- ===== src/PrefixCache/Order.antt =====
-- The order that `evict` sorts the nodes into.
use di_spec.Prelude.{
  ℕ, zero, suc, ◌+◌, ◌≤◌, ◌≡◌, refl, ap, ◌∙◌, inl, inr, [], ◌∷◌, Option, none, some, arith, length,
  leb, lookup, IsOnce, Dict, ==→eq, ◌==◌, if◌then◌else◌, count, hit, hit_self, keys, Bool-cases,
  take,
}
use di_spec.PrefixCache.{Node, insert_by_use, sort_by_use}

-- Every node of the list was used at `u` or later.
abbrev pub Since : ℕ → Dict Node → Type 0
Since u [] = Unit {0}
Since u ((_, n) ∷ d) = (u ≤ n.last_used) × Since u d

abbrev pub IsSorted : Dict Node → Type 0
IsSorted [] = Unit {0}
IsSorted ((_, n) ∷ d) = Since n.last_used d × IsSorted d

Since-mono : (u v : ℕ) (d : Dict Node) → u ≤ v → Since v d → Since u d
Since-mono u v [] h s = tt
Since-mono u v (e ∷ d) h s = (omega arith, Since-mono u v d h s.1)

Since-insert :
    (u k : ℕ) (n : Node) (d : Dict Node)
    → u ≤ n.last_used
    → Since u d
    → Since u (insert_by_use k n d)
unfolding insert_by_use
Since-insert u k n [] h s = (h, tt)
Since-insert u k n ((j, w) ∷ d) h s = elim (Bool-cases (leb n.last_used w.last_used)) [
  | inl e ↦ rw e (h, s)
  | inr e ↦ rw e (s.0, Since-insert u k n d h s.1)
]

insert_by_use-IsSorted :
    (k : ℕ) (n : Node) (d : Dict Node) → IsSorted d → IsSorted (insert_by_use k n d)
unfolding insert_by_use
insert_by_use-IsSorted k n [] s = (tt, tt)
insert_by_use-IsSorted k n ((j, w) ∷ d) s = elim (Bool-cases (leb n.last_used w.last_used)) [
  | inl e ↦
      let le : n.last_used ≤ w.last_used = ground arith in
      rw e ((le, Since-mono n.last_used w.last_used d le s.0), s)
  | inr e ↦
      let le : w.last_used ≤ n.last_used = ground arith in
      rw e (Since-insert w.last_used k n d le s.0, insert_by_use-IsSorted k n d s.1)
]

pub sort-IsSorted : (d : Dict Node) → IsSorted (sort_by_use d)
unfolding sort_by_use
sort-IsSorted [] = tt
sort-IsSorted ((k, n) ∷ d) = insert_by_use-IsSorted k n (sort_by_use d) (sort-IsSorted d)

length-insert_by_use :
    (k : ℕ) (n : Node) (d : Dict Node) → length (insert_by_use k n d) ≡ length d + 1
unfolding insert_by_use
length-insert_by_use k n [] = omega arith
length-insert_by_use k n (e ∷ d) = ground (arith, length-insert_by_use k n d)

pub length-sort : (d : Dict Node) → length (sort_by_use d) ≡ length d
unfolding sort_by_use
length-sort [] = refl
length-sort ((k, n) ∷ d) = omega (arith, length-insert_by_use k n (sort_by_use d), length-sort d)

keys-insert_by_use :
    (j k : ℕ) (n : Node) (d : Dict Node)
    → count j (keys (insert_by_use k n d)) ≡ hit j k + count j (keys d)
unfolding insert_by_use count
keys-insert_by_use j k n [] = omega arith
keys-insert_by_use j k n (e ∷ d) = ground (arith, keys-insert_by_use j k n d)

pub keys-sort : (j : ℕ) (d : Dict Node) → count j (keys (sort_by_use d)) ≡ count j (keys d)
unfolding sort_by_use count
keys-sort j [] = refl
keys-sort j ((k, n) ∷ d) = omega (arith, keys-insert_by_use j k n (sort_by_use d), keys-sort j d)

lookup-insert_by_use :
    (j k : ℕ) (n : Node) (d : Dict Node)
    → count k (keys d) ≡ 0
    → lookup j (insert_by_use k n d) ≡ (if j == k then some n else lookup j d)
unfolding insert_by_use lookup count
lookup-insert_by_use j k n [] h = refl
lookup-insert_by_use j k n ((i, w) ∷ d) h =
    ground (arith, lookup-insert_by_use j k n d, ==→eq j k, ==→eq j i, ==→eq k i)

pub lookup-sort : (j : ℕ) (d : Dict Node) → IsOnce d → lookup j (sort_by_use d) ≡ lookup j d
unfolding sort_by_use lookup count
lookup-sort j [] o = refl
lookup-sort j ((k, n) ∷ d) o =
    let absent : count k (keys d) ≡ 0 = omega (arith, o k, hit_self k) in
    lookup-insert_by_use j k n (sort_by_use d) (keys-sort k d ∙ absent)
    ∙ ap (λ (r : Option Node). if j == k then some n else r)
        (lookup-sort j d (λ i. omega (arith, o i)))

pub keys-take : (j n : ℕ) (d : Dict Node) → count j (keys (take n d)) ≤ count j (keys d)
unfolding count
keys-take j zero d = omega arith
keys-take j (suc n) [] = omega arith
keys-take j (suc n) (e ∷ d) = omega (arith, keys-take j n d)

pub lookup-take :
    (j n : ℕ) (d : Dict Node) (w : Node) → lookup j (take n d) ≡ some w → lookup j d ≡ some w
unfolding lookup
lookup-take j zero d w h = cc
lookup-take j (suc n) [] w h = cc
lookup-take j (suc n) ((k, v) ∷ d) w h = ground (arith, lookup-take j n d w)

Since-lookup :
    (u j : ℕ) (d : Dict Node) (w : Node) → Since u d → lookup j d ≡ some w → u ≤ w.last_used
unfolding lookup
Since-lookup u j [] w s h = cc
Since-lookup u j ((k, v) ∷ d) w s h = ground (arith, Since-lookup u j d w s.1)

-- In a sorted list, what stands in front was used no later than what comes behind.
pub sorted_split :
    (n j k : ℕ) (d : Dict Node) (w v : Node)
    → IsSorted d
    → lookup j (take n d) ≡ some w
    → lookup k (take n d) ≡ none
    → lookup k d ≡ some v
    → w.last_used ≤ v.last_used
unfolding lookup
sorted_split zero j k d w v s hj hk h = cc
sorted_split (suc n) j k [] w v s hj hk h = cc
sorted_split (suc n) j k ((i, x) ∷ d) w v s hj hk h =
    ground (arith, sorted_split n j k d w v s.1, Since-lookup x.last_used k d v s.0)
