-- ===== src/CudaGraph/Buckets.antt =====
-- The bucket that is picked is the smallest one that fits.
use di_spec.Prelude.{
  replicate, length-replicate, ℕ, ◌+◌, ◌-◌, ◌≡◌, ◌≤◌, ◌<◌, refl, true, false, List, [], ◌∷◌, some,
  arith, length, length-append, count, hit, hit_self, leb, ◌==◌, Bool-cases, inl, inr, ==→eq,
  Option-cases,
}
use di_spec.Scheduler.{get_last}
use di_spec.CudaGraph.{
  insert_bucket, sorted, max_ctx, can_handle, first_fitting, pick, padded_slots, mask,
}

count-insert_bucket : (a b : ℕ) (bs : List ℕ) → count a (insert_bucket b bs) ≡ hit a b + count a bs
unfolding count insert_bucket
count-insert_bucket a b [] = omega arith
count-insert_bucket a b (c ∷ cs) = ground (arith, count-insert_bucket a b cs)

count-sorted : (a : ℕ) (bs : List ℕ) → count a (sorted bs) ≡ count a bs
unfolding count sorted
count-sorted a [] = refl
count-sorted a (b ∷ bs) = omega (arith, count-insert_bucket a b (sorted bs), count-sorted a bs)

-- Every bucket of the list is at least `u`.
abbrev Since : ℕ → List ℕ → Type 0
Since u [] = Unit {0}
Since u (b ∷ bs) = (u ≤ b) × Since u bs

abbrev Ascends : List ℕ → Type 0
Ascends [] = Unit {0}
Ascends (b ∷ bs) = Since b bs × Ascends bs

Since-below : (u v : ℕ) (bs : List ℕ) → u ≤ v → Since v bs → Since u bs
Since-below u v [] h s = tt
Since-below u v (b ∷ bs) h s = (omega arith, Since-below u v bs h s.1)

Since-insert : (u b : ℕ) (bs : List ℕ) → u ≤ b → Since u bs → Since u (insert_bucket b bs)
unfolding insert_bucket
Since-insert u b [] h s = (h, tt)
Since-insert u b (c ∷ cs) h s = elim (Bool-cases (leb b c)) [
  | inl e ↦ rw e (h, s)
  | inr e ↦ rw e (s.0, Since-insert u b cs h s.1)
]

insert_bucket-Ascends : (b : ℕ) (bs : List ℕ) → Ascends bs → Ascends (insert_bucket b bs)
unfolding insert_bucket
insert_bucket-Ascends b [] s = (tt, tt)
insert_bucket-Ascends b (c ∷ cs) s = elim (Bool-cases (leb b c)) [
  | inl e ↦ let low : b ≤ c = ground arith in rw e ((low, Since-below b c cs low s.0), s)
  | inr e ↦
      let low : c ≤ b = ground arith in
      rw e (Since-insert c b cs low s.0, insert_bucket-Ascends b cs s.1)
]

sorted-Ascends : (bs : List ℕ) → Ascends (sorted bs)
unfolding sorted
sorted-Ascends [] = tt
sorted-Ascends (b ∷ bs) = insert_bucket-Ascends b (sorted bs) (sorted-Ascends bs)

Since-count : (u a : ℕ) (bs : List ℕ) → Since u bs → 0 < count a bs → u ≤ a
unfolding count
Since-count u a [] s h = absurd (omega arith)
Since-count u a (b ∷ bs) s h = elim (Bool-cases (a == b)) [
  | inl e ↦ ground (arith, ==→eq a b e, s.0)
  | inr e ↦ Since-count u a bs s.1 (ground arith)
]

-- The smallest bucket of at least `n`.
abbrev IsLeast : ℕ → List ℕ → ℕ → Type 0
IsLeast n bs b = (n ≤ b) × (0 < count b bs) × ((c : ℕ) → 0 < count c bs → n ≤ c → b ≤ c)

head-IsLeast : (n b : ℕ) (bs : List ℕ) → Since b bs → n ≤ b → IsLeast n (b ∷ bs) b
unfolding count
head-IsLeast n b bs s h = (
  h,
  omega (arith, hit_self b),
  λ c p q. elim (Bool-cases (c == b)) [
    | inl e ↦ ground (arith, ==→eq c b e)
    | inr e ↦ Since-count b c bs s (ground arith)
  ],
)

later-IsLeast : (n b c : ℕ) (bs : List ℕ) → b < n → IsLeast n bs c → IsLeast n (b ∷ bs) c
unfolding count
later-IsLeast n b c bs low (h, p, least) = (
  h,
  omega arith,
  λ d q r. elim (Bool-cases (d == b)) [
    | inl e ↦ absurd (omega (arith, ==→eq d b e))
    | inr e ↦ least d (ground arith) r
  ],
)

first_fitting_lem :
    (n m : ℕ) (bs : List ℕ)
    → Ascends bs
    → get_last bs ≡ some m
    → n ≤ m
    → (b : ℕ) × (first_fitting n bs ≡ some b) × IsLeast n bs b
unfolding first_fitting get_last
first_fitting_lem n m [] s l h = cc
first_fitting_lem n m (b ∷ []) s l h =
    let same : b ≡ m = cc in
    let fits : n ≤ b = omega arith in (b, ground arith, head-IsLeast n b [] s.0 fits)
first_fitting_lem n m (b ∷ c ∷ cs) s l h = elim (Bool-cases (leb n b)) [
  | inl e ↦ let fits : n ≤ b = ground arith in (b, rw e refl, head-IsLeast n b (c ∷ cs) s.0 fits)
  | inr e ↦
      let low : b < n = ground arith in
      let (d, f, least) = first_fitting_lem n m (c ∷ cs) s.1 l h in
      (d, rw e f, later-IsLeast n b d (c ∷ cs) low least)
]

-- A context that the decoder can handle is replayed in the smallest bucket that holds it, whatever
-- the order in which the buckets were given; the slots and the mask are padded to its size.
pub pick-IsLeast :
    (buckets ctx_slots : List ℕ)
    → can_handle buckets (length ctx_slots) ≡ true
    → (b : ℕ) × (pick buckets (length ctx_slots) ≡ some b)
      × (length ctx_slots ≤ b)
      × (0 < count b buckets)
      × ((c : ℕ) → 0 < count c buckets → length ctx_slots ≤ c → b ≤ c)
      × (length (padded_slots b ctx_slots) ≡ b)
      × (length (mask b ctx_slots) ≡ b)
unfolding can_handle max_ctx pick padded_slots mask
pick-IsLeast buckets ctx_slots able = elim (Option-cases (get_last (sorted buckets))) [
  | inl e ↦ ground (arith, able, e)
  | inr (m, e) ↦
      let n : ℕ = length ctx_slots in
      let small : n ≤ m = ground (arith, able, e) in
      let (b, f, (fits, member, least)) =
        first_fitting_lem n m (sorted buckets) (sorted-Ascends buckets) e small in
      (
        b,
        f,
        fits,
        omega (arith, member, count-sorted b buckets),
        λ c p q. least c (omega (arith, count-sorted c buckets)) q,
        omega (
          arith,
          length-append ctx_slots (replicate (b - n) 0),
          length-replicate {A = ℕ} (b - n) 0,
        ),
        omega (
          arith,
          length-append (replicate n true) (replicate (b - n) false),
          length-replicate n true,
          length-replicate (b - n) false,
        ),
      )
]
