-- ===== src/PagedCache/Slots.antt =====
-- Slots address the blocks of a sequence, and nothing else.
use di_spec.Prelude.{
  ℕ, zero, suc, ◌+◌, ◌*◌, ◌/◌, ◌%◌, ◌≤◌, ◌<◌, ◌≡◌, ◌≢◌, refl, sym, ap, ◌∙◌, inl, inr, List, [], ◌∷◌,
  leb, ltb, ◌&&◌, some, arith, length, get_elem?, get_elem?_of_lt, count_of_get_elem?, count,
  hit_self, hit-true, hit-false, range_from, Option-cases, ==→eq, ◌==◌, if◌then◌else◌, Bool-cases,
}
use di_spec.PagedCache.{slot_at, slots_for_positions}

mod_lt : (n b : ℕ) → 0 < b → n % b < b
mod_lt n b h = grind arith

not_above : (bs b c r q : ℕ) → q < bs → b * bs + r ≡ c * bs + q → b ≤ c
not_above bs b c r q hq e = grind arith

slot_parts : (bs b c r q : ℕ) → r < bs → q < bs → b * bs + r ≡ c * bs + q → (b ≡ c) × (r ≡ q)
slot_parts bs b c r q hr hq e =
    let below : b ≤ c = not_above bs b c r q hq e in
    let above : c ≤ b = not_above bs c b q r hr (sym e) in
    let same : b ≡ c = omega arith in (same, omega (arith, e, ap (λ (n : ℕ). n * bs) same))

same_position : (bs p q : ℕ) → 0 < bs → p / bs ≡ q / bs → p % bs ≡ q % bs → p ≡ q
same_position bs p q h d m = grind arith

div_below : (bs p l : ℕ) → 0 < bs → p < l * bs → p / bs < l
div_below bs p l h lt = grind arith

slot_below : (bs b r n : ℕ) → r < bs → b < n → b * bs + r < n * bs
slot_below bs b r n hr hb = grind arith

-- A position inside the blocks of a sequence has a slot.
pub slot_at_total :
    (bs : ℕ) (ids : List ℕ) (p : ℕ)
    → 0 < bs
    → p < length ids * bs
    → (b : ℕ) × (get_elem? ids (p / bs) ≡ some b) × (slot_at bs ids p ≡ some (b * bs + p % bs))
unfolding slot_at
slot_at_total bs ids p h lt =
    let (b, e) = get_elem?_of_lt ids (p / bs) (div_below bs p (length ids) h lt) in
    (b, e, rw (e, slot_at))

-- What a slot says of the position that it was computed for.
pub slot_at_block :
    (bs : ℕ) (ids : List ℕ) (p s : ℕ)
    → slot_at bs ids p ≡ some s
    → (b : ℕ) × (get_elem? ids (p / bs) ≡ some b) × (s ≡ b * bs + p % bs)
unfolding slot_at
slot_at_block bs ids p s e = elim (Option-cases (get_elem? ids (p / bs))) [
  | inl n ↦ absurd (ground (arith, n))
  | inr (b, f) ↦ (b, f, ground (arith, f))
]

get_elem?_once :
    (ids : List ℕ) (i j b : ℕ)
    → ((c : ℕ) → count c ids ≤ 1)
    → get_elem? ids i ≡ some b
    → get_elem? ids j ≡ some b
    → i ≡ j
unfolding count
get_elem?_once [] i j b o hi hj = cc
get_elem?_once (x ∷ ids) zero zero b o hi hj = refl
get_elem?_once (x ∷ ids) zero (suc j) b o hi hj =
    absurd (ground (arith, count_of_get_elem? ids j b hj, o b))
get_elem?_once (x ∷ ids) (suc i) zero b o hi hj =
    absurd (ground (arith, count_of_get_elem? ids i b hi, o b))
get_elem?_once (x ∷ ids) (suc i) (suc j) b o hi hj =
    ap suc (get_elem?_once ids i j b (λ c. omega (arith, o c)) hi hj)

-- In a sequence whose blocks are distinct, two positions never share a slot.
pub slot_at_injective :
    (bs : ℕ) (ids : List ℕ) (p q s : ℕ)
    → 0 < bs
    → ((c : ℕ) → count c ids ≤ 1)
    → slot_at bs ids p ≡ some s
    → slot_at bs ids q ≡ some s
    → p ≡ q
slot_at_injective bs ids p q s h o ep eq =
    let (b, fb, eb) = slot_at_block bs ids p s ep in
    let (c, fc, ec) = slot_at_block bs ids q s eq in
    let (same, off) =
      slot_parts bs b c (p % bs) (q % bs) (mod_lt p bs h) (mod_lt q bs h) (sym eb ∙ ec) in
    same_position bs p q h (get_elem?_once ids (p / bs) (q / bs) b o fb (fc ∙ ap some (sym same)))
      off

-- Sequences without a common block have no common slot.
pub slot_at_apart :
    (bs : ℕ) (ids others : List ℕ) (p q s : ℕ)
    → 0 < bs
    → ((c : ℕ) → 0 < count c ids → count c others ≡ 0)
    → slot_at bs ids p ≡ some s
    → slot_at bs others q ≢ some s
slot_at_apart bs ids others p q s h o ep eq =
    let (b, fb, eb) = slot_at_block bs ids p s ep in
    let (c, fc, ec) = slot_at_block bs others q s eq in
    let (same, _) =
      slot_parts bs b c (p % bs) (q % bs) (mod_lt p bs h) (mod_lt q bs h) (sym eb ∙ ec) in
    let mine : 0 < count b ids = count_of_get_elem? ids (p / bs) b fb in
    let theirs : 0 < count b others =
      count_of_get_elem? others (q / bs) b (fc ∙ ap some (sym same)) in
    omega (arith, o b mine)

-- The list of slots, taken apart.
slots_cons :
    (bs : ℕ) (ids : List ℕ) (p : ℕ) (ps ss : List ℕ)
    → slots_for_positions bs ids (p ∷ ps) ≡ some ss
    → (s : ℕ) × (rest : List ℕ) × (slot_at bs ids p ≡ some s)
      × (slots_for_positions bs ids ps ≡ some rest)
      × (ss ≡ s ∷ rest)
unfolding slots_for_positions
slots_cons bs ids p ps ss e = elim (Option-cases (slot_at bs ids p)) [
  | inl n ↦ absurd (ground (arith, n))
  | inr (s, f) ↦ elim (Option-cases (slots_for_positions bs ids ps)) [
    | inl n ↦ absurd (ground (arith, n, f))
    | inr (rest, g) ↦ (s, rest, f, g, ground (arith, f, g))
  ]
]

-- Where a slot of the list comes from.
pub slots_from :
    (bs : ℕ) (ids ps ss : List ℕ) (s : ℕ)
    → slots_for_positions bs ids ps ≡ some ss
    → 0 < count s ss
    → (p : ℕ) × (0 < count p ps) × (slot_at bs ids p ≡ some s)
unfolding slots_for_positions count
slots_from bs ids [] ss s e h = absurd (ground (arith))
slots_from bs ids (p ∷ ps) ss s e h =
    let (s₀, rest, f, g, same) = slots_cons bs ids p ps ss e in
    elim (Bool-cases (s == s₀)) [
      | inl here ↦ (p, omega (arith, hit_self p), f ∙ ap some (sym (==→eq s s₀ here)))
      | inr other ↦
          let (q, there, at) =
            slots_from bs ids ps rest s g
              (omega (arith, ap (count s) same, hit-false s s₀ other)) in
          (q, omega arith, at)
    ]

-- Every position inside the blocks of a sequence has a slot.
pub slots_total :
    (bs : ℕ) (ids ps : List ℕ)
    → 0 < bs
    → ((p : ℕ) → 0 < count p ps → p < length ids * bs)
    → (ss : List ℕ) × (slots_for_positions bs ids ps ≡ some ss) × (length ss ≡ length ps)
unfolding slots_for_positions count
slots_total bs ids [] h lt = ([], refl, refl)
slots_total bs ids (p ∷ ps) h lt =
    let (b, _, f) = slot_at_total bs ids p h (lt p (omega (arith, hit_self p))) in
    let (rest, g, l) = slots_total bs ids ps h (λ q m. lt q (omega arith)) in
    ((b * bs + p % bs) ∷ rest, ground (arith, f, g), ap suc l)

-- Distinct positions of a sequence with distinct blocks get distinct slots.
pub slots_once :
    (bs : ℕ) (ids ps ss : List ℕ)
    → 0 < bs
    → ((c : ℕ) → count c ids ≤ 1)
    → ((c : ℕ) → count c ps ≤ 1)
    → slots_for_positions bs ids ps ≡ some ss
    → (s : ℕ) → count s ss ≤ 1
unfolding slots_for_positions count
slots_once bs ids [] ss h o po e s = ground arith
slots_once bs ids (p ∷ ps) ss h o po e s =
    let (s₀, rest, f, g, same) = slots_cons bs ids p ps ss e in
    let tail : count s rest ≤ 1 = slots_once bs ids ps rest h o (λ c. omega (arith, po c)) g s in
    elim (Bool-cases (s == s₀)) [
      | inr other ↦ omega (arith, ap (count s) same, hit-false s s₀ other)
      | inl here ↦
          omega (arith, ap (count s) same, hit-true s s₀ here, first_once (==→eq s s₀ here) f g)
    ]
  where
    first_once :
        {s₀ : ℕ} {rest : List ℕ}
        → s ≡ s₀
        → slot_at bs ids p ≡ some s₀
        → slots_for_positions bs ids ps ≡ some rest
        → count s rest ≡ 0
    first_once {rest = rest} same f g = none_left (count s rest) refl
      where
        none_left : (n : ℕ) → count s rest ≡ n → n ≡ 0
        none_left zero q = refl
        none_left (suc n) q =
            let (r, m, at) = slots_from bs ids ps rest s g (omega arith) in
            let twice : r ≡ p = slot_at_injective bs ids r p s h o at (f ∙ ap some (sym same)) in
            absurd (omega (arith, po p, hit_self p, ap (λ (i : ℕ). count i ps) twice))

-- `range(start, start + n)` has every number of the range once.
pub count-range_from :
    (c start n : ℕ)
    → count c (range_from start n) ≡ (if leb start c && ltb c (start + n) then 1 else 0)
unfolding range_from count
count-range_from c start zero = ground arith
count-range_from c start (suc n) = ground (arith, count-range_from c (start + 1) n)

-- Sequences without a common block have slot lists without a common slot.
pub slots_apart :
    (bs : ℕ) (ids others ps qs ss os : List ℕ)
    → 0 < bs
    → ((c : ℕ) → 0 < count c ids → count c others ≡ 0)
    → slots_for_positions bs ids ps ≡ some ss
    → slots_for_positions bs others qs ≡ some os
    → (s : ℕ) → count s ss * count s os ≡ 0
slots_apart bs ids others ps qs ss os h o e f s = from (count s ss) (count s os) refl refl
  where
    from : (m n : ℕ) → count s ss ≡ m → count s os ≡ n → m * n ≡ 0
    from zero n p q = omega arith
    from (suc m) zero p q = omega arith
    from (suc m) (suc n) p q =
        let (a, _, at) = slots_from bs ids ps ss s e (omega arith) in
        let (b, _, there) = slots_from bs others qs os s f (omega arith) in
        absurd (slot_at_apart bs ids others a b s h o at there)

pub slots_for_positions-length :
    (bs : ℕ) (ids ps ss : List ℕ) → slots_for_positions bs ids ps ≡ some ss → length ss ≡ length ps
unfolding slots_for_positions
slots_for_positions-length bs ids [] ss e = ground arith
slots_for_positions-length bs ids (p ∷ ps) ss e =
    let (s, rest, _, g, same) = slots_cons bs ids p ps ss e in
    omega (arith, ap length same, slots_for_positions-length bs ids ps rest g)
