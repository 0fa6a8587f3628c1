-- ===== src/PagedCache/Tests.antt =====
-- Three blocks, a store that is a function, and the slot theorems at them.
use di_spec.Prelude.{
  ℕ, zero, suc, ◌+◌, ◌*◌, ◌%◌, ◌≡◌, ◌≢◌, ◌≤◌, ◌<◌, refl, List, [], ◌∷◌, some, ok, final, arith, map,
  length, count, hit, hit_self, range_from, ◌==◌, if◌then◌else◌, lookup,
}
use di_spec.BlockManager.Tests.{two, seven, eight, two-IsValid, two-IsExclusive}
use di_spec.PagedCache.{
  Tensors, KvStore, slot_at, context_slots, slots_for_positions, import_contiguous,
  export_contiguous,
}
use di_spec.PagedCache.Slots.{slots_total}
use di_spec.PagedCache.Store.{export-import, export-import_apart}
use di_spec.PagedCache.Exclusive.{context_slots_apart}

-- A tensor is a function of layer and slot, and a row is a number.
abbrev pub copy : ℕ → List ℕ → List ℕ → (ℕ → ℕ → ℕ) → ℕ → ℕ → ℕ
copy layer [] rows t l s = t l s
copy layer (x ∷ xs) [] t l s = t l s
copy layer (x ∷ xs) (r ∷ rs) t l s =
    if l == layer then (if s == x then r else copy layer xs rs t l s) else t l s

abbrev pub read : ℕ → List ℕ → (ℕ → ℕ → ℕ) → List ℕ
read layer slots t = map (t layer) slots

copy_out :
    (layer s : ℕ) (slots rows : List ℕ) (t : ℕ → ℕ → ℕ)
    → count s slots ≡ 0
    → copy layer slots rows t layer s ≡ t layer s
unfolding count
copy_out layer s [] rows t h = refl
copy_out layer s (x ∷ xs) [] t h = refl
copy_out layer s (x ∷ xs) (r ∷ rs) t h = ground (arith, copy_out layer s xs rs t)

copy_layer :
    (layer l s : ℕ) (slots rows : List ℕ) (t : ℕ → ℕ → ℕ)
    → layer ≢ l
    → copy layer slots rows t l s ≡ t l s
copy_layer layer l s [] rows t h = refl
copy_layer layer l s (x ∷ xs) [] t h = refl
copy_layer layer l s (x ∷ xs) (r ∷ rs) t h = ground arith

read_skip :
    (layer x r : ℕ) (ys xs rs : List ℕ) (t : ℕ → ℕ → ℕ)
    → count x ys ≡ 0
    → read layer ys (copy layer (x ∷ xs) (r ∷ rs) t) ≡ read layer ys (copy layer xs rs t)
unfolding count
read_skip layer x r [] xs rs t h = refl
read_skip layer x r (y ∷ ys) xs rs t h =
    let head : copy layer (x ∷ xs) (r ∷ rs) t layer y ≡ copy layer xs rs t layer y = ground arith in
    let tail : read layer ys (copy layer (x ∷ xs) (r ∷ rs) t) ≡ read layer ys (copy layer xs rs t) =
      read_skip layer x r ys xs rs t (omega arith) in
    cc

pub read-copy :
    (layer : ℕ) (slots rows : List ℕ) (t : ℕ → ℕ → ℕ)
    → ((s : ℕ) → count s slots ≤ 1)
    → length slots ≡ length rows
    → read layer slots (copy layer slots rows t) ≡ rows
unfolding count
read-copy layer [] [] t once e = refl
read-copy layer [] (r ∷ rs) t once e = ground arith
read-copy layer (x ∷ xs) [] t once e = ground arith
read-copy layer (x ∷ xs) (r ∷ rs) t once e =
    let head : copy layer (x ∷ xs) (r ∷ rs) t layer x ≡ r = ground arith in
    let skip = read_skip layer x r xs xs rs t (omega (arith, once x, hit_self x)) in
    let tail = read-copy layer xs rs t (λ s. omega (arith, once s)) (omega arith) in cc

zero_left : (a b : ℕ) → a * b ≡ 0 → 0 < b → a ≡ 0
zero_left zero b h p = refl
zero_left (suc a) b h p = grind arith

zero_right : (a b c : ℕ) → a * (b + c) ≡ 0 → a * c ≡ 0
zero_right zero b c h = omega arith
zero_right (suc a) b zero h = grind arith
zero_right (suc a) b (suc c) h = grind arith

pub read_others :
    (layer : ℕ) (slots others rows : List ℕ) (t : ℕ → ℕ → ℕ)
    → ((s : ℕ) → count s slots * count s others ≡ 0)
    → read layer others (copy layer slots rows t) ≡ read layer others t
unfolding count
read_others layer slots [] rows t h = refl
read_others layer slots (y ∷ ys) rows t h =
    let none_here : count y slots ≡ 0 =
      zero_left (count y slots) (hit y y + count y ys) (h y) (omega (arith, hit_self y)) in
    let head = copy_out layer y slots rows t none_here in
    let tail =
      read_others layer slots ys rows t
        (λ s. zero_right (count s slots) (hit s y) (count s ys) (h s)) in
    cc

pub read_layer :
    (layer other : ℕ) (slots others rows : List ℕ) (t : ℕ → ℕ → ℕ)
    → layer ≢ other
    → read other others (copy layer slots rows t) ≡ read other others t
read_layer layer other slots [] rows t h = refl
read_layer layer other slots (y ∷ ys) rows t h =
    let head = copy_layer layer other y slots rows t h in
    let tail = read_layer layer other slots ys rows t h in cc

-- Two layers. The conversion keeps the remainder mod 1000.
abbrev pub table : Tensors
table = record {
  Row = ℕ;
  Tensor = ℕ → ℕ → ℕ;
  zeros = λ layer s. 0;
  num_layers = λ t. 2;
  to_dtype = λ r. r % 1000;
  index_copy = copy;
  index = read;
  index-index_copy = read-copy;
  index_other_slots = read_others;
  index_other_layer = read_layer;
}

abbrev pub blank : KvStore table
blank = record { key = λ layer s. 0; value = λ layer s. 0 }

-- Two layers of three rows.
abbrev ks : List (List ℕ)
ks = (1 ∷ 2 ∷ 3 ∷ []) ∷ (4 ∷ 5 ∷ 6 ∷ []) ∷ []

abbrev vs : List (List ℕ)
vs = (7 ∷ 8 ∷ 9 ∷ []) ∷ (1007 ∷ 1008 ∷ 1009 ∷ []) ∷ []

abbrev positions : List ℕ
positions = 2 ∷ 0 ∷ []

slots_total_example :
    (ss : List ℕ) × (slots_for_positions 2 seven.block_ids positions ≡ some ss)
    × (length ss ≡ length positions)
unfolding count
slots_total_example = slots_total 2 seven.block_ids positions (omega arith) (λ p h. ground arith)

abbrev position : ℕ
position = 2

export-import_example :
    (s' : KvStore table) × (import_contiguous table 2 seven.block_ids 3 ks vs blank ≡ ok tt s')
    × (export_contiguous table (length ks) 2 seven.block_ids 3 s'
        ≡ some (map (map table.to_dtype) ks, map (map table.to_dtype) vs))
unfolding count
export-import_example =
    export-import table 2 seven.block_ids 3 (omega arith) ks vs blank (λ c. ground arith)
      (omega arith) (refl, (refl, tt)) (refl, (refl, tt)) refl refl refl

export-import_apart_example :
    export_contiguous table 2 2 eight.block_ids 2
      (final (import_contiguous table 2 seven.block_ids 3 ks vs blank))
    ≡ export_contiguous table 2 2 eight.block_ids 2 blank
unfolding count
export-import_apart_example =
    export-import_apart table 2 seven.block_ids 3 (omega arith) ks vs blank eight.block_ids 2 2
      (λ c h. ground arith)

abbrev firsts : List ℕ
firsts = 6 ∷ 7 ∷ 4 ∷ []

abbrev seconds : List ℕ
seconds = 2 ∷ 3 ∷ []

context_slots_apart_example : (count 4 firsts ≤ 1) × (count 4 firsts * count 4 seconds ≡ 0)
unfolding lookup context_slots slots_for_positions slot_at range_from
context_slots_apart_example =
    context_slots_apart two 7 8 seven eight 3 2 firsts seconds two-IsValid two-IsExclusive
      (omega arith) refl refl refl refl 4
