-- ===== src/PagedCache.antt =====
-- dispec/kv/paged_cache.py. A slot is `block_id * block_size + offset`. The tensors are an
-- interface, `Tensors`: a store of one row (the KV heads of one token) for each layer and slot.
pub mod Slots
pub mod Exclusive
pub mod Store
pub mod Tests
use di_spec.Prelude.{
  ℕ, zero, suc, ◌+◌, ◌*◌, ◌/◌, ◌%◌, ◌≡◌, ◌≢◌, ◌≤◌, List, [], ◌∷◌, Option, none, some, map, length,
  get_elem?, range_from, count, replicate, ◌==◌, if◌then◌else◌, M, Outcome, ok, raise, ◌>>=◌, ◌>>◌,
  or_raise, index_error, runtime_error,
}

-- `bt[position // block_size] * block_size + position % block_size`; `none` is an IndexError.
unfoldable pub slot_at : ℕ → List ℕ → ℕ → Option ℕ
slot_at block_size block_ids position = elim (get_elem? block_ids (position / block_size)) [
  | none ↦ none
  | some b ↦ some (b * block_size + position % block_size)
]

unfoldable pub slots_for_positions : ℕ → List ℕ → List ℕ → Option (List ℕ)
slots_for_positions block_size block_ids [] = some []
slots_for_positions block_size block_ids (p ∷ ps) = elim (slot_at block_size block_ids p) [
  | none ↦ none
  | some s ↦ elim (slots_for_positions block_size block_ids ps) [
    | none ↦ none
    | some ss ↦ some (s ∷ ss)
  ]
]

unfoldable pub context_slots : ℕ → List ℕ → ℕ → Option (List ℕ)
context_slots block_size block_ids num_tokens =
    slots_for_positions block_size block_ids (range_from 0 num_tokens)

-- What the cache relies on of PyTorch: `t[layer].index_copy_(0, slots, rows)` at distinct slots
-- writes exactly those rows, `t[layer][slots]` reads rows in the order of the slots, and a layer's
-- rows do not depend on another layer. `num_layers` is `t.shape[0]`. `to_dtype` is the conversion to the cache's element type.
pub record Tensors : Type 1 where
  pub Row : Type 0
  pub Tensor : Type 0
  pub zeros : Tensor
  pub num_layers : Tensor → ℕ
  pub to_dtype : Row → Row
  pub index_copy : ℕ → List ℕ → List Row → Tensor → Tensor
  pub index : ℕ → List ℕ → Tensor → List Row
  pub index-index_copy :
      (layer : ℕ) (slots : List ℕ) (rows : List Row) (t : Tensor)
      → ((s : ℕ) → count s slots ≤ 1)
      → length slots ≡ length rows
      → index layer slots (index_copy layer slots rows t) ≡ rows
  pub index_other_slots :
      (layer : ℕ) (slots others : List ℕ) (rows : List Row) (t : Tensor)
      → ((s : ℕ) → count s slots * count s others ≡ 0)
      → index layer others (index_copy layer slots rows t) ≡ index layer others t
  pub index_other_layer :
      (layer other : ℕ) (slots others : List ℕ) (rows : List Row) (t : Tensor)
      → layer ≢ other
      → index other others (index_copy layer slots rows t) ≡ index other others t

-- A dimension of an assigned value that is to have `n` entries: `n` of them, or one that is repeated.
unfoldable pub stretch {ℓ} : {A : Type ℓ} → ℕ → List A → Option (List A)
stretch n [] = none
stretch n (x ∷ []) = some (replicate n x)
stretch n (x ∷ y ∷ ys) = none

unfoldable pub broadcast {ℓ} : {A : Type ℓ} → ℕ → List A → Option (List A)
broadcast n xs = if length xs == n then some xs else stretch n xs

unfoldable pub broadcast_each {ℓ} : {A : Type ℓ} → ℕ → List (List A) → Option (List (List A))
broadcast_each n [] = some []
broadcast_each n (rows ∷ more) = elim (broadcast n rows) [
  | none ↦ none
  | some out ↦ elim (broadcast_each n more) [ none ↦ none | some rest ↦ some (out ∷ rest) ]
]

module _ (T : Tensors) where
  open T use {Row, Tensor, num_layers, to_dtype, index_copy, index}

  pub record KvStore : Type 0 where
    pub key : Tensor
    pub value : Tensor

  -- `write`
  unfoldable pub write : ℕ → List ℕ → List Row → List Row → KvStore → KvStore
  write layer_idx slots k v s = record {
    key = index_copy layer_idx slots k s.key;
    value = index_copy layer_idx slots v s.value;
  }

  unfoldable pub gather : ℕ → List ℕ → KvStore → List Row × List Row
  gather layer_idx slots s = (index layer_idx slots s.key, index layer_idx slots s.value)

  -- `t[:, slots]`, for the layers from `layer` on.
  unfoldable pub read_layers : ℕ → ℕ → List ℕ → Tensor → List (List Row)
  read_layers layer zero slots t = []
  read_layers layer (suc n) slots t = index layer slots t ∷ read_layers (layer + 1) n slots t

  -- The writes of an assignment to `t[:, slots]`, from layer `layer` on.
  unfoldable pub write_layers : ℕ → List ℕ → List (List Row) → Tensor → Tensor
  write_layers layer slots [] t = t
  write_layers layer slots (rows ∷ more) t =
      write_layers (layer + 1) slots more (index_copy layer slots (map to_dtype rows) t)

  unfoldable pub export_contiguous :
      ℕ → ℕ → List ℕ → ℕ → KvStore → Option (List (List Row) × List (List Row))
  export_contiguous num_layers block_size block_ids seq_len s =
      elim (context_slots block_size block_ids seq_len) [
        | none ↦ none
        | some slots ↦
            some (read_layers 0 num_layers slots s.key, read_layers 0 num_layers slots s.value)
      ]

  -- `t[:, slots] = k.to(dtype)`; `none` is the RuntimeError of shapes that do not fit.
  unfoldable pub assign : List ℕ → List (List Row) → Tensor → Option Tensor
  assign slots k t = elim (broadcast (num_layers t) k) [
    | none ↦ none
    | some layers ↦ elim (broadcast_each (length slots) layers) [
      | none ↦ none
      | some rows ↦ some (write_layers 0 slots rows t)
    ]
  ]

  unfoldable pub set_key : List ℕ → List (List Row) → M KvStore (Unit {0})
  set_key slots k s = elim (assign slots k s.key) [
    | none ↦ raise runtime_error s
    | some key ↦ ok tt (record s { key = key })
  ]

  unfoldable pub set_value : List ℕ → List (List Row) → M KvStore (Unit {0})
  set_value slots v s = elim (assign slots v s.value) [
    | none ↦ raise runtime_error s
    | some value ↦ ok tt (record s { value = value })
  ]

  -- `seq_len` is `k.shape[1]`. Keys that are written stay written when the values raise.
  unfoldable pub import_contiguous :
      ℕ → List ℕ → ℕ → List (List Row) → List (List Row) → M KvStore (Unit {0})
  import_contiguous block_size block_ids seq_len k v = do
    slots ← or_raise (context_slots block_size block_ids seq_len) index_error
    set_key slots k
    set_value slots v
