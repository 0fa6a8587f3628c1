-- ===== src/KvTransfer/Maps.antt =====
-- The maps: their checks on construction and their application.
use di_spec.Prelude.{
  ℕ, zero, suc, ◌+◌, ◌-◌, ◌*◌, ◌/◌, ◌≡◌, Bool, true, false, ◌&&◌, List, [], ◌∷◌, ◌++◌, Option, none,
  some, map, length, take, drop, get_elem?, ltb, ◌==◌, if◌then◌else◌, zip_with, replicate, concat,
  ℤ, pos, negsuc, Call, ◌>>=◌, ◌>>◌, ret, fail, or_raise, for_each, Exc, value_error, type_error,
  index_error, runtime_error,
}
use di_spec.Prelude.Rings.{Ring}
use di_spec.KvTransfer.{Rope, turn_tokens, apply_head, strip_rope}

-- What is read of a model's configuration. `head_dim` may be missing; the number of attention heads
-- is not 0.
pub record Config : Type 0 where
  pub num_key_value_heads : ℕ
  pub head_dim : Option ℕ
  pub hidden_size : ℕ
  pub num_attention_heads : ℕ
  pub vocab_size : ℕ
  pub num_hidden_layers : ℕ

unfoldable pub head_dim_of : Config → ℕ
head_dim_of config = elim config.head_dim [
  | none ↦ config.hidden_size / config.num_attention_heads
  | some d ↦ if d == 0 then config.hidden_size / config.num_attention_heads else d
]

-- What is used of PyTorch on one row `x`: `x @ w`, `F.linear(x, w)`, `F.linear(x, w, b)` and
-- `F.gelu`. `none` is the RuntimeError of shapes that do not fit.
pub record Linear (A : Type 0) : Type 1 where
  pub Mat : Type 0
  pub rows : Mat → ℕ
  pub cols : Mat → ℕ
  pub matmul : List A → Mat → Option (List A)
  pub linear : List A → Mat → Option (List A)
  pub linear_bias : List A → Mat → List A → Option (List A)
  pub gelu : A → A
  pub matmul_shape :
      (x : List A) (w : Mat)
      → length x ≡ rows w
      → (y : List A) × (matmul x w ≡ some y) × (length y ≡ cols w)
  pub linear_shape :
      (x : List A) (w : Mat)
      → length x ≡ cols w
      → (y : List A) × (linear x w ≡ some y) × (length y ≡ rows w)
  pub linear_bias_shape :
      (x : List A) (w : Mat) (b : List A)
      → length x ≡ cols w
      → length b ≡ rows w
      → (y : List A) × (linear_bias x w b ≡ some y) × (length y ≡ rows w)

-- `if not ok: raise e`
abbrev pub require : Bool → Exc → Call (Unit {0})
require holds e = if holds then ret tt else fail e

-- `xs[i]` for an integer: a negative one counts from the end.
unfoldable pub at_index {ℓ} : {A : Type ℓ} → List A → ℤ → Option A
at_index xs (pos i) = get_elem? xs i
at_index xs (negsuc i) = if ltb i (length xs) then get_elem? xs (length xs - (i + 1)) else none

unfoldable pub in_source : ℕ → List ℤ → Bool
in_source n [] = true
in_source n (pos i ∷ is) = ltb i n && in_source n is
in_source n (negsuc i ∷ is) = false

module _ {A : Type 0} (r : Ring A) (L : Linear A) where
  open L use {Mat, rows, cols, matmul, linear, linear_bias, gelu}

  pub record LayerMap : Type 0 where
    pub source_layers : List ℤ
    pub bias : List A
    pub weight : Option Mat
    pub factors : Option (Mat × Mat)
    pub residual : Option (Mat × List A × Mat)

  -- `LayerMap.apply`, on one row; a map without weight and factors multiplies by None.
  unfoldable pub product : Option Mat → Option (Mat × Mat) → List A → Call (List A)
  product weight (some (left, right)) x = do
    z ← or_raise (matmul x left) runtime_error
    or_raise (matmul z right) runtime_error
  product (some w) none x = or_raise (matmul x w) runtime_error
  product none none x = fail type_error

  unfoldable pub correct : Option (Mat × List A × Mat) → Bool → List A → List A → Call (List A)
  correct (some (down_w, down_b, up_w)) true x y = do
    z ← or_raise (linear_bias x down_w down_b) runtime_error
    u ← or_raise (linear (map gelu z) up_w) runtime_error
    ret (zip_with r.add y u)
  correct residual use_residual x y = ret y

  unfoldable pub apply : LayerMap → Bool → List A → Call (List A)
  apply m use_residual x = do
    y ← product m.weight m.factors x
    correct m.residual use_residual x (zip_with r.add y m.bias)

  -- `CrossModelKVMap`
  pub record KvMap : Type 0 where
    pub keys : List LayerMap
    pub values : List LayerMap
    pub num_kv_heads : ℕ
    pub head_dim : ℕ

  -- The checks of one layer's map.
  unfoldable pub shape_of : Option Mat → Option (Mat × Mat) → Option (ℕ × ℕ)
  shape_of (some w) factors = some (rows w, cols w)
  shape_of none (some (left, right)) = some (rows left, cols right)
  shape_of none none = none

  unfoldable pub residual_fits : ℕ → ℕ → Option (Mat × List A × Mat) → Bool
  residual_fits design_dim kv_dim none = true
  residual_fits design_dim kv_dim (some (down_w, _, up_w)) =
      cols down_w == design_dim && rows up_w == kv_dim

  unfoldable pub check_layer : ℕ → ℕ → LayerMap → Call (Unit {0})
  check_layer n_src kv_dim m = do
    require (in_source n_src m.source_layers) value_error
    let design_dim : ℕ = length m.source_layers * kv_dim
    shape ← or_raise (shape_of m.weight m.factors) type_error
    require (shape.0 == design_dim && shape.1 == kv_dim && length m.bias == kv_dim) value_error
    require (residual_fits design_dim kv_dim m.residual) value_error

  unfoldable pub check_layers : ℕ → ℕ → List LayerMap → Call (Unit {0})
  check_layers n_src kv_dim [] = ret tt
  check_layers n_src kv_dim (m ∷ ms) = do check_layer n_src kv_dim m; check_layers n_src kv_dim ms

  unfoldable pub check_kind : ℕ → ℕ → ℕ → List LayerMap → Call (Unit {0})
  check_kind n_src n_tgt kv_dim maps = do
    require (length maps == n_tgt) value_error
    check_layers n_src kv_dim maps

  -- `_check`; its last loop warns and changes nothing.
  unfoldable pub check : KvMap → Config → Config → Call (Unit {0})
  check m src tgt = do
    require (src.num_key_value_heads == tgt.num_key_value_heads) value_error
    require (head_dim_of src == head_dim_of tgt) value_error
    require (src.vocab_size == tgt.vocab_size) value_error
    check_kind src.num_hidden_layers tgt.num_hidden_layers (m.num_kv_heads * m.head_dim) m.keys
    check_kind src.num_hidden_layers tgt.num_hidden_layers (m.num_kv_heads * m.head_dim) m.values

  -- `CrossModelKVMap(keys, values, source_config, target_config)`
  unfoldable pub make : List LayerMap → List LayerMap → Config → Config → Call KvMap
  make keys values src tgt = do
    let m : KvMap = record {
      keys = keys;
      values = values;
      num_kv_heads = tgt.num_key_value_heads;
      head_dim = head_dim_of tgt;
    }
    check m src tgt
    ret m

  -- `has_residual`; without maps it is an IndexError.
  unfoldable pub has_residual : KvMap → Call Bool
  has_residual m = do
    first ← or_raise (get_elem? m.keys 0) index_error
    ret (elim first.residual [ none ↦ false | some _ ↦ true ])

  -- `.permute(1, 0, 2, 3).reshape(seq, -1)`: a row for each token, layer by layer, head by head.
  unfoldable pub design : ℕ → List (List (List (List A))) → List (List A)
  design seq [] = replicate seq []
  design seq (layer ∷ layers) = zip_with ◌++◌ (map concat layer) (design seq layers)

  -- `.view(1, seq, heads, dim)`, on one row.
  unfoldable pub split_heads : ℕ → ℕ → List A → List (List A)
  split_heads zero dim y = []
  split_heads (suc heads) dim y = take dim y ∷ split_heads heads dim (drop dim y)

  unfoldable pub maybe_turn : Option (Rope A) → List (List (List A)) → List (List (List A))
  maybe_turn none tokens = tokens
  maybe_turn (some rope) tokens = turn_tokens r (apply_head r) rope.cos rope.sin tokens

  -- One round of the loop of `_apply`.
  unfoldable pub map_layer :
      KvMap
      → ℕ
      → List (List (List (List A)))
      → Bool
      → Option (Rope A)
      → LayerMap
      → Call (List (List (List A)))
  map_layer kv seq source use_residual rope m = do
    layers ← for_each m.source_layers (λ i. or_raise (at_index source i) index_error)
    ys ← for_each (design seq layers) (apply m use_residual)
    ret (maybe_turn rope (map (split_heads kv.num_kv_heads kv.head_dim) ys))

  -- `source.shape[1]`
  unfoldable pub seq_of : List (List (List (List A))) → ℕ
  seq_of [] = 0
  seq_of (layer ∷ layers) = length layer

  -- `_apply`
  unfoldable pub apply_maps :
      KvMap
      → List (List (List (List A)))
      → List LayerMap
      → Bool
      → Option (Rope A)
      → Call (List (List (List (List A))))
  apply_maps kv source maps use_residual rope =
      for_each maps (map_layer kv (seq_of source) source use_residual rope)

  -- `CrossModelKVMap.map`
  unfoldable pub map_kv :
      KvMap
      → List (List (List (List A)))
      → List (List (List (List A)))
      → Rope A
      → Rope A
      → Bool
      → Call (List (List (List (List A))) × List (List (List (List A))))
  map_kv kv k v source_rope target_rope use_residual = do
    let content : List (List (List (List A))) = strip_rope r source_rope k
    keys ← apply_maps kv content kv.keys use_residual (some target_rope)
    values ← apply_maps kv v kv.values use_residual none
    ret (keys, values)
