-- ===== src/KvTransfer/Files.antt =====
-- `CrossModelKVMap.load`: maps read from kvxfer's files. Variants and files are named by numbers.
use di_spec.Prelude.{
  ℕ, ◌+◌, Bool, true, false, ◌||◌, List, [], ◌∷◌, Option, none, some, length, ◌==◌, range_from,
  Dict, lookup, ℤ, Call, ◌>>=◌, ◌>>◌, ret, or_raise, for_each, value_error, key_error,
  file_not_found,
}
use di_spec.Prelude.Rings.{Ring}
use di_spec.KvTransfer.Maps.{Config, Linear, require, LayerMap, KvMap, make}

-- `KINDS`
pub data Kind : Type 0 where
  keys values : Kind

unfoldable pub is_in : ℕ → List ℕ → Bool
is_in x [] = false
is_in x (y ∷ ys) = (x == y) || is_in x ys

module _ {A : Type 0} (r : Ring A) (L : Linear A) where
  open L use {Mat}

  -- What `torch.load` gives for one layer: a dictionary whose entries may be missing.
  pub record Entry : Type 0 where
    pub source_layers : Option (List ℤ)
    pub bias : Option (List A)
    pub weight : Option Mat
    pub factors : Option (Mat × Mat)

  -- The names `down.weight`, `down.bias` and `up.weight` of one layer of a residual file.
  pub record Adapter : Type 0 where
    pub down_weight : Option Mat
    pub down_bias : Option (List A)
    pub up_weight : Option Mat

  -- The files: `metadata["variants"]` of `maps.json`, the state of a variant and a kind, and
  -- `residual.pt`. `none` is a file or an entry that is missing.
  pub record Files : Type 0 where
    pub manifest : Option (List ℕ)
    pub states : ℕ → Kind → Option (Dict Entry)
    pub residuals : Option (Kind → Option (ℕ → Adapter))

  unfoldable pub read_layer : Dict Entry → ℕ → Call (LayerMap r L)
  read_layer state layer = do
    s ← or_raise (lookup layer state) key_error
    source_layers ← or_raise s.source_layers key_error
    bias ← or_raise s.bias key_error
    ret (record {
      source_layers = source_layers;
      bias = bias;
      weight = s.weight;
      factors = s.factors;
      residual = none;
    })

  unfoldable pub read_layers : Option (Dict Entry) → Call (List (LayerMap r L))
  read_layers file = do
    state ← or_raise file file_not_found
    for_each (range_from 0 (length state)) (read_layer state)

  unfoldable pub with_residual : Adapter → LayerMap r L → Call (LayerMap r L)
  with_residual sd m = do
    down_w ← or_raise sd.down_weight key_error
    down_b ← or_raise sd.down_bias key_error
    up_w ← or_raise sd.up_weight key_error
    ret (record {
      source_layers = m.source_layers;
      bias = m.bias;
      weight = m.weight;
      factors = m.factors;
      residual = some (down_w, down_b, up_w);
    })

  -- The loop over `enumerate(per_kind[kind])`.
  unfoldable pub with_residuals :
      (ℕ → Adapter) → ℕ → List (LayerMap r L) → Call (List (LayerMap r L))
  with_residuals sd layer [] = ret []
  with_residuals sd layer (m ∷ ms) = do
    first ← with_residual (sd layer) m
    rest ← with_residuals sd (layer + 1) ms
    ret (first ∷ rest)

  unfoldable pub add_residuals :
      Files
      → Bool
      → List (LayerMap r L)
      → List (LayerMap r L)
      → Call (List (LayerMap r L) × List (LayerMap r L))
  add_residuals files false ks vs = ret (ks, vs)
  add_residuals files true ks vs = do
    res ← or_raise files.residuals file_not_found
    sd_k ← or_raise (res Kind.keys) key_error
    ks' ← with_residuals sd_k 0 ks
    sd_v ← or_raise (res Kind.values) key_error
    vs' ← with_residuals sd_v 0 vs
    ret (ks', vs')

  -- `load`; `residual` is whether a `residual_dir` is given. `to` changes devices and dtypes only.
  unfoldable pub load : Files → Config → Config → Bool → ℕ → Call (KvMap r L)
  load files src tgt residual variant = do
    variants ← or_raise files.manifest file_not_found
    require (is_in variant variants) value_error
    ks ← read_layers (files.states variant Kind.keys)
    vs ← read_layers (files.states variant Kind.values)
    both ← add_residuals files residual ks vs
    make r L both.0 both.1 src tgt
