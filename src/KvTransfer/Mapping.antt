-- ===== src/KvTransfer/Mapping.antt =====
-- `CrossModelKVMap.map` on maps that were accepted: it returns, with KV of the target's shape.
use di_spec.Prelude.{ℕ, ◌*◌, ◌≡◌, Option, none, some, length, Each}
use di_spec.Prelude.Rings.{Ring}
use di_spec.KvTransfer.{Rope}
use di_spec.KvTransfer.Maps.{Config, head_dim_of, Linear, KvMap}
use di_spec.KvTransfer.Geometry.{IsTables}
use di_spec.KvTransfer.Checked.{IsChecked}

module _ {A : Type 0} (r : Ring A) (L : Linear A) where
  -- A positional table, when keys are mapped.
  FitsRope : ℕ → ℕ → Option (Rope A) → Type 0
  FitsRope t d none = Unit {0}
  FitsRope t d (some rope) = IsTables r L d t rope.cos rope.sin

  -- What an accepted construction says of the map and of the two configurations.
  record IsAccepted (src tgt : Config) (kv : KvMap r L) : Type 0 where
    same_heads : src.num_key_value_heads ≡ tgt.num_key_value_heads
    same_dim : head_dim_of src ≡ head_dim_of tgt
    heads : kv.num_kv_heads ≡ tgt.num_key_value_heads
    dim : kv.head_dim ≡ head_dim_of tgt
    all_keys : length kv.keys ≡ tgt.num_hidden_layers
    all_values : length kv.values ≡ tgt.num_hidden_layers
    checked_keys :
        Each (IsChecked r L src.num_hidden_layers (kv.num_kv_heads * kv.head_dim)) kv.keys
    checked_values :
        Each (IsChecked r L src.num_hidden_layers (kv.num_kv_heads * kv.head_dim)) kv.values
