-- ===== src/KvTransfer/Tests.antt =====
-- One token with one head of two numbers, over the field of two elements.
use di_spec.Prelude.{
  ℕ, ◌≡◌, refl, arith, Bool, true, false, Option, none, some, List, [], ◌∷◌, length,
  length-replicate, length-zip_with, replicate, zip_with, ◌==◌, if◌then◌else◌, pos,
}
use di_spec.Prelude.Rings.Two.{f2, xor}
use di_spec.KvTransfer.{Rope, strip_rope, apply_rope}
use di_spec.KvTransfer.Maps.{Config, Linear, LayerMap, KvMap}
use di_spec.KvTransfer.Turning.{IsTurn, FitsHeads, FitsTokens, FitsLayers, strip_rope-apply_rope}

-- Matrices of ones.
abbrev pub sum : List Bool → Bool
sum [] = false
sum (x ∷ xs) = xor x (sum xs)

abbrev pub fill : ℕ → ℕ → List Bool → Option (List Bool)
fill inner outer x = if length x == inner then some (replicate outer (sum x)) else none

pub fill_shape :
    (inner outer : ℕ) (x : List Bool)
    → length x ≡ inner
    → (y : List Bool) × (fill inner outer x ≡ some y) × (length y ≡ outer)
fill_shape inner outer x h =
    (replicate outer (sum x), ground (arith, h), length-replicate outer (sum x))

abbrev pub fill_bias : ℕ → ℕ → List Bool → List Bool → Option (List Bool)
fill_bias inner outer x b =
    if length x == inner then some (zip_with xor (replicate outer (sum x)) b) else none

pub fill_bias_shape :
    (inner outer : ℕ) (x b : List Bool)
    → length x ≡ inner
    → length b ≡ outer
    → (y : List Bool) × (fill_bias inner outer x b ≡ some y) × (length y ≡ outer)
fill_bias_shape inner outer x b h k = (
  zip_with xor (replicate outer (sum x)) b,
  ground (arith, h),
  omega (arith, length-zip_with xor (replicate outer (sum x)) b, length-replicate outer (sum x), k),
)

abbrev pub ones : Linear Bool
ones = record {
  Mat = ℕ × ℕ;
  rows = λ w. w.0;
  cols = λ w. w.1;
  matmul = λ x w. fill w.0 w.1 x;
  linear = λ x w. fill w.1 w.0 x;
  linear_bias = λ x w b. fill_bias w.1 w.0 x b;
  gelu = λ a. a;
  matmul_shape = λ x w. fill_shape w.0 w.1 x;
  linear_shape = λ x w. fill_shape w.1 w.0 x;
  linear_bias_shape = λ x w b. fill_bias_shape w.1 w.0 x b;
}

-- A quarter turn.
abbrev quarter : Rope Bool
quarter = record { cos = (false ∷ false ∷ []) ∷ []; sin = (true ∷ true ∷ []) ∷ [] }

abbrev one_key : List (List (List (List Bool)))
one_key = (((true ∷ false ∷ []) ∷ []) ∷ []) ∷ []

strip_rope-apply_rope_example : strip_rope f2 quarter (apply_rope f2 quarter one_key) ≡ one_key
strip_rope-apply_rope_example = strip_rope-apply_rope f2 quarter one_key (
    FitsLayers.layer
      (FitsTokens.token (FitsHeads.head (IsTurn.turn refl IsTurn.done) FitsHeads.no_heads)
        FitsTokens.no_tokens)
      FitsLayers.no_layers)

-- A source of one layer and a target of two.
abbrev source : Config
source = record {
  num_key_value_heads = 1;
  head_dim = none;
  hidden_size = 4;
  num_attention_heads = 2;
  vocab_size = 9;
  num_hidden_layers = 1;
}

abbrev target : Config
target = record {
  num_key_value_heads = 1;
  head_dim = some 2;
  hidden_size = 8;
  num_attention_heads = 4;
  vocab_size = 9;
  num_hidden_layers = 2;
}

abbrev with_matrix : LayerMap f2 ones
with_matrix = record {
  source_layers = pos 0 ∷ [];
  bias = true ∷ false ∷ [];
  weight = some (2, 2);
  factors = none;
  residual = some ((3, 2), true ∷ true ∷ true ∷ [], (2, 3));
}

abbrev with_factors : LayerMap f2 ones
with_factors = record {
  source_layers = pos 0 ∷ pos 0 ∷ [];
  bias = true ∷ false ∷ [];
  weight = none;
  factors = some ((4, 1), (1, 2));
  residual = none;
}

abbrev fitted : List (LayerMap f2 ones)
fitted = with_matrix ∷ with_factors ∷ []

abbrev accepted : KvMap f2 ones
accepted = record { keys = fitted; values = fitted; num_kv_heads = 1; head_dim = 2 }
