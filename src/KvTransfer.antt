-- ===== src/KvTransfer.antt =====
-- dispec/kv/transfer.py. A tensor of KV is a list of layers, of tokens, of heads, of numbers; the
-- numbers are the elements of a commutative ring, and dtypes do not appear. An operation of PyTorch on
-- a batch of rows is its operation on each row.
pub mod Maps
pub mod Files
pub mod Geometry
pub mod Checked
pub mod Mapping
pub mod Turning
pub mod Tests
use di_spec.Prelude.{ℕ, ◌+◌, ◌/◌, List, [], ◌∷◌, ◌++◌, map, length, take, drop, zip_with}
use di_spec.Prelude.Rings.{Ring}

pub record Rope {ℓ} (A : Type ℓ) : Type ℓ where
  pub cos : List (List A)
  pub sin : List (List A)

-- `rope_tables`: `rotary_emb` of the model, whose batch here is one sequence.
unfoldable pub rope_tables {ℓ} :
    {A : Type ℓ} → (List ℕ → List (List A) × List (List A)) → List ℕ → Rope A
rope_tables rotary_emb positions =
    let (cos, sin) = rotary_emb positions in record { cos = cos; sin = sin }

module _ {ℓ} {A : Type ℓ} (r : Ring A) where
  open r use {add, neg, mul}

  abbrev pub sub : A → A → A
  sub a b = add a (neg b)

  -- `x.chunk(2, dim=-1)`: the first part has the element in the middle.
  unfoldable pub chunk_2 : List A → List A × List A
  chunk_2 x = let n : ℕ = (length x + 1) / 2 in (take n x, drop n x)

  -- `_rotate_half`, on one head.
  unfoldable pub rotate_half : List A → List A
  rotate_half x = let (x1, x2) = chunk_2 x in map neg x2 ++ x1

  unfoldable pub strip_head : List A → List A → List A → List A
  strip_head cos sin x = zip_with sub (zip_with mul x cos) (zip_with mul (rotate_half x) sin)

  unfoldable pub apply_head : List A → List A → List A → List A
  apply_head cos sin x = zip_with add (zip_with mul x cos) (zip_with mul (rotate_half x) sin)

  -- Every head of token `t` is turned by the tables' row `t`.
  unfoldable pub turn_tokens :
      (List A → List A → List A → List A)
      → List (List A)
      → List (List A)
      → List (List (List A))
      → List (List (List A))
  turn_tokens turn (c ∷ cs) (s ∷ ss) (t ∷ ts) = map (turn c s) t ∷ turn_tokens turn cs ss ts
  turn_tokens turn _ _ _ = []

  -- `strip_rope` and `apply_rope`.
  unfoldable pub strip_rope : Rope A → List (List (List (List A))) → List (List (List (List A)))
  strip_rope rope keys = map (turn_tokens strip_head rope.cos rope.sin) keys

  unfoldable pub apply_rope : Rope A → List (List (List (List A))) → List (List (List (List A)))
  apply_rope rope keys = map (turn_tokens apply_head rope.cos rope.sin) keys
