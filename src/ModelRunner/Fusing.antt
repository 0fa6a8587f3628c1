-- ===== src/ModelRunner/Fusing.antt =====
-- Fusing the projections changes nothing that the model computes.
use di_spec.Prelude.{◌*◌, ◌≡◌, List, [], ◌∷◌, Option, none, some, length}
use di_spec.Prelude.Rings.{Ring}
use di_spec.ModelRunner.{Weights, Proj, Layer, Sizes}

module _ {A : Type 0} (r : Ring A) (W : Weights A) where
  open W use {Mat, rows, cat, linear, rows-cat, length-linear, linear-cat, linear-cat_bias}

  -- The bias of a linear module has a number for each output.
  pub data HasBias : Mat → Option (List A) → Type 0 where
    no_bias : {w : Mat} → HasBias w none
    bias : {w : Mat} {b : List A} → length b ≡ rows w → HasBias w (some b)

  -- The shapes of a layer's linear modules.
  pub record IsShaped (c : Sizes r W) (l : Layer r W) : Type 0 where
    pub q_w : Mat
    pub q_b : Option (List A)
    pub k_w : Mat
    pub k_b : Option (List A)
    pub v_w : Mat
    pub v_b : Option (List A)
    pub gate_w : Mat
    pub up_w : Mat
    pub is_q : l.q_proj ≡ Proj.linear_module q_w q_b
    pub is_k : l.k_proj ≡ Proj.linear_module k_w k_b
    pub is_v : l.v_proj ≡ Proj.linear_module v_w v_b
    pub is_gate : l.gate_proj ≡ Proj.linear_module gate_w none
    pub is_up : l.up_proj ≡ Proj.linear_module up_w none
    pub q_rows : rows q_w ≡ c.num_heads * c.head_dim
    pub k_rows : rows k_w ≡ c.num_kv_heads * c.head_dim
    pub v_rows : rows v_w ≡ c.num_kv_heads * c.head_dim
    pub gate_rows : rows gate_w ≡ rows up_w
    pub q_bias : HasBias q_w q_b
    pub k_bias : HasBias k_w k_b
    pub same_bias : (q_b ≡ none → (k_b ≡ none) × (v_b ≡ none))

  -- The layers of a model whose linear modules have these shapes.
  pub data AllShaped (c : Sizes r W) : List (Layer r W) → Type 0 where
    no_layers : AllShaped c []
    shaped :
        {l : Layer r W} {ls : List (Layer r W)}
        → IsShaped c l
        → AllShaped c ls
        → AllShaped c (l ∷ ls)
