-- ===== src/KvTransfer/Checked.antt =====
-- Maps that pass the checks on construction apply without an error and give KV of the target's shape.
use di_spec.Prelude.{
  ℕ, ◌*◌, ◌≡◌, refl, sym, ap, ◌∙◌, Bool, true, false, ◌&&◌, Option, none, some, List, map, arith,
  length, length-map, zip_with, length-zip_with, ok, ret, ◌>>=◌, or_raise, Gives, bind-Gives,
  Option-cases, inl, inr, runtime_error, Exc,
}
use di_spec.Prelude.Rings.{Ring}
use di_spec.KvTransfer.Maps.{
  Linear, require, in_source, LayerMap, product, correct, apply, shape_of, residual_fits,
  check_layer,
}

require_passed :
    (b : Bool) (e : Exc) {u : Unit {0}} {t : Unit {0}} → require b e tt ≡ ok u t → b ≡ true
require_passed true e h = refl
require_passed false e h = absurd cc

both : (a b : Bool) → (a && b) ≡ true → (a ≡ true) × (b ≡ true)
both true b h = (refl, h)
both false b h = absurd cc

module _ {A : Type 0} (r : Ring A) (L : Linear A) where
  open L use {
    Mat, rows, cols, matmul, linear, linear_bias, gelu, matmul_shape, linear_shape,
    linear_bias_shape,
  }

  -- A map is stored as a matrix or as two factors that can be multiplied.
  pub data IsStored : Option Mat → Option (Mat × Mat) → Type 0 where
    whole : {w : Mat} → IsStored (some w) none
    low_rank : {left right : Mat} → cols left ≡ rows right → IsStored none (some (left, right))

  -- The inner shapes of a residual, which the checks leave out.
  pub data IsAdapter : Option (Mat × List A × Mat) → Type 0 where
    no_adapter : IsAdapter none
    adapter :
        {down_w up_w : Mat} {down_b : List A}
        → length down_b ≡ rows down_w
        → rows down_w ≡ cols up_w
        → IsAdapter (some (down_w, down_b, up_w))

  pub record IsSound (m : LayerMap r L) : Type 0 where
    pub stored : IsStored m.weight m.factors
    pub adapter : IsAdapter m.residual

  -- What `check_layer` has seen of a map.
  pub record IsChecked (n_src kv_dim : ℕ) (m : LayerMap r L) : Type 0 where
    pub reads : in_source n_src m.source_layers ≡ true
    pub shape : shape_of r L m.weight m.factors ≡ some (length m.source_layers * kv_dim, kv_dim)
    pub bias_shape : length m.bias ≡ kv_dim
    pub residual_shape :
        residual_fits r L (length m.source_layers * kv_dim) kv_dim m.residual ≡ true

  pub check_layer-IsChecked :
      (n kv_dim : ℕ) (m : LayerMap r L) {u t : Unit {0}}
      → check_layer r L n kv_dim m tt ≡ ok u t
      → IsChecked n kv_dim m
  unfolding check_layer
  check_layer-IsChecked n kv_dim m h = record {
    reads = ground arith;
    shape = elim (Option-cases (shape_of r L m.weight m.factors)) [
      | inl e ↦ absurd (ground (arith, e))
      | inr ((a, b), e) ↦
          let rows_fit : a ≡ length m.source_layers * kv_dim = ground (arith, e) in
          let cols_fit : b ≡ kv_dim = ground (arith, e) in
          e
          ∙ ap (λ n. some (n, b)) rows_fit
          ∙ ap (λ n. some (length m.source_layers * kv_dim, n)) cols_fit
    ];
    bias_shape = ground arith;
    residual_shape = ground arith;
  }

  -- A call of PyTorch whose shapes fit.
  or_raise-Gives :
      (n : ℕ) (o : Option (List A)) (e : Exc)
      → (y : List A) × (o ≡ some y) × (length y ≡ n)
      → Gives (λ y. length y ≡ n) (or_raise o e)
  or_raise-Gives n o e (y, d, len) = (y, ap (λ o. or_raise o e tt) d, len)

  product-Gives :
      {w : Option Mat} {f : Option (Mat × Mat)} (a b : ℕ) (x : List A)
      → IsStored w f
      → shape_of r L w f ≡ some (a, b)
      → length x ≡ a
      → Gives (λ y. length y ≡ b) (product r L w f x)
  unfolding product shape_of
  product-Gives a b x (IsStored.whole {w}) e h =
      let rows_fit : rows w ≡ a = cc in
      let cols_fit : cols w ≡ b = cc in
      or_raise-Gives b (matmul x w) runtime_error
        (rw (sym cols_fit) (matmul_shape x w (h ∙ sym rows_fit)))
  product-Gives a b x (IsStored.low_rank {left} {right} inner) e h =
      let rows_fit : rows left ≡ a = cc in
      let cols_fit : cols right ≡ b = cc in
      bind-Gives (or_raise (matmul x left) runtime_error)
        (λ z. or_raise (matmul z right) runtime_error)
        (or_raise-Gives (cols left) (matmul x left) runtime_error
          (matmul_shape x left (h ∙ sym rows_fit)))
        (λ z hz.
          or_raise-Gives b (matmul z right) runtime_error
            (rw (sym cols_fit) (matmul_shape z right (hz ∙ inner))))

  correct-Gives :
      {res : Option (Mat × List A × Mat)} (use_residual : Bool) (a b : ℕ) (x y : List A)
      → IsAdapter res
      → residual_fits r L a b res ≡ true
      → length x ≡ a
      → length y ≡ b
      → Gives (λ y. length y ≡ b) (correct r L res use_residual x y)
  unfolding correct residual_fits
  correct-Gives use_residual a b x y IsAdapter.no_adapter e hx hy = (y, refl, hy)
  correct-Gives false a b x y (IsAdapter.adapter _ _) e hx hy = (y, refl, hy)
  correct-Gives true a b x y (IsAdapter.adapter {down_w} {up_w} {down_b} hb inner) e hx hy =
      let down_fits : cols down_w ≡ a = ground arith in
      let up_fits : rows up_w ≡ b = ground arith in
      bind-Gives (or_raise (linear_bias x down_w down_b) runtime_error)
        (λ z. or_raise (linear (map gelu z) up_w) runtime_error >>= λ u. ret (zip_with r.add y u))
        (or_raise-Gives (rows down_w) (linear_bias x down_w down_b) runtime_error
          (linear_bias_shape x down_w down_b (hx ∙ sym down_fits) hb))
        (λ z hz.
          bind-Gives (or_raise (linear (map gelu z) up_w) runtime_error)
            (λ u. ret (zip_with r.add y u))
            (or_raise-Gives (rows up_w) (linear (map gelu z) up_w) runtime_error
              (linear_shape (map gelu z) up_w (length-map gelu z ∙ hz ∙ inner)))
            (λ u hu. (
              zip_with r.add y u,
              refl,
              omega (arith, length-zip_with r.add y u, hy, hu, up_fits),
            )))

  pub apply-Gives :
      (n_src kv_dim : ℕ) (m : LayerMap r L) (use_residual : Bool) (x : List A)
      → IsSound m
      → IsChecked n_src kv_dim m
      → length x ≡ length m.source_layers * kv_dim
      → Gives (λ y. length y ≡ kv_dim) (apply r L m use_residual x)
  unfolding apply
  apply-Gives n_src kv_dim m use_residual x s c hx =
      bind-Gives (product r L m.weight m.factors x)
        (λ y. correct r L m.residual use_residual x (zip_with r.add y m.bias))
        (product-Gives (length m.source_layers * kv_dim) kv_dim x s.stored c.shape hx)
        (λ y hy.
          correct-Gives use_residual (length m.source_layers * kv_dim) kv_dim x
            (zip_with r.add y m.bias) s.adapter c.residual_shape hx
            (omega (arith, length-zip_with r.add y m.bias, hy, c.bias_shape)))
