-- ===== src/KvTransfer/Geometry.antt =====
-- The shapes of mapped KV: what the checks on construction are for.
use di_spec.Prelude.{
  ℕ, zero, suc, ◌+◌, ◌*◌, ◌/◌, ◌≡◌, refl, sym, ap, ◌∙◌, List, [], ◌∷◌, ◌++◌, map, arith, length,
  length-append, length-map, take, drop, length-take, length-drop, zip_with, length-zip_with,
  length-replicate, concat, Each, map-Each, replicate-Each, zip_with-Each,
}
use di_spec.Prelude.Rings.{Ring}
use di_spec.KvTransfer.{
  Rope, sub, chunk_2, rotate_half, strip_head, apply_head, turn_tokens, strip_rope,
}
use di_spec.KvTransfer.Maps.{Linear, design, split_heads}

module _ {A : Type 0} where
  -- A token's heads, a layer's tokens and a tensor's layers.
  abbrev pub IsHeads : ℕ → ℕ → List (List A) → Type 0
  IsHeads h d heads = (length heads ≡ h) × Each (λ x. length x ≡ d) heads

  abbrev pub IsTokens : ℕ → ℕ → ℕ → List (List (List A)) → Type 0
  IsTokens t h d tokens = (length tokens ≡ t) × Each (IsHeads h d) tokens

  abbrev pub IsGrid : ℕ → ℕ → ℕ → ℕ → List (List (List (List A))) → Type 0
  IsGrid n t h d layers = (length layers ≡ n) × Each (IsTokens t h d) layers

  pub length-concat :
      (h d : ℕ) (heads : List (List A)) → IsHeads h d heads → length (concat heads) ≡ h * d
  unfolding concat
  length-concat h d [] (e, Each.none_left) = rw (sym e) (omega arith)
  length-concat h d (x ∷ xs) (e, Each.each p ps) =
      rw (sym e)
        (omega (arith, length-append x (concat xs), p, length-concat (length xs) d xs (refl, ps)))

module _ {A : Type 0} (r : Ring A) (L : Linear A) where
  open L use {Mat, rows, cols, matmul, linear, linear_bias, gelu}

  pub split_heads-IsHeads :
      (h d : ℕ) (y : List A) → length y ≡ h * d → IsHeads h d (split_heads r L h d y)
  unfolding split_heads
  split_heads-IsHeads zero d y e = (refl, Each.none_left)
  split_heads-IsHeads (suc h) d y e =
      let rest : IsHeads h d (split_heads r L h d (drop d y)) =
        split_heads-IsHeads h d (drop d y) (omega (arith, length-drop d y)) in
      (ap suc rest.0, Each.each (omega (arith, length-take d y)) rest.1)

  -- The design has a row for each token, as long as all the heads of all the layers.
  pub design_shape :
      (t h d : ℕ) (layers : List (List (List (List A))))
      → Each (IsTokens t h d) layers
      → (length (design r L t layers) ≡ t)
        × Each (λ row. length row ≡ length layers * (h * d)) (design r L t layers)
  unfolding design
  design_shape t h d [] Each.none_left =
      (length-replicate t [], replicate-Each (λ row. length row ≡ 0 * (h * d)) t [] (omega arith))
  design_shape t h d (layer ∷ layers) (Each.each p ps) =
      let (n, rows) = design_shape t h d layers ps in
      (
        omega (
          arith,
          length-zip_with ◌++◌ (map concat layer) (design r L t layers),
          n,
          p.0,
          length-map concat layer,
        ),
        zip_with-Each {P = λ x. length x ≡ h * d} ◌++◌
            (λ x y a b. omega (arith, length-append x y, a, b))
            (map-Each concat (length-concat h d) p.1) rows,
      )

  length-rotate_half : (x : List A) → length (rotate_half r x) ≡ length x
  unfolding rotate_half chunk_2
  length-rotate_half x =
      let n : ℕ = (length x + 1) / 2 in
      omega (
        arith,
        length-append (map r.neg (drop n x)) (take n x),
        length-map r.neg (drop n x),
        length-drop n x,
        length-take n x,
      )

  pub length-apply_head :
      (d : ℕ) (c s x : List A)
      → length c ≡ d
      → length s ≡ d
      → length x ≡ d
      → length (apply_head r c s x) ≡ d
  unfolding apply_head
  length-apply_head d c s x hc hs hx =
      let left : List A = zip_with r.mul x c in
      let right : List A = zip_with r.mul (rotate_half r x) s in
      omega (
        arith,
        length-zip_with r.add left right,
        length-zip_with r.mul x c,
        length-zip_with r.mul (rotate_half r x) s,
        length-rotate_half x,
      )

  length-strip_head :
      (d : ℕ) (c s x : List A)
      → length c ≡ d
      → length s ≡ d
      → length x ≡ d
      → length (strip_head r c s x) ≡ d
  unfolding strip_head
  length-strip_head d c s x hc hs hx =
      let left : List A = zip_with r.mul x c in
      let right : List A = zip_with r.mul (rotate_half r x) s in
      omega (
        arith,
        length-zip_with (sub r) left right,
        length-zip_with r.mul x c,
        length-zip_with r.mul (rotate_half r x) s,
        length-rotate_half x,
      )

  -- Rotary tables for `t` positions.
  pub data IsTables (d : ℕ) : ℕ → List (List A) → List (List A) → Type 0 where
    no_rows : IsTables d 0 [] []
    row :
        {t : ℕ} {c s : List A} {cs ss : List (List A)}
        → length c ≡ d
        → length s ≡ d
        → IsTables d t cs ss
        → IsTables d (suc t) (c ∷ cs) (s ∷ ss)

  pub turn_tokens-IsTokens :
      (turn : List A → List A → List A → List A) (t h d : ℕ) {cos sin : List (List A)}
      (tokens : List (List (List A)))
      → ((c s x : List A) → length c ≡ d → length s ≡ d → length x ≡ d → length (turn c s x) ≡ d)
      → IsTables d t cos sin
      → IsTokens t h d tokens
      → IsTokens t h d (turn_tokens r turn cos sin tokens)
  unfolding turn_tokens
  turn_tokens-IsTokens turn t h d [] keeps IsTables.no_rows (e, ps) = (refl, Each.none_left)
  turn_tokens-IsTokens turn t h d (x ∷ xs) keeps IsTables.no_rows (e, ps) =
      absurd (omega (arith, e))
  turn_tokens-IsTokens turn t h d [] keeps (IsTables.row _ _ _) (e, ps) = absurd (omega (arith, e))
  turn_tokens-IsTokens turn _ h d (x ∷ xs) keeps (IsTables.row {t} {c} {s} hc hs tables)
        (e, Each.each p ps) =
      let (n, rest) = turn_tokens-IsTokens turn t h d xs keeps tables (omega (arith, e), ps) in
      (
        ap suc n,
        Each.each
            (length-map (turn c s) x ∙ p.0, map-Each (turn c s) (λ y hy. keeps c s y hc hs hy) p.1)
            rest,
      )

  pub strip_rope-IsGrid :
      (n t h d : ℕ) (rope : Rope A) (keys : List (List (List (List A))))
      → IsTables d t rope.cos rope.sin
      → IsGrid n t h d keys
      → IsGrid n t h d (strip_rope r rope keys)
  unfolding strip_rope
  strip_rope-IsGrid n t h d rope keys tables (e, ps) = (
    length-map (turn_tokens r (strip_head r) rope.cos rope.sin) keys ∙ e,
    map-Each (turn_tokens r (strip_head r) rope.cos rope.sin)
        (λ tokens p.
          turn_tokens-IsTokens (strip_head r) t h d tokens (length-strip_head d) tables p)
        ps,
  )
