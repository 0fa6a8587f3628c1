-- ===== src/KvTransfer/Turning.antt =====
-- Stripping undoes turning.
use di_spec.Prelude.{
  suc, ◌+◌, ◌/◌, ◌≡◌, refl, sym, ap, ◌∙◌, List, [], ◌∷◌, ◌++◌, map, arith, length, length-append,
  length-map, zip_with, zip_with-append, length-zip_with, take_of_append, drop_of_append,
  cons_congr,
}
use di_spec.Prelude.Rings
use di_spec.Prelude.Rings.{Ring}
use di_spec.KvTransfer.{
  Rope, sub, chunk_2, rotate_half, strip_head, apply_head, turn_tokens, strip_rope, apply_rope,
}

module _ {ℓ} {A : Type ℓ} (r : Ring A) where
  open r use {one, add, neg, mul, add_assoc, add_comm, mul_assoc, mul_comm, mul-add}

  -- One number of the first half: turned and turned back.
  -- `a + (-(b) + (b + d))` is `a + d`.
  drop_between : (a b d : A) → add (add a (neg b)) (add b d) ≡ add a d
  drop_between a b d =
      add_assoc a (neg b) (add b d)
      ∙ ap (add a) (sym (add_assoc (neg b) b d) ∙ ap (λ x. add x d) (r.neg-add b) ∙ r.zero-add d)

  on_circle :
      (a c s : A) → add (mul c c) (mul s s) ≡ one → add (mul a (mul c c)) (mul a (mul s s)) ≡ a
  on_circle a c s h =
      sym (mul-add a (mul c c) (mul s s)) ∙ ap (mul a) h ∙ (mul_comm a one ∙ r.one-mul a)

  times_neg : (v s c : A) → mul (mul (neg v) s) c ≡ neg (mul v (mul c s))
  times_neg v s c =
      mul_assoc (neg v) s c ∙ ap (mul (neg v)) (mul_comm s c) ∙ Rings.neg-mul r v (mul c s)

  first_back :
      (u v c s : A)
      → add (mul c c) (mul s s) ≡ one
      → sub r (mul (add (mul u c) (mul (neg v) s)) c) (mul (neg (add (mul v c) (mul u s))) s) ≡ u
  first_back u v c s h =
      let left : mul (add (mul u c) (mul (neg v) s)) c
          ≡ add (mul u (mul c c)) (neg (mul v (mul c s))) =
        Rings.add-mul r (mul u c) (mul (neg v) s) c
        ∙ ap (λ x. add x (mul (mul (neg v) s) c)) (mul_assoc u c c)
        ∙ ap (add (mul u (mul c c))) (times_neg v s c) in
      let right : neg (mul (neg (add (mul v c) (mul u s))) s)
          ≡ add (mul v (mul c s)) (mul u (mul s s)) =
        ap neg (Rings.neg-mul r (add (mul v c) (mul u s)) s)
        ∙ Rings.neg-neg r (mul (add (mul v c) (mul u s)) s)
        ∙ Rings.add-mul r (mul v c) (mul u s) s
        ∙ ap (λ x. add x (mul (mul u s) s)) (mul_assoc v c s)
        ∙ ap (add (mul v (mul c s))) (mul_assoc u s s) in
      ap (λ x. add x (neg (mul (neg (add (mul v c) (mul u s))) s))) left
      ∙ ap (add (add (mul u (mul c c)) (neg (mul v (mul c s))))) right
      ∙ drop_between (mul u (mul c c)) (mul v (mul c s)) (mul u (mul s s))
      ∙ on_circle u c s h

  -- The other half: the roles change and the sign moves.
  second_back :
      (u v c s : A)
      → add (mul c c) (mul s s) ≡ one
      → sub r (mul (add (mul v c) (mul u s)) c) (mul (add (mul u c) (mul (neg v) s)) s) ≡ v
  second_back u v c s h =
      let left : mul (add (mul v c) (mul u s)) c ≡ add (mul v (mul c c)) (mul u (mul c s)) =
        Rings.add-mul r (mul v c) (mul u s) c
        ∙ ap (λ x. add x (mul (mul u s) c)) (mul_assoc v c c)
        ∙ ap (add (mul v (mul c c))) (mul_assoc u s c ∙ ap (mul u) (mul_comm s c)) in
      let turned : mul (add (mul u c) (mul (neg v) s)) s
          ≡ add (mul u (mul c s)) (neg (mul v (mul s s))) =
        Rings.add-mul r (mul u c) (mul (neg v) s) s
        ∙ ap (λ x. add x (mul (mul (neg v) s) s)) (mul_assoc u c s)
        ∙ ap (add (mul u (mul c s))) (times_neg v s s) in
      ap (λ x. add x (neg (mul (add (mul u c) (mul (neg v) s)) s))) left
      ∙ ap (λ x. add (add (mul v (mul c c)) (mul u (mul c s))) (neg x)) turned
      ∙ take_away (mul v (mul c c)) (mul u (mul c s)) (mul v (mul s s))
      ∙ on_circle v c s h
    where
      take_away : (a b d : A) → add (add a b) (neg (add b (neg d))) ≡ add a d
      take_away a b d =
          let opposite : neg (add b (neg d)) ≡ add (neg b) d =
            sym (
              Rings.neg_of_add r (add d (neg b)) (add b (neg d))
                (drop_between d b (neg d) ∙ (add_comm d (neg d) ∙ r.neg-add d)))
            ∙ add_comm d (neg b) in
          ap (add (add a b)) opposite
          ∙ ap (λ x. add (add a x) (add (neg b) d)) (sym (Rings.neg-neg r b))
          ∙ drop_between a (neg b) d

  -- The halves of a head, and the cosines and sines of its angles.
  pub data IsTurn : List A → List A → List A → List A → Type ℓ where
    done : IsTurn [] [] [] []
    turn :
        {u v c s : A} {us vs cs ss : List A}
        → add (mul c c) (mul s s) ≡ one
        → IsTurn us vs cs ss
        → IsTurn (u ∷ us) (v ∷ vs) (c ∷ cs) (s ∷ ss)

  -- The halves of a turned head.
  abbrev turned_first : List A → List A → List A → List A → List A
  turned_first u v c s = zip_with add (zip_with mul u c) (zip_with mul (map neg v) s)

  abbrev turned_second : List A → List A → List A → List A → List A
  turned_second u v c s = zip_with add (zip_with mul v c) (zip_with mul u s)

  strips_first :
      {us vs cs ss : List A}
      → IsTurn us vs cs ss
      → zip_with
          (sub r)
          (zip_with mul (turned_first us vs cs ss) cs)
          (zip_with mul (map neg (turned_second us vs cs ss)) ss)
        ≡ us
  unfolding zip_with
  strips_first IsTurn.done = refl
  strips_first (IsTurn.turn {u} {v} {c} {s} {us} {vs} {cs} {ss} h t) =
      cons_congr (first_back u v c s h) (strips_first t)

  strips_second :
      {us vs cs ss : List A}
      → IsTurn us vs cs ss
      → zip_with
          (sub r)
          (zip_with mul (turned_second us vs cs ss) cs)
          (zip_with mul (turned_first us vs cs ss) ss)
        ≡ vs
  unfolding zip_with
  strips_second IsTurn.done = refl
  strips_second (IsTurn.turn {u} {v} {c} {s} {us} {vs} {cs} {ss} h t) =
      cons_congr (second_back u v c s h) (strips_second t)

  rotate_half_of_append :
      (u v : List A) → length u ≡ length v → rotate_half r (u ++ v) ≡ map neg v ++ u
  unfolding rotate_half chunk_2
  rotate_half_of_append u v h =
      let half : (length (u ++ v) + 1) / 2 ≡ length u = omega (arith, length-append u v) in
      rw (half, take_of_append u v, drop_of_append u v) refl

  IsTurn-length :
      {us vs cs ss : List A}
      → IsTurn us vs cs ss
      → (length us ≡ length vs) × (length us ≡ length cs) × (length us ≡ length ss)
  IsTurn-length IsTurn.done = (refl, refl, refl)
  IsTurn-length (IsTurn.turn h t) =
      let (a, b, c) = IsTurn-length t in (ap suc a, ap suc b, ap suc c)

  -- Turning a head whose tables repeat for the two halves.
  apply_head_lem :
      {us vs cs ss : List A}
      → IsTurn us vs cs ss
      → apply_head r (cs ++ cs) (ss ++ ss) (us ++ vs)
        ≡ turned_first us vs cs ss ++ turned_second us vs cs ss
  unfolding apply_head
  apply_head_lem {us} {vs} {cs} {ss} t =
      let (a, b, c) = IsTurn-length t in
      rw
        (
          rotate_half_of_append us vs a,
          zip_with-append mul us vs cs cs b,
          zip_with-append mul (map neg vs) us ss ss (length-map neg vs ∙ sym a ∙ c),
        )
        (zip_with-append add (zip_with mul us cs) (zip_with mul vs cs)
          (zip_with mul (map neg vs) ss) (zip_with mul us ss)
          (omega (
            arith,
            length-zip_with mul us cs,
            length-zip_with mul (map neg vs) ss,
            length-map neg vs,
          )))

  strip-apply_head :
      {us vs cs ss : List A}
      → IsTurn us vs cs ss
      → strip_head r (cs ++ cs) (ss ++ ss) (apply_head r (cs ++ cs) (ss ++ ss) (us ++ vs))
        ≡ us ++ vs
  unfolding strip_head
  strip-apply_head {us} {vs} {cs} {ss} t =
      let (a, b, c) = IsTurn-length t in
      let first : List A = turned_first us vs cs ss in
      let second : List A = turned_second us vs cs ss in
      let lf : length first ≡ length us = omega (
        arith,
        length-zip_with add (zip_with mul us cs) (zip_with mul (map neg vs) ss),
        length-zip_with mul us cs,
        length-zip_with mul (map neg vs) ss,
        length-map neg vs,
      ) in
      let ls : length second ≡ length us = omega (
        arith,
        length-zip_with add (zip_with mul vs cs) (zip_with mul us ss),
        length-zip_with mul vs cs,
        length-zip_with mul us ss,
      ) in
      rw
        (
          apply_head_lem t,
          rotate_half_of_append first second (lf ∙ sym ls),
          zip_with-append mul first second cs cs (lf ∙ b),
          zip_with-append mul (map neg second) first ss ss (length-map neg second ∙ ls ∙ c),
          zip_with-append (sub r) (zip_with mul first cs) (zip_with mul second cs)
              (zip_with mul (map neg second) ss) (zip_with mul first ss)
              (omega (
                arith,
                length-zip_with mul first cs,
                length-zip_with mul (map neg second) ss,
                length-map neg second,
              )),
          strips_first t,
          strips_second t,
        )
        refl

  -- The heads of a token fit its row of half tables.
  pub data FitsHeads (cs ss : List A) : List (List A) → Type ℓ where
    no_heads : FitsHeads cs ss []
    head :
        {us vs : List A} {heads : List (List A)}
        → IsTurn us vs cs ss
        → FitsHeads cs ss heads
        → FitsHeads cs ss ((us ++ vs) ∷ heads)

  -- Rotary tables as the models make them: each row repeats its first half, its angles are on the
  -- unit circle, and there is a row for each token.
  pub data FitsTokens : List (List A) → List (List A) → List (List (List A)) → Type ℓ where
    no_tokens : FitsTokens [] [] []
    token :
        {cs ss : List A} {cos sin : List (List A)} {heads : List (List A)}
        {tokens : List (List (List A))}
        → FitsHeads cs ss heads
        → FitsTokens cos sin tokens
        → FitsTokens ((cs ++ cs) ∷ cos) ((ss ++ ss) ∷ sin) (heads ∷ tokens)

  pub data FitsLayers (rope : Rope A) : List (List (List (List A))) → Type ℓ where
    no_layers : FitsLayers rope []
    layer :
        {tokens : List (List (List A))} {layers : List (List (List (List A)))}
        → FitsTokens rope.cos rope.sin tokens
        → FitsLayers rope layers
        → FitsLayers rope (tokens ∷ layers)

  strip_heads :
      {cs ss : List A} {heads : List (List A)}
      → FitsHeads cs ss heads
      → map (strip_head r (cs ++ cs) (ss ++ ss)) (map (apply_head r (cs ++ cs) (ss ++ ss)) heads)
        ≡ heads
  strip_heads FitsHeads.no_heads = refl
  strip_heads (FitsHeads.head t f) = cons_congr (strip-apply_head t) (strip_heads f)

  strip_tokens :
      {cos sin : List (List A)} {tokens : List (List (List A))}
      → FitsTokens cos sin tokens
      → turn_tokens r (strip_head r) cos sin (turn_tokens r (apply_head r) cos sin tokens) ≡ tokens
  unfolding turn_tokens
  strip_tokens FitsTokens.no_tokens = refl
  strip_tokens (FitsTokens.token f g) = cons_congr (strip_heads f) (strip_tokens g)

  -- `strip_rope` undoes `apply_rope`, over exact numbers, where the tables are rotations and fit the
  -- keys: each row of `cos` and of `sin` repeats its first half, the squares of a cosine and of the
  -- sine of its angle add up to 1, there is a row for each token, and a head is as long as a row.
  -- From such keys as they are cached it gives back the keys before their rotation, in every layer.
  -- (Tables with a factor other than 1 on them are no rotations.)
  pub strip_rope-apply_rope :
      (rope : Rope A) (keys : List (List (List (List A))))
      → FitsLayers rope keys
      → strip_rope r rope (apply_rope r rope keys) ≡ keys
  unfolding strip_rope apply_rope
  strip_rope-apply_rope rope _ FitsLayers.no_layers = refl
  strip_rope-apply_rope rope _ (FitsLayers.layer {layers = layers} f g) =
      cons_congr (strip_tokens f) (strip_rope-apply_rope rope layers g)
