-- ===== src/Rejection/Shape.antt =====
-- What the output of rejection sampling is made of.
use di_spec.Prelude.{
  true, false, ◌∙◌, ℕ, zero, suc, Bool, ◌<◌, ◌+◌, ◌≡◌, refl, ap, List, [], ◌∷◌, ◌++◌, some, arith,
  length, take, get_elem?, Bool-cases, inl, inr, append_assoc,
}
use di_spec.Autoscale.{Ratio}
use di_spec.Rejection.{accepts, residual, rejection_loop, rejection_sample}

-- Each draft token has a weight in both rows of its position.
unfoldable pub Drafted : List ℕ → List (List ℕ) → List (List ℕ) → Type 0
Drafted [] q p = Unit {0}
Drafted (t ∷ ts) [] p = ⊥
Drafted (t ∷ ts) (qi ∷ q) [] = ⊥
Drafted (t ∷ ts) (qi ∷ q) (pi ∷ p) =
    ((a : ℕ) × (get_elem? qi t ≡ some a)) × ((b : ℕ) × (get_elem? pi t ≡ some b)) × Drafted ts q p

module _ {ℓ} {G : Type ℓ} (rand : G → Ratio × G) (multinomial : List ℕ → G → ℕ × G) where
  accepted_round :
      (i t : ℕ) (ts qi pi : List ℕ) (q p : List (List ℕ)) (p_bonus out : List ℕ) (g : G) (a b : ℕ)
      → get_elem? qi t ≡ some a
      → get_elem? pi t ≡ some b
      → accepts (rand g).0 a b ≡ true
      → rejection_loop rand multinomial i (t ∷ ts) (qi ∷ q) (pi ∷ p) p_bonus out g
        ≡ rejection_loop rand multinomial (i + 1) ts q p p_bonus (out ++ t ∷ []) (rand g).1
  unfolding rejection_loop
  accepted_round i t ts qi pi q p p_bonus out g a b ea eb n = ground (arith, ea, eb, n)

  rejected_round :
      (i t : ℕ) (ts qi pi : List ℕ) (q p : List (List ℕ)) (p_bonus out : List ℕ) (g : G) (a b : ℕ)
      → get_elem? qi t ≡ some a
      → get_elem? pi t ≡ some b
      → accepts (rand g).0 a b ≡ false
      → rejection_loop rand multinomial i (t ∷ ts) (qi ∷ q) (pi ∷ p) p_bonus out g
        ≡ some (
          (out ++ (multinomial (residual pi qi) (rand g).1).0 ∷ [], i),
          (multinomial (residual pi qi) (rand g).1).1,
        )
  unfolding rejection_loop
  rejected_round i t ts qi pi q p p_bonus out g a b ea eb n = ground (arith, ea, eb, n)

  -- The generator after `j` acceptance draws.
  unfoldable pub after : ℕ → G → G
  after zero g = g
  after (suc j) g = after j (rand g).1

  -- The draft token at position `j` has a weight in both rows, and the `j`-th acceptance draw says
  -- `verdict` of it.
  pub record Judged (draft_tokens : List ℕ) (q p : List (List ℕ)) (g : G) (j : ℕ) (verdict : Bool)
      : Type 0 where
    pub token : ℕ
    pub q_row : List ℕ
    pub p_row : List ℕ
    pub q_weight : ℕ
    pub p_weight : ℕ
    pub drafted : get_elem? draft_tokens j ≡ some token
    pub q_at : get_elem? q j ≡ some q_row
    pub p_at : get_elem? p j ≡ some p_row
    pub q_of : get_elem? q_row token ≡ some q_weight
    pub p_of : get_elem? p_row token ≡ some p_weight
    pub decided : accepts (rand (after j g)).0 q_weight p_weight ≡ verdict

  -- Where the token after `k` accepted ones comes from, and the generator after it.
  pub data Ends (draft_tokens : List ℕ) (q p : List (List ℕ)) (p_bonus : List ℕ) (g : G) (k : ℕ)
      : ℕ × G → Type ℓ where
    bonus :
        k ≡ length draft_tokens
        → Ends draft_tokens q p p_bonus g k (multinomial p_bonus (after k g))
    correction :
        (r : Judged draft_tokens q p g k false)
        → Ends draft_tokens q p p_bonus g k
            (multinomial (residual r.p_row r.q_row) (after (suc k) g))

  next-Judged :
      {t : ℕ} {ts qi pi : List ℕ} {q p : List (List ℕ)} {g : G} {j : ℕ} {v : Bool}
      → Judged ts q p (rand g).1 j v
      → Judged (t ∷ ts) (qi ∷ q) (pi ∷ p) g (suc j) v
  unfolding after
  next-Judged r = record {
    token = r.token;
    q_row = r.q_row;
    p_row = r.p_row;
    q_weight = r.q_weight;
    p_weight = r.p_weight;
    drafted = r.drafted;
    q_at = r.q_at;
    p_at = r.p_at;
    q_of = r.q_of;
    p_of = r.p_of;
    decided = r.decided;
  }

  next-Ends :
      {t : ℕ} {ts qi pi : List ℕ} {q p : List (List ℕ)} {p_bonus : List ℕ} {g : G} {k : ℕ}
      {d : ℕ × G}
      → Ends ts q p p_bonus (rand g).1 k d
      → Ends (t ∷ ts) (qi ∷ q) (pi ∷ p) p_bonus g (suc k) d
  unfolding after next-Judged
  next-Ends (Ends.bonus e) = Ends.bonus (ap suc e)
  next-Ends (Ends.correction r) = Ends.correction (next-Judged r)

  earlier :
      {t : ℕ} {ts qi pi : List ℕ} {q p : List (List ℕ)} {g : G} {k : ℕ}
      → Judged (t ∷ ts) (qi ∷ q) (pi ∷ p) g 0 true
      → ((j : ℕ) → j < k → Judged ts q p (rand g).1 j true)
      → (j : ℕ) → j < suc k
      → Judged (t ∷ ts) (qi ∷ q) (pi ∷ p) g j true
  earlier here all zero h = here
  earlier here all (suc j) h = next-Judged (all j (omega (arith, h)))

  loop_shape :
      (i : ℕ) (tokens : List ℕ) (q p : List (List ℕ)) (p_bonus out : List ℕ) (g : G)
      → Drafted tokens q p
      → (k : ℕ) × (d : ℕ × G) × (rejection_loop rand multinomial i tokens q p p_bonus out g
          ≡ some ((out ++ (take k tokens ++ d.0 ∷ []), i + k), d.1))
        × ((j : ℕ) → j < k → Judged tokens q p g j true)
        × Ends tokens q p p_bonus g k d
  unfolding rejection_loop Drafted after
  loop_shape i [] q p p_bonus out g d =
      let none_more : i ≡ i + 0 = omega arith in
      (
        0,
        multinomial p_bonus g,
        ap (λ n. some ((out ++ (multinomial p_bonus g).0 ∷ [], n), (multinomial p_bonus g).1))
            none_more,
        λ j h. absurd (omega (arith, h)),
        Ends.bonus refl,
      )
  loop_shape i (t ∷ ts) [] p p_bonus out g d = absurd d
  loop_shape i (t ∷ ts) (qi ∷ q) [] p_bonus out g d = absurd d
  loop_shape i (t ∷ ts) (qi ∷ q) (pi ∷ p) p_bonus out g ((a, ea), (b, eb), rest) =
      let none_more : i ≡ i + 0 = omega arith in
      let g₁ : G = (rand g).1 in
      let drawn : ℕ × G = multinomial (residual pi qi) g₁ in
      let here : (v : Bool) → accepts (rand g).0 a b ≡ v → Judged (t ∷ ts) (qi ∷ q) (pi ∷ p) g 0 v =
        λ v e. record {
          token = t;
          q_row = qi;
          p_row = pi;
          q_weight = a;
          p_weight = b;
          drafted = refl;
          q_at = refl;
          p_at = refl;
          q_of = ea;
          p_of = eb;
          decided = e;
        } in
      elim (Bool-cases (accepts (rand g).0 a b)) [
        | inr n ↦ (
          0,
          drawn,
          rejected_round i t ts qi pi q p p_bonus out g a b ea eb n
              ∙ ap (λ j. some ((out ++ drawn.0 ∷ [], j), drawn.1)) none_more,
          λ j h. absurd (omega (arith, h)),
          Ends.correction (here false n),
        )
        | inl n ↦
            let one_round : rejection_loop rand multinomial i (t ∷ ts) (qi ∷ q) (pi ∷ p) p_bonus out
                  g
                ≡ rejection_loop rand multinomial (i + 1) ts q p p_bonus (out ++ t ∷ []) g₁ =
              accepted_round i t ts qi pi q p p_bonus out g a b ea eb n in
            let (k, d, e, all, end) = loop_shape (i + 1) ts q p p_bonus (out ++ t ∷ []) g₁ rest in
            let place : i + 1 + k ≡ i + suc k = omega arith in
            let joined = append_assoc out (t ∷ []) (take k ts ++ d.0 ∷ []) in
            (suc k, d, one_round ∙ e ∙ cc, earlier (here true n) all, next-Ends end)
      ]

  -- When every draft token has a weight in its two rows, `rejection_sample` returns the first `k`
  -- draft tokens, followed by one token more, and the number `k`: its draws accepted each of the `k`
  -- tokens, and either `k` is all of them and the last token is drawn from the bonus distribution, or
  -- the next draw rejected the token at `k` and the last token is drawn from the residual there.
  pub rejection_sample_lem :
      (draft_tokens : List ℕ) (q p : List (List ℕ)) (p_bonus : List ℕ) (g : G)
      → Drafted draft_tokens q p
      → (k : ℕ) × (d : ℕ × G) × (rejection_sample rand multinomial draft_tokens q p p_bonus g
          ≡ some ((take k draft_tokens ++ d.0 ∷ [], k), d.1))
        × ((j : ℕ) → j < k → Judged draft_tokens q p g j true)
        × Ends draft_tokens q p p_bonus g k d
  unfolding rejection_sample
  rejection_sample_lem draft_tokens q p p_bonus g d =
      let (k, x, e, all, end) = loop_shape 0 draft_tokens q p p_bonus [] g d in
      let place : 0 + k ≡ k = omega arith in (k, x, cc, all, end)
