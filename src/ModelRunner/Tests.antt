-- ===== src/ModelRunner/Tests.antt =====
-- A layer of one head of two numbers, over the field of two elements; a matrix is the list of its rows.
use di_spec.Prelude.{
  ℕ, ◌≡◌, refl, sym, ap, ◌∙◌, true, false, none, some, Bool, List, [], ◌∷◌, ◌++◌, map, Option,
  arith, length, length-append, length-map, ◌&&◌, count, range_from,
}
use mathlib.Core.List.{map-append}
use di_spec.Prelude.Rings.Two.{f2, xor}
use di_spec.PagedCache.{write, gather, context_slots, slots_for_positions, slot_at}
use di_spec.PagedCache.Tests.{table, blank}
use di_spec.Scheduler.{SeqMeta}
use di_spec.ModelRunner.{Weights, Proj, Layer, Fused, Kernels, context_rows}
use di_spec.ModelRunner.Forward.{Model}
use di_spec.ModelRunner.Gathering.{context_rows_fresh}

abbrev dot : List Bool → List Bool → Bool
dot [] ys = false
dot (x ∷ xs) [] = false
dot (x ∷ xs) (y ∷ ys) = xor (x && y) (dot xs ys)

abbrev plus : List Bool → List Bool → List Bool
plus [] bs = []
plus (y ∷ ys) [] = y ∷ ys
plus (y ∷ ys) (b ∷ bs) = xor y b ∷ plus ys bs

length-plus : (ys bs : List Bool) → length (plus ys bs) ≡ length ys
length-plus [] bs = refl
length-plus (y ∷ ys) [] = refl
length-plus (y ∷ ys) (b ∷ bs) = omega (arith, length-plus ys bs)

plus-append :
    (ys zs bs cs : List Bool)
    → length bs ≡ length ys
    → plus (ys ++ zs) (bs ++ cs) ≡ plus ys bs ++ plus zs cs
plus-append [] zs [] cs h = refl
plus-append [] zs (b ∷ bs) cs h = absurd (omega (arith, h))
plus-append (y ∷ ys) zs [] cs h = absurd (omega (arith, h))
plus-append (y ∷ ys) zs (b ∷ bs) cs h =
    ap (◌∷◌ (xor y b)) (plus-append ys zs bs cs (omega (arith, h)))

abbrev lines : List Bool → List (List Bool) → Option (List Bool) → List Bool
lines x w none = map (dot x) w
lines x w (some b) = plus (map (dot x) w) b

length-lines :
    (x : List Bool) (w : List (List Bool)) (b : Option (List Bool))
    → length (lines x w b) ≡ length w
length-lines x w none = length-map (dot x) w
length-lines x w (some b) = omega (arith, length-plus (map (dot x) w) b, length-map (dot x) w)

abbrev matrices : Weights Bool
matrices = record {
  Mat = List (List Bool);
  rows = length;
  cat = ◌++◌;
  linear = lines;
  rows-cat = length-append;
  length-linear = length-lines;
  linear-cat = λ x w w'. map-append (dot x) w w';
  linear-cat_bias = λ x w w' b b' h.
      ap (λ ys. plus ys (b ++ b')) (map-append (dot x) w w')
      ∙ plus-append (map (dot x) w) (map (dot x) w') b b' (h ∙ sym (length-map (dot x) w));
}

abbrev small : Layer f2 matrices
small = record {
  q_proj =
      Proj.linear_module ((true ∷ false ∷ []) ∷ (true ∷ true ∷ []) ∷ []) (some (true ∷ false ∷ []));
  k_proj =
      Proj.linear_module ((false ∷ true ∷ []) ∷ (true ∷ true ∷ []) ∷ []) (some (true ∷ true ∷ []));
  v_proj =
      Proj.linear_module ((true ∷ false ∷ []) ∷ (false ∷ true ∷ []) ∷ [])
        (some (false ∷ true ∷ []));
  o_proj = λ x. x;
  q_norm = λ x. x;
  k_norm = λ x. x;
  gate_proj = Proj.linear_module ((true ∷ true ∷ []) ∷ []) none;
  up_proj = Proj.linear_module ((false ∷ true ∷ []) ∷ []) none;
  down_proj = λ x. x ++ x;
  act_fn = λ a. a;
  input_layernorm = λ x. x;
  post_attention_layernorm = λ x. x;
}

abbrev row_number : List (List Bool) → ℕ
row_number heads = length heads

abbrev model : Model f2 matrices table 2 row_number
model = record {
  sizes = record { num_heads = 1; num_kv_heads = 1; head_dim = 2; qk_norm = false };
  layers = [];
  embed = λ t. true ∷ false ∷ [];
  norm = λ x. x;
  lm_head = λ x. x;
  rotary_emb = λ ps. (map (λ p. true ∷ true ∷ []) ps, map (λ p. false ∷ false ∷ []) ps);
  triton = false;
}

abbrev kernels : Kernels f2 matrices table 2 row_number
kernels = record { sdpa = λ q_len ctx_len q k v. q; paged = λ layer q s slots lens. q }

abbrev fused : List (Fused f2 matrices)
fused =
    record {
      qkv_w =
          (true ∷ false ∷ [])
          ∷ (true ∷ true ∷ [])
          ∷ (false ∷ true ∷ [])
          ∷ (true ∷ true ∷ [])
          ∷ (true ∷ false ∷ [])
          ∷ (false ∷ true ∷ [])
          ∷ [];
      qkv_b = some (true ∷ false ∷ true ∷ true ∷ false ∷ true ∷ []);
      gate_up_w = (true ∷ true ∷ []) ∷ (false ∷ true ∷ []) ∷ [];
    }
    ∷ []

abbrev metas : List SeqMeta
metas = record { block_ids = 3 ∷ []; q_len = 2; ctx_len = 2 } ∷ []

context_rows_fresh_example :
    context_rows f2 matrices table 2 row_number 0
      (record { block_ids = 3 ∷ []; q_len = 2; ctx_len = 2 })
      (5 ∷ 6 ∷ [])
      (7 ∷ 8 ∷ [])
      (write table 0 (6 ∷ 7 ∷ []) (5 ∷ 6 ∷ []) (7 ∷ 8 ∷ []) blank)
    ≡ some
        (gather table 0 (6 ∷ 7 ∷ []) (write table 0 (6 ∷ 7 ∷ []) (5 ∷ 6 ∷ []) (7 ∷ 8 ∷ []) blank))
unfolding context_slots slots_for_positions slot_at range_from count
context_rows_fresh_example =
    context_rows_fresh f2 matrices table 2 row_number 0 (3 ∷ []) (6 ∷ 7 ∷ []) (5 ∷ 6 ∷ [])
      (7 ∷ 8 ∷ []) blank (omega arith) (λ b. ground arith) refl refl
