-- ===== src/ModelRunner.antt =====
-- dispec/engine/model_runner.py. A row is the list of a token's numbers; a module of transformers or of
-- PyTorch that works on each row by itself is a function on a row. Quantized projections are opaque.
pub mod Forward
pub mod Fusing
pub mod Gathering
mod Tests
use di_spec.Prelude.{
  ℕ, zero, suc, ◌+◌, ◌*◌, ◌/◌, ◌≡◌, Bool, true, false, ◌&&◌, ◌++◌, List, [], ◌∷◌, map, Option, none,
  some, length, take, drop, max, ltb, ◌==◌, if◌then◌else◌, zip_with, concat, replicate, M, Call,
  Outcome, ok, raise, ◌>>=◌, ◌>>◌, ret, fail, or_raise, index_error, value_error, attribute_error,
  type_error,
}
use di_spec.Prelude.Rings.{Ring}
use di_spec.PagedCache.{Tensors, KvStore, write, gather, context_slots}
use di_spec.Scheduler.{SeqMeta}
use di_spec.KvTransfer.{Rope, apply_head, turn_tokens}

-- What is used of PyTorch on one row: `F.linear(x, w, b)`, where `w` has a row for each output, and
-- `torch.cat((w, w'), 0)`.
pub record Weights (A : Type 0) : Type 1 where
  pub Mat : Type 0
  pub rows : Mat → ℕ
  pub cat : Mat → Mat → Mat
  pub linear : List A → Mat → Option (List A) → List A
  pub rows-cat : (w w' : Mat) → rows (cat w w') ≡ rows w + rows w'
  pub length-linear : (x : List A) (w : Mat) (b : Option (List A)) → length (linear x w b) ≡ rows w
  pub linear-cat :
      (x : List A) (w w' : Mat) → linear x (cat w w') none ≡ linear x w none ++ linear x w' none
  pub linear-cat_bias :
      (x : List A) (w w' : Mat) (b b' : List A)
      → length b ≡ rows w
      → linear x (cat w w') (some (b ++ b')) ≡ linear x w (some b) ++ linear x w' (some b')

-- The slot table of a batch of decodes, and the lengths of the contexts.
abbrev pub DecodeBatch : Type 0
DecodeBatch = List (List ℕ) × List ℕ

-- `x.view(heads, dim)` of a row.
unfoldable pub view {ℓ} : {A : Type ℓ} → ℕ → ℕ → List A → List (List A)
view zero dim y = []
view (suc heads) dim y = take dim y ∷ view heads dim (drop dim y)

module _ {A : Type 0} (r : Ring A) (W : Weights A) where
  open W use {Mat, cat, linear}

  -- A projection: an `nn.Linear`, a quantized module, or the `nn.Identity` that fusing leaves.
  pub data Proj : Type 0 where
    linear_module : Mat → Option (List A) → Proj
    quantized : (List A → List A) → Proj
    identity : Proj

  unfoldable pub call : Proj → List A → List A
  call (Proj.linear_module w b) x = linear x w b
  call (Proj.quantized f) x = f x
  call Proj.identity x = x

  pub record Layer : Type 0 where
    pub q_proj : Proj
    pub k_proj : Proj
    pub v_proj : Proj
    pub o_proj : List A → List A
    pub q_norm : List A → List A
    pub k_norm : List A → List A
    pub gate_proj : Proj
    pub up_proj : Proj
    pub down_proj : List A → List A
    pub act_fn : A → A
    pub input_layernorm : List A → List A
    pub post_attention_layernorm : List A → List A

  -- The entries of `_qkv_w`, `_qkv_b` and `_gate_up_w` for a layer.
  pub record Fused : Type 0 where
    pub qkv_w : Mat
    pub qkv_b : Option (List A)
    pub gate_up_w : Mat

  pub record Sizes : Type 0 where
    pub num_heads : ℕ
    pub num_kv_heads : ℕ
    pub head_dim : ℕ
    pub qk_norm : Bool

  -- The biases of q, k and v; when q has one, the others are concatenated to it.
  unfoldable pub cat_bias :
      Option (List A) → Option (List A) → Option (List A) → Call (Option (List A))
  cat_bias none b b' = ret none
  cat_bias (some a) (some b) (some b') = ret (some (a ++ (b ++ b')))
  cat_bias (some a) b b' = fail type_error

  unfoldable pub fuse_weights : Proj → Proj → Proj → Proj → Proj → Call Fused
  fuse_weights (Proj.linear_module q bq) (Proj.linear_module k bk) (Proj.linear_module v bv)
        (Proj.linear_module g bg) (Proj.linear_module u bu) =
      do
        b ← cat_bias bq bk bv
        ret (record { qkv_w = cat q (cat k v); qkv_b = b; gate_up_w = cat g u })
  fuse_weights q k v g u = fail attribute_error

  unfoldable pub fuse_layers : List Layer → Call (List Fused)
  fuse_layers [] = ret []
  fuse_layers (l ∷ ls) = do
    f ← fuse_weights l.q_proj l.k_proj l.v_proj l.gate_proj l.up_proj
    fs ← fuse_layers ls
    ret (f ∷ fs)

  -- `_build_fused`; `none` is its False.
  unfoldable pub fuse_as : Proj → List Layer → Call (Option (List Fused))
  fuse_as Proj.identity layers = fail value_error
  fuse_as (Proj.quantized f) layers = ret none
  fuse_as (Proj.linear_module w b) layers = do fs ← fuse_layers layers; ret (some fs)

  unfoldable pub build_fused : List Layer → Call (Option (List Fused))
  build_fused [] = fail index_error
  build_fused (l ∷ ls) = fuse_as l.q_proj (l ∷ ls)

  -- A layer whose fused projections are freed.
  unfoldable pub freed : Layer → Layer
  freed l = record l {
    q_proj = Proj.identity;
    k_proj = Proj.identity;
    v_proj = Proj.identity;
    gate_proj = Proj.identity;
    up_proj = Proj.identity;
  }

  -- The layers with what was fused of them, after the constructor.
  unfoldable pub with_fused : List Layer → Option (List Fused) → List (Layer × Option Fused)
  with_fused layers none = map (λ l. (l, none)) layers
  with_fused layers (some fs) = zip_with (λ l f. (freed l, some f)) layers fs

  -- The projections of a row to q, k and v.
  unfoldable pub project : Sizes → Layer → Option Fused → List A → List A × List A × List A
  project c l none x = (call l.q_proj x, call l.k_proj x, call l.v_proj x)
  project c l (some f) x =
      let qsz : ℕ = c.num_heads * c.head_dim in
      let kvsz : ℕ = c.num_kv_heads * c.head_dim in
      let qkv : List A = linear x f.qkv_w f.qkv_b in
      (take qsz qkv, take kvsz (drop qsz qkv), take kvsz (drop kvsz (drop qsz qkv)))

  -- `_mlp`; the module of transformers is `down(act(gate(h)) * up(h))`.
  unfoldable pub mlp : Layer → Option Fused → List A → List A
  mlp l none h = l.down_proj (zip_with r.mul (map l.act_fn (call l.gate_proj h)) (call l.up_proj h))
  mlp l (some f) h =
      let y : List A = linear h f.gate_up_w none in
      let n : ℕ = (length y + 1) / 2 in
      l.down_proj (zip_with r.mul (map l.act_fn (take n y)) (drop n y))

  module _ (T : Tensors) (block_size : ℕ) (to_row : List (List A) → T.Row) where
    open T use {Row, Tensor}

    -- What is used of attention: PyTorch's with `causal_lower_right(q_len, ctx_len)`, and the batched
    -- kernel on one layer.
    pub record Kernels : Type 0 where
      pub sdpa : ℕ → ℕ → List (List (List A)) → List Row → List Row → List (List (List A))
      pub paged :
          ℕ → List (List (List A)) → KvStore T → List (List ℕ) → List ℕ → List (List (List A))

    -- The keys and values that a sequence attends to; `k` and `v` are its own new ones.
    unfoldable pub context_rows :
        ℕ → SeqMeta → List Row → List Row → KvStore T → Option (List Row × List Row)
    context_rows layer_idx m k v s = elim (m.ctx_len == m.q_len) [
      | true ↦ some (k, v)
      | false ↦ elim (context_slots block_size m.block_ids m.ctx_len) [
        | none ↦ none
        | some slots ↦ some (gather T layer_idx slots s)
      ]
    ]

    -- The loop over `seq_meta`, on what is left of the batch from `offset` on.
    unfoldable pub attend_all :
        Kernels
        → ℕ
        → List SeqMeta
        → List (List (List A))
        → List Row
        → List Row
        → KvStore T
        → Option (List (List (List A)))
    attend_all F layer_idx [] q k v s = some []
    attend_all F layer_idx (m ∷ ms) q k v s =
        elim (context_rows layer_idx m (take m.q_len k) (take m.q_len v) s) [
          | none ↦ none
          | some (ki, vi) ↦
              elim (attend_all F layer_idx ms (drop m.q_len q) (drop m.q_len k) (drop m.q_len v)
                s) [
                  | none ↦ none
                  | some rest ↦ some (F.sdpa m.q_len m.ctx_len (take m.q_len q) ki vi ++ rest)
                ]
        ]

    unfoldable pub attend :
        Kernels
        → ℕ
        → List SeqMeta
        → Option DecodeBatch
        → List (List (List A))
        → List Row
        → List Row
        → M (KvStore T) (List (List (List A)))
    attend F layer_idx metas (some (slot_table, ctx_lens)) q k v s =
        ok (F.paged layer_idx q s slot_table ctx_lens) s
    attend F layer_idx metas none q k v s =
        or_raise (attend_all F layer_idx metas q k v s) index_error s

    -- `_attention`
    unfoldable pub attention :
        Kernels
        → Sizes
        → Layer
        → (List A → List A × List A × List A)
        → Rope A
        → List ℕ
        → List SeqMeta
        → ℕ
        → Option DecodeBatch
        → List (List A)
        → M (KvStore T) (List (List A))
    attention F c l projected rope write_slots metas layer_idx decode_batch x s =
        let normed : (List A → List A) → List (List A) → List (List A) =
          λ norm heads. if c.qk_norm then map norm heads else heads in
        let q : List (List (List A)) =
          map (λ row. normed l.q_norm (view c.num_heads c.head_dim (projected row).0)) x in
        let k : List (List (List A)) =
          map (λ row. normed l.k_norm (view c.num_kv_heads c.head_dim (projected row).1)) x in
        let v : List (List (List A)) =
          map (λ row. view c.num_kv_heads c.head_dim (projected row).2) x in
        let turned_q : List (List (List A)) = turn_tokens r (apply_head r) rope.cos rope.sin q in
        let turned_k : List (List (List A)) = turn_tokens r (apply_head r) rope.cos rope.sin k in
        (do
          out ← attend F layer_idx metas decode_batch turned_q (map to_row turned_k) (map to_row v)
          ret (map (λ heads. l.o_proj (concat heads)) out))
          (write T layer_idx write_slots (map to_row turned_k) (map to_row v) s)

    abbrev pub add_rows : List (List A) → List (List A) → List (List A)
    add_rows = zip_with (zip_with r.add)

    -- The body of the loop over the layers, with its two ways to project.
    unfoldable pub layer_step :
        Kernels
        → Sizes
        → Layer
        → (List A → List A × List A × List A)
        → (List A → List A)
        → Rope A
        → List ℕ
        → List SeqMeta
        → ℕ
        → Option DecodeBatch
        → List (List A)
        → M (KvStore T) (List (List A))
    layer_step F c l projected feed rope write_slots metas i decode_batch x = do
      a ← attention F c l projected rope write_slots metas i decode_batch (map l.input_layernorm x)
      let y : List (List A) = add_rows x a
      ret (add_rows y (map feed (map l.post_attention_layernorm y)))

    unfoldable pub layers_loop :
        Kernels
        → Sizes
        → List (Layer × Option Fused)
        → Rope A
        → List ℕ
        → List SeqMeta
        → ℕ
        → Option DecodeBatch
        → List (List A)
        → M (KvStore T) (List (List A))
    layers_loop F c [] rope write_slots metas i decode_batch x = ret x
    layers_loop F c ((l, f) ∷ ls) rope write_slots metas i decode_batch x = do
      y ← layer_step F c l (project c l f) (mlp l f) rope write_slots metas i decode_batch x
      layers_loop F c ls rope write_slots metas (i + 1) decode_batch y
