-- ===== src/Attention.antt =====
-- dispec/engine/triton_attn.py. A pointer is a function from offsets to what is stored there; the
-- floats are the elements of a commutative ring with the functions of `Floats`. A Triton program is a
-- function of its ids that gives what it stores at each offset of its head.
pub mod Online
pub mod Blocks
pub mod Softmax
mod Tests
use di_spec.Prelude.{
  ℕ, zero, suc, ◌+◌, ◌*◌, ◌/◌, ◌≡◌, Bool, true, false, List, [], ◌∷◌, map, Option, none, some,
  length, get_elem?, ltb, if◌then◌else◌, range_from,
}
use di_spec.Prelude.Rings.{Ring}

-- What the kernel uses of floats beside the ring: `max`, `exp(a - b)` and division. `nan` and `inf` are
-- what `exp` gives of `-inf - -inf` and of `a - -inf`; nothing is known of them.
pub record Floats {ℓ} {A : Type ℓ} (r : Ring A) : Type ℓ where
  pub max : A → A → A
  pub exp_sub : A → A → A
  pub div : A → A → A
  pub nan : A
  pub inf : A
  pub inv_sqrt : ℕ → A
  pub is_zero : A → Bool
  pub max_assoc : (a b c : A) → max (max a b) c ≡ max a (max b c)
  pub exp_sub_trans : (a b c : A) → r.mul (exp_sub a b) (exp_sub b c) ≡ exp_sub a c

-- What a launch fixes: the scale, the heads of a group, the strides and the two `constexpr`.
pub record Launch {ℓ} (A : Type ℓ) : Type ℓ where
  pub scale : A
  pub kv_groups : ℕ
  pub stride_kslot : ℕ
  pub stride_khead : ℕ
  pub head_dim : ℕ
  pub block_n : ℕ

module _ {ℓ} {A : Type ℓ} (r : Ring A) (F : Floats r) where
  -- `none` is `-inf`.
  unfoldable pub maximum : Option A → Option A → Option A
  maximum none b = b
  maximum (some a) none = some a
  maximum (some a) (some b) = some (F.max a b)

  -- `tl.exp(a - b)`
  unfoldable pub exp_diff : Option A → Option A → A
  exp_diff none none = F.nan
  exp_diff none (some b) = r.zero
  exp_diff (some a) none = F.inf
  exp_diff (some a) (some b) = F.exp_sub a b

  -- `tl.sum`
  unfoldable pub sum : List A → A
  sum [] = r.zero
  sum (x ∷ xs) = r.add x (sum xs)

  -- One lane of a block: its score and its row of values.
  pub record Lane : Type ℓ where
    pub score : Option A
    pub value : ℕ → A

  -- `tl.max(scores)`
  unfoldable pub max_scores : List Lane → Option A
  max_scores [] = none
  max_scores (x ∷ xs) = maximum x.score (max_scores xs)

  -- `tl.load(ptr, mask, other)`
  unfoldable pub load {κ} : {B : Type κ} → Bool → B → B → B
  load mask stored other = if mask then stored else other

  pub record Running : Type ℓ where
    pub m : Option A
    pub l : A
    pub acc : ℕ → A

  unfoldable pub start_state : Running
  start_state = record { m = none; l = r.zero; acc = λ d. r.zero }

  -- The body of the loop.
  unfoldable pub block : List Lane → Running → Running
  block lanes s =
      let m_new : Option A = maximum s.m (max_scores lanes) in
      let alpha : A = exp_diff s.m m_new in
      record {
        m = m_new;
        l = r.add (r.mul s.l alpha) (sum (map (λ x. exp_diff x.score m_new) lanes));
        acc = λ d.
            r.add (r.mul (s.acc d) alpha)
              (sum (map (λ x. r.mul (exp_diff x.score m_new) (x.value d)) lanes));
      }

  module _ (c : Launch A) (k_ptr v_ptr : ℕ → A) where
    -- What lane `n` loads and scores.
    unfoldable pub lane : (ℕ → A) → (ℕ → ℕ) → ℕ → ℕ → ℕ → Lane
    lane q slots_ptr ctx_len kv_head n =
        let mask_n : Bool = ltb n ctx_len in
        let slot : ℕ = load mask_n (slots_ptr n) 0 in
        let base : ℕ = slot * c.stride_kslot + kv_head * c.stride_khead in
        let score : A = sum (
          map (λ d. r.mul (q d) (load mask_n (k_ptr (base + d)) r.zero))
            (range_from 0 c.head_dim)) in
        record {
          score = if mask_n then some score else none;
          value = λ d. load mask_n (v_ptr (base + d)) r.zero;
        }

    -- `for start in range(0, ctx_len, BLOCK_N)`; `fuel` bounds the rounds.
    unfoldable pub blocks : (ℕ → Lane) → ℕ → ℕ → ℕ → Running → Running
    blocks lanes ctx_len zero start s = s
    blocks lanes ctx_len (suc fuel) start s =
        let rest : Running =
          blocks lanes ctx_len fuel (start + c.block_n)
            (block (map lanes (range_from start c.block_n)) s) in
        if ltb start ctx_len then rest else s

    -- A program: what it stores at offset `d` of its head. A round takes a token at least, so
    -- `ctx_len` rounds are enough.
    unfoldable pub program : (ℕ → A) → (ℕ → ℕ) → ℕ → ℕ → ℕ → A
    program q slots_ptr ctx_len kv_head d =
        let s : Running = blocks (lane q slots_ptr ctx_len kv_head) ctx_len ctx_len 0 start_state in
        F.div (s.acc d) s.l

    unfoldable pub paged_decode_kernel : (ℕ → A) → (ℕ → ℕ) → ℕ → ℕ → ℕ → A
    paged_decode_kernel q_ptr slots_ptr ctx_len head d =
        program (λ e. r.mul (q_ptr (head * c.head_dim + e)) c.scale) slots_ptr ctx_len
          (head / c.kv_groups) d

    unfoldable pub batched_paged_decode_kernel : ℕ → ℕ → (ℕ → A) → (ℕ → ℕ) → (ℕ → ℕ) → ℕ → ℕ → ℕ → A
    batched_paged_decode_kernel stride_qb stride_tb q_ptr slot_table_ptr ctx_lens_ptr b head d =
        program (λ e. r.mul (q_ptr (b * stride_qb + head * c.head_dim + e)) c.scale)
          (λ n. slot_table_ptr (b * stride_tb + n)) (ctx_lens_ptr b) (head / c.kv_groups) d

  -- `scale or head_dim ** -0.5`
  unfoldable pub scale_or : Option A → ℕ → A
  scale_or none head_dim = F.inv_sqrt head_dim
  scale_or (some s) head_dim = if F.is_zero s then F.inv_sqrt head_dim else s

  -- The offsets of a tensor that is a list; past its end nothing is read.
  unfoldable pub stored {κ} : {B : Type κ} → B → List B → ℕ → B
  stored other xs n = elim (get_elem? xs n) [ none ↦ other | some x ↦ x ]

  unfoldable pub launch : ℕ → ℕ → ℕ → ℕ → Option A → Launch A
  launch head_dim stride_kslot stride_khead kv_groups scale = record {
    scale = scale_or scale head_dim;
    kv_groups = kv_groups;
    stride_kslot = stride_kslot;
    stride_khead = stride_khead;
    head_dim = head_dim;
    block_n = 128;
  }

  -- `paged_decode_attention`: the rows of the heads.
  unfoldable pub paged_decode_attention :
      ℕ → ℕ → ℕ → ℕ → (ℕ → A) → (ℕ → A) → (ℕ → A) → List ℕ → ℕ → Option A → List (List A)
  paged_decode_attention num_heads head_dim stride_kslot stride_khead q k_cache v_cache slots
        kv_groups scale =
      let c : Launch A = launch head_dim stride_kslot stride_khead kv_groups scale in
      map
        (λ head.
          map (paged_decode_kernel c k_cache v_cache q (stored 0 slots) (length slots) head)
            (range_from 0 head_dim))
        (range_from 0 num_heads)

  -- `batched_paged_decode_attention`, for a contiguous batch of queries and a slot table of `max_ctx`
  -- columns.
  unfoldable pub batched_paged_decode_attention :
      ℕ
      → ℕ
      → ℕ
      → ℕ
      → ℕ
      → ℕ
      → (ℕ → A)
      → (ℕ → A)
      → (ℕ → A)
      → (ℕ → ℕ)
      → List ℕ
      → ℕ
      → Option A
      → List (List (List A))
  batched_paged_decode_attention batch num_heads head_dim max_ctx stride_kslot stride_khead q
        k_cache v_cache slot_table ctx_lens kv_groups scale =
      let c : Launch A = launch head_dim stride_kslot stride_khead kv_groups scale in
      map
        (λ b.
          map
            (λ head.
              map
                (batched_paged_decode_kernel c k_cache v_cache (num_heads * head_dim) max_ctx q
                  slot_table (stored 0 ctx_lens) b head)
                (range_from 0 head_dim))
            (range_from 0 num_heads))
        (range_from 0 batch)
