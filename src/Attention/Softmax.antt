-- ===== src/Attention/Softmax.antt =====
-- The kernels against attention written in one pass over the context.
use di_spec.Prelude.{
  ℕ, ◌+◌, ◌*◌, ◌/◌, ◌<◌, ◌≡◌, refl, sym, ap, ◌∙◌, fun_ext, List, map, Option, some, arith, lt→ltb,
  le→ltb, range_from, inl,
}
use di_spec.Prelude.Rings.{Ring}
use di_spec.Attention.{
  Floats, Launch, sum, Lane, max_scores, load, Running, start_state, lane, blocks, program,
  paged_decode_kernel, batched_paged_decode_kernel,
}
use di_spec.Attention.Online.{Sums, total, weighted, start-Sums}
use di_spec.Attention.Blocks.{IsMasked, blocks-Sums, drop_masked, map-range_from}

module _ {ℓ} {A : Type ℓ} (r : Ring A) (F : Floats r) (c : Launch A) (k_ptr v_ptr : ℕ → A) where
  open r use {mul}

  -- A token of the context: its score under the query and its row of values.
  abbrev pub context_lane : (ℕ → A) → (ℕ → ℕ) → ℕ → ℕ → Lane r F
  context_lane q slots kv_head n =
      let base : ℕ = slots n * c.stride_kslot + kv_head * c.stride_khead in
      record {
        score = some (sum r F (map (λ d. mul (q d) (k_ptr (base + d))) (range_from 0 c.head_dim)));
        value = λ d. v_ptr (base + d);
      }

  -- Attention of one query over a context: the values weighted by `exp(score - max)`, divided by the
  -- sum of the weights.
  abbrev pub attention : (ℕ → A) → (ℕ → ℕ) → ℕ → ℕ → ℕ → A
  attention q slots ctx_len kv_head d =
      let context : List (Lane r F) = map (context_lane q slots kv_head) (range_from 0 ctx_len) in
      let top : Option A = max_scores r F context in
      F.div (weighted r F top d context) (total r F top context)

  lane-IsMasked :
      (q : ℕ → A) (slots : ℕ → ℕ) (ctx_len kv_head : ℕ)
      → IsMasked r F (lane r F c k_ptr v_ptr q slots ctx_len kv_head) ctx_len
  unfolding lane load
  lane-IsMasked q slots ctx_len kv_head = record {
    live = λ i h. rw (lt→ltb i ctx_len h) (
      sum r F (
          map (λ d. mul (q d) (k_ptr (slots i * c.stride_kslot + kv_head * c.stride_khead + d)))
            (range_from 0 c.head_dim)),
      refl,
    );
    dead = λ i h. rw (le→ltb i ctx_len h) (refl, λ d. refl);
  }

  lane-context_lane :
      (q : ℕ → A) (slots : ℕ → ℕ) (ctx_len kv_head i : ℕ)
      → i < ctx_len
      → lane r F c k_ptr v_ptr q slots ctx_len kv_head i ≡ context_lane q slots kv_head i
  unfolding lane load
  lane-context_lane q slots ctx_len kv_head i h = rw (lt→ltb i ctx_len h) refl

  program-attention :
      (q : ℕ → A) (slots : ℕ → ℕ) (ctx_len kv_head d : ℕ)
      → 0 < ctx_len
      → 0 < c.block_n
      → program r F c k_ptr v_ptr q slots ctx_len kv_head d ≡ attention q slots ctx_len kv_head d
  unfolding program range_from
  program-attention q slots ctx_len kv_head d some_token some_lane =
      let f : ℕ → Lane r F = lane r F c k_ptr v_ptr q slots ctx_len kv_head in
      let masked : IsMasked r F f ctx_len = lane-IsMasked q slots ctx_len kv_head in
      let s : Running r F = blocks r F c k_ptr v_ptr f ctx_len ctx_len 0 (start_state r F) in
      let (stop, past, i) =
        blocks-Sums r F c k_ptr v_ptr f ctx_len ctx_len 0 (start_state r F) some_lane masked
          (omega arith) (start-Sums r F) (inl refl) in
      let j : Sums r F (map f (range_from 0 ctx_len)) s =
        drop_masked r F c k_ptr v_ptr f ctx_len stop some_token past masked s i in
      let same : map f (range_from 0 ctx_len)
          ≡ map (context_lane q slots kv_head) (range_from 0 ctx_len) =
        map-range_from f (context_lane q slots kv_head) 0 ctx_len
          (λ i a b. lane-context_lane q slots ctx_len kv_head i (omega (arith, b))) in
      let m : s.m ≡ max_scores r F (map (context_lane q slots kv_head) (range_from 0 ctx_len)) =
        j.top ∙ ap (max_scores r F) same in
      let context : List (Lane r F) = map (context_lane q slots kv_head) (range_from 0 ctx_len) in
      ap (λ x. F.div x s.l)
        (j.row d ∙ ap (λ xs. weighted r F s.m d xs) same ∙ ap (λ m. weighted r F m d context) m)
      ∙ ap (F.div (weighted r F (max_scores r F context) d context))
          (j.weight ∙ ap (λ xs. total r F s.m xs) same ∙ ap (λ m. total r F m context) m)

  -- The kernel for one token gives attention of each head over its KV head's keys and values at the
  -- slots of the context, for a context that is not empty and whatever the block size.
  pub paged_decode_kernel-attention :
      (q_ptr : ℕ → A) (slots_ptr : ℕ → ℕ) (ctx_len head d : ℕ)
      → 0 < ctx_len
      → 0 < c.block_n
      → paged_decode_kernel r F c k_ptr v_ptr q_ptr slots_ptr ctx_len head d
        ≡ attention
            (λ e. mul (q_ptr (head * c.head_dim + e)) c.scale)
            slots_ptr
            ctx_len
            (head / c.kv_groups)
            d
  unfolding paged_decode_kernel
  paged_decode_kernel-attention q_ptr slots_ptr ctx_len head d some_token some_lane =
      program-attention (λ e. mul (q_ptr (head * c.head_dim + e)) c.scale) slots_ptr ctx_len
        (head / c.kv_groups) d some_token some_lane

  attention_of_same_slots :
      (q : ℕ → A) (slots slots' : ℕ → ℕ) (ctx_len kv_head d : ℕ)
      → ((n : ℕ) → n < ctx_len → slots n ≡ slots' n)
      → attention q slots ctx_len kv_head d ≡ attention q slots' ctx_len kv_head d
  attention_of_same_slots q slots slots' ctx_len kv_head d h =
      let same : map (context_lane q slots kv_head) (range_from 0 ctx_len)
          ≡ map (context_lane q slots' kv_head) (range_from 0 ctx_len) =
        map-range_from (context_lane q slots kv_head) (context_lane q slots' kv_head) 0 ctx_len
          (λ i a b. rw (h i (omega (arith, b))) refl) in
      ap
        (λ context.
          F.div (weighted r F (max_scores r F context) d context)
            (total r F (max_scores r F context) context))
        same

module _ {ℓ} {A : Type ℓ} (r : Ring A) (F : Floats r) (c : Launch A) (k_ptr v_ptr : ℕ → A) where
  -- In a batch a sequence gets what the kernel for one token gives it alone: sequence `b` of the
  -- batched kernel, whose slots are the first of its row of the padded table, whatever the padding
  -- and the other rows hold, and with any other block size.
  pub batched-paged_decode_kernel :
      (block_n stride_qb stride_tb : ℕ) (q_ptr : ℕ → A) (slot_table ctx_lens slots : ℕ → ℕ)
      (b head d : ℕ)
      → 0 < ctx_lens b
      → 0 < c.block_n
      → 0 < block_n
      → ((n : ℕ) → n < ctx_lens b → slot_table (b * stride_tb + n) ≡ slots n)
      → batched_paged_decode_kernel r F c k_ptr v_ptr stride_qb stride_tb q_ptr slot_table ctx_lens
          b head d
        ≡ paged_decode_kernel r F
            (record c { block_n = block_n })
            k_ptr
            v_ptr
            (λ e. q_ptr (b * stride_qb + e))
            slots
            (ctx_lens b)
            head
            d
  unfolding batched_paged_decode_kernel
  batched-paged_decode_kernel block_n stride_qb stride_tb q_ptr slot_table ctx_lens slots b head d
        some_token some_lane other_lane h =
      let q : ℕ → A = λ e. r.mul (q_ptr (b * stride_qb + head * c.head_dim + e)) c.scale in
      let q' : ℕ → A = λ e. r.mul (q_ptr (b * stride_qb + (head * c.head_dim + e))) c.scale in
      let same : q ≡ q' =
        fun_ext
          (λ e. ap (λ n. r.mul (q_ptr n) c.scale) (place (b * stride_qb) (head * c.head_dim) e)) in
      program-attention r F c k_ptr v_ptr q (λ n. slot_table (b * stride_tb + n)) (ctx_lens b)
        (head / c.kv_groups) d some_token some_lane
      ∙ ap
          (λ q.
            attention r F c k_ptr v_ptr q (λ n. slot_table (b * stride_tb + n)) (ctx_lens b)
              (head / c.kv_groups) d)
          same
      ∙ attention_of_same_slots r F c k_ptr v_ptr q' (λ n. slot_table (b * stride_tb + n)) slots
          (ctx_lens b) (head / c.kv_groups) d h
      ∙ sym (
          paged_decode_kernel-attention r F (record c { block_n = block_n }) k_ptr v_ptr
            (λ e. q_ptr (b * stride_qb + e)) slots (ctx_lens b) head d some_token other_lane)
    where
      place : (a b e : ℕ) → a + b + e ≡ a + (b + e)
      place a b e = omega arith
