-- ===== src/Attention/Tests.antt =====
-- Two heads that share a KV head, a context of three tokens and blocks of two lanes, over the field
-- of two elements.
use di_spec.Prelude.{
  ℕ, zero, suc, ◌*◌, ◌+◌, ◌/◌, ◌≡◌, refl, arith, Bool, true, false, ◌&&◌, ◌||◌, [], ◌∷◌, ltb, ◌==◌,
}
use di_spec.Prelude.Rings.Two.{f2, xor}
use di_spec.Attention.{Floats, Launch, stored, paged_decode_kernel, batched_paged_decode_kernel}
use di_spec.Attention.Softmax.{
  attention, paged_decode_kernel-attention, batched-paged_decode_kernel,
}

or_assoc : (a b c : Bool) → (a || b || c) ≡ (a || (b || c))
or_assoc true b c = refl
or_assoc false b c = refl

abbrev bits : Floats f2
bits = record {
  max = ◌||◌;
  exp_sub = λ a b. true;
  div = ◌&&◌;
  nan = false;
  inf = false;
  inv_sqrt = λ n. true;
  is_zero = λ a. xor a true;
  max_assoc = or_assoc;
  exp_sub_trans = λ a b c. refl;
}

abbrev two_lanes : Launch Bool
two_lanes = record {
  scale = true;
  kv_groups = 2;
  stride_kslot = 2;
  stride_khead = 2;
  head_dim = 2;
  block_n = 2;
}

abbrev cached : ℕ → Bool
cached n = ltb n 5

abbrev queries : ℕ → Bool
queries n = n == 1 || n == 6

-- Two sequences with three and one token; the table's rows have four places.
abbrev table : ℕ → ℕ
table n = stored f2 bits 0 (2 ∷ 0 ∷ 1 ∷ 7 ∷ 3 ∷ 7 ∷ 7 ∷ 7 ∷ []) n

abbrev lens : ℕ → ℕ
lens zero = 3
lens (suc b) = 1

paged_decode_kernel-attention_example :
    paged_decode_kernel f2 bits two_lanes cached cached queries table 3 1 0
    ≡ attention f2 bits two_lanes cached cached (λ e. queries (1 * 2 + e) && true) table 3 (1 / 2) 0
paged_decode_kernel-attention_example =
    paged_decode_kernel-attention f2 bits two_lanes cached cached queries table 3 1 0 (omega arith)
      (omega arith)

batched-paged_decode_kernel_example :
    batched_paged_decode_kernel f2 bits two_lanes cached cached 4 4 queries table lens 1 1 0
    ≡ paged_decode_kernel f2 bits
        (record two_lanes { block_n = 128 })
        cached
        cached
        (λ e. queries (1 * 4 + e))
        (λ n. table (1 * 4 + n))
        1
        1
        0
batched-paged_decode_kernel_example =
    batched-paged_decode_kernel f2 bits two_lanes cached cached 128 4 4 queries table lens
      (λ n. table (1 * 4 + n)) 1 1 0 (omega arith) (omega arith) (omega arith) (λ n h. refl)
