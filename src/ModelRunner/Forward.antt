-- ===== src/ModelRunner/Forward.antt =====
-- `ModelRunner.forward` and `logits`, and what the constructor reads of the configuration.
use di_spec.Prelude.{
  ℕ, ◌-◌, ◌/◌, Bool, true, false, ◌&&◌, ◌++◌, List, [], ◌∷◌, map, Option, none, some, length, max,
  ltb, ◌==◌, get_elem?, if◌then◌else◌, replicate, for_each, M, Call, ◌>>=◌, ret, fail, or_raise,
  index_error, value_error,
}
use di_spec.Prelude.Rings.{Ring}
use di_spec.PagedCache.{Tensors, KvStore, context_slots}
use di_spec.Scheduler.{SeqMeta}
use di_spec.KvTransfer.{Rope, rope_tables}
use di_spec.ModelRunner.{Weights, Layer, Fused, Sizes, Kernels, DecodeBatch, layers_loop}

-- `getattr(cfg, "head_dim", cfg.hidden_size // cfg.num_attention_heads)`
unfoldable pub head_size : Option ℕ → ℕ → ℕ → ℕ
head_size none hidden_size num_heads = hidden_size / num_heads
head_size (some d) hidden_size num_heads = d

-- The refusal of sliding-window layers; `layer_types` says of each layer whether it is one.
unfoldable pub full_attention_only : List Bool → Call (Unit {0})
full_attention_only [] = ret tt
full_attention_only (true ∷ layer_types) = fail value_error
full_attention_only (false ∷ layer_types) = full_attention_only layer_types

-- `all(m.q_len == 1 for m in seq_meta)` and `max(m.ctx_len for m in seq_meta)`
unfoldable pub all_single : List SeqMeta → Bool
all_single [] = true
all_single (m ∷ ms) = m.q_len == 1 && all_single ms

unfoldable pub max_ctx_len : List SeqMeta → ℕ
max_ctx_len [] = 0
max_ctx_len (m ∷ ms) = max m.ctx_len (max_ctx_len ms)

-- A row of the slot table: the context's slots, padded with zeros.
unfoldable pub slot_row : ℕ → ℕ → SeqMeta → Option (List ℕ)
slot_row block_size max_ctx m = elim (context_slots block_size m.block_ids m.ctx_len) [
  | none ↦ none
  | some slots ↦ some (slots ++ replicate (max_ctx - m.ctx_len) 0)
]

unfoldable pub build_decode_batch {ℓ} :
    {S : Type ℓ} → ℕ → Bool → List SeqMeta → M S (Option DecodeBatch)
build_decode_batch block_size triton metas =
    if triton && ltb 0 (length metas) && all_single metas
    then (do
      slot_table ←
          for_each metas (λ m. or_raise (slot_row block_size (max_ctx_len metas) m) index_error)
      ret (some (slot_table, map (λ m. m.ctx_len) metas)))
    else ret none

module _ {A : Type 0} (r : Ring A) (W : Weights A) (T : Tensors) (block_size : ℕ)
    (to_row : List (List A) → T.Row) where
  pub record Model : Type 0 where
    pub sizes : Sizes r W
    pub layers : List (Layer r W × Option (Fused r W))
    pub embed : ℕ → List A
    pub norm : List A → List A
    pub lm_head : List A → List A
    pub rotary_emb : List ℕ → List (List A) × List (List A)
    pub triton : Bool

  -- `forward`: a normalized row for each token.
  unfoldable pub forward :
      Kernels r W T block_size to_row
      → Model
      → List ℕ
      → List ℕ
      → List ℕ
      → List SeqMeta
      → M (KvStore T) (List (List A))
  forward F m token_ids positions write_slots metas = do
    let rope : Rope A = rope_tables m.rotary_emb positions
    decode_batch ← build_decode_batch block_size m.triton metas
    x ←
        layers_loop r W T block_size to_row F m.sizes m.layers rope write_slots metas 0 decode_batch
          (map m.embed token_ids)
    ret (map m.norm x)

  -- `hidden[indices]`
  unfoldable pub rows_of : List (List A) → List ℕ → Call (List (List A))
  rows_of hidden indices = for_each indices (λ i. or_raise (get_elem? hidden i) index_error)

  unfoldable pub logits : Model → List (List A) → Option (List ℕ) → Call (List (List A))
  logits m hidden none = ret (map m.lm_head hidden)
  logits m hidden (some indices) = do rows ← rows_of hidden indices; ret (map m.lm_head rows)
