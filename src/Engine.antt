-- ===== src/Engine.antt =====
-- dispec/engine/engine.py: the generation of a single sequence. The prefix cache and the engine share
-- one manager, which is a field of the cache here; `use_prefix` is false where `prefix_cache` is None.
-- The model is a parameter, whose calls may raise.
pub mod Running
pub mod Admission
pub mod Steps
pub mod Owning
mod Tests
use di_spec.Prelude.{
  ℕ, zero, suc, ◌+◌, ◌-◌, ◌*◌, Bool, true, false, not, ◌&&◌, List, [], ◌∷◌, ◌++◌, Option, none,
  some, length, take, drop, get_elem?, range_from, ltb, leb, if◌then◌else◌, M, Outcome, ok, raise,
  ◌>>=◌, ◌>>◌, ret, fail, Call, or_raise, zoom, try_finally, index_error, stop_iteration,
}
use di_spec.BlockManager.{BlockManager, BlockTable}
use di_spec.BlockManager
use di_spec.PagedCache.{Tensors, KvStore, slots_for_positions, context_slots}
use di_spec.PrefixCache.{PrefixCache, match_blocks, insert_blocks}
use di_spec.Scheduler.{SamplingParams, SeqMeta, same_token}
use di_spec.CudaGraph.{can_handle, pick, padded_slots, mask}
use di_spec.Workers.{last_row}

-- `while reuse and len(reuse) * bs >= n: reuse.pop()`; each round takes a block, so a round for
-- each block is enough.
unfoldable pub trim : ℕ → ℕ → ℕ → List ℕ → List ℕ
trim bs n zero reuse = reuse
trim bs n (suc fuel) reuse = elim (leb n (length reuse * bs)) [
  | true ↦ trim bs n fuel (take (length reuse - 1) reuse)
  | false ↦ reuse
]

-- What `generate` calls of the model, each of which may raise: a forward pass over a flat batch, which
-- writes the cache and returns a hidden row for each token, the logits of hidden rows, a token for
-- each row of logits, and the replay of the captured graph of a bucket on its filled inputs.
pub record Model (T : Tensors) : Type 1 where
  pub Hidden : Type 0
  pub Logits : Type 0
  pub forward : List ℕ → List ℕ → List ℕ → List SeqMeta → M (KvStore T) (List Hidden)
  pub logits : List Hidden → Call (List Logits)
  pub sample : List Logits → SamplingParams → Call (List ℕ)
  pub replay : ℕ → ℕ → ℕ → ℕ → List ℕ → List Bool → M (KvStore T) (List Logits)

module _ (T : Tensors) (R : Model T) (hash : ℕ → List ℕ → ℕ) where
  pub record LlmEngine : Type 0 where
    pub prefix : PrefixCache
    pub use_prefix : Bool
    pub store : KvStore T
    pub graph : Option (List ℕ)
    pub seq_counter : ℕ
    pub last_prefill_tokens : ℕ

  abbrev pub on_cache {ℓ} : {A : Type ℓ} → M PrefixCache A → M LlmEngine A
  on_cache = zoom (λ e. e.prefix) (λ e c. record e { prefix = c })

  abbrev pub on_mgr {ℓ} : {A : Type ℓ} → M BlockManager A → M LlmEngine A
  on_mgr = zoom (λ e. e.prefix.mgr) (λ e m. record e { prefix = record e.prefix { mgr = m } })

  -- `next(self._seq_counter)`
  unfoldable pub next_id : M LlmEngine ℕ
  next_id e = ok e.seq_counter (record e { seq_counter = e.seq_counter + 1 })

  -- The cached blocks that the prompt adopts; a token at least is left to prefill.
  unfoldable pub reused : List ℕ → M LlmEngine (List ℕ)
  reused prompt_ids e = elim e.use_prefix [
    | false ↦ ok [] e
    | true ↦
        let (matched, c) = match_blocks hash prompt_ids e.prefix in
        ok (trim e.prefix.mgr.block_size (length prompt_ids) (length matched) matched)
          (record e { prefix = c })
  ]

  abbrev pub on_store {ℓ} : {A : Type ℓ} → M (KvStore T) A → M LlmEngine A
  on_store = zoom (λ e. e.store) (λ e s. record e { store = s })

  -- A call that touches nothing of the engine.
  unfoldable pub lift {ℓ} : {A : Type ℓ} → Call A → M LlmEngine A
  lift m e = elim (m tt) [ ok a _ ↦ ok a e | raise x _ ↦ raise x e ]

  -- The forward pass, and the logits of its last row.
  unfoldable pub run_forward : List ℕ → List ℕ → List ℕ → SeqMeta → M LlmEngine (List R.Hidden)
  run_forward tokens positions slots meta = on_store (R.forward tokens positions slots (meta ∷ []))

  unfoldable pub last_logits : List R.Hidden → M LlmEngine (List R.Logits)
  last_logits hidden = lift (R.logits (last_row hidden))

  -- `int(sample(logits, params)[0])`
  unfoldable pub pick_token : List R.Logits → SamplingParams → M LlmEngine ℕ
  pick_token logits params = do
    tokens ← lift (R.sample logits params)
    or_raise (get_elem? tokens 0) index_error

  unfoldable pub set_last_prefill : ℕ → M LlmEngine (Unit {0})
  set_last_prefill q e = ok tt (record e { last_prefill_tokens = q })

  -- `self.prefix_cache.insert(prompt_ids, table.block_ids)`, of the table of the sequence.
  unfoldable pub insert_table : ℕ → List ℕ → M LlmEngine (Unit {0})
  insert_table sid prompt_ids e = elim e.use_prefix [
    | false ↦ ok tt e
    | true ↦
        (do
          table ← on_mgr (BlockManager.block_table sid)
          on_cache (insert_blocks hash prompt_ids table.block_ids))
          e
  ]

  -- From the positions to prefill to the first token.
  unfoldable pub prefill : ℕ → List ℕ → ℕ → SamplingParams → M LlmEngine ℕ
  prefill sid prompt_ids start params e =
      (do
        let n : ℕ = length prompt_ids
        let q : ℕ = n - start
        table ← on_mgr (BlockManager.block_table sid)
        set_last_prefill q
        slots ←
            or_raise
              (slots_for_positions e.prefix.mgr.block_size table.block_ids (range_from start q))
              index_error
        hidden ←
            run_forward (drop start prompt_ids) (range_from start q) slots
              (record { block_ids = table.block_ids; q_len = q; ctx_len = n })
        on_mgr (BlockManager.set_num_tokens sid n)
        insert_table sid prompt_ids
        logits ← last_logits hidden
        pick_token logits params)
        e

  unfoldable pub replays : Option (List ℕ) → ℕ → Bool
  replays none ctx_len = false
  replays (some buckets) ctx_len = can_handle buckets ctx_len

  -- `self.graph.decode`, with the bucket's inputs filled for the replay.
  unfoldable pub graph_decode : List ℕ → ℕ → ℕ → ℕ → List ℕ → M LlmEngine (List R.Logits)
  graph_decode buckets token position write_slot ctx_slots =
      elim (pick buckets (length ctx_slots)) [
        | none ↦ fail stop_iteration
        | some mc ↦
            on_store (
              R.replay mc token position write_slot (padded_slots mc ctx_slots) (mask mc ctx_slots))
      ]

  -- The logits of a decode step, from a graph where one is large enough.
  unfoldable pub decode_logits : ℕ → ℕ → ℕ → BlockTable → M LlmEngine (List R.Logits)
  decode_logits token cur wslot table e = elim (replays e.graph (cur + 1)) [
    | true ↦
        (do
          cslots ←
              or_raise (context_slots e.prefix.mgr.block_size table.block_ids (cur + 1)) index_error
          graph_decode (elim e.graph [ none ↦ [] | some buckets ↦ buckets ]) token cur wslot cslots)
          e
    | false ↦
        (do
          hidden ←
              run_forward (token ∷ []) (cur ∷ []) (wslot ∷ [])
                (record { block_ids = table.block_ids; q_len = 1; ctx_len = cur + 1 })
          last_logits hidden)
          e
  ]

  unfoldable pub decode_step : ℕ → SamplingParams → ℕ → ℕ → M LlmEngine ℕ
  decode_step sid params token cur e =
      (do
        place ← on_mgr (BlockManager.append_token sid)
        table ← on_mgr (BlockManager.block_table sid)
        logits ← decode_logits token cur (place.0 * e.prefix.mgr.block_size + place.1) table
        pick_token logits params)
        e

  -- The loop; every round adds a token, so `max_new_tokens` rounds are enough.
  unfoldable pub decode_loop :
      ℕ → ℕ → SamplingParams → Option ℕ → ℕ → List ℕ → ℕ → ℕ → M LlmEngine (List ℕ)
  decode_loop zero sid params eos max_new out token cur = ret out
  decode_loop (suc fuel) sid params eos max_new out token cur =
      elim (ltb (length out) max_new && not (same_token (some token) eos)) [
        | false ↦ ret out
        | true ↦ (do
          t ← decode_step sid params token cur
          decode_loop fuel sid params eos max_new (out ++ t ∷ []) t (cur + 1))
      ]

  -- The body of the `try`.
  unfoldable pub run_sequence :
      ℕ → List ℕ → ℕ → ℕ → SamplingParams → Option ℕ → M LlmEngine (List ℕ)
  run_sequence sid prompt_ids start max_new params eos = do
    token ← prefill sid prompt_ids start params
    decode_loop max_new sid params eos max_new (token ∷ []) token (length prompt_ids)

  unfoldable pub generate : List ℕ → ℕ → SamplingParams → Option ℕ → M LlmEngine (List ℕ)
  generate prompt_ids max_new params eos e =
      (do
        sid ← next_id
        reuse ← reused prompt_ids
        table ← on_mgr (BlockManager.allocate sid (length prompt_ids) reuse)
        try_finally
            (run_sequence sid prompt_ids (length reuse * e.prefix.mgr.block_size) max_new params
              eos)
            (on_mgr (BlockManager.free sid)))
        e
