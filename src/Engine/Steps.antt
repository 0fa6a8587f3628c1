-- ===== src/Engine/Steps.antt =====
-- The calls of a generation keep its sequence in flight.
use di_spec.Prelude.{
  ℕ, zero, suc, ◌+◌, ◌-◌, ◌≡◌, refl, ap, sym, inl, inr, not, ◌&&◌, List, [], ◌∷◌, ◌++◌, Option,
  some, length, drop, get_elem?, range_from, ltb, Option-cases, Bool-cases, Dict, lookup, M,
  Outcome, final, or_raise, key_error, index_error, zoom_of_ok, bind-final, or_raise-final,
  zoom-final, bind_of_ok, subst, ◌>>=◌, Call,
}
use di_spec.BlockManager.{BlockTable, append_token, block_table, set_num_tokens}
use di_spec.PagedCache.{Tensors, KvStore, slots_for_positions, context_slots}
use di_spec.PrefixCache.{insert_blocks}
use di_spec.Scheduler.{SamplingParams, SeqMeta, same_token}
use di_spec.CudaGraph.{padded_slots, mask, pick}
use di_spec.Workers.{last_row}
use di_spec.Engine.Running.{IsRunning, append-IsRunning, set_num_tokens-IsRunning, insert-IsRunning}
use di_spec.Engine.{
  Model, on_store, lift, last_logits, pick_token, LlmEngine, on_mgr, on_cache, run_forward,
  set_last_prefill, insert_table, prefill, replays, graph_decode, decode_logits, decode_step,
  decode_loop, run_sequence,
}

module _ (T : Tensors) (R : Model T) (hash : ℕ → List ℕ → ℕ) where
  abbrev Engine : Type 0
  Engine = LlmEngine T R hash

  module _ (before : Dict BlockTable) (sid n : ℕ) where
    abbrev Runs : Engine → Type 0
    Runs e = IsRunning before sid n e.prefix

    append-Runs : (e : Engine) → Runs e → Runs (final (on_mgr T R hash (append_token sid) e))
    append-Runs e r =
        zoom-final Runs (λ (e : Engine) m. record e { prefix = record e.prefix { mgr = m } }) e
          (append_token sid e.prefix.mgr) (append-IsRunning sid n e.prefix r)

    table-Runs : (e : Engine) → Runs e → Runs (final (on_mgr T R hash (block_table sid) e))
    unfolding block_table
    table-Runs e r =
        zoom-final Runs (λ (e : Engine) m. record e { prefix = record e.prefix { mgr = m } }) e
          (block_table sid e.prefix.mgr)
          (or_raise-final (λ m. IsRunning before sid n (record e.prefix { mgr = m }))
            (lookup sid e.prefix.mgr.tables) key_error e.prefix.mgr r)

    -- A call of the model leaves the prefix cache and its manager alone, when it raises too.
    store-Runs :
        {A : Type 0} (m : M (KvStore T) A) (e : Engine)
        → Runs e
        → Runs (final (on_store T R hash m e))
    store-Runs m e r = zoom-final Runs (λ (e : Engine) s. record e { store = s }) e (m e.store) r

    forward-Runs :
        (tokens positions slots : List ℕ) (meta : SeqMeta) (e : Engine)
        → Runs e
        → Runs (final (run_forward T R hash tokens positions slots meta e))
    unfolding run_forward
    forward-Runs tokens positions slots meta =
        store-Runs (R.forward tokens positions slots (meta ∷ []))

    lift-Runs : {A : Type 0} (m : Call A) (e : Engine) → Runs e → Runs (final (lift T R hash m e))
    unfolding lift
    lift-Runs m e r = zoom-final Runs (λ (e : Engine) (_ : Unit {0}). e) e (m tt) r

    pick-Runs :
        (logits : List R.Logits) (params : SamplingParams) (e : Engine)
        → Runs e
        → Runs (final (pick_token T R hash logits params e))
    unfolding pick_token
    pick-Runs logits params e r =
        bind-final Runs (lift T R hash (R.sample logits params) e) _
          (lift-Runs (R.sample logits params) e r)
          (λ tokens e₁ r₁. or_raise-final Runs (get_elem? tokens 0) index_error e₁ r₁)

    graph-Runs :
        (buckets : List ℕ) (token position wslot : ℕ) (slots : List ℕ) (e : Engine)
        → Runs e
        → Runs (final (graph_decode T R hash buckets token position wslot slots e))
    unfolding graph_decode
    graph-Runs buckets token position wslot slots e r =
        elim (Option-cases (pick buckets (length slots))) [
          | inl none_fits ↦ rw (none_fits, graph_decode) r
          | inr (mc, fits) ↦
              rw (fits, graph_decode)
                (store-Runs
                  (R.replay mc token position wslot (padded_slots mc slots) (mask mc slots)) e r)
        ]

    logits-Runs :
        (token cur wslot : ℕ) (table : BlockTable) (e : Engine)
        → Runs e
        → Runs (final (decode_logits T R hash token cur wslot table e))
    unfolding decode_logits last_logits
    logits-Runs token cur wslot table e r = elim (Bool-cases (replays T R hash e.graph (cur + 1))) [
      | inl graph ↦
          rw (graph, decode_logits)
            (bind-final Runs
              (or_raise (context_slots e.prefix.mgr.block_size table.block_ids (cur + 1))
                index_error e)
              _
              (or_raise-final Runs (context_slots e.prefix.mgr.block_size table.block_ids (cur + 1))
                index_error e r)
              (λ slots e₁ r₁. graph-Runs _ token cur wslot slots e₁ r₁))
      | inr direct ↦
          rw (direct, decode_logits)
            (bind-final Runs
              (run_forward T R hash (token ∷ []) (cur ∷ []) (wslot ∷ [])
                (record { block_ids = table.block_ids; q_len = 1; ctx_len = cur + 1 }) e)
              _
              (forward-Runs (token ∷ []) (cur ∷ []) (wslot ∷ [])
                (record { block_ids = table.block_ids; q_len = 1; ctx_len = cur + 1 }) e r)
              (λ hidden e₁ r₁. lift-Runs (R.logits (last_row hidden)) e₁ r₁))
    ]

    step-Runs :
        (params : SamplingParams) (token cur : ℕ) (e : Engine)
        → Runs e
        → Runs (final (decode_step T R hash sid params token cur e))
    unfolding decode_step
    step-Runs params token cur e r =
        bind-final Runs (on_mgr T R hash (append_token sid) e) _ (append-Runs e r) (λ place e₁ r₁.
          bind-final Runs (on_mgr T R hash (block_table sid) e₁) _ (table-Runs e₁ r₁)
            (λ table e₂ r₂.
              bind-final Runs (decode_logits T R hash token cur _ table e₂) _
                (logits-Runs token cur _ table e₂ r₂)
                (λ logits e₃ r₃. pick-Runs logits params e₃ r₃)))

    loop-Runs :
        (fuel : ℕ) (params : SamplingParams) (eos : Option ℕ) (max_new : ℕ) (out : List ℕ)
        (token cur : ℕ) (e : Engine)
        → Runs e
        → Runs (final (decode_loop T R hash fuel sid params eos max_new out token cur e))
    unfolding decode_loop
    loop-Runs zero params eos max_new out token cur e r = r
    loop-Runs (suc fuel) params eos max_new out token cur e r =
        elim (Bool-cases (ltb (length out) max_new && not (same_token (some token) eos))) [
          | inl on ↦
              rw (on, decode_loop)
                (bind-final Runs (decode_step T R hash sid params token cur e) _
                  (step-Runs params token cur e r)
                  (λ t e₁ r₁. loop-Runs fuel params eos max_new (out ++ t ∷ []) t (cur + 1) e₁ r₁))
          | inr done ↦ rw (done, decode_loop) r
        ]

  module _ (before : Dict BlockTable) (sid : ℕ) (prompt_ids : List ℕ) where
    abbrev Holds : Engine → Type 0
    Holds e = IsRunning before sid (length prompt_ids) e.prefix

    insert-Holds : (e : Engine) → Holds e → Holds (final (insert_table T R hash sid prompt_ids e))
    unfolding insert_table block_table
    insert-Holds e r = elim (Bool-cases e.use_prefix) [
      | inr off ↦ rw (off, insert_table) r
      | inl on ↦
          let read : (on_mgr T R hash (block_table sid)
                  >>= (λ table. on_cache T R hash (insert_blocks hash prompt_ids table.block_ids)))
                e
              ≡ on_cache T R hash (insert_blocks hash prompt_ids r.table.block_ids) e =
            bind_of_ok (on_mgr T R hash (block_table sid)) _ e r.table e
              (zoom_of_ok (λ (e : Engine). e.prefix.mgr)
                (λ e m. record e { prefix = record e.prefix { mgr = m } }) (block_table sid) e
                r.table e.prefix.mgr (ap (λ o. or_raise o key_error e.prefix.mgr) r.found))
              refl in
          rw (on, insert_table)
            (subst (λ (o : Outcome Engine (Unit {0})). Holds (final o)) (sym read)
              (zoom-final Holds (λ (e : Engine) c. record e { prefix = c }) e
                (insert_blocks hash prompt_ids r.table.block_ids e.prefix)
                (insert-IsRunning sid (length prompt_ids) hash prompt_ids e.prefix r)))
    ]

    prefill-Holds :
        (start : ℕ) (params : SamplingParams) (e : Engine)
        → Holds e
        → Holds (final (prefill T R hash sid prompt_ids start params e))
    unfolding prefill set_last_prefill last_logits
    prefill-Holds start params e r =
        bind-final Holds (on_mgr T R hash (block_table sid) e) _
          (table-Runs before sid (length prompt_ids) e r)
          (λ table e₁ r₁.
            bind-final Holds
              (or_raise
                (slots_for_positions e.prefix.mgr.block_size table.block_ids
                  (range_from start (length prompt_ids - start)))
                index_error (record e₁ { last_prefill_tokens = length prompt_ids - start }))
              _
              (or_raise-final Holds
                (slots_for_positions e.prefix.mgr.block_size table.block_ids
                  (range_from start (length prompt_ids - start)))
                index_error _ r₁)
              (λ slots e₂ r₂.
                let q : ℕ = length prompt_ids - start in
                let meta : SeqMeta = record {
                  block_ids = table.block_ids;
                  q_len = q;
                  ctx_len = length prompt_ids;
                } in
                bind-final Holds
                  (run_forward T R hash (drop start prompt_ids) (range_from start q) slots meta e₂)
                  _
                  (forward-Runs before sid (length prompt_ids) (drop start prompt_ids)
                    (range_from start q) slots meta e₂ r₂)
                  (λ hidden e₃ r₃.
                    bind-final Holds (on_mgr T R hash (set_num_tokens sid (length prompt_ids)) e₃) _
                      (zoom-final Holds
                        (λ (e : Engine) m. record e { prefix = record e.prefix { mgr = m } }) e₃
                        (set_num_tokens sid (length prompt_ids) e₃.prefix.mgr)
                        (set_num_tokens-IsRunning sid (length prompt_ids) e₃.prefix r₃))
                      (λ _ e₄ r₄.
                        bind-final Holds (insert_table T R hash sid prompt_ids e₄) _
                          (insert-Holds e₄ r₄)
                          (λ _ e₅ r₅.
                            bind-final Holds (last_logits T R hash hidden e₅) _
                              (lift-Runs before sid (length prompt_ids) (R.logits (last_row hidden))
                                e₅ r₅)
                              (λ logits e₆ r₆.
                                pick-Runs before sid (length prompt_ids) logits params e₆ r₆))))))

    pub sequence-Holds :
        (start max_new : ℕ) (params : SamplingParams) (eos : Option ℕ) (e : Engine)
        → Holds e
        → Holds (final (run_sequence T R hash sid prompt_ids start max_new params eos e))
    unfolding run_sequence
    sequence-Holds start max_new params eos e r =
        bind-final Holds (prefill T R hash sid prompt_ids start params e) _
          (prefill-Holds start params e r)
          (λ token e₁ r₁.
            loop-Runs before sid (length prompt_ids) max_new params eos max_new (token ∷ []) token
              (length prompt_ids) e₁ r₁)
