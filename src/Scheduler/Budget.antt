-- ===== src/Scheduler/Budget.antt =====
-- The batch that a step builds: its lists agree in length, and it keeps to the token budget.
use di_spec.Prelude.{
  ℕ, ◌+◌, ◌-◌, ◌*◌, ◌≤◌, ◌≡◌, refl, sym, ap, ◌∙◌, subst, min, Bool, true, false, inl, inr, List, [],
  ◌∷◌, ◌++◌, Option, none, some, arith, length, length-take, length-drop, length-range_from, take,
  drop, range_from, ltb, leb, if◌then◌else◌, Bool-cases, M, Outcome, ok, raise, Post, bind-Post,
  or_raise, ◌>>=◌, Exc, index_error,
}
use di_spec.BlockManager.{BlockManager, BlockTable}
use di_spec.BlockManager
use di_spec.PagedCache.{Tensors}
use di_spec.PagedCache.Slots.{slots_for_positions-length}
use di_spec.Scheduler.{running, SeqMeta, Request, Engine, get_last}
use di_spec.Scheduler.Step.{
  Batch, StepState, empty_batch, push, mark_sampled, decode_one, decode_loop, admit, finish_prefill,
  chunk_slots, advance, prefill_loop, build, sorted_waiting,
}
use di_spec.Scheduler.Quiet.{
  Leaves, Quiet, on_mgr-Quiet, or_raise-Quiet, request-Quiet, update-Quiet, admit-Quiet,
}
use di_spec.Scheduler.Counting.{
  total_q, trues, IsFilled, IsCounted, IsOpen, push-IsOpen, marked-IsCounted, unmarked-IsCounted,
}

module _ (T : Tensors) (limit : ℕ) where
  -- What a part of the construction keeps, on a return and on a raise.
  abbrev Keeps {κ} : {A : Type κ} → Outcome (StepState T) A → Type 0
  Keeps o = Post (λ a s. IsCounted limit s.b) (λ s. IsFilled limit s.b) o

  -- First a part that leaves the batch alone.
  after {κ μ} :
      {A : Type κ} {B : Type μ} (m : M (StepState T) A) (f : A → M (StepState T) B)
      (s : StepState T) (b : Batch)
      → Quiet T m
      → s.b ≡ b
      → IsFilled limit b
      → ((a : A) (s' : StepState T) → s'.b ≡ b → Keeps (f a s'))
      → Keeps ((m >>= f) s)
  after {A = A} m f s b q e c k =
      bind-Post (λ a s'. s'.b ≡ b) (λ a s'. IsCounted limit s'.b) (λ s'. IsFilled limit s'.b) (m s)
        f (Post-raise b (m s) (q s b e) c) k
    where
      Post-raise :
          (b : Batch) (o : Outcome (StepState T) A)
          → Leaves T b o
          → IsFilled limit b
          → Post (λ a s'. s'.b ≡ b) (λ s'. IsFilled limit s'.b) o
      Post-raise b (ok a s') h c = h
      Post-raise b (raise x s') h c = subst (IsFilled limit) (sym h) c

  decode_one-Keeps :
      (rid : ℕ) (s : StepState T)
      → IsCounted limit s.b
      → 1 ≤ s.b.budget
      → Keeps (decode_one T rid s)
  unfolding decode_one
  decode_one-Keeps rid s c room =
      let c₀ : IsFilled limit s.b = c.filled in
      after _ _ s s.b (request-Quiet T rid) refl c₀ (λ req s₁ e₁.
        after _ _ s₁ s.b (on_mgr-Quiet T (BlockManager.block_table rid)) e₁ c₀ (λ before s₂ e₂.
          after _ _ s₂ s.b (on_mgr-Quiet T (BlockManager.append_token rid)) e₂ c₀ (λ place s₃ e₃.
            after _ _ s₃ s.b (on_mgr-Quiet T (BlockManager.block_table rid)) e₃ c₀ (λ table s₄ e₄.
              after _ _ s₄ s.b (or_raise-Quiet T (get_last req.output_ids) index_error) e₄ c₀
                (λ token s₅ e₅.
                  marked-IsCounted T limit
                    (push T rid 1 (token ∷ []) (before.num_tokens ∷ [])
                      ((place.0 * s₅.eng.block_size + place.1) ∷ [])
                      (record {
                        block_ids = table.block_ids;
                        q_len = 1;
                        ctx_len = table.num_tokens;
                      })
                      s₅.b)
                    (push-IsOpen T limit rid 1 (token ∷ []) (before.num_tokens ∷ [])
                      ((place.0 * s₅.eng.block_size + place.1) ∷ [])
                      (record {
                        block_ids = table.block_ids;
                        q_len = 1;
                        ctx_len = table.num_tokens;
                      })
                      s₅.b (subst (IsCounted limit) (sym e₅) c)
                      (omega (arith, ap (λ b. b.budget) e₅)) refl refl refl refl))))))

  decode_loop-Keeps :
      (rids : List ℕ) (s : StepState T) → IsCounted limit s.b → Keeps (decode_loop T rids s)
  unfolding decode_loop
  decode_loop-Keeps [] s c = c
  decode_loop-Keeps (rid ∷ rids) s c = elim (Bool-cases (ltb s.b.budget 1)) [
    | inl e ↦ rw (e, decode_loop) c
    | inr e ↦
        rw (e, decode_loop)
          (bind-Post (λ a s'. IsCounted limit s'.b) (λ a s'. IsCounted limit s'.b)
            (λ s'. IsFilled limit s'.b) (decode_one T rid s) (λ _. decode_loop T rids)
            (decode_one-Keeps rid s c (ground arith)) (λ _ s' c'. decode_loop-Keeps rids s' c'))
  ]

  found {κ μ} :
      {A : Type κ} {B : Type μ} (o : Option A) (x : Exc) (f : A → M (StepState T) B)
      (s : StepState T)
      → IsFilled limit s.b
      → ((a : A) → o ≡ some a → Keeps (f a s))
      → Keeps ((or_raise o x >>= f) s)
  found none x f s c k = c
  found (some a) x f s c k = k a refl

  finish_prefill-Keeps :
      (rid : ℕ) (req : Request T) (s : StepState T) (b : Batch)
      → s.b ≡ b
      → IsOpen T limit b
      → Keeps (finish_prefill T rid req s)
  unfolding finish_prefill
  finish_prefill-Keeps rid req s b e c =
      after _ _ s b (update-Quiet T rid (record req { prefilled = true; state = running })) e
        c.filled
        (λ _ s' e'.
          subst (λ b'. IsCounted limit (mark_sampled T b')) (sym e') (marked-IsCounted T limit b c))

  either {κ} :
      {A : Type κ} (x : Bool) (m k : M (StepState T) A) (s : StepState T)
      → Keeps (m s)
      → Keeps (k s)
      → Keeps ((if x then m else k) s)
  either true m k s h g = h
  either false m k s h g = g

  chunk_slots-length :
      (bs : ℕ) (ids ps ss : List ℕ) → chunk_slots T bs ids ps ≡ some ss → length ss ≡ length ps
  unfolding chunk_slots
  chunk_slots-length bs ids [] ss h = cc
  chunk_slots-length bs ids (p ∷ ps) ss h = slots_for_positions-length bs ids (p ∷ ps) ss h

  advance-Keeps : (rid : ℕ) (s : StepState T) → IsCounted limit s.b → Keeps (advance T rid s)
  unfolding advance
  advance-Keeps rid s c =
      let c₀ : IsFilled limit s.b = c.filled in
      after _ _ s s.b (request-Quiet T rid) refl c₀ (λ req s₁ e₁.
        after _ _ s₁ s.b (on_mgr-Quiet T (BlockManager.block_table rid)) e₁ c₀ (λ table s₂ e₂.
          let pl : ℕ = length req.prompt_ids in
          let chunk : ℕ = min (min (pl - req.prefill_pos) s.eng.chunk_size) s.b.budget in
          let pos : List ℕ = range_from req.prefill_pos chunk in
          found (chunk_slots T s.eng.block_size table.block_ids pos) index_error _ s₂
            (subst (IsFilled limit) (sym e₂) c₀)
            (λ slots f.
              let meta : SeqMeta = record {
                block_ids = table.block_ids;
                q_len = chunk;
                ctx_len = req.prefill_pos + chunk;
              } in
              let tokens : List ℕ = take chunk (drop req.prefill_pos req.prompt_ids) in
              let next : Batch = push T rid chunk tokens pos slots meta s₂.b in
              let req' : Request T = record req { prefill_pos = req.prefill_pos + chunk } in
              let opened : IsOpen T limit next =
                push-IsOpen T limit rid chunk tokens pos slots meta s₂.b
                  (subst (IsCounted limit) (sym e₂) c) (omega (arith, ap (λ b. b.budget) e₂))
                  (omega (
                    arith,
                    length-take chunk (drop req.prefill_pos req.prompt_ids),
                    length-drop req.prefill_pos req.prompt_ids,
                  ))
                  (length-range_from req.prefill_pos chunk)
                  (chunk_slots-length s.eng.block_size table.block_ids pos slots f
                    ∙ length-range_from req.prefill_pos chunk)
                  refl in
              after _ _ _ next (update-Quiet T rid req') refl opened.filled (λ _ s₃ e₃.
                after _ _ s₃ next
                  (on_mgr-Quiet T (BlockManager.set_num_tokens rid req'.prefill_pos)) e₃
                  opened.filled
                  (λ _ s₄ e₄.
                    either (leb pl req'.prefill_pos) (finish_prefill T rid req') _ s₄
                      (finish_prefill-Keeps rid req' s₄ next e₄ opened)
                      (subst (λ b. IsCounted limit (record b { sampled = b.sampled ++ false ∷ [] }))
                        (sym e₄) (unmarked-IsCounted T limit next opened)))))))

  prefill_loop-Keeps :
      (rids : List ℕ) (s : StepState T) → IsCounted limit s.b → Keeps (prefill_loop T rids s)
  unfolding prefill_loop
  prefill_loop-Keeps [] s c = c
  prefill_loop-Keeps (rid ∷ rids) s c = elim (Bool-cases (ltb s.b.budget 1)) [
    | inl e ↦ rw (e, prefill_loop) c
    | inr e ↦
        rw (e, prefill_loop)
          (after (admit T rid) _ s s.b (admit-Quiet T rid) refl c.filled (λ going s₁ e₁.
            elim (Bool-cases going) [
              | inr n ↦ rw n (subst (IsCounted limit) (sym e₁) c)
              | inl n ↦ rw n (
                  bind-Post (λ a s'. IsCounted limit s'.b) (λ a s'. IsCounted limit s'.b)
                    (λ s'. IsFilled limit s'.b) (advance T rid s₁) (λ _. prefill_loop T rids)
                    (advance-Keeps rid s₁ (subst (IsCounted limit) (sym e₁) c))
                    (λ _ s₂ c₂. prefill_loop-Keeps rids s₂ c₂))
            ]))
  ]

empty_batch-IsCounted : (limit : ℕ) → IsCounted limit (empty_batch limit)
unfolding total_q trues
empty_batch-IsCounted limit = record {
  filled = record {
    tokens = refl;
    places = refl;
    slots = refl;
    queries = refl;
    spent = omega arith;
    metas = refl;
  };
  flags = refl;
  last = refl;
}

-- For every engine, the batch that `step` builds fits the token budget: the flat lists have one
-- entry for each of its tokens, the query lengths add up to them, and together with the budget that
-- is left they make `max_batch_tokens`. When an exception ends the construction that holds too; on
-- a return each sequence also has its flag, and there is one last row for each sequence to sample.
pub build-IsCounted :
    (T : Tensors) (e : Engine T)
    → Post
        (λ _ s. IsCounted e.max_batch_tokens s.b)
        (λ s. IsFilled e.max_batch_tokens s.b)
        (build T (record { eng = e; b = empty_batch e.max_batch_tokens }))
unfolding build
build-IsCounted T e =
    bind-Post (λ a s'. IsCounted e.max_batch_tokens s'.b)
      (λ a s'. IsCounted e.max_batch_tokens s'.b) (λ s'. IsFilled e.max_batch_tokens s'.b) _ _
      (decode_loop-Keeps T e.max_batch_tokens e.running_ids
        (record { eng = e; b = empty_batch e.max_batch_tokens })
        (empty_batch-IsCounted e.max_batch_tokens))
      (λ _ s c.
        let waiting_ids : List ℕ = sorted_waiting T s.eng in
        prefill_loop-Keeps T e.max_batch_tokens (s.eng.prefilling_ids ++ waiting_ids)
          (record s { eng = record s.eng { waiting_ids = waiting_ids } }) c)
