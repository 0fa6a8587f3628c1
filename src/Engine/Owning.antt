-- ===== src/Engine/Owning.antt =====
-- What a generation leaves of the block manager.
use di_spec.Prelude.{
  ℕ, ◌+◌, ◌*◌, ◌≡◌, refl, ap, sym, ◌∙◌, inl, inr, List, Option, none, length, ◌==◌, ==→eq, ==→ne,
  Bool-cases, Dict, lookup, remove, lookup-remove_ne, M, Outcome, ok, raise, final, zoom_of_ok,
  bind_of_ok, subst, try_finally, ◌>>=◌,
}
use di_spec.BlockManager.{BlockManager, BlockTable, Pool, allocate, free}
use di_spec.BlockManager.Growth.{IsShared}
use di_spec.BlockManager.Release.{without, free-IsValid}
use di_spec.PagedCache.{Tensors}
use di_spec.PrefixCache.{PrefixCache}
use di_spec.PrefixCache.Pins.{pins_of, IsSound}
use di_spec.Scheduler.{SamplingParams}
use di_spec.Engine.Admission.{allocate-outcome, reused-IsShared}
use di_spec.Engine.Running.{IsRunning}
use di_spec.Engine.Steps.{sequence-Holds}
use di_spec.Engine.{Model, LlmEngine, on_mgr, next_id, reused, run_sequence, generate}

-- What is left once the sequence is freed.
abbrev Idle : Dict BlockTable → PrefixCache → Type 0
Idle before c = IsSound c × ((k : ℕ) → lookup k c.mgr.tables ≡ lookup k before)

free-Idle :
    {before : Dict BlockTable} (sid n : ℕ) (c : PrefixCache)
    → lookup sid before ≡ none
    → IsRunning before sid n c
    → (p : Pool) × (free sid c.mgr ≡ ok tt (without c.mgr p sid))
      × Idle before (record c { mgr = without c.mgr p sid })
free-Idle {before} sid n c new_id r =
    let (p, e, v, gone) = free-IsValid sid r.table r.sound.pinned r.found in
    (
      p,
      e,
      (
        record { pinned = v; once = r.sound.once },
        λ k. elim (Bool-cases (k == sid)) [
          | inl same ↦
              ap (λ j. lookup j (remove sid c.mgr.tables)) (==→eq k sid same)
              ∙ gone
              ∙ sym new_id
              ∙ ap (λ j. lookup j before) (sym (==→eq k sid same))
          | inr other ↦
              lookup-remove_ne k sid c.mgr.tables (==→ne k sid other)
              ∙ r.others k (==→ne k sid other)
        ],
      ),
    )

try_finally-final {ℓ κ μ ν} :
    {S : Type ℓ} {A : Type κ} (P : S → Type μ) (Q : S → Type ν) (o : Outcome S A)
    (clean : M S (Unit {0}))
    → P (final o)
    → ((s : S) → P s → (t : S) × (clean s ≡ ok tt t) × Q t)
    → Q (
        final (elim o [
          | ok a s' ↦ elim (clean s') [ ok _ t ↦ ok a t | raise e t ↦ raise e t ]
          | raise x s' ↦ elim (clean s') [ ok _ t ↦ raise x t | raise e t ↦ raise e t ]
        ]))
try_finally-final P Q (ok a s) clean h k =
    let (t, e, q) = k s h in
    subst Q (sym (ap (λ o. final (elim o [ ok _ t ↦ ok a t | raise e t ↦ raise e t ])) e)) q
try_finally-final {A = A} P Q (raise x s) clean h k =
    let (t, e, q) = k s h in
    subst Q
      (sym (ap (λ o. final {A = A} (elim o [ ok _ t ↦ raise x t | raise e t ↦ raise e t ])) e)) q

module _ (T : Tensors) (R : Model T) (hash : ℕ → List ℕ → ℕ) (prompt_ids : List ℕ) where
  module _ (sid : ℕ) (body : M (LlmEngine T R hash) (List ℕ))
      (keeps : (before : Dict BlockTable) (e : LlmEngine T R hash)
        → IsRunning before sid (length prompt_ids) e.prefix
        → IsRunning before sid (length prompt_ids) (final (body e)).prefix) where
    abbrev put : LlmEngine T R hash → BlockManager → LlmEngine T R hash
    put e m = record e { prefix = record e.prefix { mgr = m } }

    abbrev rest : BlockTable → M (LlmEngine T R hash) (List ℕ)
    rest table = try_finally body (on_mgr T R hash (free sid))

    -- What is left of `e` when `allocate` gives `o`.
    abbrev Left : LlmEngine T R hash → Outcome BlockManager BlockTable → Type 0
    Left e o =
        Idle e.prefix.mgr.tables
          (final {S = LlmEngine T R hash} {A = List ℕ} (
            ((λ _. elim o [ ok a m ↦ ok a (put e m) | raise x m ↦ raise x (put e m) ]) >>= rest)
              e)).prefix

    admitted-Idle :
        (reuse : List ℕ) (e : LlmEngine T R hash)
        → IsSound e.prefix
        → lookup sid e.prefix.mgr.tables ≡ none
        → IsShared (pins_of e.prefix.nodes) e.prefix.mgr reuse
        → Idle e.prefix.mgr.tables
            (final {S = LlmEngine T R hash} {A = List ℕ}
              ((on_mgr T R hash (allocate sid (length prompt_ids) reuse) >>= rest) e)).prefix
    admitted-Idle reuse e s new_id shared =
        elim (allocate-outcome sid (length prompt_ids) reuse e.prefix s new_id shared) [
          | inl few ↦ subst (Left e) (sym few) (s, λ k. refl)
          | inr (t, m, a, r) ↦ subst (Left e) (sym a) (
              try_finally-final
                (λ (e' : LlmEngine T R hash).
                  IsRunning e.prefix.mgr.tables sid (length prompt_ids) e'.prefix)
                (λ (e' : LlmEngine T R hash). Idle e.prefix.mgr.tables e'.prefix) (body (put e m))
                (on_mgr T R hash (free sid)) (keeps e.prefix.mgr.tables (put e m) r)
                (λ e₁ r₁.
                  let (p, f, idle) = free-Idle sid (length prompt_ids) e₁.prefix new_id r₁ in
                  (
                    put e₁ (without e₁.prefix.mgr p sid),
                    zoom_of_ok (λ (e : LlmEngine T R hash). e.prefix.mgr) put (free sid) e₁ tt
                        (without e₁.prefix.mgr p sid) f,
                    idle,
                  )))
        ]

  -- A generation gives all its blocks back, whether it returns or raises, and whichever call raises:
  -- a forward pass, the logits, the sampling, the replay of a graph or an allocation. From a sound
  -- prefix cache, under an id that has no table yet, it leaves the manager valid with the references
  -- of the cache, and every sequence with the table it had.
  pub generate-IsSound :
      (max_new : ℕ) (params : SamplingParams) (eos : Option ℕ) (e : LlmEngine T R hash)
      → IsSound e.prefix
      → lookup e.seq_counter e.prefix.mgr.tables ≡ none
      → let e' = final (generate T R hash prompt_ids max_new params eos e) in
        IsSound e'.prefix × ((k : ℕ) → lookup k e'.prefix.mgr.tables ≡ lookup k e.prefix.mgr.tables)
  unfolding generate next_id
  generate-IsSound max_new params eos e s new_id =
      let e₀ : LlmEngine T R hash = record e { seq_counter = e.seq_counter + 1 } in
      let (reuse, e₁, read, s₁, same, shared) = reused-IsShared T R hash prompt_ids e₀ s in
      let body =
        run_sequence T R hash e.seq_counter prompt_ids (length reuse * e.prefix.mgr.block_size)
          max_new params eos in
      let new_id₁ : lookup e.seq_counter e₁.prefix.mgr.tables ≡ none =
        ap (λ (m : BlockManager). lookup e.seq_counter m.tables) same ∙ new_id in
      let done =
        admitted-Idle e.seq_counter body
          (λ before d r.
            sequence-Holds T R hash before e.seq_counter prompt_ids
              (length reuse * e.prefix.mgr.block_size) max_new params eos d r)
          reuse e₁ s₁ new_id₁ shared in
      let run : generate T R hash prompt_ids max_new params eos e
          ≡ (on_mgr T R hash (allocate e.seq_counter (length prompt_ids) reuse)
                >>= (λ table. try_finally body (on_mgr T R hash (free e.seq_counter))))
              e₁ =
        bind_of_ok (reused T R hash prompt_ids) _ e₀ reuse e₁ read refl in
      subst
        (λ (o : Outcome (LlmEngine T R hash) (List ℕ)). Idle e.prefix.mgr.tables (final o).prefix)
        (sym run) (done.0, λ k. done.1 k ∙ ap (λ (m : BlockManager). lookup k m.tables) same)
