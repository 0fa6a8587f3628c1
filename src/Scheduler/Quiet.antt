-- ===== src/Scheduler/Quiet.antt =====
-- The parts of a step that do not touch the batch under construction.
use di_spec.Prelude.{
  ℕ, ◌≡◌, inl, inr, [], Option, length, lookup, Bool-cases, Option-cases, M, Outcome, Post,
  bind-Post, zoom-Post, or_raise-Post, or_raise, ◌>>=◌, Exc, catch, key_error,
}
use di_spec.BlockManager.{BlockManager, BlockTable}
use di_spec.BlockManager
use di_spec.PagedCache.{Tensors, KvStore, import_contiguous}
use di_spec.Scheduler.{prefilling, Request}
use di_spec.Scheduler.Step.{
  Batch, StepState, on_store, on_mgr, request, update, import_prefix, try_allocate, enter, admit,
  is_waiting,
}

module _ (T : Tensors) where
  -- A computation that leaves the batch alone.
  abbrev pub Leaves {κ} : {A : Type κ} → Batch → Outcome (StepState T) A → Type 0
  Leaves b o = Post (λ a s. s.b ≡ b) (λ s. s.b ≡ b) o

  abbrev pub Quiet {κ} : {A : Type κ} → M (StepState T) A → Type 0
  Quiet m = (s : StepState T) (b : Batch) → s.b ≡ b → Leaves b (m s)

  pub bind-Quiet {κ μ} :
      {A : Type κ} {B : Type μ} (m : M (StepState T) A) (f : A → M (StepState T) B)
      → Quiet m
      → ((a : A) → Quiet (f a))
      → Quiet (m >>= f)
  bind-Quiet m f h k s b e =
      bind-Post (λ a s'. s'.b ≡ b) (λ a s'. s'.b ≡ b) (λ s'. s'.b ≡ b) (m s) f (h s b e)
        (λ a s' e'. k a s' b e')

  pub on_mgr-Quiet {κ} : {A : Type κ} (m : M BlockManager A) → Quiet (on_mgr T m)
  on_mgr-Quiet m s b e =
      zoom-Post (λ a s'. s'.b ≡ b) (λ s'. s'.b ≡ b)
        (λ s m'. record s { eng = record s.eng { mgr = m' } }) s (m s.eng.mgr) (λ a t. e) (λ t. e)

  on_store-Quiet {κ} : {A : Type κ} (m : M (KvStore T) A) → Quiet (on_store T m)
  on_store-Quiet m s b e =
      zoom-Post (λ a s'. s'.b ≡ b) (λ s'. s'.b ≡ b)
        (λ s m'. record s { eng = record s.eng { store = m' } }) s (m s.eng.store) (λ a t. e)
        (λ t. e)

  pub or_raise-Quiet {κ} :
      {A : Type κ} (o : Option A) (x : Exc) → Quiet (or_raise {S = StepState T} o x)
  or_raise-Quiet o x s b e = or_raise-Post (λ a s'. s'.b ≡ b) (λ s'. s'.b ≡ b) o x s (λ a. e) e

  pub request-Quiet : (rid : ℕ) → Quiet (request T rid)
  unfolding request
  request-Quiet rid s b e = or_raise-Quiet (lookup rid s.eng.reqs) key_error s b e

  pub update-Quiet : (rid : ℕ) (r : Request T) → Quiet (update T rid r)
  unfolding update
  update-Quiet rid r s b e = e

  pub import_prefix-Quiet :
      (rid : ℕ) (t : BlockTable) (req : Request T) → Quiet (import_prefix T rid t req)
  unfolding import_prefix
  import_prefix-Quiet rid t req = elim (Option-cases req.prefix_kv) [
    | inl e ↦ rw e (λ s b e'. e')
    | inr (kv, e) ↦ rw e (
        bind-Quiet _ _
          (λ s b e'.
            on_store-Quiet
              (import_contiguous T s.eng.block_size t.block_ids kv.k_shape.tokens kv.k kv.v) s b e')
          (λ _.
            bind-Quiet (on_mgr T (BlockManager.set_num_tokens rid kv.k_shape.tokens)) _
              (on_mgr-Quiet (BlockManager.set_num_tokens rid kv.k_shape.tokens)) (λ _ s b e'. e')))
  ]

  pub try_allocate-Quiet : (rid pl : ℕ) → Quiet (try_allocate T rid pl)
  unfolding try_allocate
  try_allocate-Quiet rid pl = on_mgr-Quiet (λ m. catch (BlockManager.allocate rid pl [] m))

  pub enter-Quiet : (rid : ℕ) (t : BlockTable) (req : Request T) → Quiet (enter T rid t req)
  unfolding enter
  enter-Quiet rid t req = bind-Quiet _ _ (on_mgr-Quiet (BlockManager.set_num_tokens rid 0)) (λ _.
      bind-Quiet _ _ (import_prefix-Quiet rid t req) (λ req'.
        bind-Quiet _ _ (update-Quiet rid (record req' { state = prefilling })) (λ _ s b e. e)))

  pub admit-Quiet : (rid : ℕ) → Quiet (admit T rid)
  unfolding admit
  admit-Quiet rid = bind-Quiet _ _ (request-Quiet rid) (λ req.
      elim (Bool-cases (is_waiting T req.state)) [
        | inr e ↦ rw e (λ s b e'. e')
        | inl e ↦ rw e (
            bind-Quiet _ _ (try_allocate-Quiet rid (length req.prompt_ids)) (λ got.
              elim (Option-cases got) [
                | inl n ↦ rw n (λ s b e'. e')
                | inr (t, n) ↦ rw n (bind-Quiet _ _ (enter-Quiet rid t req) (λ _ s b e'. e'))
              ]))
      ])
