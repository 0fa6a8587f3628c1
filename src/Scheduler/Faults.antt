-- ===== src/Scheduler/Faults.antt =====
-- What a step does when the block pool is empty.
use di_spec.Prelude.{
  ℕ, ◌≡◌, ◌≤◌, ◌<◌, ◌%◌, refl, ap, ◌∙◌, true, false, List, [], ◌∷◌, ◌++◌, none, some, arith, length,
  ltb, lookup, has, ok, raise, out_of_blocks, catch,
}
use di_spec.BlockManager.{
  BlockManager, BlockTable, num_free_blocks, blocks_needed, append_token, allocate, block_table,
  grow, alloc_block,
}
use di_spec.BlockManager.Growth.{allocate_refuses}
use di_spec.PagedCache.{Tensors}
use di_spec.Scheduler.{waiting, Request, Runner, Engine}
use di_spec.Scheduler.Step.{
  StepState, empty_batch, request, decode_one, decode_loop, try_allocate, admit, prefill_loop,
  build, sorted_waiting,
}
use di_spec.Scheduler.Finish.{step, run_batch, has_work}

-- `append_token` at a block boundary, with no free block, raises and changes nothing.
pub append_token_refuses :
    (m : BlockManager) (seq_id : ℕ) (t : BlockTable)
    → lookup seq_id m.tables ≡ some t
    → t.num_tokens % m.block_size ≡ 0
    → m.pool.free ≡ []
    → append_token seq_id m ≡ raise out_of_blocks m
unfolding append_token block_table grow alloc_block
append_token_refuses m seq_id t e b f = ground (arith, e, b, f)

module _ (T : Tensors) (R : Runner T) (e : Engine T) (room : 1 ≤ e.max_batch_tokens) where
  abbrev start : StepState T
  start = record { eng = e; b = empty_batch e.max_batch_tokens }

  decode_one_refuses :
      (rid : ℕ) (r : Request T) (t : BlockTable)
      → lookup rid e.reqs ≡ some r
      → lookup rid e.mgr.tables ≡ some t
      → append_token rid e.mgr ≡ raise out_of_blocks e.mgr
      → decode_one T rid start ≡ raise out_of_blocks start
  unfolding decode_one request block_table lookup append_token
  decode_one_refuses rid r t q l a = rw (q, l, a) refl

  decode_loop_refuses :
      (rid : ℕ) (rest : List ℕ)
      → decode_one T rid start ≡ raise out_of_blocks start
      → decode_loop T (rid ∷ rest) start ≡ raise out_of_blocks start
  unfolding decode_loop decode_one request lookup
  decode_loop_refuses rid rest d =
      let within : ltb e.max_batch_tokens 1 ≡ false = ground arith in
      rw (decode_loop, within, d) refl

  -- When the first running request needs a block and none is free, `step` raises and leaves the
  -- engine as it was: nothing is preempted or evicted, and the next call raises again.
  pub step_exhausted :
      (rid : ℕ) (rest : List ℕ) (r : Request T) (t : BlockTable)
      → e.running_ids ≡ rid ∷ rest
      → lookup rid e.reqs ≡ some r
      → lookup rid e.mgr.tables ≡ some t
      → t.num_tokens % e.mgr.block_size ≡ 0
      → e.mgr.pool.free ≡ []
      → step T R e ≡ raise out_of_blocks e
  unfolding step build
  step_exhausted rid rest r t h q l b f =
      let d : decode_loop T e.running_ids start ≡ raise out_of_blocks start =
        ap (λ rids. decode_loop T rids start) h
        ∙ decode_loop_refuses rid rest
            (decode_one_refuses rid r t q l (append_token_refuses e.mgr rid t l b f)) in
      rw (step, build, d) refl

  -- The state in which the prefill loop starts when nothing was decoded.
  abbrev queued : List ℕ → StepState T
  queued ids = record start { eng = record e { waiting_ids = ids } }

  try_allocate_refuses :
      (rid pl : ℕ) (ids : List ℕ)
      → allocate rid pl [] e.mgr ≡ raise out_of_blocks e.mgr
      → try_allocate T rid pl (queued ids) ≡ ok none (queued ids)
  unfolding try_allocate catch allocate has
  try_allocate_refuses rid pl ids a = rw a refl

  admit_refuses :
      (rid : ℕ) (ids : List ℕ) (r : Request T)
      → lookup rid e.reqs ≡ some r
      → r.state ≡ waiting
      → try_allocate T rid (length r.prompt_ids) (queued ids) ≡ ok none (queued ids)
      → admit T rid (queued ids) ≡ ok false (queued ids)
  unfolding admit request lookup try_allocate catch allocate has
  admit_refuses rid ids r q st a = rw (q, st, a) refl

  prefill_loop_refuses :
      (rid : ℕ) (rest ids : List ℕ)
      → admit T rid (queued ids) ≡ ok false (queued ids)
      → prefill_loop T (rid ∷ rest) (queued ids) ≡ ok tt (queued ids)
  unfolding prefill_loop admit request lookup
  prefill_loop_refuses rid rest ids a =
      let within : ltb e.max_batch_tokens 1 ≡ false = ground arith in
      rw (prefill_loop, within, a) refl

  -- When the waiting request that is first in order does not fit in the free blocks and nothing
  -- else is under way, `step` admits nothing: it returns with the queue sorted and all else
  -- as it was, whatever requests wait behind.
  pub step_blocked :
      (rid : ℕ) (rest : List ℕ) (r : Request T)
      → e.running_ids ≡ []
      → e.prefilling_ids ≡ []
      → sorted_waiting T e ≡ rid ∷ rest
      → lookup rid e.reqs ≡ some r
      → r.state ≡ waiting
      → has rid e.mgr.tables ≡ false
      → num_free_blocks e.mgr < blocks_needed e.mgr.block_size (length r.prompt_ids)
      → (step T R e ≡ ok tt (record e { waiting_ids = rid ∷ rest }))
        × (has_work T R (record e { waiting_ids = rid ∷ rest }) ≡ true)
  unfolding step build decode_loop run_batch has_work
  step_blocked rid rest r no_running no_prefilling w q st new full =
      let a = (allocate_refuses e.mgr rid (length r.prompt_ids) []).1 new (omega arith) in
      let p : prefill_loop T (rid ∷ rest) (queued (rid ∷ rest)) ≡ ok tt (queued (rid ∷ rest)) =
        prefill_loop_refuses rid rest (rid ∷ rest) (
          admit_refuses rid (rid ∷ rest) r q st
            (try_allocate_refuses rid (length r.prompt_ids) (rid ∷ rest) a)) in
      let d : decode_loop T e.running_ids start ≡ ok tt start =
        ap (λ rids. decode_loop T rids start) no_running in
      let sorted : prefill_loop T (e.prefilling_ids ++ sorted_waiting T e)
            (queued (sorted_waiting T e))
          ≡ ok tt (queued (rid ∷ rest)) =
        ap (λ ps. prefill_loop T (ps ++ sorted_waiting T e) (queued (sorted_waiting T e)))
          no_prefilling
        ∙ (ap (λ ids. prefill_loop T ids (queued ids)) w ∙ p) in
      (rw (step, build, d, sorted) refl, ground arith)
