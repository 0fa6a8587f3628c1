-- ===== src/Workers/Prefilling.antt =====
-- The prefill of a new sequence on a valid manager with room.
use di_spec.Prelude.{
  ℕ, ◌-◌, ◌*◌, ◌≤◌, ◌≡◌, refl, ap, List, [], ◌∷◌, none, arith, length, count, range_from, lookup,
  ok, or_raise, index_error, bind_of_ok,
}
use di_spec.BlockManager.{
  BlockManager, BlockTable, Pool, num_free_blocks, blocks_needed, allocate, set_num_tokens,
}
use di_spec.BlockManager.Invariant.{IsValid, with_table}
use di_spec.BlockManager.Growth.{adopted, allocate-IsValid}
use di_spec.BlockManager.Reserving.{blocks_needed_bounds}
use di_spec.PagedCache.{Tensors, KvStore, context_slots, slots_for_positions}
use di_spec.PagedCache.Slots.{slots_total, count-range_from}
use di_spec.Scheduler.{Runner}
use di_spec.Speculative.{Cache, on_mgr}
use di_spec.Speculative.Forward.{set_num_tokens_lem, on_mgr_of_ok}
use di_spec.Workers.{prefill, run_forward}

covers : (bs n l k : ℕ) → l ≡ k - 0 → n ≤ k * bs → n ≤ l * bs
covers bs n l k e h = let same : l ≡ k = omega (arith, e) in rw same h

module _ (T : Tensors) (R : Runner T) where
  pub prefill-IsValid :
      {pins : ℕ → ℕ} (c : Cache T) (sid : ℕ) (prompt_ids : List ℕ)
      → IsValid pins c.mgr
      → lookup sid c.mgr.tables ≡ none
      → blocks_needed c.mgr.block_size (length prompt_ids) ≤ num_free_blocks c.mgr
      → (t : BlockTable) × (hidden : List R.Hidden) × (p : Pool) × (store : KvStore T) × (prefill T
            R sid prompt_ids c
          ≡ ok (t, hidden) (record { mgr = with_table c.mgr p sid t; store = store }))
        × IsValid pins (with_table c.mgr p sid t)
        × (length prompt_ids ≤ length t.block_ids * c.mgr.block_size)
  unfolding prefill run_forward context_slots count
  prefill-IsValid c sid prompt_ids v new_id room =
      let n : ℕ = length prompt_ids in
      let (new, p, e, w, len, _, _) =
        allocate-IsValid sid n [] v new_id (λ b h. absurd (omega (arith, h)))
          (omega (arith, room)) in
      let t : BlockTable = adopted n [] new in
      let m₁ : BlockManager = with_table c.mgr p sid t in
      let c₁ : Cache T = record c { mgr = m₁ } in
      let fits : n ≤ length new * c.mgr.block_size =
        covers c.mgr.block_size n (length new) (blocks_needed c.mgr.block_size n) len
          (blocks_needed_bounds c.mgr.block_size n v.positive).0 in
      let (slots, s, _) =
        slots_total c.mgr.block_size new (range_from 0 n) v.positive
          (λ q m. ground (arith, count-range_from q 0 n, fits)) in
      let ran =
        R.forward prompt_ids (range_from 0 n) slots
          (record { block_ids = new; q_len = n; ctx_len = n } ∷ []) c.store in
      (
        t,
        ran.0,
        p,
        ran.1,
        bind_of_ok (on_mgr T (allocate sid n [])) _ c t c₁
            (on_mgr_of_ok T R (allocate sid n []) c t m₁ e)
            (bind_of_ok
              (or_raise (slots_for_positions c.mgr.block_size new (range_from 0 n)) index_error) _
              c₁ slots c₁ (ap (λ o. or_raise o index_error c₁) s)
              (bind_of_ok (on_mgr T (set_num_tokens sid n)) _ c₁ tt c₁
                (on_mgr_of_ok T R (set_num_tokens sid n) c₁ tt m₁
                  (set_num_tokens_lem sid n t p c.mgr))
                refl)),
        w,
        fits,
      )
