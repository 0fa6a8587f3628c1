-- ===== src/Speculative/Forward.antt =====
-- A pass has the blocks that it needs.
use di_spec.Prelude.{
  ℕ, ◌+◌, ◌≡◌, ◌≤◌, refl, ap, ◌∙◌, List, [], ◌∷◌, ◌++◌, some, arith, length, count,
  length-range_from, range_from, Dict, lookup, insert, lookup-insert_self, insert-insert, M, ok,
  or_raise, index_error, key_error, bind_of_ok, zoom_of_ok,
}
use di_spec.BlockManager.{
  BlockManager, BlockTable, Pool, num_free_blocks, reserve, block_table, set_num_tokens, set_table,
}
use di_spec.BlockManager.Balance.{IsBalanced-cong}
use di_spec.BlockManager.Invariant.{IsValid, held, with_table, table-IsValid}
use di_spec.BlockManager.Reserving.{extra_blocks, extended, reserve-IsValid}
use di_spec.PagedCache.{Tensors, slots_for_positions}
use di_spec.PagedCache.Slots.{slots_total, count-range_from}
use di_spec.Scheduler.{Runner}
use di_spec.Speculative.{Cache, on_mgr, run_model, forward}

-- The length of a table does not matter to who holds which block.
held-insert_cong :
    (k : ℕ) (t u : BlockTable) (d : Dict BlockTable) (b : ℕ)
    → t.block_ids ≡ u.block_ids
    → held (insert k t d) b ≡ held (insert k u d) b
unfolding held insert
held-insert_cong k t u [] b e = ap (λ ids. count b ids + 0) e
held-insert_cong k t u ((j, w) ∷ d) b e =
    ground (arith, ap (count b) e, held-insert_cong k t u d b e)

with_table-cong :
    {pins : ℕ → ℕ} {m : BlockManager} {p : Pool} (k : ℕ) (t u : BlockTable)
    → t.block_ids ≡ u.block_ids
    → IsValid pins m
    → IsValid pins (with_table m p k t)
    → IsValid pins (with_table m p k u)
with_table-cong {pins = pins} {m = m} k t u e v w =
    table-IsValid k u v
      (IsBalanced-cong (λ b. ap (λ n. n + pins b) (held-insert_cong k t u m.tables b e)) w.balanced)

-- The table that a pass leaves.
abbrev pub passed : BlockTable → List ℕ → ℕ → BlockTable
passed t fresh n = record { block_ids = t.block_ids ++ fresh; num_tokens = n }

-- Writing the length of a table that was just written.
pub set_num_tokens_lem :
    (k n : ℕ) (t : BlockTable) (p : Pool) (m : BlockManager)
    → set_num_tokens k n (with_table m p k t)
      ≡ ok tt (with_table m p k (record t { num_tokens = n }))
unfolding set_num_tokens block_table set_table
set_num_tokens_lem k n t p m =
    bind_of_ok (block_table k) _ (with_table m p k t) t (with_table m p k t)
      (ap (λ o. or_raise o key_error (with_table m p k t)) (lookup-insert_self k t m.tables))
      (ap (λ d. ok tt (record m { pool = p; tables = d }))
        (insert-insert k t (record t { num_tokens = n }) m.tables))

module _ (T : Tensors) (R : Runner T) where
  open R use {Hidden, Logits, logits}

  pub on_mgr_of_ok {κ} :
      {A : Type κ} (m : M BlockManager A) (c : Cache T) (a : A) (m' : BlockManager)
      → m c.mgr ≡ ok a m'
      → on_mgr T m c ≡ ok a (record c { mgr = m' })
  on_mgr_of_ok m c a m' e = zoom_of_ok (λ c. c.mgr) (λ c m. record c { mgr = m }) m c a m' e

  -- The pass, once the blocks are reserved.
  forward_reserved :
      (c : Cache T) (sid start_pos : ℕ) (tokens fresh slots : List ℕ) (t : BlockTable) (p : Pool)
      → lookup sid c.mgr.tables ≡ some t
      → reserve sid (start_pos + length tokens) t.num_tokens c.mgr
        ≡ ok tt (with_table c.mgr p sid (extended t fresh))
      → slots_for_positions c.mgr.block_size
          (t.block_ids ++ fresh)
          (range_from start_pos (length tokens))
        ≡ some slots
      → forward T R sid tokens start_pos c
        ≡ run_model T R tokens
            (range_from start_pos (length tokens))
            slots
            (record {
              block_ids = t.block_ids ++ fresh;
              q_len = length tokens;
              ctx_len = start_pos + length tokens;
            })
            (record c { mgr = with_table c.mgr p sid (passed t fresh (start_pos + length tokens)) })
  unfolding forward block_table set_num_tokens set_table
  forward_reserved c sid start_pos tokens fresh slots t p l r s =
      let n : ℕ = length tokens in
      let m₁ : BlockManager = with_table c.mgr p sid (extended t fresh) in
      let found = lookup-insert_self sid (extended t fresh) c.mgr.tables in
      let m₂ : BlockManager = with_table c.mgr p sid (passed t fresh (start_pos + n)) in
      let c₁ : Cache T = record c { mgr = m₁ } in
      let written : set_num_tokens sid (start_pos + n) m₁ ≡ ok tt m₂ =
        set_num_tokens_lem sid (start_pos + n) (extended t fresh) p c.mgr in
      bind_of_ok (on_mgr T (block_table sid)) _ c t c
        (on_mgr_of_ok (block_table sid) c t c.mgr (ap (λ o. or_raise o key_error c.mgr) l))
        (bind_of_ok (on_mgr T (reserve sid (start_pos + n) t.num_tokens)) _ c tt c₁
          (on_mgr_of_ok (reserve sid (start_pos + n) t.num_tokens) c tt m₁ r)
          (bind_of_ok (on_mgr T (block_table sid)) _ c₁ (extended t fresh) c₁
            (on_mgr_of_ok (block_table sid) c₁ (extended t fresh) m₁
              (ap (λ o. or_raise o key_error m₁) found))
            (bind_of_ok
              (or_raise
                (slots_for_positions c.mgr.block_size (t.block_ids ++ fresh)
                  (range_from start_pos n))
                index_error)
              _ c₁ slots c₁ (ap (λ o. or_raise o index_error c₁) s)
              (bind_of_ok (on_mgr T (set_num_tokens sid (start_pos + n))) _ c₁ tt
                (record c { mgr = m₂ })
                (on_mgr_of_ok (set_num_tokens sid (start_pos + n)) c₁ tt m₂ written) refl))))

  -- With enough free blocks `_forward` does not fail, wherever the pass starts inside or behind the
  -- stored tokens: every position gets a slot, the model runs once on all of them, the sequence has
  -- `start_pos + n` tokens, the other sequences stay as they are, and the manager stays valid.
  pub forward-IsValid :
      {pins : ℕ → ℕ} (c : Cache T) (sid start_pos : ℕ) (tokens : List ℕ) (t : BlockTable)
      → IsValid pins c.mgr
      → lookup sid c.mgr.tables ≡ some t
      → extra_blocks c.mgr t (start_pos + length tokens) t.num_tokens ≤ num_free_blocks c.mgr
      → (fresh : List ℕ) × (slots : List ℕ) × (p : Pool) × (forward T R sid tokens start_pos c
          ≡ run_model T R tokens
              (range_from start_pos (length tokens))
              slots
              (record {
                block_ids = t.block_ids ++ fresh;
                q_len = length tokens;
                ctx_len = start_pos + length tokens;
              })
              (record c {
                mgr = with_table c.mgr p sid (passed t fresh (start_pos + length tokens));
              }))
        × IsValid pins (with_table c.mgr p sid (passed t fresh (start_pos + length tokens)))
        × (slots_for_positions c.mgr.block_size
              (t.block_ids ++ fresh)
              (range_from start_pos (length tokens))
            ≡ some slots)
        × (length slots ≡ length tokens)
  forward-IsValid c sid start_pos tokens t v l enough =
      let n : ℕ = length tokens in
      let (fresh, p, e, w, _, room, _) =
        reserve-IsValid sid t v l (start_pos + n) t.num_tokens enough in
      let (slots, s, len) =
        slots_total c.mgr.block_size (t.block_ids ++ fresh) (range_from start_pos n) v.positive
          (λ q m. ground (arith, count-range_from q start_pos n, room)) in
      (
        fresh,
        slots,
        p,
        forward_reserved c sid start_pos tokens fresh slots t p l e s,
        with_table-cong sid (extended t fresh) (passed t fresh (start_pos + n)) refl v w,
        s,
        len ∙ length-range_from start_pos n,
      )
