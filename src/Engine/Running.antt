-- ===== src/Engine/Running.antt =====
-- A sequence in flight, and what the operations of the manager and of the prefix cache keep of it.
use di_spec.Prelude.{
  ℕ, ◌+◌, ◌*◌, ◌/◌, ◌%◌, ◌≤◌, ◌<◌, ◌≡◌, ◌≢◌, refl, ap, sym, ◌∙◌, inl, inr, true, ◌&&◌, List, [],
  ◌∷◌, some, arith, length, length-append, ◌==◌, ==→eq, ==→ne, if◌then◌else◌, Bool-cases, Dict,
  lookup, lookup-insert_self, lookup-insert_ne, Outcome, ok, raise, final, or_raise, key_error,
  out_of_blocks, bind_of_ok, subst,
}
use di_spec.BlockManager.{
  BlockManager, BlockTable, num_free_blocks, append_token, block_table, set_num_tokens, set_table,
}
use di_spec.BlockManager.Balance.{IsBalanced-cong}
use di_spec.BlockManager.Invariant.{held-insert, held_of_lookup, with_table, table-IsValid}
use di_spec.BlockManager.Growth.{div_lt, appended, append_token-IsValid}
use di_spec.PrefixCache.{PrefixCache, block_hashes, insert_blocks}
use di_spec.PrefixCache.Pins.{IsSound, register_all-IsSound}
use di_spec.Scheduler.Faults.{append_token_refuses}

-- A sequence in flight: its table has room for its tokens and for the prompt, and the tables of the
-- others are those from before.
pub record IsRunning (before : Dict BlockTable) (sid n : ℕ) (c : PrefixCache) : Type 0 where
  pub sound : IsSound c
  pub table : BlockTable
  pub found : lookup sid c.mgr.tables ≡ some table
  pub prompt_fits : n ≤ length table.block_ids * c.mgr.block_size
  pub fits : table.num_tokens ≤ length table.block_ids * c.mgr.block_size
  pub others : (k : ℕ) → k ≢ sid → lookup k c.mgr.tables ≡ lookup k before

pub more_room : (n l k b : ℕ) → n ≤ l * b → n ≤ (l + k) * b
more_room n l k b h = grind arith

next_fits :
    (n b l k : ℕ) → 0 < b → n ≤ l * b → k ≡ (if n % b == 0 then 1 else 0) → n + 1 ≤ (l + k) * b
next_fits n b l k h le e = elim (Bool-cases (n % b == 0)) [
  | inl full ↦ let one : k ≡ 1 = e ∙ ap (λ c. if c then 1 else 0) full in grind arith
  | inr within ↦
      let below : n / b < l = div_lt n b l h le (==→ne _ 0 within) in
      let below' : n < l * b = grind (arith, below) in
      more_room (n + 1) l k b (omega (arith, below'))
]

none_free : (xs : List ℕ) → (length xs == 0) ≡ true → xs ≡ []
none_free [] h = refl
none_free (x ∷ xs) h = absurd (ground arith)

module _ {before : Dict BlockTable} (sid n : ℕ) where
  pub append-IsRunning :
      (c : PrefixCache)
      → IsRunning before sid n c
      → IsRunning before sid n (record c { mgr = final (append_token sid c.mgr) })
  append-IsRunning c r =
      elim (Bool-cases
        ((r.table.num_tokens % c.mgr.block_size == 0) && (num_free_blocks c.mgr == 0))) [
          | inl stuck ↦
              let same : append_token sid c.mgr ≡ raise out_of_blocks c.mgr =
                append_token_refuses c.mgr sid r.table r.found (==→eq _ 0 (ground arith))
                  (none_free c.mgr.pool.free (ground arith)) in
              subst
                (λ (o : Outcome BlockManager (ℕ × ℕ)).
                  IsRunning before sid n (record c { mgr = final o }))
                (sym same) r
          | inr room ↦
              let (b, fresh, p, e, v, _, l, _, _) =
                append_token-IsValid sid r.table r.sound.pinned r.found r.fits
                  (λ full. ground (arith, room, full)) in
              let t : BlockTable = appended r.table fresh in
              subst
                (λ (o : Outcome BlockManager (ℕ × ℕ)).
                  IsRunning before sid n (record c { mgr = final o }))
                (sym e)
                (record {
                  sound = record { pinned = v; once = r.sound.once };
                  table = t;
                  found = lookup-insert_self sid t c.mgr.tables;
                  prompt_fits = rw (length-append r.table.block_ids fresh) (
                      more_room n (length r.table.block_ids) (length fresh) c.mgr.block_size
                        r.prompt_fits);
                  fits = rw (length-append r.table.block_ids fresh) (
                      next_fits r.table.num_tokens c.mgr.block_size (length r.table.block_ids)
                        (length fresh) r.sound.pinned.positive r.fits l);
                  others = λ k h. lookup-insert_ne k sid t c.mgr.tables h ∙ r.others k h;
                })
        ]

  pub set_num_tokens-IsRunning :
      (c : PrefixCache)
      → IsRunning before sid n c
      → IsRunning before sid n (record c { mgr = final (set_num_tokens sid n c.mgr) })
  unfolding set_num_tokens block_table set_table
  set_num_tokens-IsRunning c r =
      let t : BlockTable = record r.table { num_tokens = n } in
      let e : set_num_tokens sid n c.mgr ≡ ok tt (with_table c.mgr c.mgr.pool sid t) =
        bind_of_ok (block_table sid) _ c.mgr r.table c.mgr
          (ap (λ o. or_raise o key_error c.mgr) r.found) refl in
      subst
        (λ (o : Outcome BlockManager (Unit {0})).
          IsRunning before sid n (record c { mgr = final o }))
        (sym e)
        (record {
          sound = record {
            pinned = table-IsValid sid t r.sound.pinned (
                IsBalanced-cong
                  (λ b. omega (arith, held-insert sid b c.mgr.tables r.table t r.found))
                  r.sound.pinned.balanced);
            once = r.sound.once;
          };
          table = t;
          found = lookup-insert_self sid t c.mgr.tables;
          prompt_fits = r.prompt_fits;
          fits = r.prompt_fits;
          others = λ k h. lookup-insert_ne k sid t c.mgr.tables h ∙ r.others k h;
        })

  pub insert-IsRunning :
      (hash : ℕ → List ℕ → ℕ) (prompt_ids : List ℕ) (c : PrefixCache) (r : IsRunning before sid n c)
      → IsRunning before sid n (final (insert_blocks hash prompt_ids r.table.block_ids c))
  unfolding insert_blocks
  insert-IsRunning hash prompt_ids c r =
      let (c', e, s, k) =
        register_all-IsSound (block_hashes hash c.bs prompt_ids) r.table.block_ids
          (record c { clock = c.clock + 1 })
          (record { pinned = r.sound.pinned; once = r.sound.once })
          (λ b h. omega (arith, h, held_of_lookup sid b c.mgr.tables r.table r.found)) in
      subst (λ (o : Outcome PrefixCache (Unit {0})). IsRunning before sid n (final o)) (sym e)
        (record {
          sound = s;
          table = r.table;
          found = ap (lookup sid) k.tables ∙ r.found;
          prompt_fits = rw k.block_size r.prompt_fits;
          fits = rw k.block_size r.fits;
          others = λ j h. ap (lookup j) k.tables ∙ r.others j h;
        })
