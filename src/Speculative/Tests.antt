-- ===== src/Speculative/Tests.antt =====
-- A pass of three tokens over the manager of the block manager's tests.
use di_spec.Prelude.{
  ℕ, ◌+◌, ◌≡◌, refl, List, [], ◌∷◌, ◌++◌, some, arith, length, map, range_from, lookup,
}
use di_spec.BlockManager.{Pool, blocks_needed}
use di_spec.BlockManager.Tests.{two, seven, two-IsValid}
use di_spec.BlockManager.Exclusive.{no_pins}
use di_spec.BlockManager.Invariant.{IsValid, with_table}
use di_spec.PagedCache.{slots_for_positions}
use di_spec.PagedCache.Tests.{table, blank}
use di_spec.Scheduler.{Runner}
use di_spec.Speculative.{Cache, run_model, forward}
use di_spec.Speculative.Forward.{passed, forward-IsValid}

abbrev model : Runner table
model = record {
  Hidden = ℕ;
  Logits = ℕ;
  forward = λ tokens positions slots metas store. (positions, store);
  logits = map (λ h. h + 1);
  sample = λ rows params. rows;
}

abbrev cache : Cache table
cache = record { mgr = two; store = blank }

abbrev tokens : List ℕ
tokens = 9 ∷ 8 ∷ 7 ∷ []

forward-IsValid_example :
    (fresh : List ℕ) × (slots : List ℕ) × (p : Pool) × (forward table model 7 tokens 3 cache
      ≡ run_model table model tokens
          (range_from 3 (length tokens))
          slots
          (record {
            block_ids = seven.block_ids ++ fresh;
            q_len = length tokens;
            ctx_len = 3 + length tokens;
          })
          (record cache {
            mgr = with_table cache.mgr p 7 (passed seven fresh (3 + length tokens));
          }))
    × IsValid no_pins (with_table cache.mgr p 7 (passed seven fresh (3 + length tokens)))
    × (slots_for_positions cache.mgr.block_size
          (seven.block_ids ++ fresh)
          (range_from 3 (length tokens))
        ≡ some slots)
    × (length slots ≡ length tokens)
unfolding lookup blocks_needed
forward-IsValid_example =
    forward-IsValid table model cache 7 3 tokens seven two-IsValid refl (omega arith)
