-- ===== src/BlockManager/Tests.antt =====
-- A manager with two sequences, and the block manager's theorems at it.
use di_spec.Prelude.{
  ℕ, ◌+◌, ◌-◌, ◌*◌, ◌/◌, ◌%◌, ◌≡◌, ◌≤◌, ◌<◌, refl, List, [], ◌∷◌, ◌++◌, none, some, arith, length,
  count, hit, ◌==◌, if◌then◌else◌, lookup, insert, remove, has, get_elem?, ok, raise, out_of_blocks,
  value_error,
}
use di_spec.BlockManager.{
  BlockTable, Pool, BlockManager, num_free_blocks, blocks_needed, allocate, adopt, extend,
  block_table, set_table, incref_all, decref_all, alloc_blocks, alloc_block, decref, incref,
  append_token, reserve, truncate, free, fork, add_ref,
}
use di_spec.BlockManager.Balance.{IsBalanced, refs}
use di_spec.BlockManager.Invariant.{IsValid, held, with_table}
use di_spec.BlockManager.Growth.{adopted, appended, allocate-IsValid, append_token-IsValid}
use di_spec.BlockManager.Reserving.{extra_blocks, extended, reserve-IsValid}
use di_spec.BlockManager.Release.{
  truncated, without, truncate-IsValid, free-IsValid, free-allocate, add_ref-IsValid,
}
use di_spec.BlockManager.Forking.{fork-IsValid, free_each, fork_leaks, fork_aliases}
use di_spec.BlockManager.Exclusive.{no_pins, IsExclusive, append_token-IsExclusive}

-- Blocks of two tokens: sequence 7 has three tokens, sequence 8 has two.
abbrev pub seven : BlockTable
seven = record { block_ids = 3 ∷ 2 ∷ []; num_tokens = 3 }

abbrev pub eight : BlockTable
eight = record { block_ids = 1 ∷ []; num_tokens = 2 }

abbrev pub two : BlockManager
two = record {
  num_blocks = 4;
  block_size = 2;
  pool = record { free = 0 ∷ []; ref_count = (3, 1) ∷ (2, 1) ∷ (1, 1) ∷ [] };
  tables = (7, seven) ∷ (8, eight) ∷ [];
}

abbrev none_reused : List ℕ
none_reused = []

-- What the calls below return.
runs :
    (allocate 9 2 [] two
      ≡ ok (adopted 2 [] (0 ∷ [])) (
          with_table two
            (record { free = []; ref_count = (3, 1) ∷ (2, 1) ∷ (1, 1) ∷ (0, 1) ∷ [] })
            9
            (adopted 2 [] (0 ∷ []))))
    × (allocate 9 3 [] two ≡ raise out_of_blocks two)
    × (allocate 8 1 [] two ≡ raise value_error two)
    × (truncate 7 1 two
        ≡ ok tt (
            with_table two
              (record { free = 2 ∷ 0 ∷ []; ref_count = (3, 1) ∷ (1, 1) ∷ [] })
              7
              (record { block_ids = 3 ∷ []; num_tokens = 1 })))
    × (reserve 7 3 0 two ≡ reserve 7 4 1 two)
unfolding allocate adopt truncate reserve extend blocks_needed block_table set_table incref_all
    decref_all alloc_blocks alloc_block decref incref lookup insert remove has
runs = (refl, refl, refl, refl, refl)

two-IsBalanced : IsBalanced 4 (λ b. held two.tables b + no_pins b) two.pool
unfolding held lookup count
two-IsBalanced = record {
  counted = λ b. ground arith;
  stored = λ b. ground arith;
  conserved = λ b. ground arith;
  once = λ b. ground arith;
}

pub two-IsValid : IsValid no_pins two
unfolding count
two-IsValid = record { positive = omega arith; balanced = two-IsBalanced; once = λ b. ground arith }

pub two-IsExclusive : IsExclusive two
unfolding held count
two-IsExclusive b = ground arith

allocate-IsValid_example :
    (new : List ℕ) × (p : Pool) × (allocate 9 2 none_reused two
      ≡ ok (adopted 2 none_reused new) (with_table two p 9 (adopted 2 none_reused new)))
    × IsValid no_pins (with_table two p 9 (adopted 2 none_reused new))
    × (length new ≡ blocks_needed two.block_size 2 - length none_reused)
    × (length p.free + (blocks_needed two.block_size 2 - length none_reused) ≡ num_free_blocks two)
    × ((c : ℕ) → 0 < count c new → (count c new ≡ 1) × (held two.tables c + no_pins c ≡ 0))
unfolding lookup count blocks_needed
allocate-IsValid_example =
    allocate-IsValid 9 2 none_reused two-IsValid refl (λ c h. omega arith) (omega arith)

append_token-IsValid_example :
    (b : ℕ) × (fresh : List ℕ) × (p : Pool) × (append_token 7 two
      ≡ ok (b, seven.num_tokens % two.block_size) (with_table two p 7 (appended seven fresh)))
    × IsValid no_pins (with_table two p 7 (appended seven fresh))
    × (get_elem? (seven.block_ids ++ fresh) (seven.num_tokens / two.block_size) ≡ some b)
    × (length fresh ≡ (if seven.num_tokens % two.block_size == 0 then 1 else 0))
    × (length p.free + length fresh ≡ num_free_blocks two)
    × ((c : ℕ) → 0 < count c fresh → (count c fresh ≡ 1) × (held two.tables c + no_pins c ≡ 0))
unfolding lookup
append_token-IsValid_example =
    append_token-IsValid 7 seven two-IsValid refl (omega arith) (λ h. omega arith)

reserve-IsValid_example :
    (fresh : List ℕ) × (p : Pool) × (reserve 7 3 0 two
      ≡ ok tt (with_table two p 7 (extended seven fresh)))
    × IsValid no_pins (with_table two p 7 (extended seven fresh))
    × (length fresh ≡ extra_blocks two seven 3 0)
    × (3 + seven.num_tokens ≤ length (seven.block_ids ++ fresh) * two.block_size + 0)
    × (length p.free + length fresh ≡ num_free_blocks two)
unfolding lookup blocks_needed
reserve-IsValid_example = reserve-IsValid 7 seven two-IsValid refl 3 0 (omega arith)

truncate-IsValid_example :
    (p : Pool) × (truncate 7 1 two ≡ ok tt (with_table two p 7 (truncated two seven 1)))
    × IsValid no_pins (with_table two p 7 (truncated two seven 1))
unfolding lookup
truncate-IsValid_example = truncate-IsValid 7 seven 1 two-IsValid refl

free-IsValid_example :
    (p : Pool) × (free 7 two ≡ ok tt (without two p 7))
    × IsValid no_pins (without two p 7)
    × (lookup 7 (without two p 7).tables ≡ none)
unfolding lookup
free-IsValid_example = free-IsValid 7 seven two-IsValid refl

free-allocate_example :
    (t : BlockTable) × (m₁ : BlockManager) × (p : Pool) × (allocate 9 2 none_reused two ≡ ok t m₁)
    × (free 9 m₁ ≡ ok tt (record two { pool = p }))
    × ((b : ℕ) → count b p.free ≡ count b two.pool.free)
    × ((b : ℕ) → refs p.ref_count b ≡ refs two.pool.ref_count b)
unfolding lookup count blocks_needed
free-allocate_example =
    free-allocate 9 2 none_reused two-IsValid refl (λ c h. omega arith) (omega arith)

add_ref-IsValid_example :
    (p : Pool) × (add_ref 3 two ≡ ok tt (record two { pool = p }))
    × IsValid (λ c. no_pins c + hit c 3) (record two { pool = p })
    × (p.free ≡ two.pool.free)
unfolding held count
add_ref-IsValid_example = add_ref-IsValid 3 two-IsValid (omega arith)

fork-IsValid_example :
    (p : Pool) × (fork 7 9 two ≡ ok seven (with_table two p 9 seven))
    × IsValid no_pins (with_table two p 9 seven)
    × (p.free ≡ two.pool.free)
unfolding lookup
fork-IsValid_example = fork-IsValid 7 9 seven two-IsValid refl refl

fork_leaks_example :
    (m' : BlockManager) × (fork 7 8 two ≡ ok seven m')
    × (¬ IsValid no_pins m')
    × IsValid (λ c. no_pins c + count c eight.block_ids) m'
    × ((ids : List ℕ)
        → (m'' : BlockManager) × (free_each ids m' ≡ ok tt m'')
          × ((c : ℕ) → 0 < count c eight.block_ids → count c m''.pool.free ≡ 0))
unfolding lookup
fork_leaks_example = fork_leaks 7 8 seven eight 1 [] two-IsValid refl refl refl

fork_aliases_example :
    (b : ℕ) × (m₁ : BlockManager) × (m₂ : BlockManager) × (m₃ : BlockManager) × (fork 7 9 two
      ≡ ok seven m₁)
    × (append_token 7 m₁ ≡ ok (b, seven.num_tokens % two.block_size) m₂)
    × (append_token 9 m₂ ≡ ok (b, seven.num_tokens % two.block_size) m₃)
unfolding lookup
fork_aliases_example = fork_aliases 7 9 seven two-IsValid refl refl (omega arith) (omega arith)

append_token-IsExclusive_example :
    (b : ℕ) × (fresh : List ℕ) × (p : Pool) × (append_token 7 two
      ≡ ok (b, seven.num_tokens % two.block_size) (with_table two p 7 (appended seven fresh)))
    × IsValid no_pins (with_table two p 7 (appended seven fresh))
    × IsExclusive (with_table two p 7 (appended seven fresh))
unfolding lookup
append_token-IsExclusive_example =
    append_token-IsExclusive 7 seven two-IsValid two-IsExclusive refl (omega arith)
      (λ h. omega arith)
