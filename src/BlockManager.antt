-- ===== src/BlockManager.antt =====
-- dispec/kv/block_manager.py. The free list is kept with its end first, so that `pop` and `append`
-- work at its head. `_free` and `_ref_count` stand in a record of their own, `Pool`.
pub mod Balance
pub mod Pooling
pub mod Invariant
pub mod Release
pub mod Growth
pub mod Reserving
pub mod Exclusive
pub mod Forking
pub mod Tests
use di_spec.Prelude.{
  ℕ, zero, suc, ◌+◌, ◌-◌, ◌*◌, ◌/◌, ◌%◌, List, [], ◌∷◌, ◌++◌, Option, none, some, Bool, length,
  take, drop, get_elem?, ltb, ◌==◌, if◌then◌else◌, Dict, lookup, insert, remove, has, M, Outcome,
  ok, raise, ◌>>=◌, ◌>>◌, ret, fail, or_raise, zoom, Exc, out_of_blocks, value_error, key_error,
  index_error,
}

pub record BlockTable : Type 0 where
  pub block_ids : List ℕ
  pub num_tokens : ℕ

pub record Pool : Type 0 where
  pub free : List ℕ
  pub ref_count : Dict ℕ

pub record BlockManager : Type 0 where
  pub num_blocks : ℕ
  pub block_size : ℕ
  pub pool : Pool
  pub tables : Dict BlockTable

-- `list(range(n))`, its end first.
unfoldable pub all_blocks : ℕ → List ℕ
all_blocks zero = []
all_blocks (suc n) = n ∷ all_blocks n

unfoldable pub init : ℕ → ℕ → BlockManager
init num_blocks block_size = record {
  num_blocks = num_blocks;
  block_size = block_size;
  pool = record { free = all_blocks num_blocks; ref_count = [] };
  tables = [];
}

-- `BlockTable.slot`
unfoldable pub slot : BlockTable → ℕ → ℕ → M BlockManager (ℕ × ℕ)
slot t block_size token_pos = do
  b ← or_raise (get_elem? t.block_ids (token_pos / block_size)) index_error
  ret (b, token_pos % block_size)

abbrev pub num_free_blocks : BlockManager → ℕ
num_free_blocks m = length m.pool.free

unfoldable pub blocks_needed : ℕ → ℕ → ℕ
blocks_needed block_size num_tokens = (num_tokens + block_size - 1) / block_size

unfoldable pub has_table : ℕ → BlockManager → Bool
has_table seq_id m = has seq_id m.tables

unfoldable pub block_table : ℕ → M BlockManager BlockTable
block_table seq_id m = or_raise (lookup seq_id m.tables) key_error m

-- `self._ref_count[b] += 1`
unfoldable pub incref : ℕ → M Pool (Unit {0})
incref b p = elim (lookup b p.ref_count) [
  | none ↦ raise key_error p
  | some k ↦ ok tt (record p { ref_count = insert b (k + 1) p.ref_count })
]

-- `self._ref_count[b] -= 1`, and the block's return to the pool when that gives 0. (No count that
-- is stored is 0, so the subtraction does not stop.)
unfoldable pub decref : ℕ → M Pool (Unit {0})
decref b p = elim (lookup b p.ref_count) [
  | none ↦ raise key_error p
  | some k ↦
      if k == 1
      then ok tt (record p { free = b ∷ p.free; ref_count = remove b p.ref_count })
      else ok tt (record p { ref_count = insert b (k - 1) p.ref_count })
]

-- `_alloc_block`
unfoldable pub alloc_block : M Pool ℕ
alloc_block p = elim p.free [
  | [] ↦ raise out_of_blocks p
  | b ∷ rest ↦ ok b (record p { free = rest; ref_count = insert b 1 p.ref_count })
]

-- `[self._alloc_block() for _ in range(n)]`
unfoldable pub alloc_blocks : ℕ → M Pool (List ℕ)
alloc_blocks zero = ret []
alloc_blocks (suc n) = do b ← alloc_block; bs ← alloc_blocks n; ret (b ∷ bs)

unfoldable pub incref_all : List ℕ → M Pool (Unit {0})
incref_all [] = ret tt
incref_all (b ∷ bs) = do incref b; incref_all bs

unfoldable pub decref_all : List ℕ → M Pool (Unit {0})
decref_all [] = ret tt
decref_all (b ∷ bs) = do decref b; decref_all bs

abbrev pub on_pool {ℓ} : {A : Type ℓ} → M Pool A → M BlockManager A
on_pool = zoom (λ m. m.pool) (λ m p. record m { pool = p })

-- `self._tables[seq_id] = t`
unfoldable pub set_table : ℕ → BlockTable → M BlockManager (Unit {0})
set_table seq_id t m = ok tt (record m { tables = insert seq_id t m.tables })

-- The assignment `table.num_tokens = n` of a caller, through the table that the manager shares.
unfoldable pub set_num_tokens : ℕ → ℕ → M BlockManager (Unit {0})
set_num_tokens seq_id n = do t ← block_table seq_id; set_table seq_id (record t { num_tokens = n })

-- The part of `allocate` below its two guards.
unfoldable pub adopt : ℕ → ℕ → List ℕ → ℕ → M BlockManager BlockTable
adopt seq_id num_tokens reuse n_new = do
  on_pool (incref_all reuse)
  new ← on_pool (alloc_blocks n_new)
  let t : BlockTable = record { block_ids = reuse ++ new; num_tokens = num_tokens }
  set_table seq_id t
  ret t

-- `n_new` may be negative in the source: then its test fails and its range is empty, as at 0.
unfoldable pub allocate : ℕ → ℕ → List ℕ → M BlockManager BlockTable
allocate seq_id num_tokens reuse m =
    let n_new : ℕ = blocks_needed m.block_size num_tokens - length reuse in
    if has seq_id m.tables
    then raise value_error m
    else if ltb (num_free_blocks m) n_new
    then raise out_of_blocks m
    else adopt seq_id num_tokens reuse n_new m

unfoldable pub add_ref : ℕ → M BlockManager (Unit {0})
add_ref block_id = on_pool (incref block_id)

unfoldable pub release : ℕ → M BlockManager (Unit {0})
release block_id = on_pool (decref block_id)

-- The fresh block of `append_token`, and the table with it.
unfoldable pub grow : ℕ → BlockTable → M BlockManager BlockTable
grow seq_id t m =
    if t.num_tokens % m.block_size == 0
    then (do
      b ← on_pool alloc_block
      let t' : BlockTable = record t { block_ids = t.block_ids ++ b ∷ [] }
      set_table seq_id t'
      ret t')
        m
    else ok t m

unfoldable pub append_token : ℕ → M BlockManager (ℕ × ℕ)
append_token seq_id m =
    (do
      t ← block_table seq_id
      t' ← grow seq_id t
      s ← slot t' m.block_size t'.num_tokens
      set_table seq_id (record t' { num_tokens = t'.num_tokens + 1 })
      ret s)
      m

-- The part of `reserve` below its guards: `table.block_ids.extend(…)`.
unfoldable pub extend : ℕ → BlockTable → ℕ → M BlockManager (Unit {0})
extend seq_id t extra = do
  new ← on_pool (alloc_blocks extra)
  set_table seq_id (record t { block_ids = t.block_ids ++ new })

-- `reserve(seq_id, num_new - less)`: the argument is an integer, written as a difference, and so is
-- `have`. The comparison `num_new_tokens > have` and `num_new_tokens - have` are brought to sums.
unfoldable pub reserve : ℕ → ℕ → ℕ → M BlockManager (Unit {0})
reserve seq_id num_new less m =
    (do
      t ← block_table seq_id
      let have : ℕ = length t.block_ids * m.block_size + less
      let want : ℕ = num_new + t.num_tokens
      let extra : ℕ = blocks_needed m.block_size (want - have)
      if ltb have want
          then (if ltb (num_free_blocks m) extra then fail out_of_blocks else extend seq_id t extra)
          else ret tt)
      m

unfoldable pub fork : ℕ → ℕ → M BlockManager BlockTable
fork parent_id child_id = do
  parent ← block_table parent_id
  on_pool (incref_all parent.block_ids)
  let child : BlockTable = record { block_ids = parent.block_ids; num_tokens = parent.num_tokens }
  set_table child_id child
  ret child

unfoldable pub truncate : ℕ → ℕ → M BlockManager (Unit {0})
truncate seq_id num_tokens m =
    (do
      t ← block_table seq_id
      let keep : ℕ = blocks_needed m.block_size num_tokens
      on_pool (decref_all (drop keep t.block_ids))
      set_table seq_id (record { block_ids = take keep t.block_ids; num_tokens = num_tokens }))
      m

unfoldable pub free : ℕ → M BlockManager (Unit {0})
free seq_id m = elim (lookup seq_id m.tables) [
  | none ↦ ok tt m
  | some t ↦ on_pool (decref_all t.block_ids) (record m { tables = remove seq_id m.tables })
]
