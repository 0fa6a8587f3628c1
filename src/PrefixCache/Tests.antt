-- ===== src/PrefixCache/Tests.antt =====
-- A cache over the block manager of two sequences, and the theorems at it.
use di_spec.Prelude.{
  ℕ, ◌+◌, ◌*◌, ◌≡◌, ◌≤◌, min, refl, ap, sym, ◌∙◌, subst, final, Dict, List, [], ◌∷◌, none, some,
  arith, length, count, if◌then◌else◌, lookup, insert, has, take, ok,
}
use di_spec.BlockManager.{add_ref, incref}
use di_spec.BlockManager.Invariant.{held}
use di_spec.BlockManager.Tests.{two, two-IsValid}
use di_spec.BlockManager.Growth.{IsShared}
use di_spec.PrefixCache.{
  Node, PrefixCache, init, block_hashes, hashes_from, match_blocks, match_loop, insert_blocks,
  register_all, register, evict, size,
}
use di_spec.PrefixCache.Keys.{block_hashes_shared, known_run, SameBlocks, match_blocks_lem}
use di_spec.PrefixCache.Pins.{pins_of, IsSound, insert_blocks-IsSound, IsValid-cong}
use di_spec.PrefixCache.Lru.{evict-Lru}
use di_spec.PrefixCache.Hits.{match-insert}

-- A hash for the tests.
abbrev pub hash : ℕ → List ℕ → ℕ
hash h [] = h
hash h (t ∷ ts) = hash (h * 100 + t) ts

abbrev empty : PrefixCache
empty = init two 2

abbrev prompt : List ℕ
prompt = 5 ∷ 6 ∷ 7 ∷ []

abbrev longer : List ℕ
longer = 5 ∷ 6 ∷ 8 ∷ 9 ∷ []

abbrev blocks : List ℕ
blocks = 3 ∷ 2 ∷ []

-- The cache with the first block of the prompt.
abbrev pub full : PrefixCache
full = record {
  mgr = record two { pool = record two.pool { ref_count = insert 3 2 two.pool.ref_count } };
  bs = 2;
  nodes = (506, record { block_id = 3; last_used = 1 }) ∷ [];
  clock = 1;
  hits = 0;
  misses = 1;
}

fills : insert_blocks hash prompt blocks empty ≡ ok tt full
unfolding insert_blocks register_all register block_hashes hashes_from lookup insert init add_ref
    incref
fills = refl

hits_one : (match_blocks hash longer full).0 ≡ 3 ∷ []
unfolding match_blocks match_loop block_hashes hashes_from lookup insert
hits_one = refl

empty-IsSound : IsSound empty
unfolding init pins_of count
empty-IsSound = record { pinned = IsValid-cong (λ b. refl) two-IsValid; once = λ k. omega arith }

block_hashes_shared_example :
    take 1 (block_hashes hash 2 prompt) ≡ take 1 (block_hashes hash 2 longer)
block_hashes_shared_example =
    block_hashes_shared hash 2 prompt longer 1 refl (omega arith) (omega arith)

match_blocks_lem_example :
    let (matched, c') = match_blocks hash longer full in
    (matched ≡ known_run (block_hashes hash full.bs longer) full.nodes)
    × SameBlocks c'.nodes full.nodes
    × (c'.mgr ≡ full.mgr)
    × (c'.hits ≡ full.hits + length matched)
match_blocks_lem_example = match_blocks_lem hash longer full

shared : IsShared (pins_of empty.nodes) empty.mgr blocks
unfolding init count held
shared c h = ground arith

insert_blocks-IsSound_example :
    (c' : PrefixCache) × (insert_blocks hash prompt blocks empty ≡ ok tt c')
    × IsSound c'
    × (c'.mgr.tables ≡ empty.mgr.tables)
    × (c'.mgr.pool.free ≡ empty.mgr.pool.free)
    × (c'.bs ≡ empty.bs)
unfolding init
insert_blocks-IsSound_example = insert_blocks-IsSound hash prompt blocks empty empty-IsSound shared

pub full-IsSound : IsSound full
full-IsSound =
    let (c, e, s, _, _, _) = insert_blocks-IsSound hash prompt blocks empty empty-IsSound shared in
    subst IsSound (ap final (sym e ∙ fills)) s

evict-Lru_example :
    (victims : Dict Node) × (c' : PrefixCache) × (evict 1 full ≡ ok (length victims) c')
    × (length victims ≡ min 1 (size full))
    × (size c' + length victims ≡ size full)
    × IsSound c'
    × ((j : ℕ) → lookup j c'.nodes ≡ (if has j victims then none else lookup j full.nodes))
    × ((j k : ℕ) (w v : Node)
        → lookup j victims ≡ some w
        → lookup k c'.nodes ≡ some v
        → (lookup j full.nodes ≡ some w) × (w.last_used ≤ v.last_used))
evict-Lru_example = evict-Lru 1 full full-IsSound

match-insert_example : take 1 (match_blocks hash longer full).0 ≡ take 1 blocks
unfolding init lookup block_hashes hashes_from count
match-insert_example =
    match-insert hash prompt longer blocks 1 empty full fills (λ j. (ground arith, λ h. refl)) refl
      (omega arith) (omega arith) (omega arith)
