-- ===== src/PrefixCache.antt =====
-- dispec/kv/prefix_cache.py. Python's built-in `hash` of a pair is the parameter `hash`; its values
-- are used as dictionary keys only, and are numbers here. The manager that the cache shares with
-- its engine is a field of the state.
pub mod Keys
pub mod Pins
pub mod Order
pub mod Lru
pub mod Hits
pub mod Tests
use di_spec.Prelude.{
  ℕ, zero, suc, ◌+◌, ◌-◌, ◌*◌, ◌/◌, List, [], ◌∷◌, Option, none, some, length, take, drop, leb,
  if◌then◌else◌, Dict, lookup, insert, remove, M, Outcome, ok, raise, ◌>>=◌, ◌>>◌, ret, zoom,
  or_raise, key_error,
}
use di_spec.BlockManager.{BlockManager, add_ref, release}

pub record Node : Type 0 where
  pub block_id : ℕ
  pub last_used : ℕ

pub record PrefixCache : Type 0 where
  pub mgr : BlockManager
  pub bs : ℕ
  pub nodes : Dict Node
  pub clock : ℕ
  pub hits : ℕ
  pub misses : ℕ

unfoldable pub init : BlockManager → ℕ → PrefixCache
init mgr bs = record { mgr = mgr; bs = bs; nodes = []; clock = 0; hits = 0; misses = 0 }

-- `token_ids[i * bs:(i + 1) * bs]`
abbrev pub chunk : ℕ → List ℕ → ℕ → List ℕ
chunk bs token_ids i = take bs (drop (i * bs) token_ids)

-- The loop of `_block_hashes`, from block `i` on, for `n` more blocks.
unfoldable pub hashes_from : (ℕ → List ℕ → ℕ) → ℕ → List ℕ → ℕ → ℕ → ℕ → List ℕ
hashes_from hash bs token_ids i zero h = []
hashes_from hash bs token_ids i (suc n) h =
    let h' : ℕ = hash h (chunk bs token_ids i) in h' ∷ hashes_from hash bs token_ids (i + 1) n h'

unfoldable pub block_hashes : (ℕ → List ℕ → ℕ) → ℕ → List ℕ → List ℕ
block_hashes hash bs token_ids = hashes_from hash bs token_ids 0 (length token_ids / bs) 0

-- The loop of `match`: the blocks found, and the nodes with their time of last use.
unfoldable pub match_loop : List ℕ → ℕ → Dict Node → List ℕ × Dict Node
match_loop [] clock nodes = ([], nodes)
match_loop (key ∷ keys) clock nodes = elim (lookup key nodes) [
  | none ↦ ([], nodes)
  | some node ↦
      let (matched, nodes') =
        match_loop keys clock (insert key (record node { last_used = clock }) nodes) in
      (node.block_id ∷ matched, nodes')
]

unfoldable pub match_blocks : (ℕ → List ℕ → ℕ) → List ℕ → PrefixCache → List ℕ × PrefixCache
match_blocks hash token_ids c =
    let clock : ℕ = c.clock + 1 in
    let (matched, nodes) = match_loop (block_hashes hash c.bs token_ids) clock c.nodes in
    (matched, record c { nodes = nodes; clock = clock; hits = c.hits + length matched })

abbrev pub on_mgr {ℓ} : {A : Type ℓ} → M BlockManager A → M PrefixCache A
on_mgr = zoom (λ c. c.mgr) (λ c m. record c { mgr = m })

-- One round of the loop of `insert`.
unfoldable pub register : ℕ → ℕ → M PrefixCache (Unit {0})
register key blk c = elim (lookup key c.nodes) [
  | none ↦
      (do
        on_mgr (add_ref blk)
        λ c'. ok tt (record c' {
          nodes = insert key (record { block_id = blk; last_used = c'.clock }) c'.nodes;
          misses = c'.misses + 1;
        }))
        c
  | some node ↦
      ok tt (record c { nodes = insert key (record node { last_used = c.clock }) c.nodes })
]

-- The loop of `insert` over `zip(keys, block_ids)`.
unfoldable pub register_all : List ℕ → List ℕ → M PrefixCache (Unit {0})
register_all [] blks = ret tt
register_all (key ∷ keys) [] = ret tt
register_all (key ∷ keys) (blk ∷ blks) = do register key blk; register_all keys blks

unfoldable pub insert_blocks : (ℕ → List ℕ → ℕ) → List ℕ → List ℕ → M PrefixCache (Unit {0})
insert_blocks hash token_ids block_ids c =
    register_all (block_hashes hash c.bs token_ids) block_ids (record c { clock = c.clock + 1 })

-- `sorted(…, key=last_used)`, a stable sort: an entry goes before the later ones of equal use.
unfoldable pub insert_by_use : ℕ → Node → Dict Node → Dict Node
insert_by_use k n [] = (k, n) ∷ []
insert_by_use k n ((j, w) ∷ d) =
    if leb n.last_used w.last_used then (k, n) ∷ (j, w) ∷ d else (j, w) ∷ insert_by_use k n d

unfoldable pub sort_by_use : Dict Node → Dict Node
sort_by_use [] = []
sort_by_use ((k, n) ∷ d) = insert_by_use k n (sort_by_use d)

-- The loop of `evict`: `del self._nodes[key]`, then the reference goes back.
unfoldable pub evict_all : Dict Node → M PrefixCache (Unit {0})
evict_all [] c = ok tt c
evict_all ((key, node) ∷ victims) c = elim (lookup key c.nodes) [
  | none ↦ raise key_error c
  | some _ ↦
      (do on_mgr (release node.block_id); evict_all victims)
        (record c { nodes = remove key c.nodes })
]

unfoldable pub evict : ℕ → M PrefixCache ℕ
evict num_blocks c =
    (do
      let victims : Dict Node = take num_blocks (sort_by_use c.nodes)
      evict_all victims
      ret (length victims))
      c

-- `__len__`
abbrev pub size : PrefixCache → ℕ
size c = length c.nodes
