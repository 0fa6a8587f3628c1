-- ===== src/PrefixCache/Lru.antt =====
-- Eviction: the least recently used nodes go, each with its reference.
use di_spec.Prelude.{
  ℕ, ◌+◌, ◌≤◌, ◌≡◌, refl, ap, ◌∙◌, sym, [], ◌∷◌, Option, none, some, arith, length, lookup, remove,
  lookup-remove_ne, lookup-remove_self, has, has-lookup-none, lookup_of_count, IsOnce,
  remove-IsOnce, Dict, ==→eq, ==→ne, if◌then◌else◌, count, hit_self, keys, ok, min, take,
  length-take,
}
use di_spec.BlockManager.Release.{release-IsValid}
use di_spec.PrefixCache.{Node, PrefixCache, sort_by_use, evict_all, evict, size}
use di_spec.PrefixCache.Pins.{IsSound, pins_of, pins_of-remove}
use di_spec.PrefixCache.Order.{
  sort-IsSorted, length-sort, keys-sort, lookup-sort, keys-take, lookup-take, sorted_split,
}

length-remove :
    (k : ℕ) (d : Dict Node) (n : Node) → lookup k d ≡ some n → length (remove k d) + 1 ≡ length d
unfolding lookup remove
length-remove k [] n h = cc
length-remove k (e ∷ d) n h = ground (arith, length-remove k d n)

-- Nodes that are in the cache can all be evicted.
evict_all-IsSound :
    (victims : Dict Node) (c : PrefixCache)
    → IsSound c
    → IsOnce victims
    → ((k : ℕ) (n : Node) → lookup k victims ≡ some n → lookup k c.nodes ≡ some n)
    → (c' : PrefixCache) × (evict_all victims c ≡ ok tt c')
      × IsSound c'
      × ((j : ℕ) → lookup j c'.nodes ≡ (if has j victims then none else lookup j c.nodes))
      × (size c' + length victims ≡ size c)
      × (c'.mgr.tables ≡ c.mgr.tables)
unfolding evict_all lookup has count
evict_all-IsSound [] c s o h = (c, refl, s, λ j. refl, omega arith, refl)
evict_all-IsSound ((k, n) ∷ victims) c s o h =
    let e : lookup k c.nodes ≡ some n = h k n (ground arith) in
    let rest : Dict Node = remove k c.nodes in
    let (p, e₁, v₁) =
      release-IsValid n.block_id (pins_of rest) s.pinned (λ b. pins_of-remove k b c.nodes n e) in
    let c₁ : PrefixCache = record c { mgr = record c.mgr { pool = p }; nodes = rest } in
    let absent : count k (keys victims) ≡ 0 = omega (arith, o k, hit_self k) in
    let gone : lookup k victims ≡ none = lookup_of_count k victims absent in
    let (c', e₂, s₂, left, l, kept) =
      evict_all-IsSound victims c₁ (record { pinned = v₁; once = remove-IsOnce k c.nodes s.once })
        (λ j. omega (arith, o j))
        (λ j w q.
          ground (arith, h j w, gone, q, lookup-remove_ne j k c.nodes, ==→eq j k, ==→ne j k)) in
    (
      c',
      ground (arith, e, e₁, e₂),
      s₂,
      λ j. ground (
        arith,
        left j,
        lookup-remove_ne j k c.nodes,
        lookup-remove_self k c.nodes (s.once k),
        ==→eq j k,
        ==→ne j k,
      ),
      omega (arith, l, length-remove k c.nodes n e),
      kept,
    )

-- `evict` on a sound cache never fails. It drops as many nodes as it is asked to, or all of them,
-- and reports their number. Nothing that stays was used before something that goes, every other
-- node stays as it is, each block that goes loses one reference, and the cache stays sound.
pub evict-Lru :
    (n : ℕ) (c : PrefixCache)
    → IsSound c
    → (victims : Dict Node) × (c' : PrefixCache) × (evict n c ≡ ok (length victims) c')
      × (length victims ≡ min n (size c))
      × (size c' + length victims ≡ size c)
      × IsSound c'
      × ((j : ℕ) → lookup j c'.nodes ≡ (if has j victims then none else lookup j c.nodes))
      × ((j k : ℕ) (w v : Node)
          → lookup j victims ≡ some w
          → lookup k c'.nodes ≡ some v
          → (lookup j c.nodes ≡ some w) × (w.last_used ≤ v.last_used))
unfolding evict
evict-Lru n c s =
    let sorted : Dict Node = sort_by_use c.nodes in
    let victims : Dict Node = take n sorted in
    let known : (j : ℕ) (w : Node) → lookup j victims ≡ some w → lookup j c.nodes ≡ some w =
      λ j w h. sym (lookup-sort j c.nodes s.once) ∙ lookup-take j n sorted w h in
    let (c', e, s', left, l, _) =
      evict_all-IsSound victims c s
        (λ j. omega (arith, keys-take j n sorted, keys-sort j c.nodes, s.once j)) known in
    (
      victims,
      c',
      ground (arith, e),
      length-take n sorted ∙ ap (min n) (length-sort c.nodes),
      l,
      s',
      left,
      λ j k w v hj hk. (
        known j w hj,
        sorted_split n j k sorted w v (sort-IsSorted c.nodes) hj (stays k v (left k) hk).0
            (lookup-sort k c.nodes s.once ∙ (stays k v (left k) hk).1),
      ),
    )
  where
    victims' : Dict Node
    victims' = take n (sort_by_use c.nodes)

    stays :
        (k : ℕ) (v : Node) {r : Option Node}
        → r ≡ (if has k victims' then none else lookup k c.nodes)
        → r ≡ some v
        → (lookup k victims' ≡ none) × (lookup k c.nodes ≡ some v)
    stays k v e hk = (ground (arith, has-lookup-none k victims'), ground arith)
