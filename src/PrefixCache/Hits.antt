-- ===== src/PrefixCache/Hits.antt =====
-- What a match finds after an insertion.
use di_spec.Prelude.{
  ℕ, zero, suc, ◌+◌, ◌*◌, ◌/◌, ◌≤◌, ◌<◌, ◌≡◌, refl, ap, ◌∙◌, sym, ◌≢◌, List, [], ◌∷◌, Option, none,
  some, arith, length, take, lookup, insert, lookup-insert, Dict, Option-cases, ==→eq, count,
  hit_self, ok, raise, Outcome, ◌≡⟨◌⟩◌, ◌∎,
}
use di_spec.PrefixCache.{
  Node, PrefixCache, block_hashes, match_blocks, register, register_all, insert_blocks,
}
use di_spec.PrefixCache.Keys.{
  known_run, block_of, block_hashes_shared, match_blocks_lem, take-drop-take, length-block_hashes,
}

known_run-take :
    (k : ℕ) (ks : List ℕ) (d : Dict Node) → known_run (take k ks) d ≡ take k (known_run ks d)
unfolding known_run
known_run-take zero ks d = refl
known_run-take (suc k) [] d = refl
known_run-take (suc k) (key ∷ ks) d = ground (arith, known_run-take k ks d)

-- The node that one round of `insert` writes: a key that is known keeps its block.
written : PrefixCache → Option Node → ℕ → Node
written c none blk = record { block_id = blk; last_used = c.clock }
written c (some n) blk = record n { last_used = c.clock }

register_nodes :
    (key blk : ℕ) (c c' : PrefixCache)
    → register key blk c ≡ ok tt c'
    → c'.nodes ≡ insert key (written c (lookup key c.nodes) blk) c.nodes
unfolding register written
register_nodes key blk c c' e = ground (arith, Option-cases (lookup key c.nodes))

-- What names a block goes on naming it.
register_keeps :
    (key blk : ℕ) (c c' : PrefixCache)
    → register key blk c ≡ ok tt c'
    → (j x : ℕ) → block_of (lookup j c.nodes) ≡ some x
    → block_of (lookup j c'.nodes) ≡ some x
unfolding written
register_keeps key blk c c' e j x h = ground (
  arith,
  register_nodes key blk c c' e,
  lookup-insert j key (written c (lookup key c.nodes) blk) c.nodes,
  ==→eq j key,
)

-- A new key gets the block that it is registered with.
register_new :
    (key blk : ℕ) (c c' : PrefixCache)
    → register key blk c ≡ ok tt c'
    → lookup key c.nodes ≡ none
    → block_of (lookup key c'.nodes) ≡ some blk
unfolding written
register_new key blk c c' e h = ground (
  arith,
  register_nodes key blk c c' e,
  lookup-insert key key (written c (lookup key c.nodes) blk) c.nodes,
)

register_other :
    (key blk : ℕ) (c c' : PrefixCache)
    → register key blk c ≡ ok tt c'
    → (j : ℕ) → j ≢ key
    → lookup j c.nodes ≡ none
    → lookup j c'.nodes ≡ none
register_other key blk c c' e j ne h = ground (
  arith,
  register_nodes key blk c c' e,
  lookup-insert j key (written c (lookup key c.nodes) blk) c.nodes,
)

-- The state between the first round and the rest of the loop.
register_all_first :
    (key blk : ℕ) (ks blks : List ℕ) (c c' : PrefixCache)
    → register_all (key ∷ ks) (blk ∷ blks) c ≡ ok tt c'
    → (c₁ : PrefixCache) × (register key blk c ≡ ok tt c₁) × (register_all ks blks c₁ ≡ ok tt c')
unfolding register_all
register_all_first key blk ks blks c c' e = from (register key blk c) refl e
  where
    from :
        (r : Outcome PrefixCache (Unit {0}))
        → register key blk c ≡ r
        → register_all (key ∷ ks) (blk ∷ blks) c ≡ ok tt c'
        → (c₁ : PrefixCache) × (register key blk c ≡ ok tt c₁)
          × (register_all ks blks c₁ ≡ ok tt c')
    from (ok tt c₁) q h = (c₁, q, ground (arith, q))
    from (raise x c₁) q h = absurd (ground (arith, q))

register_all_keeps :
    (ks blks : List ℕ) (c c' : PrefixCache)
    → register_all ks blks c ≡ ok tt c'
    → (j x : ℕ) → block_of (lookup j c.nodes) ≡ some x
    → block_of (lookup j c'.nodes) ≡ some x
unfolding register_all
register_all_keeps [] blks c c' e j x h = ground arith
register_all_keeps (k ∷ ks) [] c c' e j x h = ground arith
register_all_keeps (k ∷ ks) (b ∷ blks) c c' e j x h =
    let (c₁, e₁, e₂) = register_all_first k b ks blks c c' e in
    register_all_keeps ks blks c₁ c' e₂ j x (register_keeps k b c c₁ e₁ j x h)

-- Keys that are new and pairwise distinct.
abbrev pub IsFresh : List ℕ → Dict Node → Type 0
IsFresh ks d = (j : ℕ) → (count j ks ≤ 1) × (0 < count j ks → lookup j d ≡ none)

register_all_run :
    (ks blks : List ℕ) (c c' : PrefixCache)
    → register_all ks blks c ≡ ok tt c'
    → IsFresh ks c.nodes
    → known_run (take (length blks) ks) c'.nodes ≡ take (length ks) blks
unfolding register_all known_run count
register_all_run [] [] c c' e f = refl
register_all_run [] (b ∷ blks) c c' e f = refl
register_all_run (k ∷ ks) [] c c' e f = refl
register_all_run (k ∷ ks) (b ∷ blks) c c' e f =
    let (c₁, e₁, e₂) = register_all_first k b ks blks c c' e in
    let here : block_of (lookup k c'.nodes) ≡ some b =
      register_all_keeps ks blks c₁ c' e₂ k b
        (register_new k b c c₁ e₁ ((f k).1 (omega (arith, hit_self k)))) in
    let rest : known_run (take (length blks) ks) c'.nodes ≡ take (length ks) blks =
      register_all_run ks blks c₁ c' e₂ (λ j. (
        omega (arith, (f j).0),
        λ q. register_other k b c c₁ e₁ j (apart j q) ((f j).1 (omega arith)),
      )) in
    ground (arith, here, rest)
  where
    apart : (j : ℕ) → 0 < count j ks → j ≢ k
    apart j q same = omega (arith, (f k).0, hit_self k, ap (λ i. count i ks) same)

register_bs : (key blk : ℕ) (c c' : PrefixCache) → register key blk c ≡ ok tt c' → c'.bs ≡ c.bs
unfolding register
register_bs key blk c c' e = ground (arith, Option-cases (lookup key c.nodes))

register_all_bs :
    (ks blks : List ℕ) (c c' : PrefixCache) → register_all ks blks c ≡ ok tt c' → c'.bs ≡ c.bs
unfolding register_all
register_all_bs [] blks c c' e = ground arith
register_all_bs (k ∷ ks) [] c c' e = ground arith
register_all_bs (k ∷ ks) (b ∷ blks) c c' e =
    let (c₁, e₁, e₂) = register_all_first k b ks blks c c' e in
    register_all_bs ks blks c₁ c' e₂ ∙ register_bs k b c c₁ e₁

-- After the blocks of prompt `a` are registered under new, distinct keys, a match for any prompt
-- `b` that agrees with `a` on `k` full blocks starts with the first `k` of those blocks.
pub match-insert :
    (hash : ℕ → List ℕ → ℕ) (a b block_ids : List ℕ) (k : ℕ) (c c' : PrefixCache)
    → insert_blocks hash a block_ids c ≡ ok tt c'
    → IsFresh (block_hashes hash c.bs a) c.nodes
    → take (k * c.bs) a ≡ take (k * c.bs) b
    → k ≤ length a / c.bs
    → k ≤ length b / c.bs
    → k ≤ length block_ids
    → take k (match_blocks hash b c').0 ≡ take k block_ids
unfolding insert_blocks
match-insert hash a b block_ids k c c' e fresh same la lb lids =
    let ka : List ℕ = block_hashes hash c.bs a in
    let kb : List ℕ = block_hashes hash c.bs b in
    let bs : c'.bs ≡ c.bs = register_all_bs ka block_ids (record c { clock = c.clock + 1 }) c' e in
    let enough : k ≤ length ka = omega (arith, length-block_hashes hash c.bs a) in
    take k (match_blocks hash b c').0
    ≡⟨ ap (take k) (match_blocks_lem hash b c').0 ⟩
      take k (known_run (block_hashes hash c'.bs b) c'.nodes)
    ≡⟨ ap (λ (n : ℕ). take k (known_run (block_hashes hash n b) c'.nodes)) bs ⟩
      take k (known_run kb c'.nodes)
    ≡⟨ sym (known_run-take k kb c'.nodes) ⟩ known_run (take k kb) c'.nodes
    ≡⟨ ap (λ (ks : List ℕ). known_run ks c'.nodes)
        (sym (block_hashes_shared hash c.bs a b k same la lb)) ⟩
      known_run (take k ka) c'.nodes
    ≡⟨ ap (λ (ks : List ℕ). known_run ks c'.nodes)
        (sym (take-drop-take k 0 (length block_ids) ka (omega arith))) ⟩
      known_run (take k (take (length block_ids) ka)) c'.nodes
    ≡⟨ known_run-take k (take (length block_ids) ka) c'.nodes ⟩
      take k (known_run (take (length block_ids) ka) c'.nodes)
    ≡⟨ ap (take k) (register_all_run ka block_ids (record c { clock = c.clock + 1 }) c' e fresh) ⟩
      take k (take (length ka) block_ids)
    ≡⟨ take-drop-take k 0 (length ka) block_ids (omega arith) ⟩ take k block_ids ∎
