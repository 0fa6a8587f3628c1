-- ===== src/PrefixCache/Keys.antt =====
-- The keys of a prompt's blocks, and what a match finds under them.
use di_spec.Prelude.{
  ℕ, zero, suc, ◌+◌, ◌*◌, ◌/◌, ◌≤◌, ◌≡◌, refl, ap, ◌∙◌, sym, inl, inr, List, [], ◌∷◌, Option, none,
  some, arith, length, take, drop, lookup, insert, lookup-insert, Dict, Option-cases, ==→eq,
}
use di_spec.PrefixCache.{
  Node, PrefixCache, chunk, hashes_from, block_hashes, match_loop, match_blocks,
}

pub take-drop-take {ℓ} :
    {A : Type ℓ} (n i m : ℕ) (xs : List A)
    → i + n ≤ m
    → take n (drop i (take m xs)) ≡ take n (drop i xs)
take-drop-take zero i m xs h = refl
take-drop-take (suc n) zero zero xs h = absurd (omega arith)
take-drop-take (suc n) zero (suc m) [] h = refl
take-drop-take (suc n) zero (suc m) (x ∷ xs) h =
    ap (◌∷◌ x) (take-drop-take n zero m xs (omega arith))
take-drop-take (suc n) (suc i) zero xs h = absurd (omega arith)
take-drop-take (suc n) (suc i) (suc m) [] h = refl
take-drop-take (suc n) (suc i) (suc m) (x ∷ xs) h = take-drop-take (suc n) i m xs (omega arith)

chunk_end : (i k n bs : ℕ) → i + suc n ≤ k → i * bs + bs ≤ k * bs
chunk_end i k n bs h = grind arith

module _ (hash : ℕ → List ℕ → ℕ) (bs : ℕ) where
  hashes_from-cong :
      (a b : List ℕ) (k : ℕ)
      → take (k * bs) a ≡ take (k * bs) b
      → (i n h : ℕ) → i + n ≤ k
      → hashes_from hash bs a i n h ≡ hashes_from hash bs b i n h
  unfolding hashes_from
  hashes_from-cong a b k e i zero h le = refl
  hashes_from-cong a b k e i (suc n) h le =
      let same : chunk bs a i ≡ chunk bs b i =
        sym (take-drop-take bs (i * bs) (k * bs) a (chunk_end i k n bs le))
        ∙ ap (λ (xs : List ℕ). take bs (drop (i * bs) xs)) e
        ∙ take-drop-take bs (i * bs) (k * bs) b (chunk_end i k n bs le) in
      rw (same, hashes_from-cong a b k e (i + 1) n (hash h (chunk bs b i)) (omega arith))

  hashes_from-take :
      (a : List ℕ) (i n k h : ℕ)
      → k ≤ n
      → take k (hashes_from hash bs a i n h) ≡ hashes_from hash bs a i k h
  unfolding hashes_from
  hashes_from-take a i n zero h le = refl
  hashes_from-take a i zero (suc k) h le = absurd (omega arith)
  hashes_from-take a i (suc n) (suc k) h le =
      ap (◌∷◌ (hash h (chunk bs a i)))
        (hashes_from-take a (i + 1) n k (hash h (chunk bs a i)) (omega arith))

  -- Two prompts that agree on their first `k` full blocks have the same first `k` keys.
  pub block_hashes_shared :
      (a b : List ℕ) (k : ℕ)
      → take (k * bs) a ≡ take (k * bs) b
      → k ≤ length a / bs
      → k ≤ length b / bs
      → take k (block_hashes hash bs a) ≡ take k (block_hashes hash bs b)
  unfolding block_hashes
  block_hashes_shared a b k e la lb =
      hashes_from-take a 0 (length a / bs) k 0 la
      ∙ hashes_from-cong a b k e 0 k 0 (omega arith)
      ∙ sym (hashes_from-take b 0 (length b / bs) k 0 lb)

length-hashes_from :
    (hash : ℕ → List ℕ → ℕ) (bs : ℕ) (a : List ℕ) (i n h : ℕ)
    → length (hashes_from hash bs a i n h) ≡ n
unfolding hashes_from
length-hashes_from hash bs a i zero h = refl
length-hashes_from hash bs a i (suc n) h =
    ap suc (length-hashes_from hash bs a (i + 1) n (hash h (chunk bs a i)))

-- One key for each full block.
pub length-block_hashes :
    (hash : ℕ → List ℕ → ℕ) (bs : ℕ) (a : List ℕ) → length (block_hashes hash bs a) ≡ length a / bs
unfolding block_hashes
length-block_hashes hash bs a = length-hashes_from hash bs a 0 (length a / bs) 0

-- The longest run of keys that are known, and their blocks.
unfoldable pub known_run : List ℕ → Dict Node → List ℕ
known_run [] nodes = []
known_run (key ∷ keys) nodes = elim (lookup key nodes) [
  | none ↦ []
  | some node ↦ node.block_id ∷ known_run keys nodes
]

abbrev pub block_of : Option Node → Option ℕ
block_of none = none
block_of (some n) = some n.block_id

-- Two dictionaries that name the same blocks.
abbrev pub SameBlocks : Dict Node → Dict Node → Type 0
SameBlocks d d' = (k : ℕ) → block_of (lookup k d) ≡ block_of (lookup k d')

known_run-cong :
    (keys : List ℕ) (d d' : Dict Node) → SameBlocks d d' → known_run keys d ≡ known_run keys d'
unfolding known_run
known_run-cong [] d d' h = refl
known_run-cong (k ∷ keys) d d' h = ground (arith, h k, known_run-cong keys d d' h)

touch-SameBlocks :
    (k t : ℕ) (d : Dict Node) (n : Node)
    → lookup k d ≡ some n
    → SameBlocks (insert k (record n { last_used = t }) d) d
touch-SameBlocks k t d n e j =
    ground (arith, lookup-insert j k (record n { last_used = t }) d, ==→eq j k)

match_loop_lem :
    (keys : List ℕ) (t : ℕ) (d : Dict Node)
    → ((match_loop keys t d).0 ≡ known_run keys d) × SameBlocks (match_loop keys t d).1 d
unfolding match_loop known_run
match_loop_lem [] t d = (refl, λ k. refl)
match_loop_lem (k ∷ keys) t d = elim (Option-cases (lookup k d)) [
  | inl e ↦ (ground (arith, e), λ j. ground (arith, e))
  | inr (n, e) ↦
      let d' : Dict Node = insert k (record n { last_used = t }) d in
      let same : SameBlocks d' d = touch-SameBlocks k t d n e in
      let ih = match_loop_lem keys t d' in
      (
        ground (arith, e, ih.0, known_run-cong keys d' d same),
        λ j. ground (arith, e, ih.1 j, same j),
      )
]

-- `match` returns the blocks of the longest known run of the prompt's keys, counts them as hits,
-- and changes no block of the cache.
pub match_blocks_lem :
    (hash : ℕ → List ℕ → ℕ) (token_ids : List ℕ) (c : PrefixCache)
    → let (matched, c') = match_blocks hash token_ids c in
      (matched ≡ known_run (block_hashes hash c.bs token_ids) c.nodes)
      × SameBlocks c'.nodes c.nodes
      × (c'.mgr ≡ c.mgr)
      × (c'.hits ≡ c.hits + length matched)
unfolding match_blocks
match_blocks_lem hash token_ids c =
    let r = match_loop_lem (block_hashes hash c.bs token_ids) (c.clock + 1) c.nodes in
    (r.0, r.1, refl, refl)
