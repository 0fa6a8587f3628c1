-- ===== src/PrefixCache/Pins.antt =====
-- The cache holds one reference to the block of each of its nodes.
use di_spec.Prelude.{
  ℕ, ◌+◌, ◌≤◌, ◌<◌, ◌≡◌, refl, ap, ◌∙◌, sym, inl, inr, List, [], ◌∷◌, none, some, arith, lookup,
  insert, remove, IsOnce, insert-IsOnce, Dict, Option-cases, count, hit, ok,
}
use di_spec.BlockManager.{BlockManager, BlockTable}
use di_spec.BlockManager.Invariant.{IsValid, held}
use di_spec.BlockManager.Growth.{IsShared}
use di_spec.BlockManager.Release.{add_ref-IsValid}
use di_spec.PrefixCache.{
  Node, PrefixCache, match_loop, match_blocks, register, register_all, insert_blocks, block_hashes,
}

-- How many nodes name a block.
unfoldable pub pins_of : Dict Node → ℕ → ℕ
pins_of [] b = 0
pins_of ((_, n) ∷ d) b = hit b n.block_id + pins_of d b

pub pins_of-insert_new :
    (k b : ℕ) (d : Dict Node) (n : Node)
    → lookup k d ≡ none
    → pins_of (insert k n d) b ≡ pins_of d b + hit b n.block_id
unfolding pins_of lookup insert
pins_of-insert_new k b [] n h = omega arith
pins_of-insert_new k b ((j, w) ∷ d) n h = ground (arith, pins_of-insert_new k b d n)

pub pins_of-touch :
    (k b t : ℕ) (d : Dict Node) (n : Node)
    → lookup k d ≡ some n
    → pins_of (insert k (record n { last_used = t }) d) b ≡ pins_of d b
unfolding pins_of lookup insert
pins_of-touch k b t [] n h = cc
pins_of-touch k b t ((j, w) ∷ d) n h = ground (arith, pins_of-touch k b t d n)

pub pins_of-remove :
    (k b : ℕ) (d : Dict Node) (n : Node)
    → lookup k d ≡ some n
    → pins_of d b ≡ pins_of (remove k d) b + hit b n.block_id
unfolding pins_of lookup remove
pins_of-remove k b [] n h = cc
pins_of-remove k b ((j, w) ∷ d) n h = ground (arith, pins_of-remove k b d n)

pub record IsSound (c : PrefixCache) : Type 0 where
  pub pinned : IsValid (pins_of c.nodes) c.mgr
  pub once : IsOnce c.nodes

pub IsValid-cong :
    {pins pins' : ℕ → ℕ} {m : BlockManager}
    → ((b : ℕ) → pins b ≡ pins' b)
    → IsValid pins m
    → IsValid pins' m
IsValid-cong h v = record {
  positive = v.positive;
  balanced = record {
    counted = λ b. omega (arith, v.balanced.counted b, h b);
    stored = v.balanced.stored;
    conserved = v.balanced.conserved;
    once = v.balanced.once;
  };
  once = v.once;
}

pub match_loop-pins :
    (ks : List ℕ) (t : ℕ) (d : Dict Node)
    → IsOnce d
    → ((b : ℕ) → pins_of d b ≡ pins_of (match_loop ks t d).1 b) × IsOnce (match_loop ks t d).1
unfolding match_loop
match_loop-pins [] t d o = (λ b. refl, o)
match_loop-pins (k ∷ ks) t d o = elim (Option-cases (lookup k d)) [
  | inl e ↦ rw (e, match_loop) (λ b. refl, o)
  | inr (n, e) ↦
      let d' : Dict Node = insert k (record n { last_used = t }) d in
      let ih = match_loop-pins ks t d' (insert-IsOnce k _ d o) in
      rw (e, match_loop) (λ b. sym (pins_of-touch k b t d n e) ∙ ih.0 b, ih.1)
]

-- A match keeps the cache sound: it moves no reference.
pub match_blocks-IsSound :
    (hash : ℕ → List ℕ → ℕ) (token_ids : List ℕ) (c : PrefixCache)
    → IsSound c
    → IsSound (match_blocks hash token_ids c).1
unfolding match_blocks
match_blocks-IsSound hash token_ids c s =
    let r = match_loop-pins (block_hashes hash c.bs token_ids) (c.clock + 1) c.nodes s.once in
    record { pinned = IsValid-cong r.0 s.pinned; once = r.1 }

-- What the loop of `insert` keeps: the tables, and the free blocks.
pub record Kept (c c' : PrefixCache) : Type 0 where
  pub tables : c'.mgr.tables ≡ c.mgr.tables
  pub block_size : c'.mgr.block_size ≡ c.mgr.block_size
  pub free : c'.mgr.pool.free ≡ c.mgr.pool.free
  pub bs : c'.bs ≡ c.bs
  pub clock : c'.clock ≡ c.clock

register-IsSound :
    (key blk : ℕ) (c : PrefixCache)
    → IsSound c
    → 0 < held c.mgr.tables blk + pins_of c.nodes blk
    → (c' : PrefixCache) × (register key blk c ≡ ok tt c')
      × IsSound c'
      × Kept c c'
      × ((b : ℕ) → pins_of c.nodes b ≤ pins_of c'.nodes b)
unfolding register
register-IsSound key blk c s h = elim (Option-cases (lookup key c.nodes)) [
  | inl e ↦
      let (p, e₁, v₁, f₁) = add_ref-IsValid blk s.pinned h in
      let n : Node = record { block_id = blk; last_used = c.clock } in
      (
        record c {
          mgr = record c.mgr { pool = p };
          nodes = insert key n c.nodes;
          misses = c.misses + 1;
        },
        ground (arith, e, e₁),
        record {
          pinned = IsValid-cong (λ b. sym (pins_of-insert_new key b c.nodes n e)) v₁;
          once = insert-IsOnce key n c.nodes s.once;
        },
        record { tables = refl; block_size = refl; free = f₁; bs = refl; clock = refl },
        λ b. omega (arith, pins_of-insert_new key b c.nodes n e),
      )
  | inr (n, e) ↦
      let n' : Node = record n { last_used = c.clock } in
      (
        record c { nodes = insert key n' c.nodes },
        ground (arith, e),
        record {
          pinned = IsValid-cong (λ b. sym (pins_of-touch key b c.clock c.nodes n e)) s.pinned;
          once = insert-IsOnce key n' c.nodes s.once;
        },
        record { tables = refl; block_size = refl; free = refl; bs = refl; clock = refl },
        λ b. omega (arith, pins_of-touch key b c.clock c.nodes n e),
      )
]

pub register_all-IsSound :
    (ks blks : List ℕ) (c : PrefixCache)
    → IsSound c
    → IsShared (pins_of c.nodes) c.mgr blks
    → (c' : PrefixCache) × (register_all ks blks c ≡ ok tt c') × IsSound c' × Kept c c'
unfolding register_all count
register_all-IsSound [] blks c s h =
    (c, refl, s, record { tables = refl; block_size = refl; free = refl; bs = refl; clock = refl })
register_all-IsSound (k ∷ ks) [] c s h =
    (c, refl, s, record { tables = refl; block_size = refl; free = refl; bs = refl; clock = refl })
register_all-IsSound (k ∷ ks) (b ∷ blks) c s h =
    let (c₁, e₁, s₁, f₁, grown) = register-IsSound k b c s (h b (ground arith)) in
    let (c₂, e₂, s₂, f₂) = register_all-IsSound ks blks c₁ s₁ (λ a q.
      omega
        (arith, h a (omega arith), ap (λ (d : Dict BlockTable). held d a) f₁.tables, grown a)) in
    (
      c₂,
      ground (arith, e₁, e₂),
      s₂,
      record {
        tables = f₂.tables ∙ f₁.tables;
        block_size = f₂.block_size ∙ f₁.block_size;
        free = f₂.free ∙ f₁.free;
        bs = f₂.bs ∙ f₁.bs;
        clock = f₂.clock ∙ f₁.clock;
      },
    )

-- Registering blocks that are referenced never fails. It pins each block that gets a node once
-- more, takes no block from the pool, leaves the tables alone and keeps the cache sound.
pub insert_blocks-IsSound :
    (hash : ℕ → List ℕ → ℕ) (token_ids block_ids : List ℕ) (c : PrefixCache)
    → IsSound c
    → IsShared (pins_of c.nodes) c.mgr block_ids
    → (c' : PrefixCache) × (insert_blocks hash token_ids block_ids c ≡ ok tt c')
      × IsSound c'
      × (c'.mgr.tables ≡ c.mgr.tables)
      × (c'.mgr.pool.free ≡ c.mgr.pool.free)
      × (c'.bs ≡ c.bs)
unfolding insert_blocks
insert_blocks-IsSound hash token_ids block_ids c s h =
    let (c', e, s', k) =
      register_all-IsSound (block_hashes hash c.bs token_ids) block_ids
        (record c { clock = c.clock + 1 }) (record { pinned = s.pinned; once = s.once }) h in
    (c', e, s', k.tables, k.free, k.bs)
