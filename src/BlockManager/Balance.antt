-- ===== src/BlockManager/Balance.antt =====
-- The bookkeeping of the pool: each block is either once in the free list or counted, and its
-- count is the number of references that `own` expects.
use di_spec.Prelude.{
  ℕ, ◌+◌, ◌-◌, ◌<◌, ◌≡◌, refl, ap, ◌∙◌, ◌≢◌, inl, inr, List, ◌∷◌, Option, none, some, arith, ltb,
  ◌==◌, if◌then◌else◌, Dict, lookup, insert, remove, lookup-insert, lookup-remove_ne,
  lookup-remove_self, IsOnce, insert-IsOnce, remove-IsOnce, count, hit, hit_self, Option-cases,
  Bool-cases, ==→eq, ==→ne, min, ok,
}
use di_spec.BlockManager.{Pool, incref, decref, alloc_block}

-- A stored count, or 0 for a block that has none.
abbrev pub or_zero : Option ℕ → ℕ
or_zero none = 0
or_zero (some k) = k

abbrev pub refs : Dict ℕ → ℕ → ℕ
refs d b = or_zero (lookup b d)

abbrev pub in_pool : ℕ → ℕ → ℕ
in_pool n b = if ltb b n then 1 else 0

pub record IsBalanced (n : ℕ) (own : ℕ → ℕ) (p : Pool) : Type 0 where
  pub counted : (b : ℕ) → refs p.ref_count b ≡ own b
  pub stored : (b : ℕ) → lookup b p.ref_count ≢ some 0
  pub conserved : (b : ℕ) → count b p.free + min 1 (refs p.ref_count b) ≡ in_pool n b
  pub once : IsOnce p.ref_count

pub IsBalanced-cong :
    {n : ℕ} {own own' : ℕ → ℕ} {p : Pool}
    → ((b : ℕ) → own b ≡ own' b)
    → IsBalanced n own p
    → IsBalanced n own' p
IsBalanced-cong h v = record {
  counted = λ b. v.counted b ∙ h b;
  stored = v.stored;
  conserved = v.conserved;
  once = v.once;
}

-- What a stored count of 1 or more becomes when it is raised or lowered.
module _ {n : ℕ} {own : ℕ → ℕ} {p : Pool} (v : IsBalanced n own p) (b : ℕ) where
  pub own_of_lookup : (k : ℕ) → lookup b p.ref_count ≡ some k → own b ≡ k
  own_of_lookup k e = ground (arith, v.counted b)

  pub lookup_of_own : 0 < own b → lookup b p.ref_count ≡ some (own b)
  lookup_of_own h = ground (arith, v.counted b, Option-cases (lookup b p.ref_count))

  with_count : ℕ → Pool
  with_count k = record p { ref_count = insert b k p.ref_count }

  raise-IsBalanced : 0 < own b → IsBalanced n (λ c. own c + hit c b) (with_count (own b + 1))
  unfolding with_count
  raise-IsBalanced h = record {
    counted = λ c.
        ground
          (arith, lookup-insert c b (own b + 1) p.ref_count, v.counted c, v.counted b, ==→eq c b);
    stored = λ c e. ground (arith, lookup-insert c b (own b + 1) p.ref_count, v.stored c);
    conserved = λ c.
        ground
          (arith, lookup-insert c b (own b + 1) p.ref_count, v.conserved c, v.counted b, ==→eq c b);
    once = insert-IsOnce b (own b + 1) p.ref_count v.once;
  }

  -- The block can be referenced once more.
  pub incref-IsBalanced :
      0 < own b
      → (p' : Pool) × (incref b p ≡ ok tt p')
        × IsBalanced n (λ c. own c + hit c b) p'
        × (p'.free ≡ p.free)
  unfolding incref with_count
  incref-IsBalanced h =
      (with_count (own b + 1), rw (lookup_of_own h, incref), raise-IsBalanced h, refl)

-- A block taken from the head of the free list was not referenced, lies in the pool, and is
-- referenced once afterwards.
module _ {n : ℕ} {own : ℕ → ℕ} {p : Pool} (v : IsBalanced n own p) (b : ℕ) (rest : List ℕ) where
  pub own_of_free : p.free ≡ b ∷ rest → (own b ≡ 0) × (b < n)
  unfolding count
  own_of_free e = ground (arith, v.conserved b, v.counted b, ap (count b) e)

  taken : Pool
  taken = record { free = rest; ref_count = insert b 1 p.ref_count }

  taken-IsBalanced : p.free ≡ b ∷ rest → IsBalanced n (λ c. own c + hit c b) taken
  unfolding taken count
  taken-IsBalanced e = record {
    counted =
        λ c. ground (arith, lookup-insert c b 1 p.ref_count, v.counted c, own_of_free e, ==→eq c b);
    stored = λ c z. ground (arith, lookup-insert c b 1 p.ref_count, v.stored c);
    conserved = λ c. ground (
      arith,
      lookup-insert c b 1 p.ref_count,
      v.conserved c,
      v.counted c,
      own_of_free e,
      ap (count c) e,
      ==→eq c b,
    );
    once = insert-IsOnce b 1 p.ref_count v.once;
  }

  pub alloc_block-IsBalanced :
      p.free ≡ b ∷ rest
      → (p' : Pool) × (alloc_block p ≡ ok b p')
        × IsBalanced n (λ c. own c + hit c b) p'
        × (p'.free ≡ rest)
  unfolding alloc_block taken
  alloc_block-IsBalanced e = (taken, rw (e, alloc_block), taken-IsBalanced e, refl)

-- Dropping one of the references that `own` expects.
module _ {n : ℕ} {own : ℕ → ℕ} {p : Pool} (v : IsBalanced n own p) (b : ℕ) (own' : ℕ → ℕ)
    (less : (c : ℕ) → own c ≡ own' c + hit c b) where
  held_once : 0 < own b
  held_once = omega (arith, less b, hit_self b)

  returned : Pool
  returned = record { free = b ∷ p.free; ref_count = remove b p.ref_count }

  lowered : Pool
  lowered = record p { ref_count = insert b (own b - 1) p.ref_count }

  lookup-returned :
      (c : ℕ) → lookup c (remove b p.ref_count) ≡ (if c == b then none else lookup c p.ref_count)
  lookup-returned c = elim (Bool-cases (c == b)) [
    | inl same ↦ rw (same, ==→eq c b same) (lookup-remove_self b p.ref_count (v.once b))
    | inr other ↦ rw other (lookup-remove_ne c b p.ref_count (==→ne c b other))
  ]

  returned-IsBalanced : own b ≡ 1 → IsBalanced n own' returned
  unfolding returned count
  returned-IsBalanced e = record {
    counted = λ c. ground (arith, lookup-returned c, v.counted c, less c, ==→eq c b);
    stored = λ c z. ground (arith, lookup-returned c, v.stored c);
    conserved =
        λ c. ground (arith, lookup-returned c, v.conserved c, v.counted c, v.counted b, ==→eq c b);
    once = remove-IsOnce b p.ref_count v.once;
  }

  lowered-IsBalanced : own b ≢ 1 → IsBalanced n own' lowered
  unfolding lowered
  lowered-IsBalanced h = record {
    counted = λ c.
        ground (arith, lookup-insert c b (own b - 1) p.ref_count, v.counted c, less c, ==→eq c b);
    stored =
        λ c z. ground (arith, lookup-insert c b (own b - 1) p.ref_count, v.stored c, held_once);
    conserved = λ c. ground (
      arith,
      lookup-insert c b (own b - 1) p.ref_count,
      v.conserved c,
      v.counted c,
      ==→eq c b,
      held_once,
    );
    once = insert-IsOnce b (own b - 1) p.ref_count v.once;
  }

  -- The reference is dropped, and the block is free again when it was the last one.
  pub decref-IsBalanced : (p' : Pool) × (decref b p ≡ ok tt p') × IsBalanced n own' p'
  unfolding decref returned lowered
  decref-IsBalanced = elim (Bool-cases (own b == 1)) [
    | inl last ↦ (
      returned,
      rw (lookup_of_own v b held_once, decref, last),
      returned-IsBalanced (==→eq (own b) 1 last),
    )
    | inr more ↦ (
      lowered,
      rw (lookup_of_own v b held_once, decref, more),
      lowered-IsBalanced (==→ne (own b) 1 more),
    )
  ]
