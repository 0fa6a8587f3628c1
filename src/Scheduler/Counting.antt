-- ===== src/Scheduler/Counting.antt =====
-- What the lists of a batch have in common, and how the tokens of a sequence are added to it.
use di_spec.Prelude.{
  ℕ, suc, ◌+◌, ◌≤◌, ◌≡◌, Bool, true, false, List, [], ◌∷◌, ◌++◌, arith, length, length-append,
  if◌then◌else◌,
}
use di_spec.PagedCache.{Tensors}
use di_spec.Scheduler.{SeqMeta}
use di_spec.Scheduler.Step.{Batch, push, mark_sampled}

-- The sum of the query lengths.
unfoldable pub total_q : List SeqMeta → ℕ
total_q [] = 0
total_q (m ∷ ms) = m.q_len + total_q ms

total_q-append : (ms : List SeqMeta) (m : SeqMeta) → total_q (ms ++ m ∷ []) ≡ total_q ms + m.q_len
unfolding total_q
total_q-append [] m = omega arith
total_q-append (x ∷ ms) m = omega (arith, total_q-append ms m)

unfoldable pub trues : List Bool → ℕ
trues [] = 0
trues (b ∷ bs) = (if b then 1 else 0) + trues bs

trues-append : (bs : List Bool) (b : Bool) → trues (bs ++ b ∷ []) ≡ trues bs + (if b then 1 else 0)
unfolding trues
trues-append [] b = omega arith
trues-append (x ∷ bs) b = omega (arith, trues-append bs b)

-- The flat lists have one entry for each token, there is one sequence for each description, and the
-- tokens with what is left of the budget are the budget.
pub record IsFilled (limit : ℕ) (b : Batch) : Type 0 where
  pub tokens : length b.token_ids ≡ b.cursor
  pub places : length b.positions ≡ b.cursor
  pub slots : length b.write_slots ≡ b.cursor
  pub queries : total_q b.seq_meta ≡ b.cursor
  pub spent : b.cursor + b.budget ≡ limit
  pub metas : length b.seq_meta ≡ length b.batch

-- Each sequence has its flag too, and there is a last row for each one that is set.
pub record IsCounted (limit : ℕ) (b : Batch) : Type 0 where
  pub filled : IsFilled limit b
  pub flags : length b.sampled ≡ length b.batch
  pub last : length b.last_idx ≡ trues b.sampled

module _ (T : Tensors) (limit : ℕ) where
  pub push-IsFilled :
      (rid n : ℕ) (tokens pos slots : List ℕ) (meta : SeqMeta) (b : Batch)
      → IsFilled limit b
      → n ≤ b.budget
      → length tokens ≡ n
      → length pos ≡ n
      → length slots ≡ n
      → meta.q_len ≡ n
      → IsFilled limit (push T rid n tokens pos slots meta b)
  push-IsFilled rid n tokens pos slots meta b c room ht hp hs hq = record {
    tokens = omega (arith, length-append b.token_ids tokens, c.tokens);
    places = omega (arith, length-append b.positions pos, c.places);
    slots = omega (arith, length-append b.write_slots slots, c.slots);
    queries = omega (arith, total_q-append b.seq_meta meta, c.queries);
    spent = omega (arith, c.spent);
    metas =
        omega
          (arith, length-append b.seq_meta (meta ∷ []), length-append b.batch (rid ∷ []), c.metas);
  }

  -- A batch to which the tokens of a sequence have been added, but not its flag.
  pub record IsOpen (b : Batch) : Type 0 where
    pub filled : IsFilled limit b
    pub flags : suc (length b.sampled) ≡ length b.batch
    pub last : length b.last_idx ≡ trues b.sampled

  pub push-IsOpen :
      (rid n : ℕ) (tokens pos slots : List ℕ) (meta : SeqMeta) (b : Batch)
      → IsCounted limit b
      → n ≤ b.budget
      → length tokens ≡ n
      → length pos ≡ n
      → length slots ≡ n
      → meta.q_len ≡ n
      → IsOpen (push T rid n tokens pos slots meta b)
  push-IsOpen rid n tokens pos slots meta b c room ht hp hs hq = record {
    filled = push-IsFilled rid n tokens pos slots meta b c.filled room ht hp hs hq;
    flags = omega (arith, c.flags, length-append b.batch (rid ∷ []));
    last = c.last;
  }

  pub marked-IsCounted : (b : Batch) → IsOpen b → IsCounted limit (mark_sampled T b)
  marked-IsCounted b c = record {
    filled = record {
      tokens = c.filled.tokens;
      places = c.filled.places;
      slots = c.filled.slots;
      queries = c.filled.queries;
      spent = c.filled.spent;
      metas = c.filled.metas;
    };
    flags = omega (arith, length-append b.sampled (true ∷ []), c.flags);
    last =
        omega
          (arith, length-append b.last_idx (b.cursor ∷ []), trues-append b.sampled true, c.last);
  }

  pub unmarked-IsCounted :
      (b : Batch) → IsOpen b → IsCounted limit (record b { sampled = b.sampled ++ false ∷ [] })
  unmarked-IsCounted b c = record {
    filled = record {
      tokens = c.filled.tokens;
      places = c.filled.places;
      slots = c.filled.slots;
      queries = c.filled.queries;
      spent = c.filled.spent;
      metas = c.filled.metas;
    };
    flags = omega (arith, length-append b.sampled (false ∷ []), c.flags);
    last = omega (arith, trues-append b.sampled false, c.last);
  }
