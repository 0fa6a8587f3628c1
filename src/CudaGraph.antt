-- ===== src/CudaGraph.antt =====
-- dispec/engine/cuda_graph.py: which captured bucket a decode step replays, and how its inputs are
-- padded. Capture and replay are calls of the device.
pub mod Buckets
mod Tests
use di_spec.Prelude.{
  replicate, ℕ, zero, suc, ◌-◌, Bool, true, false, List, [], ◌∷◌, ◌++◌, Option, none, some, length,
  leb, if◌then◌else◌,
}
use di_spec.Scheduler.{get_last}

unfoldable pub insert_bucket : ℕ → List ℕ → List ℕ
insert_bucket b [] = b ∷ []
insert_bucket b (c ∷ cs) = if leb b c then b ∷ c ∷ cs else c ∷ insert_bucket b cs

-- `sorted(buckets)`
unfoldable pub sorted : List ℕ → List ℕ
sorted [] = []
sorted (b ∷ bs) = insert_bucket b (sorted bs)

-- `self.buckets[-1]`
unfoldable pub max_ctx : List ℕ → Option ℕ
max_ctx buckets = get_last (sorted buckets)

-- `can_handle`; without buckets there is no decoder, as its construction raises.
unfoldable pub can_handle : List ℕ → ℕ → Bool
can_handle buckets ctx_len = elim (max_ctx buckets) [ none ↦ false | some m ↦ leb ctx_len m ]

-- `next(b for b in self.buckets if b >= ctx_len)`; `none` is StopIteration.
unfoldable pub first_fitting : ℕ → List ℕ → Option ℕ
first_fitting ctx_len [] = none
first_fitting ctx_len (b ∷ bs) = if leb ctx_len b then some b else first_fitting ctx_len bs

unfoldable pub pick : List ℕ → ℕ → Option ℕ
pick buckets ctx_len = first_fitting ctx_len (sorted buckets)

-- `b.cslots` and `b.mask` of the bucket of `mc` entries: zeroed, then filled at the front.
unfoldable pub padded_slots : ℕ → List ℕ → List ℕ
padded_slots mc ctx_slots = ctx_slots ++ replicate (mc - length ctx_slots) 0

unfoldable pub mask : ℕ → List ℕ → List Bool
mask mc ctx_slots = replicate (length ctx_slots) true ++ replicate (mc - length ctx_slots) false
