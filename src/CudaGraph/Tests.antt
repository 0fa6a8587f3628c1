-- ===== src/CudaGraph/Tests.antt =====
-- Three buckets, given out of order.
use di_spec.Prelude.{ℕ, ◌≡◌, ◌≤◌, ◌<◌, refl, List, [], ◌∷◌, some, length, count}
use di_spec.Scheduler.{get_last}
use di_spec.CudaGraph.{sorted, insert_bucket, max_ctx, can_handle, pick, padded_slots, mask}
use di_spec.CudaGraph.Buckets.{pick-IsLeast}

abbrev buckets : List ℕ
buckets = 4 ∷ 8 ∷ 2 ∷ []

abbrev slots : List ℕ
slots = 6 ∷ 7 ∷ 4 ∷ []

pick-IsLeast_example :
    (b : ℕ) × (pick buckets (length slots) ≡ some b)
    × (length slots ≤ b)
    × (0 < count b buckets)
    × ((c : ℕ) → 0 < count c buckets → length slots ≤ c → b ≤ c)
    × (length (padded_slots b slots) ≡ b)
    × (length (mask b slots) ≡ b)
unfolding can_handle max_ctx get_last sorted insert_bucket
pick-IsLeast_example = pick-IsLeast buckets slots refl
