-- ===== src/Workers/Cleanup.antt =====
-- `prefill_and_map` gives the source's blocks back, whatever the mapping does.
use di_spec.Prelude.{◌≡◌, Outcome, final}
use di_spec.BlockManager.{BlockManager}

-- A call that leaves the state as it is, whether it returns or raises.
abbrev Reads {ℓ κ} : {S : Type ℓ} {A : Type κ} → S → Outcome S A → Type ℓ
Reads s o = final o ≡ s
