-- ===== src/Autoscale.antt =====
-- dispec/router/autoscale.py. The floats of the configuration are exact ratios of numbers, and a
-- comparison of the utilization with a threshold is the comparison of products.
pub mod Control
mod Tests
use di_spec.Prelude.{ℕ, ◌+◌, ◌-◌, ◌*◌, Bool, true, false, ◌&&◌, ltb, if◌then◌else◌}

pub record Ratio : Type 0 where
  pub num : ℕ
  pub den : ℕ

pub record AutoscaleConfig : Type 0 where
  pub min_replicas : ℕ
  pub max_replicas : ℕ
  pub seqs_per_replica : Ratio
  pub scale_up_util : Ratio
  pub scale_down_util : Ratio

pub record DraftPoolAutoscaler : Type 0 where
  pub cfg : AutoscaleConfig
  pub replicas : ℕ

abbrev pub default_config : AutoscaleConfig
default_config = record {
  min_replicas = 1;
  max_replicas = 8;
  seqs_per_replica = record { num = 4; den = 1 };
  scale_up_util = record { num = 8; den = 10 };
  scale_down_util = record { num = 4; den = 10 };
}

unfoldable pub init : AutoscaleConfig → DraftPoolAutoscaler
init cfg = record { cfg = cfg; replicas = cfg.min_replicas }

-- `util > threshold`; at capacity 0 the utilization is infinite.
unfoldable pub util_above : AutoscaleConfig → ℕ → ℕ → Ratio → Bool
util_above c replicas active_seqs t =
    if ltb 0 (replicas * c.seqs_per_replica.num)
    then ltb (t.num * (replicas * c.seqs_per_replica.num))
        (active_seqs * c.seqs_per_replica.den * t.den)
    else true

-- `util < threshold`
unfoldable pub util_below : AutoscaleConfig → ℕ → ℕ → Ratio → Bool
util_below c replicas active_seqs t =
    if ltb 0 (replicas * c.seqs_per_replica.num)
    then ltb (active_seqs * c.seqs_per_replica.den * t.den)
        (t.num * (replicas * c.seqs_per_replica.num))
    else false

-- The new state; the source returns its `replicas`.
unfoldable pub observe : DraftPoolAutoscaler → ℕ → DraftPoolAutoscaler
observe a active_seqs =
    let c : AutoscaleConfig = a.cfg in
    if util_above c a.replicas active_seqs c.scale_up_util && ltb a.replicas c.max_replicas
    then record a { replicas = a.replicas + 1 }
    else if util_below c a.replicas active_seqs c.scale_down_util && ltb c.min_replicas a.replicas
    then record a { replicas = a.replicas - 1 }
    else a
