-- ===== src/Autoscale/Tests.antt =====
-- The default configuration at a load.
use di_spec.Prelude.{◌<◌, arith}
use di_spec.Autoscale.{DraftPoolAutoscaler, default_config, observe, util_above}
use di_spec.Autoscale.Control.{IsInRange, IsDamped, observe_up_stays}

abbrev pool : DraftPoolAutoscaler
pool = record { cfg = default_config; replicas = 2 }

pool-IsInRange : IsInRange pool
pool-IsInRange = record { above = omega arith; below = omega arith }

default_config-IsDamped : IsDamped default_config
default_config-IsDamped = record {
  some_replica = omega arith;
  some_seqs = omega arith;
  gap = omega arith;
}

observe_up_stays_example : pool.replicas < (observe (observe pool 7) 7).replicas
unfolding observe util_above
observe_up_stays_example =
    observe_up_stays pool 7 pool-IsInRange default_config-IsDamped (omega arith)
