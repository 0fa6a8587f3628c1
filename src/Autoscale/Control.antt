-- ===== src/Autoscale/Control.antt =====
-- The control policy stays in range, moves by one, and does not flap.
use di_spec.Prelude.{
  ℕ, suc, ◌+◌, ◌*◌, ◌≤◌, ◌<◌, ◌≡◌, true, false, arith, ltb→lt, zero, mul_mono, mul_cancel, mul_pos,
}
use di_spec.Autoscale.{Ratio, AutoscaleConfig, DraftPoolAutoscaler, util_above, util_below, observe}

pub record IsInRange (a : DraftPoolAutoscaler) : Type 0 where
  pub above : a.cfg.min_replicas ≤ a.replicas
  pub below : a.replicas ≤ a.cfg.max_replicas

-- An observation keeps the replica count between the limits, changes it by one at most, and leaves
-- the configuration alone.
pub observe-IsInRange :
    (a : DraftPoolAutoscaler) (active_seqs : ℕ)
    → IsInRange a
    → IsInRange (observe a active_seqs)
      × ((observe a active_seqs).replicas ≤ a.replicas + 1)
      × (a.replicas ≤ (observe a active_seqs).replicas + 1)
      × ((observe a active_seqs).cfg ≡ a.cfg)
unfolding observe
observe-IsInRange a active_seqs v = ground arith

-- The scale-down threshold is at most half of the scale-up threshold, and the pool never empties.
pub record IsDamped (c : AutoscaleConfig) : Type 0 where
  pub some_replica : 1 ≤ c.min_replicas
  pub some_seqs : 0 < c.seqs_per_replica.num
  pub gap :
      2 * (c.scale_down_util.num * c.scale_up_util.den)
      ≤ c.scale_up_util.num * c.scale_down_util.den

positive_right : (x v : ℕ) → 0 < x * v → 0 < v
positive_right x zero h = absurd (omega arith)
positive_right x (suc v) h = omega arith

-- The two thresholds cannot both be crossed by a step of one replica: `x` is the load, `s` the
-- capacity of a replica, `u / v` the upper and `d / e` the lower threshold.
no_flap :
    (x s u v d e r r' : ℕ)
    → 2 * (d * v) ≤ u * e
    → r' ≤ 2 * r
    → u * (r * s) < x * v
    → d * (r' * s) ≤ x * e
no_flap x s u v d e r r' gap step high =
    mul_cancel v (d * (r' * s)) (x * e) (positive_right x v (omega arith)) (
      omega (
        arith,
        mul_mono (d * v * s) r' (2 * r) step,
        mul_mono (r * s) (2 * (d * v)) (u * e) gap,
        mul_mono e (u * (r * s)) (x * v) (omega arith),
      ))

-- A load that calls for more than `r` replicas does not call for fewer than `r + 1`.
above-not_below :
    (c : AutoscaleConfig) (r n : ℕ)
    → IsDamped c
    → 0 < r
    → util_above c r n c.scale_up_util ≡ true
    → util_below c (r + 1) n c.scale_down_util ≡ false
unfolding util_above util_below
above-not_below c r n k pos up =
    let s : ℕ = c.seqs_per_replica.num in
    let d : Ratio = c.scale_down_util in
    let u : Ratio = c.scale_up_util in
    let x : ℕ = n * c.seqs_per_replica.den in
    let busy : 0 < r * s = mul_pos r s pos k.some_seqs in
    let high : u.num * (r * s) < x * u.den =
      ltb→lt (u.num * (r * s)) (x * u.den) (ground (arith, up)) in
    let low : d.num * ((r + 1) * s) ≤ x * d.den =
      no_flap x s u.num u.den d.num d.den r (r + 1) k.gap (omega arith) high in
    ground (arith, low, mul_pos (r + 1) s)

grown :
    (a : DraftPoolAutoscaler) (n : ℕ)
    → a.replicas < (observe a n).replicas
    → (util_above a.cfg a.replicas n a.cfg.scale_up_util ≡ true)
      × (observe a n ≡ record a { replicas = a.replicas + 1 })
unfolding observe
grown a n h = ground arith

settled :
    (a : DraftPoolAutoscaler) (n : ℕ)
    → util_below a.cfg a.replicas n a.cfg.scale_down_util ≡ false
    → a.replicas ≤ (observe a n).replicas
unfolding observe
settled a n h = ground arith

-- At a steady load a damped pool does not flap: where the scale-down threshold is at most half of
-- the scale-up threshold, a replica at least is kept and serves some sequences, and the count of
-- replicas is within the limits, an observation that adds a replica is not followed, at the same
-- load, by one that takes it away. (Thresholds that are closer to each other are accepted too.)
pub observe_up_stays :
    (a : DraftPoolAutoscaler) (active_seqs : ℕ)
    → IsInRange a
    → IsDamped a.cfg
    → a.replicas < (observe a active_seqs).replicas
    → a.replicas < (observe (observe a active_seqs) active_seqs).replicas
observe_up_stays a n v k up =
    let (high, e) = grown a n up in
    let b : DraftPoolAutoscaler = record a { replicas = a.replicas + 1 } in
    let calm : a.replicas + 1 ≤ (observe b n).replicas =
      settled b n (above-not_below a.cfg a.replicas n k (omega arith) high) in
    rw e (omega arith)
