-- ===== src/Prelude/Numbers.antt =====
-- Products, quotients and remainders of native numbers.
use Prim.Native.Nat.{ℕ, zero, suc, ◌+◌, ◌*◌, ◌/◌, ◌%◌, ◌^◌, ◌≤◌, ◌<◌}
use mathlib.Core.Path.{◌≡◌, sym, ap}
use mathlib.Core.Logic.{inl, inr}
use native.Mathlib.Omega.{arith}
use native.Mathlib.Nat.{pow-suc, pow-zero}
use di_spec.Prelude.Tests.{ltb, ltb→lt, ltb→le, Bool-cases}

pub mul_mono : (c a b : ℕ) → a ≤ b → c * a ≤ c * b
mul_mono c a b h = grind arith

pub mul_cancel : (v a b : ℕ) → 0 < v → v * a ≤ v * b → a ≤ b
mul_cancel v a b h le = elim (Bool-cases (ltb b a)) [
  | inr fine ↦ ltb→le b a fine
  | inl over ↦ absurd (omega (arith, le, mul_mono v (suc b) a (ltb→lt b a over)))
]

pub mul_pos : (r s : ℕ) → 0 < r → 0 < s → 0 < r * s
mul_pos r s h k = grind arith

pub mod_bound : (n b : ℕ) → 0 < b → n % b < b
mod_bound n b h = grind arith

not_above : (m b c r q : ℕ) → q < m → b * m + r ≡ c * m + q → b ≤ c
not_above m b c r q hq e = grind arith

-- Quotient and remainder are determined.
pub parts_unique : (m b c r q : ℕ) → r < m → q < m → b * m + r ≡ c * m + q → (b ≡ c) × (r ≡ q)
parts_unique m b c r q hr hq e =
    let below : b ≤ c = not_above m b c r q hq e in
    let above : c ≤ b = not_above m c b q r hr (sym e) in
    let same : b ≡ c = omega arith in (same, omega (arith, e, ap (λ (n : ℕ). n * m) same))

pub pow_pos : (b n : ℕ) → 0 < b → 0 < b ^ n
pow_pos b zero h = rw pow-zero (omega arith)
pow_pos b (suc n) h = omega (arith, pow-suc b n, mul_pos (b ^ n) b (pow_pos b n h) h)

split : (n b : ℕ) → n ≡ n / b * b + n % b
split n b = grind arith

regroup_lem : (t b p : ℕ) → t * b * p ≡ t * (p * b)
regroup_lem t b p = grind arith

-- A remainder by a product, digit first.
pub mod_digit : (n p b : ℕ) → 0 < p → 0 < b → n % (p * b) ≡ n / p % b * p + n % p
mod_digit n p b hp hb =
    let d : ℕ = n / p % b in
    let r : ℕ = n % p in
    let small : d * p + r < p * b =
      digit_below d r p b (mod_bound (n / p) b hb) (mod_bound n p hp) in
    let scaled : n / p * p ≡ (n / p / b * b + d) * p = ap (λ (q : ℕ). q * p) (split (n / p) b) in
    let regroup : n / p / b * b * p ≡ n / p / b * (p * b) = regroup_lem (n / p / b) b p in
    (parts_unique (p * b) (n / (p * b)) (n / p / b) (n % (p * b)) (d * p + r)
      (mod_bound n (p * b) (mul_pos p b hp hb)) small
      (omega (arith, split n (p * b), split n p, scaled, regroup))).1
  where
    digit_below : (d r p b : ℕ) → d < b → r < p → d * p + r < p * b
    digit_below d r p b hd hr = grind arith
