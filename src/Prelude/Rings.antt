-- ===== src/Prelude/Rings.antt =====
-- Commutative rings: the exact numbers that stand for the floats of a tensor.
pub mod Two
use mathlib.Core.Path.{◌≡◌, sym, ap, ◌∙◌}

pub record Ring {ℓ} (A : Type ℓ) : Type ℓ where
  pub add : A → A → A
  pub neg : A → A
  pub zero : A
  pub mul : A → A → A
  pub one : A
  pub neg-add : (x : A) → add (neg x) x ≡ zero
  pub zero-add : (x : A) → add zero x ≡ x
  pub one-mul : (x : A) → mul one x ≡ x
  pub mul-add : (x y z : A) → mul x (add y z) ≡ add (mul x y) (mul x z)
  pub add_comm : (x y : A) → add x y ≡ add y x
  pub add_assoc : (x y z : A) → add (add x y) z ≡ add x (add y z)
  pub mul_comm : (x y : A) → mul x y ≡ mul y x
  pub mul_assoc : (x y z : A) → mul (mul x y) z ≡ mul x (mul y z)

module _ {ℓ} {A : Type ℓ} (r : Ring A) where
  open r use {zero, one, add, neg, mul, add_assoc, add_comm, mul_assoc, mul_comm}

  pub add-zero : (a : A) → add a zero ≡ a
  add-zero a = add_comm a zero ∙ r.zero-add a

  -- A sum that leaves its other summand as it is, is 0.
  pub cancel : (a b : A) → add a b ≡ b → a ≡ zero
  cancel a b h =
      sym (add-zero a)
      ∙ ap (add a) (sym (add_comm b (neg b) ∙ r.neg-add b))
      ∙ sym (add_assoc a b (neg b))
      ∙ ap (λ x. add x (neg b)) h
      ∙ (add_comm b (neg b) ∙ r.neg-add b)

  pub mul-zero : (a : A) → mul a zero ≡ zero
  mul-zero a =
      cancel (mul a zero) (mul a zero) (sym (r.mul-add a zero zero) ∙ ap (mul a) (r.zero-add zero))

  pub neg_of_add : (a b : A) → add a b ≡ zero → a ≡ neg b
  neg_of_add a b h =
      sym (add-zero a)
      ∙ ap (add a) (sym (add_comm b (neg b) ∙ r.neg-add b))
      ∙ sym (add_assoc a b (neg b))
      ∙ ap (λ x. add x (neg b)) h
      ∙ r.zero-add (neg b)

  pub mul-neg : (a b : A) → mul a (neg b) ≡ neg (mul a b)
  mul-neg a b =
      neg_of_add (mul a (neg b)) (mul a b)
        (sym (r.mul-add a (neg b) b) ∙ ap (mul a) (r.neg-add b) ∙ mul-zero a)

  pub neg-neg : (a : A) → neg (neg a) ≡ a
  neg-neg a = sym (neg_of_add a (neg a) (add_comm a (neg a) ∙ r.neg-add a))

  pub neg-mul : (a b : A) → mul (neg a) b ≡ neg (mul a b)
  neg-mul a b = mul_comm (neg a) b ∙ mul-neg b a ∙ ap neg (mul_comm b a)

  pub add-mul : (a b c : A) → mul (add a b) c ≡ add (mul a c) (mul b c)
  add-mul a b c =
      mul_comm (add a b) c
      ∙ r.mul-add c a b
      ∙ ap (λ x. add x (mul c b)) (mul_comm c a)
      ∙ ap (add (mul a c)) (mul_comm c b)
