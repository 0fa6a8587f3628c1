-- ===== src/Prelude/Rings/Two.antt =====
-- The field of two elements.
use mathlib.Core.Path.{◌≡◌, refl}
use mathlib.Core.Bool.{Bool, true, false, ◌&&◌}
use di_spec.Prelude.Rings.{Ring}

abbrev pub xor : Bool → Bool → Bool
xor true true = false
xor true false = true
xor false b = b

pub xor_assoc : (a b c : Bool) → xor (xor a b) c ≡ xor a (xor b c)
xor_assoc true true true = refl
xor_assoc true true false = refl
xor_assoc true false c = refl
xor_assoc false b c = refl

pub xor_comm : (a b : Bool) → xor a b ≡ xor b a
xor_comm true true = refl
xor_comm true false = refl
xor_comm false true = refl
xor_comm false false = refl

pub xor_self : (a : Bool) → xor a a ≡ false
xor_self true = refl
xor_self false = refl

pub and_assoc : (a b c : Bool) → (a && b && c) ≡ (a && (b && c))
and_assoc true b c = refl
and_assoc false b c = refl

pub and_comm : (a b : Bool) → (a && b) ≡ (b && a)
and_comm true true = refl
and_comm true false = refl
and_comm false true = refl
and_comm false false = refl

pub and_xor : (a b c : Bool) → (a && xor b c) ≡ xor (a && b) (a && c)
and_xor true b c = refl
and_xor false b c = refl

abbrev pub f2 : Ring Bool
f2 = record {
  zero = false;
  one = true;
  add = xor;
  neg = λ a. a;
  mul = ◌&&◌;
  add_assoc = xor_assoc;
  add_comm = xor_comm;
  zero-add = λ a. refl;
  neg-add = xor_self;
  mul_assoc = and_assoc;
  mul_comm = and_comm;
  one-mul = λ a. refl;
  mul-add = and_xor;
}
