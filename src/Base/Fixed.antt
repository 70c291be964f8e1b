-- ===== src/Base/Fixed.antt =====
-- Numbers in ten-thousandths: an instance of `Number`, for the examples.
use infra_lab.Base.{
  ◌+◌, ◌*◌, ◌/◌, ◌%◌, ◌≡◌, true, ok, Option, none, some, arith, ◌==◌, if◌then◌else◌,
}
use Prim.Native.Nat.{◌^◌}
use infra_lab.Base.Int.{
  ℤ, pos, negsuc, pos_part, neg_part, sub_ℕ, ◌+ℤ◌, ◌-ℤ◌, ◌*ℤ◌, ltb_ℤ, leb_ℤ, floor_div,
}
use infra_lab.Base.Number.{Number, Lawful}

abbrev negate : ℤ → ℤ
negate a = sub_ℕ (neg_part a) (pos_part a)

abbrev scaled_quotient : ℤ → ℤ → ℤ
scaled_quotient a (pos b) = floor_div (a *ℤ pos 10000) b
scaled_quotient a (negsuc b) = floor_div (negate a *ℤ pos 10000) (b + 1)

abbrev pub Fixed : Type 0
Fixed = ℤ

-- As an `int`, a whole number of units.
abbrev whole? : Fixed → Option ℤ
whole? (pos a) = if a % 10000 == 0 then some (pos (a / 10000)) else none
whole? (negsuc a) = if (a + 1) % 10000 == 0 then some (negsuc (a / 10000)) else none

instance unfoldable pub fixed_number : Number Fixed
unfolding ◌+ℤ◌ ◌-ℤ◌ ◌*ℤ◌
fixed_number = record {
  of_ℤ = λ a. a *ℤ pos 10000;
  decimal = λ m k. pos (m * 10000 / 10 ^ k);
  add = ◌+ℤ◌;
  sub = ◌-ℤ◌;
  mul = λ a b. floor_div (a *ℤ b) 10000;
  quotient = scaled_quotient;
  abs = λ a. pos (pos_part a + neg_part a);
  round2 = λ a. floor_div (a +ℤ pos 50) 100 *ℤ pos 100;
  round = λ a. ok (floor_div (a +ℤ pos 5000) 10000);
  round4 = λ a. a;
  lt = ltb_ℤ;
  le = leb_ℤ;
  is_zero = λ a. pos_part a + neg_part a == 0;
  floor = λ a. ok (floor_div a 10000);
  index? = whole?;
  parse = λ s. none;
  show = λ x. "";
  mean = λ xs. pos 0;
  repr = λ v. "";
}

floor_fits : (x n : ℤ) → ok (floor_div x 10000) ≡ ok n → leb_ℤ (n *ℤ pos 10000) x ≡ true
unfolding ◌*ℤ◌ fixed_number
floor_fits (pos a) n h = ground arith
floor_fits (negsuc a) n h = ground arith

-- The laws hold of these numbers.
pub Fixed-Lawful : Lawful Fixed
unfolding ◌*ℤ◌ ◌+ℤ◌ ◌-ℤ◌ fixed_number
Fixed-Lawful = record { floor_le = floor_fits; le_below = λ m n x h p. ground arith }
