-- ===== src/Domain/Charge/SixPlaces.antt =====
-- Numbers with six decimal places, as an arithmetic that has the laws.
use native.Mathlib.Nat.{zero-div, zero-mul, mul-le-mul_right}
use didstorageapp.Prelude.{ℕ, zero, suc, ◌+◌, ◌*◌, ◌/◌, ◌≤◌, ◌≡◌, ltb, arith}
use didstorageapp.Prelude.Int.{ℤ, pos, ◌≤ℤ◌, pos_part}
use didstorageapp.Domain.Charge.{Float}

pub quotient_mono : (a b c : ℕ) → a ≤ b → a / c ≤ b / c
quotient_mono a b zero h = omega arith
quotient_mono a b (suc c) h = grind arith

pub scaled_div_mono : (a b c : ℕ) → a ≤ b → a * 1000000 / c ≤ b * 1000000 / c
scaled_div_mono a b c h = quotient_mono _ _ c (mul-le-mul_right 1000000 h)

pub scaled_zero : (c : ℕ) → pos (0 / c / 1000000) ≡ pos 0
scaled_zero c = rw (zero-div c)

pub scaled_of_int_mono : (a b : ℤ) → a ≤ℤ b → pos_part a * 1000000 ≤ pos_part b * 1000000
scaled_of_int_mono a b h = ground arith

abbrev pub six_places : Float
six_places = record {
  F = ℕ;
  of_int = λ n. pos_part n * 1000000;
  mul = λ a b. a * b / 1000000;
  div = λ a b. a * 1000000 / b;
  ceil = λ a. pos ((a + 999999) / 1000000);
  floor = λ a. pos (a / 1000000);
  positive = λ a. ltb 0 a;
  Le = λ a b. a ≤ b;
  of_int_mono = scaled_of_int_mono;
  mul_mono = λ a b c n h. quotient_mono _ _ 1000000 (mul-le-mul_right c h);
  mul_zero = λ c. rw (zero-mul c);
  div_mono = λ a b c p h. scaled_div_mono a b c h;
  div_nonneg = λ a h. omega arith;
  zero_div = λ c p. scaled_zero c;
  positive_nonneg = λ a p. omega arith;
  ceil_mono = λ a b h. omega arith;
  floor_mono = λ a b h. omega arith;
}
