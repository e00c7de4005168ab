-- ===== src/Domain/Charge.antt =====
-- ChargeForCall, SupplierChargeForCall and MaxSecondsForBalance of internal/domain/domain.go.
-- float64 is a parameter: its operations, and the monotonicity that IEEE 754 rounding gives.

pub mod Rounding
pub mod Money
pub mod SixPlaces
use didstorageapp.Prelude.{ℕ, zero, suc, ◌+◌, ◌-◌, ◌*◌, ◌%◌, Bool, ◌≡◌, ◌==◌, ltb, if◌then◌else◌}
use didstorageapp.Prelude.Int.{ℤ, pos, negsuc, ◌≤ℤ◌, ltb_ℤ, leb_ℤ, pos_part}

-- What the program uses of float64 and package math.
pub record Float : Type 1 where
  pub F : Type 0
  pub of_int : ℤ → F
  pub mul : F → F → F
  pub div : F → F → F
  -- `int(math.Ceil(x))`, and `math.Floor(x)`, whose value is an integer
  pub ceil : F → ℤ
  pub floor : F → ℤ
  -- `x > 0`
  pub positive : F → Bool
  pub Le : F → F → Type 0
  pub of_int_mono : (a b : ℤ) → a ≤ℤ b → Le (of_int a) (of_int b)
  pub mul_mono : (a b c : F) → Le (of_int (pos 0)) c → Le a b → Le (mul a c) (mul b c)
  pub mul_zero : (c : F) → ceil (mul (of_int (pos 0)) c) ≡ pos 0
  pub div_mono : (a b c : F) → positive c ≡ Bool.true → Le a b → Le (div a c) (div b c)
  pub div_nonneg : (a : F) → Le (of_int (pos 0)) a → Le (of_int (pos 0)) (div a (of_int (pos 60)))
  pub zero_div : (c : F) → positive c ≡ Bool.true → floor (div (of_int (pos 0)) c) ≡ pos 0
  pub positive_nonneg : (a : F) → positive a ≡ Bool.true → Le (of_int (pos 0)) a
  pub ceil_mono : (a b : F) → Le a b → ceil a ≤ℤ ceil b
  pub floor_mono : (a b : F) → Le a b → floor a ≤ℤ floor b

-- A non-positive minimum or increment means 60.
abbrev pub or_60 : ℤ → ℕ
or_60 (pos zero) = 60
or_60 (pos (suc n)) = suc n
or_60 (negsuc n) = 60

-- The seconds that a call of `s` seconds is billed for.
unfoldable pub billed : ℕ → ℕ → ℕ → ℕ
billed s least inc =
    if ltb s least then least else if (s % inc) == 0 then s else s + (inc - s % inc)

module _ (fl : Float) where
  open fl use {F, of_int, mul, div, ceil, floor, positive}

  -- float64(billed) * (rate / 60.0), rounded up
  abbrev cents : ℕ → F → ℤ
  cents s rate = ceil (mul (of_int (pos s)) (div rate (of_int (pos 60))))

  -- billedSeconds, chargedMinutes, chargeCents
  unfoldable pub charge_for_call : ℤ → ℤ → ℤ → F → ℕ × ℤ × ℤ
  charge_for_call billsec least inc rate =
      if leb_ℤ billsec (pos 0)
      then (0, pos 0, pos 0)
      else let s = billed (pos_part billsec) (or_60 least) (or_60 inc) in
        (s, ceil (div (of_int (pos s)) (of_int (pos 60))), cents s rate)

  unfoldable pub supplier_charge_for_call : ℤ → ℤ → ℤ → F → ℤ
  supplier_charge_for_call billsec least inc rate =
      if leb_ℤ billsec (pos 0)
      then pos 0
      else if positive rate
      then cents (billed (pos_part billsec) (or_60 least) (or_60 inc)) rate
      else pos 0

  unfoldable pub max_seconds_for_balance : ℤ → F → ℕ
  max_seconds_for_balance balance rate =
      let whole = floor (div (of_int balance) rate) in
      let seconds = if ltb_ℤ whole (pos 0) then 0 else pos_part whole * 60 in
      if positive rate then seconds else 4 * 60 * 60
