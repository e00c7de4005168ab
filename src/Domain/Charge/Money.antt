-- ===== src/Domain/Charge/Money.antt =====
-- Charges and call limits in cents and seconds, over any float64 arithmetic that is monotone.
use didstorageapp.Prelude.{ℕ, ◌%◌, ◌≤◌, ◌<◌, ◌≡◌, Bool, true, arith}
use didstorageapp.Prelude.Int.{ℤ, pos, ◌≤ℤ◌, leb_ℤ, pos_part}
use didstorageapp.Domain.Charge.{
  Float, billed, or_60, cents, charge_for_call, supplier_charge_for_call, max_seconds_for_balance,
}
use didstorageapp.Domain.Charge.Rounding.{billed_mono}

or_60_pos : (n : ℤ) → 0 < or_60 n
or_60_pos n = ground arith

module _ (fl : Float) where
  open fl use {F, of_int, Le, positive}

  cents_mono :
      (s t : ℕ) (rate : F) → Le (of_int (pos 0)) rate → s ≤ t → cents fl s rate ≤ℤ cents fl t rate
  cents_mono s t rate r h =
      fl.ceil_mono _ _
        (fl.mul_mono _ _ _ (fl.div_nonneg rate r) (fl.of_int_mono (pos s) (pos t) (omega arith)))

  cents_nonneg : (s : ℕ) (rate : F) → Le (of_int (pos 0)) rate → pos 0 ≤ℤ cents fl s rate
  cents_nonneg s rate r =
      let none_due = fl.mul_zero (fl.div rate (of_int (pos 60))) in
      rw none_due at (cents_mono 0 s rate r (omega arith))

  seconds : ℤ → ℤ → ℤ → ℕ
  seconds a least inc = billed (pos_part a) (or_60 least) (or_60 inc)

  seconds_mono :
      (a b least inc : ℤ)
      → a ≤ℤ b
      → leb_ℤ a (pos 0) ≡ Bool.false
      → seconds a least inc ≤ seconds b least inc
  unfolding seconds
  seconds_mono a b least inc h e =
      billed_mono (pos_part a) (pos_part b) (or_60 least) (or_60 inc) (or_60_pos inc) (ground arith)

  -- At a rate that is not negative a longer call never costs the customer or the platform less,
  -- and no charge is negative.
  pub charge_mono :
      (a b least inc : ℤ) (rate : F)
      → Le (of_int (pos 0)) rate
      → a ≤ℤ b
      → ((charge_for_call fl a least inc rate).2 ≤ℤ (charge_for_call fl b least inc rate).2)
        × (supplier_charge_for_call fl a least inc rate
            ≤ℤ supplier_charge_for_call fl b least inc rate)
        × (pos 0 ≤ℤ (charge_for_call fl a least inc rate).2)
  unfolding seconds charge_for_call supplier_charge_for_call
  charge_mono a b least inc rate r h =
      let s = seconds a least inc in
      let t = seconds b least inc in
      (
        ground (
          arith,
          cents_mono s t rate r,
          cents_nonneg s rate r,
          cents_nonneg t rate r,
          seconds_mono a b least inc h,
        ),
        ground (
          arith,
          cents_mono s t rate r,
          cents_nonneg s rate r,
          cents_nonneg t rate r,
          seconds_mono a b least inc h,
        ),
        ground (arith, cents_nonneg s rate r),
      )

  -- The authorised time is a whole number of minutes and never shrinks as the balance grows; the
  -- rate is positive.
  pub max_seconds_mono :
      (a b : ℤ) (rate : F)
      → positive rate ≡ true
      → a ≤ℤ b
      → (max_seconds_for_balance fl a rate % 60 ≡ 0)
        × (max_seconds_for_balance fl a rate ≤ max_seconds_for_balance fl b rate)
  unfolding max_seconds_for_balance
  max_seconds_mono a b rate r h =
      let grows = fl.floor_mono _ _ (fl.div_mono _ _ rate r (fl.of_int_mono a b h)) in
      (ground arith, ground arith)

  -- A balance that is not positive authorises no second at a positive rate.
  pub max_seconds_exhausted :
      (a : ℤ) (rate : F) → positive rate ≡ true → a ≤ℤ pos 0 → max_seconds_for_balance fl a rate ≡ 0
  unfolding max_seconds_for_balance
  max_seconds_exhausted a rate r e =
      let empty =
        rw (fl.zero_div rate r) at
          (fl.floor_mono _ _ (fl.div_mono _ _ rate r (fl.of_int_mono a (pos 0) e))) in
      ground arith
