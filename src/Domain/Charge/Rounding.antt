-- ===== src/Domain/Charge/Rounding.antt =====
-- The billed duration: the minimum first, then whole increments.
use native.Mathlib.Nat.{div-add-mod, div-add-mod', mod-lt, mul-mod_left}
use didstorageapp.Prelude.{
  ℕ, ◌+◌, ◌-◌, ◌*◌, ◌/◌, ◌%◌, ◌≤◌, ◌<◌, ◌≡◌, ap, arith, ◌==◌, ltb, inl, inr, Bool-cases,
}
use didstorageapp.Domain.Charge.{billed}

-- Cut `s` into whole increments and the rest.
whole_le : (s k inc : ℕ) → 0 < inc → s ≤ k * inc → 0 < s % inc → s / inc * inc + inc ≤ k * inc
whole_le s k inc p h r = grind (arith, div-add-mod s inc, mod-lt s p)

whole_eq : (s inc : ℕ) → 0 < inc → s + (inc - s % inc) ≡ (s / inc + 1) * inc
whole_eq s inc p = grind (arith, div-add-mod' s inc, mod-lt s p)

billed-mod : (s least inc : ℕ) → 0 < inc → least ≤ s → billed s least inc % inc ≡ 0
unfolding billed
billed-mod s least inc p h = elim (Bool-cases ((s % inc) == 0)) [
  | inl e ↦ ground arith
  | inr e ↦
      ground (arith, ap (λ (n : ℕ). n % inc) (whole_eq s inc p), mul-mod_left (s / inc + 1) inc)
]

billed-le-mul :
    (s least inc k : ℕ) → 0 < inc → least ≤ s → s ≤ k * inc → billed s least inc ≤ k * inc
unfolding billed
billed-le-mul s least inc k p h hk =
    ground (arith, whole_le s k inc p hk, div-add-mod' s inc, mod-lt s p)

pub le-billed :
    (s least inc : ℕ) → 0 < inc → (s ≤ billed s least inc) × (least ≤ billed s least inc)
unfolding billed
le-billed s least inc p = ground (arith, mod-lt s p)

-- A call no shorter than the minimum is billed for the least whole number of increments that
-- covers it: any `k` increments that cover it are no fewer. The increment is positive.
pub billed-least :
    (s least inc k : ℕ)
    → 0 < inc
    → least ≤ s
    → s ≤ k * inc
    → (s ≤ billed s least inc) × (billed s least inc % inc ≡ 0) × (billed s least inc ≤ k * inc)
billed-least s least inc k p h hk =
    ((le-billed s least inc p).0, billed-mod s least inc p h, billed-le-mul s least inc k p h hk)

billed_short : (s least inc : ℕ) → s < least → billed s least inc ≡ least
unfolding billed
billed_short s least inc h = ground arith

-- A longer call is never billed for fewer seconds.
pub billed_mono : (s t least inc : ℕ) → 0 < inc → s ≤ t → billed s least inc ≤ billed t least inc
billed_mono s t least inc p h = elim (Bool-cases (ltb s least)) [
  | inl short ↦ ground (arith, billed_short s least inc, le-billed t least inc p)
  | inr long ↦
      let k = billed t least inc / inc in
      let whole : billed t least inc ≡ k * inc =
        omega
          (arith, div-add-mod' (billed t least inc) inc, billed-mod t least inc p (ground arith)) in
      ground (arith, whole, le-billed t least inc p, billed-le-mul s least inc k p)
]
