-- ===== src/Billing/Ladder.antt =====
-- The walk down the channel ladder of processOne.
use Prim.Native.Nat.{min}
use didstorageapp.Prelude.{
  ℕ, zero, suc, ◌-◌, ◌≤◌, ◌≡◌, inl, inr, none, some, Bool-cases, arith, leb, false,
}
use didstorageapp.Prelude.Int.{ℤ, pos, ◌≤ℤ◌, leb_ℤ}
use didstorageapp.Billing.{fee, ladder}

-- What holds below `n`, and fails at `n`, reaches no further than below it.
at_top :
    (b : ℤ) (m c n k : ℕ)
    → leb_ℤ (pos (fee m c (suc n))) b ≡ false
    → k ≤ suc n
    → pos (fee m c k) ≤ℤ b
    → k ≤ n
at_top b m c n k e kn f = ground arith

walk_some :
    (b : ℤ) (m c n t : ℕ)
    → ladder b m c n ≡ some t
    → (t ≤ n) × (pos (fee m c t) ≤ℤ b) × ((k : ℕ) → k ≤ n → pos (fee m c k) ≤ℤ b → k ≤ t)
unfolding ladder
walk_some b m c zero t h = (ground arith, ground arith, λ k kn f. omega arith)
walk_some b m c (suc n) t h = elim (Bool-cases (leb_ℤ (pos (fee m c (suc n))) b)) [
  | inl e ↦ (ground arith, ground arith, λ k kn f. ground arith)
  | inr e ↦
      let (below, fits, top) = walk_some b m c n t (ground arith) in
      (omega arith, fits, λ k kn f. top k (at_top b m c n k e kn f) f)
]

fee_floor : (m c t : ℕ) → t ≤ 2 → fee m c 2 ≡ fee m c t
unfolding fee
fee_floor m c t h = let e : t - 2 ≡ 0 = omega arith in rw e

reaches_floor : (b : ℤ) (m c n t k : ℕ) → ladder b m c n ≡ some t → k ≤ 2 → k ≤ n → k ≤ t
reaches_floor b m c n t k h k2 kn =
    let (below, fits, top) = walk_some b m c n t h in
    elim (Bool-cases (leb k t)) [
      | inl e ↦ ground arith
      | inr e ↦ ground (arith, fee_floor m c t, fee_floor m c k, top k)
    ]

-- The rung that is charged fits the balance and is the highest one up to the present count that
-- does: another rung `k` that fits is no higher. From two channels up it is never below two, since
-- no lower rung is cheaper.
pub ladder-some :
    (b : ℤ) (m c n t k : ℕ)
    → ladder b m c n ≡ some t
    → k ≤ n
    → pos (fee m c k) ≤ℤ b
    → (t ≤ n) × (pos (fee m c t) ≤ℤ b) × (k ≤ t) × (min 2 n ≤ t)
ladder-some b m c n t k h kn f =
    let (below, fits, top) = walk_some b m c n t h in
    (below, fits, top k kn f, reaches_floor b m c n t (min 2 n) h (omega arith) (omega arith))

pub ladder-fits : (b : ℤ) (m c n t : ℕ) → ladder b m c n ≡ some t → pos (fee m c t) ≤ℤ b
ladder-fits b m c n t h = (walk_some b m c n t h).1

-- Where no rung is found, not even the monthly charge alone is covered, and so no rung is.
pub ladder-none :
    (b : ℤ) (m c n k : ℕ)
    → ladder b m c n ≡ none
    → (leb_ℤ (pos m) b ≡ false) × (leb_ℤ (pos (fee m c k)) b ≡ false)
unfolding ladder fee
ladder-none b m c zero k h = ground arith
ladder-none b m c (suc n) k h = ground (arith, ladder-none b m c n k)
