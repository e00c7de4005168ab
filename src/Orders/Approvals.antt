-- ===== src/Orders/Approvals.antt =====
-- What an approval of internal/kyc/kyc.go does to the orders that wait for the bundle.
use didstorageapp.Prelude.{
  ℕ, ◌+◌, ◌≡◌, false, List, [], ◌∷◌, any, map, if◌then◌else◌, refl, arith, Bool-cases, inl, inr, ap,
  sym,
}
use didstorageapp.Orders.Tables.{Rental, Shop, Reply, ok, is_active, clashes}
use didstorageapp.Orders.Kyc.{waits_for, activate, count_waiting, is_approvable, approve_bundle}

-- The orders that calls may reach.
unfoldable pub count_active : List Rental → ℕ
count_active [] = 0
count_active (r ∷ rs) = (if is_active r.order.status then 1 else 0) + count_active rs

count_waiting-activate :
    (bid : ℕ) (rs : List Rental) → count_waiting bid (map (activate bid) rs) ≡ 0
unfolding count_waiting
count_waiting-activate bid [] = refl
count_waiting-activate bid (r ∷ rs) = elim (Bool-cases (waits_for bid r)) [
  | inl e ↦ rw (e, count_waiting-activate bid rs) refl
  | inr e ↦ rw (e, e, count_waiting-activate bid rs) refl
]

count_active-activate :
    (bid : ℕ) (rs : List Rental)
    → count_active (map (activate bid) rs) ≡ count_active rs + count_waiting bid rs
unfolding count_active count_waiting
count_active-activate bid [] = refl
count_active-activate bid (r ∷ rs) = ground (arith, count_active-activate bid rs)

-- An approval that is carried out answers with the number by which the active orders grow, and
-- leaves no order that waits for the bundle.
pub approve_bundle_count :
    (bid n : ℕ) (shop shop' : Shop)
    → approve_bundle false bid shop ≡ (ok, n, shop')
    → (count_active shop'.rentals ≡ count_active shop.rentals + n)
      × (count_waiting bid shop'.rentals ≡ 0)
unfolding approve_bundle
approve_bundle_count bid n shop shop' h = elim (Bool-cases (any (is_approvable bid) shop.bundles)) [
  | inr e ↦ absurd (cc (rw e at h))
  | inl e ↦ elim (Bool-cases (clashes (map (activate bid) shop.rentals))) [
    | inl c ↦ absurd (cc (rw (e, c) at h))
    | inr c ↦
        let eq = rw (e, c) at h in
        let rentals_lem : map (activate bid) shop.rentals ≡ shop'.rentals =
          ap (λ (p : Reply × ℕ × Shop). p.2.rentals) eq in
        let n_lem : count_waiting bid shop.rentals ≡ n = ap (λ (p : Reply × ℕ × Shop). p.1) eq in
        rw (sym rentals_lem, sym n_lem)
          (count_active-activate bid shop.rentals, count_waiting-activate bid shop.rentals)
  ]
]
