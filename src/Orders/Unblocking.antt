-- ===== src/Orders/Unblocking.antt =====
-- Block and unblock of internal/web/block_handlers.go, one after the other.
use didstorageapp.Prelude.{
  ℕ, ◌≡◌, true, false, none, List, [], ◌∷◌, any, map, ◌==◌, refl, arith, Bool-cases, inl, inr, ap,
  All,
}
use didstorageapp.Prelude.Text.{Bytes, codes, same, same→eq, is_empty}
use didstorageapp.Billing.{OrderStatus, active}
use didstorageapp.Orders.Tables.{
  Rental, Customer, block, unblock, Shop, ok, is_active, update_row, clashes,
}
use didstorageapp.Orders.Block.{
  is_quarantined, is_user_in, with_user_status, quarantine, user_block, restore, or_reason,
  user_unblock,
}

-- An order with no route kept aside, and not quarantined.
abbrev pub IsPlain : Rental → Type 0
IsPlain r =
    (is_quarantined r.order.status ≡ false)
    × (r.pre_quarantine_route_kind ≡ none)
    × (r.pre_quarantine_route_target ≡ none)

active_only : (s : OrderStatus) → is_active s ≡ true → s ≡ active
active_only s h = ground (arith, h)

restore-quarantine : (uid : ℕ) (r : Rental) → IsPlain r → restore uid (quarantine uid r) ≡ r
restore-quarantine uid r (q, k, t) = elim (Bool-cases (r.order.user_id == uid)) [
  | inr e ↦ rw (e, e) refl
  | inl e ↦ elim (Bool-cases (is_active r.order.status)) [
    | inl a ↦ let was = active_only r.order.status a in rw (e, a, e) (cc (was, k, t))
    | inr a ↦ rw (e, a, e, q) refl
  ]
]

restore-quarantine-map :
    (uid : ℕ) (rs : List Rental) → All IsPlain rs → map (restore uid) (map (quarantine uid) rs) ≡ rs
restore-quarantine-map uid [] h = refl
restore-quarantine-map uid (r ∷ rs) (p, h) =
    rw (restore-quarantine uid r p, restore-quarantine-map uid rs h) refl

back_active :
    (uid : ℕ) (cs : List Customer)
    → any (is_user_in uid (codes "inactive")) cs ≡ false
    → update_row
        (is_user_in uid (codes "inactive"))
        (with_user_status (codes "active"))
        (update_row (is_user_in uid (codes "active")) (with_user_status (codes "inactive")) cs)
      ≡ cs
unfolding update_row
back_active uid [] h = refl
back_active uid (c ∷ cs) h = elim (Bool-cases (c.user.id == uid)) [
  | inr e ↦ rw (e, e) (ap (λ l. c ∷ l) (back_active uid cs (rw e at h)))
  | inl e ↦ elim (Bool-cases (same c.user.status (codes "active"))) [
    | inl a ↦ let was = same→eq c.user.status (codes "active") a in rw (e, a, e) (cc (was))
    | inr a ↦
        let off : same c.user.status (codes "inactive") ≡ false = ground (arith, rw e at h) in
        rw (e, a, e, off) (ap (λ l. c ∷ l) (back_active uid cs (rw (e, off) at h)))
  ]
]

is_inactive :
    (uid : ℕ) (cs : List Customer)
    → any (is_user_in uid (codes "active")) cs ≡ true
    → any
        (is_user_in uid (codes "inactive"))
        (update_row (is_user_in uid (codes "active")) (with_user_status (codes "inactive")) cs)
      ≡ true
unfolding update_row
is_inactive uid [] h = absurd (cc)
is_inactive uid (c ∷ cs) h = elim (Bool-cases (c.user.id == uid)) [
  | inr e ↦ rw (e, e) (is_inactive uid cs (rw e at h))
  | inl e ↦ elim (Bool-cases (same c.user.status (codes "active"))) [
    | inl a ↦ rw (e, a, e) refl
    | inr a ↦ let ih = is_inactive uid cs (rw (e, a) at h) in rw (e, a) (ground (arith, ih))
  ]
]

-- A block that is taken back leaves only the two entries of the log, the unblock's reason
-- defaulted: of a shop whose orders are not quarantined and have no route kept aside, in which the
-- user is active in one row and inactive in none, and that the unique index accepts.
pub user_unblock-user_block :
    (uid : ℕ) (reason why : Bytes) (shop : Shop)
    → is_empty reason ≡ false
    → any (is_user_in uid (codes "active")) shop.customers ≡ true
    → any (is_user_in uid (codes "inactive")) shop.customers ≡ false
    → All IsPlain shop.rentals
    → clashes shop.rentals ≡ false
    → user_unblock false uid why (user_block false uid reason shop).1 ≡ (
      ok,
      record shop {
        block_log =
            record { user_id = uid; action = unblock; reason = or_reason why }
            ∷ record { user_id = uid; action = block; reason = reason }
            ∷ shop.block_log;
      },
    )
unfolding user_unblock user_block
user_unblock-user_block uid reason why shop r a i plain unique =
    rw
      (
        r,
        a,
        is_inactive uid shop.customers a,
        restore-quarantine-map uid shop.rentals plain,
        unique,
        back_active uid shop.customers i,
      )
      refl
