-- ===== src/Orders/Placed/Closing.antt =====
-- Cancelling an order keeps the numbers placed.
use didstorageapp.Prelude.{
  ℕ, ◌≡◌, Bool, true, false, Option, none, some, find, ==_iff, refl, arith, Bool-cases,
  Option-cases, inl, inr,
}
use didstorageapp.Prelude.Text.{codes}
use didstorageapp.Domain.Time.{Time}
use didstorageapp.Orders.Tables.{Rental, Shop, is_live, has_order_id, has_user_id}
use didstorageapp.Orders.Placed.{capacity_bound, IsPlaced, holders-update_row, capacity-release}
use didstorageapp.Orders.Create.{is_resellers}
use didstorageapp.Orders.Release.{ended, release_order, cancel_found, order_cancel, cancel_order}
use didstorageapp.Orders.Outcomes.Editing.{found_again}

release_order-IsPlaced :
    (now : Time) (oid : ℕ) (r : Rental) (shop : Shop)
    → find (has_order_id oid) shop.rentals ≡ some r
    → is_live r.order.status ≡ true
    → IsPlaced shop
    → IsPlaced (release_order now r shop)
release_order-IsPlaced now oid r shop found live placed d =
    let moved =
      holders-update_row d r.order.id (ended now) shop.rentals r
        (found_again oid shop.rentals r found) in
    ground (
      arith,
      moved,
      live,
      placed d,
      capacity_bound d shop.dids,
      ==_iff d r.order.did_id,
      ==_iff r.order.did_id d,
      capacity-release d r.order.did_id (codes "available") shop.dids refl,
    )

cancel_found-IsPlaced :
    (broken : Bool) (now : Time) (oid : ℕ) (r : Option Rental) (shop : Shop)
    → find (has_order_id oid) shop.rentals ≡ r
    → IsPlaced shop
    → IsPlaced (cancel_found broken now r shop).1
unfolding cancel_found
cancel_found-IsPlaced broken now oid none shop h placed = placed
cancel_found-IsPlaced true now oid (some r) shop h placed =
    elim (Bool-cases (is_live r.order.status)) [ inl live ↦ rw live placed | inr e ↦ rw e placed ]
cancel_found-IsPlaced false now oid (some r) shop h placed =
    elim (Bool-cases (is_live r.order.status)) [
      | inl live ↦ rw live (release_order-IsPlaced now oid r shop h live placed)
      | inr e ↦ rw e placed
    ]

pub order_cancel-IsPlaced :
    (broken : Bool) (now : Time) (oid : ℕ) (shop : Shop)
    → IsPlaced shop
    → IsPlaced (order_cancel broken now oid shop).1
unfolding order_cancel
order_cancel-IsPlaced broken now oid shop =
    cancel_found-IsPlaced broken now oid (find (has_order_id oid) shop.rentals) shop refl

pub cancel_order-IsPlaced :
    (broken : Bool) (now : Time) (rid oid : ℕ) (shop : Shop)
    → IsPlaced shop
    → IsPlaced (cancel_order broken now rid oid shop).1
unfolding cancel_order cancel_found
cancel_order-IsPlaced broken now rid oid shop placed =
    elim (Option-cases (find (has_order_id oid) shop.rentals)) [
      | inl e ↦ rw e placed
      | inr (r, e) ↦
          rw e
            (elim (Bool-cases
              (is_resellers rid (find (has_user_id r.order.user_id) shop.customers))) [
                | inl o ↦ rw o (cancel_found-IsPlaced broken now oid (some r) shop e placed)
                | inr o ↦ rw o placed
              ])
    ]
