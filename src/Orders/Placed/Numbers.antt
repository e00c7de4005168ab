-- ===== src/Orders/Placed/Numbers.antt =====
-- Retiring, reserving and releasing a number keeps the numbers placed.
use didstorageapp.Prelude.{
  not, ◌&&◌, ℕ, ◌≡◌, Bool, true, false, Option, none, some, any, ==_iff, refl, arith, Bool-cases,
  inl, inr, sym,
}
use didstorageapp.Prelude.Text.{Bytes, codes, same, same→eq}
use didstorageapp.Livecalls.{RouteKind}
use didstorageapp.Orders.Tables.{DidRow, Shop}
use didstorageapp.Orders.Placed.{
  holders, room, IsPlaced, capacity-release, capacity-update_row_same,
}
use didstorageapp.Orders.Release.{
  did_retire, open_on, ReserveForm, reserved_target, with_reservation, is_available_row, reserve_to,
  did_reserve, is_reserved_row, without_reservation, did_release,
}

-- A number that no order holds, not even a suspended one, may be retired.
pub did_retire-IsPlaced :
    (unread broken : Bool) (did_id : ℕ) (shop : Shop)
    → holders did_id shop.rentals ≡ 0
    → IsPlaced shop
    → IsPlaced (did_retire unread broken did_id shop).1
unfolding did_retire
did_retire-IsPlaced unread broken did_id shop unheld placed =
    elim (Bool-cases (not unread && open_on did_id shop.rentals)) [
      | inl e ↦ rw e placed
      | inr e ↦ rw e (elim (Bool-cases broken) [
        | inl b ↦ rw b placed
        | inr b ↦ rw b λ d. ground (
          arith,
          unheld,
          placed d,
          ==_iff d did_id,
          capacity-release d did_id (codes "retired") shop.dids refl,
        )
      ])
    ]

-- A number in another status has no room.
room_in :
    (s : Bytes) (x : DidRow)
    → same s (codes "assigned") ≡ false
    → same x.did.status s ≡ true
    → room x ≡ 0
room_in s x h e = rw (same→eq x.did.status s e, h) refl

reserve_to-IsPlaced :
    (broken : Bool) (did_id : ℕ) (kind : RouteKind) (t : Option (Bytes × Option ℕ)) (shop : Shop)
    → IsPlaced shop
    → IsPlaced (reserve_to broken did_id kind t shop).1
reserve_to-IsPlaced broken did_id kind none shop placed = placed
reserve_to-IsPlaced true did_id kind (some (target, group)) shop placed = placed
reserve_to-IsPlaced false did_id kind (some (target, group)) shop placed =
    elim (Bool-cases (any (is_available_row did_id) shop.dids)) [
      | inr e ↦ rw e placed
      | inl e ↦ rw e λ d.
          rw
            (capacity-update_row_same d (is_available_row did_id)
              (with_reservation kind target group) (λ x hit. same_room x hit) shop.dids)
            (placed d)
    ]
  where
    same_room :
        (x : DidRow)
        → is_available_row did_id x ≡ true
        → (room (with_reservation kind target group x) ≡ room x)
          × ((with_reservation kind target group x).did.id ≡ x.did.id)
    same_room x hit = (sym (room_in (codes "available") x refl (ground (arith, hit))), refl)

pub did_reserve-IsPlaced :
    (broken : Bool) (did_id : ℕ) (form : ReserveForm) (shop : Shop)
    → IsPlaced shop
    → IsPlaced (did_reserve broken did_id form shop).1
unfolding did_reserve
did_reserve-IsPlaced broken did_id form shop placed =
    reserve_to-IsPlaced broken did_id form.route_kind (reserved_target form form.route_kind) shop
      placed

pub did_release-IsPlaced :
    (broken : Bool) (did_id : ℕ) (shop : Shop)
    → IsPlaced shop
    → IsPlaced (did_release broken did_id shop).1
unfolding did_release
did_release-IsPlaced broken did_id shop placed =
    elim (Bool-cases (any (is_reserved_row did_id) shop.dids)) [
      | inr e ↦ rw e placed
      | inl e ↦ rw e (elim (Bool-cases broken) [
        | inl b ↦ rw b placed
        | inr b ↦ rw b λ d.
            rw
              (capacity-update_row_same d (is_reserved_row did_id) without_reservation
                (λ x hit. same_room x hit) shop.dids)
              (placed d)
      ])
    ]
  where
    same_room :
        (x : DidRow)
        → is_reserved_row did_id x ≡ true
        → (room (without_reservation x) ≡ room x) × ((without_reservation x).did.id ≡ x.did.id)
    same_room x hit = (sym (room_in (codes "reserved") x refl (ground (arith, hit))), refl)
