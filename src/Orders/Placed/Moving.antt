-- ===== src/Orders/Placed/Moving.antt =====
-- Moving an order to another number keeps the numbers placed.
use didstorageapp.Prelude.{
  ℕ, ◌+◌, ◌≡◌, Bool, true, false, ◌||◌, not, Option, none, some, List, [], ◌∷◌, any, find, ◌==◌,
  ==_iff, if◌then◌else◌, refl, arith, Bool-cases, inl, inr,
}
use didstorageapp.Prelude.Text.{Bytes, codes}
use didstorageapp.Orders.Tables.{
  Rental, DidRow, Shop, is_live, is_open, has_order_id, has_did_id, update_row, with_did_status,
  set_did_status, clashes,
}
use didstorageapp.Orders.Placed.{
  capacity_bound, holders, IsPlaced, holders-update_row, capacity-update_row, capacity-release,
}
use didstorageapp.Orders.Create.{is_available}
use didstorageapp.Orders.Release.{swap_found, order_swap_did, on_did}
use didstorageapp.Orders.Placed.Opening.{available-room}
use didstorageapp.Orders.Outcomes.Creating.{open-live}
use didstorageapp.Orders.Outcomes.Editing.{found_again}

-- Moving the order takes it off its old number.
holders-swap :
    (d new_did : ℕ) (r : Rental) (rs : List Rental)
    → find (has_order_id r.order.id) rs ≡ some r
    → is_live r.order.status ≡ true
    → holders d (update_row (has_order_id r.order.id) (on_did new_did) rs)
        + (if r.order.did_id == d then 1 else 0)
      ≡ holders d rs + (if new_did == d then 1 else 0)
holders-swap d new_did r rs found live =
    let moved = holders-update_row d r.order.id (on_did new_did) rs r found in
    ground (arith, moved, live)

any-update_row :
    (did_id old : ℕ) (s : Bytes) (xs : List DidRow)
    → any (has_did_id did_id) (update_row (has_did_id old) (with_did_status s) xs)
      ≡ any (has_did_id did_id) xs
unfolding update_row
any-update_row did_id old s [] = refl
any-update_row did_id old s (x ∷ xs) = elim (Bool-cases (has_did_id old x)) [
  | inl e ↦ rw e refl
  | inr e ↦ rw (e, any-update_row did_id old s xs) refl
]

is_open_of :
    (r : Rental) (new_did : ℕ)
    → (not (is_open r.order.status) || r.order.did_id == new_did) ≡ false
    → is_live r.order.status ≡ true
is_open_of r new_did h = open-live r.order.status (ground (arith, h))

moved-IsPlaced :
    (new_did : ℕ) (r : Rental) (shop : Shop)
    → find (has_order_id r.order.id) shop.rentals ≡ some r
    → is_live r.order.status ≡ true
    → is_available (find (has_did_id new_did) shop.dids) ≡ true
    → IsPlaced shop
    → IsPlaced (
        set_did_status new_did
          (codes "assigned")
          (record (set_did_status r.order.did_id (codes "available") shop) {
            rentals = update_row (has_order_id r.order.id) (on_did new_did) shop.rentals;
          }))
moved-IsPlaced new_did r shop found live free placed d =
    let (empty, known) = available-room new_did shop.dids free in
    let released =
      update_row (has_did_id r.order.did_id) (with_did_status (codes "available")) shop.dids in
    ground (
      arith,
      holders-swap d new_did r shop.rentals found live,
      empty,
      known,
      placed d,
      placed new_did,
      capacity_bound d shop.dids,
      ==_iff new_did d,
      ==_iff d new_did,
      ==_iff r.order.did_id d,
      ==_iff d r.order.did_id,
      capacity-update_row d new_did (codes "assigned") released,
      any-update_row new_did r.order.did_id (codes "available") shop.dids,
      capacity-release d r.order.did_id (codes "available") shop.dids refl,
    )

swap_found-IsPlaced :
    (broken : Bool) (oid new_did : ℕ) (r : Option Rental) (shop : Shop)
    → find (has_order_id oid) shop.rentals ≡ r
    → IsPlaced shop
    → IsPlaced (swap_found broken new_did r shop).1
unfolding swap_found
swap_found-IsPlaced broken oid new_did none shop h placed = placed
swap_found-IsPlaced broken oid new_did (some r) shop h placed =
    let rentals = update_row (has_order_id r.order.id) (on_did new_did) shop.rentals in
    elim (Bool-cases (not (is_open r.order.status) || r.order.did_id == new_did)) [
      | inl e ↦ rw e placed
      | inr e ↦ rw e (elim (Bool-cases (is_available (find (has_did_id new_did) shop.dids))) [
        | inr a ↦ rw a placed
        | inl a ↦ rw a (elim (Bool-cases (broken || clashes rentals)) [
          | inl c ↦ rw c placed
          | inr c ↦ rw c (
              moved-IsPlaced new_did r shop (found_again oid shop.rentals r h)
                (is_open_of r new_did e) a placed)
        ])
      ])
    ]

pub order_swap_did-IsPlaced :
    (broken : Bool) (oid new_did : ℕ) (shop : Shop)
    → IsPlaced shop
    → IsPlaced (order_swap_did broken oid new_did shop).1
unfolding order_swap_did
order_swap_did-IsPlaced broken oid new_did shop placed = elim (Bool-cases (new_did == 0)) [
  | inl e ↦ rw e placed
  | inr e ↦ rw e (
      swap_found-IsPlaced broken oid new_did (find (has_order_id oid) shop.rentals) shop refl
        placed)
]
