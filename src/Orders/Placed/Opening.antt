-- ===== src/Orders/Placed/Opening.antt =====
-- Orders that are created for an available number keep the numbers placed.
use didstorageapp.Prelude.{
  ℕ, suc, ◌≡◌, Bool, true, ◌||◌, not, List, [], ◌∷◌, any, find, ==_iff, refl, arith, Bool-cases,
  inl, inr,
}
use didstorageapp.Prelude.Text.{Bytes, codes, same, same→eq}
use didstorageapp.Prelude.Int.{ℤ}
use didstorageapp.Domain.Time.{Time}
use didstorageapp.Livecalls.{RouteKind}
use didstorageapp.Billing.{OrderStatus}
use didstorageapp.Orders.Tables.{DidRow, Shop, Terms, has_did_id, set_did_status, clashes}
use didstorageapp.Orders.Placed.{holders, capacity, IsPlaced, capacity-update_row}
use didstorageapp.Orders.Create.{
  OrderForm, new_rental, charge_nrc, place, order_create, is_available, balance_of, is_customer,
}
use didstorageapp.Orders.Api.{create_order}
use didstorageapp.Orders.Outcomes.Creating.{order_create_outcome, create_order_outcome}

pub charge_nrc_frame :
    (uid oid : ℕ) (t : Terms) (b : ℤ) (shop : Shop)
    → ((charge_nrc uid oid t b shop).rentals ≡ shop.rentals)
      × ((charge_nrc uid oid t b shop).dids ≡ shop.dids)
charge_nrc_frame uid oid t b shop = ground arith

pub available-room :
    (did_id : ℕ) (xs : List DidRow)
    → is_available (find (has_did_id did_id) xs) ≡ true
    → (capacity did_id xs ≡ 0) × (any (has_did_id did_id) xs ≡ true)
unfolding capacity
available-room did_id [] h = absurd (cc)
available-room did_id (x ∷ xs) h = elim (Bool-cases (has_did_id did_id x)) [
  | inl e ↦
      let is_free : same x.did.status (codes "available") ≡ true = rw e at h in
      rw (e, same→eq x.did.status (codes "available") is_free) (refl, refl)
  | inr e ↦ rw e (available-room did_id xs (rw e at h))
]

place-IsPlaced :
    (broken : Bool) (now : Time) (form : OrderForm) (kind : RouteKind) (target : Bytes) (t : Terms)
    (s : OrderStatus) (shop : Shop)
    → is_available (find (has_did_id form.did_id) shop.dids) ≡ true
    → IsPlaced shop
    → IsPlaced (place broken now form kind target t s shop).1
unfolding place holders
place-IsPlaced broken now form kind target t s shop h placed d =
    let rentals = new_rental now shop.next_order_id form kind target t s ∷ shop.rentals in
    let (empty, known) = available-room form.did_id shop.dids h in
    elim (Bool-cases (broken || not (is_customer form.user_id shop.customers) || clashes rentals)) [
      | inl e ↦ rw e (placed d)
      | inr e ↦
          let shop' =
            set_did_status form.did_id (codes "assigned")
              (record shop { rentals = rentals; next_order_id = suc shop.next_order_id }) in
          let (same_rentals, same_dids) =
            charge_nrc_frame form.user_id shop.next_order_id t
              (balance_of form.user_id shop.customers) shop' in
          rw (e, same_rentals, same_dids)
            (ground (
              arith,
              placed d,
              placed form.did_id,
              empty,
              known,
              ==_iff form.did_id d,
              ==_iff d form.did_id,
              capacity-update_row d form.did_id (codes "assigned") shop.dids,
            ))
    ]

pub order_create-IsPlaced :
    (broken : Bool) (now : Time) (form : OrderForm) (shop : Shop)
    → is_available (find (has_did_id form.did_id) shop.dids) ≡ true
    → IsPlaced shop
    → IsPlaced (order_create broken now form shop).1
order_create-IsPlaced broken now form shop h placed =
    order_create_outcome (λ p. IsPlaced p.1) broken now form shop placed
      (λ kind target t s card live. place-IsPlaced broken now form kind target t s shop h placed)

pub create_order-IsPlaced :
    (broken : Bool) (now : Time) (rid : ℕ) (form : OrderForm) (shop : Shop)
    → IsPlaced shop
    → IsPlaced (create_order broken now rid form shop).1
create_order-IsPlaced broken now rid form shop placed =
    create_order_outcome (λ p. IsPlaced p.1) broken now form shop placed rid
      (λ kind target t s h card live. place-IsPlaced broken now form kind target t s shop h placed)
