-- ===== src/Orders/Doubles.antt =====
-- Numbers that end up with more orders than they have room for.
use didstorageapp.Prelude.{
  ℕ, ◌≤◌, ◌≡◌, Bool, true, false, ◌||◌, not, some, List, [], ◌∷◌, any, find, ◌==◌, ==_iff, refl, ap,
  arith, Bool-cases, inl, inr, subst, suc,
}
use didstorageapp.Prelude.Text.{Bytes, codes, is_empty}
use didstorageapp.Prelude.Int.{ℤ, pos, ltb_ℤ}
use didstorageapp.Domain.Time.{Time}
use didstorageapp.Domain.Uri.{normalize_route_target}
use didstorageapp.Livecalls.{RouteKind}
use didstorageapp.Billing.{OrderStatus, suspended, kyc_pending}
use didstorageapp.Orders.Tables.{
  Rental, DidRow, Shop, Terms, Reply, ok, refused, failed, is_live, has_order_id, has_did_id,
  update_row, with_did_status, set_did_status, clashes,
}
use didstorageapp.Orders.Placed.{holders, capacity, capacity_bound}
use didstorageapp.Orders.Create.{
  OrderForm, new_rental, charge_nrc, place, order_create, order_create_as, check_and_place,
  balance_of, is_customer, is_own_account, terms_for, start_status, kind_name,
}
use didstorageapp.Orders.Release.{cancel_found, is_available_row, order_cancel, did_retire, open_on}
use didstorageapp.Orders.Outcomes.Creating.{order_create_outcome, open-live}

-- One order more holds the number.
abbrev IsAdded : ℕ → Shop → Reply × Shop → Type 0
IsAdded d shop (ok, shop') = holders d shop'.rentals ≡ suc (holders d shop.rentals)
IsAdded d shop (refused, shop') = Unit
IsAdded d shop (failed, shop') = Unit

charge_nrc_rentals :
    (uid oid : ℕ) (t : Terms) (b : ℤ) (shop : Shop)
    → (charge_nrc uid oid t b shop).rentals ≡ shop.rentals
charge_nrc_rentals uid oid t b shop = ground arith

place-IsAdded :
    (broken : Bool) (now : Time) (form : OrderForm) (kind : RouteKind) (target : Bytes) (t : Terms)
    (s : OrderStatus) (shop : Shop)
    → is_live s ≡ true
    → IsAdded form.did_id shop (place broken now form kind target t s shop)
unfolding place holders
place-IsAdded broken now form kind target t s shop live =
    let rentals = new_rental now shop.next_order_id form kind target t s ∷ shop.rentals in
    elim (Bool-cases (broken || not (is_customer form.user_id shop.customers) || clashes rentals)) [
      | inl e ↦ rw e tt
      | inr e ↦ rw e (
          rw
            (charge_nrc_rentals form.user_id shop.next_order_id t
              (balance_of form.user_id shop.customers)
              (set_did_status form.did_id (codes "assigned")
                (record shop { rentals = rentals; next_order_id = suc shop.next_order_id })))
            (ground (arith, live, ==_iff form.did_id form.did_id)))
    ]

-- An accepted form adds an order to its number.
accepted-holders :
    (broken : Bool) (now : Time) (form : OrderForm) (shop shop' : Shop)
    → order_create broken now form shop ≡ (ok, shop')
    → 1 ≤ holders form.did_id shop.rentals
    → suc (capacity form.did_id shop'.dids) ≤ holders form.did_id shop'.rentals
accepted-holders broken now form shop shop' h held =
    let added = subst (IsAdded form.did_id shop) h (
      order_create_outcome (IsAdded form.did_id shop) broken now form shop tt
        (λ kind target t s card live.
          place-IsAdded broken now form kind target t s shop (open-live s live))) in
    omega (arith, added, held, capacity_bound form.did_id shop'.dids)

-- The form is accepted for a number that an order holds already, when the new order is to wait for
-- its documents: whenever the route is one of the customer's, the number has a rate card, the balance
-- covers the setup fee and no two active orders have one number before, the answer is ok, and the
-- number is then held by more orders than it has room for.
pub order_create-holders :
    (now : Time) (form : OrderForm) (kind : RouteKind) (t : Terms) (shop : Shop)
    → form.route_kind ≡ some kind
    → (form.user_id == 0
        || form.did_id == 0
        || is_empty (normalize_route_target (kind_name kind) form.route_target))
      ≡ false
    → is_own_account form.user_id kind
        (normalize_route_target (kind_name kind) form.route_target)
        shop.sip_accounts
      ≡ true
    → terms_for form.did_id shop ≡ some t
    → ltb_ℤ (balance_of form.user_id shop.customers) (pos t.nrc_cents) ≡ false
    → start_status form.user_id form.kyc_bundle_id shop.bundles ≡ some kyc_pending
    → is_customer form.user_id shop.customers ≡ true
    → clashes shop.rentals ≡ false
    → 1 ≤ holders form.did_id shop.rentals
    → ((order_create false now form shop).0 ≡ ok)
      × (suc (capacity form.did_id (order_create false now form shop).1.dids)
          ≤ holders form.did_id (order_create false now form shop).1.rentals)
unfolding order_create order_create_as check_and_place place clashes
order_create-holders now form kind t shop k filled own card funds status known single held =
    let accepted : (order_create false now form shop).0 ≡ ok =
      rw (k, filled, own, card, funds, status, known, single) refl in
    (
      accepted,
      accepted-holders false now form shop (order_create false now form shop).1
          (ap (λ (r : Reply). (r, (order_create false now form shop).1)) accepted) held,
    )

available_again :
    (did_id : ℕ) (s : Bytes) (xs : List DidRow)
    → any (has_did_id did_id) xs ≡ true
    → any (is_available_row did_id) (
        update_row
          (has_did_id did_id)
          (with_did_status (codes "available"))
          (update_row (has_did_id did_id) (with_did_status s) xs))
      ≡ true
unfolding update_row
available_again did_id s [] h = absurd (cc)
available_again did_id s (x ∷ xs) h = elim (Bool-cases (x.did.id == did_id)) [
  | inl e ↦ rw (e, e, e) refl
  | inr e ↦ rw (e, e, e) (available_again did_id s xs (rw e at h))
]

-- A retirement does not look at suspended orders: the number of one is retired, and the
-- cancellation of that order puts it back into the pool.
pub order_cancel-did_retire :
    (now : Time) (did_id oid : ℕ) (r : Rental) (shop : Shop)
    → open_on did_id shop.rentals ≡ false
    → find (has_order_id oid) shop.rentals ≡ some r
    → r.order.status ≡ suspended
    → r.order.did_id ≡ did_id
    → any (has_did_id did_id) shop.dids ≡ true
    → ((did_retire false false did_id shop).0 ≡ ok)
      × ((order_cancel false now oid (did_retire false false did_id shop).1).0 ≡ ok)
      × (any
            (is_available_row did_id)
            (order_cancel false now oid (did_retire false false did_id shop).1).1.dids
          ≡ true)
unfolding did_retire order_cancel cancel_found
order_cancel-did_retire now did_id oid r shop unseen found state on known =
    rw (unseen, found, state, on)
      (refl, refl, available_again did_id (codes "retired") shop.dids known)
