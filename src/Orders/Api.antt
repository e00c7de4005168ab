-- ===== src/Orders/Api.antt =====
-- createOrder of internal/resellerapi/resellerapi.go, which has its own copy of every step of the
-- administrator's form. The balance is read with the customer.
use didstorageapp.Prelude.{
  ℕ, suc, Bool, ◌&&◌, ◌||◌, not, Option, none, some, List, ◌∷◌, find, ◌==◌, ltb, if◌then◌else◌,
}
use didstorageapp.Prelude.Text.{Bytes, codes, same, is_empty}
use didstorageapp.Prelude.Int.{ℤ, pos, neg, pos_part, ◌-ℤ◌, ltb_ℤ}
use didstorageapp.Domain.Time.{Time, next_anniversary}
use didstorageapp.Domain.Uri.{normalize_route_target}
use didstorageapp.Livecalls.{RouteKind}
use didstorageapp.Billing.{OrderStatus, active, kyc_pending}
use didstorageapp.Orders.Tables.{
  Rental, DidRow, Customer, Bundle, Terms, nrc, Shop, Reply, ok, refused, failed, is_approved,
  has_did_id, has_user_id, has_bundle_id, update_row, with_balance, set_did_status, clashes,
}
use didstorageapp.Orders.Create.{OrderForm, kind_name, is_resellers, is_available}

-- A day outside 1 to 28 is today's, at most 28.
abbrev pub api_day : ℤ → Time → ℕ
api_day day now =
    let today = if ltb 28 now.day then 28 else now.day in
    if ltb_ℤ day (pos 1) || ltb_ℤ (pos 28) day then today else pos_part day

-- The join of the number with the valid rate cards.
abbrev pub api_fits : DidRow → Terms → Bool
api_fits d t =
    t.supplier_id == d.did.supplier_id
    && same t.country_iso d.country_iso
    && same t.did_type d.did_type

abbrev pub api_terms : Option DidRow → List Terms → Option Terms
api_terms none terms = none
api_terms (some d) terms = find (api_fits d) terms

-- `none` where the bundle is missing or another user's.
abbrev pub bundle_status : ℕ → Option Bundle → Option OrderStatus
bundle_status uid none = none
bundle_status uid (some b) =
    if not (b.user_id == uid)
    then none
    else some (if is_approved b.status then active else kyc_pending)

abbrev pub api_status : ℕ → Option ℕ → List Bundle → Option OrderStatus
api_status uid none bundles = some kyc_pending
api_status uid (some bid) bundles = bundle_status uid (find (has_bundle_id bid) bundles)

abbrev pub api_rental : Time → ℕ → OrderForm → RouteKind → Bytes → Terms → OrderStatus → Rental
api_rental now oid req kind target t s = record {
  order = record {
    id = oid;
    did_id = req.did_id;
    user_id = req.user_id;
    rate_card_id = t.id;
    channel_count = pos_part req.channel_count;
    route_kind = kind;
    route_target = target;
    audio_group_id = none;
    pop_id = none;
    status = s;
  };
  pre_quarantine_route_kind = none;
  pre_quarantine_route_target = none;
  kyc_bundle_id = req.kyc_bundle_id;
  anniversary_day = api_day req.anniversary_day now;
  next_billing_at = next_anniversary now (api_day req.anniversary_day now);
  ended_at = none;
}

-- The debit and its ledger row, where the charge is not 0.
abbrev pub api_charge : ℕ → ℕ → Terms → ℤ → Shop → Shop
api_charge uid oid t bal shop =
    let new_bal = bal -ℤ pos t.nrc_cents in
    if not (ltb 0 t.nrc_cents) then shop else record shop {
      customers = update_row (has_user_id uid) (with_balance new_bal) shop.customers;
      ledger =
          record {
            user_id = uid;
            delta_cents = neg t.nrc_cents;
            kind = nrc;
            ref_id = some oid;
            balance_after = new_bal;
          }
          ∷ shop.ledger;
    }

-- From the INSERT to the commit. The customer and the number are there and locked, so that only the
-- unique index can refuse the row.
unfoldable pub insert_order :
    Bool → Time → OrderForm → RouteKind → Bytes → Terms → ℤ → OrderStatus → Shop → Reply × Shop
insert_order broken now req kind target t bal s shop =
    let oid = shop.next_order_id in
    let rentals = api_rental now oid req kind target t s ∷ shop.rentals in
    if broken || clashes rentals then (failed, shop) else (
      ok,
      api_charge req.user_id oid t bal (
          set_did_status req.did_id (codes "assigned")
            (record shop { rentals = rentals; next_order_id = suc oid })),
    )

abbrev pub insert_as :
    Bool
    → Time
    → OrderForm
    → RouteKind
    → Bytes
    → Terms
    → ℤ
    → Option OrderStatus
    → Shop
    → Reply × Shop
insert_as broken now req kind target t bal none shop = (refused, shop)
insert_as broken now req kind target t bal (some s) shop =
    insert_order broken now req kind target t bal s shop

-- The rate card, the balance and the bundle, in this order.
unfoldable pub check_and_insert :
    Bool → Time → OrderForm → RouteKind → Bytes → ℤ → Option Terms → Shop → Reply × Shop
unfolding insert_order
check_and_insert broken now req kind target bal none shop = (refused, shop)
check_and_insert broken now req kind target bal (some t) shop =
    if ltb_ℤ bal (pos t.nrc_cents)
    then (refused, shop)
    else insert_as broken now req kind target t bal
        (api_status req.user_id req.kyc_bundle_id shop.bundles) shop

abbrev pub balance_read : Option Customer → ℤ
balance_read none = pos 0
balance_read (some c) = c.user.balance_cents

unfoldable pub create_order_as :
    Bool → Time → ℕ → OrderForm → Option RouteKind → Shop → Reply × Shop
unfolding check_and_insert
create_order_as broken now rid req none shop = (refused, shop)
create_order_as broken now rid req (some kind) shop =
    let customer = find (has_user_id req.user_id) shop.customers in
    let number = find (has_did_id req.did_id) shop.dids in
    if is_empty req.route_target
    then (refused, shop)
    else if not (is_resellers rid customer)
    then (refused, shop)
    else if not (is_available number)
    then (refused, shop)
    else check_and_insert broken now req kind
        (normalize_route_target (kind_name kind) req.route_target) (balance_read customer)
        (api_terms number shop.terms) shop

-- The reseller's request: for a customer of its own, and a number that is available.
unfoldable pub create_order : Bool → Time → ℕ → OrderForm → Shop → Reply × Shop
unfolding create_order_as
create_order broken now rid form shop = create_order_as broken now rid form form.route_kind shop
