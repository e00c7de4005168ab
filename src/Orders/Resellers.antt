-- ===== src/Orders/Resellers.antt =====
-- The administrator's form and the reseller's request, side by side.
use didstorageapp.Prelude.{ℕ, ◌≡◌, Bool, true, false, ◌&&◌, some, find, ◌==◌, arith}
use didstorageapp.Prelude.Text.{is_empty}
use didstorageapp.Domain.Time.{Time}
use didstorageapp.Domain.Uri.{normalize_route_target}
use didstorageapp.Livecalls.{RouteKind}
use didstorageapp.Orders.Tables.{Shop, Reply, has_did_id, has_user_id}
use didstorageapp.Orders.Create.{
  OrderForm, order_create, order_create_as, terms_for, is_own_account, is_available, is_resellers,
  kind_name,
}
use didstorageapp.Orders.Api.{create_order, create_order_as}
use didstorageapp.Orders.Copies.{
  resellers-customer, api_terms-terms_for, balance_read-balance_of,
  check_and_insert-check_and_place,
}

-- For a number that is available, a customer of the reseller, an account of that customer and a
-- route that is not empty, the reseller's request does what the administrator's form does, in
-- every outcome.
pub create_order-order_create :
    (broken : Bool) (now : Time) (rid : ℕ) (form : OrderForm) (kind : RouteKind) (shop : Shop)
    → form.route_kind ≡ some kind
    → (form.user_id == 0) ≡ false
    → (form.did_id == 0) ≡ false
    → is_empty form.route_target ≡ false
    → is_empty (normalize_route_target (kind_name kind) form.route_target) ≡ false
    → is_own_account form.user_id kind
        (normalize_route_target (kind_name kind) form.route_target)
        shop.sip_accounts
      ≡ true
    → is_resellers rid (find (has_user_id form.user_id) shop.customers) ≡ true
    → is_available (find (has_did_id form.did_id) shop.dids) ≡ true
    → create_order broken now rid form shop ≡ order_create broken now form shop
unfolding create_order order_create create_order_as order_create_as
create_order-order_create broken now rid form kind shop k u d t n o r a =
    let target = normalize_route_target (kind_name kind) form.route_target in
    rw
      (
        k,
        u,
        d,
        t,
        n,
        o,
        r,
        a,
        balance_read-balance_of form.user_id shop.customers,
        api_terms-terms_for form.did_id shop,
      )
      (check_and_insert-check_and_place broken now form kind target shop
        (resellers-customer rid form.user_id shop.customers r) (terms_for form.did_id shop))

-- A request for another reseller's customer, or for a number that is not available, is refused.
pub create_order_foreign :
    (broken : Bool) (now : Time) (rid : ℕ) (form : OrderForm) (shop : Shop)
    → (is_resellers rid (find (has_user_id form.user_id) shop.customers)
        && is_available (find (has_did_id form.did_id) shop.dids))
      ≡ false
    → create_order broken now rid form shop ≡ (Reply.refused, shop)
unfolding create_order create_order_as
create_order_foreign broken now rid form shop h = ground (arith, h)
