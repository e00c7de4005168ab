-- ===== src/Orders/Create.antt =====
-- orderCreate of internal/web/crud.go. What is_resellers and is_available test is for the requests of
-- resellers (Orders.Api).
use didstorageapp.Prelude.{
  ℕ, suc, Bool, true, false, ◌&&◌, ◌||◌, not, Option, none, some, List, ◌∷◌, any, find, ◌==◌, ltb,
  if◌then◌else◌,
}
use didstorageapp.Prelude.Text.{Bytes, codes, same, is_empty}
use didstorageapp.Prelude.Int.{ℤ, pos, neg, pos_part, ◌-ℤ◌, ltb_ℤ}
use didstorageapp.Domain.Time.{Time, next_anniversary}
use didstorageapp.Domain.Uri.{normalize_route_target}
use didstorageapp.Livecalls.{RouteKind, sip_account, sip_uri, ip, audio, audio_group}
use didstorageapp.Billing.{OrderStatus, active, kyc_pending}
use didstorageapp.Orders.Tables.{
  Rental, DidRow, Customer, Bundle, Terms, nrc, Shop, Reply, ok, refused, failed, is_approved,
  has_did_id, has_user_id, has_bundle_id, update_row, with_balance, set_did_status, clashes,
}

-- A form or JSON request; `none` for no bundle and for an empty route kind.
pub record OrderForm : Type 0 where
  pub user_id : ℕ
  pub did_id : ℕ
  pub channel_count : ℤ
  pub route_kind : Option RouteKind
  pub route_target : Bytes
  pub anniversary_day : ℤ
  pub kyc_bundle_id : Option ℕ

abbrev pub kind_name : RouteKind → Bytes
kind_name sip_account = codes "sip_account"
kind_name sip_uri = codes "sip_uri"
kind_name ip = codes "ip"
kind_name audio = codes "audio"
kind_name audio_group = codes "audio_group"

-- A day outside 1 to 28 is today's, at most 28.
abbrev pub billing_day : ℤ → Time → ℕ
billing_day day now =
    if ltb_ℤ day (pos 1) || ltb_ℤ (pos 28) day
    then (if ltb 28 now.day then 28 else now.day)
    else pos_part day

-- The valid rate card of a number's supplier, country and type.
abbrev pub fits : DidRow → Terms → Bool
fits d t =
    t.supplier_id == d.did.supplier_id
    && same t.country_iso d.country_iso
    && same t.did_type d.did_type

abbrev pub terms_for : ℕ → Shop → Option Terms
terms_for did_id shop = elim (find (has_did_id did_id) shop.dids) [
  | none ↦ none
  | some d ↦ find (fits d) shop.terms
]

abbrev pub balance_of : ℕ → List Customer → ℤ
balance_of uid cs = elim (find (has_user_id uid) cs) [
  | none ↦ pos 0
  | some c ↦ c.user.balance_cents
]

abbrev pub is_customer : ℕ → List Customer → Bool
is_customer uid cs = any (has_user_id uid) cs

-- `none` where the bundle is missing or another user's.
abbrev pub start_status : ℕ → Option ℕ → List Bundle → Option OrderStatus
start_status uid none bundles = some kyc_pending
start_status uid (some bid) bundles = elim (find (has_bundle_id bid) bundles) [
  | none ↦ none
  | some b ↦
      if b.user_id == uid then some (if is_approved b.status then active else kyc_pending) else none
]

abbrev pub new_rental : Time → ℕ → OrderForm → RouteKind → Bytes → Terms → OrderStatus → Rental
new_rental now oid form kind target t s = record {
  order = record {
    id = oid;
    did_id = form.did_id;
    user_id = form.user_id;
    rate_card_id = t.id;
    channel_count = pos_part form.channel_count;
    route_kind = kind;
    route_target = target;
    audio_group_id = none;
    pop_id = none;
    status = s;
  };
  pre_quarantine_route_kind = none;
  pre_quarantine_route_target = none;
  kyc_bundle_id = form.kyc_bundle_id;
  anniversary_day = billing_day form.anniversary_day now;
  next_billing_at = next_anniversary now (billing_day form.anniversary_day now);
  ended_at = none;
}

-- The charge of the order, where it is not 0.
abbrev pub charge_nrc : ℕ → ℕ → Terms → ℤ → Shop → Shop
charge_nrc uid oid t balance shop =
    let left = balance -ℤ pos t.nrc_cents in
    if ltb 0 t.nrc_cents
    then record shop {
      customers = update_row (has_user_id uid) (with_balance left) shop.customers;
      ledger =
          record {
            user_id = uid;
            delta_cents = neg t.nrc_cents;
            kind = nrc;
            ref_id = some oid;
            balance_after = left;
          }
          ∷ shop.ledger;
    }
    else shop

-- From the INSERT to the commit. The foreign key on the user and the unique index can refuse it.
unfoldable pub place :
    Bool → Time → OrderForm → RouteKind → Bytes → Terms → OrderStatus → Shop → Reply × Shop
place broken now form kind target t s shop =
    let oid = shop.next_order_id in
    let rentals = new_rental now oid form kind target t s ∷ shop.rentals in
    if broken || not (is_customer form.user_id shop.customers) || clashes rentals
    then (failed, shop)
    else (
      ok,
      charge_nrc form.user_id oid t (balance_of form.user_id shop.customers) (
          set_did_status form.did_id (codes "assigned")
            (record shop { rentals = rentals; next_order_id = suc oid })),
    )

-- The rate card, the balance and the bundle, in this order.
unfoldable pub check_and_place :
    Bool → Time → OrderForm → RouteKind → Bytes → Option Terms → Shop → Reply × Shop
unfolding place
check_and_place broken now form kind target none shop = (refused, shop)
check_and_place broken now form kind target (some t) shop =
    if ltb_ℤ (balance_of form.user_id shop.customers) (pos t.nrc_cents)
    then (refused, shop)
    else elim (start_status form.user_id form.kyc_bundle_id shop.bundles) [
      | none ↦ (refused, shop)
      | some s ↦ place broken now form kind target t s shop
    ]

abbrev pub is_own_account : ℕ → RouteKind → Bytes → List (ℕ × Bytes) → Bool
is_own_account uid sip_account target accounts =
    any (λ (a : ℕ × Bytes). a.0 == uid && same a.1 target) accounts
is_own_account uid kind target accounts = true

unfoldable pub order_create_as : Bool → Time → OrderForm → Option RouteKind → Shop → Reply × Shop
unfolding check_and_place
order_create_as broken now form none shop = (refused, shop)
order_create_as broken now form (some kind) shop =
    let target = normalize_route_target (kind_name kind) form.route_target in
    if form.user_id == 0 || form.did_id == 0 || is_empty target
    then (refused, shop)
    else if not (is_own_account form.user_id kind target shop.sip_accounts)
    then (refused, shop)
    else check_and_place broken now form kind target (terms_for form.did_id shop) shop

-- The administrator's form: the status of the number is not looked at.
unfoldable pub order_create : Bool → Time → OrderForm → Shop → Reply × Shop
unfolding order_create_as
order_create broken now form shop = order_create_as broken now form form.route_kind shop

abbrev pub is_resellers : ℕ → Option Customer → Bool
is_resellers rid none = false
is_resellers rid (some c) = elim c.reseller_id [ none ↦ false | some r ↦ r == rid ]

abbrev pub is_available : Option DidRow → Bool
is_available none = false
is_available (some d) = same d.did.status (codes "available")
