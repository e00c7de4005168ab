-- ===== src/Orders/Outcomes/Creating.antt =====
-- What is to be shown of every outcome of a request that creates an order is shown of a refusal
-- and of the placing.
use didstorageapp.Prelude.{
  ℕ, ◌≡◌, Bool, true, ◌||◌, Option, none, some, List, find, ◌==◌, if◌then◌else◌, refl, arith,
  Bool-cases, Option-cases, inl, inr, sym,
}
use didstorageapp.Prelude.Text.{Bytes, is_empty}
use didstorageapp.Prelude.Int.{pos, ltb_ℤ}
use didstorageapp.Domain.Time.{Time}
use didstorageapp.Domain.Uri.{normalize_route_target}
use didstorageapp.Livecalls.{RouteKind}
use didstorageapp.Billing.{OrderStatus, active, suspended, cancelled, kyc_pending, quarantined}
use didstorageapp.Orders.Tables.{
  Shop, Terms, Bundle, Reply, refused, is_approved, is_open, is_live, has_did_id, has_user_id,
  has_bundle_id,
}
use didstorageapp.Orders.Create.{
  OrderForm, place, check_and_place, order_create, order_create_as, is_available, balance_of,
  terms_for, start_status, is_own_account, is_resellers, kind_name,
}
use didstorageapp.Orders.Api.{create_order, create_order_as}
use didstorageapp.Orders.Copies.{
  resellers-customer, api_terms-terms_for, balance_read-balance_of,
  check_and_insert-check_and_place,
}

pub open-live : (s : OrderStatus) → is_open s ≡ true → is_live s ≡ true
open-live active h = refl
open-live kyc_pending h = refl
open-live quarantined h = refl
open-live suspended h = absurd (cc)
open-live cancelled h = absurd (cc)

-- A new order is active or waits for its documents.
start_status-open :
    (uid : ℕ) (bid : Option ℕ) (bundles : List Bundle) (s : OrderStatus)
    → start_status uid bid bundles ≡ some s
    → is_open s ≡ true
start_status-open uid none bundles s h = let kyc : kyc_pending ≡ s = cc in rw (sym kyc) refl
start_status-open uid (some bid) bundles s h = go (find (has_bundle_id bid) bundles) h
  where
    go :
        (b : Option Bundle)
        → elim b [
          | none ↦ none
          | some b ↦
              if b.user_id == uid
              then some (if is_approved b.status then active else kyc_pending)
              else none
        ]
          ≡ some s
        → is_open s ≡ true
    go none h = absurd (cc)
    go (some b) h = ground (arith, h)

module _ (P : Reply × Shop → Type 0) (broken : Bool) (now : Time) (form : OrderForm) (shop : Shop)
    (refusal : P (refused, shop)) where
  check_and_place_outcome :
      (kind : RouteKind) (target : Bytes) (t : Option Terms)
      → ((x : Terms) (s : OrderStatus)
          → t ≡ some x
          → is_open s ≡ true
          → P (place broken now form kind target x s shop))
      → P (check_and_place broken now form kind target t shop)
  unfolding check_and_place
  check_and_place_outcome kind target none placing = refusal
  check_and_place_outcome kind target (some t) placing =
      elim (Bool-cases (ltb_ℤ (balance_of form.user_id shop.customers) (pos t.nrc_cents))) [
        | inl e ↦ rw e refusal
        | inr e ↦
            rw e (elim (Option-cases (start_status form.user_id form.kyc_bundle_id shop.bundles)) [
              | inl n ↦ rw n refusal
              | inr (s, n) ↦ rw n (
                  placing t s refl
                    (start_status-open form.user_id form.kyc_bundle_id shop.bundles s n))
            ])
      ]

  order_create_as_outcome :
      (k : Option RouteKind)
      → ((kind : RouteKind) (target : Bytes) (t : Terms) (s : OrderStatus)
          → terms_for form.did_id shop ≡ some t
          → is_open s ≡ true
          → P (place broken now form kind target t s shop))
      → P (order_create_as broken now form k shop)
  unfolding order_create_as
  order_create_as_outcome none placing = refusal
  order_create_as_outcome (some kind) placing =
      let target = normalize_route_target (kind_name kind) form.route_target in
      elim (Bool-cases (form.user_id == 0 || form.did_id == 0 || is_empty target)) [
        | inl e ↦ rw e refusal
        | inr e ↦
            rw e (elim (Bool-cases (is_own_account form.user_id kind target shop.sip_accounts)) [
              | inl o ↦ rw o (
                  check_and_place_outcome kind target (terms_for form.did_id shop)
                    (placing kind target))
              | inr o ↦ rw o refusal
            ])
      ]

  create_order_as_outcome :
      (rid : ℕ) (k : Option RouteKind)
      → ((kind : RouteKind) (target : Bytes) (t : Terms) (s : OrderStatus)
          → is_available (find (has_did_id form.did_id) shop.dids) ≡ true
          → terms_for form.did_id shop ≡ some t
          → is_open s ≡ true
          → P (place broken now form kind target t s shop))
      → P (create_order_as broken now rid form k shop)
  unfolding create_order_as
  create_order_as_outcome rid none placing = refusal
  create_order_as_outcome rid (some kind) placing = elim (Bool-cases (is_empty form.route_target)) [
    | inl e ↦ rw e refusal
    | inr e ↦
        rw e
          (elim (Bool-cases (is_resellers rid (find (has_user_id form.user_id) shop.customers))) [
            | inr o ↦ rw o refusal
            | inl o ↦
                rw o (elim (Bool-cases (is_available (find (has_did_id form.did_id) shop.dids))) [
                  | inr a ↦ rw a refusal
                  | inl a ↦
                      let target = normalize_route_target (kind_name kind) form.route_target in
                      rw
                        (
                          a,
                          balance_read-balance_of form.user_id shop.customers,
                          api_terms-terms_for form.did_id shop,
                          check_and_insert-check_and_place broken now form kind target shop
                              (resellers-customer rid form.user_id shop.customers o)
                              (terms_for form.did_id shop),
                        )
                        (check_and_place_outcome kind target (terms_for form.did_id shop)
                          (λ t s. placing kind target t s a))
                ])
          ])
  ]

  pub order_create_outcome :
      ((kind : RouteKind) (target : Bytes) (t : Terms) (s : OrderStatus)
        → terms_for form.did_id shop ≡ some t
        → is_open s ≡ true
        → P (place broken now form kind target t s shop))
      → P (order_create broken now form shop)
  unfolding order_create
  order_create_outcome placing = order_create_as_outcome form.route_kind placing

  pub create_order_outcome :
      (rid : ℕ)
      → ((kind : RouteKind) (target : Bytes) (t : Terms) (s : OrderStatus)
          → is_available (find (has_did_id form.did_id) shop.dids) ≡ true
          → terms_for form.did_id shop ≡ some t
          → is_open s ≡ true
          → P (place broken now form kind target t s shop))
      → P (create_order broken now rid form shop)
  unfolding create_order
  create_order_outcome rid placing = create_order_as_outcome rid form.route_kind placing
