-- ===== src/Orders/Copies.antt =====
-- The two copies of the steps that create an order, of internal/web/crud.go (Orders.Create) and of
-- internal/resellerapi/resellerapi.go (Orders.Api), compared step by step.
use didstorageapp.Prelude.{
  ℕ, ◌≡◌, Bool, true, Option, none, some, List, [], ◌∷◌, find, ◌==◌, ltb, if◌then◌else◌, refl,
  Bool-cases, Option-cases, inl, inr,
}
use didstorageapp.Prelude.Text.{Bytes}
use didstorageapp.Prelude.Int.{ℤ, pos, ltb_ℤ}
use didstorageapp.Domain.Time.{Time}
use didstorageapp.Livecalls.{RouteKind}
use didstorageapp.Billing.{OrderStatus, active, kyc_pending}
use didstorageapp.Orders.Tables.{
  DidRow, Customer, Bundle, Terms, Shop, is_approved, has_did_id, has_user_id, has_bundle_id,
}
use didstorageapp.Orders.Create.{
  OrderForm, billing_day, fits, terms_for, balance_of, is_customer, start_status, new_rental,
  charge_nrc, place, check_and_place, is_resellers,
}
use didstorageapp.Orders.Api.{
  api_day, api_terms, bundle_status, api_status, api_rental, api_charge, insert_order,
  check_and_insert, balance_read,
}

pub resellers-customer :
    (rid uid : ℕ) (cs : List Customer)
    → is_resellers rid (find (has_user_id uid) cs) ≡ true
    → is_customer uid cs ≡ true
resellers-customer rid uid [] h = absurd (cc)
resellers-customer rid uid (c ∷ cs) h = elim (Bool-cases (has_user_id uid c)) [
  | inl e ↦ rw e refl
  | inr e ↦ rw e (resellers-customer rid uid cs (rw e at h))
]

api_day-billing_day : (day : ℤ) (now : Time) → api_day day now ≡ billing_day day now
api_day-billing_day day now = refl

api_rental-new_rental :
    (now : Time) (oid : ℕ) (form : OrderForm) (kind : RouteKind) (target : Bytes) (t : Terms)
    (s : OrderStatus)
    → api_rental now oid form kind target t s ≡ new_rental now oid form kind target t s
api_rental-new_rental now oid form kind target t s = refl

api_charge-charge_nrc :
    (uid oid : ℕ) (t : Terms) (b : ℤ) (shop : Shop)
    → api_charge uid oid t b shop ≡ charge_nrc uid oid t b shop
api_charge-charge_nrc uid oid t b shop = elim (Bool-cases (ltb 0 t.nrc_cents)) [
  | inl e ↦ rw e refl
  | inr e ↦ rw e refl
]

bundle_status-start_status :
    (uid bid : ℕ) (bundles : List Bundle)
    → bundle_status uid (find (has_bundle_id bid) bundles) ≡ start_status uid (some bid) bundles
bundle_status-start_status uid bid bundles = go (find (has_bundle_id bid) bundles)
  where
    go :
        (found : Option Bundle)
        → bundle_status uid found ≡ elim found [
          | none ↦ none
          | some b ↦
              if b.user_id == uid
              then some (if is_approved b.status then active else kyc_pending)
              else none
        ]
    go none = refl
    go (some b) = elim (Bool-cases (b.user_id == uid)) [ inl e ↦ rw e refl | inr e ↦ rw e refl ]

api_status-start_status :
    (uid : ℕ) (bid : Option ℕ) (bundles : List Bundle)
    → api_status uid bid bundles ≡ start_status uid bid bundles
api_status-start_status uid none bundles = refl
api_status-start_status uid (some bid) bundles = bundle_status-start_status uid bid bundles

pub api_terms-terms_for :
    (did_id : ℕ) (shop : Shop)
    → api_terms (find (has_did_id did_id) shop.dids) shop.terms ≡ terms_for did_id shop
api_terms-terms_for did_id shop = go (find (has_did_id did_id) shop.dids)
  where
    go :
        (number : Option DidRow)
        → api_terms number shop.terms
          ≡ elim number [ none ↦ none | some d ↦ find (fits d) shop.terms ]
    go none = refl
    go (some d) = refl

pub balance_read-balance_of :
    (uid : ℕ) (cs : List Customer) → balance_read (find (has_user_id uid) cs) ≡ balance_of uid cs
balance_read-balance_of uid cs = go (find (has_user_id uid) cs)
  where
    go :
        (customer : Option Customer)
        → balance_read customer ≡ elim customer [ none ↦ pos 0 | some c ↦ c.user.balance_cents ]
    go none = refl
    go (some c) = refl

module _ (broken : Bool) (now : Time) (form : OrderForm) (kind : RouteKind) (target : Bytes)
    (shop : Shop) (known : is_customer form.user_id shop.customers ≡ true) where
  abbrev held : ℤ
  held = balance_of form.user_id shop.customers

  insert_order-place :
      (t : Terms) (s : OrderStatus)
      → insert_order broken now form kind target t held s shop
        ≡ place broken now form kind target t s shop
  unfolding insert_order place
  insert_order-place t s = elim (Bool-cases broken) [
    | inl b ↦ rw b refl
    | inr b ↦ elim (Bool-cases (ltb 0 t.nrc_cents)) [
      | inl e ↦ rw (b, known, e) refl
      | inr e ↦ rw (b, known, e) refl
    ]
  ]

  pub check_and_insert-check_and_place :
      (t : Option Terms)
      → check_and_insert broken now form kind target held t shop
        ≡ check_and_place broken now form kind target t shop
  unfolding check_and_insert check_and_place
  check_and_insert-check_and_place none = refl
  check_and_insert-check_and_place (some t) = elim (Bool-cases (ltb_ℤ held (pos t.nrc_cents))) [
    | inl e ↦ rw e refl
    | inr e ↦
        rw (e, api_status-start_status form.user_id form.kyc_bundle_id shop.bundles)
          (elim (Option-cases (start_status form.user_id form.kyc_bundle_id shop.bundles)) [
            | inl n ↦ rw n refl
            | inr (s, n) ↦ rw n (insert_order-place t s)
          ])
  ]
