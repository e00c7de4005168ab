-- ===== src/Orders/Outcomes/Editing.antt =====
-- What is to be shown of every outcome of a request that changes an order is shown of a refusal, of
-- a failure and of the UPDATE.
use didstorageapp.Prelude.{
  ℕ, ◌≡◌, Bool, ◌||◌, not, Option, none, some, List, find, find_passes, ==_iff, arith, Bool-cases,
  Option-cases, inl, inr, sym, subst,
}
use didstorageapp.Prelude.Text.{Bytes, is_empty}
use didstorageapp.Domain.Uri.{normalize_route_target}
use didstorageapp.Livecalls.{RouteKind}
use didstorageapp.Billing.{OrderStatus}
use didstorageapp.Orders.Tables.{
  refused, failed, Rental, Shop, Reply, is_live, is_open, has_order_id, has_user_id,
}
use didstorageapp.Orders.Create.{is_own_account, is_resellers, kind_name}
use didstorageapp.Orders.Tables.{Bundle}
use didstorageapp.Orders.Update.{
  EditForm, Route, route_for, number_in, bundle_for, next_status, Edit, save, save_route, target_of,
  save_checked, update_route, kind_or, update_found, order_update,
}
use didstorageapp.Orders.Patch.{
  PatchForm, trimmed_or, channels_or, patch_bundle, patch_checked, patch_found, update_order,
  is_sip_kind,
}

-- The row that a key finds has that key.
pub found_id :
    (oid : ℕ) (rs : List Rental) (r : Rental)
    → find (has_order_id oid) rs ≡ some r
    → r.order.id ≡ oid
found_id oid rs r h = (==_iff r.order.id oid).0 (find_passes (has_order_id oid) rs r h)

pub found_again :
    (oid : ℕ) (rs : List Rental) (r : Rental)
    → find (has_order_id oid) rs ≡ some r
    → find (has_order_id r.order.id) rs ≡ some r
found_again oid rs r h =
    subst (λ i. find (has_order_id i) rs ≡ some r) (sym (found_id oid rs r h)) h

-- A bundle may activate an order, and ends none.
next_status-live :
    (s : OrderStatus) (bundle : Option ℕ) (bundles : List Bundle)
    → is_live (next_status s bundle bundles) ≡ is_live s
next_status-live s bundle bundles = ground arith

module _ (P : Reply × Shop → Type 0) (broken : Bool) (shop : Shop) (refusal : P (refused, shop))
    (failure : P (failed, shop))
    (saving : (r : Rental) (e : Edit)
      → find (has_order_id r.order.id) shop.rentals ≡ some r
      → is_live e.status ≡ is_live r.order.status
      → P (save broken r.order.id e shop)) where
  save_route_outcome :
      (route : Route) (channels day : ℕ) (bundle : Option ℕ) (r : Rental)
      → find (has_order_id r.order.id) shop.rentals ≡ some r
      → P (save_route broken route channels day bundle r shop)
  unfolding save_route
  save_route_outcome route channels day bundle r found = elim (Option-cases route.target) [
    | inl e ↦ rw e failure
    | inr (target, e) ↦
        rw e (saving r _ found (next_status-live r.order.status bundle shop.bundles))
  ]

  save_checked_outcome :
      (route : Route) (channels day : Option ℕ) (bundle : Option (Option ℕ)) (r : Rental)
      → find (has_order_id r.order.id) shop.rentals ≡ some r
      → P (save_checked broken route channels day bundle r shop)
  unfolding save_checked
  save_checked_outcome route (some channels) (some day) (some bundle) r found =
      elim (Bool-cases
        (is_own_account r.order.user_id route.kind (target_of route.target) shop.sip_accounts)) [
          | inl e ↦ rw e (save_route_outcome route channels day bundle r found)
          | inr e ↦ rw e refusal
        ]
  save_checked_outcome route (some channels) (some day) none r found = refusal
  save_checked_outcome route (some channels) none bundle r found = refusal
  save_checked_outcome route none day bundle r found = refusal

  update_route_outcome :
      (form : EditForm) (route : Option Route) (r : Rental)
      → find (has_order_id r.order.id) shop.rentals ≡ some r
      → P (update_route broken form route r shop)
  unfolding update_route
  update_route_outcome form none r found = refusal
  update_route_outcome form (some route) r found =
      save_checked_outcome route (number_in 0 8192 form.channel_count r.order.channel_count)
        (number_in 1 28 form.anniversary_day r.anniversary_day)
        (bundle_for form.kyc_bundle_clear form.kyc_bundle_id r.order.user_id r.kyc_bundle_id
          shop.bundles)
        r found

  pub order_update_outcome : (oid : ℕ) (form : EditForm) → P (order_update broken oid form shop)
  unfolding order_update update_found
  order_update_outcome oid form = elim (Option-cases (find (has_order_id oid) shop.rentals)) [
    | inl e ↦ rw e refusal
    | inr (r, e) ↦ rw e (elim (Bool-cases (is_open r.order.status)) [
      | inr o ↦ rw o refusal
      | inl o ↦ rw o (
          update_route_outcome form
            (route_for form r.order (kind_or form.route_kind r.order.route_kind)) r
            (found_again oid shop.rentals r e))
    ])
  ]

  patch_checked_outcome :
      (kind : RouteKind) (target : Bytes) (channels : Option ℕ) (sent : Option (Option ℕ))
      (r : Rental)
      → find (has_order_id r.order.id) shop.rentals ≡ some r
      → P (patch_checked broken kind target channels sent r shop)
  unfolding patch_checked
  patch_checked_outcome kind target (some channels) (some sent) r found =
      saving r _ found (next_status-live r.order.status sent shop.bundles)
  patch_checked_outcome kind target (some channels) none r found = refusal
  patch_checked_outcome kind target none sent r found = refusal

  patch_found_outcome :
      (form : PatchForm) (r : Rental)
      → find (has_order_id r.order.id) shop.rentals ≡ some r
      → P (patch_found broken form (some r) shop)
  unfolding patch_found
  patch_found_outcome form r found =
      let kind = kind_or form.route_kind r.order.route_kind in
      let target =
        normalize_route_target (kind_name kind)
          (trimmed_or form.route_target r.order.route_target) in
      elim (Bool-cases
        (not (is_open r.order.status) || not (is_sip_kind kind) || is_empty target)) [
          | inl e ↦ rw e refusal
          | inr e ↦ rw e (
              patch_checked_outcome kind target
                (channels_or form.channel_count r.order.channel_count)
                (patch_bundle form.kyc_bundle_id r.order.user_id shop.bundles) r found)
        ]

  pub update_order_outcome :
      (rid oid : ℕ) (form : PatchForm) → P (update_order broken rid oid form shop)
  unfolding update_order
  update_order_outcome rid oid form = elim (Option-cases (find (has_order_id oid) shop.rentals)) [
    | inl e ↦ rw e refusal
    | inr (r, e) ↦
        rw e
          (elim (Bool-cases
            (is_resellers rid (find (has_user_id r.order.user_id) shop.customers))) [
              | inr o ↦ rw o refusal
              | inl o ↦ rw o (patch_found_outcome form r (found_again oid shop.rentals r e))
            ])
  ]
