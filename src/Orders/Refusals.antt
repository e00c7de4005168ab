-- ===== src/Orders/Refusals.antt =====
-- Requests that are never carried out.
use didstorageapp.Prelude.{
  ℕ, ◌≡◌, ◌≢◌, Bool, Option, none, some, find, refl, Bool-cases, inl, inr, sym, ap,
}
use didstorageapp.Livecalls.{audio_group}
use didstorageapp.Sipctl.Records.{Order}
use didstorageapp.Orders.Tables.{Rental, Shop, Reply, ok, is_open, has_order_id}
use didstorageapp.Orders.Create.{is_own_account}
use didstorageapp.Orders.Update.{
  EditForm, Route, route_for, group_for, save_route, save_checked, update_route, kind_or,
  update_found, order_update, number_in, bundle_for, target_of,
}

-- The request was not carried out, and wrote nothing.
abbrev pub IsRejected : Shop → Reply × Shop → Type 0
IsRejected shop (reply, shop') = (reply ≢ ok) × (shop' ≡ shop)

save_checked-no_target :
    (broken : Bool) (route : Route) (channels day : Option ℕ) (bundle : Option (Option ℕ))
    (r : Rental) (shop : Shop)
    → route.target ≡ none
    → IsRejected shop (save_checked broken route channels day bundle r shop)
unfolding save_checked save_route
save_checked-no_target broken route (some channels) (some day) (some bundle) r shop h =
    elim (Bool-cases
      (is_own_account r.order.user_id route.kind (target_of route.target) shop.sip_accounts)) [
        | inl e ↦ rw (e, h) ((λ q. absurd (cc)), refl)
        | inr e ↦ rw e ((λ q. absurd (cc)), refl)
      ]
save_checked-no_target broken route (some channels) (some day) none r shop h =
    ((λ q. absurd (cc)), refl)
save_checked-no_target broken route (some channels) none bundle r shop h =
    ((λ q. absurd (cc)), refl)
save_checked-no_target broken route none day bundle r shop h = ((λ q. absurd (cc)), refl)

update_route-no_target :
    (broken : Bool) (form : EditForm) (route : Option Route) (r : Rental) (shop : Shop)
    → ((x : Route) → route ≡ some x → x.target ≡ none)
    → IsRejected shop (update_route broken form route r shop)
unfolding update_route
update_route-no_target broken form none r shop h = ((λ q. absurd (cc)), refl)
update_route-no_target broken form (some route) r shop h =
    save_checked-no_target broken route (number_in 0 8192 form.channel_count r.order.channel_count)
      (number_in 1 28 form.anniversary_day r.anniversary_day)
      (bundle_for form.kyc_bundle_clear form.kyc_bundle_id r.order.user_id r.kyc_bundle_id
        shop.bundles)
      r shop (h route refl)

route_for-group :
    (form : EditForm) (o : Order) (x : Route)
    → route_for form o audio_group ≡ some x
    → x.target ≡ none
unfolding route_for
route_for-group form o x = go (group_for form.group o.audio_group_id)
  where
    go :
        (g : Option ℕ)
        → elim g [
          | none ↦ none
          | some g ↦ some (record { kind = audio_group; target = none; group = some g })
        ]
          ≡ some x
        → x.target ≡ none
    go none h = absurd (cc)
    go (some g) h =
        let row : record { kind = audio_group; target = none; group = some g } ≡ x = cc (h) in
        ap (λ (y : Route). y.target) (sym row)

-- No form changes an order whose route is, or becomes, an audio group.
pub order_update_group :
    (broken : Bool) (oid : ℕ) (form : EditForm) (shop : Shop) (r : Rental)
    → find (has_order_id oid) shop.rentals ≡ some r
    → kind_or form.route_kind r.order.route_kind ≡ audio_group
    → IsRejected shop (order_update broken oid form shop)
unfolding order_update update_found
order_update_group broken oid form shop r found kind =
    rw (found, kind)
      (elim (Bool-cases (is_open r.order.status)) [
        | inr e ↦ rw e ((λ q. absurd (cc)), refl)
        | inl e ↦ rw e (
            update_route-no_target broken form (route_for form r.order audio_group) r shop
              (route_for-group form r.order))
      ])
