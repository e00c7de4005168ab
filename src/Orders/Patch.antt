-- ===== src/Orders/Patch.antt =====
-- updateOrder of internal/resellerapi/extended.go.
use didstorageapp.Prelude.{
  ℕ, Bool, true, false, ◌||◌, not, Option, none, some, List, find, ◌==◌, if◌then◌else◌,
}
use didstorageapp.Prelude.Text.{Bytes, is_empty, trim_space}
use didstorageapp.Prelude.Int.{ℤ, pos, pos_part, ltb_ℤ}
use didstorageapp.Domain.Uri.{normalize_route_target}
use didstorageapp.Livecalls.{RouteKind, audio, audio_group}
use didstorageapp.Orders.Tables.{Rental, Bundle, Shop, Reply, refused, is_open, has_order_id}
use didstorageapp.Orders.Create.{kind_name}
use didstorageapp.Orders.Release.{owned}
use didstorageapp.Orders.Update.{owns_bundle, next_status, save, kind_or}

-- The reseller's request; `none` is a field that was not sent.
pub record PatchForm : Type 0 where
  pub route_kind : Option RouteKind
  pub route_target : Option Bytes
  pub channel_count : Option ℤ
  pub kyc_bundle_id : Option ℕ

abbrev pub is_sip_kind : RouteKind → Bool
is_sip_kind audio = false
is_sip_kind audio_group = false
is_sip_kind kind = true

abbrev pub trimmed_or : Option Bytes → Bytes → Bytes
trimmed_or none kept = kept
trimmed_or (some t) kept = trim_space t

abbrev pub channels_or : Option ℤ → ℕ → Option ℕ
channels_or none kept = some kept
channels_or (some n) kept = if ltb_ℤ n (pos 0) then none else some (pos_part n)

-- A bundle that is not sent, or is 0, keeps the stored one; another user's is a refusal.
abbrev pub patch_bundle : Option ℕ → ℕ → List Bundle → Option (Option ℕ)
patch_bundle none uid bundles = some none
patch_bundle (some bid) uid bundles =
    if bid == 0 then some none else if owns_bundle uid bid bundles then some (some bid) else none

abbrev pub bundle_or : Option ℕ → Option ℕ → Option ℕ
bundle_or none kept = kept
bundle_or (some b) kept = some b

unfoldable pub patch_checked :
    Bool → RouteKind → Bytes → Option ℕ → Option (Option ℕ) → Rental → Shop → Reply × Shop
patch_checked broken kind target (some channels) (some sent) r shop =
    save broken r.order.id
      (record {
        kind = kind;
        target = target;
        group = r.order.audio_group_id;
        channels = channels;
        day = r.anniversary_day;
        bundle = bundle_or sent r.kyc_bundle_id;
        status = next_status r.order.status sent shop.bundles;
      })
      shop
patch_checked broken kind target _ _ r shop = (refused, shop)

unfoldable pub patch_found : Bool → PatchForm → Option Rental → Shop → Reply × Shop
unfolding patch_checked
patch_found broken form none shop = (refused, shop)
patch_found broken form (some r) shop =
    let kind = kind_or form.route_kind r.order.route_kind in
    let target =
      normalize_route_target (kind_name kind) (trimmed_or form.route_target r.order.route_target) in
    if not (is_open r.order.status) || not (is_sip_kind kind) || is_empty target
    then (refused, shop)
    else patch_checked broken kind target (channels_or form.channel_count r.order.channel_count)
        (patch_bundle form.kyc_bundle_id r.order.user_id shop.bundles) r shop

unfoldable pub update_order : Bool → ℕ → ℕ → PatchForm → Shop → Reply × Shop
unfolding patch_found
update_order broken rid oid form shop =
    patch_found broken form (owned rid shop.customers (find (has_order_id oid) shop.rentals)) shop
