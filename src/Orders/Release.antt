-- ===== src/Orders/Release.antt =====
-- The handlers that end an order or move a number: orderCancel, orderSwapDID and didRetire of
-- internal/web/crud.go, didReserve and didRelease of internal/web/did_handlers.go, cancelOrder of
-- internal/resellerapi/resellerapi.go. The archive of past reservations is left out, and the clip
-- or group of an audio reservation is taken as looked up.
use didstorageapp.Prelude.{
  ℕ, Bool, ◌&&◌, ◌||◌, not, Option, none, some, List, [], ◌++◌, any, find, ◌==◌, if◌then◌else◌,
}
use didstorageapp.Prelude.Text.{Bytes, codes, same, is_empty}
use didstorageapp.Domain.Time.{Time}
use didstorageapp.Domain.Uri.{normalize_route_target}
use didstorageapp.Livecalls.{RouteKind, audio, audio_group}
use didstorageapp.Billing.{cancelled}
use didstorageapp.Orders.Tables.{
  Rental, DidRow, Customer, Shop, Reply, ok, refused, failed, is_live, is_open, has_order_id,
  has_did_id, has_user_id, update_row, set_did_status, clashes,
}
use didstorageapp.Orders.Create.{kind_name, is_resellers, is_available}

abbrev pub ended : Time → Rental → Rental
ended now r = record r { order = record r.order { status = cancelled }; ended_at = some now }

-- The order is cancelled and its number returned to the pool.
abbrev pub release_order : Time → Rental → Shop → Shop
release_order now r shop =
    set_did_status r.order.did_id (codes "available")
      (record shop { rentals = update_row (has_order_id r.order.id) (ended now) shop.rentals })

unfoldable pub cancel_found : Bool → Time → Option Rental → Shop → Reply × Shop
cancel_found broken now none shop = (refused, shop)
cancel_found broken now (some r) shop =
    if not (is_live r.order.status)
    then (refused, shop)
    else if broken
    then (failed, shop)
    else (ok, release_order now r shop)

unfoldable pub order_cancel : Bool → Time → ℕ → Shop → Reply × Shop
unfolding cancel_found
order_cancel broken now oid shop =
    cancel_found broken now (find (has_order_id oid) shop.rentals) shop

-- A reseller cancels an order of a customer of its own.
abbrev pub owned : ℕ → List Customer → Option Rental → Option Rental
owned rid customers none = none
owned rid customers (some r) =
    if is_resellers rid (find (has_user_id r.order.user_id) customers) then some r else none

unfoldable pub cancel_order : Bool → Time → ℕ → ℕ → Shop → Reply × Shop
unfolding cancel_found
cancel_order broken now rid oid shop =
    cancel_found broken now (owned rid shop.customers (find (has_order_id oid) shop.rentals)) shop

abbrev pub on_did : ℕ → Rental → Rental
on_did did_id r = record r { order = record r.order { did_id = did_id } }

-- The old number is released, the order is moved, and the new number is assigned.
unfoldable pub swap_found : Bool → ℕ → Option Rental → Shop → Reply × Shop
swap_found broken new_did none shop = (refused, shop)
swap_found broken new_did (some r) shop =
    let released = set_did_status r.order.did_id (codes "available") shop in
    let rentals = update_row (has_order_id r.order.id) (on_did new_did) released.rentals in
    if not (is_open r.order.status) || r.order.did_id == new_did
    then (refused, shop)
    else if not (is_available (find (has_did_id new_did) shop.dids))
    then (refused, shop)
    else if broken || clashes rentals
    then (failed, shop)
    else (ok, set_did_status new_did (codes "assigned") (record released { rentals = rentals }))

unfoldable pub order_swap_did : Bool → ℕ → ℕ → Shop → Reply × Shop
unfolding swap_found
order_swap_did broken oid new_did shop =
    if new_did == 0
    then (refused, shop)
    else swap_found broken new_did (find (has_order_id oid) shop.rentals) shop

abbrev pub open_on : ℕ → List Rental → Bool
open_on did_id rs = any (λ (r : Rental). is_open r.order.status && r.order.did_id == did_id) rs

-- `unread` says that the query fails that counts the orders: its error is not looked at, and the count
-- stays 0.
unfoldable pub did_retire : Bool → Bool → ℕ → Shop → Reply × Shop
did_retire unread broken did_id shop =
    if not unread && open_on did_id shop.rentals
    then (refused, shop)
    else if broken
    then (failed, shop)
    else (ok, set_did_status did_id (codes "retired") shop)

-- The form of a reservation: the file name of the clip or the id of the group where one was picked.
pub record ReserveForm : Type 0 where
  pub route_kind : RouteKind
  pub route_target : Bytes
  pub clip : Option Bytes
  pub group : Option ℕ

-- The target and the group to store; `none` is a refusal. A group that is picked has members.
abbrev pub reserved_target : ReserveForm → RouteKind → Option (Bytes × Option ℕ)
reserved_target form audio = elim form.clip [
  | none ↦ none
  | some name ↦ some (codes "didstorage/" ++ name, none)
]
reserved_target form audio_group = elim form.group [ none ↦ none | some g ↦ some ([], some g) ]
reserved_target form kind =
    let target = normalize_route_target (kind_name kind) form.route_target in
    if is_empty target then none else some (target, none)

abbrev pub with_reservation : RouteKind → Bytes → Option ℕ → DidRow → DidRow
with_reservation kind target group d = record d {
  did = record d.did {
    status = codes "reserved";
    reserved_route_kind = some kind;
    reserved_route_target = target;
    reserved_audio_group_id = group;
  };
}

abbrev pub is_available_row : ℕ → DidRow → Bool
is_available_row did_id d = has_did_id did_id d && same d.did.status (codes "available")

abbrev pub reserve_to : Bool → ℕ → RouteKind → Option (Bytes × Option ℕ) → Shop → Reply × Shop
reserve_to broken did_id kind none shop = (refused, shop)
reserve_to broken did_id kind (some (target, group)) shop =
    if broken
    then (failed, shop)
    else if not (any (is_available_row did_id) shop.dids)
    then (refused, shop)
    else (
      ok,
      record shop {
        dids = update_row (is_available_row did_id) (with_reservation kind target group) shop.dids;
      },
    )

unfoldable pub did_reserve : Bool → ℕ → ReserveForm → Shop → Reply × Shop
did_reserve broken did_id form shop =
    reserve_to broken did_id form.route_kind (reserved_target form form.route_kind) shop

abbrev pub is_reserved_row : ℕ → DidRow → Bool
is_reserved_row did_id d = has_did_id did_id d && same d.did.status (codes "reserved")

abbrev pub without_reservation : DidRow → DidRow
without_reservation d = record d {
  did = record d.did {
    status = codes "available";
    reserved_route_kind = none;
    reserved_route_target = [];
    reserved_audio_group_id = none;
  };
}

unfoldable pub did_release : Bool → ℕ → Shop → Reply × Shop
did_release broken did_id shop =
    if not (any (is_reserved_row did_id) shop.dids)
    then (refused, shop)
    else if broken
    then (failed, shop)
    else (
      ok,
      record shop { dids = update_row (is_reserved_row did_id) without_reservation shop.dids },
    )
