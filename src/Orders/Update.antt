-- ===== src/Orders/Update.antt =====
-- orderUpdate of internal/web/crud.go.
use didstorageapp.Prelude.{
  ℕ, Bool, true, false, ◌&&◌, ◌||◌, Option, none, some, List, [], ◌++◌, any, find, ◌==◌,
  if◌then◌else◌,
}
use didstorageapp.Prelude.Text.{Bytes, codes, is_empty, trim_space}
use didstorageapp.Prelude.Int.{ℤ, pos, pos_part, leb_ℤ}
use didstorageapp.Domain.Uri.{normalize_route_target}
use didstorageapp.Livecalls.{RouteKind, audio, audio_group}
use didstorageapp.Billing.{OrderStatus, active}
use didstorageapp.Sipctl.Records.{Order}
use didstorageapp.Orders.Tables.{
  Rental, Bundle, Shop, Reply, ok, refused, failed, is_open, is_approved, has_order_id,
  has_bundle_id, update_row, clashes,
}
use didstorageapp.Orders.Create.{kind_name, is_own_account}
use didstorageapp.Orders.Kyc.{is_kyc_pending}

-- A number field of a form: left empty, not a number, or a number.
pub data Field : Type 0 where
  blank bad : Field
  number : ℤ → Field

-- A clip that was picked: not there any more, or its file name.
pub data Clip : Type 0 where
  not_picked missing : Clip
  file : Bytes → Clip

-- A group that was picked, with the number of its members.
pub data Group : Type 0 where
  not_picked : Group
  picked : ℕ → ℕ → Group

pub record EditForm : Type 0 where
  pub route_kind : Option RouteKind
  pub route_target : Bytes
  pub clip : Clip
  pub group : Group
  pub channel_count : Field
  pub anniversary_day : Field
  pub kyc_bundle_id : Field
  pub kyc_bundle_clear : Bool

-- What the order routes to: a target, `none` for NULL, and a group.
pub record Route : Type 0 where
  pub kind : RouteKind
  pub target : Option Bytes
  pub group : Option ℕ

abbrev pub route_if : RouteKind → Bytes → Option Route
route_if kind target =
    if is_empty target
    then none
    else some (record { kind = kind; target = some target; group = none })

abbrev pub clip_target : Clip → Bytes → Option Bytes
clip_target Clip.not_picked kept = some kept
clip_target missing kept = none
clip_target (file name) kept = some (codes "didstorage/" ++ name)

abbrev pub group_for : Group → Option ℕ → Option ℕ
group_for Group.not_picked kept = kept
group_for (picked g members) kept = if members == 0 then none else some g

abbrev pub posted_target : RouteKind → Bytes → Bytes → Bytes
posted_target kind posted kept =
    if is_empty posted then kept else normalize_route_target (kind_name kind) posted

-- `none` is a refusal.
unfoldable pub route_for : EditForm → Order → RouteKind → Option Route
route_for form o audio = elim (clip_target form.clip o.route_target) [
  | none ↦ none
  | some target ↦ route_if audio target
]
route_for form o audio_group = elim (group_for form.group o.audio_group_id) [
  | none ↦ none
  | some g ↦ some (record { kind = audio_group; target = none; group = some g })
]
route_for form o kind =
    route_if kind (posted_target kind (trim_space form.route_target) o.route_target)

abbrev pub in_range : ℕ → ℕ → ℤ → Bool
in_range lo hi n = leb_ℤ (pos lo) n && leb_ℤ n (pos hi)

-- An empty field keeps the value.
abbrev pub number_in : ℕ → ℕ → Field → ℕ → Option ℕ
number_in lo hi blank kept = some kept
number_in lo hi bad kept = none
number_in lo hi (number n) kept = if in_range lo hi n then some (pos_part n) else none

abbrev pub owns_bundle : ℕ → ℕ → List Bundle → Bool
owns_bundle uid bid bundles = elim (find (has_bundle_id bid) bundles) [
  | none ↦ false
  | some b ↦ b.user_id == uid
]

-- The bundle to store; the outer `none` is a refusal.
unfoldable pub bundle_for : Bool → Field → ℕ → Option ℕ → List Bundle → Option (Option ℕ)
bundle_for true field uid kept bundles = some none
bundle_for false blank uid kept bundles = some kept
bundle_for false bad uid kept bundles = none
bundle_for false (number n) uid kept bundles =
    if leb_ℤ n (pos 0)
    then none
    else if owns_bundle uid (pos_part n) bundles
    then some (some (pos_part n))
    else none

abbrev pub bundle_approved : Option ℕ → List Bundle → Bool
bundle_approved none bundles = false
bundle_approved (some bid) bundles =
    any (λ (b : Bundle). has_bundle_id bid b && is_approved b.status) bundles

-- The CASE of the UPDATE: an approved bundle activates an order that waits for one.
abbrev pub next_status : OrderStatus → Option ℕ → List Bundle → OrderStatus
next_status s bundle bundles =
    if is_kyc_pending s && bundle_approved bundle bundles then active else s

pub record Edit : Type 0 where
  pub kind : RouteKind
  pub target : Bytes
  pub group : Option ℕ
  pub channels : ℕ
  pub day : ℕ
  pub bundle : Option ℕ
  pub status : OrderStatus

abbrev pub edited : Edit → Rental → Rental
edited e r = record r {
  order = record r.order {
    route_kind = e.kind;
    route_target = e.target;
    audio_group_id = e.group;
    channel_count = e.channels;
    status = e.status;
  };
  anniversary_day = e.day;
  kyc_bundle_id = e.bundle;
}

-- The UPDATE. The unique index can refuse it.
abbrev pub save : Bool → ℕ → Edit → Shop → Reply × Shop
save broken oid e shop =
    let rentals = update_row (has_order_id oid) (edited e) shop.rentals in
    if broken || clashes rentals then (failed, shop) else (ok, record shop { rentals = rentals })

-- orders.route_target is NOT NULL: a NULL target is refused by the database.
unfoldable pub save_route : Bool → Route → ℕ → ℕ → Option ℕ → Rental → Shop → Reply × Shop
save_route broken route channels day bundle r shop = elim route.target [
  | none ↦ (failed, shop)
  | some target ↦
      save broken r.order.id
        (record {
          kind = route.kind;
          target = target;
          group = route.group;
          channels = channels;
          day = day;
          bundle = bundle;
          status = next_status r.order.status bundle shop.bundles;
        })
        shop
]

abbrev pub target_of : Option Bytes → Bytes
target_of none = []
target_of (some t) = t

-- The numbers, the account and the bundle, in this order.
unfoldable pub save_checked :
    Bool → Route → Option ℕ → Option ℕ → Option (Option ℕ) → Rental → Shop → Reply × Shop
unfolding save_route
save_checked broken route (some channels) (some day) (some bundle) r shop =
    if is_own_account r.order.user_id route.kind (target_of route.target) shop.sip_accounts
    then save_route broken route channels day bundle r shop
    else (refused, shop)
save_checked broken route _ _ _ r shop = (refused, shop)

unfoldable pub update_route : Bool → EditForm → Option Route → Rental → Shop → Reply × Shop
unfolding save_checked
update_route broken form none r shop = (refused, shop)
update_route broken form (some route) r shop =
    save_checked broken route (number_in 0 8192 form.channel_count r.order.channel_count)
      (number_in 1 28 form.anniversary_day r.anniversary_day)
      (bundle_for form.kyc_bundle_clear form.kyc_bundle_id r.order.user_id r.kyc_bundle_id
        shop.bundles)
      r shop

abbrev pub kind_or : Option RouteKind → RouteKind → RouteKind
kind_or none kept = kept
kind_or (some k) kept = k

unfoldable pub update_found : Bool → EditForm → Option Rental → Shop → Reply × Shop
unfolding update_route route_for
update_found broken form none shop = (refused, shop)
update_found broken form (some r) shop =
    if is_open r.order.status
    then update_route broken form
        (route_for form r.order (kind_or form.route_kind r.order.route_kind)) r shop
    else (refused, shop)

unfoldable pub order_update : Bool → ℕ → EditForm → Shop → Reply × Shop
unfolding update_found
order_update broken oid form shop =
    update_found broken form (find (has_order_id oid) shop.rentals) shop
