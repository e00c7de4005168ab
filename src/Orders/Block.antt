-- ===== src/Orders/Block.antt =====
-- userBlock and userUnblock of internal/web/block_handlers.go.
use didstorageapp.Prelude.{
  ℕ, Bool, true, false, ◌&&◌, ◌||◌, not, Option, none, some, [], ◌∷◌, any, map, ◌==◌, if◌then◌else◌,
}
use didstorageapp.Prelude.Text.{Bytes, codes, same, is_empty}
use didstorageapp.Billing.{OrderStatus, active, quarantined}
use didstorageapp.Orders.Tables.{
  Rental, Customer, block, unblock, Shop, Reply, ok, refused, failed, is_active, has_user_id,
  update_row, clashes,
}

abbrev pub is_quarantined : OrderStatus → Bool
is_quarantined quarantined = true
is_quarantined _ = false

-- `WHERE id=$1 AND status=..`
abbrev pub is_user_in : ℕ → Bytes → Customer → Bool
is_user_in uid s c = has_user_id uid c && same c.user.status s

abbrev pub with_user_status : Bytes → Customer → Customer
with_user_status s c = record c { user = record c.user { status = s } }

-- An active order of the user keeps its route aside and is quarantined.
abbrev pub quarantine : ℕ → Rental → Rental
quarantine uid r =
    if r.order.user_id == uid && is_active r.order.status
    then record r {
      order = record r.order { status = quarantined };
      pre_quarantine_route_kind = some r.order.route_kind;
      pre_quarantine_route_target = some r.order.route_target;
    }
    else r

unfoldable pub user_block : Bool → ℕ → Bytes → Shop → Reply × Shop
user_block broken uid reason shop =
    if is_empty reason || not (any (is_user_in uid (codes "active")) shop.customers)
    then (refused, shop)
    else if broken
    then (failed, shop)
    else (
      ok,
      record shop {
        customers =
            update_row (is_user_in uid (codes "active")) (with_user_status (codes "inactive"))
              shop.customers;
        rentals = map (quarantine uid) shop.rentals;
        block_log = record { user_id = uid; action = block; reason = reason } ∷ shop.block_log;
      },
    )

-- COALESCE
abbrev pub or_kept : {A : Type 0} → Option A → A → A
or_kept none kept = kept
or_kept (some a) kept = a

abbrev pub restore : ℕ → Rental → Rental
restore uid r =
    if r.order.user_id == uid && is_quarantined r.order.status
    then record r {
      order = record r.order {
        status = active;
        route_kind = or_kept r.pre_quarantine_route_kind r.order.route_kind;
        route_target = or_kept r.pre_quarantine_route_target r.order.route_target;
      };
      pre_quarantine_route_kind = none;
      pre_quarantine_route_target = none;
    }
    else r

abbrev pub or_reason : Bytes → Bytes
or_reason [] = codes "unblocked"
or_reason (c ∷ s) = c ∷ s

unfoldable pub user_unblock : Bool → ℕ → Bytes → Shop → Reply × Shop
user_unblock broken uid reason shop =
    let rentals = map (restore uid) shop.rentals in
    if not (any (is_user_in uid (codes "inactive")) shop.customers)
    then (refused, shop)
    else if broken || clashes rentals
    then (failed, shop)
    else (
      ok,
      record shop {
        customers =
            update_row (is_user_in uid (codes "inactive")) (with_user_status (codes "active"))
              shop.customers;
        rentals = rentals;
        block_log =
            record { user_id = uid; action = unblock; reason = or_reason reason } ∷ shop.block_log;
      },
    )
