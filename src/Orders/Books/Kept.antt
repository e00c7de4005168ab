-- ===== src/Orders/Books/Kept.antt =====
-- The other handlers leave the balances as they were, or forget a user with its ledger.
use didstorageapp.Prelude.{
  ℕ, ◌≡◌, Bool, not, Option, none, some, find, keep, ◌==◌, if◌then◌else◌, arith, Bool-cases, inl,
  inr, ◌∙◌, sym, ap,
}
use didstorageapp.Prelude.Text.{Bytes, codes}
use didstorageapp.Prelude.Int.{pos}
use didstorageapp.Domain.Time.{Time}
use didstorageapp.Livecalls.{RouteKind}
use didstorageapp.Orders.Tables.{Shop, Customer, LedgerEntry, has_user_id, update_row}
use didstorageapp.Orders.Books.{
  booked, IsBooked, balance_of_lem, balance_in-with_user_status, balance_in-keep, booked-keep,
}
use didstorageapp.Orders.Create.{balance_of}
use didstorageapp.Orders.Accounts.{user_delete}
use didstorageapp.Orders.Block.{is_user_in, with_user_status, user_block, user_unblock}
use didstorageapp.Orders.Tables.{Rental, has_order_id}
use didstorageapp.Orders.Kyc.{approve_bundle, reject_bundle}
use didstorageapp.Orders.Release.{
  cancel_found, order_cancel, cancel_order, owned, swap_found, order_swap_did, did_retire,
  ReserveForm, reserved_target, reserve_to, did_reserve, did_release,
}
use didstorageapp.Orders.Update.{EditForm, order_update, Edit, save}
use didstorageapp.Orders.Patch.{PatchForm, update_order}
use didstorageapp.Orders.Outcomes.Editing.{order_update_outcome, update_order_outcome}

cancel_found-IsBooked :
    (broken : Bool) (now : Time) (r : Option Rental) (shop : Shop)
    → IsBooked shop
    → IsBooked (cancel_found broken now r shop).1
unfolding cancel_found
cancel_found-IsBooked broken now none shop h v = h v
cancel_found-IsBooked broken now (some r) shop h v = ground (arith, h v)

pub order_cancel-IsBooked :
    (broken : Bool) (now : Time) (oid : ℕ) (shop : Shop)
    → IsBooked shop
    → IsBooked (order_cancel broken now oid shop).1
unfolding order_cancel
order_cancel-IsBooked broken now oid shop =
    cancel_found-IsBooked broken now (find (has_order_id oid) shop.rentals) shop

pub cancel_order-IsBooked :
    (broken : Bool) (now : Time) (rid oid : ℕ) (shop : Shop)
    → IsBooked shop
    → IsBooked (cancel_order broken now rid oid shop).1
unfolding cancel_order
cancel_order-IsBooked broken now rid oid shop =
    cancel_found-IsBooked broken now
      (owned rid shop.customers (find (has_order_id oid) shop.rentals)) shop

swap_found-IsBooked :
    (broken : Bool) (new_did : ℕ) (r : Option Rental) (shop : Shop)
    → IsBooked shop
    → IsBooked (swap_found broken new_did r shop).1
unfolding swap_found
swap_found-IsBooked broken new_did none shop h v = h v
swap_found-IsBooked broken new_did (some r) shop h v = ground (arith, h v)

pub order_swap_did-IsBooked :
    (broken : Bool) (oid new_did : ℕ) (shop : Shop)
    → IsBooked shop
    → IsBooked (order_swap_did broken oid new_did shop).1
unfolding order_swap_did
order_swap_did-IsBooked broken oid new_did shop h = elim (Bool-cases (new_did == 0)) [
  | inl e ↦ rw e h
  | inr e ↦ rw e (swap_found-IsBooked broken new_did (find (has_order_id oid) shop.rentals) shop h)
]

pub did_retire-IsBooked :
    (unread broken : Bool) (did_id : ℕ) (shop : Shop)
    → IsBooked shop
    → IsBooked (did_retire unread broken did_id shop).1
unfolding did_retire
did_retire-IsBooked unread broken did_id shop h v = ground (arith, h v)

reserve_to-IsBooked :
    (broken : Bool) (did_id : ℕ) (kind : RouteKind) (t : Option (Bytes × Option ℕ)) (shop : Shop)
    → IsBooked shop
    → IsBooked (reserve_to broken did_id kind t shop).1
reserve_to-IsBooked broken did_id kind none shop h v = h v
reserve_to-IsBooked broken did_id kind (some (target, group)) shop h v = ground (arith, h v)

pub did_reserve-IsBooked :
    (broken : Bool) (did_id : ℕ) (form : ReserveForm) (shop : Shop)
    → IsBooked shop
    → IsBooked (did_reserve broken did_id form shop).1
unfolding did_reserve
did_reserve-IsBooked broken did_id form shop =
    reserve_to-IsBooked broken did_id form.route_kind (reserved_target form form.route_kind) shop

pub did_release-IsBooked :
    (broken : Bool) (did_id : ℕ) (shop : Shop)
    → IsBooked shop
    → IsBooked (did_release broken did_id shop).1
unfolding did_release
did_release-IsBooked broken did_id shop h v = ground (arith, h v)

pub approve_bundle-IsBooked :
    (broken : Bool) (bid : ℕ) (shop : Shop)
    → IsBooked shop
    → IsBooked (approve_bundle broken bid shop).2
unfolding approve_bundle
approve_bundle-IsBooked broken bid shop h v = ground (arith, h v)

pub reject_bundle-IsBooked :
    (broken : Bool) (bid : ℕ) (reason : Bytes) (shop : Shop)
    → IsBooked shop
    → IsBooked (reject_bundle broken bid reason shop).1
unfolding reject_bundle
reject_bundle-IsBooked broken bid reason shop h v = ground (arith, h v)

save-IsBooked :
    (broken : Bool) (oid : ℕ) (e : Edit) (shop : Shop)
    → IsBooked shop
    → IsBooked (save broken oid e shop).1
save-IsBooked broken oid e shop h v = ground (arith, h v)

pub order_update-IsBooked :
    (broken : Bool) (oid : ℕ) (form : EditForm) (shop : Shop)
    → IsBooked shop
    → IsBooked (order_update broken oid form shop).1
order_update-IsBooked broken oid form shop h =
    order_update_outcome (λ p. IsBooked p.1) broken shop h h
      (λ r e found live. save-IsBooked broken r.order.id e shop h) oid form

pub update_order-IsBooked :
    (broken : Bool) (rid oid : ℕ) (form : PatchForm) (shop : Shop)
    → IsBooked shop
    → IsBooked (update_order broken rid oid form shop).1
update_order-IsBooked broken rid oid form shop h =
    update_order_outcome (λ p. IsBooked p.1) broken shop h h
      (λ r e found live. save-IsBooked broken r.order.id e shop h) rid oid form

-- A change of a user's status is none of its balance.
status_kept :
    (v uid : ℕ) (s t : Bytes) (shop : Shop)
    → IsBooked shop
    → balance_of v (update_row (is_user_in uid s) (with_user_status t) shop.customers)
      ≡ booked v shop.ledger
status_kept v uid s t shop h =
    balance_of_lem v (update_row (is_user_in uid s) (with_user_status t) shop.customers)
    ∙ balance_in-with_user_status v uid s t shop.customers
    ∙ sym (balance_of_lem v shop.customers)
    ∙ h v

pub user_block-IsBooked :
    (broken : Bool) (uid : ℕ) (reason : Bytes) (shop : Shop)
    → IsBooked shop
    → IsBooked (user_block broken uid reason shop).1
unfolding user_block
user_block-IsBooked broken uid reason shop h v =
    ground (arith, h v, status_kept v uid (codes "active") (codes "inactive") shop h)

pub user_unblock-IsBooked :
    (broken : Bool) (uid : ℕ) (reason : Bytes) (shop : Shop)
    → IsBooked shop
    → IsBooked (user_unblock broken uid reason shop).1
unfolding user_unblock
user_unblock-IsBooked broken uid reason shop h v =
    ground (arith, h v, status_kept v uid (codes "inactive") (codes "active") shop h)

forgotten :
    (v uid : ℕ) (shop : Shop)
    → IsBooked shop
    → balance_of v (keep (λ (c : Customer). not (has_user_id uid c)) shop.customers)
      ≡ booked v (keep (λ (e : LedgerEntry). not (e.user_id == uid)) shop.ledger)
forgotten v uid shop h =
    balance_of_lem v (keep (λ (c : Customer). not (has_user_id uid c)) shop.customers)
    ∙ balance_in-keep v uid shop.customers
    ∙ ap (λ x. if v == uid then pos 0 else x) (sym (balance_of_lem v shop.customers) ∙ h v)
    ∙ sym (booked-keep v uid shop.ledger)

pub user_delete-IsBooked :
    (broken confirmed : Bool) (now : Time) (uid : ℕ) (shop : Shop)
    → IsBooked shop
    → IsBooked (user_delete broken confirmed now uid shop).1
unfolding user_delete
user_delete-IsBooked broken confirmed now uid shop h v = ground (arith, h v, forgotten v uid shop h)
