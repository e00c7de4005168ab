-- ===== src/Orders/Placed/Steps.antt =====
-- Everything that happens to the tables of orders and numbers, as steps, and what holds in every
-- state that they reach.
use didstorageapp.Prelude.{ℕ, ◌≡◌, Bool, true, find, if◌then◌else◌, arith}
use didstorageapp.Prelude.Text.{Bytes}
use didstorageapp.Prelude.Int.{ℤ}
use didstorageapp.Domain.Time.{Time}
use didstorageapp.Billing.{suspended}
use didstorageapp.Orders.Tables.{Rental, Shop, has_order_id, has_did_id, update_row}
use didstorageapp.Orders.Placed.{holds, holders, IsPlaced, holders-update_row_same}
use didstorageapp.Orders.Create.{OrderForm, order_create, is_available}
use didstorageapp.Orders.Api.{create_order}
use didstorageapp.Orders.Release.{
  order_cancel, cancel_order, order_swap_did, did_retire, ReserveForm, did_reserve, did_release,
}
use didstorageapp.Orders.Block.{user_block, user_unblock}
use didstorageapp.Orders.Kyc.{approve_bundle, reject_bundle}
use didstorageapp.Orders.Accounts.{user_topup, topup_user, user_delete}
use didstorageapp.Orders.Update.{EditForm, order_update}
use didstorageapp.Orders.Patch.{PatchForm, update_order}
use didstorageapp.Orders.Tables.{is_active, with_status}
use didstorageapp.Orders.Placed.Opening.{order_create-IsPlaced, create_order-IsPlaced}
use didstorageapp.Orders.Placed.Closing.{order_cancel-IsPlaced, cancel_order-IsPlaced}
use didstorageapp.Orders.Placed.Moving.{order_swap_did-IsPlaced}
use didstorageapp.Orders.Placed.Numbers.{
  did_retire-IsPlaced, did_reserve-IsPlaced, did_release-IsPlaced,
}
use didstorageapp.Orders.Placed.Users.{
  user_block-IsPlaced, user_unblock-IsPlaced, approve_bundle-IsPlaced, reject_bundle-IsPlaced,
  user_topup-IsPlaced, topup_user-IsPlaced, user_delete-IsPlaced,
}
use didstorageapp.Orders.Placed.Editing.{order_update-IsPlaced, update_order-IsPlaced}

-- The billing run suspends an order that cannot pay.
abbrev pub suspend_row : Rental → Rental
suspend_row r = if is_active r.order.status then with_status suspended r else r

abbrev pub suspend : ℕ → Shop → Shop
suspend oid shop = record shop { rentals = update_row (has_order_id oid) suspend_row shop.rentals }

-- One request, or the suspension of one order, with every failure. A form is posted for an
-- available number, and a number is retired that no order holds.
pub data Step (shop : Shop) : Shop → Type 0 where
  placed_by_form :
      (broken : Bool) (now : Time) (form : OrderForm)
      → is_available (find (has_did_id form.did_id) shop.dids) ≡ true
      → Step shop (order_create broken now form shop).1
  placed_by_reseller :
      (broken : Bool) (now : Time) (rid : ℕ) (form : OrderForm)
      → Step shop (create_order broken now rid form shop).1
  cancels : (broken : Bool) (now : Time) (oid : ℕ) → Step shop (order_cancel broken now oid shop).1
  cancels_own :
      (broken : Bool) (now : Time) (rid oid : ℕ)
      → Step shop (cancel_order broken now rid oid shop).1
  moves : (broken : Bool) (oid new_did : ℕ) → Step shop (order_swap_did broken oid new_did shop).1
  retires :
      (unread broken : Bool) (did_id : ℕ)
      → holders did_id shop.rentals ≡ 0
      → Step shop (did_retire unread broken did_id shop).1
  reserves :
      (broken : Bool) (did_id : ℕ) (form : ReserveForm)
      → Step shop (did_reserve broken did_id form shop).1
  releases : (broken : Bool) (did_id : ℕ) → Step shop (did_release broken did_id shop).1
  blocks :
      (broken : Bool) (uid : ℕ) (reason : Bytes) → Step shop (user_block broken uid reason shop).1
  unblocks :
      (broken : Bool) (uid : ℕ) (reason : Bytes) → Step shop (user_unblock broken uid reason shop).1
  approves : (broken : Bool) (bid : ℕ) → Step shop (approve_bundle broken bid shop).2
  rejects :
      (broken : Bool) (bid : ℕ) (reason : Bytes)
      → Step shop (reject_bundle broken bid reason shop).1
  edits :
      (broken : Bool) (oid : ℕ) (form : EditForm) → Step shop (order_update broken oid form shop).1
  edits_own :
      (broken : Bool) (rid oid : ℕ) (form : PatchForm)
      → Step shop (update_order broken rid oid form shop).1
  tops_up : (broken : Bool) (uid : ℕ) (cents : ℤ) → Step shop (user_topup broken uid cents shop).1
  tops_up_own :
      (broken : Bool) (rid uid : ℕ) (cents : ℤ) → Step shop (topup_user broken rid uid cents shop).1
  deletes :
      (broken confirmed : Bool) (now : Time) (uid : ℕ)
      → Step shop (user_delete broken confirmed now uid shop).1
  suspends : (oid : ℕ) → Step shop (suspend oid shop)

pub data Reach (start : Shop) : Shop → Type 0 where
  here : Reach start start
  next : {mid end : Shop} → Reach start mid → Step mid end → Reach start end

suspend_row-holds : (d : ℕ) (r : Rental) → holds d (suspend_row r) ≡ holds d r
suspend_row-holds d r = ground arith

suspend-IsPlaced : (oid : ℕ) (shop : Shop) → IsPlaced shop → IsPlaced (suspend oid shop)
suspend-IsPlaced oid shop placed d =
    rw (holders-update_row_same d (has_order_id oid) suspend_row (suspend_row-holds d) shop.rentals)
      (placed d)

Step-IsPlaced : {shop shop' : Shop} → Step shop shop' → IsPlaced shop → IsPlaced shop'
Step-IsPlaced {shop} (placed_by_form broken now form h) placed =
    order_create-IsPlaced broken now form shop h placed
Step-IsPlaced {shop} (placed_by_reseller broken now rid form) placed =
    create_order-IsPlaced broken now rid form shop placed
Step-IsPlaced {shop} (cancels broken now oid) placed =
    order_cancel-IsPlaced broken now oid shop placed
Step-IsPlaced {shop} (cancels_own broken now rid oid) placed =
    cancel_order-IsPlaced broken now rid oid shop placed
Step-IsPlaced {shop} (moves broken oid new_did) placed =
    order_swap_did-IsPlaced broken oid new_did shop placed
Step-IsPlaced {shop} (retires unread broken did_id h) placed =
    did_retire-IsPlaced unread broken did_id shop h placed
Step-IsPlaced {shop} (reserves broken did_id form) placed =
    did_reserve-IsPlaced broken did_id form shop placed
Step-IsPlaced {shop} (releases broken did_id) placed =
    did_release-IsPlaced broken did_id shop placed
Step-IsPlaced {shop} (blocks broken uid reason) placed =
    user_block-IsPlaced broken uid reason shop placed
Step-IsPlaced {shop} (unblocks broken uid reason) placed =
    user_unblock-IsPlaced broken uid reason shop placed
Step-IsPlaced {shop} (approves broken bid) placed = approve_bundle-IsPlaced broken bid shop placed
Step-IsPlaced {shop} (rejects broken bid reason) placed =
    reject_bundle-IsPlaced broken bid reason shop placed
Step-IsPlaced {shop} (edits broken oid form) placed =
    order_update-IsPlaced broken oid form shop placed
Step-IsPlaced {shop} (edits_own broken rid oid form) placed =
    update_order-IsPlaced broken rid oid form shop placed
Step-IsPlaced {shop} (tops_up broken uid cents) placed =
    user_topup-IsPlaced broken uid cents shop placed
Step-IsPlaced {shop} (tops_up_own broken rid uid cents) placed =
    topup_user-IsPlaced broken rid uid cents shop placed
Step-IsPlaced {shop} (deletes broken confirmed now uid) placed =
    user_delete-IsPlaced broken confirmed now uid shop placed
Step-IsPlaced {shop} (suspends oid) placed = suspend-IsPlaced oid shop placed

-- Whatever sequence of requests and suspensions is served from a state in which each number is held
-- by at most one order, and by none unless it is assigned, that is so after it. Requests may fail
-- or be refused; a form is posted for an available number, and a number retired that no order
-- holds.
pub Reach-IsPlaced : {start end : Shop} → IsPlaced start → Reach start end → IsPlaced end
Reach-IsPlaced placed here = placed
Reach-IsPlaced placed (next r s) = Step-IsPlaced s (Reach-IsPlaced placed r)
