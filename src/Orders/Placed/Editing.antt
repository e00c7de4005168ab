-- ===== src/Orders/Placed/Editing.antt =====
-- Changing an order keeps the numbers placed.
use didstorageapp.Prelude.{ℕ, ◌≡◌, Bool, some, find, arith}
use didstorageapp.Orders.Tables.{Rental, Shop, is_live, has_order_id}
use didstorageapp.Orders.Placed.{IsPlaced, holders-update_row}
use didstorageapp.Orders.Outcomes.Editing.{order_update_outcome, update_order_outcome}
use didstorageapp.Orders.Update.{EditForm, Edit, edited, save, order_update}
use didstorageapp.Orders.Patch.{PatchForm, update_order}

save-IsPlaced :
    (broken : Bool) (e : Edit) (r : Rental) (shop : Shop)
    → find (has_order_id r.order.id) shop.rentals ≡ some r
    → is_live e.status ≡ is_live r.order.status
    → IsPlaced shop
    → IsPlaced (save broken r.order.id e shop).1
save-IsPlaced broken e r shop found live placed d =
    ground (arith, placed d, live, holders-update_row d r.order.id (edited e) shop.rentals r found)

pub order_update-IsPlaced :
    (broken : Bool) (oid : ℕ) (form : EditForm) (shop : Shop)
    → IsPlaced shop
    → IsPlaced (order_update broken oid form shop).1
order_update-IsPlaced broken oid form shop placed =
    order_update_outcome (λ p. IsPlaced p.1) broken shop placed placed
      (λ r e found live. save-IsPlaced broken e r shop found live placed) oid form

pub update_order-IsPlaced :
    (broken : Bool) (rid oid : ℕ) (form : PatchForm) (shop : Shop)
    → IsPlaced shop
    → IsPlaced (update_order broken rid oid form shop).1
update_order-IsPlaced broken rid oid form shop placed =
    update_order_outcome (λ p. IsPlaced p.1) broken shop placed placed
      (λ r e found live. save-IsPlaced broken e r shop found live placed) rid oid form
