-- ===== src/Orders/Placed/Users.antt =====
-- Blocking a user, deciding on a bundle, crediting and deleting a user keep the numbers placed.
use didstorageapp.Prelude.{
  ℕ, ◌≡◌, Bool, true, false, ◌||◌, List, [], ◌∷◌, map, refl, arith, Bool-cases, inl, inr,
}
use didstorageapp.Prelude.Text.{Bytes}
use didstorageapp.Prelude.Int.{ℤ}
use didstorageapp.Domain.Time.{Time}
use didstorageapp.Orders.Tables.{Rental, DidRow, Shop}
use didstorageapp.Orders.Placed.{holds, holders, room, capacity, IsPlaced, holders-map}
use didstorageapp.Orders.Create.{is_customer}
use didstorageapp.Orders.Tables.{DidRow}
use didstorageapp.Orders.Block.{quarantine, user_block, restore, user_unblock}
use didstorageapp.Orders.Kyc.{activate, approve_bundle, reject_bundle}
use didstorageapp.Orders.Accounts.{
  user_topup, topup_user, user_delete, end_for, freed, held_by, has_orders,
}

quarantine-holds : (d uid : ℕ) (r : Rental) → holds d (quarantine uid r) ≡ holds d r
quarantine-holds d uid r = ground arith

restore-holds : (d uid : ℕ) (r : Rental) → holds d (restore uid r) ≡ holds d r
restore-holds d uid r = ground arith

activate-holds : (d bid : ℕ) (r : Rental) → holds d (activate bid r) ≡ holds d r
activate-holds d bid r = ground arith

pub user_block-IsPlaced :
    (broken : Bool) (uid : ℕ) (reason : Bytes) (shop : Shop)
    → IsPlaced shop
    → IsPlaced (user_block broken uid reason shop).1
unfolding user_block
user_block-IsPlaced broken uid reason shop placed d =
    ground (arith, placed d, holders-map d (quarantine uid) (quarantine-holds d uid) shop.rentals)

pub user_unblock-IsPlaced :
    (broken : Bool) (uid : ℕ) (reason : Bytes) (shop : Shop)
    → IsPlaced shop
    → IsPlaced (user_unblock broken uid reason shop).1
unfolding user_unblock
user_unblock-IsPlaced broken uid reason shop placed d =
    ground (arith, placed d, holders-map d (restore uid) (restore-holds d uid) shop.rentals)

pub approve_bundle-IsPlaced :
    (broken : Bool) (bid : ℕ) (shop : Shop)
    → IsPlaced shop
    → IsPlaced (approve_bundle broken bid shop).2
unfolding approve_bundle
approve_bundle-IsPlaced broken bid shop placed d =
    ground (arith, placed d, holders-map d (activate bid) (activate-holds d bid) shop.rentals)

pub reject_bundle-IsPlaced :
    (broken : Bool) (bid : ℕ) (reason : Bytes) (shop : Shop)
    → IsPlaced shop
    → IsPlaced (reject_bundle broken bid reason shop).1
unfolding reject_bundle
reject_bundle-IsPlaced broken bid reason shop placed d = ground (arith, placed d)

pub user_topup-IsPlaced :
    (broken : Bool) (uid : ℕ) (cents : ℤ) (shop : Shop)
    → IsPlaced shop
    → IsPlaced (user_topup broken uid cents shop).1
unfolding user_topup
user_topup-IsPlaced broken uid cents shop placed d = ground (arith, placed d)

pub topup_user-IsPlaced :
    (broken : Bool) (rid uid : ℕ) (cents : ℤ) (shop : Shop)
    → IsPlaced shop
    → IsPlaced (topup_user broken rid uid cents shop).1
unfolding topup_user
topup_user-IsPlaced broken rid uid cents shop placed d = ground (arith, placed d)

capacity-map :
    (d : ℕ) (f : DidRow → DidRow)
    → ((x : DidRow) → (room (f x) ≡ room x) × ((f x).did.id ≡ x.did.id))
    → (xs : List DidRow) → capacity d (map f xs) ≡ capacity d xs
unfolding capacity
capacity-map d f h [] = refl
capacity-map d f h (x ∷ xs) = ground (arith, h x, capacity-map d f h xs)

-- The rows of a user with no order are as they were.
holders-end_for :
    (d : ℕ) (now : Time) (uid : ℕ) (rs : List Rental)
    → has_orders uid (map (end_for now uid) rs) ≡ false
    → holders d (map (end_for now uid) rs) ≡ holders d rs
unfolding holders
holders-end_for d now uid [] h = refl
holders-end_for d now uid (r ∷ rs) h = ground (arith, h, holders-end_for d now uid rs)

held_by-end_for :
    (d : ℕ) (now : Time) (uid : ℕ) (rs : List Rental)
    → has_orders uid (map (end_for now uid) rs) ≡ false
    → held_by uid d rs ≡ false
held_by-end_for d now uid [] h = refl
held_by-end_for d now uid (r ∷ rs) h = ground (arith, h, held_by-end_for d now uid rs)

pub user_delete-IsPlaced :
    (broken confirmed : Bool) (now : Time) (uid : ℕ) (shop : Shop)
    → IsPlaced shop
    → IsPlaced (user_delete broken confirmed now uid shop).1
unfolding user_delete
user_delete-IsPlaced broken false now uid shop placed = placed
user_delete-IsPlaced broken true now uid shop placed =
    elim (Bool-cases (broken || has_orders uid (map (end_for now uid) shop.rentals))) [
      | inl e ↦ rw e placed
      | inr e ↦
          let none_left : has_orders uid (map (end_for now uid) shop.rentals) ≡ false =
            ground (arith, e) in
          rw e (elim (Bool-cases (is_customer uid shop.customers)) [
            | inr c ↦ rw c placed
            | inl c ↦ rw c λ d.
                rw
                  (
                    holders-end_for d now uid shop.rentals none_left,
                    capacity-map d (freed uid shop.rentals)
                        (λ x.
                          rw (held_by-end_for x.did.id now uid shop.rentals none_left) (refl, refl))
                        shop.dids,
                  )
                  (placed d)
          ])
    ]
