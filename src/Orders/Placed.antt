-- ===== src/Orders/Placed.antt =====
-- A number is held by at most one order, and only while it is assigned: the counts, and what the
-- row updates do to them.
pub mod Opening
mod Closing
mod Moving
mod Numbers
mod Users
mod Editing
pub mod Steps
use didstorageapp.Prelude.{
  ℕ, zero, suc, ◌+◌, ◌≤◌, ◌≡◌, ◌↔◌, Bool, true, false, ◌&&◌, ◌||◌, not, Option, none, some, List,
  [], ◌∷◌, any, find, map, ◌==◌, ==_iff, if◌then◌else◌, refl, arith, Bool-cases, inl, inr, ◌∙◌,
}
use didstorageapp.Prelude.Text.{Bytes, codes, same}
use didstorageapp.Domain.Time.{Time}
use didstorageapp.Sipctl.Records.{Did, Order}
use didstorageapp.Orders.Tables.{
  Rental, DidRow, Shop, is_live, has_order_id, has_did_id, update_row, with_did_status,
}

-- 1 for an order that holds the number `d`.
abbrev pub holds : ℕ → Rental → ℕ
holds d r = if is_live r.order.status && r.order.did_id == d then 1 else 0

unfoldable pub holders : ℕ → List Rental → ℕ
holders d [] = 0
holders d (r ∷ rs) = holds d r + holders d rs

abbrev pub room : DidRow → ℕ
room x = if same x.did.status (codes "assigned") then 1 else 0

-- 1 for a number that is assigned.
unfoldable pub capacity : ℕ → List DidRow → ℕ
capacity d [] = 0
capacity d (x ∷ xs) = if has_did_id d x then room x else capacity d xs

-- Each number is held by at most one order, and by none unless it is assigned.
abbrev pub IsPlaced : Shop → Type 0
IsPlaced shop = (d : ℕ) → holders d shop.rentals ≤ capacity d shop.dids

-- A number has room for one order.
pub capacity_bound : (d : ℕ) (xs : List DidRow) → capacity d xs ≤ 1
unfolding capacity
capacity_bound d [] = omega arith
capacity_bound d (x ∷ xs) = ground (arith, capacity_bound d xs)

pub holders-update_row :
    (d oid : ℕ) (f : Rental → Rental) (rs : List Rental) (r : Rental)
    → find (has_order_id oid) rs ≡ some r
    → holders d (update_row (has_order_id oid) f rs) + holds d r ≡ holders d rs + holds d (f r)
unfolding holders update_row
holders-update_row d oid f [] r h = absurd (cc)
holders-update_row d oid f (x ∷ rs) r h = elim (Bool-cases (has_order_id oid x)) [
  | inl e ↦ let same_row : x ≡ r = cc (rw e at h) in rw (e, same_row) (omega arith)
  | inr e ↦ let ih = holders-update_row d oid f rs r (rw e at h) in rw e (omega (arith, ih))
]

pub holders-map :
    (d : ℕ) (f : Rental → Rental)
    → ((r : Rental) → holds d (f r) ≡ holds d r)
    → (rs : List Rental) → holders d (map f rs) ≡ holders d rs
unfolding holders
holders-map d f h [] = refl
holders-map d f h (r ∷ rs) = omega (arith, h r, holders-map d f h rs)

-- An update of any row that holds as much as before.
pub holders-update_row_same :
    (d : ℕ) (p : Rental → Bool) (f : Rental → Rental)
    → ((r : Rental) → holds d (f r) ≡ holds d r)
    → (rs : List Rental) → holders d (update_row p f rs) ≡ holders d rs
unfolding holders update_row
holders-update_row_same d p f h [] = refl
holders-update_row_same d p f h (r ∷ rs) = elim (Bool-cases (p r)) [
  | inl e ↦ rw e (omega (arith, h r))
  | inr e ↦ rw e (omega (arith, holders-update_row_same d p f h rs))
]

-- The status of one number is set.
pub capacity-update_row :
    (d did_id : ℕ) (s : Bytes) (xs : List DidRow)
    → capacity d (update_row (has_did_id did_id) (with_did_status s) xs) ≡ (
        if d == did_id && any (has_did_id did_id) xs
        then (if same s (codes "assigned") then 1 else 0)
        else capacity d xs)
unfolding capacity update_row
capacity-update_row d did_id s [] = ground arith
capacity-update_row d did_id s (x ∷ xs) = elim (Bool-cases (has_did_id did_id x)) [
  | inl e ↦ rw e (ground (arith, ==_iff x.did.id did_id, ==_iff d did_id))
  | inr e ↦ rw e (
      ground (
        arith,
        capacity-update_row d did_id s xs,
        ==_iff x.did.id did_id,
        ==_iff d did_id,
        ==_iff x.did.id d,
      ))
]

-- A status that is not assigned gives no more room.
pub capacity-release :
    (d did_id : ℕ) (s : Bytes) (xs : List DidRow)
    → same s (codes "assigned") ≡ false
    → capacity d (update_row (has_did_id did_id) (with_did_status s) xs)
      ≡ (if d == did_id then 0 else capacity d xs)
unfolding capacity update_row
capacity-release d did_id s [] h = ground arith
capacity-release d did_id s (x ∷ xs) h = elim (Bool-cases (has_did_id did_id x)) [
  | inl e ↦ rw e (ground (arith, h, ==_iff x.did.id did_id, ==_iff d did_id, ==_iff x.did.id d))
  | inr e ↦ rw e (
      ground (
        arith,
        h,
        capacity-release d did_id s xs h,
        ==_iff x.did.id did_id,
        ==_iff d did_id,
        ==_iff x.did.id d,
      ))
]

-- An update of a row that gives as much room as before.
pub capacity-update_row_same :
    (d : ℕ) (p : DidRow → Bool) (f : DidRow → DidRow)
    → ((x : DidRow) → p x ≡ true → (room (f x) ≡ room x) × ((f x).did.id ≡ x.did.id))
    → (xs : List DidRow) → capacity d (update_row p f xs) ≡ capacity d xs
unfolding capacity update_row
capacity-update_row_same d p f h [] = refl
capacity-update_row_same d p f h (x ∷ xs) = elim (Bool-cases (p x)) [
  | inl e ↦ rw e (ground (arith, h x e))
  | inr e ↦ rw e (ground (arith, capacity-update_row_same d p f h xs))
]
