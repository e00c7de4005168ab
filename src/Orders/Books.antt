-- ===== src/Orders/Books.antt =====
-- The balances and the ledger that the handlers of orders and users write.
mod Paying
mod Kept
pub mod Steps
use didstorageapp.Prelude.{
  ℕ, ◌≡◌, Bool, true, false, ◌&&◌, ◌||◌, not, Option, none, some, List, [], ◌∷◌, any, find, keep,
  map, ◌==◌, ==_iff, if◌then◌else◌, refl, arith, Bool-cases, inl, inr,
}
use didstorageapp.Prelude.Text.{Bytes, codes, same}
use didstorageapp.Prelude.Int.{ℤ, pos, ◌+ℤ◌, int_laws}
use didstorageapp.Sipctl.Records.{User}
use didstorageapp.Orders.Tables.{Customer, LedgerEntry, Shop, has_user_id, update_row, with_balance}
use didstorageapp.Orders.Create.{balance_of, is_customer}
use didstorageapp.Orders.Block.{is_user_in, with_user_status}

-- What the ledger adds up to for one user.
unfoldable pub booked : ℕ → List LedgerEntry → ℤ
booked uid [] = pos 0
booked uid (e ∷ es) = (if e.user_id == uid then e.delta_cents else pos 0) +ℤ booked uid es

-- Every balance is what the ledger adds up to.
abbrev pub IsBooked : Shop → Type 0
IsBooked shop = (uid : ℕ) → balance_of uid shop.customers ≡ booked uid shop.ledger

-- balance_of by recursion.
unfoldable pub balance_in : ℕ → List Customer → ℤ
balance_in v [] = pos 0
balance_in v (c ∷ cs) = if has_user_id v c then c.user.balance_cents else balance_in v cs

pub balance_of_lem : (v : ℕ) (cs : List Customer) → balance_of v cs ≡ balance_in v cs
unfolding balance_in
balance_of_lem v [] = refl
balance_of_lem v (c ∷ cs) = go (balance_of_lem v cs) (has_user_id v c)
  where
    go :
        balance_of v cs ≡ balance_in v cs
        → (b : Bool)
        → elim (if b then some c else find (has_user_id v) cs) [
          | none ↦ pos 0
          | some x ↦ x.user.balance_cents
        ]
          ≡ (if b then c.user.balance_cents else balance_in v cs)
    go ih true = refl
    go ih false = ih

pub balance_in-with_balance :
    (v uid : ℕ) (b : ℤ) (cs : List Customer)
    → balance_in v (update_row (has_user_id uid) (with_balance b) cs)
      ≡ (if v == uid && is_customer uid cs then b else balance_in v cs)
unfolding update_row balance_in
balance_in-with_balance v uid b [] = ground arith
balance_in-with_balance v uid b (c ∷ cs) = ground (
  arith,
  balance_in-with_balance v uid b cs,
  ==_iff c.user.id uid,
  ==_iff v uid,
  ==_iff c.user.id v,
)

pub balance_in-with_user_status :
    (v uid : ℕ) (s t : Bytes) (cs : List Customer)
    → balance_in v (update_row (is_user_in uid s) (with_user_status t) cs) ≡ balance_in v cs
unfolding update_row balance_in
balance_in-with_user_status v uid s t [] = refl
balance_in-with_user_status v uid s t (c ∷ cs) = elim (Bool-cases (is_user_in uid s c)) [
  | inl e ↦ rw e refl
  | inr e ↦ rw (e, balance_in-with_user_status v uid s t cs) refl
]

pub balance_in-keep :
    (v uid : ℕ) (cs : List Customer)
    → balance_in v (keep (λ (c : Customer). not (has_user_id uid c)) cs)
      ≡ (if v == uid then pos 0 else balance_in v cs)
unfolding balance_in
balance_in-keep v uid [] = ground arith
balance_in-keep v uid (c ∷ cs) =
    ground (arith, balance_in-keep v uid cs, ==_iff c.user.id uid, ==_iff v uid, ==_iff c.user.id v)

zero_plus : (a : ℤ) → pos 0 +ℤ a ≡ a
zero_plus a = omega int_laws

pub booked-keep :
    (v uid : ℕ) (es : List LedgerEntry)
    → booked v (keep (λ (e : LedgerEntry). not (e.user_id == uid)) es)
      ≡ (if v == uid then pos 0 else booked v es)
unfolding booked
booked-keep v uid [] = ground arith
booked-keep v uid (x ∷ es) =
    let rest = keep (λ (e : LedgerEntry). not (e.user_id == uid)) es in
    let ih = booked-keep v uid es in
    elim (Bool-cases (x.user_id == uid)) [
      | inl e ↦
          let mine = (==_iff x.user_id uid).0 e in
          rw (e)
            (ground (arith, ih, mine, ==_iff v uid, ==_iff x.user_id v, zero_plus (booked v es)))
      | inr e ↦ rw (e) (
          ground (
            arith,
            ih,
            e,
            ==_iff v uid,
            ==_iff x.user_id v,
            ==_iff x.user_id uid,
            zero_plus (booked v es),
            zero_plus (booked v rest),
          ))
    ]
