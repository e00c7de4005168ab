-- ===== src/Orders/Accounts.antt =====
-- userTopup and userDelete of internal/web/crud.go, topupUser of
-- internal/resellerapi/resellerapi.go. The amount of the form is taken in cents, as dollarsToCents
-- gives it.
use didstorageapp.Prelude.{
  ℕ, Bool, ◌&&◌, ◌||◌, not, none, List, ◌∷◌, any, find, keep, map, ◌==◌, if◌then◌else◌,
}
use didstorageapp.Prelude.Text.{Bytes, codes}
use didstorageapp.Prelude.Int.{ℤ, pos, ◌+ℤ◌, leb_ℤ}
use didstorageapp.Domain.Time.{Time}
use didstorageapp.Orders.Tables.{
  Rental, DidRow, Customer, Bundle, BlockEntry, LedgerEntry, topup, Shop, Reply, ok, refused,
  failed, is_live, has_user_id, update_row, with_balance, with_did_status,
}
use didstorageapp.Orders.Create.{is_resellers, balance_of, is_customer}
use didstorageapp.Orders.Release.{ended}

abbrev pub is_zero : ℤ → Bool
is_zero n = leb_ℤ n (pos 0) && leb_ℤ (pos 0) n

-- UPDATE users, INSERT INTO balance_ledger
abbrev pub credit : ℕ → ℤ → Shop → Shop
credit uid cents shop =
    let balance = balance_of uid shop.customers +ℤ cents in
    record shop {
      customers = update_row (has_user_id uid) (with_balance balance) shop.customers;
      ledger =
          record {
            user_id = uid;
            delta_cents = cents;
            kind = topup;
            ref_id = none;
            balance_after = balance;
          }
          ∷ shop.ledger;
    }

-- A negative amount is not refused.
unfoldable pub user_topup : Bool → ℕ → ℤ → Shop → Reply × Shop
user_topup broken uid cents shop =
    if is_zero cents
    then (refused, shop)
    else if broken || not (is_customer uid shop.customers)
    then (failed, shop)
    else (ok, credit uid cents shop)

unfoldable pub topup_user : Bool → ℕ → ℕ → ℤ → Shop → Reply × Shop
topup_user broken rid uid cents shop =
    if leb_ℤ cents (pos 0) || not (is_resellers rid (find (has_user_id uid) shop.customers))
    then (refused, shop)
    else if broken
    then (failed, shop)
    else (ok, credit uid cents shop)

abbrev pub end_for : Time → ℕ → Rental → Rental
end_for now uid r = if r.order.user_id == uid && is_live r.order.status then ended now r else r

-- The numbers of the orders that are ended go back to the pool.
abbrev pub held_by : ℕ → ℕ → List Rental → Bool
held_by uid did_id rs =
    any
      (λ (r : Rental). r.order.user_id == uid && is_live r.order.status && r.order.did_id == did_id)
      rs

abbrev pub freed : ℕ → List Rental → DidRow → DidRow
freed uid rs d = if held_by uid d.did.id rs then with_did_status (codes "available") d else d

-- orders.user_id is ON DELETE RESTRICT.
abbrev pub has_orders : ℕ → List Rental → Bool
has_orders uid rs = any (λ (r : Rental). r.order.user_id == uid) rs

-- `confirmed`: the typed number is the user's. Ledger and block log go with the user.
unfoldable pub user_delete : Bool → Bool → Time → ℕ → Shop → Reply × Shop
user_delete broken confirmed now uid shop =
    let rentals = map (end_for now uid) shop.rentals in
    if not confirmed
    then (refused, shop)
    else if broken || has_orders uid rentals
    then (failed, shop)
    else if not (is_customer uid shop.customers)
    then (refused, shop)
    else (
      ok,
      record shop {
        rentals = rentals;
        dids = map (freed uid shop.rentals) shop.dids;
        customers = keep (λ (c : Customer). not (has_user_id uid c)) shop.customers;
        ledger = keep (λ (e : LedgerEntry). not (e.user_id == uid)) shop.ledger;
        block_log = keep (λ (b : BlockEntry). not (b.user_id == uid)) shop.block_log;
        bundles = keep (λ (b : Bundle). not (b.user_id == uid)) shop.bundles;
        sip_accounts = keep (λ (a : ℕ × Bytes). not (a.0 == uid)) shop.sip_accounts;
      },
    )
