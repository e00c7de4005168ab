-- ===== src/Billing.antt =====
-- internal/billing/billing.go: the anniversary billing run. A table is a list of rows, a statement
-- is a function on the database, and each statement may fail: `fails` says which ones do. A failed
-- statement ends the transaction, which leaves the database as it was.
pub mod Ladder
pub mod Transaction
pub mod Ledger
pub mod Due
pub mod Examples
use didstorageapp.Prelude.{
  ℕ, zero, suc, ◌+◌, ◌-◌, ◌*◌, Bool, true, false, ◌&&◌, not, Option, none, some, List, [], ◌∷◌,
  ◌++◌, ltb, ◌==◌, keep, find, if◌then◌else◌, map,
}
use didstorageapp.Prelude.Int.{ℤ, pos, ◌-ℤ◌, ◌+ℤ◌, neg, leb_ℤ}
use didstorageapp.Domain.Time.{Time, after, next_anniversary}

pub data OrderStatus : Type 0 where
  active suspended cancelled kyc_pending quarantined : OrderStatus

abbrev pub is_active : OrderStatus → Bool
is_active active = true
is_active _ = false

-- `channel_count`, `mrc_cents` and `channel_monthly_cents` are not negative by the CHECKs of
-- migrations/0001_init.up.sql and migrations/0005_caps_reservations_cdr_snapshot.up.sql.
pub record Order : Type 0 where
  pub id : ℕ
  pub user_id : ℕ
  pub rate_card_id : ℕ
  pub channel_count : ℕ
  pub anniversary_day : ℕ
  pub next_billing_at : Time
  pub status : OrderStatus
  pub ended_at : Option Time

pub record User : Type 0 where
  pub id : ℕ
  pub balance_cents : ℤ

pub record RateCard : Type 0 where
  pub id : ℕ
  pub mrc_cents : ℕ
  pub channel_monthly_cents : ℕ

pub data LedgerKind : Type 0 where
  mrc channel_fee : LedgerKind

pub record LedgerEntry : Type 0 where
  pub user_id : ℕ
  pub delta_cents : ℤ
  pub kind : LedgerKind
  pub ref_id : ℕ
  pub balance_after : ℤ

pub data Outcome : Type 0 where
  nothing charged downgraded cancelled : Outcome

-- The notes of an audit row, before they are formatted.
pub data Note : Type 0 where
  ok_at : ℕ → Note
  stepped_down : ℕ → ℕ → Note
  insufficient : ℕ → Note

pub record BillingRun : Type 0 where
  pub order_id : ℕ
  pub charged_channels : ℕ
  pub mrc_charged_cents : ℕ
  pub channel_charged_cents : ℕ
  pub outcome : Outcome
  pub notes : Note

pub record Db : Type 0 where
  pub users : List User
  pub orders : List Order
  pub rate_cards : List RateCard
  pub ledger : List LedgerEntry
  pub billing_runs : List BillingRun

-- The statements of processOne that can fail.
pub data Statement : Type 0 where
  begin load update_balance ledger_mrc ledger_channel update_order audit : Statement
  commit suspend audit_suspend commit_suspend : Statement

pub data Attempt {ℓ} (A : Type ℓ) : Type ℓ where
  done : A → Attempt A
  failed : Statement → Attempt A

infixl 5 ◌>>=◌
abbrev pub ◌>>=◌ {ℓ κ} : {A : Type ℓ} {B : Type κ} → Attempt A → (A → Attempt B) → Attempt B
done a >>= f = f a
failed s >>= f = failed s

abbrev pub exec : (Statement → Bool) → Statement → (Db → Db) → Db → Attempt Db
exec fails s f db = if fails s then failed s else done (f db)

-- What the locking SELECT of processOne returns.
pub record Loaded : Type 0 where
  pub user_id : ℕ
  pub channel_count : ℕ
  pub anniversary_day : ℕ
  pub balance_cents : ℤ
  pub mrc_cents : ℕ
  pub channel_monthly_cents : ℕ

abbrev pub find_user : ℕ → Db → Option User
find_user uid db = find (λ (u : User). u.id == uid) db.users

abbrev pub find_card : ℕ → Db → Option RateCard
find_card rid db = find (λ (r : RateCard). r.id == rid) db.rate_cards

-- `WHERE o.id = $1 AND o.status = 'active'`
abbrev pub find_order : ℕ → Db → Option Order
find_order oid db = find (λ (o : Order). o.id == oid && is_active o.status) db.orders

-- The inner joins: no row where the order, its user or its rate card is missing.
unfoldable pub load_order : ℕ → Db → Option Loaded
load_order oid db = elim (find_order oid db) [
  | none ↦ none
  | some o ↦ elim (find_user o.user_id db) [
    | none ↦ none
    | some u ↦ elim (find_card o.rate_card_id db) [
      | none ↦ none
      | some r ↦ some (record {
        user_id = o.user_id;
        channel_count = o.channel_count;
        anniversary_day = o.anniversary_day;
        balance_cents = u.balance_cents;
        mrc_cents = r.mrc_cents;
        channel_monthly_cents = r.channel_monthly_cents;
      })
    ]
  ]
]

-- MRC and the channels above two; `-` stops at 0 as the source's `extra` does.
unfoldable pub fee : ℕ → ℕ → ℕ → ℕ
fee mrc_cents monthly target = mrc_cents + (target - 2) * monthly

-- The loop `for target >= 0`: the first target, from the top, whose fee the balance covers.
unfoldable pub ladder : ℤ → ℕ → ℕ → ℕ → Option ℕ
unfolding fee
ladder balance m monthly zero = if leb_ℤ (pos (fee m monthly 0)) balance then some 0 else none
ladder balance m monthly (suc t) =
    if leb_ℤ (pos (fee m monthly (suc t))) balance then some (suc t) else ladder balance m monthly t

abbrev pub set_balance : ℕ → ℤ → User → User
set_balance uid b u = if u.id == uid then record u { balance_cents = b } else u

abbrev pub set_billed : ℕ → ℕ → Time → Order → Order
set_billed oid target next o =
    if o.id == oid then record o { channel_count = target; next_billing_at = next } else o

abbrev pub set_suspended : ℕ → Time → Order → Order
set_suspended oid clock o =
    if o.id == oid then record o { status = suspended; ended_at = some clock } else o

abbrev pub on_users : (User → User) → Db → Db
on_users f db = record db { users = map f db.users }

abbrev pub on_orders : (Order → Order) → Db → Db
on_orders f db = record db { orders = map f db.orders }

abbrev pub insert_ledger : LedgerEntry → Db → Db
insert_ledger e db = record db { ledger = db.ledger ++ e ∷ [] }

abbrev pub insert_run : BillingRun → Db → Db
insert_run r db = record db { billing_runs = db.billing_runs ++ r ∷ [] }

-- A ledger row is written only for a positive part.
abbrev pub ledger_part : (Statement → Bool) → Statement → LedgerEntry → ℕ → Db → Attempt Db
ledger_part fails s e part db = if ltb 0 part then exec fails s (insert_ledger e) db else done db

-- The statements that charge `target` channels, up to the commit.
unfoldable pub charge : (Statement → Bool) → Time → ℕ → Loaded → ℕ → Db → Attempt Db
charge fails now oid l target db =
    let due = fee l.mrc_cents l.channel_monthly_cents target in
    let chan = due - l.mrc_cents in
    let left = l.balance_cents -ℤ pos due in
    let down = ltb target l.channel_count in
    exec fails update_balance (on_users (set_balance l.user_id left)) db
    >>= ledger_part fails ledger_mrc
        (record {
          user_id = l.user_id;
          delta_cents = neg l.mrc_cents;
          kind = mrc;
          ref_id = oid;
          balance_after = left +ℤ pos chan;
        })
        l.mrc_cents
    >>= ledger_part fails ledger_channel
        (record {
          user_id = l.user_id;
          delta_cents = neg chan;
          kind = channel_fee;
          ref_id = oid;
          balance_after = left;
        })
        chan
    >>= exec fails update_order
        (on_orders (set_billed oid target (next_anniversary now l.anniversary_day)))
    >>= exec fails audit (
        insert_run (record {
          order_id = oid;
          charged_channels = target;
          mrc_charged_cents = l.mrc_cents;
          channel_charged_cents = chan;
          outcome = if down then downgraded else charged;
          notes = if down then stepped_down l.channel_count target else ok_at target;
        }))
    >>= exec fails commit (λ d. d)

-- No rung of the ladder could be paid.
unfoldable pub suspend_order : (Statement → Bool) → Time → ℕ → Loaded → Db → Attempt Db
suspend_order fails clock oid l db =
    exec fails suspend (on_orders (set_suspended oid clock)) db
    >>= exec fails audit_suspend (
        insert_run (record {
          order_id = oid;
          charged_channels = 0;
          mrc_charged_cents = 0;
          channel_charged_cents = 0;
          outcome = Outcome.cancelled;
          notes = insufficient l.mrc_cents;
        }))
    >>= exec fails commit_suspend (λ d. d)

-- The database is rolled back unless the last statement, the commit, succeeds.
abbrev pub finish : Db → Outcome → Attempt Db → Db × Attempt Outcome
finish db out (done db') = (db', done out)
finish db out (failed s) = (db, failed s)

abbrev pub bill_loaded :
    (Statement → Bool) → Time → Time → ℕ → Loaded → Option ℕ → Db → Db × Attempt Outcome
bill_loaded fails now clock oid l (some target) db =
    finish db (if ltb target l.channel_count then downgraded else charged)
      (charge fails now oid l target db)
bill_loaded fails now clock oid l none db =
    finish db Outcome.cancelled (suspend_order fails clock oid l db)

-- `clock` is the database's now(), `now` the argument of Run.
unfoldable pub process_one : (Statement → Bool) → Time → Time → ℕ → Db → Db × Attempt Outcome
process_one fails now clock oid db =
    if fails begin
    then (db, failed begin)
    else if fails load
    then (db, failed load)
    else elim (load_order oid db) [
      | none ↦ (db, done nothing)
      | some l ↦
          bill_loaded fails now clock oid l
            (ladder l.balance_cents l.mrc_cents l.channel_monthly_cents l.channel_count) db
    ]

pub record Totals : Type 0 where
  pub processed : ℕ
  pub charged : ℕ
  pub downgrade : ℕ
  pub suspended : ℕ
  pub errors : ℕ

abbrev pub tally : Attempt Outcome → Totals → Totals
tally (failed s) t = record t { errors = t.errors + 1 }
tally (done nothing) t = t
tally (done charged) t = record t { charged = t.charged + 1 }
tally (done downgraded) t = record t { downgrade = t.downgrade + 1 }
tally (done Outcome.cancelled) t = record t { suspended = t.suspended + 1 }

-- `WHERE status = 'active' AND next_billing_at <= $1`
abbrev pub is_due : Time → Order → Bool
is_due now o = is_active o.status && not (after o.next_billing_at now)

-- `ORDER BY next_billing_at`; rows that are due at the same time keep their order.
unfoldable pub place : Order → List Order → List Order
place o [] = o ∷ []
place o (p ∷ ps) = if after o.next_billing_at p.next_billing_at then p ∷ place o ps else o ∷ p ∷ ps

unfoldable pub order_by_due : List Order → List Order
unfolding place
order_by_due [] = []
order_by_due (o ∷ os) = place o (order_by_due os)

unfoldable pub due_ids : Time → Db → List ℕ
unfolding order_by_due
due_ids now db = map (λ (o : Order). o.id) (order_by_due (keep (is_due now) db.orders))

-- The loop over the due orders; each order has its own transaction.
unfoldable pub bill_all : (ℕ → Statement → Bool) → Time → Time → List ℕ → Db → Totals → Db × Totals
bill_all fails now clock [] db t = (db, t)
bill_all fails now clock (oid ∷ ids) db t =
    let (db', out) = process_one (fails oid) now clock oid db in
    bill_all fails now clock ids db' (tally out (record t { processed = t.processed + 1 }))

abbrev pub no_totals : Totals
no_totals = record { processed = 0; charged = 0; downgrade = 0; suspended = 0; errors = 0 }

unfoldable pub run : (ℕ → Statement → Bool) → Time → Time → Db → Db × Totals
unfolding bill_all due_ids
run fails now clock db = bill_all fails now clock (due_ids now db) db no_totals
