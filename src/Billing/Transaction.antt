-- ===== src/Billing/Transaction.antt =====
-- A transaction of processOne either leaves the database alone or does all of its statements.
use didstorageapp.Prelude.{
  ℕ, ◌-◌, ◌≡◌, ◌⊎◌, inl, inr, none, some, Bool, Bool-cases, arith, refl, false, List, [], ◌∷◌, ◌++◌,
  if◌then◌else◌, ltb, map, Option-cases, Option, ◌≢◌,
}
use didstorageapp.Prelude.Int.{pos, neg, ◌-ℤ◌, ◌+ℤ◌}
use didstorageapp.Domain.Time.{Time, next_anniversary}
use didstorageapp.Billing.{
  Statement, Attempt, done, failed, Db, Loaded, LedgerEntry, mrc, channel_fee, Outcome, charged,
  downgraded, fee, charge, suspend_order, process_one, ladder, load_order, find_order, find_user,
  find_card, User, RateCard, set_balance, set_billed, set_suspended, begin, load, update_balance,
  ledger_mrc, ledger_channel, update_order, audit, commit, suspend, audit_suspend, commit_suspend,
  nothing, bill_loaded, Order,
}

abbrev pub insert_if_positive : ℕ → LedgerEntry → List LedgerEntry → List LedgerEntry
insert_if_positive part e rows = if ltb 0 part then rows ++ e ∷ [] else rows

abbrev pub mrc_row : ℕ → Loaded → ℕ → LedgerEntry
mrc_row oid l due = record {
  user_id = l.user_id;
  delta_cents = neg l.mrc_cents;
  kind = mrc;
  ref_id = oid;
  balance_after = (l.balance_cents -ℤ pos due) +ℤ pos (due - l.mrc_cents);
}

abbrev pub channel_row : ℕ → Loaded → ℕ → LedgerEntry
channel_row oid l due = record {
  user_id = l.user_id;
  delta_cents = neg (due - l.mrc_cents);
  kind = channel_fee;
  ref_id = oid;
  balance_after = l.balance_cents -ℤ pos due;
}

-- The tables that a committed charge of `due` cents leaves, apart from the audit rows.
pub record IsCharged (now : Time) (oid : ℕ) (l : Loaded) (target due : ℕ) (db db' : Db)
    : Type 0 where
  pub users_lem : db'.users ≡ map (set_balance l.user_id (l.balance_cents -ℤ pos due)) db.users
  pub orders_lem :
      db'.orders ≡ map (set_billed oid target (next_anniversary now l.anniversary_day)) db.orders
  pub ledger_lem :
      db'.ledger
      ≡ insert_if_positive
          (due - l.mrc_cents)
          (channel_row oid l due)
          (insert_if_positive l.mrc_cents (mrc_row oid l due) db.ledger)
  pub cards_lem : db'.rate_cards ≡ db.rate_cards

pub charge-IsCharged :
    (fails : Statement → Bool) (now : Time) (oid : ℕ) (l : Loaded) (target : ℕ) (db db' : Db)
    → charge fails now oid l target db ≡ done db'
    → IsCharged now oid l target (fee l.mrc_cents l.channel_monthly_cents target) db db'
unfolding charge
charge-IsCharged fails now oid l target db db' h = ground arith

-- The tables that a committed suspension leaves, apart from the audit rows.
pub record IsSuspended (clock : Time) (oid : ℕ) (db db' : Db) : Type 0 where
  pub users_lem : db'.users ≡ db.users
  pub orders_lem : db'.orders ≡ map (set_suspended oid clock) db.orders
  pub ledger_lem : db'.ledger ≡ db.ledger
  pub cards_lem : db'.rate_cards ≡ db.rate_cards

suspend_order-IsSuspended :
    (fails : Statement → Bool) (clock : Time) (oid : ℕ) (l : Loaded) (db db' : Db)
    → suspend_order fails clock oid l db ≡ done db'
    → IsSuspended clock oid db db'
unfolding suspend_order
suspend_order-IsSuspended fails clock oid l db db' h = ground arith

abbrev pub rung : Loaded → Option ℕ
rung l = ladder l.balance_cents l.mrc_cents l.channel_monthly_cents l.channel_count

-- What one order's transaction does, by what it reports.
pub data Effect (now clock : Time) (oid : ℕ) (db db' : Db) : Attempt Outcome → Type 0 where
  rolled_back : {s : Statement} → db' ≡ db → Effect now clock oid db db' (failed s)
  not_found : load_order oid db ≡ none → db' ≡ db → Effect now clock oid db db' (done nothing)
  paid :
      (l : Loaded) (target : ℕ)
      → load_order oid db ≡ some l
      → rung l ≡ some target
      → IsCharged now oid l target (fee l.mrc_cents l.channel_monthly_cents target) db db'
      → {out : Outcome} → out ≡ (if ltb target l.channel_count then downgraded else charged)
      → Effect now clock oid db db' (done out)
  unpaid :
      (l : Loaded)
      → load_order oid db ≡ some l
      → rung l ≡ none
      → IsSuspended clock oid db db'
      → Effect now clock oid db db' (done Outcome.cancelled)

Attempt-cases : (a : Attempt Db) → ((d : Db) × (a ≡ done d)) ⊎ ((s : Statement) × (a ≡ failed s))
Attempt-cases (done d) = inl (d, refl)
Attempt-cases (failed s) = inr (s, refl)

bill_loaded-Effect :
    (fails : Statement → Bool) (now clock : Time) (oid : ℕ) (l : Loaded) (t : Option ℕ) (db : Db)
    → load_order oid db ≡ some l
    → rung l ≡ t
    → let r = bill_loaded fails now clock oid l t db in Effect now clock oid db r.0 r.1
bill_loaded-Effect fails now clock oid l (some target) db found at =
    elim (Attempt-cases (charge fails now oid l target db)) [
      | inl (d, e) ↦
          rw e (paid l target found at (charge-IsCharged fails now oid l target db d e) refl)
      | inr (s, e) ↦ rw e (rolled_back refl)
    ]
bill_loaded-Effect fails now clock oid l none db found at =
    elim (Attempt-cases (suspend_order fails clock oid l db)) [
      | inl (d, e) ↦ rw e (unpaid l found at (suspend_order-IsSuspended fails clock oid l db d e))
      | inr (s, e) ↦ rw e (rolled_back refl)
    ]

-- Whatever statement fails, one order's transaction either leaves the database as it was and
-- reports the failure; or finds no active order with its user and rate card, and changes nothing;
-- or charges the fee of the rung that the ladder finds, exactly as the tables of a charge say;
-- or, where there is no such rung, suspends the order and touches no balance and no ledger row.
pub process_one-Effect :
    (fails : Statement → Bool) (now clock : Time) (oid : ℕ) (db : Db)
    → Effect now clock oid db
        (process_one fails now clock oid db).0
        (process_one fails now clock oid db).1
unfolding process_one
process_one-Effect fails now clock oid db = elim (Bool-cases (fails begin)) [
  | inl e ↦ rw e (rolled_back refl)
  | inr e ↦ elim (Bool-cases (fails load)) [
    | inl e' ↦ rw (e, e') (rolled_back refl)
    | inr e' ↦ elim (Option-cases (load_order oid db)) [
      | inl m ↦ rw (e, e', m) (not_found m refl)
      | inr (l, m) ↦ rw (e, e', m) (bill_loaded-Effect fails now clock oid l (rung l) db m refl)
    ]
  ]
]

charge_total :
    (fails : Statement → Bool) (now : Time) (oid : ℕ) (l : Loaded) (target : ℕ) (db : Db)
    {s : Statement}
    → ((t : Statement) → fails t ≡ false)
    → charge fails now oid l target db ≢ failed s
unfolding charge
charge_total fails now oid l target db ok = ground (
  arith,
  ok update_balance,
  ok ledger_mrc,
  ok ledger_channel,
  ok update_order,
  ok audit,
  ok commit,
)

suspend_order_total :
    (fails : Statement → Bool) (clock : Time) (oid : ℕ) (l : Loaded) (db : Db) {s : Statement}
    → ((t : Statement) → fails t ≡ false)
    → suspend_order fails clock oid l db ≢ failed s
unfolding suspend_order
suspend_order_total fails clock oid l db ok =
    ground (arith, ok suspend, ok audit_suspend, ok commit_suspend)

bill_loaded_total :
    (fails : Statement → Bool) (now clock : Time) (oid : ℕ) (l : Loaded) (t : Option ℕ) (db : Db)
    (s : Statement)
    → ((t : Statement) → fails t ≡ false)
    → (bill_loaded fails now clock oid l t db).1 ≢ failed s
bill_loaded_total fails now clock oid l (some target) db s ok =
    ground (arith, charge_total fails now oid l target db {s = s} ok)
bill_loaded_total fails now clock oid l none db s ok =
    ground (arith, suspend_order_total fails clock oid l db {s = s} ok)

-- If no statement fails, no failure is reported.
pub process_one_total :
    (fails : Statement → Bool) (now clock : Time) (oid : ℕ) (db : Db) (s : Statement)
    → ((t : Statement) → fails t ≡ false)
    → (process_one fails now clock oid db).1 ≢ failed s
unfolding process_one
process_one_total fails now clock oid db s ok = elim (Option-cases (load_order oid db)) [
  | inl m ↦ rw (ok begin, ok load, m) (λ e. cc)
  | inr (l, m) ↦
      rw (ok begin, ok load, m) (bill_loaded_total fails now clock oid l (rung l) db s ok)
]

-- The row of the locking SELECT comes from an active order, its user and its rate card.
pub record IsJoined (oid : ℕ) (db : Db) (l : Loaded) (o : Order) (u : User) (r : RateCard)
    : Type 0 where
  pub order_lem : find_order oid db ≡ some o
  pub user_lem : find_user o.user_id db ≡ some u
  pub card_lem : find_card o.rate_card_id db ≡ some r
  pub user_id_lem : l.user_id ≡ o.user_id
  pub balance_lem : l.balance_cents ≡ u.balance_cents

pub load_order-IsJoined :
    (oid : ℕ) (db : Db) (l : Loaded)
    → load_order oid db ≡ some l
    → (o : Order) × (u : User) × (r : RateCard) × IsJoined oid db l o u r
unfolding load_order
load_order-IsJoined oid db l h = elim (Option-cases (find_order oid db)) [
  | inl e ↦ cc (rw (e, load_order) at h)
  | inr (o, e) ↦ elim (Option-cases (find_user o.user_id db)) [
    | inl e' ↦ cc (rw (e, e', load_order) at h)
    | inr (u, e') ↦ elim (Option-cases (find_card o.rate_card_id db)) [
      | inl e'' ↦ cc (rw (e, e', e'', load_order) at h)
      | inr (r, e'') ↦ let row = rw (e, e', e'', load_order) at h in (o, u, r, ground arith)
    ]
  ]
]
