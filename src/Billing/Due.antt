-- ===== src/Billing/Due.antt =====
-- A billing run leaves nothing due.
use mathlib.Core.Option
use mathlib.Core.Path.{subst}
use mathlib.Core.List.{map}
use didstorageapp.Prelude.{
  ℕ, ◌+◌, ◌≡◌, ◌≢◌, ◌∙◌, inl, inr, none, some, Bool, true, false, not, ◌&&◌, ◌||◌, Bool-cases,
  arith, ◌==◌, ==_refl, refl, sym, Option, Option-cases, List, [], ◌∷◌, find, keep, any, All,
  All-map, All-weaken, keep-eq-nil, find-eq-none, find-All,
}
use didstorageapp.Prelude.Int.{ℤ}
use didstorageapp.Domain.Time.{Time, after, next_anniversary, next_anniversary_later}
use didstorageapp.Billing.{
  Statement, Attempt, Outcome, Db, User, Order, RateCard, Totals, failed, find_user, find_order,
  find_card, load_order, set_balance, set_billed, set_suspended, process_one, bill_all, run, tally,
  due_ids, no_totals, is_due, is_active, place, order_by_due,
}
use didstorageapp.Billing.Transaction.{
  Effect, rolled_back, not_found, paid, unpaid, process_one-Effect, process_one_total,
}
use didstorageapp.Billing.Ledger.{find-set_balance}

abbrev pub mem : ℕ → List ℕ → Bool
mem x ids = any (λ y. x == y) ids

abbrev is_some {ℓ} : {A : Type ℓ} → Option A → Bool
is_some none = false
is_some (some a) = true

-- The foreign keys of an order.
abbrev pub is_linked : List User → List RateCard → Order → Bool
is_linked us rs o =
    is_some (find (λ (u : User). u.id == o.user_id) us)
    && is_some (find (λ (r : RateCard). r.id == o.rate_card_id) rs)

abbrev pub IsLinked : Db → Type 0
IsLinked db = All (λ (o : Order). is_linked db.users db.rate_cards o ≡ true) db.orders

-- A due order is on the list.
abbrev covered : Time → List ℕ → Order → Bool
covered now ids o = not (is_due now o) || mem o.id ids

covered-billed :
    (now next : Time) (oid target : ℕ) (ids : List ℕ)
    → after next now ≡ true
    → (o : Order) → covered now (oid ∷ ids) o ≡ true
    → covered now ids (set_billed oid target next o) ≡ true
covered-billed now next oid target ids later o h = elim (Bool-cases (o.id == oid)) [
  | inl mine ↦ rw (mine, later) (ground arith)
  | inr other ↦ rw other (rw other at h)
]

covered-suspended :
    (now clock : Time) (oid : ℕ) (ids : List ℕ) (o : Order)
    → covered now (oid ∷ ids) o ≡ true
    → covered now ids (set_suspended oid clock o) ≡ true
covered-suspended now clock oid ids o h = elim (Bool-cases (o.id == oid)) [
  | inl mine ↦ rw mine (ground arith)
  | inr other ↦ rw other (rw other at h)
]

idle_bool :
    (here act late later : Bool)
    → (here && act) ≡ false
    → (not (act && not late) || (here || later)) ≡ true
    → (not (act && not late) || later) ≡ true
idle_bool here act late later e h = ground arith

covered-idle :
    (now : Time) (oid : ℕ) (ids : List ℕ) (o : Order)
    → (o.id == oid && is_active o.status) ≡ false
    → covered now (oid ∷ ids) o ≡ true
    → covered now ids o ≡ true
covered-idle now oid ids o idle h =
    idle_bool (o.id == oid) (is_active o.status) (after o.next_billing_at now) (mem o.id ids) idle h

All-idle :
    (now : Time) (oid : ℕ) (ids : List ℕ) (rows : List Order)
    → All (λ (o : Order). (o.id == oid && is_active o.status) ≡ false) rows
    → All (λ o. covered now (oid ∷ ids) o ≡ true) rows
    → All (λ o. covered now ids o ≡ true) rows
All-idle now oid ids [] e h = tt
All-idle now oid ids (o ∷ rows) e h =
    (covered-idle now oid ids o e.0 h.0, All-idle now oid ids rows e.1 h.1)

-- With its foreign keys in place an active order is loaded.
load_none : (oid : ℕ) (db : Db) → IsLinked db → load_order oid db ≡ none → find_order oid db ≡ none
unfolding load_order
load_none oid db h e = elim (Option-cases (find_order oid db)) [
  | inl m ↦ m
  | inr (o, m) ↦
      let linked = find-All _ (λ (o : Order). o.id == oid && is_active o.status) db.orders o h m in
      elim (Option-cases (find_user o.user_id db)) [
        | inl m' ↦ cc (rw m' at linked)
        | inr (u, m') ↦ elim (Option-cases (find_card o.rate_card_id db)) [
          | inl m'' ↦ cc (rw (m', m'') at linked)
          | inr (r, m'') ↦ cc (rw (m, m', m'', load_order) at e)
        ]
      ]
]

is_some-map : (f : User → User) (o : Option User) → is_some (Option.map f o) ≡ is_some o
is_some-map f none = refl
is_some-map f (some u) = refl

linked-billed :
    (db : Db) (v oid target : ℕ) (b : ℤ) (next : Time) (o : Order)
    → is_linked db.users db.rate_cards o ≡ true
    → is_linked (map (set_balance v b) db.users) db.rate_cards (set_billed oid target next o) ≡ true
linked-billed db v oid target b next o h = elim (Bool-cases (o.id == oid)) [
  | inl mine ↦ rw (mine, find-set_balance o.user_id v b db.users, is_some-map) h
  | inr other ↦ rw (other, find-set_balance o.user_id v b db.users, is_some-map) h
]

linked-suspended :
    (db : Db) (oid : ℕ) (clock : Time) (o : Order)
    → is_linked db.users db.rate_cards o ≡ true
    → is_linked db.users db.rate_cards (set_suspended oid clock o) ≡ true
linked-suspended db oid clock o h = elim (Bool-cases (o.id == oid)) [
  | inl mine ↦ rw mine h
  | inr other ↦ rw other h
]

-- Between two orders of a run: the foreign keys hold, and what is due is still on the list.
record IsPending (now : Time) (ids : List ℕ) (db : Db) : Type 0 where
  linked : IsLinked db
  listed : All (λ o. covered now ids o ≡ true) db.orders

Effect-IsPending :
    (now clock : Time) (oid : ℕ) (ids : List ℕ) (db db' : Db) (out : Attempt Outcome)
    → Effect now clock oid db db' out
    → ((s : Statement) → out ≢ failed s)
    → IsPending now (oid ∷ ids) db
    → IsPending now ids db'
Effect-IsPending now clock oid ids db db' _ (rolled_back {s = s} e) ok h = absurd (ok s refl)
Effect-IsPending now clock oid ids db db' _ (not_found m e) ok h = rw e (record {
  linked = h.linked;
  listed =
      All-idle now oid ids db.orders (find-eq-none _ db.orders (load_none oid db h.linked m))
        h.listed;
})
Effect-IsPending now clock oid ids db db' _ (paid l target found at c e) ok h =
    let next = next_anniversary now l.anniversary_day in
    record {
      linked =
          rw (c.orders_lem, c.users_lem, c.cards_lem)
            (All-map _ _ _ (linked-billed db l.user_id oid target _ next) db.orders h.linked);
      listed = rw c.orders_lem (
          All-map _ _ _
            (covered-billed now next oid target ids (next_anniversary_later now l.anniversary_day))
            db.orders h.listed);
    }
Effect-IsPending now clock oid ids db db' _ (unpaid l found at c) ok h = record {
  linked =
      rw (c.orders_lem, c.users_lem, c.cards_lem)
        (All-map _ _ _ (linked-suspended db oid clock) db.orders h.linked);
  listed = rw c.orders_lem (All-map _ _ _ (covered-suspended now clock oid ids) db.orders h.listed);
}

bill_all-IsPending :
    (fails : ℕ → Statement → Bool) (now clock : Time) (ids : List ℕ) (db : Db) (t : Totals)
    → ((oid : ℕ) (s : Statement) → fails oid s ≡ false)
    → IsPending now ids db
    → IsPending now [] (bill_all fails now clock ids db t).0
unfolding bill_all
bill_all-IsPending fails now clock [] db t ok h = h
bill_all-IsPending fails now clock (oid ∷ ids) db t ok h =
    let (db', out) = process_one (fails oid) now clock oid db in
    bill_all-IsPending fails now clock ids db'
      (tally out (record t { processed = t.processed + 1 })) ok
      (Effect-IsPending now clock oid ids db db' out
        (process_one-Effect (fails oid) now clock oid db)
        (λ s. process_one_total (fails oid) now clock oid db s (ok oid)) h)

-- Sorting loses no order.
mem-place :
    (x : ℕ) (o : Order) (os : List Order)
    → mem x (map (λ (p : Order). p.id) (place o os)) ≡ mem x (map (λ (p : Order). p.id) (o ∷ os))
unfolding place
mem-place x o [] = refl
mem-place x o (p ∷ ps) = ground (arith, mem-place x o ps)

mem-order_by_due :
    (x : ℕ) (os : List Order)
    → mem x (map (λ (p : Order). p.id) (order_by_due os)) ≡ mem x (map (λ (p : Order). p.id) os)
unfolding order_by_due
mem-order_by_due x [] = refl
mem-order_by_due x (o ∷ os) =
    mem-place x o (order_by_due os) ∙ ground (arith, mem-order_by_due x os)

on_list : (due here later : Bool) → here ≡ true → (not due || (here || later)) ≡ true
on_list due here later h = ground arith

listed_longer :
    (due here later : Bool) → (not due || later) ≡ true → (not due || (here || later)) ≡ true
listed_longer due here later h = ground arith

not_due : (due : Bool) → (not due || false) ≡ true → due ≡ false
not_due due h = ground arith

covered-order_by_due :
    (now : Time) (rows : List Order) (o : Order)
    → covered now (map (λ (p : Order). p.id) rows) o ≡ true
    → covered now (map (λ (p : Order). p.id) (order_by_due rows)) o ≡ true
covered-order_by_due now rows o h = rw (mem-order_by_due o.id rows) h

covered-keep :
    (now : Time) (rows : List Order)
    → All (λ o. covered now (map (λ (p : Order). p.id) (keep (is_due now) rows)) o ≡ true) rows
covered-keep now [] = tt
covered-keep now (r ∷ rows) =
    let kept = keep (is_due now) rows in
    let ids = map (λ (p : Order). p.id) kept in
    elim (Bool-cases (is_due now r)) [
      | inl due ↦
          let eq : keep (is_due now) (r ∷ rows) ≡ r ∷ kept = rw due in
          subst (λ os. All (λ o. covered now (map (λ (p : Order). p.id) os) o ≡ true) (r ∷ rows))
            (sym eq)
            (
              on_list (is_due now r) (r.id == r.id) (mem r.id ids) (==_refl r.id),
              All-weaken _ _ (λ o. listed_longer (is_due now o) (o.id == r.id) (mem o.id ids)) rows
                  (covered-keep now rows),
            )
      | inr idle ↦
          let eq : keep (is_due now) (r ∷ rows) ≡ kept = rw idle in
          subst (λ os. All (λ o. covered now (map (λ (p : Order). p.id) os) o ≡ true) (r ∷ rows))
            (sym eq) (rw idle, covered-keep now rows)
    ]

-- A run in which no statement fails leaves no order due, if every order has its user and its rate
-- card. So a second run at the same time finds nothing to do.
pub due_ids-run :
    (fails : ℕ → Statement → Bool) (now clock : Time) (db : Db)
    → ((oid : ℕ) (s : Statement) → fails oid s ≡ false)
    → IsLinked db
    → due_ids now (run fails now clock db).0 ≡ []
unfolding run due_ids
due_ids-run fails now clock db ok linked =
    let ids = map (λ (p : Order). p.id) (order_by_due (keep (is_due now) db.orders)) in
    let db' = (bill_all fails now clock ids db no_totals).0 in
    let last = bill_all-IsPending fails now clock ids db no_totals ok (record {
      linked = linked;
      listed =
          All-weaken _ _ (covered-order_by_due now (keep (is_due now) db.orders)) db.orders
            (covered-keep now db.orders);
    }) in
    let none_due =
      keep-eq-nil (is_due now) db'.orders
        (All-weaken _ _ (λ o. not_due (is_due now o)) db'.orders last.listed) in
    rw none_due refl
