-- ===== src/Billing/Ledger.antt =====
-- Balances against the append-only ledger.
use mathlib.Core.Option
use mathlib.Core.List.{map}
use didstorageapp.Prelude.{
  ℕ, ◌+◌, ◌-◌, ◌≤◌, ◌≡◌, ◌∙◌, ◌⊎◌, inl, inr, some, Bool, false, Bool-cases, arith, ltb, ◌==◌,
  ==_iff, refl, List, [], ◌∷◌, ◌++◌, if◌then◌else◌, find, find,
}
use didstorageapp.Prelude.Int.{ℤ, pos, ◌≤ℤ◌, ◌+ℤ◌, ◌-ℤ◌, neg, int_laws, neg_parts}
use didstorageapp.Domain.Time.{Time}
use didstorageapp.Billing.{
  Statement, Attempt, Outcome, Db, User, Loaded, LedgerEntry, Totals, find_user, load_order, fee,
  set_balance, process_one, bill_all, run, tally, due_ids, no_totals,
}
use didstorageapp.Billing.Ladder.{ladder-fits}
use didstorageapp.Billing.Transaction.{
  IsCharged, Effect, rolled_back, not_found, paid, unpaid, process_one-Effect, insert_if_positive,
  mrc_row, channel_row, load_order-IsJoined,
}

-- What the ledger adds up to for one user.
unfoldable pub ledger_sum : ℕ → List LedgerEntry → ℤ
ledger_sum uid [] = pos 0
ledger_sum uid (e ∷ es) = (if e.user_id == uid then e.delta_cents else pos 0) +ℤ ledger_sum uid es

-- The balance moves with the ledger, and unless it is unchanged it is not negative.
abbrev pub BalanceMoved : ℕ → Db → Db → User → Type 0
BalanceMoved uid db db' u =
    (u' : User) × (find_user uid db' ≡ some u')
    × (u'.balance_cents -ℤ ledger_sum uid db'.ledger ≡ u.balance_cents -ℤ ledger_sum uid db.ledger)
    × ((u'.balance_cents ≡ u.balance_cents) ⊎ (pos 0 ≤ℤ u'.balance_cents))

delta_of : ℕ → LedgerEntry → ℤ
delta_of uid e = if e.user_id == uid then e.delta_cents else pos 0

regroup : (a b c : ℤ) → a +ℤ (b +ℤ c) ≡ (a +ℤ b) +ℤ c
regroup a b c = omega int_laws

ledger_sum-append :
    (uid : ℕ) (e : LedgerEntry) (rows : List LedgerEntry)
    → ledger_sum uid (rows ++ e ∷ []) ≡ ledger_sum uid rows +ℤ delta_of uid e
unfolding ledger_sum delta_of
ledger_sum-append uid e [] = omega int_laws
ledger_sum-append uid e (r ∷ rows) =
    rw (ledger_sum-append uid e rows)
      (regroup (delta_of uid r) (ledger_sum uid rows) (delta_of uid e))

ledger_sum-insert :
    (uid part : ℕ) (e : LedgerEntry) (rows : List LedgerEntry)
    → e.delta_cents ≡ neg part
    → ledger_sum uid (insert_if_positive part e rows)
      ≡ ledger_sum uid rows +ℤ (if e.user_id == uid then neg part else pos 0)
unfolding delta_of
ledger_sum-insert uid part e rows h = elim (Bool-cases (ltb 0 part)) [
  | inl some_due ↦ rw (some_due, ledger_sum-append uid e rows, h)
  | inr none_due ↦
      let zero_part : part ≡ 0 = ground arith in
      rw zero_part (elim (Bool-cases (e.user_id == uid)) [
        | inl mine ↦ rw mine (omega int_laws)
        | inr other ↦ rw other (omega int_laws)
      ])
]

pub find-set_balance :
    (uid v : ℕ) (b : ℤ) (us : List User)
    → find (λ (u : User). u.id == uid) (map (set_balance v b) us)
      ≡ Option.map (set_balance v b) (find (λ (u : User). u.id == uid) us)
find-set_balance uid v b [] = refl
find-set_balance uid v b (u ∷ us) = ground (arith, find-set_balance uid v b us)

find_user_id :
    (uid : ℕ) (us : List User) (u : User)
    → find (λ (u : User). u.id == uid) us ≡ some u
    → u.id ≡ uid
find_user_id uid [] u h = cc
find_user_id uid (x ∷ us) u h = ground (arith, find_user_id uid us u)

-- The customer that was billed, on either side of a charge.
charged_user :
    (now : Time) (oid uid target : ℕ) (l : Loaded) (db db' : Db) (u : User)
    → IsCharged now oid l target (fee l.mrc_cents l.channel_monthly_cents target) db db'
    → find_user uid db ≡ some u
    → find_user uid db'
      ≡ some (
          set_balance l.user_id
            (l.balance_cents -ℤ pos (fee l.mrc_cents l.channel_monthly_cents target))
            u)
charged_user now oid uid target l db db' u c h =
    let due = fee l.mrc_cents l.channel_monthly_cents target in
    rw (c.users_lem, find-set_balance uid l.user_id (l.balance_cents -ℤ pos due) db.users, h)

mrc-le-fee : (m c t : ℕ) → m ≤ fee m c t
unfolding fee
mrc-le-fee m c t = omega arith

-- Two rows of the ledger add up to the fee.
charged_sum :
    (uid oid due : ℕ) (l : Loaded) (rows : List LedgerEntry)
    → l.mrc_cents ≤ due
    → ledger_sum uid (
        insert_if_positive
          (due - l.mrc_cents)
          (channel_row oid l due)
          (insert_if_positive l.mrc_cents (mrc_row oid l due) rows))
      ≡ ledger_sum uid rows -ℤ (if l.user_id == uid then pos due else pos 0)
charged_sum uid oid due l rows h =
    rw
      (ledger_sum-insert uid (due - l.mrc_cents) (channel_row oid l due)
        (insert_if_positive l.mrc_cents (mrc_row oid l due) rows) refl)
      (rw (ledger_sum-insert uid l.mrc_cents (mrc_row oid l due) rows refl)
        (elim (Bool-cases (l.user_id == uid)) [
          | inl mine ↦
              rw mine (omega (int_laws, neg_parts l.mrc_cents, neg_parts (due - l.mrc_cents)))
          | inr other ↦ rw other (omega int_laws)
        ]))

-- The balance that was read is the balance of the user that is found.
billed_balance :
    (oid uid : ℕ) (db : Db) (l : Loaded) (u : User)
    → load_order oid db ≡ some l
    → find_user uid db ≡ some u
    → l.user_id ≡ uid
    → l.balance_cents ≡ u.balance_cents
billed_balance oid uid db l u found h e =
    let (o, v, r, j) = load_order-IsJoined oid db l found in
    let same : o.user_id ≡ uid = omega (arith, j.user_id_lem) in
    cc (j.balance_lem, rw same at j.user_lem)

-- The two sides of the equation on the ledger, for the billed customer and for another.
moved_balance :
    (l u : ℕ) (b left : ℤ) (due : ℕ) (s : ℤ) (x : ℤ)
    → x ≡ (if u == l then left -ℤ pos due else b)
    → (l ≡ u → left ≡ b)
    → x -ℤ (s -ℤ (if l == u then pos due else pos 0)) ≡ b -ℤ s
moved_balance l u b left due s x e same = elim (Bool-cases (u == l)) [
  | inl mine ↦
      let eq : l ≡ u = ground arith in
      let taken = same eq in
      let left_lem : x ≡ left -ℤ pos due = e ∙ rw mine in
      rw ((==_iff l u).1 eq, left_lem, taken) (omega int_laws)
  | inr other ↦
      let ne : (l == u) ≡ false = ground arith in
      let kept : x ≡ b = e ∙ rw other in rw (ne, kept) (omega int_laws)
]

Effect-BalanceMoved :
    (now clock : Time) (oid uid : ℕ) (db db' : Db) {out : Attempt Outcome}
    → Effect now clock oid db db' out
    → (u : User) → find_user uid db ≡ some u
    → BalanceMoved uid db db' u
Effect-BalanceMoved now clock oid uid db db' (rolled_back e) u h = rw e (u, h, refl, inl refl)
Effect-BalanceMoved now clock oid uid db db' (not_found m e) u h = rw e (u, h, refl, inl refl)
Effect-BalanceMoved now clock oid uid db db' (unpaid l m at c) u h =
    (u, rw c.users_lem h, rw c.ledger_lem, inl refl)
Effect-BalanceMoved now clock oid uid db db' (paid l target found at c e) u h =
    let due = fee l.mrc_cents l.channel_monthly_cents target in
    let (o, v, r, j) = load_order-IsJoined oid db l found in
    let fits =
      ladder-fits l.balance_cents l.mrc_cents l.channel_monthly_cents l.channel_count target at in
    let id_lem = find_user_id uid db.users u h in
    let sum_lem =
      charged_sum uid oid due l db.ledger (mrc-le-fee l.mrc_cents l.channel_monthly_cents target) in
    (
      set_balance l.user_id (l.balance_cents -ℤ pos due) u,
      charged_user now oid uid target l db db' u c h,
      rw (c.ledger_lem, sum_lem)
          (moved_balance l.user_id uid u.balance_cents l.balance_cents due
            (ledger_sum uid db.ledger) _ (ground arith) (billed_balance oid uid db l u found h)),
      elim (Bool-cases (u.id == l.user_id)) [
        | inl mine ↦ rw mine (inr (omega (int_laws, fits)))
        | inr other ↦ rw other (inl refl)
      ],
    )

-- For every customer, one order's transaction moves the balance by exactly what it adds to the
-- ledger, and a balance that it changes is not negative after it, whatever statement fails.
pub process_one-BalanceMoved :
    (fails : Statement → Bool) (now clock : Time) (oid uid : ℕ) (db : Db) (u : User)
    → find_user uid db ≡ some u
    → BalanceMoved uid db (process_one fails now clock oid db).0 u
process_one-BalanceMoved fails now clock oid uid db =
    Effect-BalanceMoved now clock oid uid db _ (process_one-Effect fails now clock oid db)

later_move : (a b c : ℤ) → (b ≡ a) ⊎ (pos 0 ≤ℤ b) → (c ≡ b) ⊎ (pos 0 ≤ℤ c) → (c ≡ a) ⊎ (pos 0 ≤ℤ c)
later_move a b c (inl p) (inl q) = inl (q ∙ p)
later_move a b c (inr p) (inl q) = inr (rw q p)
later_move a b c h (inr q) = inr q

bill_all-BalanceMoved :
    (fails : ℕ → Statement → Bool) (now clock : Time) (uid : ℕ) (ids : List ℕ) (db : Db)
    (t : Totals) (u : User)
    → find_user uid db ≡ some u
    → BalanceMoved uid db (bill_all fails now clock ids db t).0 u
unfolding bill_all
bill_all-BalanceMoved fails now clock uid [] db t u h = (u, h, refl, inl refl)
bill_all-BalanceMoved fails now clock uid (oid ∷ ids) db t u h =
    let (db', out) = process_one (fails oid) now clock oid db in
    let (v, found, moves, sign) = process_one-BalanceMoved (fails oid) now clock oid uid db u h in
    let (w, found', moves', sign') =
      bill_all-BalanceMoved fails now clock uid ids db'
        (tally out (record t { processed = t.processed + 1 })) v found in
    (w, found', moves' ∙ moves, later_move _ _ _ sign sign')

-- For every customer, a whole billing run moves the balance by exactly what it adds to the ledger,
-- and a balance that it changes is not negative after it, whatever statements fail on the way.
pub run-BalanceMoved :
    (fails : ℕ → Statement → Bool) (now clock : Time) (uid : ℕ) (db : Db) (u : User)
    → find_user uid db ≡ some u
    → BalanceMoved uid db (run fails now clock db).0 u
unfolding run
run-BalanceMoved fails now clock uid db =
    bill_all-BalanceMoved fails now clock uid (due_ids now db) db no_totals
