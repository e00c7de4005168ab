-- ===== src/Billing/Examples.antt =====
-- A customer with four channels who can pay for three.
use didstorageapp.Prelude.{[], ◌∷◌, ◌≡◌, ◌≢◌, ◌≤◌, refl, Bool, false, some, none, arith}
use didstorageapp.Prelude.Int.{pos, ◌≤ℤ◌, ◌-ℤ◌, ◌+ℤ◌}
use didstorageapp.Domain.Time.{Time, next_anniversary, clamp_day}
use didstorageapp.Billing.{
  Statement, Outcome, done, failed, Db, User, Order, active, fee, ladder, load_order, charge,
  process_one, run, due_ids, audit,
}
use didstorageapp.Billing.Ladder.{ladder-some}
use didstorageapp.Billing.Transaction.{Effect, process_one-Effect, process_one_total}
use didstorageapp.Billing.Ledger.{BalanceMoved, run-BalanceMoved}
use didstorageapp.Billing.Due.{due_ids-run}

abbrev today : Time
today = record { year = 2026; month = 5; day = 10; nanos = 0 }

abbrev customer : User
customer = record { id = 1; balance_cents = pos 1700 }

abbrev rental : Order
rental = record {
  id = 7;
  user_id = 1;
  rate_card_id = 3;
  channel_count = 4;
  anniversary_day = 10;
  next_billing_at = today;
  status = active;
  ended_at = none;
}

abbrev shop : Db
shop = record {
  users = customer ∷ [];
  orders = rental ∷ [];
  rate_cards = record { id = 3; mrc_cents = 1000; channel_monthly_cents = 500 } ∷ [];
  ledger = [];
  billing_runs = [];
}

abbrev never : Statement → Bool
never s = false

stepped_down_once : (process_one never today today 7 shop).1 ≡ done Outcome.downgraded
unfolding process_one load_order ladder charge fee next_anniversary clamp_day ◌-ℤ◌ ◌+ℤ◌
stepped_down_once = refl

due_today : due_ids today shop ≡ 7 ∷ []
unfolding due_ids
due_today = refl

three_channels : ladder (pos 1700) 1000 500 4 ≡ some 3
unfolding ladder
three_channels = refl

ladder-some_example :
    (3 ≤ 4) × (pos (fee 1000 500 3) ≤ℤ pos 1700) × (2 ≤ 3) × (Prim.Native.Nat.min 2 4 ≤ 3)
unfolding fee
ladder-some_example =
    ladder-some (pos 1700) 1000 500 4 3 2 three_channels (omega arith) (omega arith)

process_one-Effect_example :
    Effect today today 7 shop
      (process_one never today today 7 shop).0
      (process_one never today today 7 shop).1
process_one-Effect_example = process_one-Effect never today today 7 shop

process_one_total_example : (process_one never today today 7 shop).1 ≢ failed audit
process_one_total_example = process_one_total never today today 7 shop audit (λ t. refl)

run-BalanceMoved_example : BalanceMoved 1 shop (run (λ oid. never) today today shop).0 customer
run-BalanceMoved_example = run-BalanceMoved (λ oid. never) today today 1 shop customer refl

due_ids-run_example : due_ids today (run (λ oid. never) today today shop).0 ≡ []
due_ids-run_example = due_ids-run (λ oid. never) today today shop (λ oid s. refl) (refl, tt)
