-- ===== src/Domain/Examples.antt =====
-- Concrete runs of the shared helpers, and the theorems about them at inputs that they cover.
use didstorageapp.Prelude.{◌*◌, ◌%◌, ◌≤◌, ◌≡◌, refl, true, false, arith}
use didstorageapp.Prelude.Int.{pos, negsuc}
use didstorageapp.Prelude.Text.{codes, Lacks}
use didstorageapp.Domain.Time.{
  Time, IsCivil, after, clamp_day, next_anniversary, next_anniversary_least,
}
use didstorageapp.Domain.Charge.{billed, charge_for_call, max_seconds_for_balance}
use didstorageapp.Domain.Charge.SixPlaces.{six_places}
use didstorageapp.Domain.Charge.Rounding.{billed-least}
use didstorageapp.Domain.Charge.Money.{max_seconds_exhausted}
use didstorageapp.Domain.CallState.{call_state, busy}
use didstorageapp.Domain.Uri.{normalize_route_target}
use didstorageapp.Domain.Uri.Laws.{normalize_route_target-Lacks}

abbrev noon : Time
noon = record { year = 2026; month = 12; day = 28; nanos = 43200000000000 }

abbrev new_year : Time
new_year = record { year = 2027; month = 1; day = 28; nanos = 0 }

noon_next : next_anniversary noon 31 ≡ new_year
unfolding next_anniversary clamp_day
noon_next = refl

next_anniversary_least_example :
    IsCivil (next_anniversary noon 31)
    × ((next_anniversary noon 31).day ≡ clamp_day 31)
    × ((next_anniversary noon 31).nanos ≡ 0)
    × (after (next_anniversary noon 31) noon ≡ true)
    × (after (next_anniversary noon 31) new_year ≡ false)
unfolding clamp_day
next_anniversary_least_example =
    next_anniversary_least noon new_year 31 (omega arith) (omega arith) refl refl refl

billed-least_example : (61 ≤ billed 61 60 6) × (billed 61 60 6 % 6 ≡ 0) × (billed 61 60 6 ≤ 11 * 6)
billed-least_example = billed-least 61 60 6 11 (omega arith) (omega arith) (omega arith)

-- 61 seconds at 60/6 and 1.5 cents a minute are billed as 66 seconds, for 2 cents.
charge_61 : charge_for_call six_places (pos 61) (pos 60) (pos 6) 1500000 ≡ (66, pos 2, pos 2)
unfolding charge_for_call billed
charge_61 = refl

max_seconds_5 : max_seconds_for_balance six_places (pos 5) 1500000 ≡ 180
unfolding max_seconds_for_balance
max_seconds_5 = refl

max_seconds_exhausted_example : max_seconds_for_balance six_places (negsuc 4) 1500000 ≡ 0
max_seconds_exhausted_example =
    max_seconds_exhausted six_places (negsuc 4) 1500000 refl (omega arith)

busy_call : call_state (pos 0) (codes "17") ≡ busy
unfolding call_state
busy_call = refl

normalize_route_target-Lacks_example :
    Lacks b'@' (normalize_route_target (codes "ip") (codes "sip:bob@10.0.0.1"))
    × Lacks b'@' (normalize_route_target (codes "sip_account") (codes "sip:bob@10.0.0.1"))
normalize_route_target-Lacks_example = normalize_route_target-Lacks (codes "sip:bob@10.0.0.1")
