-- ===== src/Domain/Time.antt =====
-- NextAnniversary of internal/domain/domain.go. A time is its civil calendar view in UTC, which is
-- what Year, Month, Day and After read; two such times compare field by field.
use didstorageapp.Prelude.{
  ℕ, ◌+◌, ◌≤◌, ◌≡◌, arith, Bool, true, false, ◌&&◌, ◌||◌, ltb, ◌==◌, if◌then◌else◌,
}

pub record Time : Type 0 where
  pub year : ℕ
  pub month : ℕ  -- 1 to 12
  pub day : ℕ  -- 1 to 31
  pub nanos : ℕ  -- since midnight

-- `a.After(b)`
abbrev pub after : Time → Time → Bool
after a b =
    ltb b.year a.year
    || a.year == b.year
      && (ltb b.month a.month
          || a.month == b.month && (ltb b.day a.day || a.day == b.day && ltb b.nanos a.nanos))

-- `t.AddDate(0, 1, 0)` on a day that every month has.
abbrev pub add_month : Time → Time
add_month t =
    if t.month == 12
    then record t { year = t.year + 1; month = 1 }
    else record t { month = t.month + 1 }

unfoldable pub clamp_day : ℕ → ℕ
clamp_day day = if ltb day 1 then 1 else if ltb 28 day then 28 else day

unfoldable pub next_anniversary : Time → ℕ → Time
next_anniversary from day =
    let candidate : Time = record {
      year = from.year;
      month = from.month;
      day = clamp_day day;
      nanos = 0;
    } in
    if after candidate from then candidate else add_month candidate

pub record IsCivil (t : Time) : Type 0 where
  pub month_pos : 1 ≤ t.month
  pub month_le : t.month ≤ 12

-- From a civil time, the next anniversary is a midnight of the clamped day in a real month, it is
-- strictly later, and no midnight `t` of that day that is strictly later comes before it.
pub next_anniversary_least :
    (from t : Time) (day : ℕ)
    → IsCivil from
    → IsCivil t
    → t.day ≡ clamp_day day
    → t.nanos ≡ 0
    → after t from ≡ true
    → IsCivil (next_anniversary from day)
      × ((next_anniversary from day).day ≡ clamp_day day)
      × ((next_anniversary from day).nanos ≡ 0)
      × (after (next_anniversary from day) from ≡ true)
      × (after (next_anniversary from day) t ≡ false)
unfolding next_anniversary
next_anniversary_least from t day h ht hd hn ha =
    (ground arith, ground arith, ground arith, ground arith, ground arith)

pub next_anniversary_later : (from : Time) (day : ℕ) → after (next_anniversary from day) from ≡ true
unfolding next_anniversary
next_anniversary_later from day = ground arith
