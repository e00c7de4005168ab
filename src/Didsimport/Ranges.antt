-- ===== src/Didsimport/Ranges.antt =====
-- ParseRange of internal/didsimport/parsers.go: when its loop ends, and what it has collected then.
use didstorageapp.Prelude.{
  ℕ, zero, suc, ◌+◌, ◌-◌, ◌^◌, ◌≤◌, ◌<◌, ◌≡◌, ◌≢◌, Bool, true, false, ◌&&◌, ◌||◌, not, none, some,
  List, [], ◌∷◌, ◌==◌, leb, ltb, if◌then◌else◌, refl, arith, Bool-cases, inl, inr, ap, ◌∙◌,
}
use didstorageapp.Prelude.Text.{Bytes, is_empty, decimal}
use mathlib.Core.Option
use didstorageapp.Strconv.{leb_int64, format_int64}
use didstorageapp.Didsimport.Worker.{Entry}
use didstorageapp.Didsimport.Parsers.{
  max_rows, only_digits, Parsed, parsed, rejected, plain_entry, parse_digits, next_int64,
  range_loop, range_from, range_between, parse_range,
}

-- `k` numbers from `n` on, ascending.
unfoldable pub numbers : ℕ → ℕ → List Entry
numbers n zero = []
numbers n (suc k) = plain_entry (format_int64 n) ∷ numbers (n + 1) k

next_small : (n : ℕ) → n + 1 < 2 ^ 63 → next_int64 n ≡ n + 1
next_small n h = omega (arith, h)

leb_int64_small : (a b : ℕ) → a < 2 ^ 63 → b < 2 ^ 63 → leb_int64 a b ≡ leb a b
leb_int64_small a b ha hb = ground (arith, ha, hb)

range_loop_step :
    (fuel n end : ℕ)
    → range_loop (suc fuel) n end ≡ (
        if leb_int64 n end
        then Option.map (λ l. plain_entry (format_int64 n) ∷ l) (range_loop fuel (next_int64 n) end)
        else some [])
unfolding range_loop
range_loop_step fuel n end = go (leb_int64 n end)
  where
    go :
        (b : Bool)
        → elim b [
          | true ↦
              Option.map
                (λ l. plain_entry (format_int64 n) ∷ l)
                (range_loop fuel (next_int64 n) end)
          | false ↦ some []
        ]
          ≡ (if b
              then Option.map
                  (λ l. plain_entry (format_int64 n) ∷ l)
                  (range_loop fuel (next_int64 n) end)
              else some [])
    go true = refl
    go false = refl

range_loop_ends :
    (fuel n k end : ℕ)
    → n + k ≡ end + 1
    → end + 1 < 2 ^ 63
    → k < fuel
    → range_loop fuel n end ≡ some (numbers n k)
unfolding range_loop numbers
range_loop_ends zero n k end e small h = absurd (omega (arith, h))
range_loop_ends (suc fuel) n zero end e small h =
    let past : leb_int64 n end ≡ false =
      leb_int64_small n end (omega (arith, e, small)) (omega (arith, small)) ∙ ground (arith, e) in
    range_loop_step fuel n end ∙ rw past refl
range_loop_ends (suc fuel) n (suc k) end e small h =
    let within : leb_int64 n end ≡ true =
      leb_int64_small n end (omega (arith, e, small)) (omega (arith, small)) ∙ ground (arith, e) in
    let next_lem = next_small n (omega (arith, e, small)) in
    range_loop_step fuel n end
    ∙ rw
        (
          within,
          next_lem,
          range_loop_ends fuel (n + 1) k end (omega (arith, e)) small (omega (arith, h)),
        )
        refl

-- Every int64 is at most the largest one.
leb_int64_max : (n : ℕ) → leb_int64 n (2 ^ 63 - 1) ≡ true
leb_int64_max n = ground arith

range_loop_runs : (fuel n : ℕ) → range_loop fuel n (2 ^ 63 - 1) ≡ none
unfolding range_loop
range_loop_runs zero n = refl
range_loop_runs (suc fuel) n =
    range_loop_step fuel n (2 ^ 63 - 1)
    ∙ rw (leb_int64_max n, range_loop_runs fuel (next_int64 n)) refl

-- The value of the last number: of the first where none is given.
abbrev pub last_value : Bytes → Bytes → ℕ
last_value start end =
    decimal 0 (if is_empty (only_digits end) then only_digits start else only_digits end)

-- What the form asks for: a first number from 1 up, a last one not below it, each an int64, and at
-- most 10000 numbers from one to the other.
abbrev pub is_range : ℕ → ℕ → Bool
is_range a b = ltb 0 a && ltb a (2 ^ 63) && ltb b (2 ^ 63) && leb a b && leb (b - a + 1) max_rows

abbrev pub range_asked : Bytes → Bytes → Parsed
range_asked start end =
    let a = decimal 0 (only_digits start) in
    let b = last_value start end in
    if not (is_empty (only_digits start)) && is_range a b
    then parsed (numbers a (b - a + 1)) []
    else rejected

range_from_ends :
    (fuel a b : ℕ)
    → max_rows < fuel
    → b + 1 < 2 ^ 63
    → range_from fuel a (some b)
      ≡ some (if is_range a b then parsed (numbers a (b - a + 1)) [] else rejected)
unfolding range_from
range_from_ends fuel a b enough small =
    elim (Bool-cases (a == 0 || ltb b a || ltb max_rows (b - a + 1))) [
      | inl e ↦ let bad : is_range a b ≡ false = ground (arith, e) in rw (e, bad) refl
      | inr e ↦
          let good : is_range a b ≡ true = ground (arith, e, small) in
          let few : b - a + 1 ≤ max_rows = ground (arith, e) in
          let order : a ≤ b = ground (arith, e) in
          rw
            (
              e,
              good,
              range_loop_ends fuel a (b - a + 1) b (omega (arith, order)) small
                  (omega (arith, few, enough)),
            )
            refl
    ]

small_or_last : (b : ℕ) → ltb b (2 ^ 63) ≡ true → b ≢ 2 ^ 63 - 1 → b + 1 < 2 ^ 63
small_or_last b h ne = ground (arith, h, ne)

first_too_large : (a b : ℕ) → ltb a (2 ^ 63) ≡ false → is_range a b ≡ false
first_too_large a b h = ground (arith, h)

last_too_large : (a b : ℕ) → ltb b (2 ^ 63) ≡ false → is_range a b ≡ false
last_too_large a b h = ground (arith, h)

parse_digits_small :
    (s : Bytes) → ltb (decimal 0 s) (2 ^ 63) ≡ true → parse_digits s ≡ some (decimal 0 s)
parse_digits_small s h = rw h refl

parse_digits_large : (s : Bytes) → ltb (decimal 0 s) (2 ^ 63) ≡ false → parse_digits s ≡ none
parse_digits_large s h = rw h refl

abbrev asked_of : ℕ → ℕ → Parsed
asked_of a b = if is_range a b then parsed (numbers a (b - a + 1)) [] else rejected

not_asked : (a b : ℕ) → is_range a b ≡ false → some rejected ≡ some (asked_of a b)
not_asked a b h = rw h refl

range_between_ends :
    (fuel : ℕ) (start end : Bytes)
    → max_rows < fuel
    → decimal 0 (if is_empty end then start else end) ≢ 2 ^ 63 - 1
    → range_between fuel (parse_digits start) end
      ≡ some (asked_of (decimal 0 start) (decimal 0 (if is_empty end then start else end)))
unfolding range_from
range_between_ends fuel start [] enough last = elim (Bool-cases (ltb (decimal 0 start) (2 ^ 63))) [
  | inr e ↦
      ap (λ o. range_between fuel o []) (parse_digits_large start e)
      ∙ not_asked (decimal 0 start) (decimal 0 start)
          (first_too_large (decimal 0 start) (decimal 0 start) e)
  | inl e ↦
      ap (λ o. range_between fuel o []) (parse_digits_small start e)
      ∙ range_from_ends fuel (decimal 0 start) (decimal 0 start) enough
          (small_or_last (decimal 0 start) e last)
]
range_between_ends fuel start (c ∷ s) enough last =
    elim (Bool-cases (ltb (decimal 0 start) (2 ^ 63))) [
      | inr e ↦
          ap (λ o. range_between fuel o (c ∷ s)) (parse_digits_large start e)
          ∙ not_asked (decimal 0 start) (decimal 0 (c ∷ s))
              (first_too_large (decimal 0 start) (decimal 0 (c ∷ s)) e)
      | inl e ↦
          ap (λ o. range_between fuel o (c ∷ s)) (parse_digits_small start e)
          ∙ elim (Bool-cases (ltb (decimal 0 (c ∷ s)) (2 ^ 63))) [
            | inr b ↦
                ap (range_from fuel (decimal 0 start)) (parse_digits_large (c ∷ s) b)
                ∙ not_asked (decimal 0 start) (decimal 0 (c ∷ s))
                    (last_too_large (decimal 0 start) (decimal 0 (c ∷ s)) b)
            | inl b ↦
                ap (range_from fuel (decimal 0 start)) (parse_digits_small (c ∷ s) b)
                ∙ range_from_ends fuel (decimal 0 start) (decimal 0 (c ∷ s)) enough
                    (small_or_last (decimal 0 (c ∷ s)) b last)
          ]
    ]

-- With more rounds than 10000 the loop ends, unless the last number is the largest int64: a range
-- that is asked for properly gives its numbers in ascending order, any other is refused.
pub parse_range_ends :
    (fuel : ℕ) (start end : Bytes)
    → max_rows < fuel
    → last_value start end ≢ 2 ^ 63 - 1
    → parse_range fuel start end ≡ some (range_asked start end)
unfolding parse_range
parse_range_ends fuel start end enough last = elim (Bool-cases (is_empty (only_digits start))) [
  | inl e ↦ rw e refl
  | inr e ↦ rw e (range_between_ends fuel (only_digits start) (only_digits end) enough last)
]

range_from_runs :
    (fuel a : ℕ) → is_range a (2 ^ 63 - 1) ≡ true → range_from fuel a (some (2 ^ 63 - 1)) ≡ none
unfolding range_from
range_from_runs fuel a h =
    let good : (a == 0 || ltb (2 ^ 63 - 1) a || ltb max_rows (2 ^ 63 - 1 - a + 1)) ≡ false =
      ground (arith, h) in
    rw (good, range_loop_runs fuel a) refl

range_between_runs :
    (fuel : ℕ) (start end : Bytes)
    → is_range (decimal 0 start) (2 ^ 63 - 1) ≡ true
    → is_empty end ≡ false
    → decimal 0 end ≡ 2 ^ 63 - 1
    → range_between fuel (parse_digits start) end ≡ none
range_between_runs fuel start [] range more last = absurd (cc)
range_between_runs fuel start (c ∷ s) range more last =
    let first : ltb (decimal 0 start) (2 ^ 63) ≡ true = ground (arith, range) in
    let second : ltb (decimal 0 (c ∷ s)) (2 ^ 63) ≡ true = rw last refl in
    ap (λ o. range_between fuel o (c ∷ s)) (parse_digits_small start first)
    ∙ ap (range_from fuel (decimal 0 start)) (parse_digits_small (c ∷ s) second)
    ∙ ap (λ b. range_from fuel (decimal 0 start) (some b)) last
    ∙ range_from_runs fuel (decimal 0 start) range

-- Up to the largest int64, 9223372036854775807, the loop does not end, however many rounds it runs:
-- for a first number at most 9999 below it.
pub parse_range_runs :
    (fuel : ℕ) (start end : Bytes)
    → is_empty (only_digits start) ≡ false
    → is_range (decimal 0 (only_digits start)) (2 ^ 63 - 1) ≡ true
    → is_empty (only_digits end) ≡ false
    → decimal 0 (only_digits end) ≡ 2 ^ 63 - 1
    → parse_range fuel start end ≡ none
unfolding parse_range
parse_range_runs fuel start end given range more last =
    rw given (range_between_runs fuel (only_digits start) (only_digits end) range more last)
