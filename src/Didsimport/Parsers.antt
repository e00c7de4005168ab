-- ===== src/Didsimport/Parsers.antt =====
-- internal/didsimport/parsers.go: the three readers of a list of numbers. A number of type int64 is
-- its bit pattern, below 2 ^ 64. The records of a CSV file are as encoding/csv reads them; `none`
-- is a file that it refuses.
use mathlib.Core.Option
use didstorageapp.Prelude.{
  ℕ, zero, suc, ◌+◌, ◌-◌, ◌%◌, ◌^◌, Bool, true, false, ◌&&◌, ◌||◌, not, Option, none, some, List,
  [], ◌∷◌, length, keep, ◌==◌, leb, ltb, if◌then◌else◌,
}
use didstorageapp.Prelude.Text.{
  Bytes, codes, is_empty, is_digit, has_prefix, trim_prefix, trim_space, decimal,
}
use didstorageapp.Prelude.Int.{pos}
use didstorageapp.Strconv.{leb_int64, format_int64}
use didstorageapp.Didsimport.Worker.{Entry}

abbrev pub max_rows : ℕ
max_rows = 10000

abbrev pub only_digits : Bytes → Bytes
only_digits s = keep is_digit s

abbrev pub plausible_length : Bytes → Bool
plausible_length s = leb 6 (length s) && leb (length s) 15

abbrev pub looks_like_e164 : Bytes → Bool
looks_like_e164 s = plausible_length (only_digits (trim_prefix (trim_space s) (codes "+")))

unfoldable pub normalize_e164 : Bytes → Bytes
normalize_e164 s =
    let digits = only_digits (trim_prefix (trim_space s) (codes "+")) in
    if looks_like_e164 digits then digits else []

-- Line or row, and the text.
pub data Warning : Type 0 where
  not_a_number unknown_type bad_supplier : ℕ → Bytes → Warning

pub data Parsed : Type 0 where
  parsed : List Entry → List Warning → Parsed
  rejected : Parsed

abbrev pub plain_entry : Bytes → Entry
plain_entry number = record {
  e164 = number;
  country = [];
  did_type = [];
  supplier_id = 0;
  channel_cap = pos 0;
}

-- strconv.ParseInt of digits, base 10, 64 bits
abbrev pub parse_digits : Bytes → Option ℕ
parse_digits s = if ltb (decimal 0 s) (2 ^ 63) then some (decimal 0 s) else none

-- `n++`
abbrev pub next_int64 : ℕ → ℕ
next_int64 n = (n + 1) % 2 ^ 64

-- `for n := start; n <= end; n++`; `none` is a loop that has not ended when the fuel has.
unfoldable pub range_loop : ℕ → ℕ → ℕ → Option (List Entry)
range_loop zero n end = none
range_loop (suc fuel) n end = elim (leb_int64 n end) [
  | true ↦ Option.map (λ l. plain_entry (format_int64 n) ∷ l) (range_loop fuel (next_int64 n) end)
  | false ↦ some []
]

abbrev pub end_or : ℕ → Bytes → Option ℕ
end_or start [] = some start
end_or start (c ∷ s) = parse_digits (c ∷ s)

abbrev pub ranged : Option (List Entry) → Option Parsed
ranged none = none
ranged (some l) = some (parsed l [])

unfoldable pub range_from : ℕ → ℕ → Option ℕ → Option Parsed
range_from fuel start none = some rejected
range_from fuel start (some end) =
    if start == 0 || ltb end start || ltb max_rows (end - start + 1)
    then some rejected
    else ranged (range_loop fuel start end)

abbrev pub range_between : ℕ → Option ℕ → Bytes → Option Parsed
range_between fuel none end = some rejected
range_between fuel (some start) end = range_from fuel start (end_or start end)

unfoldable pub parse_range : ℕ → Bytes → Bytes → Option Parsed
unfolding range_from
parse_range fuel start end =
    if is_empty (only_digits start)
    then some rejected
    else range_between fuel (parse_digits (only_digits start)) (only_digits end)

abbrev pub push : ℕ → List Bytes → List Bytes
push c [] = (c ∷ []) ∷ []
push c (l ∷ ls) = (c ∷ l) ∷ ls

-- strings.Split at the bytes that satisfy the test
unfoldable pub split_by : (ℕ → Bool) → Bytes → List Bytes
split_by p [] = [] ∷ []
split_by p (c ∷ s) = let rest = split_by p s in if p c then [] ∷ rest else push c rest

-- strings.FieldsFunc
abbrev pub fields_by : (ℕ → Bool) → Bytes → List Bytes
fields_by p s = keep (λ f. not (is_empty f)) (split_by p s)

abbrev pub is_separator : ℕ → Bool
is_separator c = c == b',' || c == b';' || c == 32 || c == 9

-- The entries and the warnings of a line, before those of the lines behind it.
unfoldable pub bulk_tokens :
    ℕ → Bytes → List Bytes → List Entry × List Warning → List Entry × List Warning
bulk_tokens line raw [] behind = behind
bulk_tokens line raw (t ∷ ts) behind =
    let rest = bulk_tokens line raw ts behind in
    if is_empty (normalize_e164 t)
    then (rest.0, not_a_number line raw ∷ rest.1)
    else (plain_entry (normalize_e164 t) ∷ rest.0, rest.1)

unfoldable pub bulk_lines : ℕ → List Bytes → List Entry × List Warning
unfolding bulk_tokens
bulk_lines line [] = ([], [])
bulk_lines line (raw ∷ ls) =
    let rest = bulk_lines (suc line) ls in
    if is_empty (trim_space raw) || has_prefix (trim_space raw) (codes "#")
    then rest
    else bulk_tokens line raw (fields_by is_separator (trim_space raw)) rest

abbrev pub bulk_result : List Entry × List Warning → Parsed
bulk_result ([], []) = rejected
bulk_result ([], w ∷ ws) = parsed [] (w ∷ ws)
bulk_result (e ∷ es, ws) = if ltb max_rows (length (e ∷ es)) then rejected else parsed (e ∷ es) ws

unfoldable pub parse_bulk : Bytes → Parsed
unfolding bulk_lines split_by
parse_bulk text = bulk_result (bulk_lines 1 (split_by (λ c. c == 10) text))
