-- ===== src/Didsimport/Numbers.antt =====
-- What the readers of internal/didsimport/parsers.go accept as a number, and how many of them.
use didstorageapp.Prelude.{
  ℕ, suc, ◌+◌, ◌≤◌, ◌≡◌, true, false, ◌||◌, not, Option, none, some, List, [], ◌∷◌, keep, length,
  All, ◌==◌, ltb, refl, arith, Bool-cases, inl, inr, sym, ◌∙◌,
}
use didstorageapp.Prelude.Text.{
  Bytes, codes, is_empty, has_prefix, trim_prefix, trim_space, IsDigits, keep-IsDigits,
  keep-eq_self,
}
use didstorageapp.Prelude.Cuts.{IsSolid, trim_space_solid}
use didstorageapp.Didsimport.Worker.{Entry}
use didstorageapp.Didsimport.Parsers.{
  max_rows, only_digits, plausible_length, looks_like_e164, normalize_e164, Warning, Parsed, parsed,
  rejected, bulk_tokens, bulk_lines, bulk_result, parse_bulk, split_by, fields_by, is_separator,
}
use didstorageapp.Didsimport.Csv.{
  Columns, Verdict, blank, refused, accepted, verdict, count_after, add_row, csv_rows, csv_result,
  csv_body, csv_clean, parse_csv, columns_of, no_columns, natural_order, first_cell, is_comment,
  cell,
}

IsSolid-digits : (s : Bytes) → IsDigits s → IsSolid s
IsSolid-digits [] h = tt
IsSolid-digits (c ∷ s) h = (ground (arith, h.0), IsSolid-digits s h.1)

no_plus : (s : Bytes) → IsDigits s → trim_prefix s (codes "+") ≡ s
unfolding trim_prefix
no_plus [] h = refl
no_plus (c ∷ s) h = let e : (c == b'+') ≡ false = ground (arith, h.0) in rw e refl

-- Digits are plausible by their number alone.
looks_like_e164_digits : (s : Bytes) → IsDigits s → looks_like_e164 s ≡ plausible_length s
looks_like_e164_digits s h =
    rw (trim_space_solid s (IsSolid-digits s h), no_plus s h, keep-eq_self s h) refl

-- 6 to 15 digits.
abbrev pub IsNumber : Entry → Type 0
IsNumber e = IsDigits e.e164 × (plausible_length e.e164 ≡ true)

normalize_e164-IsNumber :
    (s : Bytes)
    → is_empty (normalize_e164 s) ≡ false
    → IsDigits (normalize_e164 s) × (plausible_length (normalize_e164 s) ≡ true)
unfolding normalize_e164
normalize_e164-IsNumber s h =
    let digits = only_digits (trim_prefix (trim_space s) (codes "+")) in
    let digits_lem = keep-IsDigits (trim_prefix (trim_space s) (codes "+")) in
    elim (Bool-cases (looks_like_e164 digits)) [
      | inl e ↦ rw e (digits_lem, sym (looks_like_e164_digits digits digits_lem) ∙ e)
      | inr e ↦ absurd (cc (rw e at h))
    ]

-- At most 10000 entries, each a number.
abbrev pub IsImportable : Parsed → Type 0
IsImportable (parsed es ws) = (length es ≤ max_rows) × All IsNumber es
IsImportable rejected = Unit

bulk_tokens-All :
    (line : ℕ) (raw : Bytes) (ts : List Bytes) (behind : List Entry × List Warning)
    → All IsNumber behind.0
    → All IsNumber (bulk_tokens line raw ts behind).0
unfolding bulk_tokens
bulk_tokens-All line raw [] behind h = h
bulk_tokens-All line raw (t ∷ ts) behind h = elim (Bool-cases (is_empty (normalize_e164 t))) [
  | inl e ↦ rw e (bulk_tokens-All line raw ts behind h)
  | inr e ↦ rw e (normalize_e164-IsNumber t e, bulk_tokens-All line raw ts behind h)
]

bulk_lines-All : (line : ℕ) (ls : List Bytes) → All IsNumber (bulk_lines line ls).0
unfolding bulk_lines
bulk_lines-All line [] = tt
bulk_lines-All line (raw ∷ ls) =
    elim (Bool-cases (is_empty (trim_space raw) || has_prefix (trim_space raw) (codes "#"))) [
      | inl e ↦ rw e (bulk_lines-All (suc line) ls)
      | inr e ↦ rw e (
          bulk_tokens-All line raw (fields_by is_separator (trim_space raw))
            (bulk_lines (suc line) ls) (bulk_lines-All (suc line) ls))
    ]

bulk_result-IsImportable :
    (r : List Entry × List Warning) → All IsNumber r.0 → IsImportable (bulk_result r)
bulk_result-IsImportable ([], []) h = tt
bulk_result-IsImportable ([], w ∷ ws) h = (omega arith, tt)
bulk_result-IsImportable (e ∷ es, ws) h = elim (Bool-cases (ltb max_rows (length (e ∷ es)))) [
  | inl b ↦ rw b tt
  | inr b ↦ rw b (ground (arith, b), h)
]

-- ParseBulk accepts at most 10000 entries, and only numbers of 6 to 15 digits.
pub parse_bulk-IsImportable : (text : Bytes) → IsImportable (parse_bulk text)
unfolding parse_bulk
parse_bulk-IsImportable text =
    let ls = split_by (λ c. c == 10) text in
    bulk_result-IsImportable (bulk_lines 1 ls) (bulk_lines-All 1 ls)

-- What the rows behind `count` entries may add.
abbrev IsWithin : ℕ → Option (List Entry × List Warning) → Type 0
IsWithin count none = Unit
IsWithin count (some (es, ws)) = (count ≤ max_rows → count + length es ≤ max_rows) × All IsNumber es

abbrev IsSound : Verdict → Type 0
IsSound blank = Unit
IsSound (refused w) = Unit
IsSound (accepted e ws) = IsNumber e

verdict-IsSound : (r : ℕ) (cols : Columns) (row : List Bytes) → IsSound (verdict r cols row)
unfolding verdict
verdict-IsSound r cols row = elim (Bool-cases (is_empty (normalize_e164 (cell row cols.e164)))) [
  | inl e ↦
      rw e (elim (Bool-cases (is_empty (cell row cols.e164))) [ inl b ↦ rw b tt | inr b ↦ rw b tt ])
  | inr e ↦ rw e (normalize_e164-IsNumber (cell row cols.e164) e)
]

add_row-IsWithin :
    (v : Verdict) (count : ℕ) (o : Option (List Entry × List Warning))
    → IsSound v
    → IsWithin (count_after v count) o
    → IsWithin count (add_row v count o)
add_row-IsWithin v count none s h = tt
add_row-IsWithin blank count (some (es, ws)) s h = h
add_row-IsWithin (refused w) count (some (es, ws)) s h = h
add_row-IsWithin (accepted e more) count (some (es, ws)) s (h, all) =
    elim (Bool-cases (ltb max_rows (suc count))) [
      | inl b ↦ rw b tt
      | inr b ↦
          let fits : suc count ≤ max_rows = ground (arith, b) in
          rw b ((λ small. omega (arith, h fits)), (s, all))
    ]

csv_rows-IsWithin :
    (cols : Columns) (r count : ℕ) (rows : List (List Bytes))
    → IsWithin count (csv_rows cols r count rows)
unfolding csv_rows
csv_rows-IsWithin cols r count [] = ((λ h. omega (arith, h)), tt)
csv_rows-IsWithin cols r count (row ∷ rows) =
    let v = verdict r cols row in
    add_row-IsWithin v count (csv_rows cols (suc r) (count_after v count) rows)
      (verdict-IsSound r cols row) (csv_rows-IsWithin cols (suc r) (count_after v count) rows)

csv_result-IsImportable :
    (o : Option (List Entry × List Warning)) → IsWithin 0 o → IsImportable (csv_result o)
csv_result-IsImportable none h = tt
csv_result-IsImportable (some ([], ws)) h = tt
csv_result-IsImportable (some (e ∷ es, ws)) (h, all) =
    let few = h (omega arith) in (omega (arith, few), all)

csv_body-IsImportable :
    (cols : Columns) (i : Option ℕ) (rows : List (List Bytes)) → IsImportable (csv_body cols i rows)
csv_body-IsImportable cols none rows = tt
csv_body-IsImportable cols (some i) rows =
    csv_result-IsImportable (csv_rows cols 2 0 rows) (csv_rows-IsWithin cols 2 0 rows)

csv_clean-IsImportable : (rows : List (List Bytes)) → IsImportable (csv_clean rows)
unfolding csv_clean
csv_clean-IsImportable [] = tt
csv_clean-IsImportable (row ∷ rows) =
    let named = columns_of 0 row no_columns in
    elim (Bool-cases (looks_like_e164 (first_cell row))) [
      | inl e ↦ rw e (
          csv_result-IsImportable (csv_rows natural_order 1 0 (row ∷ rows))
            (csv_rows-IsWithin natural_order 1 0 (row ∷ rows)))
      | inr e ↦ rw e (csv_body-IsImportable named named.e164 rows)
    ]

-- ParseCSV accepts at most 10000 entries, and only numbers of 6 to 15 digits, whatever the columns.
pub parse_csv-IsImportable : (file : Option (List (List Bytes))) → IsImportable (parse_csv file)
unfolding parse_csv
parse_csv-IsImportable none = tt
parse_csv-IsImportable (some rows) =
    csv_clean-IsImportable (keep (λ row. not (is_comment row)) rows)
