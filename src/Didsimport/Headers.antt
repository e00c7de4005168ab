-- ===== src/Didsimport/Headers.antt =====
-- A file with a header and a file without one, read by ParseCSV of internal/didsimport/parsers.go.
use didstorageapp.Prelude.{
  ℕ, suc, ◌≡◌, true, false, not, Option, none, some, List, [], ◌∷◌, keep, ltb, if◌then◌else◌, refl,
  arith, Bool-cases, Option-cases, inl, inr, ap, sym, ◌∙◌,
}
use didstorageapp.Prelude.Text.{Bytes, is_empty, to_lower}
use didstorageapp.Prelude.Int.{ltb_ℤ, pos}
use didstorageapp.Strconv.{parse_int64}
use didstorageapp.Didsimport.Worker.{Entry}
use didstorageapp.Didsimport.Parsers.{
  max_rows, looks_like_e164, normalize_e164, Warning, Parsed, parsed, rejected,
}
use didstorageapp.Didsimport.Csv.{
  Columns, Verdict, blank, refused, accepted, verdict, count_after, add_row, csv_rows, csv_result,
  csv_clean, parse_csv, columns_of, no_columns, natural_order, first_cell, is_comment, cell,
  type_in, supplier_in,
}

-- The entries of a result, and `none` for a refusal.
abbrev pub entries : Parsed → Option (List Entry)
entries (parsed es ws) = some es
entries rejected = none

abbrev firsts : Option (List Entry × List Warning) → Option (List Entry)
firsts none = none
firsts (some (es, ws)) = some es

-- A verdict without its warnings, which carry the row's number.
abbrev gist : Verdict → Option Entry
gist blank = none
gist (refused w) = none
gist (accepted e ws) = some e

gist-verdict :
    (r r' : ℕ) (cols : Columns) (row : List Bytes)
    → gist (verdict r cols row) ≡ gist (verdict r' cols row)
unfolding verdict
gist-verdict r r' cols row = elim (Bool-cases (is_empty (normalize_e164 (cell row cols.e164)))) [
  | inl e ↦
      rw e (elim (Bool-cases (is_empty (cell row cols.e164))) [
        | inl b ↦ rw b refl
        | inr b ↦ rw b refl
      ])
  | inr e ↦
      rw
        (
          e,
          same_type (to_lower (cell row cols.did_type)),
          same_supplier (cell row cols.supplier_id),
        )
        refl
]
  where
    same_type : (v : Bytes) → (type_in r v).0 ≡ (type_in r' v).0
    same_type v = ground arith

    same_supplier : (v : Bytes) → (supplier_in r v).0 ≡ (supplier_in r' v).0
    same_supplier v = elim (Bool-cases (is_empty v)) [
      | inl e ↦ rw e refl
      | inr e ↦ rw e (elim (Option-cases (parse_int64 v)) [
        | inl n ↦ rw n refl
        | inr (k, n) ↦
            rw n (elim (Bool-cases (ltb_ℤ (pos 0) k)) [ inl b ↦ rw b refl | inr b ↦ rw b refl ])
      ])
    ]

abbrev count_by : Option Entry → ℕ → ℕ
count_by none count = count
count_by (some e) count = suc count

abbrev add_by : Option Entry → ℕ → Option (List Entry) → Option (List Entry)
add_by g count none = none
add_by none count (some es) = some es
add_by (some e) count (some es) = if ltb max_rows (suc count) then none else some (e ∷ es)

count_after-gist : (v : Verdict) (count : ℕ) → count_after v count ≡ count_by (gist v) count
count_after-gist blank count = refl
count_after-gist (refused w) count = refl
count_after-gist (accepted e ws) count = refl

firsts-add_row :
    (v : Verdict) (count : ℕ) (o : Option (List Entry × List Warning))
    → firsts (add_row v count o) ≡ add_by (gist v) count (firsts o)
firsts-add_row v count none = refl
firsts-add_row blank count (some (es, ws)) = refl
firsts-add_row (refused w) count (some (es, ws)) = refl
firsts-add_row (accepted e more) count (some (es, ws)) =
    elim (Bool-cases (ltb max_rows (suc count))) [ inl b ↦ rw b refl | inr b ↦ rw b refl ]

-- The numbers of the rows stand in the warnings only.
firsts-csv_rows :
    (cols : Columns) (r r' count : ℕ) (rows : List (List Bytes))
    → firsts (csv_rows cols r count rows) ≡ firsts (csv_rows cols r' count rows)
unfolding csv_rows
firsts-csv_rows cols r r' count [] = refl
firsts-csv_rows cols r r' count (row ∷ rows) =
    let v = verdict r cols row in
    let v' = verdict r' cols row in
    let g = gist-verdict r r' cols row in
    firsts-add_row v count (csv_rows cols (suc r) (count_after v count) rows)
    ∙ rw
        (
          count_after-gist v count,
          g,
          firsts-csv_rows cols (suc r) (suc r') (count_by (gist v') count) rows,
        )
        (rw (← count_after-gist v' count)
          (sym (firsts-add_row v' count (csv_rows cols (suc r') (count_after v' count) rows))))

entries-csv_result :
    (o o' : Option (List Entry × List Warning))
    → firsts o ≡ firsts o'
    → entries (csv_result o) ≡ entries (csv_result o')
entries-csv_result o o' h = by_firsts o ∙ ap of_firsts h ∙ sym (by_firsts o')
  where
    of_firsts : Option (List Entry) → Option (List Entry)
    of_firsts none = none
    of_firsts (some []) = none
    of_firsts (some (e ∷ es)) = some (e ∷ es)

    by_firsts :
        (o : Option (List Entry × List Warning)) → entries (csv_result o) ≡ of_firsts (firsts o)
    by_firsts none = refl
    by_firsts (some ([], ws)) = refl
    by_firsts (some (e ∷ es, ws)) = refl

-- A file whose first row is a number is read like the same file under a header that names the
-- columns in the natural order: with the same entries, or refused alike.
pub parse_csv_header :
    (names : List Bytes) (rows : List (List Bytes)) (row : List Bytes) (behind : List (List Bytes))
    → is_comment names ≡ false
    → looks_like_e164 (first_cell names) ≡ false
    → columns_of 0 names no_columns ≡ natural_order
    → keep (λ r. not (is_comment r)) rows ≡ row ∷ behind
    → looks_like_e164 (first_cell row) ≡ true
    → entries (parse_csv (some (names ∷ rows))) ≡ entries (parse_csv (some rows))
unfolding parse_csv csv_clean
parse_csv_header names rows row behind kept named natural rest first =
    rw (kept, named, natural, rest, first)
      (entries-csv_result (csv_rows natural_order 2 0 (row ∷ behind))
        (csv_rows natural_order 1 0 (row ∷ behind))
        (firsts-csv_rows natural_order 2 1 0 (row ∷ behind)))
