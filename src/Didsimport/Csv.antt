-- ===== src/Didsimport/Csv.antt =====
-- ParseCSV of internal/didsimport/parsers.go. The records are as encoding/csv reads them, without
-- those that are empty; `none` is a file that it refuses.
use didstorageapp.Prelude.{
  ℕ, suc, Bool, false, ◌||◌, not, Option, none, some, List, [], ◌∷◌, ◌++◌, length, keep, get_elem?,
  ◌==◌, ltb, if◌then◌else◌,
}
use didstorageapp.Prelude.Text.{
  Bytes, codes, same, is_empty, has_prefix, trim_space, to_lower, to_upper,
}
use didstorageapp.Prelude.Int.{ℤ, pos, negsuc, ltb_ℤ, pos_part}
use didstorageapp.Strconv.{parse_int64}
use didstorageapp.Didsimport.Worker.{Entry}
use didstorageapp.Didsimport.Parsers.{
  max_rows, looks_like_e164, normalize_e164, Warning, not_a_number, unknown_type, bad_supplier,
  Parsed, parsed, rejected,
}

-- Where the columns stand.
pub record Columns : Type 0 where
  pub e164 : Option ℕ
  pub country : Option ℕ
  pub did_type : Option ℕ
  pub supplier_id : Option ℕ
  pub channel_cap : Option ℕ

abbrev pub no_columns : Columns
no_columns = record {
  e164 = none;
  country = none;
  did_type = none;
  supplier_id = none;
  channel_cap = none;
}

abbrev pub natural_order : Columns
natural_order = record {
  e164 = some 0;
  country = some 1;
  did_type = some 2;
  supplier_id = some 3;
  channel_cap = some 4;
}

abbrev pub one_of : List Bytes → Bytes → Bool
one_of [] key = false
one_of (n ∷ ns) key = same key n || one_of ns key

abbrev pub note_column : ℕ → Bytes → Columns → Columns
note_column i key cols =
    if one_of (codes "e164" ∷ codes "number" ∷ codes "did" ∷ codes "phone" ∷ codes "msisdn" ∷ [])
      key
    then record cols { e164 = some i }
    else if one_of (codes "country" ∷ codes "country_iso" ∷ codes "iso" ∷ codes "cc" ∷ []) key
    then record cols { country = some i }
    else if one_of (codes "did_type" ∷ codes "type" ∷ codes "kind" ∷ []) key
    then record cols { did_type = some i }
    else if one_of (codes "supplier_id" ∷ codes "supplier" ∷ []) key
    then record cols { supplier_id = some i }
    else if one_of
        (codes "channel_cap" ∷ codes "supplier_channel_cap" ∷ codes "channels" ∷ codes "cap" ∷ [])
        key
    then record cols { channel_cap = some i }
    else cols

-- A later column of the same meaning takes the place of an earlier one.
unfoldable pub columns_of : ℕ → List Bytes → Columns → Columns
columns_of i [] cols = cols
columns_of i (name ∷ names) cols =
    columns_of (suc i) names (note_column i (to_lower (trim_space name)) cols)

abbrev pub trimmed : Option Bytes → Bytes
trimmed none = []
trimmed (some c) = trim_space c

abbrev pub cell : List Bytes → Option ℕ → Bytes
cell row none = []
cell row (some i) = trimmed (get_elem? row i)

abbrev pub country_in : Bytes → Bytes
country_in v = if length (to_upper v) == 2 then to_upper v else []

abbrev pub is_did_type : Bytes → Bool
is_did_type v =
    one_of
      (codes "mobile"
        ∷ codes "national"
        ∷ codes "local"
        ∷ codes "tollfree"
        ∷ codes "toll_free"
        ∷ codes "toll-free"
        ∷ [])
      v

abbrev pub plain_type : Bytes → Bytes
plain_type v = if one_of (codes "toll_free" ∷ codes "toll-free" ∷ []) v then codes "tollfree" else v

abbrev pub type_in : ℕ → Bytes → Bytes × List Warning
type_in r v =
    if is_empty v
    then ([], [])
    else if is_did_type v
    then (plain_type v, [])
    else ([], unknown_type r v ∷ [])

abbrev pub supplier_of : ℕ → Bytes → Option ℤ → ℕ × List Warning
supplier_of r v none = (0, bad_supplier r v ∷ [])
supplier_of r v (some n) = if ltb_ℤ (pos 0) n then (pos_part n, []) else (0, bad_supplier r v ∷ [])

abbrev pub supplier_in : ℕ → Bytes → ℕ × List Warning
supplier_in r v = if is_empty v then (0, []) else supplier_of r v (parse_int64 v)

abbrev pub cap_of : Option ℤ → ℤ
cap_of none = pos 0
cap_of (some n) = if ltb_ℤ n (pos 1) then negsuc 0 else n

-- An empty cell, or one that is no number, is the cap 0: the default.
abbrev pub cap_in : Bytes → ℤ
cap_in v = if is_empty v then pos 0 else cap_of (parse_int64 v)

-- What becomes of a row.
pub data Verdict : Type 0 where
  blank : Verdict
  refused : Warning → Verdict
  accepted : Entry → List Warning → Verdict

abbrev pub accept :
    ℕ → Columns → List Bytes → Bytes → Bytes × List Warning → ℕ × List Warning → Verdict
accept r cols row number (kind, type_warnings) (supplier, supplier_warnings) =
    accepted
      (record {
        e164 = number;
        country = country_in (cell row cols.country);
        did_type = kind;
        supplier_id = supplier;
        channel_cap = cap_in (cell row cols.channel_cap);
      })
      (type_warnings ++ supplier_warnings)

unfoldable pub verdict : ℕ → Columns → List Bytes → Verdict
verdict r cols row =
    if is_empty (normalize_e164 (cell row cols.e164))
    then (if is_empty (cell row cols.e164)
        then blank
        else refused (not_a_number r (cell row cols.e164)))
    else accept r cols row (normalize_e164 (cell row cols.e164))
        (type_in r (to_lower (cell row cols.did_type))) (supplier_in r (cell row cols.supplier_id))

abbrev pub count_after : Verdict → ℕ → ℕ
count_after (accepted e ws) count = suc count
count_after _ count = count

-- The entries and warnings from a row on; `none` is an entry too many.
abbrev pub add_row :
    Verdict → ℕ → Option (List Entry × List Warning) → Option (List Entry × List Warning)
add_row v count none = none
add_row blank count (some (es, ws)) = some (es, ws)
add_row (refused w) count (some (es, ws)) = some (es, w ∷ ws)
add_row (accepted e more) count (some (es, ws)) =
    if ltb max_rows (suc count) then none else some (e ∷ es, more ++ ws)

-- The rows from number `r`, behind `count` entries.
unfoldable pub csv_rows : Columns → ℕ → ℕ → List (List Bytes) → Option (List Entry × List Warning)
unfolding verdict
csv_rows cols r count [] = some ([], [])
csv_rows cols r count (row ∷ rows) =
    add_row (verdict r cols row) count
      (csv_rows cols (suc r) (count_after (verdict r cols row) count) rows)

abbrev pub csv_result : Option (List Entry × List Warning) → Parsed
csv_result none = rejected
csv_result (some ([], ws)) = rejected
csv_result (some (e ∷ es, ws)) = parsed (e ∷ es) ws

abbrev pub first_cell : List Bytes → Bytes
first_cell [] = []
first_cell (c ∷ cs) = c

abbrev pub is_comment : List Bytes → Bool
is_comment row = has_prefix (trim_space (first_cell row)) (codes "#")

-- Behind a header that names the number's column.
abbrev pub csv_body : Columns → Option ℕ → List (List Bytes) → Parsed
csv_body cols none rows = rejected
csv_body cols (some i) rows = csv_result (csv_rows cols 2 0 rows)

unfoldable pub csv_clean : List (List Bytes) → Parsed
unfolding csv_rows columns_of
csv_clean [] = rejected
csv_clean (row ∷ rows) =
    let named = columns_of 0 row no_columns in
    if looks_like_e164 (first_cell row)
    then csv_result (csv_rows natural_order 1 0 (row ∷ rows))
    else csv_body named named.e164 rows

unfoldable pub parse_csv : Option (List (List Bytes)) → Parsed
unfolding csv_clean
parse_csv none = rejected
parse_csv (some rows) = csv_clean (keep (λ row. not (is_comment row)) rows)
