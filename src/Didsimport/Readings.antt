-- ===== src/Didsimport/Readings.antt =====
-- Concrete lists of numbers, and the theorems on the readers at them.
use didstorageapp.Prelude.{true, false, ◌≡◌, some, none, List, [], ◌∷◌, refl, arith}
use didstorageapp.Prelude.Text.{Bytes, codes, decimal}
use didstorageapp.Strconv.{format_int64, digits_of}
use didstorageapp.Didsimport.Parsers.{parse_range, parsed, plain_entry, range_loop}
use didstorageapp.Prelude.Int.{pos}
use didstorageapp.Didsimport.Worker.{Job, pending, is_known, run}
use didstorageapp.Didsimport.Imported.{run-parse_range}
use didstorageapp.Didsimport.Csv.{parse_csv}
use didstorageapp.Didsimport.Numbers.{IsImportable, parse_csv-IsImportable}
use didstorageapp.Didsimport.Ranges.{numbers, range_asked, parse_range_ends, parse_range_runs}

-- Two numbers, from a form with a plus and blanks.
two_numbers :
    parse_range 3 (codes "+44 2001") (codes "442002")
    ≡ some (parsed (plain_entry (codes "442001") ∷ plain_entry (codes "442002") ∷ []) [])
unfolding parse_range range_loop digits_of decimal
two_numbers = refl

parse_range_ends_example :
    parse_range 10001 (codes "442001") (codes "442002")
    ≡ some (range_asked (codes "442001") (codes "442002"))
unfolding decimal
parse_range_ends_example =
    parse_range_ends 10001 (codes "442001") (codes "442002") (omega arith)
      (λ e. absurd (omega (arith, e)))

parse_range_runs_example :
    parse_range 10001 (codes "9223372036854775800") (codes "9223372036854775807") ≡ none
unfolding decimal
parse_range_runs_example =
    parse_range_runs 10001 (codes "9223372036854775800") (codes "9223372036854775807") refl refl
      refl refl

abbrev header : List Bytes
header =
    codes "e164"
    ∷ codes "country_iso"
    ∷ codes "did_type"
    ∷ codes "supplier_id"
    ∷ codes "channel_cap"
    ∷ []

abbrev british : List Bytes
british = codes "442038968001" ∷ codes "GB" ∷ codes "mobile" ∷ [] ∷ [] ∷ []

parse_csv-IsImportable_example : IsImportable (parse_csv (some (header ∷ british ∷ [])))
parse_csv-IsImportable_example = parse_csv-IsImportable (some (header ∷ british ∷ []))

abbrev job : Job
job = record {
  supplier_id = 4;
  defaults = record { country = codes "GB"; did_type = codes "mobile"; channel_cap = pos 0 };
  status = pending;
  total = 0;
  added = 0;
  skipped = 0;
  errors = 0;
  processed = 0;
  events = [];
}

run-parse_range_example :
    is_known
      (format_int64 442002)
      (run (λ i. false) (λ d x. false) (numbers 442001 2) [] (job, [])).1
    ≡ true
unfolding decimal
run-parse_range_example =
    run-parse_range 10001 (codes "442001") (codes "442002") (numbers 442001 2) (λ i. false)
      (λ d x. false) job [] 442002 (omega arith) (λ e. absurd (omega (arith, e)))
      (parse_range_ends 10001 (codes "442001") (codes "442002") (omega arith)
        (λ e. absurd (omega (arith, e))))
      refl refl refl refl (λ k. refl) (λ d x. refl) (omega arith) (omega arith)
