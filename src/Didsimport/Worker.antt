-- ===== src/Didsimport/Worker.antt =====
-- Run of internal/didsimport/worker.go with its counters of internal/didsimport/job.go. The events
-- on show are the row events; the init, progress and done events repeat the counters. `cancelled i`
-- says that the context is done before row `i`, and `refuses` that the INSERT of a row into the
-- table fails.
pub mod Laws
use didstorageapp.Prelude.{
  ℕ, suc, zero, ◌+◌, Bool, true, false, ◌||◌, Option, none, some, List, [], ◌∷◌, any, length, ◌==◌,
  if◌then◌else◌,
}
use didstorageapp.Prelude.Text.{Bytes, same, is_empty}
use didstorageapp.Prelude.Int.{ℤ, pos, negsuc}
use didstorageapp.Didsimport.Prefixes.{match_country}

pub record Entry : Type 0 where
  pub e164 : Bytes
  pub country : Bytes
  pub did_type : Bytes
  pub supplier_id : ℕ
  pub channel_cap : ℤ

pub record Defaults : Type 0 where
  pub country : Bytes
  pub did_type : Bytes
  pub channel_cap : ℤ

pub data Status : Type 0 where
  pending running finished errored : Status

pub data RowStatus : Type 0 where
  row_added row_skipped row_error : RowStatus

pub record Job : Type 0 where
  pub supplier_id : ℕ
  pub defaults : Defaults
  pub status : Status
  pub total : ℕ
  pub added : ℕ
  pub skipped : ℕ
  pub errors : ℕ
  pub processed : ℕ
  pub events : List (Bytes × RowStatus)

-- A row of dids, new ones with the status available.
pub record Row : Type 0 where
  pub e164 : Bytes
  pub supplier_id : ℕ
  pub country_iso : Bytes
  pub did_type : Bytes
  pub supplier_channel_cap : ℤ

abbrev pub or_default : Bytes → Bytes → Bytes
or_default [] fallback = fallback
or_default (c ∷ s) fallback = c ∷ s

abbrev pub detected : Option Bytes → Bytes
detected none = []
detected (some iso) = iso

abbrev pub cap_or : ℤ → ℤ → ℤ
cap_or (pos zero) fallback = fallback
cap_or cap fallback = cap

-- The row of an entry, with the defaults of the job.
abbrev pub row_of : ℕ → Defaults → Entry → Row
row_of supplier defaults e = record {
  e164 = e.e164;
  supplier_id = if e.supplier_id == 0 then supplier else e.supplier_id;
  country_iso =
      or_default e.country (or_default defaults.country (detected (match_country e.e164)));
  did_type = or_default e.did_type defaults.did_type;
  supplier_channel_cap = cap_or (cap_or e.channel_cap defaults.channel_cap) (negsuc 0);
}

abbrev pub is_incomplete : Row → Bool
is_incomplete r = is_empty r.country_iso || is_empty r.did_type || r.supplier_id == 0

abbrev pub is_known : Bytes → List Row → Bool
is_known number dids = any (λ (r : Row). same r.e164 number) dids

abbrev pub note_row : Bytes → RowStatus → Job → Job
note_row number row_added job = record job {
  added = suc job.added;
  processed = suc job.processed;
  events = (number, row_added) ∷ job.events;
}
note_row number row_skipped job = record job {
  skipped = suc job.skipped;
  processed = suc job.processed;
  events = (number, row_skipped) ∷ job.events;
}
note_row number row_error job = record job {
  errors = suc job.errors;
  processed = suc job.processed;
  events = (number, row_error) ∷ job.events;
}

-- One row: validation, then INSERT .. ON CONFLICT (e164) DO NOTHING.
unfoldable pub import_row : (List Row → Row → Bool) → Row → Job × List Row → Job × List Row
import_row refuses r (job, dids) =
    if is_incomplete r
    then (note_row r.e164 row_error job, dids)
    else if refuses dids r
    then (note_row r.e164 row_error job, dids)
    else if is_known r.e164 dids
    then (note_row r.e164 row_skipped job, dids)
    else (note_row r.e164 row_added job, r ∷ dids)

abbrev pub finish : Status → Job × List Row → Job × List Row
finish s (job, dids) = (record job { status = s }, dids)

unfoldable pub import_rows :
    (ℕ → Bool) → (List Row → Row → Bool) → ℕ → List Entry → Job × List Row → Job × List Row
unfolding import_row
import_rows cancelled refuses i [] (job, dids) = finish finished (job, dids)
import_rows cancelled refuses i (e ∷ entries) (job, dids) =
    let rest =
      import_rows cancelled refuses (suc i) entries
        (import_row refuses (row_of job.supplier_id job.defaults e) (job, dids)) in
    if cancelled i then finish errored (job, dids) else rest

-- The warnings of the parser count as errors, and not as processed rows.
abbrev pub replay : List Bytes → Job → Job
replay [] job = job
replay (w ∷ ws) job =
    replay ws (record job { errors = suc job.errors; events = ([], row_error) ∷ job.events })

unfoldable pub run :
    (ℕ → Bool) → (List Row → Row → Bool) → List Entry → List Bytes → Job × List Row → Job × List Row
unfolding import_rows
run cancelled refuses entries warnings (job, dids) =
    import_rows cancelled refuses 0 entries
      (replay warnings (record job { total = length entries; status = running }), dids)
