-- ===== src/Didsimport/Worker/Laws.antt =====
-- The counters of an import, and the numbers that it leaves in the table.
use didstorageapp.Prelude.{
  ℕ, suc, ◌+◌, ◌≡◌, Bool, true, false, ◌||◌, List, [], ◌∷◌, All, length, refl, sym, subst, arith,
  Bool-cases, inl, inr,
}
use didstorageapp.Prelude.Text.{Bytes, same_refl}
use didstorageapp.Didsimport.Worker.{
  Entry, Defaults, Job, Row, running, row_error, finished, row_of, is_incomplete, is_known,
  import_row, import_rows, replay, run,
}

-- What the rows handled so far add up to: `w` warnings, and `n` rows in the table at the start.
abbrev Balanced : ℕ → ℕ → Job × List Row → Type 0
Balanced w n (job, dids) =
    (job.added + job.skipped + job.errors ≡ job.processed + w) × (length dids ≡ n + job.added)

import_row-Balanced :
    (refuses : List Row → Row → Bool) (r : Row) (job : Job) (dids : List Row) (w n : ℕ)
    → Balanced w n (job, dids)
    → Balanced w n (import_row refuses r (job, dids))
      × ((import_row refuses r (job, dids)).0.processed ≡ suc job.processed)
unfolding import_row
import_row-Balanced refuses r job dids w n h = ground arith

replay-Balanced :
    (ws : List Bytes) (job : Job) (k : ℕ)
    → job.added + job.skipped + job.errors ≡ k
    → ((replay ws job).added + (replay ws job).skipped + (replay ws job).errors ≡ k + length ws)
      × ((replay ws job).added ≡ job.added)
      × ((replay ws job).processed ≡ job.processed)
replay-Balanced [] job k h = ground arith
replay-Balanced (w ∷ ws) job k h =
    let job' = record job { errors = suc job.errors; events = ([], row_error) ∷ job.events } in
    ground (arith, replay-Balanced ws job' (suc k) (omega (arith, h)))

import_rows-Balanced :
    (cancelled : ℕ → Bool) (refuses : List Row → Row → Bool) (i : ℕ) (entries : List Entry)
    (job : Job) (dids : List Row) (w n : ℕ)
    → Balanced w n (job, dids)
    → Balanced w n (import_rows cancelled refuses i entries (job, dids))
unfolding import_rows
import_rows-Balanced cancelled refuses i [] job dids w n h = h
import_rows-Balanced cancelled refuses i (e ∷ entries) job dids w n h =
    let r = row_of job.supplier_id job.defaults e in
    let next = import_row refuses r (job, dids) in
    elim (Bool-cases (cancelled i)) [
      | inl stop ↦ rw stop h
      | inr go ↦ rw go (
          import_rows-Balanced cancelled refuses (suc i) entries next.0 next.1 w n
            (import_row-Balanced refuses r job dids w n h).0)
    ]

-- However an import goes, cancelled or not, every row that it handled is counted exactly once as
-- added, skipped or failed, the parser's warnings are counted as failures besides, and the table
-- has grown by as many rows as are counted as added.
pub run-Balanced :
    (cancelled : ℕ → Bool) (refuses : List Row → Row → Bool) (entries : List Entry)
    (ws : List Bytes) (job : Job) (dids : List Row)
    → job.added ≡ 0
    → job.skipped ≡ 0
    → job.errors ≡ 0
    → job.processed ≡ 0
    → let r = run cancelled refuses entries ws (job, dids) in
      (r.0.added + r.0.skipped + r.0.errors ≡ r.0.processed + length ws)
      × (length r.1 ≡ length dids + r.0.added)
unfolding run
run-Balanced cancelled refuses entries ws job dids ha hs he hp =
    let start = record job { total = length entries; status = running } in
    import_rows-Balanced cancelled refuses 0 entries (replay ws start) dids (length ws)
      (length dids) (ground (arith, replay-Balanced ws start 0 (omega (arith, ha, hs, he)), ha, hp))

-- A row of the job's defaults that is complete is in the table.
abbrev pub Present : ℕ → Defaults → List Row → Entry → Type 0
Present supplier defaults dids e =
    (is_incomplete (row_of supplier defaults e) || is_known e.e164 dids) ≡ true

import_row-Present :
    (refuses : List Row → Row → Bool) (r : Row) (job : Job) (dids : List Row)
    → ((d : List Row) (x : Row) → refuses d x ≡ false)
    → ((is_incomplete r || is_known r.e164 (import_row refuses r (job, dids)).1) ≡ true)
      × ((import_row refuses r (job, dids)).0.supplier_id ≡ job.supplier_id)
      × ((import_row refuses r (job, dids)).0.defaults ≡ job.defaults)
unfolding import_row
import_row-Present refuses r job dids ok = elim (Bool-cases (is_incomplete r)) [
  | inl e ↦ rw e (refl, refl, refl)
  | inr e ↦
      rw (e, ok dids r)
        (elim (Bool-cases (is_known r.e164 dids)) [
          | inl k ↦ rw (k, k) (refl, refl, refl)
          | inr k ↦ rw (k, same_refl r.e164) (refl, refl, refl)
        ])
]

import_row_processed :
    (refuses : List Row → Row → Bool) (r : Row) (job : Job) (dids : List Row)
    → (import_row refuses r (job, dids)).0.processed ≡ suc job.processed
unfolding import_row
import_row_processed refuses r job dids = ground arith

known_later :
    (incomplete known later : Bool)
    → (incomplete || known) ≡ true
    → (known ≡ true → later ≡ true)
    → (incomplete || later) ≡ true
known_later true known later h k = refl
known_later false known later h k = k h

replay_frame :
    (ws : List Bytes) (job : Job)
    → ((replay ws job).processed ≡ job.processed)
      × ((replay ws job).supplier_id ≡ job.supplier_id)
      × ((replay ws job).defaults ≡ job.defaults)
replay_frame [] job = (refl, refl, refl)
replay_frame (w ∷ ws) job =
    replay_frame ws (record job { errors = suc job.errors; events = ([], row_error) ∷ job.events })

import_row-keeps :
    (refuses : List Row → Row → Bool) (r : Row) (job : Job) (dids : List Row) (number : Bytes)
    → is_known number dids ≡ true
    → is_known number (import_row refuses r (job, dids)).1 ≡ true
unfolding import_row
import_row-keeps refuses r job dids number h = ground (arith, h)

import_rows-keeps :
    (cancelled : ℕ → Bool) (refuses : List Row → Row → Bool) (i : ℕ) (entries : List Entry)
    (job : Job) (dids : List Row) (number : Bytes)
    → is_known number dids ≡ true
    → is_known number (import_rows cancelled refuses i entries (job, dids)).1 ≡ true
unfolding import_rows
import_rows-keeps cancelled refuses i [] job dids number h = h
import_rows-keeps cancelled refuses i (e ∷ entries) job dids number h =
    let r = row_of job.supplier_id job.defaults e in
    let next = import_row refuses r (job, dids) in
    elim (Bool-cases (cancelled i)) [
      | inl stop ↦ rw stop h
      | inr go ↦ rw go (
          import_rows-keeps cancelled refuses (suc i) entries next.0 next.1 number
            (import_row-keeps refuses r job dids number h))
    ]

import_rows_step :
    (cancelled : ℕ → Bool) (refuses : List Row → Row → Bool) (i : ℕ) (e : Entry)
    (entries : List Entry) (job : Job) (dids : List Row)
    → cancelled i ≡ false
    → import_rows cancelled refuses i (e ∷ entries) (job, dids)
      ≡ import_rows cancelled refuses
          (suc i)
          entries
          (import_row refuses (row_of job.supplier_id job.defaults e) (job, dids))
unfolding import_rows
import_rows_step cancelled refuses i e entries job dids h = rw h refl

import_rows-Present :
    (cancelled : ℕ → Bool) (refuses : List Row → Row → Bool) (i : ℕ) (entries : List Entry)
    (job : Job) (dids : List Row)
    → ((k : ℕ) → cancelled k ≡ false)
    → ((d : List Row) (x : Row) → refuses d x ≡ false)
    → let r = import_rows cancelled refuses i entries (job, dids) in
      (r.0.status ≡ finished)
      × (r.0.processed ≡ job.processed + length entries)
      × All (Present job.supplier_id job.defaults r.1) entries
unfolding import_rows
import_rows-Present cancelled refuses i [] job dids go ok = (refl, omega arith, tt)
import_rows-Present cancelled refuses i (e ∷ entries) job dids go ok =
    let r = row_of job.supplier_id job.defaults e in
    let next = import_row refuses r (job, dids) in
    let (here, sup, def) = import_row-Present refuses r job dids ok in
    let (done, count, rest) =
      import_rows-Present cancelled refuses (suc i) entries next.0 next.1 go ok in
    let last = import_rows cancelled refuses (suc i) entries next in
    let kept =
      known_later (is_incomplete r) (is_known e.e164 next.1) (is_known e.e164 last.1) here
        (import_rows-keeps cancelled refuses (suc i) entries next.0 next.1 e.e164) in
    subst
      (λ (x : Job × List Row).
        (x.0.status ≡ finished)
        × (x.0.processed ≡ job.processed + length (e ∷ entries))
        × All (Present job.supplier_id job.defaults x.1) (e ∷ entries))
      (sym (import_rows_step cancelled refuses i e entries job dids (go i)))
      (
        done,
        omega (arith, count, import_row_processed refuses r job dids),
        (kept, rw (sup, def) at rest),
      )

-- An import that is not cancelled, into a database that refuses nothing, finishes, counts every
-- entry as processed, and leaves the number of every entry in the table whose row, with the job's
-- defaults and the country of its prefix, has a country, a type and a supplier.
pub run-Present :
    (cancelled : ℕ → Bool) (refuses : List Row → Row → Bool) (entries : List Entry)
    (ws : List Bytes) (job : Job) (dids : List Row)
    → job.processed ≡ 0
    → ((k : ℕ) → cancelled k ≡ false)
    → ((d : List Row) (x : Row) → refuses d x ≡ false)
    → let r = run cancelled refuses entries ws (job, dids) in
      (r.0.status ≡ finished)
      × (r.0.processed ≡ length entries)
      × All (Present job.supplier_id job.defaults r.1) entries
unfolding run
run-Present cancelled refuses entries ws job dids hp go ok =
    let start = record job { total = length entries; status = running } in
    let (done, count, all) =
      import_rows-Present cancelled refuses 0 entries (replay ws start) dids go ok in
    let (p, sup, def) = replay_frame ws start in
    (done, omega (arith, count, p, hp), rw (sup, def) at all)
