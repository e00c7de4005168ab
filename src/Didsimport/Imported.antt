-- ===== src/Didsimport/Imported.antt =====
-- A range from the form to the table: ParseRange of internal/didsimport/parsers.go and Run of
-- worker.go.
use didstorageapp.Prelude.{
  ℕ, zero, suc, ◌+◌, ◌-◌, ◌^◌, ◌≤◌, ◌<◌, ◌≡◌, ◌≢◌, Bool, true, false, ◌&&◌, not, some, List, [],
  ◌∷◌, All, ◌==◌, if◌then◌else◌, arith, sym, subst, ◌∙◌, Bool-cases, inl, inr,
}
use didstorageapp.Prelude.Text.{Bytes, is_empty, decimal}
use didstorageapp.Prelude.Int.{ℤ}
use didstorageapp.Strconv.{format_int64}
use didstorageapp.Didsimport.Worker.{Entry, Job, Row, is_known, run}
use didstorageapp.Didsimport.Worker.Laws.{Present, run-Present}
use didstorageapp.Didsimport.Parsers.{
  max_rows, only_digits, parsed, rejected, plain_entry, parse_range,
}
use didstorageapp.Didsimport.Ranges.{numbers, last_value, is_range, parse_range_ends}

-- What holds of all numbers from `a` on holds of each.
numbers-All :
    (P : Entry → Type 0) (a k n : ℕ)
    → All P (numbers a k)
    → a ≤ n
    → n < a + k
    → P (plain_entry (format_int64 n))
unfolding numbers
numbers-All P a zero n all low high = absurd (omega (arith, low, high))
numbers-All P a (suc k) n (first, rest) low high = elim (Bool-cases (n == a)) [
  | inl e ↦
      let same_number : a ≡ n = ground (arith, e) in
      subst (λ x. P (plain_entry (format_int64 x))) same_number first
  | inr e ↦
      let above : a + 1 ≤ n = ground (arith, e, low) in
      numbers-All P (a + 1) k n rest above (omega (arith, high))
]

-- With a default country and type and a supplier no entry is incomplete.
complete_known :
    (supplier : ℕ) (country kind : Bytes) (cap : ℤ) (number : Bytes) (dids : List Row)
    → (supplier == 0) ≡ false
    → is_empty country ≡ false
    → is_empty kind ≡ false
    → Present supplier
        (record { country = country; did_type = kind; channel_cap = cap })
        dids
        (plain_entry number)
    → is_known number dids ≡ true
complete_known supplier [] kind cap number dids s c t h = absurd (cc)
complete_known supplier (x ∷ country) [] cap number dids s c t h = absurd (cc)
complete_known supplier (x ∷ country) (y ∷ kind) cap number dids s c t h = rw s at h

entries_of :
    (b : Bool) (l es : List Entry)
    → some (if b then parsed l [] else rejected) ≡ some (parsed es [])
    → es ≡ l
entries_of true l es h = cc (h)
entries_of false l es h = absurd (cc (h))

-- A range that the form asks for and ParseRange accepts, imported with a default country and type
-- and a supplier, not cancelled and into a database that refuses nothing: every number from the
-- first to the last is in the table.
pub run-parse_range :
    (fuel : ℕ) (start end : Bytes) (es : List Entry) (cancelled : ℕ → Bool)
    (refuses : List Row → Row → Bool) (job : Job) (dids : List Row) (n : ℕ)
    → max_rows < fuel
    → last_value start end ≢ 2 ^ 63 - 1
    → parse_range fuel start end ≡ some (parsed es [])
    → (job.supplier_id == 0) ≡ false
    → is_empty job.defaults.country ≡ false
    → is_empty job.defaults.did_type ≡ false
    → job.processed ≡ 0
    → ((k : ℕ) → cancelled k ≡ false)
    → ((d : List Row) (x : Row) → refuses d x ≡ false)
    → decimal 0 (only_digits start) ≤ n
    → n ≤ last_value start end
    → is_known (format_int64 n) (run cancelled refuses es [] (job, dids)).1 ≡ true
run-parse_range fuel start end es cancelled refuses job dids n enough last read s c t p go ok low
      high =
    let a = decimal 0 (only_digits start) in
    let b = last_value start end in
    let listed : es ≡ numbers a (b - a + 1) =
      entries_of (not (is_empty (only_digits start)) && is_range a b) (numbers a (b - a + 1)) es
        (sym (parse_range_ends fuel start end enough last) ∙ read) in
    let all = (run-Present cancelled refuses es [] job dids p go ok).2 in
    complete_known job.supplier_id job.defaults.country job.defaults.did_type
      job.defaults.channel_cap (format_int64 n) (run cancelled refuses es [] (job, dids)).1 s c t
      (numbers-All
        (Present job.supplier_id job.defaults (run cancelled refuses es [] (job, dids)).1) a
        (b - a + 1) n
        (subst
          (All (Present job.supplier_id job.defaults (run cancelled refuses es [] (job, dids)).1))
          listed all)
        low (omega (arith, low, high)))
