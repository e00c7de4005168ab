-- ===== src/Snapshots.antt =====
-- The caches of two tables in memory, internal/causes/causes.go and internal/settings/settings.go.
-- Both keep a map of the rows by their key, which a reload swaps for a new one. Readers and writers
-- hold the lock of the map, so an operation is one step.
pub mod Keyed
pub mod Causes
pub mod Settings
mod Examples
use didstorageapp.Prelude.{
  ℕ, Bool, true, false, ◌&&◌, ◌||◌, not, ltb, Option, none, some, List, [], ◌∷◌, find, take,
  if◌then◌else◌,
}
use didstorageapp.Prelude.Text.{Bytes, same}

-- How the query of a reload ends: with an error, at once or at a row that does not scan, or after
-- some rows. `rows.Err` is not asked, so rows that the connection did not bring are not missed.
pub data Fetch : Type 0 where
  query_error scan_error all_rows : Fetch
  first_rows : ℕ → Fetch

-- What an operation answers: an error of the caller, one of the database, or none.
pub data WriteAnswer : Type 0 where
  stored rejected failed : WriteAnswer

-- `s < t` on strings
abbrev pub ltb_text : Bytes → Bytes → Bool
ltb_text [] [] = false
ltb_text [] (d ∷ t) = true
ltb_text (c ∷ s) [] = false
ltb_text (c ∷ s) (d ∷ t) = ltb c d || not (ltb d c) && ltb_text s t

module _ {A : Type 0} (key : A → Bytes) where
  abbrev pub find_key : Bytes → List A → Option A
  find_key k xs = find (λ a. same (key a) k) xs

  -- The row `x`, or the change `f` of the row that has its key already.
  unfoldable pub merge : (A → A) → A → List A → List A
  merge f x [] = x ∷ []
  merge f x (y ∷ ys) = if same (key y) (key x) then f y ∷ ys else y ∷ merge f x ys

  -- `m[key] = x`
  abbrev pub put : A → List A → List A
  put x m = merge (λ y. x) x m

  unfoldable pub put_all : List A → List A → List A
  put_all [] m = m
  put_all (x ∷ xs) m = put_all xs (put x m)

  -- The table that a reload swaps in; an error leaves the old one.
  unfoldable pub reload : Fetch → List A → List A → WriteAnswer × List A
  reload query_error rows cache = (failed, cache)
  reload scan_error rows cache = (failed, cache)
  reload all_rows rows cache = (stored, put_all rows [])
  reload (first_rows n) rows cache = (stored, put_all (take n rows) [])
