-- ===== src/Snapshots/Causes.antt =====
-- internal/causes/causes.go: the hangup causes in the table hangup_causes, and their cache.
pub mod Shown
pub mod Kept
use didstorageapp.Prelude.{
  ℕ, ◌+◌, ◌*◌, ◌-◌, ◌%◌, ◌^◌, Bool, true, false, ◌&&◌, ◌||◌, not, Option, none, some, List, [], ◌∷◌,
  any, find, keep, if◌then◌else◌, ltb,
}
use didstorageapp.Prelude.Text.{Bytes, codes, same, is_empty, is_digit}
use didstorageapp.Strconv.{leb_int64}
use didstorageapp.Snapshots.{
  Fetch, WriteAnswer, stored, rejected, failed, find_key, merge, reload, ltb_text,
}

pub record Info : Type 0 where
  pub code : Bytes
  pub label : Bytes
  pub detail : Bytes
  pub family : Bytes
  pub builtin : Bool

-- The rows of the table, and the map in memory.
pub record Causes : Type 0 where
  pub rows : List Info
  pub table : List Info

abbrev pub code_of : Info → Bytes
code_of i = i.code

abbrev pub described : Bytes → Option Info → Bytes × Bytes
described code none = (code, [])
described code (some i) = (i.label, i.detail)

-- The label and the detail; an unknown code stands for itself.
abbrev pub describe : Bytes → Causes → Bytes × Bytes
describe code st = described code (find_key code_of code st.table)

abbrev pub is_platform_row : Option Info → Bool
is_platform_row none = false
is_platform_row (some i) = same i.family (codes "platform")

abbrev pub is_platform : Bytes → Causes → Bool
is_platform code st = is_platform_row (find_key code_of code st.table)

-- `table = next`, or the error of the reload.
abbrev pub swapped : WriteAnswer × List Info → Causes → WriteAnswer × Causes
swapped (a, table) st = (a, record st { table = table })

abbrev pub reload_causes : Fetch → Causes → WriteAnswer × Causes
reload_causes fetch st = swapped (reload code_of fetch st.rows st.table) st

-- `ON CONFLICT (code) DO UPDATE`: the row stays built-in, or not.
abbrev pub reworded : Info → Info → Info
reworded new old = record old { label = new.label; detail = new.detail; family = new.family }

abbrev pub written : Info → List Info → List Info
written new rows = merge code_of (reworded new) new rows

-- The row that is inserted.
abbrev pub new_info : Bytes → Bytes → Bytes → Bytes → Info
new_info code label detail family = record {
  code = code;
  label = label;
  detail = detail;
  family = family;
  builtin = false;
}

abbrev pub is_family : Bytes → Bool
is_family f = same f (codes "sip") || same f (codes "platform")

unfoldable pub upsert_cause :
    Bool → Fetch → Bytes → Bytes → Bytes → Bytes → Causes → WriteAnswer × Causes
upsert_cause broken fetch code label detail family st =
    if is_empty code || is_empty label
    then (rejected, st)
    else if not (is_family family)
    then (rejected, st)
    else if broken
    then (failed, st)
    else reload_causes fetch
        (record st { rows = written (new_info code label detail family) st.rows })

-- `WHERE code=$1 AND builtin=false`
abbrev pub is_own : Bytes → Info → Bool
is_own code i = same i.code code && not i.builtin

unfoldable pub delete_cause : Bool → Fetch → Bytes → Causes → WriteAnswer × Causes
delete_cause broken fetch code st =
    if broken
    then (failed, st)
    else if not (any (is_own code) st.rows)
    then (rejected, st)
    else reload_causes fetch (record st { rows = keep (λ i. not (is_own code i)) st.rows })

-- The operations that write.
pub data Change : Type 0 where
  upserts : Bytes → Bytes → Bytes → Bytes → Change
  deletes : Bytes → Change
  reloads : Change

abbrev pub serve : Bool → Fetch → Change → Causes → WriteAnswer × Causes
serve broken fetch (upserts code label detail family) st =
    upsert_cause broken fetch code label detail family st
serve broken fetch (deletes code) st = delete_cause broken fetch code st
serve broken fetch reloads st = reload_causes fetch st

-- parseInt: no sign, and no bound but that of an int.
abbrev pub parse_from : ℕ → Bytes → Option ℕ
parse_from n [] = some n
parse_from n (c ∷ s) = if is_digit c then parse_from ((n * 10 + (c - b'0')) % 2 ^ 64) s else none

abbrev pub parse_int : Bytes → Option ℕ
parse_int s = parse_from 0 s

abbrev pub code_before : Option ℕ → Option ℕ → Bytes → Bytes → Bool
code_before (some a) (some b) s t = not (leb_int64 b a)
code_before _ _ s t = ltb_text s t

-- The order in which All sorts the rows of a page.
abbrev pub cause_before : Info → Info → Bool
cause_before i j =
    if not (same i.family j.family)
    then same i.family (codes "platform")
    else code_before (parse_int i.code) (parse_int j.code) i.code j.code
