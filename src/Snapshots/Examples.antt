-- ===== src/Snapshots/Examples.antt =====
-- The caches at concrete tables.
use didstorageapp.Prelude.{◌≡◌, Bool, true, false, List, [], ◌∷◌, refl}
use didstorageapp.Prelude.Text.{Bytes, codes, decimal}
use didstorageapp.Prelude.Int.{pos}
use didstorageapp.Strconv.{parse_int64}
use didstorageapp.Domain.Uri.{all_digits}
use didstorageapp.Snapshots.{Fetch, all_rows, query_error, rejected, merge, put_all, reload}
use didstorageapp.Snapshots.Causes.{
  Info, Causes, describe, Change, upserts, deletes, serve, upsert_cause, delete_cause, cause_before,
}
use didstorageapp.Snapshots.Causes.Shown.{asked, view, Shows, serve-Shows}
use didstorageapp.Snapshots.Causes.Kept.{Reach, here, next, HasBuiltin, Reach-HasBuiltin, is_whole}
use didstorageapp.Snapshots.Settings.{Setting, Settings, get_int, set_setting, all_settings}

abbrev info : Bytes → Bytes → Bool → Info
info code family builtin = record {
  code = code;
  label = codes "a label";
  detail = codes "a detail";
  family = family;
  builtin = builtin;
}

abbrev busy : Info
busy = info (codes "17") (codes "sip") true

abbrev extra : Info
extra = info (codes "20") (codes "sip") false

abbrev start : Causes
start = record { rows = busy ∷ extra ∷ []; table = busy ∷ extra ∷ [] }

abbrev rewording : Change
rewording = upserts (codes "17") (codes "User busy") [] (codes "sip")

abbrev after_rewording : Causes
after_rewording = (serve false all_rows rewording start).1

describes_new : describe (codes "17") after_rewording ≡ (codes "User busy", [])
unfolding upsert_cause merge put_all reload
describes_new = refl

-- A built-in cause is not deleted.
keeps_builtin : serve false all_rows (deletes (codes "17")) start ≡ (rejected, start)
unfolding delete_cause
keeps_builtin = refl

-- The order of All has a circle.
circle :
    (cause_before (info (codes "9") (codes "sip") true) (info (codes "10") (codes "sip") true)
      ≡ true)
    × (cause_before (info (codes "10") (codes "sip") true) (info (codes "1a") (codes "sip") true)
        ≡ true)
    × (cause_before (info (codes "1a") (codes "sip") true) (info (codes "9") (codes "sip") true)
        ≡ true)
circle = (refl, refl, refl)

serve-Shows_example : Shows (asked rewording (view start.rows)) after_rewording
unfolding upsert_cause reload
serve-Shows_example = serve-Shows false rewording start after_rewording (refl, (refl, tt)) refl

abbrev two_requests :
    Reach is_whole start (serve true all_rows (deletes (codes "20")) after_rewording).1
two_requests =
    next (next here false all_rows refl rewording) true all_rows refl (deletes (codes "20"))

Reach-HasBuiltin_example :
    HasBuiltin (codes "17") (serve true all_rows (deletes (codes "20")) after_rewording).1.rows
Reach-HasBuiltin_example =
    Reach-HasBuiltin (codes "17") ((refl, (refl, tt)), (busy, refl, refl)) two_requests

abbrev setting : Bytes → Bytes → Bytes → Setting
setting key value category = record {
  key = key;
  value = value;
  category = category;
  description = codes "text";
}

abbrev configured : Settings
configured = record {
  rows =
      setting (codes "ttl") (codes "30") (codes "calls")
      ∷ setting (codes "name") (codes "x") (codes "branding")
      ∷ [];
  cache =
      setting (codes "ttl") (codes "30") (codes "calls")
      ∷ setting (codes "name") (codes "x") (codes "branding")
      ∷ [];
}

reads_int : get_int (codes "ttl") (pos 5) configured ≡ pos 30
unfolding parse_int64 all_digits decimal
reads_int = refl

branding_first :
    all_settings configured
    ≡ setting (codes "name") (codes "x") (codes "branding")
      ∷ setting (codes "ttl") (codes "30") (codes "calls")
      ∷ []
branding_first = refl

abbrev longer : Settings
longer = (set_setting false all_rows (codes "ttl") (codes "60") configured).1

abbrev two_sets : List (Bool × Fetch × Bytes × Bytes)
two_sets = (false, query_error, codes "ttl", []) ∷ (true, all_rows, codes "new", codes "1") ∷ []
