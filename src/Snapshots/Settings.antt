-- ===== src/Snapshots/Settings.antt =====
-- internal/settings/settings.go: the settings in their table, and their cache.
pub mod Laws
pub mod Order
use didstorageapp.Prelude.{
  Bool, true, false, not, Option, none, some, List, [], ◌∷◌, keep, if◌then◌else◌,
}
use didstorageapp.Prelude.Text.{Bytes, codes, same, is_empty}
use didstorageapp.Prelude.Int.{ℤ}
use didstorageapp.Strconv.{parse_int64}
use didstorageapp.Snapshots.{
  Fetch, WriteAnswer, stored, rejected, failed, find_key, merge, reload, ltb_text,
}

pub record Setting : Type 0 where
  pub key : Bytes
  pub value : Bytes
  pub category : Bytes
  pub description : Bytes

-- The rows of the table, and the map in memory.
pub record Settings : Type 0 where
  pub rows : List Setting
  pub cache : List Setting

abbrev pub key_of : Setting → Bytes
key_of s = s.key

abbrev pub value_of : Option Setting → Bytes
value_of none = []
value_of (some s) = s.value

abbrev pub get_setting : Bytes → Settings → Bytes
get_setting key st = value_of (find_key key_of key st.cache)

abbrev pub get_with_default : Bytes → Bytes → Settings → Bytes
get_with_default key def st = let v = get_setting key st in if is_empty v then def else v

abbrev pub int_or : ℤ → Option ℤ → ℤ
int_or def none = def
int_or def (some n) = n

-- strconv.Atoi is ParseInt here.
abbrev pub get_int : Bytes → ℤ → Settings → ℤ
get_int key def st =
    let v = get_setting key st in if is_empty v then def else int_or def (parse_int64 v)

-- `cache = next`, or the error of the reload.
abbrev pub swapped : WriteAnswer × List Setting → Settings → WriteAnswer × Settings
swapped (a, cache) st = (a, record st { cache = cache })

abbrev pub reload_settings : Fetch → Settings → WriteAnswer × Settings
reload_settings fetch st = swapped (reload key_of fetch st.rows st.cache) st

-- The row that is inserted, and the update of the one that is there.
abbrev pub new_setting : Bytes → Bytes → Setting
new_setting key value = record {
  key = key;
  value = value;
  category = codes "general";
  description = [];
}

abbrev pub revalued : Bytes → Setting → Setting
revalued value s = record s { value = value }

unfoldable pub set_setting : Bool → Fetch → Bytes → Bytes → Settings → WriteAnswer × Settings
set_setting broken fetch key value st =
    if broken
    then (failed, st)
    else reload_settings fetch
        (record st { rows = merge key_of (revalued value) (new_setting key value) st.rows })

abbrev pub insert_by : (Setting → Setting → Bool) → Setting → List Setting → List Setting
insert_by before s [] = s ∷ []
insert_by before s (t ∷ ts) = if before s t then s ∷ t ∷ ts else t ∷ insert_by before s ts

-- sort.Slice
abbrev pub sort_by : (Setting → Setting → Bool) → List Setting → List Setting
sort_by before [] = []
sort_by before (s ∷ ts) = insert_by before s (sort_by before ts)

abbrev pub by_group : Setting → Setting → Bool
by_group s t =
    if not (same s.category t.category)
    then ltb_text s.category t.category
    else ltb_text s.key t.key

abbrev pub by_key : Setting → Setting → Bool
by_key s t = ltb_text s.key t.key

-- All of the settings, grouped.
abbrev pub all_settings : Settings → List Setting
all_settings st = sort_by by_group st.cache

abbrev pub by_category : Bytes → Settings → List Setting
by_category category st = sort_by by_key (keep (λ s. same s.category category) st.cache)
