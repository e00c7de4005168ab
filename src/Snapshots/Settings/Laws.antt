-- ===== src/Snapshots/Settings/Laws.antt =====
-- What Set leaves in the table and in the cache, and what it never changes.
use didstorageapp.Prelude.{
  ◌≡◌, Bool, true, Option, none, some, List, [], ◌∷◌, if◌then◌else◌, refl, Bool-cases, inl, inr, ap,
  ◌∙◌, sym, subst,
}
use didstorageapp.Prelude.Text.{Bytes, same, same→eq}
use didstorageapp.Snapshots.{Fetch, WriteAnswer, stored, all_rows, find_key}
use didstorageapp.Snapshots.Keyed.{IsKeyed, merged, find_key-merge, merge-IsKeyed, find_key-reload}
use didstorageapp.Snapshots.Settings.{
  Setting, Settings, key_of, value_of, get_setting, new_setting, revalued, set_setting,
}

key-revalued :
    (key value : Bytes) (s : Setting) → same s.key key ≡ true → (revalued value s).key ≡ key
key-revalued key value s h = same→eq s.key key h

value-merged :
    (key value : Bytes) (o : Option Setting)
    → (merged key_of (revalued value) (new_setting key value) o).value ≡ value
value-merged key value none = refl
value-merged key value (some s) = refl

-- After a Set that is answered without an error, its rows read to the end, a reader gets the new
-- value under the key, and under every other key the value that the table has; the keys of the
-- table are unique before.
pub get_setting-set_setting :
    (broken : Bool) (key value : Bytes) (st st' : Settings)
    → IsKeyed key_of st.rows
    → set_setting broken all_rows key value st ≡ (stored, st')
    → (k : Bytes)
    → get_setting k st' ≡ (if same key k then value else value_of (find_key key_of k st.rows))
unfolding set_setting
get_setting-set_setting broken key value st st' keyed h k = elim (Bool-cases broken) [
  | inl e ↦ absurd (cc (rw e at h))
  | inr e ↦
      let new = new_setting key value in
      let f = revalued value in
      let keyed' = merge-IsKeyed key_of f new st.rows (key-revalued key value) keyed in
      subst
        (λ (r : WriteAnswer × Settings).
          get_setting k r.1 ≡ (if same key k then value else value_of (find_key key_of k st.rows)))
        (rw e at h)
        (ap value_of (
            find_key-reload key_of _ st.cache k keyed'
            ∙ find_key-merge key_of f new st.rows k (key-revalued key value))
          ∙ elim (Bool-cases (same key k)) [
            | inl e' ↦ rw e' (value-merged key value (find_key key_of key st.rows))
            | inr e' ↦ rw e' refl
          ])
]

-- The calls of Set one after another, each with its failures.
unfoldable pub set_all : List (Bool × Fetch × Bytes × Bytes) → Settings → Settings
set_all [] st = st
set_all ((broken, fetch, key, value) ∷ sets) st =
    set_all sets (set_setting broken fetch key value st).1

-- A setting stays in its category.
abbrev pub IsFiled : Bytes → Bytes → Bytes → List Setting → Type 0
IsFiled k category description rows =
    (s : Setting) × (find_key key_of k rows ≡ some s)
    × (s.category ≡ category)
    × (s.description ≡ description)

set_setting-IsFiled :
    (k category description : Bytes) (broken : Bool) (fetch : Fetch) (key value : Bytes)
    (st : Settings)
    → IsFiled k category description st.rows
    → IsFiled k category description (set_setting broken fetch key value st).1.rows
unfolding set_setting
set_setting-IsFiled k category description broken fetch key value st (s, found, c, d) =
    elim (Bool-cases broken) [
      | inl e ↦ rw e (s, found, c, d)
      | inr e ↦
          let new = new_setting key value in
          let merge_lem =
            find_key-merge key_of (revalued value) new st.rows k (key-revalued key value) in
          rw e (elim (Bool-cases (same key k)) [
            | inr e' ↦ (s, merge_lem ∙ rw e' found, c, d)
            | inl e' ↦
                let found' : find_key key_of key st.rows ≡ some s =
                  subst (λ x. find_key key_of x st.rows ≡ some s) (sym (same→eq key k e')) found in
                (revalued value s, merge_lem ∙ rw (e', found') refl, c, d)
          ])
    ]

-- However often Set is called for whatever keys, and whichever calls fail, a setting that the table
-- has is still there, in its category and with its description.
pub set_all-IsFiled :
    (k category description : Bytes) (sets : List (Bool × Fetch × Bytes × Bytes)) (st : Settings)
    → IsFiled k category description st.rows
    → IsFiled k category description (set_all sets st).rows
unfolding set_all
set_all-IsFiled k category description [] st h = h
set_all-IsFiled k category description ((broken, fetch, key, value) ∷ sets) st h =
    set_all-IsFiled k category description sets (set_setting broken fetch key value st).1
      (set_setting-IsFiled k category description broken fetch key value st h)
