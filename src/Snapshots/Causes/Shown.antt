-- ===== src/Snapshots/Causes/Shown.antt =====
-- What a request that is answered without an error leaves in the table and in the cache.
use didstorageapp.Prelude.{
  ap, ◌≡◌, Bool, true, false, ◌||◌, not, Option, none, some, List, [], ◌∷◌, any, keep, find_passes,
  if◌then◌else◌, refl, arith, Bool-cases, Option-cases, inl, inr, ◌∙◌, sym, subst,
}
use didstorageapp.Prelude.Text.{Bytes, same, same→eq, same_comm, is_empty}
use didstorageapp.Snapshots.{WriteAnswer, stored, all_rows, find_key}
use didstorageapp.Snapshots.Keyed.{
  IsKeyed, merged, find_key-merge, merge-IsKeyed, find_key-reload, find_key-keep, keep-IsKeyed,
}
use didstorageapp.Snapshots.Causes.{
  Info, Causes, code_of, Change, upserts, deletes, reloads, serve, upsert_cause, delete_cause,
  reload_causes, reworded, new_info, written, is_family, is_own,
}

-- A table as a function of the code.
abbrev pub View : Type 0
View = Bytes → Option Info

abbrev pub view : List Info → View
view rows k = find_key code_of k rows

-- Whether a row is there that is built-in.
abbrev pub was_builtin : Option Info → Bool
was_builtin none = false
was_builtin (some i) = i.builtin

-- What a request asks of the table: under the code of an upsert a row with the label, the detail and
-- the family of the request, built-in if a built-in row was there; no row under the code of a
-- deletion; and everything else as it was.
abbrev pub asked : Change → View → View
asked (upserts code label detail family) v k =
    if same code k
    then some (record {
      code = code;
      label = label;
      detail = detail;
      family = family;
      builtin = was_builtin (v code);
    })
    else v k
asked (deletes code) v k = if same code k then none else v k
asked reloads v k = v k

-- The table and the cache of a state, both seen as `v`.
abbrev pub Shows : View → Causes → Type 0
Shows v st = (k : Bytes) → (view st.table k ≡ v k) × (view st.rows k ≡ v k)

reload_Shows :
    (st st' : Causes) (v : View)
    → IsKeyed code_of st.rows
    → ((k : Bytes) → view st.rows k ≡ v k)
    → reload_causes all_rows st ≡ (stored, st')
    → Shows v st'
reload_Shows st st' v keyed rows_lem h =
    subst (λ (r : WriteAnswer × Causes). Shows v r.1) h
      (λ k. (find_key-reload code_of st.rows st.table k keyed ∙ rows_lem k, rows_lem k))

-- The row that a deletion removes is the one of its code.
own_row :
    (code : Bytes) (rows : List Info)
    → IsKeyed code_of rows
    → any (is_own code) rows ≡ true
    → (i : Info) × (view rows code ≡ some i) × (i.builtin ≡ false)
own_row code [] keyed h = absurd (cc)
own_row code (i ∷ rows) keyed h = elim (Bool-cases (is_own code i)) [
  | inl e ↦
      let hit : same i.code code ≡ true = ground (arith, e) in (i, rw hit refl, ground (arith, e))
  | inr e ↦
      let (j, found, own) = own_row code rows keyed.1 (rw e at h) in
      elim (Bool-cases (same i.code code)) [
        | inr miss ↦ (j, rw miss found, own)
        | inl hit ↦
            let absent : view rows code ≡ none =
              subst (λ k. view rows k ≡ none) (same→eq i.code code hit) keyed.0 in
            absurd (cc (absent, found))
      ]
]

-- What is left under a key after the deletion.
kept_row :
    (code : Bytes) (rows : List Info) (k : Bytes)
    → IsKeyed code_of rows
    → any (is_own code) rows ≡ true
    → view (keep (λ i. not (is_own code i)) rows) k ≡ asked (deletes code) (view rows) k
kept_row code rows k keyed h =
    find_key-keep code_of (λ i. not (is_own code i)) rows k keyed
    ∙ elim (Bool-cases (same code k)) [
      | inl e ↦
          let (j, found, own) = own_row code rows keyed h in
          let hit : same j.code code ≡ true =
            find_passes (λ (i : Info). same i.code code) rows j found in
          let found_k : view rows k ≡ some j =
            subst (λ k'. view rows k' ≡ some j) (same→eq code k e) found in
          rw (e, found_k) (ground (arith, hit, own))
      | inr e ↦ elim (Option-cases (view rows k)) [
        | inl n ↦ rw (e, n) refl
        | inr (j, n) ↦
            let hit : same j.code k ≡ true = find_passes (λ (i : Info). same i.code k) rows j n in
            let other : same j.code code ≡ false =
              subst (λ c. same c code ≡ false) (sym (same→eq j.code k hit))
                (same_comm k code ∙ e) in
            rw (e, n, other) refl
      ]
    ]

pub written_row :
    (new : Info) (rows : List Info) (k : Bytes)
    → view (written new rows) k ≡ (
        if same new.code k
        then some (merged code_of (reworded new) new (view rows new.code))
        else view rows k)
written_row new rows k =
    find_key-merge code_of (reworded new) new rows k (λ y h. same→eq y.code new.code h)

-- The row that an upsert leaves.
asked_row :
    (code label detail family : Bytes) (rows : List Info)
    → merged code_of
        (reworded (new_info code label detail family))
        (new_info code label detail family)
        (view rows code)
      ≡ record {
        code = code;
        label = label;
        detail = detail;
        family = family;
        builtin = was_builtin (view rows code);
      }
asked_row code label detail family rows = elim (Option-cases (view rows code)) [
  | inl n ↦ rw n refl
  | inr (i, n) ↦
      let same_code : i.code ≡ code =
        same→eq i.code code (find_passes (λ (r : Info). same r.code code) rows i n) in
      rw (n, same_code) refl
]

upserted_row :
    (code label detail family : Bytes) (rows : List Info) (k : Bytes)
    → view (written (new_info code label detail family) rows) k
      ≡ asked (upserts code label detail family) (view rows) k
upserted_row code label detail family rows k =
    written_row (new_info code label detail family) rows k
    ∙ ap (λ i. if same code k then some i else view rows k)
        (asked_row code label detail family rows)

-- A request that is answered without an error, its rows read to the end, leaves in the table and in
-- the cache, under every code, what it asks for: the new wording for an upsert_cause, which keeps a
-- built-in row built-in, no row for a deletion, the table as it is for a reload. The codes of the
-- table are unique before.
pub serve-Shows :
    (broken : Bool) (req : Change) (st st' : Causes)
    → IsKeyed code_of st.rows
    → serve broken all_rows req st ≡ (stored, st')
    → Shows (asked req (view st.rows)) st'
unfolding upsert_cause delete_cause
serve-Shows broken (upserts code label detail family) st st' keyed h =
    let new = new_info code label detail family in
    elim (Bool-cases (is_empty code || is_empty label)) [
      | inl e ↦ absurd (cc (rw e at h))
      | inr e ↦ elim (Bool-cases (is_family family)) [
        | inr e' ↦ absurd (cc (rw (e, e') at h))
        | inl e' ↦ elim (Bool-cases broken) [
          | inl e'' ↦ absurd (cc (rw (e, e', e'') at h))
          | inr e'' ↦
              reload_Shows (record st { rows = written new st.rows }) st'
                (asked (upserts code label detail family) (view st.rows))
                (merge-IsKeyed code_of (reworded new) new st.rows
                  (λ y same_code. same→eq y.code code same_code) keyed)
                (upserted_row code label detail family st.rows) (rw (e, e', e'') at h)
        ]
      ]
    ]
serve-Shows broken (deletes code) st st' keyed h = elim (Bool-cases broken) [
  | inl e ↦ absurd (cc (rw e at h))
  | inr e ↦ elim (Bool-cases (any (is_own code) st.rows)) [
    | inr e' ↦ absurd (cc (rw (e, e') at h))
    | inl e' ↦
        reload_Shows (record st { rows = keep (λ i. not (is_own code i)) st.rows }) st'
          (asked (deletes code) (view st.rows))
          (keep-IsKeyed code_of (λ i. not (is_own code i)) st.rows keyed)
          (λ k. kept_row code st.rows k keyed e') (rw (e, e') at h)
  ]
]
serve-Shows broken reloads st st' keyed h = reload_Shows st st' (view st.rows) keyed (λ k. refl) h
