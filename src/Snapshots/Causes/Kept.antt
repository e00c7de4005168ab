-- ===== src/Snapshots/Causes/Kept.antt =====
-- What every sequence of requests keeps of the table of causes, and which table the cache shows.
use didstorageapp.Prelude.{
  ℕ, ◌≡◌, Bool, true, false, ◌||◌, not, none, some, List, [], take, any, keep, refl, arith,
  Bool-cases, inl, inr, ap, ◌∙◌, sym, subst,
}
use didstorageapp.Prelude.Text.{Bytes, same, same→eq, is_empty}
use didstorageapp.Snapshots.{Fetch, first_rows, reload, stored}
use didstorageapp.Snapshots.Keyed.{
  IsKeyed, merge-IsKeyed, find_key-reload_first, find_key-keep, keep-IsKeyed,
}
use didstorageapp.Snapshots.Causes.{
  Info, Causes, code_of, describe, described, Change, upserts, deletes, reloads, serve,
  upsert_cause, delete_cause, reload_causes, reworded, new_info, written, is_family, is_own,
}
use didstorageapp.Snapshots.Causes.Shown.{view, written_row}

-- A sequence of requests, each with its failures; `may` says which reads there are.
pub data Reach (may : Fetch → Bool) (st : Causes) : Causes → Type 0 where
  here : Reach may st st
  next :
      {st' : Causes}
      → Reach may st st'
      → (broken : Bool) (fetch : Fetch) → may fetch ≡ true
      → (req : Change) → Reach may st (serve broken fetch req st').1

-- What holds of the state as it is, and of the reloads after each change of the rows, holds after a
-- request.
Q-serve :
    (Q : Causes → Type 0) (broken : Bool) (fetch : Fetch) (req : Change) (st : Causes)
    → Q st
    → Q (reload_causes fetch st).1
    → ((new : Info) → Q (reload_causes fetch (record st { rows = written new st.rows })).1)
    → ((code : Bytes)
        → Q (reload_causes fetch (record st { rows = keep (λ i. not (is_own code i)) st.rows })).1)
    → Q (serve broken fetch req st).1
unfolding upsert_cause delete_cause
Q-serve Q broken fetch (upserts code label detail family) st before reloaded write drop =
    elim (Bool-cases (is_empty code || is_empty label)) [
      | inl e ↦ rw e before
      | inr e ↦ elim (Bool-cases (is_family family)) [
        | inr e' ↦ rw (e, e') before
        | inl e' ↦ elim (Bool-cases broken) [
          | inl e'' ↦ rw (e, e', e'') before
          | inr e'' ↦ rw (e, e', e'') (write (new_info code label detail family))
        ]
      ]
    ]
Q-serve Q broken fetch (deletes code) st before reloaded write drop = elim (Bool-cases broken) [
  | inl e ↦ rw e before
  | inr e ↦ elim (Bool-cases (any (is_own code) st.rows)) [
    | inr e' ↦ rw (e, e') before
    | inl e' ↦ rw (e, e') (drop code)
  ]
]
Q-serve Q broken fetch reloads st before reloaded write drop = reloaded

-- The keys stay unique, and the row of the code `k` is there and built-in.
abbrev pub HasBuiltin : Bytes → List Info → Type 0
HasBuiltin k rows =
    IsKeyed code_of rows × ((i : Info) × (view rows k ≡ some i) × (i.builtin ≡ true))

written-HasBuiltin :
    (k : Bytes) (new : Info) (rows : List Info)
    → HasBuiltin k rows
    → HasBuiltin k (written new rows)
written-HasBuiltin k new rows (keyed, (i, found, b)) = (
  merge-IsKeyed code_of (reworded new) new rows (λ y h. same→eq y.code new.code h) keyed,
  elim (Bool-cases (same new.code k)) [
    | inr e ↦ (i, written_row new rows k ∙ rw e found, b)
    | inl e ↦
        let found' : view rows new.code ≡ some i =
          subst (λ c. view rows c ≡ some i) (sym (same→eq new.code k e)) found in
        (reworded new i, written_row new rows k ∙ rw (e, found') refl, b)
  ],
)

keep-HasBuiltin :
    (k code : Bytes) (rows : List Info)
    → HasBuiltin k rows
    → HasBuiltin k (keep (λ i. not (is_own code i)) rows)
keep-HasBuiltin k code rows (keyed, (i, found, b)) = (
  keep-IsKeyed code_of (λ i. not (is_own code i)) rows keyed,
  (
    i,
    find_key-keep code_of (λ i. not (is_own code i)) rows k keyed
        ∙ rw found (let kept : is_own code i ≡ false = ground (arith, b) in rw kept refl),
    b,
  ),
)

-- A built-in cause is never lost: after every sequence of upserts, deletions and reloads, whichever
-- of them fail, the row of its code is still in the table, and still built-in. The codes of the
-- table are unique at the start.
pub Reach-HasBuiltin :
    {may : Fetch → Bool} {st st' : Causes} (k : Bytes)
    → HasBuiltin k st.rows
    → Reach may st st'
    → HasBuiltin k st'.rows
Reach-HasBuiltin k h here = h
Reach-HasBuiltin {may} {st} k h (next {st' = mid} r broken fetch can req) =
    let before = Reach-HasBuiltin k h r in
    Q-serve (λ (s : Causes). HasBuiltin k s.rows) broken fetch req mid before before
      (λ new. written-HasBuiltin k new mid.rows before)
      (λ code. keep-HasBuiltin k code mid.rows before)

-- A read that fails, or brings every row.
abbrev pub is_whole : Fetch → Bool
is_whole (first_rows n) = false
is_whole _ = true

-- The cache shows what the table `rows` has under every code.
abbrev pub IsView : List Info → List Info → Type 0
IsView rows table = (k : Bytes) → view table k ≡ view rows k

-- A reload whose rows break off after some rows is answered without an error. From then on every
-- cause that was not among those rows, also one that the table has, is described by its bare code.
pub describe-reload_causes :
    (n : ℕ) (st : Causes) (k : Bytes)
    → IsKeyed code_of st.rows
    → view (take n st.rows) k ≡ none
    → ((reload_causes (first_rows n) st).0 ≡ stored)
      × (describe k (reload_causes (first_rows n) st).1 ≡ (k, []))
unfolding reload
describe-reload_causes n st k keyed h =
    (refl, ap (described k) (find_key-reload_first code_of n st.rows st.table k keyed ∙ h))
