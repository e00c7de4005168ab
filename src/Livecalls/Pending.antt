-- ===== src/Livecalls/Pending.antt =====
-- internal/livecalls/pending.go: admin actions that wait for their CDR row.
use didstorageapp.Prelude.{
  ℕ, ◌+◌, ◌*◌, ◌<◌, ◌≡◌, false, ◌||◌, Option, none, some, List, [], ◌∷◌, arith, if◌then◌else◌,
  Bool-cases, inl, inr, lt→ltb, ◌∙◌,
}
use didstorageapp.Prelude.Text.{Bytes, same, is_empty, same_refl, same_swap, same_comm}
use didstorageapp.Livecalls.{store, delete, fetch}

pub record PendingAction : Type 0 where
  pub action : Bytes
  pub admin_id : ℕ
  pub reason : Bytes

abbrev pub Waiting : Type 0
Waiting = List (Bytes × PendingAction × ℕ)

abbrev pub pending_ttl : ℕ
pending_ttl = 6 * 60 * 60

-- `none` is the error on an empty call id or action.
unfoldable pub record_pending_action : ℕ → Bytes → PendingAction → Waiting → Option Waiting
record_pending_action now id a w =
    if is_empty id || is_empty a.action then none else some (store id a (now + pending_ttl) w)

-- GETDEL
unfoldable pub pop_pending_action : ℕ → Bytes → Waiting → Option PendingAction × Waiting
pop_pending_action now id w = if is_empty id then (none, w) else (fetch now id w, delete id w)

fetch-delete :
    (now : ℕ) (k j : Bytes) (w : Waiting)
    → fetch now j (delete k w) ≡ (if same k j then none else fetch now j w)
unfolding fetch
fetch-delete now k j [] = ground arith
fetch-delete now k j ((i, v, e) ∷ w) =
    ground (arith, fetch-delete now k j w, same_swap k i j, same_swap j i k, same_comm j k)

fetch-store_self :
    (now expiry : ℕ) (k : Bytes) (a : PendingAction) (w : Waiting)
    → now < expiry
    → fetch now k (store k a expiry w) ≡ some a
unfolding fetch
fetch-store_self now expiry k a w h = rw (same_refl k, lt→ltb now expiry h)

fetch-store_ne :
    (now expiry : ℕ) (k j : Bytes) (a : PendingAction) (w : Waiting)
    → same k j ≡ false
    → fetch now j (store k a expiry w) ≡ fetch now j (delete k w)
unfolding fetch
fetch-store_ne now expiry k j a w h = rw (same_comm j k, h)

-- An action that is recorded is handed to the first pop within six hours, the most recent one if
-- there were several, and to no second pop; the actions of other calls are not touched.
pub pop-record :
    (now later last : ℕ) (id other : Bytes) (a : PendingAction) (w w' : Waiting)
    → record_pending_action now id a w ≡ some w'
    → later < now + pending_ttl
    → same id other ≡ false
    → ((pop_pending_action later id w').0 ≡ some a)
      × ((pop_pending_action last id (pop_pending_action later id w').1).0 ≡ none)
      × (fetch last other (pop_pending_action later id w').1 ≡ fetch last other w)
unfolding record_pending_action pop_pending_action
pop-record now later last id other a w w' h t ne = elim (Bool-cases (is_empty id)) [
  | inl empty ↦ cc (rw empty at h)
  | inr full ↦
      let expiry = now + pending_ttl in
      let stored : store id a expiry w ≡ w' = ground arith in
      rw (full, ← stored)
        (
          fetch-store_self later expiry id a w t,
          rw (fetch-delete last id id (store id a expiry w), same_refl id),
          rw (fetch-delete last id other (store id a expiry w), ne)
              (fetch-store_ne last expiry id other a w ne ∙ rw (fetch-delete last id other w, ne)),
        )
]
