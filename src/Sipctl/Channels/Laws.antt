-- ===== src/Sipctl/Channels/Laws.antt =====
-- The channel caps, and what a release takes away.
use didstorageapp.Prelude.{
  ℕ, ◌<◌, ◌≤◌, ◌≡◌, inl, inr, Bool, true, false, ◌&&◌, not, List, [], ◌∷◌, any, leb, refl, arith,
  Bool-cases,
}
use didstorageapp.Prelude.Text.{Bytes, same, same_refl}
use didstorageapp.Prelude.Int.{ℤ, pos, leb_ℤ, ◌≤ℤ◌}
use didstorageapp.Sipctl.Channels.{
  Key, user, did, same_key, SetStore, Reservation, reserved, user_full, did_full, reserve,
  release_keys, release_pages, release,
}

module _ (st : SetStore) where
  open st use {Store, has, card, add, rem, pages}

  -- Sets that are within their caps stay within them: after any attempt to reserve, the set of the
  -- number holds at most `did_cap` calls, and that of the user at most `cap`, if they did before.
  pub reserve-caps :
      (uid d : ℕ) (call : Bytes) (cap did_cap : ℕ) (s : Store)
      → card s (user uid) ≤ cap
      → card s (did d) ≤ did_cap
      → let s' = (reserve st uid d call (pos cap) did_cap s).1 in
        (card s' (user uid) ≤ cap) × (card s' (did d) ≤ did_cap)
  unfolding reserve
  reserve-caps uid d call cap did_cap s hu hd =
      let t = add (user uid) call s in
      ground (
        arith,
        st.card-add (did d) (user uid) call t,
        st.card-add (did d) (did d) call t,
        st.card-add (user uid) (user uid) call s,
        st.card-add (user uid) (did d) call s,
      )

  -- What an attempt to reserve does, by its answer.
  pub data Attempted (uid d : ℕ) (call : Bytes) (cap : ℤ) (did_cap : ℕ) (s : Store)
      : Reservation → Store → Type 0 where
    user_refused :
        {s' : Store}
        → pos 0 ≤ℤ cap
        → cap ≤ℤ pos (card s (user uid))
        → s' ≡ s
        → Attempted uid d call cap did_cap s user_full s'
    did_refused :
        {s' : Store}
        → did_cap ≤ card s (did d)
        → s' ≡ s
        → Attempted uid d call cap did_cap s did_full s'
    granted :
        {s' : Store}
        → (leb_ℤ (pos 0) cap && leb_ℤ cap (pos (card s (user uid)))) ≡ false
        → card s (did d) < did_cap
        → has s' (user uid) call ≡ true
        → has s' (did d) call ≡ true
        → ((k : Key) (c : Bytes) → same call c ≡ false → has s' k c ≡ has s k c)
        → Attempted uid d call cap did_cap s reserved s'

  granted_frame :
      (uid d : ℕ) (call : Bytes) (s : Store) (k : Key) (c : Bytes)
      → same call c ≡ false
      → has (add (did d) call (add (user uid) call s)) k c ≡ has s k c
  granted_frame uid d call s k c e =
      ground (
        arith,
        st.has-add (did d) k call c (add (user uid) call s),
        st.has-add (user uid) k call c s,
      )

  granted_has :
      (uid d : ℕ) (call : Bytes) (s : Store)
      → let s' = add (did d) call (add (user uid) call s) in
        (has s' (user uid) call ≡ true) × (has s' (did d) call ≡ true)
  granted_has uid d call s =
      let t = add (user uid) call s in
      ground (
        arith,
        st.has-add (did d) (user uid) call call t,
        st.has-add (did d) (did d) call call t,
        st.has-add (user uid) (user uid) call call s,
        same_refl call,
      )

  -- A refusal, by the user's cap or by the number's, happens only where that cap is met, and
  -- changes nothing. A grant happens only below both caps (a negative user cap is none), puts the
  -- call into both sets and leaves every other call where it was.
  pub reserve-Attempted :
      (uid d : ℕ) (call : Bytes) (cap : ℤ) (did_cap : ℕ) (s : Store)
      → let r = reserve st uid d call cap did_cap s in Attempted uid d call cap did_cap s r.0 r.1
  unfolding reserve
  reserve-Attempted uid d call cap did_cap s =
      elim (Bool-cases (leb_ℤ (pos 0) cap && leb_ℤ cap (pos (card s (user uid))))) [
        | inl full ↦ rw full (user_refused (ground arith) (ground arith) refl)
        | inr room ↦ elim (Bool-cases (leb did_cap (card s (did d)))) [
          | inl full ↦ rw (room, full) (did_refused (ground arith) refl)
          | inr free ↦
              let (in_user, in_did) = granted_has uid d call s in
              rw (room, free)
                (granted room (ground arith) in_user in_did (granted_frame uid d call s))
        ]
      ]

  -- A reservation that is granted puts the call into both sets.
  pub reserve_has :
      (uid d : ℕ) (call : Bytes) (cap : ℤ) (did_cap : ℕ) (s s' : Store)
      → reserve st uid d call cap did_cap s ≡ (reserved, s')
      → (has s' (user uid) call ≡ true) × (has s' (did d) call ≡ true)
  unfolding reserve
  reserve_has uid d call cap did_cap s s' h =
      elim (Bool-cases (leb_ℤ (pos 0) cap && leb_ℤ cap (pos (card s (user uid))))) [
        | inl full ↦ absurd (cc (rw full at h))
        | inr room ↦ elim (Bool-cases (leb did_cap (card s (did d)))) [
          | inl full ↦ absurd (cc (rw (room, full) at h))
          | inr free ↦
              let e : add (did d) call (add (user uid) call s) ≡ s' = cc (rw (room, free) at h) in
              rw (← e) (granted_has uid d call s)
        ]
      ]

  covers : Key → List Key → Bool
  covers k ks = any (λ j. same_key j k) ks

  has-release_keys :
      (call : Bytes) (ks : List Key) (s : Store) (k : Key) (c : Bytes)
      → has (release_keys st call ks s) k c ≡ (not (covers k ks && same call c) && has s k c)
  unfolding release_keys covers
  has-release_keys call [] s k c = refl
  has-release_keys call (j ∷ ks) s k c =
      ground (arith, has-release_keys call ks (rem j call s) k c, st.has-rem j k call c s)

  has-release_pages :
      (call : Bytes) (ps : List (List Key)) (s : Store) (k : Key) (c : Bytes)
      → has (release_pages st call ps s) k c ≡ (not (any (covers k) ps && same call c) && has s k c)
  unfolding release_pages
  has-release_pages call [] s k c = refl
  has-release_pages call (ks ∷ ps) s k c = ground (
    arith,
    has-release_pages call ps (release_keys st call ks s) k c,
    has-release_keys call ks s k c,
  )

  -- A release takes the call out of every set, and every other call stays where it was.
  pub has-release :
      (call : Bytes) (s : Store) (k : Key) (c : Bytes)
      → has (release st call s) k c ≡ (not (same call c) && has s k c)
  unfolding release covers
  has-release call s k c = ground (arith, has-release_pages call (pages s) s k c, st.scan-has s k c)
