-- ===== src/Sipctl/Channels.antt =====
-- Channel reservations of internal/sipctl/sipctl.go: the Lua script reserveLua with reserveChannel,
-- and releaseChannelByCallID. The sets `act:user:<id>` and `act:did:<id>` live in Redis: the store
-- is a parameter, with what SADD, SREM, SCARD, SISMEMBER and SCAN are documented to do. The
-- four-hour expiry of a set that nobody writes to is left out.
pub mod Laws
pub mod Listed
use didstorageapp.Prelude.{
  ℕ, suc, ◌-◌, ◌<◌, ◌≤◌, ◌≡◌, Bool, true, false, ◌&&◌, ◌||◌, not, List, [], ◌∷◌, any, ◌==◌, leb,
  if◌then◌else◌,
}
use didstorageapp.Prelude.Text.{Bytes, same}
use didstorageapp.Prelude.Int.{ℤ, pos, leb_ℤ}

-- `act:user:%d` and `act:did:%d`
pub data Key : Type 0 where
  user did : ℕ → Key

abbrev pub same_key : Key → Key → Bool
same_key (user a) (user b) = a == b
same_key (did a) (did b) = a == b
same_key (user a) (did b) = false
same_key (did a) (user b) = false

pub record SetStore : Type 1 where
  pub Store : Type 0
  -- SISMEMBER, SCARD, SADD, SREM; `pages` are the keys that a full SCAN of `act:*` returns, by page
  pub has : Store → Key → Bytes → Bool
  pub card : Store → Key → ℕ
  pub add : Key → Bytes → Store → Store
  pub rem : Key → Bytes → Store → Store
  pub pages : Store → List (List Key)
  pub has-add :
      (k j : Key) (c d : Bytes) (s : Store)
      → has (add k c s) j d ≡ (same_key k j && same c d || has s j d)
  pub card-add :
      (k j : Key) (c : Bytes) (s : Store)
      → card (add k c s) j ≡ (if same_key k j && not (has s k c) then suc (card s j) else card s j)
  pub has-rem :
      (k j : Key) (c d : Bytes) (s : Store)
      → has (rem k c s) j d ≡ (not (same_key k j && same c d) && has s j d)
  pub card-rem :
      (k j : Key) (c : Bytes) (s : Store)
      → card (rem k c s) j ≡ (if same_key k j && has s k c then card s j - 1 else card s j)
  pub scan-has :
      (s : Store) (k : Key) (c : Bytes)
      → has s k c ≡ true
      → any (λ ks. any (λ j. same_key j k) ks) (pages s) ≡ true

pub data Reservation : Type 0 where
  reserved user_full did_full : Reservation

module _ (st : SetStore) where
  open st use {Store, has, card, add, rem, pages}

  -- The script is atomic in Redis; a negative user cap means uncapped.
  unfoldable pub reserve : ℕ → ℕ → Bytes → ℤ → ℕ → Store → Reservation × Store
  reserve uid did_id call user_cap did_cap s =
      if leb_ℤ (pos 0) user_cap && leb_ℤ user_cap (pos (card s (user uid)))
      then (user_full, s)
      else if leb did_cap (card s (did did_id))
      then (did_full, s)
      else (reserved, add (did did_id) call (add (user uid) call s))

  -- The pipeline of one SCAN page, and the loop over the pages.
  unfoldable pub release_keys : Bytes → List Key → Store → Store
  release_keys call [] s = s
  release_keys call (k ∷ ks) s = release_keys call ks (rem k call s)

  unfoldable pub release_pages : Bytes → List (List Key) → Store → Store
  unfolding release_keys
  release_pages call [] s = s
  release_pages call (ks ∷ rest) s = release_pages call rest (release_keys call ks s)

  unfoldable pub release : Bytes → Store → Store
  unfolding release_pages
  release call s = release_pages call (pages s) s
