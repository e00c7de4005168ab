-- ===== src/Sipctl/Channels/Listed.antt =====
-- Channel sets kept as a list of members, as an arithmetic of sets that has the laws of the store.
use didstorageapp.Prelude.{
  ℕ, suc, ◌-◌, ◌<◌, ◌≡◌, Bool, true, ◌&&◌, not, List, [], ◌∷◌, any, keep, map, refl, arith,
  if◌then◌else◌, Bool-cases, inl, inr, ==_iff,
}
use didstorageapp.Prelude.Text.{Bytes, same, same→eq, same_refl, same_comm}
use didstorageapp.Sipctl.Channels.{Key, user, did, same_key, SetStore}

abbrev Members : Type 0
Members = List (Key × Bytes)

abbrev hit : Key → Bytes → Key × Bytes → Bool
hit k c e = same_key e.0 k && same e.1 c

abbrev holds : Members → Key → Bytes → Bool
holds s k c = any (hit k c) s

-- A member that is listed twice counts once.
abbrev count : Members → Key → ℕ
count [] j = 0
count ((k, c) ∷ s) j = let n = count s j in if same_key k j && not (holds s k c) then suc n else n

abbrev drop_member : Key → Bytes → Members → Members
drop_member k c s = keep (λ (e : Key × Bytes). not (hit k c e)) s

same_key→eq : (i j : Key) → same_key i j ≡ true → i ≡ j
same_key→eq (user a) (user b) h = ground (arith, ==_iff a b)
same_key→eq (did a) (did b) h = ground (arith, ==_iff a b)
same_key→eq (user a) (did b) h = absurd (cc)
same_key→eq (did a) (user b) h = absurd (cc)

same_key_refl : (k : Key) → same_key k k ≡ true
same_key_refl (user a) = ground arith
same_key_refl (did a) = ground arith

same_key_comm : (i j : Key) → same_key i j ≡ same_key j i
same_key_comm (user a) (user b) = ground arith
same_key_comm (did a) (did b) = ground arith
same_key_comm (user a) (did b) = refl
same_key_comm (did a) (user b) = refl

hit→eq : (k : Key) (c : Bytes) (e : Key × Bytes) → hit k c e ≡ true → e ≡ (k, c)
hit→eq k c (i, d) h =
    let a = same_key→eq i k (ground arith) in let b = same→eq d c (ground arith) in rw (a, b) refl

hit_swap :
    (k j : Key) (c d : Bytes) (e : Key × Bytes)
    → (same_key k j && same c d) ≡ true
    → hit j d e ≡ hit k c e
hit_swap k j c d e h = rw (same_key→eq k j (ground arith), same→eq c d (ground arith)) refl

pub holds-drop_member :
    (s : Members) (k j : Key) (c d : Bytes)
    → holds (drop_member k c s) j d ≡ (not (same_key k j && same c d) && holds s j d)
holds-drop_member [] k j c d = ground arith
holds-drop_member (e ∷ s) k j c d = elim (Bool-cases (hit k c e)) [
  | inl x ↦ rw (x, holds-drop_member s k j c d, hit→eq k c e x) (ground arith)
  | inr x ↦ rw x (ground (arith, holds-drop_member s k j c d, hit_swap k j c d e))
]

-- The same set of a key, and the same member of it.
holds_key : (s : Members) (i j : Key) (c : Bytes) → same_key i j ≡ true → holds s i c ≡ holds s j c
holds_key s i j c h = rw (same_key→eq i j h) refl

count_pos :
    (s : Members) (k j : Key) (c : Bytes) → same_key k j ≡ true → holds s k c ≡ true → 0 < count s j
count_pos [] k j c e h = absurd (cc)
count_pos ((i, d) ∷ s) k j c e h = elim (Bool-cases (holds s k c)) [
  | inl x ↦ ground (arith, count_pos s k j c e x)
  | inr x ↦ rw (same_key→eq i k (ground arith), same→eq d c (ground arith)) (ground (arith, e, x))
]

pub count-drop_member :
    (s : Members) (k j : Key) (c : Bytes)
    → count (drop_member k c s) j
      ≡ (if same_key k j && holds s k c then count s j - 1 else count s j)
count-drop_member [] k j c = ground arith
count-drop_member ((i, d) ∷ s) k j c = elim (Bool-cases (hit k c (i, d))) [
  | inl x ↦
      rw (same_key→eq i k (ground arith), same→eq d c (ground arith), same_key_refl k, same_refl c)
        (ground (arith, count-drop_member s k j c, count_pos s k j c))
  | inr x ↦ ground (
    arith,
    count-drop_member s k j c,
    holds-drop_member s k i c d,
    same_key_comm k i,
    same_comm c d,
    count_pos s k j c,
  )
]

covers_holds :
    (s : Members) (k : Key) (c : Bytes)
    → holds s k c ≡ true
    → any (λ j. same_key j k) (map (λ (e : Key × Bytes). e.0) s) ≡ true
covers_holds [] k c h = h
covers_holds (e ∷ s) k c h = ground (arith, covers_holds s k c)

pub one_page :
    (s : Members) (k : Key) (c : Bytes)
    → holds s k c ≡ true
    → any (λ ks. any (λ j. same_key j k) ks) (map (λ (e : Key × Bytes). e.0) s ∷ []) ≡ true
one_page s k c h = ground (arith, covers_holds s k c h)

abbrev pub listed : SetStore
listed = record {
  Store = Members;
  has = holds;
  card = count;
  add = λ k c s. (k, c) ∷ s;
  rem = drop_member;
  pages = λ s. map (λ (e : Key × Bytes). e.0) s ∷ [];
  has-add = λ k j c d s. refl;
  card-add = λ k j c s. refl;
  has-rem = λ k j c d s. holds-drop_member s k j c d;
  card-rem = λ k j c s. count-drop_member s k j c;
  scan-has = one_page;
}
