-- ===== src/Audiogroup.antt =====
-- PickMember of internal/audiogroup/audiogroup.go: which clip of a group plays next. `ticks` is the
-- clock in microseconds, a non-negative number. `members` are the rows of the group by position.
pub mod Examples
use didstorageapp.Prelude.{
  ℕ, zero, suc, ◌%◌, ◌<◌, ◌≡◌, ◌+◌, Bool, true, false, ◌&&◌, not, Option, none, some, List, [], ◌∷◌,
  any, length, get_elem?, keep, ltb, lt→ltb, ◌==◌, ==_refl, ==_iff, refl, arith, if◌then◌else◌,
  Option-cases, inl, inr,
}
use didstorageapp.Prelude.Text.{Bytes}

pub record Member : Type 0 where
  pub id : ℕ
  pub filename : Bytes

-- The members other than the last one played, or all where that leaves none; 0 is no last one.
unfoldable pub candidates : ℕ → List Member → List Member
candidates last members =
    let filtered = keep (λ (m : Member). not (m.id == last)) members in
    if ltb 0 last && ltb 0 (length filtered) then filtered else members

abbrev pub noted : Option Member → Option (Member × ℕ)
noted none = none
noted (some p) = some (p, p.id)

-- The member picked, and what the group's last-played key holds afterwards.
unfoldable pub pick_member : ℕ → ℕ → List Member → Option (Member × ℕ)
pick_member ticks last [] = none
pick_member ticks last (m ∷ []) = some (m, last)
pick_member ticks last (m ∷ n ∷ members) =
    let from = candidates last (m ∷ n ∷ members) in noted (get_elem? from (ticks % length from))

get_elem?-some :
    (xs : List Member) (i : ℕ) → i < length xs → (m : Member) × (get_elem? xs i ≡ some m)
get_elem?-some [] i h = absurd (omega (arith, h))
get_elem?-some (x ∷ xs) zero h = (x, refl)
get_elem?-some (x ∷ xs) (suc i) h = get_elem?-some xs i (omega (arith, h))

has_id : ℕ → List Member → Bool
has_id k xs = any (λ (n : Member). n.id == k) xs

get_elem?-has_id :
    (xs : List Member) (i : ℕ) (m : Member) → get_elem? xs i ≡ some m → has_id m.id xs ≡ true
unfolding has_id
get_elem?-has_id [] i m h = absurd (cc)
get_elem?-has_id (x ∷ xs) zero m h = ground (arith, ==_refl x.id)
get_elem?-has_id (x ∷ xs) (suc i) m h = ground (arith, get_elem?-has_id xs i m h)

has_id-keep :
    (last k : ℕ) (xs : List Member)
    → has_id k (keep (λ (m : Member). not (m.id == last)) xs) ≡ (has_id k xs && not (k == last))
unfolding has_id
has_id-keep last k [] = refl
has_id-keep last k (x ∷ xs) = ground (arith, has_id-keep last k xs, ==_iff x.id k)

length-keep_pos :
    (last : ℕ) (a b : Member) (xs : List Member)
    → (a.id == b.id) ≡ false
    → 0 < length (keep (λ (m : Member). not (m.id == last)) (a ∷ b ∷ xs))
length-keep_pos last a b xs h = ground (arith, ==_iff a.id last, ==_iff b.id last)

candidates-keep :
    (last : ℕ) (a b : Member) (xs : List Member)
    → (a.id == b.id) ≡ false
    → 0 < last
    → candidates last (a ∷ b ∷ xs) ≡ keep (λ (m : Member). not (m.id == last)) (a ∷ b ∷ xs)
unfolding candidates
candidates-keep last a b xs h hl =
    rw
      (
        lt→ltb 0 last hl,
        lt→ltb 0 (length (keep (λ (m : Member). not (m.id == last)) (a ∷ b ∷ xs)))
            (length-keep_pos last a b xs h),
      )
      refl

-- A group whose first two members differ always gives a clip; the clip is a member's, it is noted
-- as the last one played, and it is not the one that was played last.
pub pick_member-Fresh :
    (ticks last : ℕ) (a b : Member) (rest : List Member)
    → (a.id == b.id) ≡ false
    → 0 < last
    → (m : Member) × (pick_member ticks last (a ∷ b ∷ rest) ≡ some (m, m.id))
      × (any (λ (n : Member). n.id == m.id) (a ∷ b ∷ rest) ≡ true)
      × ((m.id == last) ≡ false)
unfolding pick_member has_id
pick_member-Fresh ticks last a b rest h hl =
    let filtered = keep (λ (m : Member). not (m.id == last)) (a ∷ b ∷ rest) in
    let some_left = length-keep_pos last a b rest h in
    let chosen = candidates-keep last a b rest h hl in
    let (m, hit) = get_elem?-some filtered (ticks % length filtered) (omega (arith, some_left)) in
    let fresh = has_id-keep last m.id (a ∷ b ∷ rest) in
    let found = get_elem?-has_id filtered (ticks % length filtered) m hit in
    (m, rw (chosen, hit) refl, ground arith, ground arith)
