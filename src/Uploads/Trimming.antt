-- ===== src/Uploads/Trimming.antt =====
-- Trimming, capping and cutting keep the bytes that a name has.
use didstorageapp.Prelude.{
  ℕ, zero, suc, ◌-◌, ◌≤◌, ◌≡◌, Bool, true, false, ◌&&◌, Option, none, some, [], ◌∷◌, length,
  length-append, take, All, All-append, ◌==◌, leb, ltb, if◌then◌else◌, refl, arith, Bool-cases, inl,
  inr,
}
use didstorageapp.Prelude.Text.{Bytes, is_empty, cut_last}
use didstorageapp.Prelude.Cuts.{after_last}
use didstorageapp.Uploads.{trim_lead, trim_tail, base, dotted, extension, capped}

abbrev pub IsAll : (ℕ → Bool) → Bytes → Type 0
IsAll p s = All (λ c. p c ≡ true) s

pub trim_lead-IsAll : (p : ℕ → Bool) (b : ℕ) (s : Bytes) → IsAll p s → IsAll p (trim_lead b s)
unfolding trim_lead
trim_lead-IsAll p b [] h = tt
trim_lead-IsAll p b (c ∷ s) h = elim (Bool-cases (c == b)) [
  | inl e ↦ rw e (trim_lead-IsAll p b s h.1)
  | inr e ↦ rw e h
]

pub trim_tail-IsAll : (p : ℕ → Bool) (b : ℕ) (s : Bytes) → IsAll p s → IsAll p (trim_tail b s)
unfolding trim_tail
trim_tail-IsAll p b [] h = tt
trim_tail-IsAll p b (c ∷ s) h = elim (Bool-cases (c == b && is_empty (trim_tail b s))) [
  | inl e ↦ rw e tt
  | inr e ↦ rw e (h.0, trim_tail-IsAll p b s h.1)
]

pub length-trim_lead : (b : ℕ) (s : Bytes) → length (trim_lead b s) ≤ length s
unfolding trim_lead
length-trim_lead b [] = omega arith
length-trim_lead b (c ∷ s) = ground (arith, length-trim_lead b s)

pub length-trim_tail : (b : ℕ) (s : Bytes) → length (trim_tail b s) ≤ length s
unfolding trim_tail
length-trim_tail b [] = omega arith
length-trim_tail b (c ∷ s) = elim (Bool-cases (c == b && is_empty (trim_tail b s))) [
  | inl e ↦ rw e (omega arith)
  | inr e ↦ rw e (omega (arith, length-trim_tail b s))
]

take-IsAll : (p : ℕ → Bool) (n : ℕ) (s : Bytes) → IsAll p s → IsAll p (take n s)
take-IsAll p zero s h = tt
take-IsAll p (suc n) [] h = tt
take-IsAll p (suc n) (c ∷ s) h = (h.0, take-IsAll p n s h.1)

length-take : (n : ℕ) (s : Bytes) → length (take n s) ≤ n
length-take zero s = omega arith
length-take (suc n) [] = omega arith
length-take (suc n) (c ∷ s) = omega (arith, length-take n s)

-- What stands behind the last `b`.
abbrev pub behind : Option (Bytes × Bytes) → Bytes
behind none = []
behind (some (a, q)) = q

pub cut_last-IsAll :
    (p : ℕ → Bool) (b : ℕ) (s : Bytes) → IsAll p s → IsAll p (behind (cut_last b s))
unfolding cut_last
cut_last-IsAll p b [] h = tt
cut_last-IsAll p b (c ∷ s) h = go (cut_last b s) (cut_last-IsAll p b s h.1)
  where
    go :
        (o : Option (Bytes × Bytes))
        → IsAll p (behind o)
        → IsAll p (
            behind (elim o [
              | some (a, q) ↦ some (c ∷ a, q)
              | none ↦ if c == b then some ([], s) else none
            ]))
    go none k = elim (Bool-cases (c == b)) [ inl e ↦ rw e h.1 | inr e ↦ rw e tt ]
    go (some (a, q)) k = k

extension-IsAll : (p : ℕ → Bool) (s : Bytes) → p b'.' ≡ true → IsAll p s → IsAll p (extension s)
extension-IsAll p s dot h = go (cut_last b'.' s) (cut_last-IsAll p b'.' s h)
  where
    go : (o : Option (Bytes × Bytes)) → IsAll p (behind o) → IsAll p (dotted o)
    go none k = tt
    go (some (a, q)) k = (dot, k)

pub capped-IsAll : (p : ℕ → Bool) (s : Bytes) → p b'.' ≡ true → IsAll p s → IsAll p (capped s)
unfolding capped
capped-IsAll p s dot h = elim (Bool-cases (ltb 80 (length s))) [
  | inr e ↦ rw e h
  | inl e ↦ elim (Bool-cases (leb (length (extension s)) 8)) [
    | inr k ↦ rw (e, k) (take-IsAll p 80 s h)
    | inl k ↦
        rw (e, k)
          (All-append _ (take (80 - length (extension s)) s) (extension s)
            (take-IsAll p (80 - length (extension s)) s h) (extension-IsAll p s dot h))
  ]
]

pub length-capped : (s : Bytes) → length (capped s) ≤ 80
unfolding capped
length-capped s = elim (Bool-cases (ltb 80 (length s))) [
  | inr e ↦ rw e (ground (arith, e))
  | inl e ↦ elim (Bool-cases (leb (length (extension s)) 8)) [
    | inr k ↦ rw (e, k) (length-take 80 s)
    | inl k ↦
        let few : length (extension s) ≤ 8 = ground (arith, k) in
        let start = take (80 - length (extension s)) s in
        rw (e, k)
          (omega (
            arith,
            few,
            length-append start (extension s),
            length-take (80 - length (extension s)) s,
          ))
  ]
]

pub capped_short : (s : Bytes) → length s ≤ 80 → capped s ≡ s
unfolding capped
capped_short s h = let few : ltb 80 (length s) ≡ false = ground (arith, h) in rw few refl

-- Trimming again changes nothing.
trim_tail-head : (b c : ℕ) (s : Bytes) → trim_tail b (c ∷ s) ≡ c ∷ s → trim_tail b s ≡ s
unfolding trim_tail
trim_tail-head b c s h = elim (Bool-cases (c == b && is_empty (trim_tail b s))) [
  | inl e ↦ absurd (cc (rw e at h))
  | inr e ↦ cc (rw e at h)
]

pub trim_tail_twice : (b : ℕ) (s : Bytes) → trim_tail b (trim_tail b s) ≡ trim_tail b s
unfolding trim_tail
trim_tail_twice b [] = refl
trim_tail_twice b (c ∷ s) = elim (Bool-cases (c == b && is_empty (trim_tail b s))) [
  | inl e ↦ rw e refl
  | inr e ↦ rw e (rw (trim_tail_twice b s, e) refl)
]

pub trim_tail-trim_lead :
    (b : ℕ) (s : Bytes) → trim_tail b s ≡ s → trim_tail b (trim_lead b s) ≡ trim_lead b s
unfolding trim_lead
trim_tail-trim_lead b [] h = h
trim_tail-trim_lead b (c ∷ s) h = elim (Bool-cases (c == b)) [
  | inl e ↦ rw e (trim_tail-trim_lead b s (trim_tail-head b c s h))
  | inr e ↦ rw e h
]

pub trim_lead_twice : (b : ℕ) (s : Bytes) → trim_lead b (trim_lead b s) ≡ trim_lead b s
unfolding trim_lead
trim_lead_twice b [] = refl
trim_lead_twice b (c ∷ s) = elim (Bool-cases (c == b)) [
  | inl e ↦ rw e (trim_lead_twice b s)
  | inr e ↦ rw (e, e) refl
]

pub base-IsAll :
    (p : ℕ → Bool) (s : Bytes) → p b'.' ≡ true → p b'/' ≡ true → IsAll p s → IsAll p (base s)
unfolding base after_last
base-IsAll p s dot slash h = elim (Bool-cases (is_empty s)) [
  | inl e ↦ rw e (dot, tt)
  | inr e ↦ elim (Bool-cases (is_empty (trim_tail b'/' s))) [
    | inl k ↦ rw (e, k) (slash, tt)
    | inr k ↦
        let kept = trim_tail-IsAll p b'/' s h in
        rw (e, k)
          (go (cut_last b'/' (trim_tail b'/' s)) (trim_tail b'/' s) kept
            (cut_last-IsAll p b'/' (trim_tail b'/' s) kept))
  ]
]
  where
    go :
        (o : Option (Bytes × Bytes)) (t : Bytes)
        → IsAll p t
        → IsAll p (behind o)
        → IsAll p (elim o [ none ↦ t | some (a, q) ↦ q ])
    go none t k l = k
    go (some (a, q)) t k l = l
