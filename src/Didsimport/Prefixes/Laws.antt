-- ===== src/Didsimport/Prefixes/Laws.antt =====
-- The most specific prefix wins.
use didstorageapp.Prelude.{
  ◌≤◌, ◌≡◌, Bool, true, false, Option, none, some, List, [], ◌∷◌, find, find_passes, find-eq-none,
  All, All-weaken, length, not, ◌||◌, leb, refl, arith, Bool-cases, Option-cases, inl, inr, subst,
}
use didstorageapp.Prelude.Text.{Bytes, codes, has_prefix, trim_prefix}
use didstorageapp.Didsimport.Prefixes.{
  CountryPrefix, is_before, insert_prefix, match_order, match_in,
}

-- No prefix is longer than one that stands before it.
Descends : List CountryPrefix → Type 0
Descends [] = Unit
Descends (p ∷ ps) = All (λ (q : CountryPrefix). length q.prefix ≤ length p.prefix) ps × Descends ps

All-insert_prefix :
    (P : CountryPrefix → Type 0) (p : CountryPrefix) (ps : List CountryPrefix)
    → P p
    → All P ps
    → All P (insert_prefix p ps)
unfolding insert_prefix
All-insert_prefix P p [] h hs = (h, tt)
All-insert_prefix P p (q ∷ qs) h hs = elim (Bool-cases (is_before p q)) [
  | inl e ↦ rw e (h, hs)
  | inr e ↦ rw e (hs.0, All-insert_prefix P p qs h hs.1)
]

All-inserted :
    (P : CountryPrefix → Type 0) (p : CountryPrefix) (ps : List CountryPrefix)
    → All P (insert_prefix p ps)
    → P p × All P ps
unfolding insert_prefix
All-inserted P p [] h = h
All-inserted P p (q ∷ qs) h = elim (Bool-cases (is_before p q)) [
  | inl e ↦ let here : All P (p ∷ q ∷ qs) = rw e at h in here
  | inr e ↦
      let there : All P (q ∷ insert_prefix p qs) = rw e at h in
      let (hp, hqs) = All-inserted P p qs there.1 in (hp, (there.0, hqs))
]

All-ordered :
    (P : CountryPrefix → Type 0) (ps : List CountryPrefix) → All P (match_order ps) → All P ps
unfolding match_order
All-ordered P [] h = tt
All-ordered P (p ∷ ps) h =
    let (hp, hps) = All-inserted P p (match_order ps) h in (hp, All-ordered P ps hps)

insert_prefix-Descends :
    (p : CountryPrefix) (ps : List CountryPrefix) → Descends ps → Descends (insert_prefix p ps)
unfolding insert_prefix Descends
insert_prefix-Descends p [] h = (tt, tt)
insert_prefix-Descends p (q ∷ qs) h = elim (Bool-cases (is_before p q)) [
  | inl e ↦
      let le : length q.prefix ≤ length p.prefix = ground arith in
      rw e ((le, All-weaken _ _ (λ r hr. omega (arith, hr, le)) qs h.0), h)
  | inr e ↦
      let le : length p.prefix ≤ length q.prefix = ground arith in
      rw e (All-insert_prefix _ p qs le h.0, insert_prefix-Descends p qs h.1)
]

match_order-Descends : (ps : List CountryPrefix) → Descends (match_order ps)
unfolding match_order Descends
match_order-Descends [] = tt
match_order-Descends (p ∷ ps) = insert_prefix-Descends p (match_order ps) (match_order-Descends ps)

-- Of the elements that pass a test, the first is as long as any.
found-longest :
    (t : CountryPrefix → Bool) (ps : List CountryPrefix) (p : CountryPrefix)
    → Descends ps
    → find t ps ≡ some p
    → All (λ (q : CountryPrefix). (not (t q) || leb (length q.prefix) (length p.prefix)) ≡ true) ps
unfolding Descends
found-longest t [] p d h = tt
found-longest t (x ∷ ps) p d h = elim (Bool-cases (t x)) [
  | inl e ↦
      let here : x ≡ p = cc (rw e at h) in
      subst
        (λ (z : CountryPrefix).
          All (λ (q : CountryPrefix). (not (t q) || leb (length q.prefix) (length z.prefix)) ≡ true)
            (x ∷ ps))
        here
        (
          ground arith,
          All-weaken (λ (q : CountryPrefix). length q.prefix ≤ length x.prefix)
              (λ (q : CountryPrefix). (not (t q) || leb (length q.prefix) (length x.prefix)) ≡ true)
              (λ r hr. ground (arith, hr)) ps d.0,
        )
  | inr e ↦ (rw e refl, found-longest t ps p d.1 (rw e at h))
]

-- What MatchCountry promises of a number: no prefix of the table fits, or the prefix that it finds
-- fits and every other prefix that fits is at most as long.
abbrev pub Best : List CountryPrefix → Bytes → Option CountryPrefix → Type 0
Best table e164 none =
    All (λ (q : CountryPrefix). has_prefix (trim_prefix e164 (codes "+")) q.prefix ≡ false) table
Best table e164 (some p) =
    (has_prefix (trim_prefix e164 (codes "+")) p.prefix ≡ true)
    × All
        (λ (q : CountryPrefix).
          (not (has_prefix (trim_prefix e164 (codes "+")) q.prefix)
            || leb (length q.prefix) (length p.prefix))
          ≡ true)
        table

-- Whatever the table and its order, the walk over the sorted table finds a prefix of greatest
-- length that the number, without a leading plus, begins with, and finds none only where none fits.
pub match_in-Best :
    (table : List CountryPrefix) (e164 : Bytes)
    → Best table e164 (match_in (match_order table) e164)
unfolding match_in
match_in-Best table e164 =
    let t = λ (p : CountryPrefix). has_prefix (trim_prefix e164 (codes "+")) p.prefix in
    elim (Option-cases (find t (match_order table))) [
      | inl e ↦ rw e (All-ordered _ table (find-eq-none t (match_order table) e))
      | inr (p, e) ↦ rw e (
        find_passes t (match_order table) p e,
        All-ordered _ table (found-longest t (match_order table) p (match_order-Descends table) e),
      )
    ]
