-- ===== src/Snapshots/Keyed.antt =====
-- Tables with unique keys: what a lookup finds after a write, and after a reload.
use didstorageapp.Prelude.{
  ℕ, zero, suc, take, ◌≡◌, Bool, true, false, Option, none, some, List, [], ◌∷◌, keep,
  if◌then◌else◌, refl, Bool-cases, inl, inr, ap, ◌∙◌, subst,
}
use didstorageapp.Prelude.Text.{Bytes, same, same→eq, same_comm}
use didstorageapp.Snapshots.{find_key, merge, put, put_all, reload, all_rows, first_rows}

module _ {A : Type 0} (key : A → Bytes) where
  -- No two rows have the same key.
  abbrev pub IsKeyed : List A → Type 0
  IsKeyed [] = Unit
  IsKeyed (x ∷ xs) = (find_key key (key x) xs ≡ none) × IsKeyed xs

  -- What a merge leaves under its key.
  abbrev pub merged : (A → A) → A → Option A → A
  merged f x none = x
  merged f x (some y) = f y

  pub find_key-merge :
      (f : A → A) (x : A) (xs : List A) (k : Bytes)
      → ((y : A) → same (key y) (key x) ≡ true → key (f y) ≡ key x)
      → find_key key k (merge key f x xs) ≡ (
          if same (key x) k then some (merged f x (find_key key (key x) xs)) else find_key key k xs)
  unfolding merge
  find_key-merge f x [] k h = refl
  find_key-merge f x (y ∷ ys) k h = elim (Bool-cases (same (key y) (key x))) [
    | inl e ↦
        let eq : key y ≡ key x = same→eq (key y) (key x) e in
        rw (e, h y e, eq)
          (elim (Bool-cases (same (key x) k)) [ inl e' ↦ rw e' refl | inr e' ↦ rw e' refl ])
    | inr e ↦
        rw (e, find_key-merge f x ys k h)
          (elim (Bool-cases (same (key x) k)) [
            | inr e' ↦ rw e' refl
            | inl e' ↦
                let eq : key x ≡ k = same→eq (key x) k e' in
                rw e' (
                  subst
                    (λ k'.
                      (if same (key y) k'
                        then some y
                        else some (merged f x (find_key key (key x) ys)))
                      ≡ some (merged f x (find_key key (key x) ys)))
                    eq (rw e refl))
          ])
  ]

  -- A put leaves the row itself.
  pub find_key-put :
      (x : A) (m : List A) (k : Bytes)
      → find_key key k (put key x m) ≡ (if same (key x) k then some x else find_key key k m)
  find_key-put x m k =
      find_key-merge (λ y. x) x m k (λ y h. refl)
      ∙ ap (λ a. if same (key x) k then some a else find_key key k m)
          (the_row (find_key key (key x) m))
    where
      the_row : (o : Option A) → merged (λ y. x) x o ≡ x
      the_row none = refl
      the_row (some y) = refl

  pub merge-IsKeyed :
      (f : A → A) (x : A) (xs : List A)
      → ((y : A) → same (key y) (key x) ≡ true → key (f y) ≡ key x)
      → IsKeyed xs
      → IsKeyed (merge key f x xs)
  unfolding merge
  merge-IsKeyed f x [] h keyed = (refl, tt)
  merge-IsKeyed f x (y ∷ ys) h keyed = elim (Bool-cases (same (key y) (key x))) [
    | inl e ↦
        let eq : key y ≡ key x = same→eq (key y) (key x) e in
        rw (e, h y e) (subst (λ k. find_key key k ys ≡ none) eq keyed.0, keyed.1)
    | inr e ↦
        let other : same (key x) (key y) ≡ false = same_comm (key x) (key y) ∙ e in
        rw e (find_key-merge f x ys (key y) h ∙ rw other keyed.0, merge-IsKeyed f x ys h keyed.1)
  ]

  -- The first of two findings.
  abbrev pub first_of : Option A → Option A → Option A
  first_of none later = later
  first_of (some a) later = some a

  first_of-none : (o : Option A) → first_of o none ≡ o
  first_of-none none = refl
  first_of-none (some a) = refl

  find_key-put_all :
      (xs m : List A) (k : Bytes)
      → IsKeyed xs
      → find_key key k (put_all key xs m) ≡ first_of (find_key key k xs) (find_key key k m)
  unfolding put_all
  find_key-put_all [] m k keyed = refl
  find_key-put_all (x ∷ xs) m k keyed =
      let put_lem = find_key-put x m k in
      let ih = find_key-put_all xs (put key x m) k keyed.1 in
      elim (Bool-cases (same (key x) k)) [
        | inr e ↦ ih ∙ rw (put_lem, e) refl
        | inl e ↦
            let absent : find_key key k xs ≡ none =
              subst (λ k'. find_key key k' xs ≡ none) (same→eq (key x) k e) keyed.0 in
            ih ∙ rw (put_lem, absent, e) refl
      ]

  -- A complete reload shows the rows.
  pub find_key-reload :
      (xs m : List A) (k : Bytes)
      → IsKeyed xs
      → find_key key k (reload key all_rows xs m).1 ≡ find_key key k xs
  unfolding reload
  find_key-reload xs m k keyed = find_key-put_all xs [] k keyed ∙ first_of-none (find_key key k xs)

  -- What a test leaves of the row that is found.
  abbrev pub if_kept : (A → Bool) → Option A → Option A
  if_kept p none = none
  if_kept p (some a) = if p a then some a else none

  pub find_key-keep :
      (p : A → Bool) (xs : List A) (k : Bytes)
      → IsKeyed xs
      → find_key key k (keep p xs) ≡ if_kept p (find_key key k xs)
  find_key-keep p [] k keyed = refl
  find_key-keep p (x ∷ xs) k keyed =
      let ih = find_key-keep p xs k keyed.1 in
      elim (Bool-cases (same (key x) k)) [
        | inr e ↦ elim (Bool-cases (p x)) [ inl e' ↦ rw (e', e) ih | inr e' ↦ rw (e', e) ih ]
        | inl e ↦
            let absent : find_key key k xs ≡ none =
              subst (λ k'. find_key key k' xs ≡ none) (same→eq (key x) k e) keyed.0 in
            elim (Bool-cases (p x)) [
              | inl e' ↦ rw (e', e) (rw e' refl)
              | inr e' ↦ rw (e', e) (rw e' (ih ∙ rw absent refl))
            ]
      ]

  pub keep-IsKeyed : (p : A → Bool) (xs : List A) → IsKeyed xs → IsKeyed (keep p xs)
  keep-IsKeyed p [] keyed = tt
  keep-IsKeyed p (x ∷ xs) keyed = elim (Bool-cases (p x)) [
    | inl e ↦ rw e (find_key-keep p xs (key x) keyed.1 ∙ rw keyed.0 refl, keep-IsKeyed p xs keyed.1)
    | inr e ↦ rw e (keep-IsKeyed p xs keyed.1)
  ]

  find_key-take :
      (n : ℕ) (xs : List A) (k : Bytes)
      → find_key key k xs ≡ none
      → find_key key k (take n xs) ≡ none
  find_key-take zero xs k h = refl
  find_key-take (suc n) [] k h = refl
  find_key-take (suc n) (x ∷ xs) k h = elim (Bool-cases (same (key x) k)) [
    | inl e ↦ absurd (cc (rw e at h))
    | inr e ↦ rw e (find_key-take n xs k (rw e at h))
  ]

  take-IsKeyed : (n : ℕ) (xs : List A) → IsKeyed xs → IsKeyed (take n xs)
  take-IsKeyed zero xs keyed = tt
  take-IsKeyed (suc n) [] keyed = tt
  take-IsKeyed (suc n) (x ∷ xs) keyed =
      (find_key-take n xs (key x) keyed.0, take-IsKeyed n xs keyed.1)

  -- A reload whose rows break off shows the rows before.
  pub find_key-reload_first :
      (n : ℕ) (xs m : List A) (k : Bytes)
      → IsKeyed xs
      → find_key key k (reload key (first_rows n) xs m).1 ≡ find_key key k (take n xs)
  unfolding reload
  find_key-reload_first n xs m k keyed =
      find_key-put_all (take n xs) [] k (take-IsKeyed n xs keyed)
      ∙ first_of-none (find_key key k (take n xs))
