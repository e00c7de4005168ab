-- ===== src/Prelude/Lists.antt =====
-- Lists over the native numbers, Boolean filters, and predicates that hold of every element.
use Prim.Native.Nat.{ℕ, zero, suc, ◌+◌, ◌≤◌}
use mathlib.Core.Path.{◌≡◌, refl, subst}
use mathlib.Core.List.{List, [], ◌∷◌, ◌++◌, map}
use mathlib.Core.Bool.{Bool, true, false, ◌||◌}
use mathlib.Core.Option.{Option, none, some}
use native.Mathlib.Omega.{arith}
use mathlib.Core.Logic.{inl, inr}
use didstorageapp.Prelude.Tests.{if◌then◌else◌, Bool-cases}

module _ {ℓ} {A : Type ℓ} where
  abbrev pub length : List A → ℕ
  length [] = 0
  length (x ∷ xs) = suc (length xs)

  abbrev pub get_elem? : List A → ℕ → Option A
  get_elem? [] i = none
  get_elem? (x ∷ xs) zero = some x
  get_elem? (x ∷ xs) (suc i) = get_elem? xs i

  abbrev pub take : ℕ → List A → List A
  take zero xs = []
  take (suc n) [] = []
  take (suc n) (x ∷ xs) = x ∷ take n xs

  abbrev pub drop : ℕ → List A → List A
  drop zero xs = xs
  drop (suc n) [] = []
  drop (suc n) (x ∷ xs) = drop n xs

  -- The elements that pass a Boolean test, in their order.
  abbrev pub keep : (A → Bool) → List A → List A
  keep p [] = []
  keep p (x ∷ xs) = if p x then x ∷ keep p xs else keep p xs

  -- The first element that passes a Boolean test.
  abbrev pub find : (A → Bool) → List A → Option A
  find p [] = none
  find p (x ∷ xs) = if p x then some x else find p xs

  abbrev pub any : (A → Bool) → List A → Bool
  any p [] = false
  any p (x ∷ xs) = p x || any p xs

  pub length-append : (xs ys : List A) → length (xs ++ ys) ≡ length xs + length ys
  length-append [] ys = omega arith
  length-append (x ∷ xs) ys = omega (arith, length-append xs ys)

  pub length-keep : (p : A → Bool) (xs : List A) → length (keep p xs) ≤ length xs
  length-keep p [] = omega arith
  length-keep p (x ∷ xs) = ground (arith, length-keep p xs)

module _ {ℓ κ} {A : Type ℓ} (P : A → Type κ) where
  abbrev pub All : List A → Type κ
  All [] = Unit
  All (x ∷ xs) = P x × All xs

  pub All-append : (xs ys : List A) → All xs → All ys → All (xs ++ ys)
  All-append [] ys _ hy = hy
  All-append (x ∷ xs) ys (px, hx) hy = (px, All-append xs ys hx hy)

  pub All-keep : (p : A → Bool) (xs : List A) → All xs → All (keep p xs)
  All-keep p [] h = tt
  All-keep p (x ∷ xs) (px, hx) = elim (Bool-cases (p x)) [
    | inl e ↦ rw e (px, All-keep p xs hx)
    | inr e ↦ rw e (All-keep p xs hx)
  ]

module _ {ℓ κ} {A : Type ℓ} {B : Type κ} where
  -- A map carries a property of the elements over.
  pub All-map {μ ν} :
      (P : A → Type μ) (Q : B → Type ν) (f : A → B)
      → ((x : A) → P x → Q (f x))
      → (xs : List A) → All P xs
      → All Q (map f xs)
  All-map P Q f h [] p = tt
  All-map P Q f h (x ∷ xs) p = (h x p.0, All-map P Q f h xs p.1)

module _ {ℓ} {A : Type ℓ} where
  pub All-weaken {μ ν} :
      (P : A → Type μ) (Q : A → Type ν)
      → ((x : A) → P x → Q x)
      → (xs : List A) → All P xs
      → All Q xs
  All-weaken P Q h [] p = tt
  All-weaken P Q h (x ∷ xs) p = (h x p.0, All-weaken P Q h xs p.1)

  -- Nothing is kept where the test fails on every element.
  pub keep-eq-nil : (p : A → Bool) (xs : List A) → All (λ x. p x ≡ false) xs → keep p xs ≡ []
  keep-eq-nil p [] h = refl
  keep-eq-nil p (x ∷ xs) h = rw (h.0, keep-eq-nil p xs h.1)

  pub find-eq-none : (p : A → Bool) (xs : List A) → find p xs ≡ none → All (λ x. p x ≡ false) xs
  find-eq-none p [] h = tt
  find-eq-none p (x ∷ xs) h = ground (arith, find-eq-none p xs)

  -- What is found has every property that all elements have.
  pub find-All {κ} :
      (P : A → Type κ) (p : A → Bool) (xs : List A) (x : A) → All P xs → find p xs ≡ some x → P x
  find-All P p [] x h e = absurd (cc)
  find-All P p (y ∷ xs) x h e = elim (Bool-cases (p y)) [
    | inl hit ↦ let same : y ≡ x = cc (rw hit at e) in subst P same h.0
    | inr miss ↦ find-All P p xs x h.1 (rw miss at e)
  ]

  pub find_passes : (p : A → Bool) (xs : List A) (x : A) → find p xs ≡ some x → p x ≡ true
  find_passes p [] x h = absurd (cc)
  find_passes p (y ∷ xs) x h = elim (Bool-cases (p y)) [
    | inl hit ↦ let same : y ≡ x = cc (rw hit at h) in subst (λ z. p z ≡ true) same hit
    | inr miss ↦ find_passes p xs x (rw miss at h)
  ]
