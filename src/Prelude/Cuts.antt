-- ===== src/Prelude/Cuts.antt =====
-- What trimming and cutting do to texts of a known shape.
use Prim.Native.Nat.{ℕ, zero, suc}
use mathlib.Core.Path.{◌≡◌, refl}
use mathlib.Core.Logic.{inl, inr}
use mathlib.Core.Bool.{true, false}
use mathlib.Core.List.{[], ◌∷◌, ◌++◌}
use mathlib.Core.Option.{none, some}
use native.Mathlib.Omega.{arith}
use didstorageapp.Prelude.Tests.{Option-cases, Bool-cases}
use didstorageapp.Prelude.Lists.{All, length, drop}
use didstorageapp.Prelude.Text.{
  Bytes, Lacks, is_empty, is_space, trim_left, trim_right, trim_space, trim_prefix, has_prefix, cut,
  cut_last,
}

abbrev pub IsSolid : Bytes → Type 0
IsSolid = All (λ c. is_space c ≡ false)

trim_right_solid : (s : Bytes) → IsSolid s → trim_right s ≡ s
unfolding trim_right
trim_right_solid [] h = refl
trim_right_solid (c ∷ s) h = rw (h.0, trim_right_solid s h.1)

trim_left_solid : (s : Bytes) → IsSolid s → trim_left s ≡ s
unfolding trim_left
trim_left_solid [] h = refl
trim_left_solid (c ∷ s) h = rw h.0

-- A text with no white space is not changed by trimming.
pub trim_space_solid : (s : Bytes) → IsSolid s → trim_space s ≡ s
unfolding trim_space
trim_space_solid s h = rw (trim_left_solid s h, trim_right_solid s h)

is_empty-concat : (s : Bytes) (c : ℕ) → is_empty (s ++ c ∷ []) ≡ false
is_empty-concat [] c = refl
is_empty-concat (d ∷ s) c = refl

trim_right-concat :
    (s : Bytes) (c : ℕ) → is_space c ≡ false → trim_right (s ++ c ∷ []) ≡ s ++ c ∷ []
unfolding trim_right
trim_right-concat [] c h = rw h
trim_right-concat (d ∷ s) c h = rw (trim_right-concat s c h, is_empty-concat s c) (ground arith)

-- A text whose first and last bytes are no white space is not changed by trimming.
pub trim_space_framed :
    (c : ℕ) (s : Bytes) (d : ℕ)
    → is_space c ≡ false
    → is_space d ≡ false
    → trim_space (c ∷ s ++ d ∷ []) ≡ c ∷ s ++ d ∷ []
unfolding trim_space trim_left
trim_space_framed c s d hc hd = rw hc (trim_right-concat (c ∷ s) d hd)

pub trim_space_lead : (c : ℕ) (s : Bytes) → is_space c ≡ true → trim_space (c ∷ s) ≡ trim_space s
unfolding trim_space trim_left
trim_space_lead c s h = rw h

module _ (P : ℕ → Type 0) where
  trim_left-All : (s : Bytes) → All P s → All P (trim_left s)
  unfolding trim_left
  trim_left-All [] h = tt
  trim_left-All (c ∷ s) h = ground (arith, trim_left-All s h.1)

  trim_right-All : (s : Bytes) → All P s → All P (trim_right s)
  unfolding trim_right
  trim_right-All [] h = tt
  trim_right-All (c ∷ s) h = ground (arith, trim_right-All s h.1)

  -- Trimming keeps what every byte satisfies.
  pub trim_space-All : (s : Bytes) → All P s → All P (trim_space s)
  unfolding trim_space
  trim_space-All s h = trim_right-All (trim_left s) (trim_left-All s h)

pub cut-append : (b : ℕ) (s t : Bytes) → Lacks b s → cut b (s ++ b ∷ t) ≡ some (s, t)
unfolding cut
cut-append b [] t h = ground arith
cut-append b (c ∷ s) t h = rw (h.0, cut-append b s t h.1)

pub cut-Lacks : (b : ℕ) (s : Bytes) → Lacks b s → cut b s ≡ none
unfolding cut
cut-Lacks b [] h = refl
cut-Lacks b (c ∷ s) h = rw (h.0, cut-Lacks b s h.1)

pub cut_last-Lacks : (b : ℕ) (s : Bytes) → Lacks b s → cut_last b s ≡ none
unfolding cut_last
cut_last-Lacks b [] h = refl
cut_last-Lacks b (c ∷ s) h = rw (cut_last-Lacks b s h.1) (ground arith)

pub cut_last-append : (b : ℕ) (s t : Bytes) → Lacks b t → cut_last b (s ++ b ∷ t) ≡ some (s, t)
unfolding cut_last
cut_last-append b [] t h = rw (cut_last-Lacks b t h) (ground arith)
cut_last-append b (c ∷ s) t h = rw (cut_last-append b s t h)

cut_last-none : (b : ℕ) (s : Bytes) → cut_last b s ≡ none → Lacks b s
unfolding cut_last
cut_last-none b [] h = tt
cut_last-none b (c ∷ s) h = ground (arith, cut_last-none b s)

-- What stands behind the last `b` lacks it.
cut_last_after : (b : ℕ) (s p q : Bytes) → cut_last b s ≡ some (p, q) → Lacks b q
unfolding cut_last
cut_last_after b [] p q h = cc
cut_last_after b (c ∷ s) p q h = elim (Option-cases (cut_last b s)) [
  | inl e ↦ ground (arith, cut_last-none b s e)
  | inr (r, e) ↦ ground (arith, cut_last_after b s r.0 r.1)
]

-- `t[i+1:]` for `i = strings.LastIndex(t, b)` where that is not negative, `t` otherwise.
unfoldable pub after_last : ℕ → Bytes → Bytes
unfolding cut_last
after_last b t = elim (cut_last b t) [ none ↦ t | some (p, q) ↦ q ]

pub after_last-Lacks : (b : ℕ) (s : Bytes) → Lacks b (after_last b s)
unfolding after_last
after_last-Lacks b s = elim (Option-cases (cut_last b s)) [
  | inl e ↦ rw (e, after_last) (cut_last-none b s e)
  | inr (r, e) ↦ rw (e, after_last) (cut_last_after b s r.0 r.1 e)
]

drop-All : (P : ℕ → Type 0) (n : ℕ) (s : Bytes) → All P s → All P (drop n s)
drop-All P zero s h = h
drop-All P (suc n) [] h = tt
drop-All P (suc n) (c ∷ s) h = drop-All P n s h.1

-- Cutting a prefix off keeps what every byte satisfies.
pub trim_prefix-All : (P : ℕ → Type 0) (s p : Bytes) → All P s → All P (trim_prefix s p)
unfolding trim_prefix
trim_prefix-All P s p h = elim (Bool-cases (has_prefix s p)) [
  | inl e ↦ rw e (drop-All P (length p) s h)
  | inr e ↦ rw e h
]
