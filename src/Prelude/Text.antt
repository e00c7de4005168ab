-- ===== src/Prelude/Text.antt =====
-- Go strings as lists of bytes, with the functions of package strings that the program calls. Texts
-- are ASCII where case or white space is concerned: `trim_space` and `to_lower` know no more.
use Prim.Native.Char.{code}
use Prim.Native.Nat.{ℕ, ◌+◌, ◌-◌, ◌*◌, ◌≤◌}
use Prim.Native.String.{String}
use mathlib.Core.Path.{◌≡◌, refl, subst}
use mathlib.Core.Bool.{Bool, true, false, ◌&&◌, ◌||◌}
use mathlib.Core.List.{List, [], ◌∷◌, ◌++◌, map}
use mathlib.Core.Option
use mathlib.Core.Option.{Option, none, some}
use native.Mathlib.Omega.{arith}
use didstorageapp.Prelude.Tests.{leb, ◌==◌, if◌then◌else◌}
use didstorageapp.Prelude.Lists.{length, drop, keep, All}

abbrev pub Bytes : Type 0
Bytes = List ℕ

-- The bytes of an ASCII literal.
abbrev pub codes : String → Bytes
codes String.[] = []
codes (String.◌∷◌ c s) = code c ∷ codes s

-- `s == t`
abbrev pub same : Bytes → Bytes → Bool
same [] [] = true
same [] (d ∷ t) = false
same (c ∷ s) [] = false
same (c ∷ s) (d ∷ t) = c == d && same s t

abbrev pub is_empty : Bytes → Bool
is_empty [] = true
is_empty (c ∷ s) = false

abbrev pub is_digit : ℕ → Bool
is_digit c = leb b'0' c && leb c b'9'

-- The ASCII white space: tab, line feed, vertical tab, form feed, carriage return, space.
abbrev pub is_space : ℕ → Bool
is_space c = (leb 9 c && leb c 13) || c == 32

-- `strings.HasPrefix`
abbrev pub has_prefix : Bytes → Bytes → Bool
has_prefix s [] = true
has_prefix [] (p ∷ ps) = false
has_prefix (c ∷ s) (p ∷ ps) = c == p && has_prefix s ps

-- `strings.TrimPrefix`
unfoldable pub trim_prefix : Bytes → Bytes → Bytes
trim_prefix s p = if has_prefix s p then drop (length p) s else s

-- `strings.TrimSuffix` of one byte
unfoldable pub trim_suffix_byte : Bytes → ℕ → Bytes
trim_suffix_byte [] b = []
trim_suffix_byte (c ∷ []) b = if c == b then [] else c ∷ []
trim_suffix_byte (c ∷ d ∷ s) b = c ∷ trim_suffix_byte (d ∷ s) b

unfoldable pub trim_left : Bytes → Bytes
trim_left [] = []
trim_left (c ∷ s) = if is_space c then trim_left s else c ∷ s

unfoldable pub trim_right : Bytes → Bytes
trim_right [] = []
trim_right (c ∷ s) = let rest = trim_right s in if is_space c && is_empty rest then [] else c ∷ rest

-- `strings.TrimSpace`
unfoldable pub trim_space : Bytes → Bytes
unfolding trim_left trim_right
trim_space s = trim_right (trim_left s)

unfoldable pub lower : ℕ → ℕ
lower c = if leb b'A' c && leb c b'Z' then c + 32 else c

unfoldable pub upper : ℕ → ℕ
upper c = if leb b'a' c && leb c b'z' then c - 32 else c

-- `strings.ToLower`, `strings.ToUpper`
unfoldable pub to_lower : Bytes → Bytes
unfolding lower
to_lower s = map lower s

unfoldable pub to_upper : Bytes → Bytes
unfolding upper
to_upper s = map upper s

-- What stands before and behind the first `b`; `none` where `strings.Index` is -1.
unfoldable pub cut : ℕ → Bytes → Option (Bytes × Bytes)
cut b [] = none
cut b (c ∷ s) =
    let rest = Option.map (λ (p : Bytes × Bytes). (c ∷ p.0, p.1)) (cut b s) in
    if c == b then some ([], s) else rest

-- What stands before and behind the last `b`; `none` where `strings.LastIndex` is -1.
unfoldable pub cut_last : ℕ → Bytes → Option (Bytes × Bytes)
cut_last b [] = none
cut_last b (c ∷ s) = elim (cut_last b s) [
  | some (p, q) ↦ some (c ∷ p, q)
  | none ↦ if c == b then some ([], s) else none
]

-- `s[:i]` for `i = strings.Index(s, b)` where that is not negative, `s` otherwise.
unfoldable pub before : ℕ → Bytes → Bytes
before b [] = []
before b (c ∷ s) = if c == b then [] else c ∷ before b s

-- A decimal value, most significant digit first.
unfoldable pub decimal : ℕ → Bytes → ℕ
decimal n [] = n
decimal n (c ∷ s) = decimal (n * 10 + (c - b'0')) s

abbrev pub IsDigits : Bytes → Type 0
IsDigits = All (λ c. is_digit c ≡ true)

abbrev pub Lacks : ℕ → Bytes → Type 0
Lacks b = All (λ c. (c == b) ≡ false)

pub same_refl : (s : Bytes) → same s s ≡ true
same_refl [] = refl
same_refl (c ∷ s) = ground (arith, same_refl s)

pub same→eq : (s t : Bytes) → same s t ≡ true → s ≡ t
same→eq [] [] h = refl
same→eq [] (d ∷ t) h = cc
same→eq (c ∷ s) [] h = cc
same→eq (c ∷ s) (d ∷ t) h = ground (arith, same→eq s t)

pub before-Lacks : (b : ℕ) (s : Bytes) → Lacks b (before b s)
unfolding before
before-Lacks b [] = tt
before-Lacks b (c ∷ s) = ground (arith, before-Lacks b s)

pub length-before : (b : ℕ) (s : Bytes) → length (before b s) ≤ length s
unfolding before
length-before b [] = omega arith
length-before b (c ∷ s) = ground (arith, length-before b s)

-- Cutting a text that lacks the byte changes nothing.
pub before-eq_self : (b : ℕ) (s : Bytes) → Lacks b s → before b s ≡ s
unfolding before
before-eq_self b [] h = refl
before-eq_self b (c ∷ s) h = ground (arith, before-eq_self b s h.1)

pub before-append : (b : ℕ) (s t : Bytes) → Lacks b s → before b (s ++ b ∷ t) ≡ s
unfolding before
before-append b [] t h = ground arith
before-append b (c ∷ s) t h = ground (arith, before-append b s t h.1)

pub keep-IsDigits : (s : Bytes) → IsDigits (keep is_digit s)
keep-IsDigits [] = tt
keep-IsDigits (c ∷ s) = ground (arith, keep-IsDigits s)

pub keep-eq_self : (s : Bytes) → IsDigits s → keep is_digit s ≡ s
keep-eq_self [] h = refl
keep-eq_self (c ∷ s) h = rw h.0 (ground (arith, keep-eq_self s h.1))

pub same_comm : (s t : Bytes) → same s t ≡ same t s
same_comm [] [] = refl
same_comm [] (d ∷ t) = refl
same_comm (c ∷ s) [] = refl
same_comm (c ∷ s) (d ∷ t) = ground (arith, same_comm s t)

-- Equal keys are equal to the same keys.
pub same_swap : (k i j : Bytes) → same k i ≡ true → same j i ≡ same k j
same_swap k i j h = subst (λ x. same j x ≡ same k j) (same→eq k i h) (same_comm j k)
