-- ===== src/Strconv.antt =====
-- Numbers in Go texts: what the program calls of package strconv. A number of type int64 is its bit
-- pattern, below 2 ^ 64.
use didstorageapp.Prelude.{
  ℕ, zero, suc, ◌+◌, ◌-◌, ◌*◌, ◌/◌, ◌%◌, ◌^◌, ◌<◌, ◌≤◌, ◌≡◌, Bool-cases, inl, inr, refl, arith, ◌∙◌,
  ap, sym, subst, Bool, true, false, ◌&&◌, ◌||◌, not, Option, none, some, [], ◌∷◌, ◌==◌, leb, ltb,
  if◌then◌else◌,
}
use didstorageapp.Prelude.Text.{Bytes, is_empty, is_digit, decimal, IsDigits}
use didstorageapp.Prelude.Int.{ℤ, pos, neg}
use didstorageapp.Domain.Uri.{all_digits}

abbrev pub is_negative : ℕ → Bool
is_negative n = leb (2 ^ 63) n

-- `a <= b`
abbrev pub leb_int64 : ℕ → ℕ → Bool
leb_int64 a b =
    if is_negative a && not (is_negative b)
    then true
    else not (is_negative b && not (is_negative a)) && leb a b

-- The decimal digits of a number, by as many divisions as the fuel allows.
unfoldable pub digits_of : ℕ → ℕ → Bytes → Bytes
digits_of zero n behind = behind
digits_of (suc fuel) n behind = elim (ltb n 10) [
  | true ↦ (b'0' + n) ∷ behind
  | false ↦ digits_of fuel (n / 10) ((b'0' + n % 10) ∷ behind)
]

-- strconv.FormatInt: 20 digits hold every int64.
abbrev pub format_int64 : ℕ → Bytes
format_int64 n = if is_negative n then b'-' ∷ digits_of 20 (2 ^ 64 - n) [] else digits_of 20 n []

-- The digits behind a sign, up to a bound.
abbrev pub magnitude : ℕ → Bytes → Option ℕ
magnitude bound s =
    if is_empty s || not (all_digits s) || ltb bound (decimal 0 s) then none else some (decimal 0 s)

abbrev pub signed_as : (ℕ → ℤ) → Option ℕ → Option ℤ
signed_as f none = none
signed_as f (some n) = some (f n)

-- strconv.ParseInt, base 10, 64 bits
unfoldable pub parse_int64 : Bytes → Option ℤ
parse_int64 [] = none
parse_int64 (c ∷ s) =
    if c == b'-'
    then signed_as neg (magnitude (2 ^ 63) s)
    else if c == b'+'
    then signed_as pos (magnitude (2 ^ 63 - 1) s)
    else signed_as pos (magnitude (2 ^ 63 - 1) (c ∷ s))

-- The digits that strconv.ParseUint reads, to the first byte that is none or the digit that leaves
-- 64 bits; `none` is a syntax error.
unfoldable pub unsigned_from : ℕ → Bytes → Option ℕ
unsigned_from n [] = some n
unsigned_from n (c ∷ s) =
    if not (is_digit c)
    then none
    else let n' = n * 10 + (c - b'0') in
      let rest = unsigned_from n' s in if ltb n' (2 ^ 64) then rest else some (2 ^ 64 - 1)

abbrev pub unsigned : Bytes → Option ℕ
unsigned s = if is_empty s then none else unsigned_from 0 s

-- The value beside the error: 0 for a syntax error, the nearest int64 where the number is no int64.
abbrev pub clamped : (ℕ → ℤ) → ℕ → Option ℕ → ℤ
clamped sign bound none = pos 0
clamped sign bound (some n) = sign (if ltb bound n then bound else n)

-- `n, _ := strconv.Atoi(s)`
unfoldable pub atoi : Bytes → ℤ
atoi [] = pos 0
atoi (c ∷ s) =
    if c == b'-'
    then clamped neg (2 ^ 63) (unsigned s)
    else if c == b'+'
    then clamped pos (2 ^ 63 - 1) (unsigned s)
    else clamped pos (2 ^ 63 - 1) (unsigned (c ∷ s))

-- 10 ^ k
abbrev pub pow10 : ℕ → ℕ
pow10 zero = 1
pow10 (suc k) = 10 * pow10 k

digits_of_step :
    (fuel n : ℕ) (behind : Bytes)
    → digits_of (suc fuel) n behind ≡ (
        if ltb n 10
        then (b'0' + n) ∷ behind
        else digits_of fuel (n / 10) ((b'0' + n % 10) ∷ behind))
unfolding digits_of
digits_of_step fuel n behind = go (ltb n 10)
  where
    go :
        (b : Bool)
        → elim b [
          | true ↦ (b'0' + n) ∷ behind
          | false ↦ digits_of fuel (n / 10) ((b'0' + n % 10) ∷ behind)
        ]
          ≡ (if b then (b'0' + n) ∷ behind else digits_of fuel (n / 10) ((b'0' + n % 10) ∷ behind))
    go true = refl
    go false = refl

-- One more digit.
unsigned_from_digit :
    (n d : ℕ) (s : Bytes)
    → d < 10
    → n * 10 + d < 2 ^ 64
    → unsigned_from n ((b'0' + d) ∷ s) ≡ unsigned_from (n * 10 + d) s
unfolding unsigned_from
unsigned_from_digit n d s small fits =
    let digit : is_digit (b'0' + d) ≡ true = ground (arith, small) in
    let value : n * 10 + (b'0' + d - b'0') ≡ n * 10 + d = omega arith in
    let below : ltb (n * 10 + d) (2 ^ 64) ≡ true = ground (arith, fits) in
    rw (digit, value, below) refl

pub unsigned_from-digits_of :
    (fuel n : ℕ) (behind : Bytes)
    → n < 2 ^ 64
    → n < pow10 fuel
    → unsigned_from 0 (digits_of fuel n behind) ≡ unsigned_from n behind
unfolding digits_of
unsigned_from-digits_of zero n behind small fits =
    let none_left : n ≡ 0 = omega (arith, fits) in rw none_left refl
unsigned_from-digits_of (suc fuel) n behind small fits = elim (Bool-cases (ltb n 10)) [
  | inl e ↦
      let lead : 0 * 10 + n ≡ n = omega arith in
      ap (unsigned_from 0) (digits_of_step fuel n behind ∙ rw e refl)
      ∙ unsigned_from_digit 0 n behind (ground (arith, e)) (omega (arith, small))
      ∙ ap (λ m. unsigned_from m behind) lead
  | inr e ↦
      let big : 10 ≤ n = ground (arith, e) in
      let whole : n / 10 * 10 + n % 10 ≡ n = omega arith in
      ap (unsigned_from 0) (digits_of_step fuel n behind ∙ rw e refl)
      ∙ unsigned_from-digits_of fuel (n / 10) ((b'0' + n % 10) ∷ behind) (omega (arith, small))
          (omega (arith, fits))
      ∙ unsigned_from_digit (n / 10) (n % 10) behind (omega arith) (omega (arith, small))
      ∙ ap (λ m. unsigned_from m behind) whole
]

-- A written number has a digit at least, and only digits.
digits_of-IsDigits :
    (fuel n : ℕ) (behind : Bytes) → IsDigits behind → IsDigits (digits_of fuel n behind)
unfolding digits_of
digits_of-IsDigits zero n behind h = h
digits_of-IsDigits (suc fuel) n behind h =
    subst IsDigits (sym (digits_of_step fuel n behind)) (elim (Bool-cases (ltb n 10)) [
      | inl e ↦ let digit : is_digit (b'0' + n) ≡ true = ground (arith, e) in rw e (digit, h)
      | inr e ↦
          let digit : is_digit (b'0' + n % 10) ≡ true = ground arith in
          rw e (digits_of-IsDigits fuel (n / 10) ((b'0' + n % 10) ∷ behind) (digit, h))
    ])

digits_of_nonempty :
    (fuel n : ℕ) (behind : Bytes)
    → is_empty behind ≡ false
    → is_empty (digits_of fuel n behind) ≡ false
unfolding digits_of
digits_of_nonempty zero n behind h = h
digits_of_nonempty (suc fuel) n behind h =
    ap is_empty (digits_of_step fuel n behind) ∙ (elim (Bool-cases (ltb n 10)) [
      | inl e ↦ rw e refl
      | inr e ↦ rw e (digits_of_nonempty fuel (n / 10) ((b'0' + n % 10) ∷ behind) refl)
    ])

pub is_empty-digits_of : (fuel n : ℕ) → is_empty (digits_of (suc fuel) n []) ≡ false
is_empty-digits_of fuel n = ap is_empty (digits_of_step fuel n []) ∙ (elim (Bool-cases (ltb n 10)) [
  | inl e ↦ rw e refl
  | inr e ↦ rw e (digits_of_nonempty fuel (n / 10) ((b'0' + n % 10) ∷ []) refl)
])

-- What reading a text without a sign gives.
pub atoi-IsDigits :
    (s : Bytes) (n : ℕ)
    → IsDigits s
    → is_empty s ≡ false
    → unsigned_from 0 s ≡ some n
    → atoi s ≡ pos (if ltb (2 ^ 63 - 1) n then 2 ^ 63 - 1 else n)
unfolding atoi
atoi-IsDigits [] n h filled e = absurd (cc)
atoi-IsDigits (c ∷ s) n h filled e =
    let no_minus : (c == b'-') ≡ false = ground (arith, h.0) in
    let no_plus : (c == b'+') ≡ false = ground (arith, h.0) in rw (no_minus, no_plus, e) refl

pub atoi-digits_of : (n : ℕ) → n < 2 ^ 63 → atoi (digits_of 20 n []) ≡ pos n
unfolding unsigned_from
atoi-digits_of n small =
    let kept : ltb (2 ^ 63 - 1) n ≡ false = ground (arith, small) in
    atoi-IsDigits (digits_of 20 n []) n (digits_of-IsDigits 20 n [] tt) (is_empty-digits_of 19 n)
      (unsigned_from-digits_of 20 n [] (omega (arith, small)) (omega (arith, small)))
    ∙ rw kept refl
