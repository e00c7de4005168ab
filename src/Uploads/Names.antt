-- ===== src/Uploads/Names.antt =====
-- What is left of the name of an uploaded file.
use didstorageapp.Prelude.{
  ℕ, ◌+◌, ◌/◌, ◌%◌, ◌≤◌, ◌≡◌, ◌⊎◌, Bool, true, false, ◌&&◌, ◌||◌, some, List, [], ◌∷◌, length,
  All-append, leb, ltb, refl, arith, Bool-cases, inl, inr, subst,
}
use didstorageapp.Prelude.Text.{Bytes, is_empty, Lacks}
use didstorageapp.Prelude.Cuts.{after_last, cut_last-Lacks}
use didstorageapp.Uploads.Trimming.{
  IsAll, trim_lead-IsAll, trim_tail-IsAll, capped-IsAll, base-IsAll, length-trim_lead,
  length-trim_tail, length-capped, capped_short, trim_tail_twice, trim_lead_twice,
  trim_tail-trim_lead,
}
use didstorageapp.Uploads.{
  trim_lead, trim_tail, base, is_safe, utf8, safe_rune, safe_runes, capped, unless_empty,
  sanitize_filename,
}

-- A byte of the result: safe, or of a rune that is not ASCII.
abbrev pub is_kept : ℕ → Bool
is_kept c = is_safe c || leb 128 c

abbrev pub is_ascii : List ℕ → Bool
is_ascii [] = true
is_ascii (c ∷ s) = ltb c 128 && is_ascii s

utf8_kept : (r : ℕ) → leb 128 r ≡ true → IsAll is_kept (utf8 r)
utf8_kept r h =
    let last = high (128 + r % 64) (omega arith) in
    let middle = high (128 + r / 64 % 64) (omega arith) in
    elim (Bool-cases (ltb r 128)) [
      | inl e ↦ absurd (ground (arith, h, e))
      | inr e ↦ elim (Bool-cases (ltb r 2048)) [
        | inl f ↦ rw (e, f) (high (192 + r / 64) (omega arith), (last, tt))
        | inr f ↦ elim (Bool-cases (ltb r 65536)) [
          | inl g ↦ rw (e, f, g) (high (224 + r / 4096) (omega arith), (middle, (last, tt)))
          | inr g ↦
              let second = high (128 + r / 4096 % 64) (omega arith) in
              rw (e, f, g) (high (240 + r / 262144) (omega arith), (second, (middle, (last, tt))))
        ]
      ]
    ]
  where
    high : (c : ℕ) → 128 ≤ c → is_kept c ≡ true
    high c h = ground (arith, h)

safe_rune_kept : (digits : ℕ → Bool) (r : ℕ) → IsAll is_kept (safe_rune digits r)
safe_rune_kept digits r = elim (Bool-cases (leb 128 r)) [
  | inl e ↦ elim (Bool-cases (is_safe r || leb 128 r && digits r)) [
    | inl k ↦ rw k (utf8_kept r e)
    | inr k ↦ rw k (refl, tt)
  ]
  | inr e ↦ elim (Bool-cases (is_safe r)) [
    | inl k ↦ let low : ltb r 128 ≡ true = ground (arith, e) in rw (k, low) (rw k refl, tt)
    | inr k ↦ rw (k, e) (refl, tt)
  ]
]

safe_runes_kept : (digits : ℕ → Bool) (s : List ℕ) → IsAll is_kept (safe_runes digits s)
safe_runes_kept digits [] = tt
safe_runes_kept digits (r ∷ s) =
    All-append _ (safe_rune digits r) (safe_runes digits s) (safe_rune_kept digits r)
      (safe_runes_kept digits s)

-- Of ASCII runes only safe bytes are left.
safe_runes_ascii :
    (digits : ℕ → Bool) (s : List ℕ) → is_ascii s ≡ true → IsAll is_safe (safe_runes digits s)
safe_runes_ascii digits [] h = tt
safe_runes_ascii digits (r ∷ s) h =
    let low : ltb r 128 ≡ true = ground (arith, h) in
    let ascii : leb 128 r ≡ false = ground (arith, low) in
    let rest = safe_runes_ascii digits s (ground (arith, h)) in
    elim (Bool-cases (is_safe r)) [
      | inl k ↦ rw (k, low) (rw k refl, rest)
      | inr k ↦ rw (k, ascii) (refl, rest)
    ]

safe_runes_same : (digits : ℕ → Bool) (s : Bytes) → IsAll is_safe s → safe_runes digits s ≡ s
safe_runes_same digits [] h = refl
safe_runes_same digits (c ∷ s) h =
    let low : ltb c 128 ≡ true = ground (arith, h.0) in
    rw (h.0, low, safe_runes_same digits s h.1) refl

safe-Lacks : (s : Bytes) → IsAll is_safe s → Lacks b'/' s
safe-Lacks [] h = tt
safe-Lacks (c ∷ s) h = (ground (arith, h.0), safe-Lacks s h.1)

trim_tail-Lacks : (b : ℕ) (s : Bytes) → Lacks b s → trim_tail b s ≡ s
unfolding trim_tail
trim_tail-Lacks b [] h = refl
trim_tail-Lacks b (c ∷ s) h = rw (h.0, trim_tail-Lacks b s h.1) refl

after_last-eq_self : (b : ℕ) (s : Bytes) → Lacks b s → after_last b s ≡ s
unfolding after_last
after_last-eq_self b s h = rw (cut_last-Lacks b s h, after_last) refl

base_safe : (s : Bytes) → is_empty s ≡ false → IsAll is_safe s → base s ≡ s
unfolding base
base_safe s filled h =
    let clean = safe-Lacks s h in
    rw (filled, trim_tail-Lacks b'/' s clean, filled) (after_last-eq_self b'/' s clean)

unless_empty-some : (s t : Bytes) → unless_empty s ≡ some t → (s ≡ t) × (is_empty s ≡ false)
unless_empty-some [] t h = absurd (cc)
unless_empty-some (c ∷ s) t h = (cc, refl)

unless_empty_filled : (s : Bytes) → is_empty s ≡ false → unless_empty s ≡ some s
unless_empty_filled [] h = absurd (cc)
unless_empty_filled (c ∷ s) h = refl

module _ (p : ℕ → Bool) (dot : p b'.' ≡ true) where
  trimmed-IsAll : (s : Bytes) → IsAll p s → IsAll p (trim_lead b'.' (trim_tail b'.' (capped s)))
  trimmed-IsAll s h =
      trim_lead-IsAll p b'.' (trim_tail b'.' (capped s))
        (trim_tail-IsAll p b'.' (capped s) (capped-IsAll p s dot h))

length-trimmed : (s : Bytes) → length (trim_lead b'.' (trim_tail b'.' (capped s))) ≤ 80
length-trimmed s = omega (
  arith,
  length-trim_lead b'.' (trim_tail b'.' (capped s)),
  length-trim_tail b'.' (capped s),
  length-capped s,
)

ascii-IsAll : (s : List ℕ) → is_ascii s ≡ true → IsAll (λ c. ltb c 128) s
ascii-IsAll [] h = tt
ascii-IsAll (c ∷ s) h = (ground (arith, h), ascii-IsAll s (ground (arith, h)))

IsAll-ascii : (s : List ℕ) → IsAll (λ c. ltb c 128) s → is_ascii s ≡ true
IsAll-ascii [] h = refl
IsAll-ascii (c ∷ s) h = rw (h.0, IsAll-ascii s h.1) refl

-- A safe name without dots at its ends is sanitized to itself.
sanitize_filename_safe :
    (digits : ℕ → Bool) (t : Bytes)
    → IsAll is_safe t
    → is_empty t ≡ false
    → length t ≤ 80
    → trim_lead b'.' t ≡ t
    → trim_tail b'.' t ≡ t
    → sanitize_filename digits t ≡ some t
unfolding sanitize_filename
sanitize_filename_safe digits t safe filled short led trailed =
    rw (base_safe t filled safe, safe_runes_same digits t safe, capped_short t short, trailed, led)
      (unless_empty_filled t filled)

-- What is left of a name of any runes is 1 to 80 bytes, each a letter, digit, dot, underscore or
-- hyphen of ASCII or a byte of a rune that is not ASCII, with no dot at either end; and if the name
-- is ASCII, then so is what is left, which is not changed when it is sanitized again.
pub sanitize_filename_lem :
    (digits : ℕ → Bool) (name : List ℕ) (t : Bytes)
    → sanitize_filename digits name ≡ some t
    → IsAll is_kept t
      × (is_empty t ≡ false)
      × (length t ≤ 80)
      × (trim_lead b'.' t ≡ t)
      × (trim_tail b'.' t ≡ t)
      × ((is_ascii name ≡ false) ⊎ (IsAll is_safe t × (sanitize_filename digits t ≡ some t)))
unfolding sanitize_filename
sanitize_filename_lem digits name t h =
    let out = safe_runes digits (base name) in
    let tail = trim_tail b'.' (capped out) in
    let (eq, filled) = unless_empty-some (trim_lead b'.' tail) t h in
    let short : length t ≤ 80 = subst (λ x. length x ≤ 80) eq (length-trimmed out) in
    let led : trim_lead b'.' t ≡ t =
      subst (λ x. trim_lead b'.' x ≡ x) eq (trim_lead_twice b'.' tail) in
    let trailed : trim_tail b'.' t ≡ t =
      subst (λ x. trim_tail b'.' x ≡ x) eq
        (trim_tail-trim_lead b'.' tail (trim_tail_twice b'.' (capped out))) in
    let some_left : is_empty t ≡ false = subst (λ x. is_empty x ≡ false) eq filled in
    (
      subst (IsAll is_kept) eq
          (trimmed-IsAll is_kept refl out (safe_runes_kept digits (base name))),
      some_left,
      short,
      led,
      trailed,
      elim (Bool-cases (is_ascii name)) [
        | inr e ↦ inl e
        | inl e ↦
            let ascii : is_ascii (base name) ≡ true =
              IsAll-ascii (base name)
                (base-IsAll (λ c. ltb c 128) name refl refl (ascii-IsAll name e)) in
            let safe : IsAll is_safe t =
              subst (IsAll is_safe) eq
                (trimmed-IsAll is_safe refl out (safe_runes_ascii digits (base name) ascii)) in
            inr (safe, sanitize_filename_safe digits t safe some_left short led trailed)
      ],
    )
