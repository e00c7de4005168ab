-- ===== src/Sipctl/Number.antt =====
-- parseE164 of internal/sipctl/sipctl.go: the digits of the number that a URI dials.
use didstorageapp.Prelude.{
  ℕ, [], ◌∷◌, ◌++◌, ◌≡◌, refl, none, some, false, arith, keep, append_assoc, All-append, ==_iff,
}
use didstorageapp.Prelude.Text.{
  Bytes, codes, IsDigits, Lacks, is_digit, before, before-append, keep-IsDigits, keep-eq_self,
  trim_prefix, trim_suffix_byte, trim_space, cut,
}
use didstorageapp.Prelude.Cuts.{IsSolid, trim_space_solid}

-- `uri[i+1:]` for `i = strings.Index(uri, b)` where that is not negative, `uri` otherwise.
abbrev pub after_first : ℕ → Bytes → Bytes
after_first b s = elim (cut b s) [ none ↦ s | some (p, q) ↦ q ]

unfoldable pub parse_e164 : Bytes → Bytes
parse_e164 uri =
    let bare = trim_suffix_byte (trim_prefix (trim_space uri) (codes "<")) b'>' in
    keep is_digit (trim_prefix (before b'@' (after_first b':' bare)) (codes "+"))

digit-IsSolid : (s : Bytes) → IsDigits s → IsSolid s
digit-IsSolid [] h = tt
digit-IsSolid (c ∷ s) h = (ground arith, digit-IsSolid s h.1)

digit-Lacks : (b : ℕ) → is_digit b ≡ false → (s : Bytes) → IsDigits s → Lacks b s
digit-Lacks b nb [] h = tt
digit-Lacks b nb (c ∷ s) h = (ground (arith, ==_iff c b), digit-Lacks b nb s h.1)

suffix_dropped : (s : Bytes) → trim_suffix_byte (s ++ b'>' ∷ []) b'>' ≡ s
unfolding trim_suffix_byte
suffix_dropped [] = refl
suffix_dropped (d ∷ []) = refl
suffix_dropped (d ∷ e ∷ s) = rw (suffix_dropped (e ∷ s))

-- Whatever the URI, the result holds digits only; and of `<sip:+number@host>` the number is read
-- exactly, where the number is digits and the host has no white space.
pub parse_e164-IsDigits :
    (uri number host : Bytes)
    → IsDigits number
    → IsSolid host
    → IsDigits (parse_e164 uri)
      × (parse_e164 (codes "<sip:+" ++ (number ++ b'@' ∷ (host ++ b'>' ∷ []))) ≡ number)
unfolding parse_e164 trim_prefix cut
parse_e164-IsDigits uri number host hn hh =
    let tail =
      All-append _ number _ (digit-IsSolid number hn) (refl, All-append _ host _ hh (refl, tt)) in
    let dropped = suffix_dropped (codes "sip:+" ++ (number ++ b'@' ∷ host)) in
    let bare = rw (append_assoc number (b'@' ∷ host) (b'>' ∷ [])) at dropped in
    (
      keep-IsDigits (
          trim_prefix
            (before b'@'
              (after_first b':' (trim_suffix_byte (trim_prefix (trim_space uri) (codes "<")) b'>')))
            (codes "+")),
      rw
          (
            trim_space_solid (codes "<sip:+" ++ (number ++ b'@' ∷ (host ++ b'>' ∷ [])))
                (refl, (refl, (refl, (refl, (refl, (refl, tail)))))),
            bare,
            before-append b'@' (b'+' ∷ number) host (refl, digit-Lacks b'@' refl number hn),
          )
          (keep-eq_self number hn),
    )
