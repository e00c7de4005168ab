-- ===== src/Domain/Uri.antt =====
-- NormalizeRouteTarget, CleanCallerURI, allDigits and SanitizeCallID of internal/domain/domain.go.
pub mod Laws
pub mod Caller
use didstorageapp.Prelude.{
  ℕ, List, ◌∷◌, [], ◌++◌, none, some, Option, Bool, true, false, ◌&&◌, ◌||◌, not, any, drop, ◌==◌,
  if◌then◌else◌,
}
use didstorageapp.Prelude.Cuts.{after_last}
use didstorageapp.Prelude.Text.{
  Bytes, codes, same, is_empty, is_digit, has_prefix, trim_prefix, trim_space, to_lower, cut,
  cut_last, before,
}

unfoldable pub strip_scheme : Bytes → Bytes
strip_scheme t = trim_prefix (trim_prefix t (codes "sips:")) (codes "sip:")

abbrev pub has_sip_scheme : Bytes → Bool
has_sip_scheme t = has_prefix (to_lower t) (codes "sip:") || has_prefix (to_lower t) (codes "sips:")

unfoldable pub normalize_route_target : Bytes → Bytes → Bytes
normalize_route_target kind target =
    let t = trim_space target in
    trim_space (
      if same kind (codes "sip_uri")
      then (if has_sip_scheme t then t else codes "sip:" ++ t)
      else if same kind (codes "ip")
      then strip_scheme (after_last b'@' t)
      else if same kind (codes "sip_account")
      then before b'@' (strip_scheme t)
      else t)

unfoldable pub all_digits : Bytes → Bool
all_digits [] = false
all_digits (c ∷ []) = is_digit c
all_digits (c ∷ d ∷ s) = is_digit c && all_digits (d ∷ s)

-- 1) A quoted display name is pulled off the front.
unfoldable pub drop_display_name : Bytes → Bytes
drop_display_name [] = []
drop_display_name (c ∷ s) =
    if c == b'"' then elim (cut b'"' s) [ none ↦ c ∷ s | some (p, q) ↦ trim_space q ] else c ∷ s

-- 2) Of an angle-quoted URI the inside is kept: the first `>` must stand behind the first `<`.
unfoldable pub unquote_angle : Bytes → Bytes
unquote_angle s = elim (cut b'<' s) [
  | none ↦ s
  | some (p, q) ↦
      if any (λ c. c == b'>') p
      then s
      else elim (cut b'>' q) [ none ↦ s | some (inside, rest) ↦ inside ]
]

-- 3) The scheme, in any case.
unfoldable pub drop_scheme : Bytes → Bytes
drop_scheme s =
    if has_prefix (to_lower s) (codes "sips:")
    then drop 5 s
    else if has_prefix (to_lower s) (codes "sip:")
    then drop 4 s
    else if has_prefix (to_lower s) (codes "tel:")
    then drop 4 s
    else s

-- 5) A trailing port of the host part.
unfoldable pub drop_port : Bytes → Bytes
drop_port s = elim (cut b'@' s) [
  | none ↦ s
  | some (user, host) ↦ elim (cut_last b':' host) [
    | none ↦ s
    | some (name, port) ↦ if not (is_empty port) && all_digits port then user ++ b'@' ∷ name else s
  ]
]

unfoldable pub clean_caller_uri : Bytes → Bytes
clean_caller_uri s =
    trim_space
      (drop_port (before b';' (drop_scheme (unquote_angle (drop_display_name (trim_space s))))))

unfoldable pub sanitize_call_id : Bytes → Bytes
sanitize_call_id raw = before b'@' (trim_space raw)
