-- ===== src/Domain/Uri/Caller.antt =====
-- The presentation form of a caller URI.
use didstorageapp.Prelude.{
  ℕ, [], ◌∷◌, ◌++◌, ◌≡◌, ◌≢◌, refl, ◌∙◌, Bool, true, false, ◌||◌, ◌&&◌, ◌==◌, leb, arith, All,
  All-append, append_assoc, ==_iff,
}
use didstorageapp.Prelude.Text.{
  Bytes, codes, Lacks, IsDigits, is_digit, before-eq_self, to_lower, lower, trim_space, cut,
}
use didstorageapp.Prelude.Cuts.{
  IsSolid, trim_space_solid, trim_space_framed, trim_space_lead, cut-append, cut_last-append,
  cut-Lacks,
}
use didstorageapp.Domain.Uri.{
  all_digits, drop_display_name, unquote_angle, drop_scheme, drop_port, clean_caller_uri,
}

-- The bytes of user names, numbers and host names.
abbrev pub is_plain : ℕ → Bool
is_plain c =
    is_digit c
    || (leb b'a' c && leb c b'z')
    || (leb b'A' c && leb c b'Z')
    || c == b'.'
    || c == b'-'
    || c == b'_'
    || c == b'+'

abbrev pub IsPlain : Bytes → Type 0
IsPlain = All (λ c. is_plain c ≡ true)

plain-Lacks : (b : ℕ) → is_plain b ≡ false → (s : Bytes) → IsPlain s → Lacks b s
plain-Lacks b h [] p = tt
plain-Lacks b h (c ∷ s) p = (ground (arith, ==_iff c b), plain-Lacks b h s p.1)

plain-IsSolid : (s : Bytes) → IsPlain s → IsSolid s
plain-IsSolid [] p = tt
plain-IsSolid (c ∷ s) p = (ground arith, plain-IsSolid s p.1)

digits-IsPlain : (s : Bytes) → IsDigits s → IsPlain s
digits-IsPlain [] p = tt
digits-IsPlain (c ∷ s) p = (ground arith, digits-IsPlain s p.1)

all_digits_of : (s : Bytes) → IsDigits s → s ≢ [] → all_digits s ≡ true
unfolding all_digits
all_digits_of [] h ne = absurd (ne refl)
all_digits_of (c ∷ []) h ne = h.0
all_digits_of (c ∷ d ∷ s) h ne = rw (h.0, all_digits_of (d ∷ s) h.1 (λ e. cc))

-- One step of the cleaning after another, on `"name" <sip:user@host:port>`.
drop_display_name_quoted :
    (name rest : Bytes)
    → Lacks b'"' name
    → drop_display_name (b'"' ∷ name ++ b'"' ∷ rest) ≡ trim_space rest
unfolding drop_display_name
drop_display_name_quoted name rest h = rw (cut-append b'"' name rest h)

unquote_angle_quoted : (s : Bytes) → Lacks b'>' s → unquote_angle (b'<' ∷ s ++ b'>' ∷ []) ≡ s
unfolding unquote_angle cut
unquote_angle_quoted s h = rw (cut-append b'>' s [] h)

drop_scheme_sip : (s : Bytes) → drop_scheme (codes "sip:" ++ s) ≡ s
unfolding drop_scheme to_lower lower
drop_scheme_sip s = refl

drop_port_numeric :
    (user host port : Bytes)
    → Lacks b'@' user
    → Lacks b':' port
    → IsDigits port
    → port ≢ []
    → drop_port (user ++ b'@' ∷ (host ++ b':' ∷ port)) ≡ user ++ b'@' ∷ host
unfolding drop_port
drop_port_numeric user host port hu hp digits ne =
    rw (cut-append b'@' user (host ++ b':' ∷ port) hu, cut_last-append b':' host port hp, drop_port)
      (ground (arith, all_digits_of port digits ne))

is_plain_uri :
    (user host port : Bytes) (b : ℕ)
    → is_plain b ≡ false
    → (b'@' == b) ≡ false
    → (b':' == b) ≡ false
    → IsPlain user
    → IsPlain host
    → IsPlain port
    → Lacks b (user ++ b'@' ∷ (host ++ b':' ∷ port))
is_plain_uri user host port b hb h1 h2 hu hh hp =
    All-append _ user _ (plain-Lacks b hb user hu)
      (h1, All-append _ host _ (plain-Lacks b hb host hh) (h2, plain-Lacks b hb port hp))

angled : Bytes → Bytes
angled uri = b'<' ∷ (codes "sip:" ++ uri) ++ b'>' ∷ []

trim_quoted :
    (name uri : Bytes)
    → trim_space (b'"' ∷ name ++ b'"' ∷ b' ' ∷ angled uri) ≡ b'"' ∷ name ++ b'"' ∷ b' ' ∷ angled uri
unfolding angled
trim_quoted name uri =
    let shape =
      append_assoc (b'"' ∷ name) (b'"' ∷ b' ' ∷ b'<' ∷ (codes "sip:" ++ uri)) (b'>' ∷ []) in
    rw (← shape)
      (trim_space_framed b'"' (name ++ b'"' ∷ b' ' ∷ b'<' ∷ (codes "sip:" ++ uri)) b'>' refl refl)

trim_angled : (uri : Bytes) → trim_space (b' ' ∷ angled uri) ≡ angled uri
unfolding angled
trim_angled uri =
    trim_space_lead b' ' (angled uri) refl
    ∙ trim_space_framed b'<' (codes "sip:" ++ uri) b'>' refl refl

-- Of a quoted name and an angle-quoted SIP URI with a numeric port, `user@host` is left: the name,
-- the scheme and the port are gone. The user and the host are plain, and the name has no quote.
pub clean_caller_uri_quoted :
    (name user host port : Bytes)
    → Lacks b'"' name
    → IsPlain user
    → IsPlain host
    → IsDigits port
    → port ≢ []
    → clean_caller_uri
        (b'"' ∷ name ++ codes "\" <sip:" ++ ((user ++ b'@' ∷ (host ++ b':' ∷ port)) ++ b'>' ∷ []))
      ≡ user ++ b'@' ∷ host
unfolding clean_caller_uri angled
clean_caller_uri_quoted name user host port hn hu hh hp ne =
    let plain = digits-IsPlain port hp in
    let uri = user ++ b'@' ∷ (host ++ b':' ∷ port) in
    rw
      (
        append_assoc (b'"' ∷ name) (codes "\" <sip:") (uri ++ b'>' ∷ []),
        trim_quoted name uri,
        drop_display_name_quoted name (b' ' ∷ angled uri) hn,
        trim_angled uri,
        unquote_angle_quoted (codes "sip:" ++ uri) (
          refl,
          (refl, (refl, (refl, is_plain_uri user host port b'>' refl refl refl hu hh plain))),
        ),
        drop_scheme_sip uri,
        before-eq_self b';' uri (is_plain_uri user host port b';' refl refl refl hu hh plain),
        drop_port_numeric user host port (plain-Lacks b'@' refl user hu)
            (plain-Lacks b':' refl port plain) hp ne,
      )
      (trim_space_solid _
        (All-append _ user _ (plain-IsSolid user hu) (refl, plain-IsSolid host hh)))

drop_display_name_digits : (s : Bytes) → IsDigits s → drop_display_name s ≡ s
unfolding drop_display_name
drop_display_name_digits [] h = refl
drop_display_name_digits (c ∷ s) h = ground arith

unquote_angle-Lacks : (s : Bytes) → Lacks b'<' s → unquote_angle s ≡ s
unfolding unquote_angle
unquote_angle-Lacks s h = rw (cut-Lacks b'<' s h, unquote_angle)

drop_scheme_digits : (s : Bytes) → IsDigits s → drop_scheme s ≡ s
unfolding drop_scheme to_lower lower
drop_scheme_digits [] h = refl
drop_scheme_digits (c ∷ s) h = ground arith

drop_port-Lacks : (s : Bytes) → Lacks b'@' s → drop_port s ≡ s
unfolding drop_port
drop_port-Lacks s h = rw (cut-Lacks b'@' s h, drop_port)

-- A number of digits is shown as it is.
pub clean_caller_uri_number : (s : Bytes) → IsDigits s → clean_caller_uri s ≡ s
unfolding clean_caller_uri
clean_caller_uri_number s h =
    let plain = digits-IsPlain s h in
    rw
      (
        trim_space_solid s (plain-IsSolid s plain),
        drop_display_name_digits s h,
        unquote_angle-Lacks s (plain-Lacks b'<' refl s plain),
        drop_scheme_digits s h,
        before-eq_self b';' s (plain-Lacks b';' refl s plain),
        drop_port-Lacks s (plain-Lacks b'@' refl s plain),
      )
      (trim_space_solid s (plain-IsSolid s plain))
