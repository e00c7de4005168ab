-- ===== src/Uploads.antt =====
-- The names of uploaded files: SanitizeFilename of internal/kyc/kyc.go and isSafeBasename of
-- internal/audio/audio.go. The name of an upload is given as its runes, as range reads them, and the
-- result is bytes. The digits of other scripts that unicode.IsDigit knows and the random bytes of a
-- new audio file are parameters.
pub mod Names
pub mod Trimming
pub mod Audio
mod Examples
use didstorageapp.Prelude.{
  ℕ, ◌+◌, ◌-◌, ◌/◌, ◌%◌, Bool, true, false, ◌&&◌, ◌||◌, not, Option, none, some, List, [], ◌∷◌,
  ◌++◌, length, take, ◌==◌, leb, ltb, if◌then◌else◌,
}
use didstorageapp.Prelude.Text.{Bytes, codes, is_empty, is_digit, cut_last}
use didstorageapp.Prelude.Cuts.{after_last}

-- The text without the bytes `b` at its start.
unfoldable pub trim_lead : ℕ → Bytes → Bytes
trim_lead b [] = []
trim_lead b (c ∷ s) = if c == b then trim_lead b s else c ∷ s

-- The text without the bytes `b` at its end.
unfoldable pub trim_tail : ℕ → Bytes → Bytes
trim_tail b [] = []
trim_tail b (c ∷ s) = let rest = trim_tail b s in if c == b && is_empty rest then [] else c ∷ rest

-- filepath.Base
unfoldable pub base : Bytes → Bytes
base s =
    if is_empty s
    then codes "."
    else if is_empty (trim_tail b'/' s)
    then codes "/"
    else after_last b'/' (trim_tail b'/' s)

abbrev pub is_letter : ℕ → Bool
is_letter c = leb b'a' c && leb c b'z' || leb b'A' c && leb c b'Z'

abbrev pub is_safe : ℕ → Bool
is_safe c = is_letter c || is_digit c || c == b'.' || c == b'_' || c == b'-'

-- WriteRune
abbrev pub utf8 : ℕ → Bytes
utf8 r =
    if ltb r 128
    then r ∷ []
    else if ltb r 2048
    then (192 + r / 64) ∷ (128 + r % 64) ∷ []
    else if ltb r 65536
    then (224 + r / 4096) ∷ (128 + r / 64 % 64) ∷ (128 + r % 64) ∷ []
    else (240 + r / 262144) ∷ (128 + r / 4096 % 64) ∷ (128 + r / 64 % 64) ∷ (128 + r % 64) ∷ []

-- A rune that stays, as bytes, or an underscore; `digits` tells the decimal digits that are not
-- ASCII.
abbrev pub safe_rune : (ℕ → Bool) → ℕ → Bytes
safe_rune digits r = if is_safe r || leb 128 r && digits r then utf8 r else codes "_"

abbrev pub safe_runes : (ℕ → Bool) → List ℕ → Bytes
safe_runes digits [] = []
safe_runes digits (r ∷ s) = safe_rune digits r ++ safe_runes digits s

abbrev pub dotted : Option (Bytes × Bytes) → Bytes
dotted none = []
dotted (some (name, ext)) = b'.' ∷ ext

-- filepath.Ext of a name without a slash
abbrev pub extension : Bytes → Bytes
extension s = dotted (cut_last b'.' s)

unfoldable pub capped : Bytes → Bytes
capped s =
    if not (ltb 80 (length s))
    then s
    else if leb (length (extension s)) 8
    then take (80 - length (extension s)) s ++ extension s
    else take 80 s

abbrev pub unless_empty : Bytes → Option Bytes
unless_empty [] = none
unless_empty (c ∷ s) = some (c ∷ s)

-- `none` for a name of which nothing is left.
unfoldable pub sanitize_filename : (ℕ → Bool) → List ℕ → Option Bytes
sanitize_filename digits name =
    unless_empty (trim_lead b'.' (trim_tail b'.' (capped (safe_runes digits (base name)))))

abbrev pub is_name_byte : ℕ → Bool
is_name_byte c = is_letter c || is_digit c || c == b'_' || c == b'-'

abbrev pub all_name_bytes : Bytes → Bool
all_name_bytes [] = true
all_name_bytes (c ∷ s) = is_name_byte c && all_name_bytes s

abbrev pub is_safe_basename : Bytes → Bool
is_safe_basename s = not (is_empty s || ltb 96 (length s)) && all_name_bytes s

abbrev pub hex_digit : ℕ → ℕ
hex_digit n = if ltb n 10 then b'0' + n else b'a' + (n - 10)

-- hex.EncodeToString
abbrev pub hex : Bytes → Bytes
hex [] = []
hex (b ∷ s) = hex_digit (b / 16) ∷ hex_digit (b % 16) ∷ hex s

-- A name for the random bytes, when no file has it.
abbrev pub new_filename : Bytes → Bytes
new_filename random = codes "af_" ++ hex random
