-- ===== src/Uploads/Audio.antt =====
-- The names of the audio files.
use didstorageapp.Prelude.{ℕ, ◌/◌, ◌%◌, ◌*◌, ◌<◌, ◌≡◌, true, [], ◌∷◌, length, All, refl, arith}
use didstorageapp.Prelude.Text.{Bytes}
use didstorageapp.Uploads.{
  is_name_byte, all_name_bytes, is_safe_basename, hex_digit, hex, new_filename,
}

is_name_byte-hex_digit : (n : ℕ) → n < 16 → is_name_byte (hex_digit n) ≡ true
is_name_byte-hex_digit n h = ground (arith, h)

all_name_bytes-hex : (s : Bytes) → All (λ b. b < 256) s → all_name_bytes (hex s) ≡ true
all_name_bytes-hex [] h = refl
all_name_bytes-hex (b ∷ s) h =
    rw
      (
        is_name_byte-hex_digit (b / 16) (omega (arith, h.0)),
        is_name_byte-hex_digit (b % 16) (omega arith),
        all_name_bytes-hex s h.1,
      )
      refl

length-hex : (s : Bytes) → length (hex s) ≡ 2 * length s
length-hex [] = refl
length-hex (b ∷ s) = omega (arith, length-hex s)

-- A new name, of the prefix and 16 hexadecimal digits, is one that Open and Delete accept.
pub is_safe_basename-new_filename :
    (random : Bytes)
    → All (λ b. b < 256) random
    → length random ≡ 8
    → is_safe_basename (new_filename random) ≡ true
is_safe_basename-new_filename random h eight =
    let digits = all_name_bytes-hex random h in
    let size = length-hex random in ground (arith, digits, size, eight)
