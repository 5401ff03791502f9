-- ===== src/Text/Escape.antt =====
-- `jsonEscape`, `htmlEscape`, `hex` and `constantTimeEqual` of src/utils/Util.cpp.
pub mod Safe
use monk_skud_unex.Base.{
  ℕ, ◌+◌, ◌/◌, ◌%◌, [], ◌∷◌, ◌++◌, Bool, ◌==◌, ltb, if◌then◌else◌, Text, Bytes, codes, bit_or,
  bit_xor, length, not, false,
}

-- One hexadecimal digit in upper case, and in lower case.
hex_upper : ℕ → ℕ
hex_upper d = if ltb d 10 then 48 + d else 55 + d

unfoldable pub hex_lower : ℕ → ℕ
hex_lower d = if ltb d 10 then 48 + d else 87 + d

hex_byte : ℕ → Text
unfolding hex_upper
hex_byte b = hex_upper (b / 16) ∷ hex_upper (b % 16) ∷ []

-- Two digits for each byte, with a space between bytes.
unfoldable pub hex : Bytes → Text
unfolding hex_byte
hex [] = []
hex (b ∷ []) = hex_byte b
hex (b ∷ c ∷ rest) = hex_byte b ++ b' ' ∷ hex (c ∷ rest)

unfoldable pub json_char : ℕ → Text
unfolding hex_lower
json_char c =
    if c == b'"'
    then b'\\' ∷ b'"' ∷ []
    else if c == b'\\'
    then b'\\' ∷ b'\\' ∷ []
    else if c == 10
    then b'\\' ∷ b'n' ∷ []
    else if c == 13
    then b'\\' ∷ b'r' ∷ []
    else if c == 9
    then b'\\' ∷ b't' ∷ []
    else if ltb c 0x20
    then b'\\' ∷ b'u' ∷ b'0' ∷ b'0' ∷ hex_lower (c / 16) ∷ hex_lower (c % 16) ∷ []
    else c ∷ []

unfoldable pub json_escape : Text → Text
unfolding json_char
json_escape [] = []
json_escape (c ∷ s) = json_char c ++ json_escape s

unfoldable pub html_char : ℕ → Text
html_char c =
    if c == b'&'
    then codes "&amp;"
    else if c == b'<'
    then codes "&lt;"
    else if c == b'>'
    then codes "&gt;"
    else if c == b'"'
    then codes "&quot;"
    else c ∷ []

unfoldable pub html_escape : Text → Text
unfolding html_char
html_escape [] = []
html_escape (c ∷ s) = html_char c ++ html_escape s

-- `x |= a[i] ^ b[i]` over texts of one length.
unfoldable pub difference : ℕ → Text → Text → ℕ
difference x [] b = x
difference x (c ∷ a) [] = x
difference x (c ∷ a) (d ∷ b) = difference (bit_or x (bit_xor c d)) a b

unfoldable pub constant_time_equal : Text → Text → Bool
unfolding difference
constant_time_equal a b = if not (length a == length b) then false else difference 0 a b == 0
