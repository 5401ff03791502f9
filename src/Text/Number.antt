-- ===== src/Text/Number.antt =====
-- `std::to_string`, zero padding, and `parseUnsignedBase` of src/utils/Util.cpp.
pub mod Decimal
use monk_skud_unex.Base.{
  ℕ, zero, suc, ◌+◌, ◌-◌, ◌*◌, ◌/◌, ◌%◌, ◌^◌, [], ◌∷◌, ◌++◌, Bool, ◌&&◌, ◌||◌, Option, none, some,
  Text, ltb, leb, ◌==◌, if◌then◌else◌, true, false, length, is_empty, replicate, drop, get_or, not,
}
use monk_skud_unex.Text.{trim}

-- The digits of `n` in front of `out`; the fuel passes the number of digits.
digits : ℕ → ℕ → Text → Text
digits zero n out = out
digits (suc fuel) n out = elim (ltb n 10) [
  | true ↦ (48 + n) ∷ out
  | false ↦ digits fuel (n / 10) ((48 + n % 10) ∷ out)
]

unfoldable pub to_string : ℕ → Text
unfolding digits
to_string n = digits (suc n) n []

-- `setfill('0') << setw(w) << n`.
unfoldable pub padded : ℕ → ℕ → Text
unfolding to_string
padded w n = let s = to_string n in replicate (w - length s) 48 ++ s

unfoldable pub is_digit : ℕ → Bool
is_digit c = leb 48 c && leb c 57

unfoldable pub is_xdigit : ℕ → Bool
unfolding is_digit
is_xdigit c = is_digit c || (leb 65 c && leb c 70) || (leb 97 c && leb c 102)

digit_value : ℕ → ℕ
digit_value c = if leb c 57 then c - 48 else if leb c 70 then c - 55 else c - 87

unfoldable pub all_of : (ℕ → Bool) → Text → Bool
all_of p [] = true
all_of p (c ∷ s) = p c && all_of p s

-- The number that digits spell behind `acc`, with no bound.
unfoldable pub value : ℕ → ℕ → Text → ℕ
unfolding digit_value
value base acc [] = acc
value base acc (c ∷ s) = value base (acc * base + digit_value c) s

has_hex_prefix : Text → Bool
has_hex_prefix s =
    ltb 2 (length s) && get_or s 0 0 == b'0' && (get_or s 1 0 == b'x' || get_or s 1 0 == b'X')

-- `stoull` throws past 2^64 - 1, and a value past `top` is refused.
unfoldable pub bounded : ℕ → ℕ → Option ℕ
bounded top v = if ltb (2 ^ 64 - 1) v || ltb top v then none else some v

unfoldable pub parse_unsigned_base : Text → ℕ → ℕ → Option ℕ
unfolding trim is_digit is_xdigit all_of value has_hex_prefix bounded
parse_unsigned_base text base top =
    let s = trim text in
    let body = if base == 16 && has_hex_prefix s then drop 2 s else s in
    let is_base_digit = λ (c : ℕ). if base == 10 then is_digit c else is_xdigit c in
    if is_empty s
    then none
    else if is_empty body
    then none
    else if not (all_of is_base_digit body)
    then none
    else bounded top (value base 0 body)
