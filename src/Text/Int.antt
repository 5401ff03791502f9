-- ===== src/Text/Int.antt =====
-- `std::to_string` and `std::stoi` of an `int`.
pub mod RoundTrip
use monk_skud_unex.Base.{
  ℕ, zero, suc, ◌+◌, ◌-◌, ◌%◌, ◌^◌, ◌||◌, [], ◌∷◌, ◌==◌, Bool, true, false, Option, none, some,
  Text, ltb, leb, if◌then◌else◌, is_empty, ℤ, pos, negsuc,
}
use monk_skud_unex.Text.{drop_spaces}
use monk_skud_unex.Text.Number.{to_string, is_digit, value}

unfoldable pub int_text : ℤ → Text
int_text (pos n) = to_string n
int_text (negsuc n) = b'-' ∷ to_string (n + 1)

-- The digits that a text starts with. What is behind them is not read.
unfoldable pub leading_digits : Text → Text
unfolding is_digit
leading_digits [] = []
leading_digits (c ∷ s) = let rest = leading_digits s in if is_digit c then c ∷ rest else []

-- `stoi` throws past the range of an `int`.
unfoldable pub int_of : Bool → ℕ → Option ℤ
int_of false n = if ltb n (2 ^ 31) then some (pos n) else none
int_of true zero = some (pos 0)
int_of true (suc n) = if ltb n (2 ^ 31) then some (negsuc n) else none

unfoldable pub digits_int : Bool → Text → Option ℤ
digits_int minus s = if is_empty s then none else int_of minus (value 10 0 s)

unfoldable pub signed_int : Text → Option ℤ
signed_int [] = none
signed_int (c ∷ s) =
    if c == b'-'
    then digits_int true (leading_digits s)
    else if c == b'+'
    then digits_int false (leading_digits s)
    else digits_int false (leading_digits (c ∷ s))

unfoldable pub stoi : Text → Option ℤ
stoi s = signed_int (drop_spaces s)

-- `std::stoull`: a minus turns the number around in 64 bits.
unfoldable pub ull_of : Bool → Text → Option ℕ
ull_of minus s =
    let n = value 10 0 s in
    if is_empty s || leb (2 ^ 64) n then none else some (if minus then (2 ^ 64 - n) % 2 ^ 64 else n)

unfoldable pub stoull : Text → Option ℕ
unfolding ull_of
stoull s = elim (drop_spaces s) [
  | [] ↦ none
  | c ∷ rest ↦
      if c == b'-'
      then ull_of true (leading_digits rest)
      else if c == b'+'
      then ull_of false (leading_digits rest)
      else ull_of false (leading_digits (c ∷ rest))
]
