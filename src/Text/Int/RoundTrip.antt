-- ===== src/Text/Int/RoundTrip.antt =====
-- `std::stoi` reads back what `std::to_string` and `<<` print.
use monk_skud_unex.Base.{
  ◌+◌, ◌^◌, ◌<◌, [], ◌∷◌, Bool, true, false, some, Text, ℤ, pos, negsuc, ◌≡◌, refl, arith, is_empty,
}
use monk_skud_unex.Text.{drop_spaces, is_space}
use monk_skud_unex.Text.Number.{to_string, all_of, is_digit, value}
use monk_skud_unex.Text.Number.Decimal.{value-to_string, all_of-to_string, is_empty-to_string}
use monk_skud_unex.Text.Int.{int_text, leading_digits, int_of, digits_int, signed_int, stoi}

-- The numbers of an `int`.
abbrev pub IsInt : ℤ → Type 0
IsInt (pos n) = n < 2 ^ 31
IsInt (negsuc n) = n < 2 ^ 31

leading_digits-all_of : (s : Text) → all_of is_digit s ≡ true → leading_digits s ≡ s
unfolding leading_digits all_of
leading_digits-all_of [] h = refl
leading_digits-all_of (c ∷ s) h = ground (arith, leading_digits-all_of s)

digits_int-digits :
    (minus : Bool) (s : Text)
    → all_of is_digit s ≡ true
    → is_empty s ≡ false
    → digits_int minus (leading_digits s) ≡ int_of minus (value 10 0 s)
unfolding digits_int
digits_int-digits minus s h ne = ground (arith, leading_digits-all_of s h)

stoi-digits :
    (s : Text)
    → all_of is_digit s ≡ true
    → is_empty s ≡ false
    → stoi s ≡ int_of false (value 10 0 s)
unfolding stoi signed_int drop_spaces is_space all_of is_digit
stoi-digits [] h ne = ground arith
stoi-digits (c ∷ s) h ne = ground (arith, digits_int-digits false (c ∷ s) h ne)

stoi-minus :
    (s : Text)
    → all_of is_digit s ≡ true
    → is_empty s ≡ false
    → stoi (b'-' ∷ s) ≡ int_of true (value 10 0 s)
unfolding stoi signed_int drop_spaces is_space
stoi-minus s h ne = ground (arith, digits_int-digits true s h ne)

-- An `int` that was printed is read back.
pub stoi-int_text : (z : ℤ) → IsInt z → stoi (int_text z) ≡ some z
unfolding int_text int_of
stoi-int_text (pos n) h = ground (
  arith,
  stoi-digits (to_string n) (all_of-to_string n) (is_empty-to_string n),
  value-to_string n,
)
stoi-int_text (negsuc n) h = ground (
  arith,
  stoi-minus (to_string (n + 1)) (all_of-to_string (n + 1)) (is_empty-to_string (n + 1)),
  value-to_string (n + 1),
)
