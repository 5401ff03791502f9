-- ===== src/Text/Number/Decimal.antt =====
-- Decimal printing and `parseUnsignedBase` of src/utils/Util.cpp.
use mathlib.Core.List.{reverse-append, reverse-reverse}
use monk_skud_unex.Base.{
  ℕ, zero, suc, ◌+◌, ◌/◌, ◌%◌, ◌≤◌, ◌<◌, ◌^◌, [], ◌∷◌, ◌++◌, Bool, true, false, not, some, Text,
  ltb, is_empty, ◌≡◌, refl, ap, ◌∙◌, arith, reverse, Bool-cases, inl, inr,
}
use monk_skud_unex.Text.{trim, drop_spaces, is_space}
use monk_skud_unex.Text.Number.{
  digits, digit_value, to_string, all_of, is_digit, value, parse_unsigned_base, bounded,
}

-- The fuel passes the number, so it passes the number of its digits.
value-digits :
    (fuel n : ℕ) (out : Text) → n < fuel → value 10 0 (digits fuel n out) ≡ value 10 n out
unfolding digits value digit_value
value-digits zero n out h = absurd (omega arith)
value-digits (suc fuel) n out h = elim (Bool-cases (ltb n 10)) [
  | inl small ↦ rw (small, digits) (ground arith)
  | inr large ↦
      rw (large, digits)
        (value-digits fuel (n / 10) ((48 + n % 10) ∷ out) (ground arith)
          ∙ ap (λ (k : ℕ). value 10 k out) (ground arith))
]

all_of-digits :
    (fuel n : ℕ) (out : Text)
    → all_of is_digit out ≡ true
    → all_of is_digit (digits fuel n out) ≡ true
unfolding digits all_of is_digit
all_of-digits zero n out h = h
all_of-digits (suc fuel) n out h = ground (arith, all_of-digits fuel (n / 10) ((48 + n % 10) ∷ out))

is_empty-digits_cons : (fuel n c : ℕ) (out : Text) → is_empty (digits fuel n (c ∷ out)) ≡ false
unfolding digits
is_empty-digits_cons zero n c out = refl
is_empty-digits_cons (suc fuel) n c out =
    ground (arith, is_empty-digits_cons fuel (n / 10) (48 + n % 10) (c ∷ out))

pub value-to_string : (n : ℕ) → value 10 0 (to_string n) ≡ n
unfolding to_string value
value-to_string n = value-digits (suc n) n [] (omega arith)

pub all_of-to_string : (n : ℕ) → all_of is_digit (to_string n) ≡ true
unfolding to_string
all_of-to_string n = all_of-digits (suc n) n [] (unfold all_of in refl)

pub is_empty-to_string : (n : ℕ) → is_empty (to_string n) ≡ false
unfolding to_string digits
is_empty-to_string n = ground (arith, is_empty-digits_cons n (n / 10) (48 + n % 10) [])

-- Texts without spaces at their ends.
abbrev pub no_space : ℕ → Bool
no_space c = not (is_space c)

pub all_of-append :
    (p : ℕ → Bool) (xs ys : Text)
    → all_of p xs ≡ true
    → all_of p ys ≡ true
    → all_of p (xs ++ ys) ≡ true
unfolding all_of
all_of-append p [] ys h k = k
all_of-append p (x ∷ xs) ys h k = ground (arith, all_of-append p xs ys)

all_of-reverse : (p : ℕ → Bool) (xs : Text) → all_of p xs ≡ true → all_of p (reverse xs) ≡ true
unfolding all_of
all_of-reverse p [] h = refl
all_of-reverse p (x ∷ xs) h =
    rw (reverse-append (x ∷ []) xs)
      (all_of-append p (reverse xs) (x ∷ []) (all_of-reverse p xs (ground arith)) (ground arith))

drop_spaces-no_space : (s : Text) → all_of no_space s ≡ true → drop_spaces s ≡ s
unfolding drop_spaces all_of
drop_spaces-no_space [] h = refl
drop_spaces-no_space (c ∷ s) h = ground arith

pub trim-no_space : (s : Text) → all_of no_space s ≡ true → trim s ≡ s
unfolding trim
trim-no_space s h =
    rw (drop_spaces-no_space s h)
      (rw (drop_spaces-no_space (reverse s) (all_of-reverse no_space s h)) (reverse-reverse s))

digit-no_space : (c : ℕ) → is_digit c ≡ true → no_space c ≡ true
unfolding is_digit is_space
digit-no_space c h = ground arith

pub all_of-no_space : (s : Text) → all_of is_digit s ≡ true → all_of no_space s ≡ true
unfolding all_of
all_of-no_space [] h = refl
all_of-no_space (c ∷ s) h = ground (arith, digit-no_space c, all_of-no_space s)

pub trim-digits : (s : Text) → all_of is_digit s ≡ true → trim s ≡ s
trim-digits s h = trim-no_space s (all_of-no_space s h)

-- A number that `to_string` printed is read back, if it is within the limit of the caller.
pub parse_unsigned_base-to_string :
    (n top : ℕ) → n ≤ top → top < 2 ^ 64 → parse_unsigned_base (to_string n) 10 top ≡ some n
unfolding parse_unsigned_base bounded
parse_unsigned_base-to_string n top h k =
    rw (trim-digits (to_string n) (all_of-to_string n))
      (rw (is_empty-to_string n, all_of-to_string n, value-to_string n) (ground arith))
