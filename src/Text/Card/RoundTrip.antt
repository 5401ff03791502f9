-- ===== src/Text/Card/RoundTrip.antt =====
-- Card numbers of src/utils/Util.cpp: what is printed is read back.
use monk_skud_unex.Base.{
  ℕ, ◌≤◌, [], ◌∷◌, ◌++◌, true, false, some, Text, is_empty, ◌≡◌, refl, arith, inl, inr,
  Option-cases,
}
use monk_skud_unex.Text.{cut, is_space}
use monk_skud_unex.Text.Number.{to_string, all_of, is_digit, parse_unsigned_base, bounded}
use monk_skud_unex.Text.Number.Decimal.{
  no_space, all_of-append, all_of-no_space, all_of-to_string, trim-no_space, trim-digits,
  parse_unsigned_base-to_string,
}
use monk_skud_unex.Text.Card.{
  parse_card_id, format_card_id, is_card_separator, unpack_card, parse_single, parse_pair,
}

digit-no_separator : (c : ℕ) → is_digit c ≡ true → is_card_separator c ≡ false
unfolding is_digit is_card_separator
digit-no_separator c h = ground arith

cut-digits :
    (a rest : Text)
    → all_of is_digit a ≡ true
    → cut is_card_separator (a ++ b':' ∷ rest) ≡ some (a, rest)
unfolding cut all_of
cut-digits [] rest h = unfold is_card_separator in refl
cut-digits (c ∷ a) rest h = ground (arith, digit-no_separator c, cut-digits a rest)

format-no_space : (s n : ℕ) → all_of no_space (format_card_id s n) ≡ true
unfolding format_card_id
format-no_space s n =
    all_of-append no_space (to_string s) (b':' ∷ to_string n)
      (all_of-no_space (to_string s) (all_of-to_string s))
      (unfold all_of is_space in all_of-no_space (to_string n) (all_of-to_string n))

is_empty-append_cons : (a : Text) (c : ℕ) (b : Text) → is_empty (a ++ c ∷ b) ≡ false
is_empty-append_cons [] c b = refl
is_empty-append_cons (x ∷ a) c b = refl

parse_pair-to_string :
    (s n : ℕ) → s ≤ 65535 → n ≤ 65535 → parse_pair (to_string s, to_string n) ≡ some (s, n)
unfolding parse_pair
parse_pair-to_string s n hs hn = rw (
  trim-digits (to_string s) (all_of-to_string s),
  trim-digits (to_string n) (all_of-to_string n),
  parse_unsigned_base-to_string s 65535 hs (omega arith),
  parse_unsigned_base-to_string n 65535 hn (omega arith),
)

-- Every card number of two 16-bit halves is read back from its text.
pub parse_card_id-format_card_id :
    (s n : ℕ) → s ≤ 65535 → n ≤ 65535 → parse_card_id (format_card_id s n) ≡ some (s, n)
parse_card_id-format_card_id s n hs hn =
    unfold parse_card_id in
    rw (trim-no_space (format_card_id s n) (format-no_space s n)) (
      unfold format_card_id in
      rw (is_empty-append_cons (to_string s) b':' (to_string n)) (
        rw (cut-digits (to_string s) (to_string n) (all_of-to_string s))
          (parse_pair-to_string s n hs hn)))

bounded_le : (top v a : ℕ) → bounded top v ≡ some a → a ≤ top
unfolding bounded
bounded_le top v a h = ground arith

parse_unsigned_base_le :
    (t : Text) (base top a : ℕ) → parse_unsigned_base t base top ≡ some a → a ≤ top
unfolding parse_unsigned_base
parse_unsigned_base_le t base top a h = ground (arith, λ (v : ℕ). bounded_le top v a)

unpack_card_bounds :
    (v : ℕ) → v ≤ 0xffffffff → ((unpack_card v).0 ≤ 65535) × ((unpack_card v).1 ≤ 65535)
unfolding unpack_card
unpack_card_bounds v h = ground arith

parse_single_bounds :
    (t : Text) (a b : ℕ) → parse_single t ≡ some (a, b) → (a ≤ 65535) × (b ≤ 65535)
unfolding parse_single
parse_single_bounds t a b h = elim (Option-cases (parse_unsigned_base t 10 0xffffffff)) [
  | inl e ↦ absurd (cc)
  | inr (v, e) ↦ ground (arith, parse_unsigned_base_le t 10 0xffffffff v, unpack_card_bounds v)
]

parse_pair_bounds :
    (l r : Text) (a b : ℕ) → parse_pair (l, r) ≡ some (a, b) → (a ≤ 65535) × (b ≤ 65535)
unfolding parse_pair
parse_pair_bounds l r a b h = grind (arith, parse_unsigned_base_le)

-- Whatever text is accepted, both halves of the card number fit 16 bits.
pub parse_card_id_bounds :
    (t : Text) (a b : ℕ) → parse_card_id t ≡ some (a, b) → (a ≤ 65535) × (b ≤ 65535)
unfolding parse_card_id
parse_card_id_bounds t a b h = grind (arith, parse_pair_bounds, parse_single_bounds)
