-- ===== src/Text/Card.antt =====
-- Card numbers of src/utils/Util.cpp: `parseCardParts`, `parseCardId`, `formatCardId`. The texts of
-- the error messages are left out: a failure is `none`.
pub mod RoundTrip
use monk_skud_unex.Base.{
  ℕ, ◌/◌, ◌%◌, ◌∷◌, ◌++◌, Bool, ◌||◌, Option, none, some, Text, leb, ◌==◌, is_empty, if◌then◌else◌,
}
use monk_skud_unex.Text.{trim, cut}
use monk_skud_unex.Text.Number.{to_string, parse_unsigned_base}

infixl 5 ◌>>=◌
abbrev ◌>>=◌ {ℓ κ} : {A : Type ℓ} {B : Type κ} → Option A → (A → Option B) → Option B
none >>= f = none
some a >>= f = f a

unfoldable pub is_card_separator : ℕ → Bool
is_card_separator c = c == b':' || c == b'/' || c == b','

-- Series and number, both decimal below 65536.
unfoldable pub parse_card_parts : Text → Text → Option (ℕ × ℕ)
parse_card_parts series_text number_text =
    if is_empty (trim series_text) || is_empty (trim number_text) then none else do
      a ← parse_unsigned_base (trim series_text) 10 65535
      b ← parse_unsigned_base (trim number_text) 10 65535
      some (a, b)

-- An old single number: up to 65535 it is the series, past that series and number packed.
unfoldable pub unpack_card : ℕ → ℕ × ℕ
unpack_card v = if leb v 65535 then (v, 0) else (v / 65536 % 65536, v % 65536)

unfoldable parse_single : Text → Option (ℕ × ℕ)
unfolding unpack_card
parse_single s = do v ← parse_unsigned_base s 10 0xffffffff; some (unpack_card v)

unfoldable parse_pair : Text × Text → Option (ℕ × ℕ)
parse_pair (left, right) = do
  a ← parse_unsigned_base (trim left) 10 65535
  b ← parse_unsigned_base (trim right) 10 65535
  some (a, b)

unfoldable pub parse_card_id : Text → Option (ℕ × ℕ)
unfolding parse_pair parse_single
parse_card_id text =
    let s = trim text in
    if is_empty s
    then none
    else elim (cut is_card_separator s) [ some parts ↦ parse_pair parts | none ↦ parse_single s ]

unfoldable pub format_card_id : ℕ → ℕ → Text
format_card_id series number = to_string series ++ b':' ∷ to_string number
