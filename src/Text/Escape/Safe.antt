-- ===== src/Text/Escape/Safe.antt =====
-- src/utils/Util.cpp: what `htmlEscape` and `jsonEscape` keep out of a page and of a JSON string.
use monk_skud_unex.Base.{ℕ, [], ◌∷◌, Bool, true, not, ◌&&◌, ◌==◌, leb, Text, ◌≡◌, refl, arith}
use monk_skud_unex.Text.Number.{all_of}
use monk_skud_unex.Text.Number.Decimal.{all_of-append}
use monk_skud_unex.Text.Escape.{html_char, html_escape, json_char, json_escape, hex_lower}

-- No character that opens or closes a tag or an attribute.
unfoldable pub is_inert : ℕ → Bool
is_inert c = not (c == b'<') && not (c == b'>') && not (c == b'"')

html_char-is_inert : (c : ℕ) → all_of is_inert (html_char c) ≡ true
unfolding html_char is_inert all_of
html_char-is_inert c = ground arith

-- The result of `htmlEscape` has no `<`, no `>` and no double quote, whatever the text.
pub html_escape-is_inert : (s : Text) → all_of is_inert (html_escape s) ≡ true
unfolding html_escape all_of
html_escape-is_inert [] = refl
html_escape-is_inert (c ∷ s) =
    all_of-append is_inert (html_char c) (html_escape s) (html_char-is_inert c)
      (html_escape-is_inert s)

unfoldable pub is_printed : ℕ → Bool
is_printed c = leb 0x20 c

hex_lower-is_printed : (d : ℕ) → is_printed (hex_lower d) ≡ true
unfolding hex_lower is_printed
hex_lower-is_printed d = ground arith

json_char-is_printed : (c : ℕ) → all_of is_printed (json_char c) ≡ true
unfolding json_char all_of hex_lower is_printed
json_char-is_printed c = ground arith

-- The result of `jsonEscape` has no control character, whatever the text.
pub json_escape-is_printed : (s : Text) → all_of is_printed (json_escape s) ≡ true
unfolding json_escape all_of
json_escape-is_printed [] = refl
json_escape-is_printed (c ∷ s) =
    all_of-append is_printed (json_char c) (json_escape s) (json_char-is_printed c)
      (json_escape-is_printed s)
