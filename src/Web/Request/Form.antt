-- ===== src/Web/Request/Form.antt =====
-- src/utils/Util.cpp: `urlDecode` and `parseForm` against what a browser sends.
use monk_skud_unex.Base.{
  ℕ, ◌+◌, ◌*◌, ◌/◌, ◌%◌, ◌<◌, [], ◌∷◌, Bool, true, ◌&&◌, ◌||◌, Text, some, ltb, leb, if◌then◌else◌,
  All, IsByte, ◌≡◌, refl, ap, ◌∙◌, arith, Bool-cases, inl, inr,
}
use monk_skud_unex.Text.Number.{is_digit, is_xdigit, value}
use monk_skud_unex.Web.Request.{hex_pair, escaped, url_decode}

-- Letters and digits stand for themselves; every other byte is a percent sign and two hexadecimal digits.
abbrev is_letter : ℕ → Bool
is_letter c = (leb b'A' c && leb c b'Z') || (leb b'a' c && leb c b'z') || (leb b'0' c && leb c b'9')

abbrev hex_digit : ℕ → ℕ
hex_digit d = if ltb d 10 then 48 + d else 55 + d

unfoldable pub url_encode : Text → Text
url_encode [] = []
url_encode (c ∷ s) =
    let rest = url_encode s in
    if is_letter c then c ∷ rest else b'%' ∷ hex_digit (c / 16) ∷ hex_digit (c % 16) ∷ rest

url_decode-plain : (c : ℕ) (s : Text) → is_letter c ≡ true → url_decode (c ∷ s) ≡ c ∷ url_decode s
unfolding url_decode escaped
url_decode-plain c [] h = ground arith
url_decode-plain c (a ∷ []) h = ground arith
url_decode-plain c (a ∷ b ∷ s) h = ground arith

hex_pair-hex_digit :
    (h l : ℕ) → h < 16 → l < 16 → hex_pair (hex_digit h) (hex_digit l) ≡ some (h * 16 + l)
unfolding hex_pair value is_xdigit is_digit
hex_pair-hex_digit h l high low = ground arith

url_decode-escaped :
    (c a b v : ℕ) (s : Text)
    → escaped c a b ≡ some v
    → url_decode (c ∷ a ∷ b ∷ s) ≡ v ∷ url_decode s
unfolding url_decode
url_decode-escaped c a b v s e = rw (e, url_decode) refl

url_decode-percent :
    (c : ℕ) (s : Text)
    → c < 256
    → url_decode (b'%' ∷ hex_digit (c / 16) ∷ hex_digit (c % 16) ∷ s) ≡ c ∷ url_decode s
unfolding escaped
url_decode-percent c s h =
    let pair : hex_pair (hex_digit (c / 16)) (hex_digit (c % 16)) ≡ some c =
      hex_pair-hex_digit (c / 16) (c % 16) (omega (arith, h)) (omega arith)
      ∙ ap some (omega arith) in
    url_decode-escaped b'%' (hex_digit (c / 16)) (hex_digit (c % 16)) c s pair

-- A text of bytes that was encoded is decoded to itself.
pub url_decode-url_encode : (s : Text) → All IsByte s → url_decode (url_encode s) ≡ s
unfolding url_encode url_decode
url_decode-url_encode [] h = refl
url_decode-url_encode (c ∷ s) (b, h) =
    let ih = ap (λ (t : Text). c ∷ t) (url_decode-url_encode s h) in
    elim (Bool-cases (is_letter c)) [
      | inl plain ↦ rw plain (url_decode-plain c (url_encode s) plain ∙ ih)
      | inr other ↦ rw other (url_decode-percent c (url_encode s) b ∙ ih)
    ]
