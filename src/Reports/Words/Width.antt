-- ===== src/Reports/Words/Width.antt =====
-- src/reports/ReportManager.cpp: what a padded cell of the Telegram table looks like.
use mathlib.Core.List.{reverse-append}
use monk_skud_unex.Base.{
  ℕ, zero, suc, ◌+◌, ◌-◌, max, [], ◌∷◌, ◌++◌, Bool, true, false, ◌&&◌, not, Text, ◌==◌, replicate,
  reverse, ◌≡◌, refl, arith,
}
use monk_skud_unex.Text.Number.{all_of}
use monk_skud_unex.Text.Number.Decimal.{all_of-append}
use monk_skud_unex.Reports.Words.{
  or_dash, blank_of, squeeze, strip_front, compact_whitespace, utf8_length, telegram_pad,
}

pub utf8_length-append : (s t : Text) → utf8_length (s ++ t) ≡ utf8_length s + utf8_length t
unfolding utf8_length
utf8_length-append [] t = ground arith
utf8_length-append (c ∷ s) t = ground (arith, utf8_length-append s t)

utf8_length-spaces : (n : ℕ) → utf8_length (replicate n 32) ≡ n
unfolding utf8_length
utf8_length-spaces zero = refl
utf8_length-spaces (suc n) = ground (arith, utf8_length-spaces n)

-- A cell is as wide as its column, or as its own text where that is wider.
pub utf8_length-telegram_pad :
    (s : Text) (w : ℕ)
    → utf8_length (telegram_pad s w) ≡ max w (utf8_length (compact_whitespace (or_dash s)))
unfolding telegram_pad
utf8_length-telegram_pad s w =
    let value = compact_whitespace (or_dash s) in
    ground (
      arith,
      utf8_length-append value (replicate (w - utf8_length value) 32),
      utf8_length-spaces (w - utf8_length value),
    )

-- No line break and no tabulator.
abbrev pub inline_byte : ℕ → Bool
inline_byte c = not (c == 10) && not (c == 13) && not (c == 9)

all_of-squeeze : (prev : Bool) (s : Text) → all_of inline_byte (squeeze prev s) ≡ true
unfolding squeeze blank_of all_of
all_of-squeeze prev [] = refl
all_of-squeeze true (c ∷ s) = ground (arith, all_of-squeeze true s, all_of-squeeze false s)
all_of-squeeze false (c ∷ s) = ground (arith, all_of-squeeze true s, all_of-squeeze false s)

all_of-strip_front : (p : ℕ → Bool) (s : Text) → all_of p s ≡ true → all_of p (strip_front s) ≡ true
unfolding strip_front all_of
all_of-strip_front p [] h = refl
all_of-strip_front p (c ∷ s) h = ground (arith, all_of-strip_front p s)

all_of-reverse : (p : ℕ → Bool) (s : Text) → all_of p s ≡ true → all_of p (reverse s) ≡ true
unfolding all_of
all_of-reverse p [] h = refl
all_of-reverse p (c ∷ s) h =
    rw (reverse-append (c ∷ []) s)
      (all_of-append p (reverse s) (c ∷ []) (all_of-reverse p s (ground arith)) (ground arith))

all_of-spaces : (n : ℕ) → all_of inline_byte (replicate n 32) ≡ true
unfolding all_of
all_of-spaces zero = refl
all_of-spaces (suc n) = all_of-spaces n

-- A cell stays on its line, whatever its text.
pub all_of-telegram_pad : (s : Text) (w : ℕ) → all_of inline_byte (telegram_pad s w) ≡ true
unfolding telegram_pad compact_whitespace
all_of-telegram_pad s w =
    let inner = squeeze false (or_dash s) in
    let value = compact_whitespace (or_dash s) in
    let right = reverse (strip_front inner) in
    all_of-append inline_byte value (replicate (w - utf8_length value) 32)
      (all_of-reverse inline_byte (strip_front right) (
        all_of-strip_front inline_byte right (
          all_of-reverse inline_byte (strip_front inner)
            (all_of-strip_front inline_byte inner (all_of-squeeze false (or_dash s))))))
      (all_of-spaces (w - utf8_length value))
