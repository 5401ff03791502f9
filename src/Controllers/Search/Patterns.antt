-- ===== src/Controllers/Search/Patterns.antt =====
-- src/controllers/ControllerManager.cpp: `eepromPatterns`, the encodings of a card that are looked for.
use monk_skud_unex.Base.{
  ℕ, ◌+◌, ◌-◌, ◌*◌, ◌/◌, ◌%◌, List, [], ◌∷◌, ◌++◌, Bool, true, false, ◌&&◌, ◌||◌, not, Text, Bytes,
  leb, ◌==◌, if◌then◌else◌, is_empty, length, any, bytes_eq, codes, utf8,
}
use monk_skud_unex.Text.Number.{to_string, padded}

pub record EepromPattern : Type 0 where
  pub name : Text
  pub bytes : Bytes
  pub exact : Bool

unfoldable bcd_pairs : Text → Bytes
bcd_pairs [] = []
bcd_pairs (a ∷ []) = []
bcd_pairs (a ∷ b ∷ rest) = ((a - 48) * 16 + (b - 48)) % 256 ∷ bcd_pairs rest

-- Two decimal digits in a byte, behind a zero where their number is odd.
unfoldable pub bcd_digits : Text → Bytes
unfolding bcd_pairs
bcd_digits digits = bcd_pairs (if length digits % 2 == 1 then 48 ∷ digits else digits)

abbrev same_flag : Bool → Bool → Bool
same_flag true b = b
same_flag false b = not b

-- A pattern with bytes that are not there yet.
unfoldable pub add_pattern : Text → Bytes → Bool → List EepromPattern → List EepromPattern
add_pattern name bytes exact ps =
    let known = λ (x : EepromPattern). bytes_eq x.bytes bytes && same_flag x.exact exact in
    if is_empty bytes || any known ps
    then ps
    else ps ++ record { name = name; bytes = bytes; exact = exact } ∷ []

abbrev high : ℕ → ℕ
high n = n / 256 % 256

abbrev low : ℕ → ℕ
low n = n % 256

unfoldable pub short_patterns : ℕ → ℕ → List EepromPattern → List EepromPattern
unfolding add_pattern
short_patterns series number ps =
    if leb series 255
    then add_pattern (codes "S8+N16 LE") (low series ∷ low number ∷ high number ∷ []) true
        (add_pattern (codes "S8+N16 BE") (low series ∷ high number ∷ low number ∷ []) true ps)
    else ps

abbrev decimal_bytes : ℕ → Bytes
decimal_bytes v = v / 16777216 % 256 ∷ v / 65536 % 256 ∷ v / 256 % 256 ∷ v % 256 ∷ []

abbrev decimal_bytes_back : ℕ → Bytes
decimal_bytes_back v = v % 256 ∷ v / 256 % 256 ∷ v / 65536 % 256 ∷ v / 16777216 % 256 ∷ []

unfoldable pub decimal_patterns : ℕ → ℕ → List EepromPattern → List EepromPattern
unfolding add_pattern
decimal_patterns series number ps =
    let v = series * 100000 + number in
    if leb v 0xffffffff
    then add_pattern (codes "DEC(series*100000+number) LE") (decimal_bytes_back v) true
        (add_pattern (codes "DEC(series*100000+number) BE") (decimal_bytes v) true ps)
    else ps

unfoldable pub text_patterns : ℕ → ℕ → List EepromPattern → List EepromPattern
unfolding add_pattern bcd_digits
text_patterns series number ps =
    add_pattern (codes "ASCII series:number") (to_string series ++ b':' ∷ to_string number) true (
      add_pattern (codes "BCD 5+5") (bcd_digits (padded 5 series ++ padded 5 number)) true
        (add_pattern (codes "BCD 3+5") (bcd_digits (padded 3 series ++ padded 5 number)) true ps))

unfoldable pub eeprom_patterns : ℕ → ℕ → List EepromPattern
unfolding add_pattern short_patterns decimal_patterns text_patterns
eeprom_patterns series number =
    let sh = high series in
    let sl = low series in
    let nh = high number in
    let nl = low number in
    let be = add_pattern (codes "S16+N16 BE") (sh ∷ sl ∷ nh ∷ nl ∷ []) true [] in
    let le = add_pattern (codes "S16+N16 LE") (sl ∷ sh ∷ nl ∷ nh ∷ []) true be in
    let exact_ones =
      text_patterns series number
        (decimal_patterns series number (short_patterns series number le)) in
    add_pattern (utf8 "N16 LE (частичное)") (nl ∷ nh ∷ []) false
      (add_pattern (utf8 "N16 BE (частичное)") (nh ∷ nl ∷ []) false exact_ones)

-- The records of 8 bytes that the probes read.
unfoldable pub compact_patterns : List (ℕ × Bytes) → List EepromPattern
compact_patterns [] = []
compact_patterns ((address, bytes) ∷ rest) =
    let others = compact_patterns rest in
    if is_empty bytes
    then others
    else record {
      name = codes "87H compact user " ++ (to_string address ++ codes " (8B exact)");
      bytes = bytes;
      exact = true;
    }
      ∷ others
