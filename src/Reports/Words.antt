-- ===== src/Reports/Words.antt =====
-- src/reports/ReportManager.cpp: the texts of a cell.
pub mod Width
use monk_skud_unex.Base.{
  ℕ, ◌+◌, ◌-◌, [], ◌∷◌, ◌++◌, Bool, true, false, ◌||◌, ◌&&◌, not, Text, Option, none, some, ℤ, pos,
  leb, ltb, ◌==◌, if◌then◌else◌, is_empty, length, take, drop, get_or, replicate, reverse, utf8,
  codes, bit_and, within,
}
use monk_skud_unex.Text.Number.{to_string}
use monk_skud_unex.Text.Int.{int_text, stoi}
use monk_skud_unex.Text.Card.{parse_card_id}
use monk_skud_unex.Types.{User}

abbrev pub dash : Text
dash = utf8 "—"

abbrev pub or_dash : Text → Text
or_dash s = if is_empty s then dash else s

unfoldable pub time_only : Text → Text
time_only ts = if leb 19 (length ts) then take 8 (drop 11 ts) else or_dash ts

unfoldable pub display_card : Text → Text
display_card card = elim (parse_card_id card) [
  | some (series, number) ↦ to_string series ++ (codes " / " ++ to_string number)
  | none ↦ or_dash card
]

unfoldable pub add_word : Text → Text → Text
add_word name part =
    if is_empty part then name else if is_empty name then part else name ++ b' ' ∷ part

abbrev pub numbered_user : ℤ → Text
numbered_user id = utf8 "Пользователь №" ++ int_text id

unfoldable pub user_name : User → Text
unfolding add_word
user_name u =
    let name = add_word (add_word u.last_name u.first_name) u.middle_name in
    if is_empty name then numbered_user u.id else name

-- A line break or a tabulator is a space.
unfoldable pub blank_of : ℕ → ℕ
blank_of c = if c == 10 || c == 13 || c == 9 then 32 else c

-- One space for a run of them. The first argument tells whether the byte before was a space.
unfoldable pub squeeze : Bool → Text → Text
unfolding blank_of
squeeze prev [] = []
squeeze prev (c ∷ s) =
    let d = blank_of c in
    let rest = squeeze (d == 32) s in if d == 32 && prev then rest else d ∷ rest

unfoldable pub strip_front : Text → Text
strip_front [] = []
strip_front (c ∷ s) = let rest = strip_front s in if c == 32 then rest else c ∷ s

unfoldable pub compact_whitespace : Text → Text
unfolding squeeze strip_front
compact_whitespace s = reverse (strip_front (reverse (strip_front (squeeze false s))))

-- The bytes that start a character.
unfoldable pub utf8_length : Text → ℕ
utf8_length [] = 0
utf8_length (c ∷ s) = (if bit_and c 0xC0 == 0x80 then 0 else 1) + utf8_length s

unfoldable pub telegram_pad : Text → ℕ → Text
unfolding compact_whitespace utf8_length
telegram_pad text width =
    let value = compact_whitespace (or_dash text) in
    value ++ replicate (width - utf8_length value) 32

-- The hour and the minute.
unfoldable pub valid_time_of_day : Text → Option (ℕ × ℕ)
valid_time_of_day s =
    if not (length s == 5) || not (get_or s 2 0 == b':') then none else elim (stoi (take 2 s)) [
      | none ↦ none
      | some h ↦ elim (stoi (take 2 (drop 3 s))) [
        | none ↦ none
        | some m ↦ elim (within 23 h) [
          | none ↦ none
          | some hour ↦ elim (within 59 m) [ none ↦ none | some minute ↦ some (hour, minute) ]
        ]
      ]
    ]
