-- ===== src/SoyalImport.antt =====
-- src/import/SoyalImport.cpp: users from the files of the SOYAL 701Client.
pub mod Counted
use monk_skud_unex.Base.{
  ℕ, zero, suc, ◌+◌, ◌-◌, ◌*◌, ◌/◌, ◌%◌, List, [], ◌∷◌, ◌++◌, Bool, true, false, ◌&&◌, ◌||◌, not,
  Text, Bytes, Option, none, some, ltb, leb, ◌==◌, if◌then◌else◌, length, is_empty, take, drop,
  get_or, codes, bytes_eq, reverse, min, pos, pos_part,
}
use monk_skud_unex.Text.{trim, is_space, cut}
use monk_skud_unex.Text.Number.{padded, all_of, is_digit}
use monk_skud_unex.Text.Int.{stoi}
use monk_skud_unex.Text.Csv.{lines}
use monk_skud_unex.Text.Card.{format_card_id}

pub record SoyalImportRecord : Type 0 where
  pub address : ℕ
  pub card_series : ℕ
  pub card_number : ℕ
  pub card : Text
  pub pin_code : Text
  pub full_name : Text
  pub last_name : Text
  pub first_name : Text
  pub middle_name : Text
  pub department : Text
  pub position : Text
  pub source : Text

pub data SoyalError : Type 0 where
  empty_usr odd_size too_many empty_text no_header : SoyalError

pub record SoyalSlots : Type 0 where
  pub total_slots : ℕ
  pub empty_slots : ℕ
  pub records : List SoyalImportRecord

pub data SoyalImportResult : Type 0 where
  imported : SoyalSlots → SoyalImportResult
  refused : SoyalError → SoyalImportResult

abbrev pub record_size : ℕ
record_size = 328

unfoldable pub le16 : Bytes → ℕ → ℕ
le16 r i = get_or r i 0 + 256 * get_or r (i + 1) 0

-- Up to 0xffff.
unfoldable pub append_utf8 : ℕ → Text
append_utf8 cp =
    if leb cp 0x7f
    then cp ∷ []
    else if leb cp 0x7ff
    then (0xc0 + cp / 64) ∷ (0x80 + cp % 64) ∷ []
    else (0xe0 + cp / 4096) ∷ (0x80 + cp / 64 % 64) ∷ (0x80 + cp % 64) ∷ []

-- The characters of Windows-1251 above ASCII; a question mark for the rest.
unfoldable pub cp1251_high : ℕ → ℕ
cp1251_high c =
    if leb 0xc0 c
    then 0x410 + (c - 0xc0)
    else if c == 0xa8
    then 0x401
    else if c == 0xb8
    then 0x451
    else if c == 0x82
    then 0x201a
    else if c == 0x84
    then 0x201e
    else if c == 0x85
    then 0x2026
    else if c == 0x86
    then 0x2020
    else if c == 0x87
    then 0x2021
    else if c == 0x89
    then 0x2030
    else if c == 0x8b
    then 0x2039
    else if c == 0x91 || c == 0x92
    then 0x2019
    else if c == 0x93 || c == 0x94
    then 0x201d
    else if c == 0x95
    then 0x2022
    else if c == 0x96
    then 0x2013
    else if c == 0x97
    then 0x2014
    else if c == 0x99
    then 0x2122
    else if c == 0xab
    then 0xab
    else if c == 0xbb
    then 0xbb
    else b'?'

unfoldable pub cp1251_to_utf8 : Bytes → Text
unfolding cp1251_high append_utf8
cp1251_to_utf8 [] = []
cp1251_to_utf8 (c ∷ s) =
    (if ltb c 0x80 then c ∷ [] else append_utf8 (cp1251_high c)) ++ cp1251_to_utf8 s

unfoldable pub until_zero : Bytes → Bytes
until_zero [] = []
until_zero (c ∷ s) = let rest = until_zero s in if c == 0 then [] else c ∷ rest

-- A field of a record, and one of a line, which may end before it.
unfoldable pub fixed_ansi : Bytes → ℕ → ℕ → Text
unfolding cp1251_to_utf8 until_zero
fixed_ansi r from to = trim (cp1251_to_utf8 (until_zero (take (to - from) (drop from r))))

unfoldable pub fixed_column : Text → ℕ → ℕ → Text
unfolding cp1251_to_utf8
fixed_column line from to = trim (cp1251_to_utf8 (take (to - from) (drop from line)))

-- `while (s >> p)`: the words between spaces.
unfoldable pub words_loop : Text → Text → List Text
words_loop [] cur = if is_empty cur then [] else cur ∷ []
words_loop (c ∷ s) cur = elim (is_space c) [
  | false ↦ words_loop s (cur ++ c ∷ [])
  | true ↦ elim (is_empty cur) [ true ↦ words_loop s [] | false ↦ cur ∷ words_loop s [] ]
]

unfoldable pub spaced : List Text → Text
spaced [] = []
spaced (w ∷ []) = w
spaced (w ∷ v ∷ ws) = w ++ b' ' ∷ spaced (v ∷ ws)

unfoldable pub named : List Text → SoyalImportRecord → SoyalImportRecord
unfolding spaced
named [] r = r
named (last ∷ []) r = record r { last_name = last }
named (last ∷ first ∷ ws) r = record r {
  last_name = last;
  first_name = first;
  middle_name = spaced ws;
}

unfoldable pub split_name : SoyalImportRecord → SoyalImportRecord
unfolding words_loop named
split_name r =
    let name = trim r.full_name in named (words_loop name []) (record r { full_name = name })

unfoldable pub pin_text : ℕ → Text
pin_text pin = if pin == 0 || ltb 9999 pin then [] else padded 4 pin

unfoldable pub parse_unsigned : Text → Option ℕ
parse_unsigned text =
    let s = trim text in
    if is_empty s || not (all_of is_digit s)
    then none
    else elim (stoi s) [ none ↦ none | some z ↦ some (pos_part z) ]

-- What a slot of the `.usr` file says, before the name is split.
unfoldable pub slot_record : ℕ → Bytes → SoyalImportRecord
unfolding le16 fixed_ansi pin_text
slot_record address r =
    let number = le16 r 2 in
    let series = le16 r 12 in
    record {
      address = address;
      card_series = series;
      card_number = number;
      card = if not (series == 0) || not (number == 0) then format_card_id series number else [];
      pin_code = pin_text (le16 r 0);
      full_name = fixed_ansi r 36 132;
      last_name = [];
      first_name = [];
      middle_name = [];
      department = [];
      position = fixed_ansi r 132 228;
      source = codes "usr";
    }

-- Nothing in the fields that name a user.
unfoldable pub is_blank_slot : Bytes → Bool
unfolding le16 fixed_ansi
is_blank_slot r =
    le16 r 0 == 0
    && le16 r 2 == 0
    && le16 r 12 == 0
    && is_empty (fixed_ansi r 36 132)
    && is_empty (fixed_ansi r 132 228)

unfoldable pub parse_slot : ℕ → Bytes → Option SoyalImportRecord
unfolding slot_record is_blank_slot split_name
parse_slot address r = if is_blank_slot r then none else some (split_name (slot_record address r))

unfoldable pub add_slot : Option SoyalImportRecord → SoyalSlots → SoyalSlots
add_slot none s = record s { empty_slots = s.empty_slots + 1 }
add_slot (some r) s = record s { records = s.records ++ r ∷ [] }

-- `count` records from address `i` on.
unfoldable pub parse_slots : ℕ → ℕ → Bytes → SoyalSlots → SoyalSlots
unfolding parse_slot add_slot
parse_slots zero i bytes s = s
parse_slots (suc count) i bytes s =
    parse_slots count (i + 1) (drop record_size bytes)
      (add_slot (parse_slot i (take record_size bytes)) s)

unfoldable pub parse_usr : Bytes → SoyalImportResult
unfolding parse_slots
parse_usr bytes =
    let count = length bytes / record_size in
    if is_empty bytes
    then refused empty_usr
    else if not (length bytes % record_size == 0)
    then refused odd_size
    else if ltb 100000 count
    then refused too_many
    else imported
        (parse_slots count 0 bytes (record { total_slots = count; empty_slots = 0; records = [] }))

-- `line.pop_back()` at a carriage return.
unfoldable pub chomp : Text → Text
chomp [] = []
chomp (c ∷ []) = if c == 13 then [] else c ∷ []
chomp (c ∷ d ∷ s) = c ∷ chomp (d ∷ s)

unfoldable pub starts_with : Text → Text → Bool
starts_with [] s = true
starts_with (p ∷ ps) [] = false
starts_with (p ∷ ps) (c ∷ s) = p == c && starts_with ps s

unfoldable pub occurs : Text → Text → Bool
unfolding starts_with
occurs p [] = starts_with p []
occurs p (c ∷ s) = starts_with p (c ∷ s) || occurs p s

-- The series and the number of a card field, each up to 65535; 0 and 0 with no colon. Where a part is no
-- number or too large, the parts that were read stay.
pub record CardField : Type 0 where
  pub card_ok : Bool
  pub series : ℕ
  pub number : ℕ

abbrev pub no_card : CardField
no_card = record { card_ok = false; series = 0; number = 0 }

unfoldable pub parse_card_field : Text → CardField
parse_card_field field = elim (cut (λ (c : ℕ). c == b':') field) [
  | none ↦ no_card
  | some (left, right) ↦ elim (parse_unsigned left) [
    | none ↦ no_card
    | some s ↦ elim (parse_unsigned right) [
      | none ↦ record { card_ok = false; series = s; number = 0 }
      | some n ↦ record { card_ok = leb s 65535 && leb n 65535; series = s; number = n }
    ]
  ]
]

abbrev pub number_or_zero : Option ℕ → ℕ
number_or_zero none = 0
number_or_zero (some n) = n

unfoldable pub record_of_line : ℕ → Text → Option SoyalImportRecord
unfolding fixed_column parse_card_field parse_unsigned split_name pin_text
record_of_line address l =
    let card = parse_card_field (fixed_column l 7 19) in
    let name = fixed_column l 19 50 in
    let pin = number_or_zero (parse_unsigned (fixed_column l 50 57)) in
    let department = fixed_column l 57 74 in
    let has_card = card.card_ok && (not (card.series == 0) || not (card.number == 0)) in
    if not has_card && is_empty name && pin == 0
    then none
    else some (
        split_name (record {
          address = address;
          card_series = card.series;
          card_number = card.number;
          card = if has_card then format_card_id card.series card.number else [];
          pin_code = pin_text pin;
          full_name = name;
          last_name = [];
          first_name = [];
          middle_name = [];
          department = if bytes_eq department (codes "Dep_00") then [] else department;
          position = [];
          source = codes "txt";
        }))

-- A line of the text export; one with no address counts as empty.
unfoldable pub parse_export_line : Text → Option SoyalImportRecord
unfolding record_of_line parse_unsigned
parse_export_line l =
    if is_empty (trim l)
    then none
    else elim (parse_unsigned (take 7 l)) [ none ↦ none | some address ↦ record_of_line address l ]

unfoldable pub parse_export_lines : List Text → SoyalSlots → SoyalSlots
unfolding parse_export_line add_slot chomp
parse_export_lines [] s = s
parse_export_lines (l ∷ ls) s = parse_export_lines ls (add_slot (parse_export_line (chomp l)) s)

unfoldable pub is_export_header : Text → Bool
unfolding starts_with occurs chomp
is_export_header l = starts_with (codes "Addres") (chomp l) && occurs (codes "Card #") (chomp l)

unfoldable pub parse_export : List Text → SoyalImportResult
unfolding parse_export_lines is_export_header
parse_export [] = refused no_header
parse_export (header ∷ ls) =
    if is_export_header header
    then imported
        (parse_export_lines ls (record { total_slots = length ls; empty_slots = 0; records = [] }))
    else refused no_header

unfoldable pub parse_user_card_text : Text → SoyalImportResult
unfolding parse_export
parse_user_card_text s = if is_empty s then refused empty_text else parse_export (lines s)
