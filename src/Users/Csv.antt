-- ===== src/Users/Csv.antt =====
-- src/users/UserManager.cpp: the rows of the users' CSV file in its three layouts, and its reading, writing,
-- export and import. The merge of an old file into a database is not modelled.
use monk_skud_unex.Base.{
  ℕ, ◌+◌, List, [], ◌∷◌, ◌++◌, Bool, true, false, not, Text, Option, none, some, ℤ, pos, ltb,
  if◌then◌else◌, is_empty, length, get_or, map, drop, any, codes, bytes_eq,
}
use mathlib.Core.List.{foldl}
use monk_skud_unex.Base.Sort.{sort, text_lt}
use monk_skud_unex.Text.{trim, split}
use monk_skud_unex.Text.Int.{int_text, stoi}
use monk_skud_unex.Text.Csv.{safe, joined, lines, terminated}
use monk_skud_unex.Types.{User, new_user}
use monk_skud_unex.Users.{append_unique_card, normalize_user}
use monk_skud_unex.Users.Ops.{UserManager}
use monk_skud_unex.Storage.Files.{FileSystem, replace_file}

-- The cards with a `|` between two of them.
unfoldable pub piped : List Text → Text
piped [] = []
piped (c ∷ []) = safe c
piped (c ∷ d ∷ cs) = safe c ++ b'|' ∷ piped (d ∷ cs)

unfoldable pub encode_cards : User → Text
unfolding piped
encode_cards u = piped (normalize_user u).cards

unfoldable pub decode_cards : Text → List Text → List Text
decode_cards text cards = foldl append_unique_card cards (split text b'|')

abbrev pub flag : Bool → Text
flag true = b'1' ∷ []
flag false = b'0' ∷ []

unfoldable pub row_fields : User → List Text
unfolding encode_cards
row_fields source =
    let u = normalize_user source in
    int_text u.id
    ∷ flag u.enabled
    ∷ safe u.last_name
    ∷ safe u.first_name
    ∷ safe u.middle_name
    ∷ safe u.department
    ∷ safe u.position
    ∷ safe u.card
    ∷ safe u.card_series
    ∷ safe u.card_number
    ∷ safe u.pin_code
    ∷ safe u.access_mode
    ∷ int_text u.controller_port
    ∷ safe u.valid_from
    ∷ safe u.valid_until
    ∷ flag u.telegram_arrival
    ∷ flag u.telegram_departure
    ∷ encode_cards u
    ∷ []

unfoldable pub row : User → Text
unfolding row_fields
row u = joined (row_fields u)

abbrev pub is_set : Text → Bool
is_set s = not (bytes_eq s (codes "0"))

-- An empty port is 0.
unfoldable pub port_of : Text → Option ℤ
port_of s = if is_empty s then some (pos 0) else stoi s

-- The columns that the three layouts share.
unfoldable pub shared_columns : List Text → ℤ → User
shared_columns c id = record new_user {
  id = id;
  enabled = is_set (get_or c 1 []);
  last_name = get_or c 2 [];
  first_name = get_or c 3 [];
  middle_name = get_or c 4 [];
  department = get_or c 5 [];
  position = get_or c 6 [];
  card = get_or c 7 [];
}

-- The columns of now, those from v0.1.2 to v0.2.1, and the original ones.
unfoldable pub columns_now : List Text → User → ℤ → User
unfolding decode_cards
columns_now c u port = record u {
  card_series = get_or c 8 [];
  card_number = get_or c 9 [];
  pin_code = get_or c 10 [];
  access_mode = if is_empty (get_or c 11 []) then codes "card" else get_or c 11 [];
  controller_port = port;
  valid_from = get_or c 13 [];
  valid_until = get_or c 14 [];
  telegram_arrival = is_set (get_or c 15 []);
  telegram_departure = is_set (get_or c 16 []);
  cards = if ltb (length c) 18 then u.cards else decode_cards (get_or c 17 []) u.cards;
}

unfoldable pub columns_old : List Text → ℕ → User → ℤ → User
columns_old c i u port = record u {
  controller_port = port;
  valid_from = get_or c i [];
  valid_until = get_or c (i + 1) [];
  telegram_arrival = is_set (get_or c (i + 2) []);
  telegram_departure = is_set (get_or c (i + 3) []);
}

unfoldable pub layout : List Text → User → Option User
unfolding columns_now columns_old port_of
layout c u =
    if ltb (length c) 13
    then some (columns_old c 8 u (pos 0))
    else if ltb (length c) 17
    then elim (port_of (get_or c 8 [])) [ none ↦ none | some port ↦ some (columns_old c 9 u port) ]
    else elim (port_of (get_or c 12 [])) [ none ↦ none | some port ↦ some (columns_now c u port) ]

unfoldable pub decode_row : List Text → Option User
unfolding shared_columns layout
decode_row c = if ltb (length c) 12 then none else elim (stoi (get_or c 0 [])) [
  | none ↦ none
  | some id ↦ elim (layout c (shared_columns c id)) [
    | none ↦ none
    | some u ↦ some (normalize_user u)
  ]
]

-- `load` skips a row that cannot be read.
unfoldable pub read_rows : List Text → List User
unfolding decode_row
read_rows [] = []
read_rows (l ∷ ls) =
    let rest = read_rows ls in
    if is_empty (trim l)
    then rest
    else elim (decode_row (split l b';')) [ none ↦ rest | some u ↦ u ∷ rest ]

-- `importCsv` refuses the text at such a row.
unfoldable pub import_rows : List Text → Option (List User)
unfolding decode_row
import_rows [] = some []
import_rows (l ∷ ls) =
    let rest = import_rows ls in
    if is_empty (trim l) then rest else elim (decode_row (split l b';')) [
      | none ↦ none
      | some u ↦ elim rest [ none ↦ none | some us ↦ some (u ∷ us) ]
    ]

abbrev pub users_header : Text
users_header =
    codes
      "id;enabled;last_name;first_name;middle_name;department;position;card;card_series;card_number;pin_code;access_mode;controller_port;valid_from;valid_until;telegram_arrival;telegram_departure;cards"

unfoldable pub export_csv : List User → Text
unfolding row
export_csv users = terminated (users_header ∷ map row users)

unfoldable pub add_department : Text → List Text → List Text
add_department name names = if any (bytes_eq name) names then names else names ++ name ∷ []

unfoldable pub departments_of : List User → List Text → List Text
unfolding add_department
departments_of [] names = names
departments_of (u ∷ us) names =
    let name = trim u.department in
    departments_of us (if is_empty name then names else add_department name names)

unfoldable pub used_departments : List User → List Text
unfolding departments_of
used_departments users = sort text_lt (departments_of users [])

module _ {W : Type 0} (fs : FileSystem W) (path : Text) where
  -- With no database.
  unfoldable pub load : UserManager W → Bool × UserManager W
  unfolding read_rows
  load m = elim (fs.read path m.world) [
    | none ↦ (false, m)
    | some s ↦ (true, record m { users = read_rows (drop 1 (lines s)) })
  ]

  unfoldable pub save : List User → W → Bool × W
  unfolding export_csv
  save users w = replace_file fs path (export_csv users) w

  -- Nothing changes where the text is refused.
  unfoldable pub import_csv : Text → UserManager W → Bool × UserManager W
  unfolding import_rows save
  import_csv text m = elim (import_rows (drop 1 (lines text))) [
    | none ↦ (false, m)
    | some users ↦ let r = save users m.world in (r.0, record { users = users; world = r.1 })
  ]
