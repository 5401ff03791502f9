-- ===== src/Web/Users/Fields.antt =====
-- src/web/WebServer.cpp: the user that the form of `/api/users/save` gives, and its checks.
use monk_skud_unex.Base.{
  [], ◌∷◌, ◌++◌, Bool, ◌&&◌, ◌||◌, not, Text, Option, none, some, ℤ, pos, leb_ℤ, ◌==◌,
  if◌then◌else◌, is_empty, length, codes, bytes_eq,
}
use monk_skud_unex.Text.{trim}
use monk_skud_unex.Text.Number.{to_string, is_digit, all_of}
use monk_skud_unex.Text.Card.{parse_card_parts, format_card_id}
use monk_skud_unex.Types.{User, new_user}
use monk_skud_unex.Web.Request.{Form, int_or, parse_card_list}
use monk_skud_unex.Web.Site.{Problem}
use monk_skud_unex.Web.Jobs.Forms.{value_of}

-- What a form of a user gives.
pub data Draft : Type 0 where
  accepted : User → Draft
  declined : Problem → Draft

abbrev pub with_fields : Form → User
with_fields f = record new_user {
  id = int_or (pos 0) (value_of "id" f);
  enabled = not (bytes_eq (value_of "enabled" f) (codes "0"));
  last_name = value_of "last_name" f;
  first_name = value_of "first_name" f;
  middle_name = value_of "middle_name" f;
  department = value_of "department" f;
  position = value_of "position" f;
  pin_code = trim (value_of "pin_code" f);
  access_mode =
      if is_empty (value_of "access_mode" f) then codes "card" else value_of "access_mode" f;
}

-- A single card in two fields, as older forms send it.
unfoldable pub read_single_card : Form → User → Draft
read_single_card f u =
    let series = trim (value_of "card_series" f) in
    let number = trim (value_of "card_number" f) in
    let with_parts = record u { card_series = series; card_number = number } in
    if is_empty series && is_empty number
    then accepted with_parts
    else elim (parse_card_parts series number) [
      | none ↦ declined Problem.bad_card
      | some (s, n) ↦ accepted (record u {
        card_series = to_string s;
        card_number = to_string n;
        card = format_card_id s n;
        cards = u.cards ++ format_card_id s n ∷ [];
      })
    ]

unfoldable pub read_cards : Form → User → Draft
unfolding read_single_card
read_cards f u =
    if is_empty (value_of "cards" f)
    then read_single_card f u
    else elim (parse_card_list (value_of "cards" f)) [
      | none ↦ declined Problem.bad_card
      | some cards ↦ accepted (record u { cards = cards })
    ]

-- Four digits, and not 0000.
unfoldable pub valid_pin : Text → Bool
valid_pin pin =
    let v = int_or (pos 0) pin in
    length pin == 4 && all_of is_digit pin && leb_ℤ (pos 1) v && leb_ℤ v (pos 9999)

abbrev pub needs_pin : Text → Bool
needs_pin mode = bytes_eq mode (codes "card_or_pin") || bytes_eq mode (codes "card_and_pin")

unfoldable pub known_mode : Text → Text
known_mode mode = if bytes_eq mode (codes "card") || needs_pin mode then mode else codes "card"

-- Cut to 0..1023.
unfoldable pub clamp_port : ℤ → ℤ
clamp_port z = if leb_ℤ (pos 0) z then if leb_ℤ z (pos 1023) then z else pos 1023 else pos 0

unfoldable pub check_pin : Form → User → Draft
unfolding valid_pin known_mode clamp_port
check_pin f u =
    let mode = known_mode u.access_mode in
    if not (is_empty u.pin_code) && not (valid_pin u.pin_code)
    then declined Problem.bad_pin
    else if needs_pin mode && is_empty u.pin_code
    then declined Problem.pin_required
    else accepted (record u {
      access_mode = mode;
      controller_port = clamp_port (int_or (pos 0) (value_of "controller_port" f));
    })

unfoldable pub check_draft : Form → Draft → Draft
unfolding check_pin
check_draft f (declined p) = declined p
check_draft f (accepted u) = check_pin f u

unfoldable pub user_of_form : Form → Draft
unfolding read_cards check_draft
user_of_form f = check_draft f (read_cards f (with_fields f))

-- What the form does not have stays as it is.
unfoldable pub keep_old : Option User → User → User
keep_old none u = u
keep_old (some old) u = record u {
  valid_from = old.valid_from;
  valid_until = old.valid_until;
  telegram_arrival = old.telegram_arrival;
  telegram_departure = old.telegram_departure;
}
