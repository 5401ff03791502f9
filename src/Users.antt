-- ===== src/Users.antt =====
-- src/users/UserManager.cpp: the cards of a user, and the list of users. The lock makes each call
-- atomic; `save()` writes the list through a store, which is a parameter.
pub mod Ops
pub mod Csv
use monk_skud_unex.Base.{
  ℕ, ◌≡◌, List, [], ◌∷◌, ◌++◌, Bool, true, false, ◌&&◌, ◌||◌, not, Text, Option, none, some, ltb,
  leb, ◌==◌, if◌then◌else◌, length, is_empty, any, remove_if, codes, bytes_eq,
}
use mathlib.Core.List.{foldl}
use monk_skud_unex.Text.{trim}
use monk_skud_unex.Text.Number.{to_string, all_of, is_digit, value}
use monk_skud_unex.Text.Card.{parse_card_id, parse_card_parts, format_card_id}
use monk_skud_unex.Types.{User}

-- A PIN is empty, or four digits from 0001 to 9999.
unfoldable pub valid_pin : Text → Bool
unfolding all_of is_digit value
valid_pin pin =
    let v = value 10 0 pin in
    if is_empty pin
    then true
    else if not (length pin == 4) || not (all_of is_digit pin)
    then false
    else leb 1 v && leb v 9999

unfoldable same_number : Option (ℕ × ℕ) → Option (ℕ × ℕ) → Bool
same_number none b = false
same_number (some a) none = false
same_number (some (s, n)) (some (t, k)) = s == t && n == k

unfoldable pub same_card : Text → Text → Bool
unfolding same_number
same_card a b = if bytes_eq a b then true else same_number (parse_card_id a) (parse_card_id b)

unfoldable format_parsed : Option (ℕ × ℕ) → Text
format_parsed none = []
format_parsed (some (series, number)) = format_card_id series number

-- `series:number`, or nothing for a text that is no card.
unfoldable pub canonical_card : Text → Text
unfolding format_parsed
canonical_card text = format_parsed (parse_card_id (trim text))

unfoldable pub append_unique_card : List Text → Text → List Text
append_unique_card cards text =
    let c = canonical_card text in
    if is_empty c then cards else if any (λ x. same_card x c) cards then cards else cards ++ c ∷ []

unfoldable pub with_parts : User → Text → Option (ℕ × ℕ) → User
with_parts u card none = record u { card = []; card_series = []; card_number = [] }
with_parts u card (some (series, number)) = record u {
  card = card;
  card_series = to_string series;
  card_number = to_string number;
}

unfoldable pub primary : User → List Text → User
unfolding with_parts
primary u [] = record u { card = []; card_series = []; card_number = [] }
primary u (c ∷ cs) = with_parts u c (parse_card_id c)

-- The first card is mirrored in the three old fields.
unfoldable pub sync_primary : User → User
unfolding primary
sync_primary u = primary u u.cards

unfoldable is_access_mode : Text → Bool
is_access_mode m =
    bytes_eq m (codes "card")
    || bytes_eq m (codes "card_or_pin")
    || bytes_eq m (codes "card_and_pin")

unfoldable append_parts : List Text → Option (ℕ × ℕ) → List Text
append_parts cards none = cards
append_parts cards (some (series, number)) = append_unique_card cards (format_card_id series number)

-- The cards of the list, then the one of the old series and number fields, then the old card field.
unfoldable pub normalized_cards : User → List Text
unfolding append_parts
normalized_cards u =
    let listed = foldl append_unique_card [] u.cards in
    let with_old =
      if not (is_empty (trim u.card_series)) || not (is_empty (trim u.card_number))
      then append_parts listed (parse_card_parts u.card_series u.card_number)
      else listed in
    if is_empty (trim u.card) then with_old else append_unique_card with_old u.card

unfoldable pub normalize_user : User → User
unfolding is_access_mode
normalize_user u = sync_primary (record u {
  access_mode = if is_access_mode u.access_mode then u.access_mode else codes "card";
  pin_code = if valid_pin u.pin_code then u.pin_code else [];
  cards = normalized_cards u;
})

unfoldable pub user_has_card : User → Text → Bool
user_has_card u card = any (λ x. same_card x card) u.cards

-- The user without the card, and whether there was one to remove.
unfoldable pub remove_card_from_user : User → Text → User × Bool
remove_card_from_user u card =
    let cards = remove_if (λ x. same_card x card) u.cards in
    if length cards == length u.cards
    then (u, false)
    else (sync_primary (record u { cards = cards }), true)
