-- ===== src/Controllers/Stored/Rows.antt =====
-- src/controllers/ControllerManager.cpp: the rows of the files of controllers and their cards, and how the
-- rows of an old file join those of the database.
use monk_skud_unex.Base.{
  ℕ, List, [], ◌∷◌, ◌++◌, Bool, true, false, ◌&&◌, not, Text, Option, none, some, ℤ, eq_ℤ,
  if◌then◌else◌, map, any, codes, bytes_eq,
}
use monk_skud_unex.Base.Map.{insert, text_eq}
use monk_skud_unex.Base.Sort.{text_lt}
use monk_skud_unex.Text.Number.{to_string}
use monk_skud_unex.Text.Int.{int_text, stoi, stoull}
use monk_skud_unex.Text.Card.{parse_card_id, format_card_id}
use monk_skud_unex.Text.Csv.{safe, joined, terminated}

-- The fields of a `Controller` and of a `ControllerCardRecord` that are kept. A file may hold any node.
pub record StoredController : Type 0 where
  pub node : ℤ
  pub name : Text
  pub model : Text
  pub enabled : Bool

pub record StoredCard : Type 0 where
  pub card : Text
  pub controller_node : ℤ
  pub controller_name : Text
  pub first_seen : Text
  pub last_seen : Text
  pub read_count : ℕ
  pub last_raw_hex : Text

abbrev pub controller_header : Text
controller_header = codes "node;name;model;enabled"

abbrev pub flag : Bool → Text
flag true = codes "1"
flag false = codes "0"

-- The name and the model are written as they are.
unfoldable pub controller_fields : StoredController → List Text
controller_fields c = int_text c.node ∷ c.name ∷ c.model ∷ flag c.enabled ∷ []

unfoldable pub controller_line : StoredController → Text
unfolding controller_fields
controller_line c = joined (controller_fields c)

unfoldable pub controllers_text : List StoredController → Text
unfolding controller_line
controllers_text cs = terminated (controller_header ∷ map controller_line cs)

unfoldable pub parse_controller : List Text → Option StoredController
parse_controller (node ∷ name ∷ model ∷ enabled ∷ more) = elim (stoi node) [
  | none ↦ none
  | some n ↦ some (record {
    node = n;
    name = name;
    model = model;
    enabled = not (bytes_eq enabled (codes "0"));
  })
]
parse_controller _ = none

unfoldable pub parse_controllers : List (List Text) → List StoredController
unfolding parse_controller
parse_controllers [] = []
parse_controllers (row ∷ rows) =
    let rest = parse_controllers rows in
    elim (parse_controller row) [ none ↦ rest | some c ↦ c ∷ rest ]

abbrev pub card_header : Text
card_header =
    codes "card;controller_node;controller_name;first_seen;last_seen;read_count;last_raw_hex"

unfoldable pub card_fields : StoredCard → List Text
card_fields x =
    safe x.card
    ∷ int_text x.controller_node
    ∷ safe x.controller_name
    ∷ safe x.first_seen
    ∷ safe x.last_seen
    ∷ to_string x.read_count
    ∷ safe x.last_raw_hex
    ∷ []

unfoldable pub cards_text : List StoredCard → Text
unfolding card_fields
cards_text xs = terminated (card_header ∷ map (λ (x : StoredCard). joined (card_fields x)) xs)

abbrev pub with_numbers : Text → Text → Text → Text → Text → ℤ → ℕ → ℕ × ℕ → StoredCard
with_numbers name first_seen last_seen raw card node count (series, number) = record {
  card = format_card_id series number;
  controller_node = node;
  controller_name = name;
  first_seen = first_seen;
  last_seen = last_seen;
  read_count = count;
  last_raw_hex = raw;
}

-- A row of another size, or with a node, a count or a card that cannot be read, is skipped.
unfoldable pub parse_card : List Text → Option StoredCard
parse_card (card ∷ node ∷ name ∷ first_seen ∷ last_seen ∷ count ∷ raw ∷ more) = elim (stoi node) [
  | none ↦ none
  | some n ↦ elim (stoull count) [
    | none ↦ none
    | some k ↦ elim (parse_card_id card) [
      | none ↦ none
      | some numbers ↦ some (with_numbers name first_seen last_seen raw card n k numbers)
    ]
  ]
]
parse_card _ = none

unfoldable pub parse_cards : List (List Text) → List StoredCard
unfolding parse_card
parse_cards [] = []
parse_cards (row ∷ rows) =
    let rest = parse_cards rows in elim (parse_card row) [ none ↦ rest | some x ↦ x ∷ rest ]

abbrev pub key_of : StoredCard → Text
key_of x = int_text x.controller_node ++ b'|' ∷ x.card

unfoldable pub index_cards : List (Text × StoredCard) → List StoredCard → List (Text × StoredCard)
index_cards m [] = m
index_cards m (x ∷ xs) = index_cards (insert (key_of x) x m) xs

-- Rows of the file that the database lacks are added behind its own.
unfoldable pub merge_controllers :
    List StoredController → List StoredController → List StoredController
merge_controllers rows [] = rows
merge_controllers rows (c ∷ csv) =
    let known = any (λ (d : StoredController). eq_ℤ d.node c.node) rows in
    merge_controllers (if known then rows else rows ++ c ∷ []) csv

abbrev pub same_card : StoredCard → StoredCard → Bool
same_card x y = eq_ℤ y.controller_node x.controller_node && bytes_eq y.card x.card

-- The first row of the same card gives way to one that was seen later.
unfoldable pub merge_card : StoredCard → List StoredCard → List StoredCard
merge_card x [] = x ∷ []
merge_card x (y ∷ ys) =
    let rest = merge_card x ys in
    if same_card x y then (if text_lt y.last_seen x.last_seen then x else y) ∷ ys else y ∷ rest

unfoldable pub merge_cards : List StoredCard → List StoredCard → List StoredCard
unfolding merge_card
merge_cards rows [] = rows
merge_cards rows (x ∷ csv) = merge_cards (merge_card x rows) csv
