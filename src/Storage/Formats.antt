-- ===== src/Storage/Formats.antt =====
-- src/storage/FileStore.cpp: the lines of the three kinds of CSV files.
pub mod RoundTrip
pub mod Tables
use monk_skud_unex.Base.{
  ℕ, ◌+◌, List, [], ◌∷◌, ◌++◌, Bool, true, false, ◌&&◌, not, Text, Option, none, some, ℤ, pos, eq_ℤ,
  if◌then◌else◌, codes, bytes_eq, length, ltb, leb, get_or, ◌==◌, take, map,
}
use monk_skud_unex.Base.Map.{insert, text_eq}
use monk_skud_unex.Text.Int.{int_text, stoi}
use monk_skud_unex.Text.Csv.{safe, joined, terminated}
use monk_skud_unex.Types.{
  PresenceState, absent, present, AttendanceEventType, AttendanceEvent, CardActivity,
  PersistedCardState,
}

unfoldable pub type_text : AttendanceEventType → Text
type_text AttendanceEventType.arrival = codes "arrival"
type_text AttendanceEventType.departure = codes "departure"
type_text AttendanceEventType.accidental = codes "accidental"
type_text AttendanceEventType.unknown_card = codes "unknown_card"
type_text AttendanceEventType.raw_controller_event = codes "raw"

unfoldable pub parse_event_type : Text → AttendanceEventType
parse_event_type s =
    if bytes_eq s (codes "arrival")
    then AttendanceEventType.arrival
    else if bytes_eq s (codes "departure")
    then AttendanceEventType.departure
    else if bytes_eq s (codes "accidental")
    then AttendanceEventType.accidental
    else if bytes_eq s (codes "unknown_card")
    then AttendanceEventType.unknown_card
    else AttendanceEventType.raw_controller_event

abbrev pub event_header : Text
event_header =
    codes "timestamp;type;card;user_id;user_name;department;controller_node;controller_name;raw_hex"

unfoldable pub event_fields : AttendanceEvent → List Text
event_fields e =
    safe e.timestamp
    ∷ type_text e.event_type
    ∷ safe e.card
    ∷ int_text e.user_id
    ∷ safe e.user_name
    ∷ safe e.department
    ∷ int_text e.controller_node
    ∷ safe e.controller_name
    ∷ safe e.raw_hex
    ∷ []

-- What an event adds to its file: the header too where the file is new.
unfoldable pub event_lines : Bool → AttendanceEvent → List Text
event_lines exists e =
    if exists then joined (event_fields e) ∷ [] else event_header ∷ joined (event_fields e) ∷ []

-- The event's own day, where its timestamp starts with one.
unfoldable pub event_date : Text → Text → Text
event_date today ts =
    if leb 10 (length ts) && get_or ts 4 0 == b'-' && get_or ts 7 0 == b'-'
    then take 10 ts
    else today

-- A row is skipped where it is short or a number in it cannot be read.
unfoldable pub parse_event : List Text → Option AttendanceEvent
unfolding parse_event_type
parse_event c = if ltb (length c) 9 then none else elim (stoi (get_or c 3 [])) [
  | none ↦ none
  | some user ↦ elim (stoi (get_or c 6 [])) [
    | none ↦ none
    | some node ↦ some (record {
      timestamp = get_or c 0 [];
      event_type = parse_event_type (get_or c 1 []);
      card = get_or c 2 [];
      user_id = user;
      user_name = get_or c 4 [];
      position = [];
      department = get_or c 5 [];
      telegram_arrival = true;
      telegram_departure = true;
      controller_node = node;
      controller_name = get_or c 7 [];
      raw_hex = get_or c 8 [];
    })
  ]
]

-- The row of an event that `hasControllerEvent` looks for.
unfoldable pub is_event_of : ℕ → Text → List Text → Bool
is_event_of node raw c = not (ltb (length c) 9) && elim (stoi (get_or c 6 [])) [
  | none ↦ false
  | some n ↦ eq_ℤ n (pos node) && bytes_eq (get_or c 8 []) raw
]

-- The table of presences.
abbrev pub state_header : Text
state_header = codes "state_key;state;last_read"

abbrev pub presence_text : PresenceState → Text
presence_text present = codes "present"
presence_text absent = codes "absent"

unfoldable pub state_fields : Text × PersistedCardState → List Text
state_fields (key, s) = safe key ∷ presence_text s.state ∷ safe s.last_read ∷ []

unfoldable pub state_line : Text × PersistedCardState → Text
state_line p = joined (state_fields p)

unfoldable pub states_text : List (Text × PersistedCardState) → Text
unfolding state_line terminated
states_text t = terminated (state_header ∷ map state_line t)

unfoldable pub parse_states :
    List (Text × PersistedCardState) → List (List Text) → List (Text × PersistedCardState)
parse_states acc [] = acc
parse_states acc (c ∷ rows) =
    let state = if bytes_eq (get_or c 1 []) (codes "present") then present else absent in
    let entry : PersistedCardState = record { state = state; last_read = get_or c 2 [] } in
    parse_states (if ltb (length c) 3 then acc else insert (get_or c 0 []) entry acc) rows

-- The table of activities.
abbrev pub activity_header : Text
activity_header = codes "card;user_id;user_name;department;last_read;last_event;controller_node"

unfoldable pub activity_fields : CardActivity → List Text
activity_fields a =
    safe a.card
    ∷ int_text a.user_id
    ∷ safe a.user_name
    ∷ safe a.department
    ∷ safe a.last_read
    ∷ safe a.last_event
    ∷ int_text a.controller_node
    ∷ []

unfoldable pub activity_line : CardActivity → Text
activity_line a = joined (activity_fields a)

unfoldable pub activities_text : List CardActivity → Text
unfolding activity_line terminated
activities_text t = terminated (activity_header ∷ map activity_line t)

-- The first number that cannot be read leaves it and the later one at 0.
unfoldable pub row_numbers : Text → Text → ℤ × ℤ
row_numbers user node = elim (stoi user) [
  | none ↦ (pos 0, pos 0)
  | some u ↦ elim (stoi node) [ none ↦ (u, pos 0) | some n ↦ (u, n) ]
]

unfoldable pub parse_activity : List Text → CardActivity
unfolding row_numbers
parse_activity c =
    let numbers = row_numbers (get_or c 1 []) (get_or c 6 []) in
    record {
      card = get_or c 0 [];
      user_id = numbers.0;
      user_name = get_or c 2 [];
      department = get_or c 3 [];
      last_read = get_or c 4 [];
      last_event = get_or c 5 [];
      controller_node = numbers.1;
    }

unfoldable pub parse_activities : List (List Text) → List CardActivity
parse_activities [] = []
parse_activities (c ∷ rows) =
    let rest = parse_activities rows in if ltb (length c) 7 then rest else parse_activity c ∷ rest
