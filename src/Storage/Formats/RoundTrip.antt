-- ===== src/Storage/Formats/RoundTrip.antt =====
-- src/storage/FileStore.cpp: an event line is read back field by field.
use monk_skud_unex.Base.{
  ℕ, ◌+◌, ◌^◌, ◌<◌, [], ◌∷◌, true, Text, All, some, ℤ, pos, negsuc, ◌≡◌, refl, arith, bytes_eq,
  bytes_eq_iff,
}
use monk_skud_unex.Text.{split}
use monk_skud_unex.Text.Number.{to_string, all_of, is_digit}
use monk_skud_unex.Text.Number.Decimal.{all_of-to_string}
use monk_skud_unex.Text.Int.{int_text}
use monk_skud_unex.Text.Int.RoundTrip.{IsInt, stoi-int_text}
use monk_skud_unex.Text.Csv.{is_separator, safe, joined}
use monk_skud_unex.Text.Csv.Rows.{
  is_plain, Plain, OneLine, is_plain-safe, safe-is_plain, split-joined, lacks-joined,
}
use monk_skud_unex.Types.{AttendanceEventType, AttendanceEvent}
use monk_skud_unex.Storage.Formats.{
  type_text, parse_event_type, event_fields, parse_event, is_event_of,
}

is_plain-digits : (s : Text) → all_of is_digit s ≡ true → is_plain s ≡ true
unfolding is_plain all_of is_digit is_separator
is_plain-digits [] h = refl
is_plain-digits (c ∷ s) h = ground (arith, is_plain-digits s)

pub is_plain-int_text : (z : ℤ) → is_plain (int_text z) ≡ true
unfolding int_text is_plain all_of is_separator
is_plain-int_text (pos n) = is_plain-digits (to_string n) (all_of-to_string n)
is_plain-int_text (negsuc n) = is_plain-digits (to_string (n + 1)) (all_of-to_string (n + 1))

is_plain-type_text : (t : AttendanceEventType) → is_plain (type_text t) ≡ true
unfolding type_text is_plain all_of is_separator
is_plain-type_text AttendanceEventType.arrival = refl
is_plain-type_text AttendanceEventType.departure = refl
is_plain-type_text AttendanceEventType.accidental = refl
is_plain-type_text AttendanceEventType.unknown_card = refl
is_plain-type_text AttendanceEventType.raw_controller_event = refl

parse_event_type-type_text : (t : AttendanceEventType) → parse_event_type (type_text t) ≡ t
unfolding type_text parse_event_type bytes_eq
parse_event_type-type_text AttendanceEventType.arrival = refl
parse_event_type-type_text AttendanceEventType.departure = refl
parse_event_type-type_text AttendanceEventType.accidental = refl
parse_event_type-type_text AttendanceEventType.unknown_card = refl
parse_event_type-type_text AttendanceEventType.raw_controller_event = refl

event_fields-Plain : (e : AttendanceEvent) → All Plain (event_fields e)
unfolding event_fields
event_fields-Plain e = (
  is_plain-safe e.timestamp,
  (
    is_plain-type_text e.event_type,
    (
      is_plain-safe e.card,
      (
        is_plain-int_text e.user_id,
        (
          is_plain-safe e.user_name,
          (
            is_plain-safe e.department,
            (
              is_plain-int_text e.controller_node,
              (is_plain-safe e.controller_name, (is_plain-safe e.raw_hex, record {})),
            ),
          ),
        ),
      ),
    ),
  ),
)

pub event_fields-OneLine : (e : AttendanceEvent) → OneLine (joined (event_fields e))
event_fields-OneLine e = lacks-joined (event_fields e) (event_fields-Plain e)

pub split-event_fields :
    (e : AttendanceEvent) → split (joined (event_fields e)) b';' ≡ event_fields e
unfolding event_fields
split-event_fields e =
    split-joined (safe e.timestamp) (type_text e.event_type) _ (event_fields-Plain e)

-- The texts of an event that the file keeps as they are.
pub record IsPlainEvent (e : AttendanceEvent) : Type 0 where
  pub timestamp : is_plain e.timestamp ≡ true
  pub card : is_plain e.card ≡ true
  pub user_name : is_plain e.user_name ≡ true
  pub department : is_plain e.department ≡ true
  pub controller_name : is_plain e.controller_name ≡ true
  pub raw_hex : is_plain e.raw_hex ≡ true
  pub user_id : IsInt e.user_id
  pub controller_node : IsInt e.controller_node

-- A line that was written for an event with texts free of `;` and of line breaks is read back as the event,
-- without its position and with both notices allowed, which the file does not hold.
pub parse_event-event_fields :
    (e : AttendanceEvent)
    → IsPlainEvent e
    → parse_event (split (joined (event_fields e)) b';')
      ≡ some (record e { position = []; telegram_arrival = true; telegram_departure = true })
unfolding event_fields parse_event
parse_event-event_fields e h = ground (
  arith,
  split-event_fields e,
  stoi-int_text e.user_id h.user_id,
  stoi-int_text e.controller_node h.controller_node,
  parse_event_type-type_text e.event_type,
  safe-is_plain e.timestamp h.timestamp,
  safe-is_plain e.card h.card,
  safe-is_plain e.user_name h.user_name,
  safe-is_plain e.department h.department,
  safe-is_plain e.controller_name h.controller_name,
  safe-is_plain e.raw_hex h.raw_hex,
)

-- The line of an event is the one that is looked for by its node and frame.
pub is_event_of-event_fields :
    (e : AttendanceEvent) (node : ℕ)
    → e.controller_node ≡ pos node
    → node < 2 ^ 31
    → is_plain e.raw_hex ≡ true
    → is_event_of node e.raw_hex (event_fields e) ≡ true
unfolding event_fields is_event_of
is_event_of-event_fields e node hn small h =
    rw (hn, stoi-int_text (pos node) small, safe-is_plain e.raw_hex h)
      (ground (arith, bytes_eq_iff e.raw_hex e.raw_hex))
