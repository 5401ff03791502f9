-- ===== src/Attendance.antt =====
-- src/attendance/AttendanceEngine.cpp and include/skud/AttendanceEngine.h: arrivals and departures from
-- card reads. The store is an interface; the clock and the parsing of timestamps (`std::get_time`,
-- `std::mktime`) are arguments. The lock makes each call atomic.
pub mod Maintenance
pub mod Key
pub mod Presence
pub mod Alternation
pub mod Redelivery
pub mod Present
use monk_skud_unex.Base.{
  ℕ, ◌+◌, List, [], ◌∷◌, ◌++◌, Bool, true, false, ◌&&◌, not, Text, Option, none, some, ℤ, pos,
  negsuc, ◌-ℤ◌, leb_ℤ, if◌then◌else◌, is_empty, map, utf8,
}
use monk_skud_unex.Base.Map.{lookup, insert, text_eq}
use monk_skud_unex.Text.Int.{int_text}
use monk_skud_unex.Types.{
  User, PresenceState, absent, present, AttendanceEventType, AttendanceEvent, CardActivity,
  PersistedCardState,
}
use monk_skud_unex.Users.Ops.{find_card}

-- What the engine uses of `FileStore`.
pub record Store (W : Type 0) : Type 0 where
  pub has_controller_event : ℕ → Text → Text → W → Bool
  pub append_event : AttendanceEvent → W → Bool × W
  pub save_card_states : List (Text × PersistedCardState) → W → Bool × W
  pub save_activities : List CardActivity → W → Bool × W

-- `has_last` and `last_read` are one optional time, in seconds.
pub record State : Type 0 where
  pub presence : PresenceState
  pub last_read : Option ℤ
  pub last_read_text : Text

abbrev pub new_state : State
new_state = record { presence = absent; last_read = none; last_read_text = [] }

pub record Engine (W : Type 0) : Type 0 where
  pub states : List (Text × State)
  pub activities : List (Text × CardActivity)
  pub has_notifier : Bool
  pub notified : List AttendanceEvent
  pub world : W

pub record EventResult : Type 0 where
  pub event : AttendanceEvent
  pub stored : Bool
  pub duplicate : Bool

-- A call of a controller event: what the frame says.
pub record Access : Type 0 where
  pub card : Text
  pub node : ℕ
  pub controller : Text
  pub raw : Text
  pub event_timestamp : Text

unfoldable pub user_state_key : ℤ → Text
unfolding int_text
user_state_key id = b'U' ∷ b':' ∷ int_text id

unfoldable pub card_state_key : Text → Text
card_state_key card = b'C' ∷ b':' ∷ card

unfoldable pub state_key : Option User → Text → Text
state_key none card = card_state_key card
state_key (some u) card = user_state_key u.id

abbrev pub state_or_new : Option State → State
state_or_new none = new_state
state_or_new (some s) = s

-- `states_[key]`, which is a new state where the key is missing.
abbrev pub state_at : List (Text × State) → Text → State
state_at states key = state_or_new (lookup key states)

-- A second read of the key no later than `repeat` seconds after the last one.
unfoldable pub is_accidental : ℤ → Option ℤ → Option ℤ → Bool
is_accidental repeat none time = false
is_accidental repeat (some last) none = false
is_accidental repeat (some last) (some t) =
    let sec = ◌-ℤ◌ t last in leb_ℤ (pos 0) sec && leb_ℤ sec repeat

unfoldable pub flip : PresenceState → AttendanceEventType × PresenceState
flip absent = (AttendanceEventType.arrival, present)
flip present = (AttendanceEventType.departure, absent)

-- The type of the event, and the presence behind it. A known user who is disabled leaves the type of
-- a new `AttendanceEvent`.
unfoldable pub classify : Option User → Bool → PresenceState → AttendanceEventType × PresenceState
unfolding flip
classify none accidental p = (AttendanceEventType.unknown_card, p)
classify (some u) accidental p =
    if not u.enabled
    then (AttendanceEventType.raw_controller_event, p)
    else if accidental
    then (AttendanceEventType.accidental, p)
    else flip p

abbrev pub bare_event : Access → Text → AttendanceEvent
bare_event a ts = record {
  timestamp = ts;
  event_type = AttendanceEventType.raw_controller_event;
  card = a.card;
  user_id = pos 0;
  user_name = [];
  position = [];
  department = [];
  telegram_arrival = true;
  telegram_departure = true;
  controller_node = pos a.node;
  controller_name = a.controller;
  raw_hex = a.raw;
}

abbrev pub full_name : User → Text
full_name u = u.last_name ++ b' ' ∷ u.first_name

unfoldable pub with_user : Option User → AttendanceEvent → AttendanceEvent
with_user none e = e
with_user (some u) e = record e {
  user_id = u.id;
  user_name = full_name u;
  position = u.position;
  department = u.department;
  telegram_arrival = u.telegram_arrival;
  telegram_departure = u.telegram_departure;
}

unfoldable pub last_event_of : AttendanceEventType → Text
last_event_of AttendanceEventType.arrival = utf8 "Приход"
last_event_of AttendanceEventType.departure = utf8 "Уход"
last_event_of AttendanceEventType.accidental = utf8 "Случайное повторное"
last_event_of _ = utf8 "Неизвестная карта"

unfoldable pub activity_of : AttendanceEvent → CardActivity
activity_of e = record {
  card = e.card;
  user_id = e.user_id;
  user_name = e.user_name;
  department = e.department;
  last_read = e.timestamp;
  last_event = last_event_of e.event_type;
  controller_node = e.controller_node;
}

unfoldable pub is_passage : AttendanceEventType → Bool
is_passage AttendanceEventType.arrival = true
is_passage AttendanceEventType.departure = true
is_passage _ = false

abbrev persisted : Text × State → Text × PersistedCardState
persisted (k, s) = (k, record { state = s.presence; last_read = s.last_read_text })

abbrev activity_value : Text × CardActivity → CardActivity
activity_value (k, a) = a

module _ {W : Type 0} (store : Store W) where
  -- The results of both saves are dropped.
  unfoldable pub persist : Engine W → Engine W
  persist g =
      let w1 = (store.save_card_states (map persisted g.states) g.world).1 in
      let w2 = (store.save_activities (map activity_value g.activities) w1).1 in
      record g { world = w2 }

  unfoldable pub notify : Bool → AttendanceEvent → Engine W → Engine W
  unfolding is_passage
  notify allow e g =
      if allow && g.has_notifier && is_passage e.event_type
      then record g { notified = g.notified ++ e ∷ [] }
      else g

  -- The state changes behind an event that was appended.
  unfoldable pub settle : Text → State → AttendanceEvent → Engine W → Engine W
  unfolding activity_of last_event_of
  settle key st e g = persist (record g {
    states = insert key st g.states;
    activities = insert e.card (activity_of e) g.activities;
  })

module _ {W : Type 0} (store : Store W) (parse_time : Text → Option ℤ) where
  -- The event's own time, or the time of the server where that cannot be read.
  unfoldable pub event_time : Text → Text → Text × Option ℤ
  event_time now ts = elim (parse_time ts) [ some t ↦ (ts, some t) | none ↦ (now, parse_time now) ]

  -- The event that a read of the card is recorded as, and the state behind it.
  unfoldable pub outcome :
      ℤ → Option User → State → Access → Text × Option ℤ → AttendanceEvent × State
  unfolding with_user
  outcome repeat user st a time =
      let c = classify user (is_accidental repeat st.last_read time.1) st.presence in
      (
        record (with_user user (bare_event a time.0)) { event_type = c.0 },
        record { presence = c.1; last_read = time.1; last_read_text = time.0 },
      )

  -- A read that the store does not have yet. The key has a state from here on, stored or not.
  unfoldable pub process :
      ℤ → Option User → Access → Bool → Text × Option ℤ → Engine W → EventResult × Engine W
  process repeat user a allow time g =
      let key = state_key user a.card in
      let st = state_at g.states key in
      let (e, next) = outcome repeat user st a time in
      let appended = store.append_event e g.world in
      let touched = record g { states = insert key st g.states; world = appended.1 } in
      if appended.0
      then (
        record { event = e; stored = true; duplicate = false },
        notify store allow e (settle store key next e touched),
      )
      else (record { event = e; stored = false; duplicate = false }, touched)

  unfoldable pub on_controller_access_event :
      ℤ → List User → Text → Access → Bool → Engine W → EventResult × Engine W
  on_controller_access_event repeat users now a allow g =
      let time = event_time now a.event_timestamp in
      if not (is_empty a.raw) && store.has_controller_event a.node a.raw time.0 g.world
      then (record { event = bare_event a time.0; stored = true; duplicate = true }, g)
      else process repeat (find_card users a.card) a allow time g

  unfoldable pub on_card_read :
      ℤ → List User → Text → Access → Engine W → AttendanceEvent × Engine W
  on_card_read repeat users now a g =
      let r =
        on_controller_access_event repeat users now (record a { event_timestamp = now }) true g in
      (r.0.event, r.1)

  -- A frame that is no access: it is stored, and no attendance changes.
  unfoldable pub record_controller_raw_event : Text → Access → Engine W → EventResult × Engine W
  record_controller_raw_event now a g =
      let ts = if is_empty a.event_timestamp then now else a.event_timestamp in
      let e = bare_event a ts in
      let appended = store.append_event e g.world in
      if not (is_empty a.raw) && store.has_controller_event a.node a.raw ts g.world
      then (record { event = e; stored = true; duplicate = true }, g)
      else (
        record { event = e; stored = appended.0; duplicate = false },
        record g { world = appended.1 },
      )
