-- ===== src/Storage/Daily.antt =====
-- src/storage/FileStore.cpp: the events of a day, and one line per employee made from them.
pub mod Summary
use monk_skud_unex.Base.{
  ℕ, List, [], ◌∷◌, ◌++◌, Bool, true, false, ◌&&◌, ◌||◌, not, Text, Option, none, some, ℤ, pos,
  leb_ℤ, if◌then◌else◌, is_empty, codes, bytes_eq, length, ltb, get_or, map,
}
use monk_skud_unex.Base.Map.{lookup, insert, int_eq}
use monk_skud_unex.Base.Sort.{text_lt, sort}
use monk_skud_unex.Text.Int.{stoi}
use monk_skud_unex.Text.Csv.{body_rows}
use monk_skud_unex.Types.{
  PresenceState, absent, present, AttendanceEventType, AttendanceEvent, DailyAttendance,
}
use monk_skud_unex.Attendance.{is_passage}
use monk_skud_unex.Storage.Files.{FileSystem, content}
use monk_skud_unex.Storage.Formats.{parse_event, parse_event_type}
use monk_skud_unex.Storage.FileStore.{
  Backend, files, no_database, database, Disk, Answer, ok, failed, note_read, events_path,
}

unfoldable pub parse_rows :
    (List Text → Option AttendanceEvent) → List (List Text) → List AttendanceEvent
parse_rows f [] = []
parse_rows f (c ∷ rows) =
    let rest = parse_rows f rows in elim (f c) [ none ↦ rest | some e ↦ e ∷ rest ]

unfoldable pub earlier : AttendanceEvent → AttendanceEvent → Bool
earlier a b = text_lt a.timestamp b.timestamp

-- The row of an arrival or a departure, of which six columns are enough.
unfoldable pub parse_passage : List Text → Option AttendanceEvent
unfolding parse_event_type
parse_passage c =
    let kind = get_or c 1 [] in
    if ltb (length c) 6
      || (not (bytes_eq kind (codes "arrival")) && not (bytes_eq kind (codes "departure")))
    then none
    else elim (stoi (get_or c 3 [])) [
      | none ↦ none
      | some user ↦ some (record {
        timestamp = get_or c 0 [];
        event_type = parse_event_type kind;
        card = get_or c 2 [];
        user_id = user;
        user_name = get_or c 4 [];
        position = [];
        department = get_or c 5 [];
        telegram_arrival = true;
        telegram_departure = true;
        controller_node = pos 0;
        controller_name = [];
        raw_hex = [];
      })
    ]

abbrev pub new_day : DailyAttendance
new_day = record {
  user_id = pos 0;
  user_name = [];
  position = [];
  department = [];
  card = [];
  arrival_time = [];
  departure_time = [];
  presence = absent;
  last_event_time = [];
}

abbrev pub or_else : Text → Text → Text
or_else a b = if is_empty a then b else a

abbrev pub is_arrival : AttendanceEventType → Bool
is_arrival AttendanceEventType.arrival = true
is_arrival _ = false

-- A return clears the departure, which was only an exit in between.
unfoldable pub day_after : DailyAttendance → AttendanceEvent → DailyAttendance
day_after x e = record {
  user_id = e.user_id;
  user_name = e.user_name;
  position = x.position;
  department = e.department;
  card = e.card;
  arrival_time =
      if is_arrival e.event_type then or_else x.arrival_time e.timestamp else x.arrival_time;
  departure_time = if is_arrival e.event_type then [] else e.timestamp;
  presence = if is_arrival e.event_type then present else absent;
  last_event_time = e.timestamp;
}

abbrev pub day_or_new : Option DailyAttendance → DailyAttendance
day_or_new none = new_day
day_or_new (some x) = x

-- An arrival or a departure of a user with an id above 0.
unfoldable pub counts : AttendanceEvent → Bool
unfolding is_passage
counts e = is_passage e.event_type && not (leb_ℤ e.user_id (pos 0))

unfoldable pub by_user :
    List (ℤ × DailyAttendance) → List AttendanceEvent → List (ℤ × DailyAttendance)
unfolding counts day_after
by_user m [] = m
by_user m (e ∷ es) =
    by_user
      (if counts e then insert e.user_id (day_after (day_or_new (lookup e.user_id m)) e) m else m)
      es

abbrev pub is_present : PresenceState → Bool
is_present present = true
is_present absent = false

abbrev same_presence : PresenceState → PresenceState → Bool
same_presence p q = if is_present p then is_present q else not (is_present q)

-- Who is there first, then by the time of arrival with the missing times last, then by name.
unfoldable pub before : DailyAttendance → DailyAttendance → Bool
before a b =
    if not (same_presence a.presence b.presence)
    then is_present a.presence
    else if not (bytes_eq a.arrival_time b.arrival_time)
    then not (is_empty a.arrival_time)
      && (is_empty b.arrival_time || text_lt a.arrival_time b.arrival_time)
    else text_lt a.user_name b.user_name

abbrev pub day_value : ℤ × DailyAttendance → DailyAttendance
day_value (i, x) = x

unfoldable pub daily_rows : List AttendanceEvent → List DailyAttendance
unfolding by_user before sort
daily_rows events = sort before (map day_value (by_user [] events))

module _ {W : Type 0} (fs : FileSystem W) (backend : Backend W) (root : Text) where
  unfoldable pub load_attendance_events_by_date : Text → Disk W → List AttendanceEvent × Disk W
  unfolding parse_rows sort earlier
  load_attendance_events_by_date date d = elim backend [
    | database db ↦ note_read [] (db.load_events_by_date date d.world) d
    | no_database ↦ ([], d)
    | files ↦
        let rows = body_rows (content (fs.read (events_path fs files root date) d.world)) in
        (sort earlier (parse_rows parse_event rows), d)
  ]

  unfoldable pub load_daily_attendance : Text → Disk W → List DailyAttendance × Disk W
  unfolding daily_rows parse_rows
  load_daily_attendance date d = elim backend [
    | database db ↦
        let r = note_read [] (db.load_events_by_date date d.world) d in (daily_rows r.0, r.1)
    | no_database ↦ ([], d)
    | files ↦
        let rows = body_rows (content (fs.read (events_path fs files root date) d.world)) in
        (daily_rows (parse_rows parse_passage rows), d)
  ]
