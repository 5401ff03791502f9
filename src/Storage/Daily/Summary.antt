-- ===== src/Storage/Daily/Summary.antt =====
-- src/storage/FileStore.cpp: what the line of an employee says about the day.
use monk_skud_unex.Base.{
  List, [], ◌∷◌, true, false, ◌&&◌, Text, Option, none, some, ℤ, eq_ℤ, eq_ℤ_iff, if◌then◌else◌, ◌≡◌,
  refl, ◌∙◌, arith, map, bytes_eq_iff,
}
use monk_skud_unex.Base.Map.{lookup, insert, lookup-insert, int_eq}
use monk_skud_unex.Base.Sort.{sort-InOrder, InOrder, text_lt-asymmetric}
use monk_skud_unex.Types.{absent, present, AttendanceEvent, DailyAttendance}
use monk_skud_unex.Storage.Daily.{
  day_after, new_day, day_or_new, or_else, is_arrival, counts, by_user, daily_rows, before,
  day_value,
}

-- The arrivals and departures of one user, in the order of the file.
unfoldable pub passages_of : ℤ → List AttendanceEvent → List AttendanceEvent
passages_of id [] = []
passages_of id (e ∷ es) =
    let rest = passages_of id es in if counts e && eq_ℤ e.user_id id then e ∷ rest else rest

-- The time of the first arrival that has one.
unfoldable pub first_arrival : List AttendanceEvent → Text
first_arrival [] = []
first_arrival (e ∷ es) =
    let rest = first_arrival es in
    if is_arrival e.event_type then or_else e.timestamp rest else rest

unfoldable pub last_of : AttendanceEvent → List AttendanceEvent → AttendanceEvent
last_of e [] = e
last_of e (f ∷ es) = last_of f es

-- The line of a user with these passages: the first arrival, and what the last passage left.
unfoldable pub summary : List AttendanceEvent → Option DailyAttendance
unfolding first_arrival last_of
summary [] = none
summary (e ∷ es) =
    let last = last_of e es in
    some (record {
      user_id = last.user_id;
      user_name = last.user_name;
      position = [];
      department = last.department;
      card = last.card;
      arrival_time = first_arrival (e ∷ es);
      departure_time = if is_arrival last.event_type then [] else last.timestamp;
      presence = if is_arrival last.event_type then present else absent;
      last_event_time = last.timestamp;
    })

-- The passages of one user alone.
days_from : Option DailyAttendance → List AttendanceEvent → Option DailyAttendance
days_from x [] = x
days_from x (e ∷ es) = days_from (some (day_after (day_or_new x) e)) es

lookup-by_user :
    (id : ℤ) (m : List (ℤ × DailyAttendance)) (es : List AttendanceEvent)
    → lookup id (by_user m es) ≡ days_from (lookup id m) (passages_of id es)
unfolding by_user passages_of days_from
lookup-by_user id m [] = refl
lookup-by_user id m (e ∷ es) =
    let next = day_after (day_or_new (lookup e.user_id m)) e in
    ground (
      arith,
      lookup-by_user id m es,
      lookup-by_user id (insert e.user_id next m) es,
      lookup-insert e.user_id id next m,
      eq_ℤ_iff e.user_id id,
    )

or_else-nil : (a : Text) → or_else a [] ≡ a
or_else-nil [] = refl
or_else-nil (c ∷ a) = refl

or_else_assoc : (a b c : Text) → or_else (or_else a b) c ≡ or_else a (or_else b c)
or_else_assoc [] b c = refl
or_else_assoc (x ∷ a) b c = refl

-- The line of a user whose line was `x`, with the arrival that it has kept.
continued : DailyAttendance → AttendanceEvent → List AttendanceEvent → DailyAttendance
continued x e es =
    let last = last_of e es in
    record {
      user_id = last.user_id;
      user_name = last.user_name;
      position = x.position;
      department = last.department;
      card = last.card;
      arrival_time = or_else x.arrival_time (first_arrival (e ∷ es));
      departure_time = if is_arrival last.event_type then [] else last.timestamp;
      presence = if is_arrival last.event_type then present else absent;
      last_event_time = last.timestamp;
    }

days_from-some :
    (x : DailyAttendance) (e : AttendanceEvent) (es : List AttendanceEvent)
    → days_from (some x) (e ∷ es) ≡ some (continued x e es)
unfolding days_from continued first_arrival last_of day_after
days_from-some x e [] = ground (arith, or_else-nil x.arrival_time, or_else-nil e.timestamp)
days_from-some x e (f ∷ es) =
    days_from-some (day_after x e) f es
    ∙ ground (arith, or_else_assoc x.arrival_time e.timestamp (first_arrival (f ∷ es)))

days_from-summary : (ps : List AttendanceEvent) → days_from none ps ≡ summary ps
unfolding days_from summary continued day_after first_arrival
days_from-summary [] = refl
days_from-summary (e ∷ es) = days_from-some new_day e es

-- For every user with an id above 0, the line of the day tells the first arrival that has a time, and
-- the state that the last passage left: present with no departure, or absent since its time. A user
-- with no passage has no line.
pub by_user-summary :
    (id : ℤ) (es : List AttendanceEvent) → lookup id (by_user [] es) ≡ summary (passages_of id es)
unfolding lookup
by_user-summary id es = lookup-by_user id [] es ∙ days_from-summary (passages_of id es)

-- `before` never puts two lines in both orders.
before-asymmetric : (a b : DailyAttendance) → before a b ≡ true → before b a ≡ false
unfolding before
before-asymmetric a b h = ground (
  arith,
  bytes_eq_iff a.arrival_time b.arrival_time,
  bytes_eq_iff b.arrival_time a.arrival_time,
  text_lt-asymmetric a.arrival_time b.arrival_time,
  text_lt-asymmetric a.user_name b.user_name,
)

-- The lines of a day are in their order: no line belongs in front of the line above it.
pub daily_rows-InOrder : (es : List AttendanceEvent) → InOrder before (daily_rows es)
unfolding daily_rows
daily_rows-InOrder es = sort-InOrder before before-asymmetric (map day_value (by_user [] es))
