-- ===== src/Examples/Site.antt =====
-- A store in memory, and the attendance, the users and the jobs of the worker on it.
use monk_skud_unex.Base.{
  ℕ, suc, false, List, [], ◌∷◌, Bool, true, not, if◌then◌else◌, ◌&&◌, Text, Option, none, some, ℤ,
  pos, eq_ℤ, eq_ℤ_iff, codes, bytes_eq, ◌≡◌, refl, any, bytes_eq_iff, arith,
}
use monk_skud_unex.Base.Map.{nat_eq}
use monk_skud_unex.Types.{AttendanceEvent}
use monk_skud_unex.Attendance.{
  new_state, Store, Engine, Access, on_controller_access_event, state_at, state_key, outcome,
  event_time,
}
use monk_skud_unex.Attendance.Alternation.{
  Delivery, deliver_all, deliver_all-walk, walk, passages, presence,
}
use monk_skud_unex.Users.Ops.{find_card}
use monk_skud_unex.Attendance.Presence.{on_controller_access_event-state_at}
use monk_skud_unex.Attendance.Maintenance.{reset_site_activity}
use monk_skud_unex.Attendance.Maintenance.Reset.{reset_site_activity-states}
use monk_skud_unex.Attendance.Redelivery.{Keeps, redelivery-unchanged}
use monk_skud_unex.Examples.Wire.{ivanov}

abbrev has_event : ℕ → Text → Text → List AttendanceEvent → Bool
has_event node raw ts events =
    any
      (λ (e : AttendanceEvent).
        bytes_eq e.timestamp ts && (eq_ℤ e.controller_node (pos node) && bytes_eq e.raw_hex raw))
      events

abbrev pub memory : Store (List AttendanceEvent)
memory = record {
  has_controller_event = has_event;
  append_event = λ e w. (true, e ∷ w);
  save_card_states = λ t w. (true, w);
  save_activities = λ t w. (true, w);
}

memory-Keeps : Keeps memory (λ w. Unit {0}) (λ node raw ts. Unit {0})
memory-Keeps = record {
  appended = λ e node w sound kept hn h. ground (
    arith,
    eq_ℤ_iff e.controller_node (pos node),
    bytes_eq_iff e.timestamp e.timestamp,
    bytes_eq_iff e.raw_hex e.raw_hex,
  );
  later = λ e node raw ts w sound h. ground arith;
  states = λ t node raw ts w h. h;
  activities = λ t node raw ts w h. h;
  append_sound = λ e w sound. sound;
  states_sound = λ t w sound. sound;
  activities_sound = λ t w sound. sound;
}

-- A clock that reads only the last digit of a timestamp.
abbrev pub seconds : Text → Option ℤ
seconds [] = none
seconds (c ∷ s) = some (pos c)

abbrev pub quiet_site : Engine (List AttendanceEvent)
quiet_site = record { states = []; activities = []; has_notifier = true; notified = []; world = [] }

abbrev pub read_at : Text → Access
read_at ts = record {
  card = codes "123:45678";
  node = 1;
  controller = codes "gate";
  raw = ts;
  event_timestamp = ts;
}

abbrev visit : Text → Delivery
visit ts = record {
  repeat = pos 2;
  users = ivanov ∷ [];
  now = ts;
  access = read_at ts;
  allow = true;
}

abbrev day : List Delivery
day = visit (codes "1") ∷ visit (codes "2") ∷ visit (codes "9") ∷ visit (codes "9") ∷ []

deliver_all-walk_example :
    walk
      (presence memory seconds (pos 7) quiet_site)
      (passages (pos 7) (deliver_all memory seconds day quiet_site).0)
    ≡ some (presence memory seconds (pos 7) (deliver_all memory seconds day quiet_site).1)
deliver_all-walk_example = deliver_all-walk memory seconds day quiet_site (pos 7)

first_stored :
    (on_controller_access_event memory seconds
      (pos 2)
      (ivanov ∷ [])
      []
      (read_at (codes "5"))
      true
      quiet_site).0.stored
    ≡ true
unfolding on_controller_access_event monk_skud_unex.Attendance.process
first_stored = refl

redelivery-unchanged_example :
    let first =
      (on_controller_access_event memory seconds
        (pos 2)
        (ivanov ∷ [])
        []
        (read_at (codes "5"))
        true
        quiet_site).1 in
    let after = (deliver_all memory seconds day first).1 in
    let second =
      on_controller_access_event memory seconds (pos 2) [] [] (read_at (codes "5")) true after in
    (second.0.stored ≡ true) × (second.0.duplicate ≡ true) × (second.1 ≡ after)
redelivery-unchanged_example =
    redelivery-unchanged memory seconds memory-Keeps (pos 2) (pos 2) (ivanov ∷ []) [] [] []
      (read_at (codes "5")) true true (pos 53) day quiet_site (record {}) (record {}) refl refl
      first_stored

on_controller_access_event-state_at_example :
    let r =
      on_controller_access_event memory seconds
        (pos 2)
        (ivanov ∷ [])
        []
        (read_at (codes "5"))
        true
        quiet_site in
    let user = find_card (ivanov ∷ []) (codes "123:45678") in
    let key = state_key user (codes "123:45678") in
    state_at r.1.states (codes "U:7") ≡ (
      if not r.0.duplicate && r.0.stored && bytes_eq key (codes "U:7")
      then (outcome memory seconds
          (pos 2)
          user
          (state_at [] key)
          (read_at (codes "5"))
          (event_time memory seconds [] (codes "5"))).1
      else state_at [] (codes "U:7"))
on_controller_access_event-state_at_example =
    on_controller_access_event-state_at memory seconds (pos 2) (ivanov ∷ []) []
      (read_at (codes "5")) true quiet_site (codes "U:7")

abbrev broken : Store ℕ
broken = record {
  has_controller_event = λ node raw ts w. false;
  append_event = λ e w. (true, w);
  save_card_states = λ t w. (true, suc w);
  save_activities = λ t w. (false, suc w);
}

abbrev present_site : Engine ℕ
present_site = record {
  states = (codes "U:7", new_state) ∷ [];
  activities = [];
  has_notifier = true;
  notified = [];
  world = 0;
}

reset_site_activity-states_example :
    let r = reset_site_activity broken present_site in
    (r.1.states ≡ (if r.0 then [] else present_site.states))
    × (r.1.activities ≡ (if r.0 then [] else present_site.activities))
    × (r.1.notified ≡ present_site.notified)
reset_site_activity-states_example = reset_site_activity-states broken present_site
