-- ===== src/Examples/Disk.antt =====
-- Files in memory, and the store, the settings and the tables on them.
use monk_skud_unex.Base.{
  ℕ, suc, List, [], ◌∷◌, ◌++◌, Bool, true, false, not, Text, All, Option, none, some, ℤ, pos,
  bytes_eq, bytes_eq_iff, codes, utf8, ◌≡◌, refl, sym, ap, ◌∙◌, arith,
}
use monk_skud_unex.Base.Map.{
  lookup, insert, delete, adjust, lookup-insert, lookup-delete, lookup-adjust, text_eq, int_eq,
}
use monk_skud_unex.Text.Csv.Rows.{Closed}
use monk_skud_unex.Types.{absent, present, AttendanceEventType, AttendanceEvent, PersistedCardState}
use monk_skud_unex.Attendance.{new_state, State}
use monk_skud_unex.Attendance.Redelivery.{Keeps}
use monk_skud_unex.Attendance.Present.{
  present_users, present_users-exact, has_id, is_among, has_distinct_ids,
}
use monk_skud_unex.Storage.Files.{FileSystem, Reliable, content, is_some, added}
use monk_skud_unex.Storage.Formats.RoundTrip.{IsPlainEvent}
use monk_skud_unex.Storage.FileStore.{files, Disk, file_store, save_card_states, load_card_states}
use monk_skud_unex.Storage.FileStore.Events.{IsSoundDisk, IsStorable, file_store-Keeps}
use monk_skud_unex.Storage.FileStore.Tables.{load_card_states-save_card_states}
use monk_skud_unex.Storage.Daily.{by_user}
use monk_skud_unex.Storage.Daily.Summary.{summary, passages_of, by_user-summary}
use monk_skud_unex.Base.Sort.{count}
use monk_skud_unex.Departments.{Departments}
use monk_skud_unex.Departments.Unique.{
  IsUnique, Change, to_add, to_rename, change_all, change_all-IsUnique,
}
use monk_skud_unex.Config.{Config, save, load}
use monk_skud_unex.Config.RoundTrip.{load-save}
use monk_skud_unex.Examples.Wire.{ivanov}

abbrev pub Files : Type 0
Files = List (Text × Text)

abbrev pub moved : Text → Text → Option Text → Files → Bool × Files
moved p q none w = (false, w)
moved p q (some s) w = (true, insert q s (delete p w))

abbrev pub memory_files : FileSystem Files
memory_files = record {
  exists = λ p w. is_some (lookup p w);
  read = lookup;
  open_append = λ p w. (true, insert p (content (lookup p w)) w);
  open_truncate = λ p w. (true, insert p [] w);
  write = λ p t w. adjust p (λ (s : Text). s ++ t) w;
  rename = λ p q w. moved p q (lookup p w) w;
  remove = delete;
}

moved-renamed :
    (p q : Text) (o : Option Text) (w : Files)
    → (moved p q o w).0 ≡ true
    → lookup q (moved p q o w).1 ≡ o
moved-renamed p q none w ok = absurd (ground arith)
moved-renamed p q (some s) w ok = ground (arith, lookup-insert q q s (delete p w), bytes_eq_iff q q)

moved-elsewhere :
    (p q r : Text) (o : Option Text) (w : Files)
    → bytes_eq p r ≡ false
    → bytes_eq q r ≡ false
    → lookup r (moved p q o w).1 ≡ lookup r w
moved-elsewhere p q r none w h k = refl
moved-elsewhere p q r (some s) w h k =
    ground (arith, lookup-insert q r s (delete p w), lookup-delete p r w)

moved-failed :
    (p q : Text) (o : Option Text) (w : Files)
    → (moved p q o w).0 ≡ false
    → lookup p (moved p q o w).1 ≡ lookup p w
moved-failed p q none w h = refl
moved-failed p q (some s) w h = absurd (ground arith)

added-adjust :
    (t : Text) (o : Option Text)
    → monk_skud_unex.Base.Map.map_option (λ (s : Text). s ++ t) o ≡ added t o
added-adjust t none = refl
added-adjust t (some s) = refl

pub memory_files-Reliable : Reliable memory_files
memory_files-Reliable = record {
  exists_read = λ p w. refl;
  appended = λ p w ok. ground (arith, lookup-insert p p (content (lookup p w)) w, bytes_eq_iff p p);
  append_refused = λ p w h. absurd (ground arith);
  truncated = λ p w ok. ground (arith, lookup-insert p p [] w, bytes_eq_iff p p);
  written = λ p t w. ground (
    arith,
    lookup-adjust p p (λ (s : Text). s ++ t) w,
    bytes_eq_iff p p,
    added-adjust t (lookup p w),
  );
  renamed = λ p q w apart ok. moved-renamed p q (lookup p w) w ok;
  rename_failed = λ p q w bad. moved-failed p q (lookup p w) w bad;
  appended_elsewhere = λ p q w h. ground (arith, h, lookup-insert p q (content (lookup p w)) w);
  truncated_elsewhere = λ p q w h. ground (arith, h, lookup-insert p q [] w);
  written_elsewhere = λ p q t w h. ground (arith, h, lookup-adjust p q (λ (s : Text). s ++ t) w);
  renamed_elsewhere = λ p q r w h k. moved-elsewhere p q r (lookup p w) w h k;
  removed_elsewhere = λ p q w h. ground (arith, h, lookup-delete p q w);
}

file_store-Keeps_example :
    Keeps
      (file_store memory_files files (codes "/opt/skud") (codes "2026-05-04"))
      (IsSoundDisk memory_files memory_files-Reliable (codes "/opt/skud"))
      (IsStorable memory_files memory_files-Reliable (codes "/opt/skud"))
file_store-Keeps_example =
    file_store-Keeps memory_files memory_files-Reliable (codes "/opt/skud") (codes "2026-05-04")

abbrev empty_disk : Disk Files
empty_disk = record { world = []; storage_error = [] }

abbrev pub arrival_event : AttendanceEvent
arrival_event = record {
  timestamp = codes "2026-05-04 08:55:10";
  event_type = AttendanceEventType.arrival;
  card = codes "123:45678";
  user_id = pos 7;
  user_name = utf8 "Иванов Иван";
  position = [];
  department = utf8 "Цех";
  telegram_arrival = true;
  telegram_departure = true;
  controller_node = pos 1;
  controller_name = codes "gate";
  raw_hex = codes "7E 09";
}

abbrev pub departure_event : AttendanceEvent
departure_event = record arrival_event {
  timestamp = codes "2026-05-04 17:02:00";
  event_type = AttendanceEventType.departure;
}

abbrev two_states : List (Text × PersistedCardState)
two_states =
    (codes "U:7", record { state = present; last_read = codes "2026-05-04 08:55:10" })
    ∷ (codes "C:1:2", record { state = absent; last_read = [] })
    ∷ []

saved_states :
    (save_card_states memory_files files (codes "/opt/skud") two_states empty_disk).0 ≡ true
unfolding save_card_states monk_skud_unex.Storage.Files.replace_file
    monk_skud_unex.Storage.Files.rename_over lookup adjust insert bytes_eq
saved_states = refl

load_card_states-save_card_states_example :
    (load_card_states memory_files files
      (codes "/opt/skud")
      (save_card_states memory_files files (codes "/opt/skud") two_states empty_disk).1).0
    ≡ two_states
unfolding monk_skud_unex.Text.Csv.Rows.is_plain lookup bytes_eq
load_card_states-save_card_states_example =
    load_card_states-save_card_states memory_files memory_files-Reliable (codes "/opt/skud")
      two_states empty_disk ((refl, refl), ((refl, refl), record {})) (refl, (refl, record {}))
      saved_states

arrival_event-IsPlainEvent : IsPlainEvent arrival_event
unfolding monk_skud_unex.Text.Csv.Rows.is_plain
arrival_event-IsPlainEvent = record {
  timestamp = refl;
  card = refl;
  user_name = refl;
  department = refl;
  controller_name = refl;
  raw_hex = refl;
  user_id = omega arith;
  controller_node = omega arith;
}

by_user-summary_example :
    lookup (pos 7) (by_user [] (arrival_event ∷ departure_event ∷ []))
    ≡ summary (passages_of (pos 7) (arrival_event ∷ departure_event ∷ []))
by_user-summary_example = by_user-summary (pos 7) (arrival_event ∷ departure_event ∷ [])

abbrev there : State
there = record new_state { presence = present }

abbrev two_keys : List (Text × State)
two_keys = (codes "U:7", there) ∷ (codes "C:123:45678", there) ∷ []

present_users-exact_example :
    ((id : ℤ)
      → has_id id (present_users (ivanov ∷ []) two_keys) ≡ is_among (ivanov ∷ []) id two_keys)
    × (has_distinct_ids (present_users (ivanov ∷ []) two_keys) ≡ true)
present_users-exact_example = present_users-exact (ivanov ∷ []) two_keys

abbrev settings : Config
settings = record {
  path = codes "/opt/skud/system.conf";
  kv =
      (codes "telegram.retry_count", codes "3")
      ∷ (codes "reports.schedule.time", codes "18:00")
      ∷ [];
}

saved_settings : (save memory_files settings []).0 ≡ true
unfolding save monk_skud_unex.Storage.Files.replace_file monk_skud_unex.Storage.Files.rename_over
    lookup adjust insert bytes_eq
saved_settings = refl

load-save_example : load memory_files settings (save memory_files settings []).1 ≡ (true, settings)
unfolding monk_skud_unex.Text.trim monk_skud_unex.Config.config_line
    monk_skud_unex.Text.Csv.Rows.lacks lookup bytes_eq
load-save_example =
    load-save memory_files memory_files-Reliable settings []
      (
        record {
          key_trimmed = refl;
          value_trimmed = refl;
          line_trimmed = refl;
          no_equals = refl;
          one_line = refl;
          not_comment = refl;
        },
        (
          record {
            key_trimmed = refl;
            value_trimmed = refl;
            line_trimmed = refl;
            no_equals = refl;
            one_line = refl;
            not_comment = refl;
          },
          record {},
        ),
      )
      (refl, (refl, record {})) saved_settings

-- A disk that refuses every other save.
abbrev save_names : List Text → Bool → Bool × Bool
save_names names up = (up, not up)

abbrev two_departments : Departments Bool
two_departments = record { names = codes "gate" ∷ codes "office" ∷ []; world = true }

two_departments-IsUnique : IsUnique two_departments.names
unfolding count bytes_eq
two_departments-IsUnique = record {
  once = λ x. ground (arith, bytes_eq_iff x (codes "gate"), bytes_eq_iff x (codes "office"));
}

abbrev day_of_changes : List (Change save_names)
day_of_changes = to_add (codes " gate ") ∷ to_rename (codes "gate") (codes "shop") ∷ []

change_all-IsUnique_example : IsUnique (change_all save_names day_of_changes two_departments).names
change_all-IsUnique_example =
    change_all-IsUnique save_names day_of_changes two_departments two_departments-IsUnique
