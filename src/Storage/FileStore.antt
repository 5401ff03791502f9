-- ===== src/Storage/FileStore.antt =====
-- src/storage/FileStore.cpp: what the attendance and the reports read and write. The lock makes each call
-- atomic; the local day is an argument.
pub mod Events
pub mod Tables
use monk_skud_unex.Base.{
  ℕ, List, [], ◌∷◌, ◌++◌, Bool, true, false, Text, Option, none, some, if◌then◌else◌, is_empty,
  codes, any, ltb,
}
use monk_skud_unex.Types.{AttendanceEvent, CardActivity, PersistedCardState}
use monk_skud_unex.Text.Csv.{terminated, body_rows}
use monk_skud_unex.Attendance.{Store}
use monk_skud_unex.Storage.Files.{FileSystem, content, replace_file}
use monk_skud_unex.Storage.Formats.{
  event_lines, event_date, parse_event, is_event_of, states_text, parse_states, activities_text,
  parse_activities,
}

-- What the store uses of `MariaDbUserStore`. A write gives the error, a read the error or the result.
pub data Answer (A : Type 0) : Type 0 where
  ok : A → Answer A
  failed : Text → Answer A

pub record Database (W : Type 0) : Type 0 where
  pub append_event : AttendanceEvent → W → Option Text × W
  pub has_controller_event : ℕ → Text → W → Answer Bool
  pub save_card_states : List (Text × PersistedCardState) → W → Option Text × W
  pub load_card_states : W → Answer (List (Text × PersistedCardState))
  pub save_activities : List CardActivity → W → Option Text × W
  pub load_activities : W → Answer (List CardActivity)
  pub load_events_by_date : Text → W → Answer (List AttendanceEvent)

-- `usingMariaDb()` and `db_`: a database that is configured may be missing.
pub data Backend (W : Type 0) : Type 0 where
  files : Backend W
  no_database : Backend W
  database : Database W → Backend W

pub record Disk (W : Type 0) : Type 0 where
  pub world : W
  pub storage_error : Text

-- The answer of a write to the database; its error is kept.
unfoldable pub note_write : {W : Type 0} → Option Text × W → Disk W → Bool × Disk W
note_write (none, w) d = (true, record d { world = w })
note_write (some e, w) d = (false, record { world = w; storage_error = e })

-- The result of a read, or the default where it failed; its error is kept.
unfoldable pub note_read : {W A : Type 0} → A → Answer A → Disk W → A × Disk W
note_read default (ok a) d = (a, d)
note_read default (failed e) d = (default, record d { storage_error = e })

module _ {W : Type 0} (fs : FileSystem W) (backend : Backend W) (root : Text) where
  abbrev pub events_path : Text → Text
  events_path date = root ++ (codes "/data/events/" ++ (date ++ codes ".csv"))

  abbrev pub states_path : Text
  states_path = root ++ codes "/data/card_state.csv"

  abbrev pub activities_path : Text
  activities_path = root ++ codes "/data/active_cards.csv"

  -- The stream is not tested once it is open.
  unfoldable pub append_file : Text → AttendanceEvent → W → Bool × W
  append_file p e w =
      let exists = fs.exists p w in
      let opened = fs.open_append p w in
      if opened.0
      then (true, fs.write p (terminated (event_lines exists e)) opened.1)
      else (false, opened.1)

  unfoldable pub append_event : Text → AttendanceEvent → Disk W → Bool × Disk W
  append_event today e d = elim backend [
    | database db ↦ note_write (db.append_event e d.world) d
    | no_database ↦ (false, d)
    | files ↦
        let r = append_file (events_path (event_date today e.timestamp)) e d.world in
        (r.0, record d { world = r.1 })
  ]

  unfoldable pub has_in_file : ℕ → Text → Text → W → Bool
  has_in_file node raw p w = any (is_event_of node raw) (body_rows (content (fs.read p w)))

  unfoldable pub has_controller_event : Text → ℕ → Text → Text → Disk W → Bool × Disk W
  has_controller_event today node raw ts d = if is_empty raw then (false, d) else elim backend [
    | database db ↦ note_read false (db.has_controller_event node raw d.world) d
    | no_database ↦ (false, d)
    | files ↦ (has_in_file node raw (events_path (event_date today ts)) d.world, d)
  ]

  unfoldable pub save_card_states : List (Text × PersistedCardState) → Disk W → Bool × Disk W
  save_card_states t d = elim backend [
    | database db ↦ note_write (db.save_card_states t d.world) d
    | no_database ↦ (false, d)
    | files ↦
        let r = replace_file fs states_path (states_text t) d.world in
        (r.0, record d { world = r.1 })
  ]

  unfoldable pub load_card_states : Disk W → List (Text × PersistedCardState) × Disk W
  load_card_states d = elim backend [
    | database db ↦ note_read [] (db.load_card_states d.world) d
    | no_database ↦ ([], d)
    | files ↦ (parse_states [] (body_rows (content (fs.read states_path d.world))), d)
  ]

  unfoldable pub save_activities : List CardActivity → Disk W → Bool × Disk W
  save_activities t d = elim backend [
    | database db ↦ note_write (db.save_activities t d.world) d
    | no_database ↦ (false, d)
    | files ↦
        let r = replace_file fs activities_path (activities_text t) d.world in
        (r.0, record d { world = r.1 })
  ]

  unfoldable pub load_activities : Disk W → List CardActivity × Disk W
  load_activities d = elim backend [
    | database db ↦ note_read [] (db.load_activities d.world) d
    | no_database ↦ ([], d)
    | files ↦ (parse_activities (body_rows (content (fs.read activities_path d.world))), d)
  ]

  -- What the engine sees. The text of a storage error does not reach it.
  abbrev pub file_store : Text → Store (Disk W)
  file_store today = record {
    has_controller_event = λ node raw ts d. (has_controller_event today node raw ts d).0;
    append_event = append_event today;
    save_card_states = save_card_states;
    save_activities = save_activities;
  }
