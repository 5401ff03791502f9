-- ===== src/Examples/Jobs.antt =====
-- The worker of the controllers: an upload, a deletion, a read and an event.
use monk_skud_unex.Base.{ℕ, suc, List, [], ◌∷◌, Bool, true, false, Text, pos, codes, ◌≡◌, ◌⊎◌, refl}
use monk_skud_unex.Base.Map.{nat_eq}
use monk_skud_unex.Types.{User, RawUnexEvent, ControllerCardRecord, AttendanceEvent}
use monk_skud_unex.Types.Jobs.{
  ControllerUserUploadJob, ControllerUserReadJob, ControllerUserReadResult, JobState, ReadStatus,
}
use monk_skud_unex.Users.Ops.{UserManager}
use monk_skud_unex.Controllers.Upload.{PendingUserUpload, Run, new_upload_job}
use monk_skud_unex.Controllers.Delete as Deletion
use monk_skud_unex.Controllers.Delete.{delete_users}
use monk_skud_unex.Controllers.Delete.Confirmed.{has_id, IsConfirmed, delete_users-IsConfirmed}
use monk_skud_unex.Controllers.Event.{Worker, Settings, handle_controller_event}
use monk_skud_unex.Controllers.Event.Safety.{
  IsFinished, store_answer, handle_controller_event-IsFinished,
}
use monk_skud_unex.Examples.Wire.{scripted, link_with, ivanov, upload_link}
use monk_skud_unex.Examples.Slots.{delete_link}
use monk_skud_unex.Examples.Site.{memory, seconds, quiet_site}

abbrev one_upload : PendingUserUpload
one_upload = record {
  id = 1;
  users = ivanov ∷ [];
  controller_nodes = 1 ∷ 2 ∷ [];
  full_sync = false;
}

abbrev upload_job : ControllerUserUploadJob
upload_job = new_upload_job 1 [] false 2

abbrev upload_run : Run (List (List ℕ))
upload_run = record { link = upload_link; jobs = (1, upload_job) ∷ [] }

abbrev local_users : UserManager (List User)
local_users = record { users = ivanov ∷ []; world = [] }

abbrev save_users : List User → List User → Bool × List User
save_users users w = (true, users)

abbrev delete_run : Deletion.Run (List (List ℕ)) (List User)
delete_run = record {
  link = delete_link;
  jobs = [];
  manager = local_users;
  metadata_changed = false;
}

delete_users-IsConfirmed_example :
    (has_id
        (pos 7)
        (delete_users scripted
          (λ w. true)
          save_users
          1
          true
          (ivanov ∷ [])
          (1 ∷ [])
          delete_run).1.manager.users
      ≡ true)
    ⊎ IsConfirmed scripted (λ w. true) save_users 1 true (pos 7) (1 ∷ []) delete_run (ivanov ∷ [])
delete_users-IsConfirmed_example =
    delete_users-IsConfirmed scripted (λ w. true) save_users 1 true (pos 7) (ivanov ∷ []) (1 ∷ [])
      delete_run refl

abbrev gate_event : RawUnexEvent
gate_event = record {
  node = 1;
  frame = [];
  raw_hex = codes "7E";
  card = codes "123:45678";
  user_address = pos 5;
  event_code = pos 0x0b;
  event_timestamp = codes "5";
}

abbrev settings : Settings
settings = record {
  auto_create_unknown = true;
  has_raw_callback = false;
  repeat_seconds = pos 2;
  card_word = [];
  now = codes "6";
}

abbrev save_cards : List (Text × ControllerCardRecord) → ℕ → ℕ
save_cards cards w = suc w

abbrev worker : Worker (List (List ℕ)) (List User) (List AttendanceEvent) ℕ
worker = record {
  link = link_with [];
  controllers = [];
  cards = [];
  cards_world = 0;
  manager = local_users;
  engine = quiet_site;
  last_event_trace_raw = [];
  reported = [];
}

handle_controller_event-IsFinished_example :
    IsFinished save_cards save_users memory seconds scripted settings 1
      (link_with []).port
      (store_answer save_cards save_users memory seconds scripted settings 1 gate_event true worker)
      (handle_controller_event save_cards save_users memory seconds scripted settings 1 gate_event
        true worker)
handle_controller_event-IsFinished_example =
    handle_controller_event-IsFinished save_cards save_users memory seconds scripted settings 1
      gate_event true worker

abbrev read_job : ControllerUserReadJob
read_job = record {
  id = 1;
  created_at = [];
  state = JobState.running;
  total = 3;
  completed_count = 2;
  matches = 1;
  differences = 0;
  missing_count = 0;
  unknown_count = 0;
  unverified_count = 0;
  empty_count = 1;
  failed = 0;
  results = [];
}

abbrev unknown_slot : ControllerUserReadResult
unknown_slot = record {
  controller_node = 1;
  address = pos 3;
  local_user_id = pos 0;
  local_user_name = [];
  controller_card = codes "1:2";
  controller_enabled = true;
  pin_set = false;
  access_mode = codes "card";
  card_known = true;
  details_known = true;
  raw_record_hex = [];
  status = ReadStatus.unknown;
}
