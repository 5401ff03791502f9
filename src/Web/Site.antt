-- ===== src/Web/Site.antt =====
-- src/web/WebServer.cpp: what the handlers work on, and what they answer. The JSON texts of lists and of
-- jobs, and the texts of problems, are left out: an answer tells which of them it is and what it shows.
use monk_skud_unex.Base.{
  ℕ, List, [], ◌∷◌, Bool, ◌&&◌, Text, Option, none, some, ℤ, pos, eq_ℤ, if◌then◌else◌, find_if,
}
use monk_skud_unex.Web.Request.{Form}
use monk_skud_unex.Types.{Controller, ControllerCardRecord}
use monk_skud_unex.Types.Jobs.{
  ControllerUserUploadJob, ControllerActionJob, ControllerAttendanceReadJob,
  ControllerUserDeleteJob, ControllerUserReadJob, ControllerEepromSearchJob,
}
use monk_skud_unex.Config.{Config}
use monk_skud_unex.Users.Ops.{UserManager}
use monk_skud_unex.Departments.{Departments}
use monk_skud_unex.Attendance.{Engine}
use monk_skud_unex.Controllers.Trace.{Ring, ProtocolTraceEntry}
use monk_skud_unex.Controllers.Upload.{UploadQueue}
use monk_skud_unex.Controllers.Delete.{DeleteQueue}
use monk_skud_unex.Controllers.Action.{ActionQueue}
use monk_skud_unex.Controllers.Read
use monk_skud_unex.Controllers.Event.Drain
use monk_skud_unex.Controllers.Search.{SearchQueue}

-- `V`, `E`, `D`, `C` and `F` are the worlds of the stores of users, attendance, departments and
-- controllers, and of the settings' file.
pub record Site (V E D C F : Type 0) : Type 0 where
  pub config : Config
  pub config_file : F
  pub users : UserManager V
  pub departments : Departments D
  pub engine : Engine E
  pub controllers : List Controller
  pub controller_cards : List (Text × ControllerCardRecord)
  pub controller_store : C
  pub refresh_requested : Bool
  pub ring : Ring
  pub uploads : UploadQueue
  pub deletions : DeleteQueue
  pub actions : ActionQueue
  pub user_reads : Read.ReadQueue
  pub attendance_reads : Drain.ReadQueue
  pub searches : SearchQueue

pub data View : Type 0 where
  monitor status_page user_list department_list active_cards cards_seen today controller_list : View
  report_settings settings_page : View
  auto_create : Bool → View
  trace_page : List ProtocolTraceEntry → View
  upload_job : ControllerUserUploadJob → View
  action_job : ControllerActionJob → View
  attendance_job : ControllerAttendanceReadJob → View
  delete_job : ControllerUserDeleteJob → View
  read_job : ControllerUserReadJob → View
  search_job : ControllerEepromSearchJob → View

-- The error texts.
pub data Problem : Type 0 where
  auth_required wrong_password not_found job_not_found page_not_found : Problem
  no_controller bad_node node_exists bad_numbers bad_card bad_range bad_block bad_address : Problem
  no_controllers_selected no_users_selected no_addresses bad_address_mode no_target : Problem
  bad_pin pin_required empty_name save_failed no_card card_not_assigned unknown_action : Problem
  sync_address sync_no_card : ℤ → Problem
  sync_duplicate : ℤ → ℤ → ℤ → Problem

pub data Body : Type 0 where
  text : Text → Body
  page : Text → Text → Body
  view : View → Body
  problem : Problem → Body
  done : Bool → Body
  queued : ℕ → Body
  removed_users : ℕ → Body
  saved_user : ℤ → Body
  created_user : ℤ → Bool → Body
  created_users : ℕ → ℕ → ℕ → List ℤ → Body
  merged_user : Text → ℤ → Body

pub record Res : Type 0 where
  pub code : ℕ
  pub body : Body
  pub headers : List (Text × Text)

abbrev pub answer : ℕ → Body → Res
answer code body = record { code = code; body = body; headers = [] }

abbrev pub refuse : ℕ → Problem → Res
refuse code p = answer code (problem p)

-- `{"ok":…}` with the code 200, or 400 where it is false.
abbrev pub ok_or_400 : Bool → Res
ok_or_400 b = answer (if b then 200 else 400) (done b)

abbrev pub Handler : Type 0 → Type 0
Handler S = Form → S → Res × S

-- The job that was asked for, or 404.
unfoldable pub job_page : {J : Type 0} → (J → View) → Option J → Res
job_page shown none = refuse 404 job_not_found
job_page shown (some j) = answer 200 (view (shown j))

-- The first enabled controller with the node.
unfoldable pub enabled_controller : ℤ → List Controller → Option Controller
enabled_controller node cs = find_if (λ (c : Controller). eq_ℤ (pos c.node) node && c.enabled) cs

unfoldable pub enabled_nodes : List Controller → List ℕ
enabled_nodes [] = []
enabled_nodes (c ∷ cs) = let rest = enabled_nodes cs in if c.enabled then c.node ∷ rest else rest

-- The nodes of a list that belong to an enabled controller.
unfoldable pub known_nodes : List Controller → List ℕ → List ℕ
unfolding enabled_controller
known_nodes cs [] = []
known_nodes cs (n ∷ ns) =
    let rest = known_nodes cs ns in
    elim (enabled_controller (pos n) cs) [ none ↦ rest | some c ↦ n ∷ rest ]
