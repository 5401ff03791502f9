-- ===== src/Web/Endpoints.antt =====
-- src/web/WebServer.cpp: the paths and methods that `route` serves behind the login, in three groups, and the
-- requests about the settings. `more` stands for reports, SOYAL files and the messenger.
use Prim.Native.String.{String}
use monk_skud_unex.Base.{
  List, [], ◌∷◌, ◌++◌, Bool, true, false, Text, if◌then◌else◌, is_empty, codes,
}
use monk_skud_unex.Types.{User, Controller, ControllerCardRecord}
use monk_skud_unex.Config.{Config, get_bool, set, save, raw, replace_raw}
use monk_skud_unex.Users.Ops.{UserManager}
use monk_skud_unex.Users.Csv.{export_csv, used_departments}
use monk_skud_unex.Departments
use monk_skud_unex.Attendance.{Store}
use monk_skud_unex.Attendance.Maintenance.{refresh_user_metadata}
use monk_skud_unex.Storage.Files.{FileSystem}
use monk_skud_unex.Web.Request.{is_set}
use monk_skud_unex.Web.Site.{Site, Handler, Res, text, view, done, View, Problem, answer, refuse}
use monk_skud_unex.Web.Jobs.Forms.{value_of}
use monk_skud_unex.Web.Jobs
use monk_skud_unex.Web.Users
use monk_skud_unex.Web.Route.{Call, Endpoint}

abbrev set_text : String → Text → Config → Config
set_text key v c = set (codes key) v c

abbrev set_filled : String → Text → Config → Config
set_filled key v c = if is_empty v then c else set (codes key) v c

abbrev true_or_false : Bool → Text
true_or_false b = if b then codes "true" else codes "false"

abbrev get_endpoint : {S : Type 0} → String → Handler S → Endpoint S
get_endpoint path h = record {
  path = codes path;
  method = codes "GET";
  of_query = true;
  handle = λ c. h;
}

abbrev post_endpoint : {S : Type 0} → String → (Call → Handler S) → Endpoint S
post_endpoint path h = record {
  path = codes path;
  method = codes "POST";
  of_query = false;
  handle = h;
}

abbrev any_endpoint : {S : Type 0} → String → Handler S → Endpoint S
any_endpoint path h = record { path = codes path; method = []; of_query = true; handle = λ c. h }

module _ {V E D C F : Type 0} (save_users : List User → V → Bool × V)
    (save_departments : List Text → D → Bool × D) (store : Store E)
    (save_controllers : List Controller → C → Bool × C)
    (save_cards : List (Text × ControllerCardRecord) → C → C) (fs : FileSystem F) (card_word : Text)
    (sha256_hex : Text → Text) (import_csv : Text → UserManager V → Bool × UserManager V)
    (more : List (Endpoint (Site V E D C F))) where
  abbrev S : Type 0
  S = Site V E D C F

  abbrev shows : View → Handler S
  shows v f s = (answer 200 (view v), s)

  -- A new password gets a new salt. Empty fields of the first four keep what there was.
  unfoldable pub post_save_settings : Call → Handler S
  post_save_settings call f s =
      let password = value_of "password" f in
      let hash = sha256_hex (call.salt ++ password) in
      let flag' = λ (key : String). true_or_false (is_set (codes key) f) in
      let named = set_filled "auth.username" (value_of "username" f) s.config in
      let secret =
        if is_empty password
        then named
        else set_text "auth.password_hash" hash (set_text "auth.salt" call.salt named) in
      let port = set_filled "server.port" (value_of "port" f) secret in
      let device = set_filled "serial.device" (value_of "serial_device" f) port in
      let enabled = set_text "telegram.enabled" (flag' "telegram_enabled") device in
      let token = set_text "telegram.bot_token" (value_of "bot_token" f) enabled in
      let chat = set_text "telegram.chat_id" (value_of "chat_id" f) token in
      let arrival' = set_text "telegram.notify_arrival" (flag' "notify_arrival") chat in
      let departure' = set_text "telegram.notify_departure" (flag' "notify_departure") arrival' in
      let config = set_text "telegram.report_text_copy" (flag' "report_text_copy") departure' in
      let r = save fs config s.config_file in
      (
        if r.0 then answer 200 (done true) else refuse 500 Problem.save_failed,
        record s { config = config; config_file = r.1 },
      )

  unfoldable pub post_import_users : Call → Handler S
  post_import_users call f s =
      let r = import_csv call.req.body s.users in
      let users = r.1.users in
      let departments =
        if r.0
        then (Departments.ensure save_departments (used_departments users) s.departments).1
        else s.departments in
      (
        answer 200 (done r.0),
        record s {
          users = r.1;
          departments = departments;
          engine = refresh_user_metadata store users s.engine;
        },
      )

  unfoldable pub post_import_settings : Call → Handler S
  post_import_settings call f s =
      let (done', config, file) = replace_raw fs call.req.body s.config s.config_file in
      (answer 200 (done done'), record s { config = config; config_file = file })

  unfoldable pub get_auto_create : Handler S
  get_auto_create f s = (
    answer 200
        (view (View.auto_create (get_bool (codes "cards.auto_create_unknown") false s.config))),
    s,
  )

  abbrev exports : Text → String → Res
  exports content name = record {
    code = 200;
    body = text content;
    headers = (codes "Content-Disposition", codes "attachment; filename=" ++ codes name) ∷ [];
  }

  abbrev now_of : (Text → Handler S) → Call → Handler S
  now_of h call = h call.now

  unfoldable pub shown : List (Endpoint S)
  unfolding get_auto_create
  shown =
      any_endpoint "/api/status" (shows View.status_page)
      ∷ get_endpoint "/api/users" (shows View.user_list)
      ∷ get_endpoint "/api/departments" (shows View.department_list)
      ∷ any_endpoint "/api/cards/active" (shows View.active_cards)
      ∷ get_endpoint "/api/cards/controller" (shows View.cards_seen)
      ∷ get_endpoint "/api/cards/controller/settings" get_auto_create
      ∷ get_endpoint "/api/attendance/today" (shows View.today)
      ∷ get_endpoint "/api/reports/settings" (shows View.report_settings)
      ∷ get_endpoint "/api/controllers" (shows View.controller_list)
      ∷ get_endpoint "/api/settings" (shows View.settings_page)
      ∷ any_endpoint "/api/export/users"
          (λ f s. (exports (export_csv s.users.users) "users.csv", s))
      ∷ any_endpoint "/api/export/settings" (λ f s. (exports (raw s.config) "system.conf", s))
      ∷ []

  unfoldable pub of_jobs : List (Endpoint S)
  of_jobs =
      post_endpoint "/api/controllers/refresh" (now_of Jobs.post_refresh)
      ∷ post_endpoint "/api/controllers/read-attendance" (now_of Jobs.post_read_attendance)
      ∷ get_endpoint "/api/controllers/read-attendance/status" (Jobs.get_attendance_job [])
      ∷ post_endpoint "/api/controllers/set-node-id" (now_of Jobs.post_set_node_id)
      ∷ get_endpoint "/api/controllers/set-node-id/status" (Jobs.get_action_job [])
      ∷ get_endpoint "/api/protocol/live" (Jobs.get_trace [])
      ∷ post_endpoint "/api/protocol/live/clear" (now_of Jobs.post_clear_trace)
      ∷ post_endpoint "/api/controllers/eeprom-search" (now_of Jobs.post_eeprom_search)
      ∷ get_endpoint "/api/controllers/eeprom-search/status" (Jobs.get_search_job [])
      ∷ post_endpoint "/api/controllers/read-users" (now_of Jobs.post_read_users)
      ∷ get_endpoint "/api/controllers/read-users/status" (Jobs.get_read_job [])
      ∷ post_endpoint "/api/controllers/invalidate-user-slot" (now_of Jobs.post_invalidate_slot)
      ∷ post_endpoint "/api/controllers/disable-pass-any" (now_of Jobs.post_disable_pass_any)
      ∷ get_endpoint "/api/controllers/disable-pass-any/status" (Jobs.get_action_job [])
      ∷ post_endpoint "/api/controllers/upload-users" (now_of Jobs.post_upload_users)
      ∷ get_endpoint "/api/controllers/upload-users/status" (Jobs.get_upload_job [])
      ∷ get_endpoint "/api/users/delete-selected/status" (Jobs.get_delete_job [])
      ∷ []

  -- A handler of the users, with the stores that it is given.
  abbrev Stored : Type 0
  Stored =
      (List User → V → Bool × V)
      → (List Text → D → Bool × D)
      → Store E
      → (List Controller → C → Bool × C)
      → (List (Text × ControllerCardRecord) → C → C)
      → FileSystem F
      → Text
      → Handler S

  abbrev of_user : String → Stored → Endpoint S
  of_user path h =
      post_endpoint path
        (λ call. h save_users save_departments store save_controllers save_cards fs card_word)

  unfoldable pub of_users : List (Endpoint S)
  unfolding post_save_settings post_import_users post_import_settings
  of_users =
      post_endpoint "/api/users/delete-selected" (λ call.
        Users.post_delete_selected save_users save_departments store save_controllers save_cards fs
          card_word call.now)
      ∷ of_user "/api/users/save" Users.post_save_user
      ∷ of_user "/api/users/delete" Users.post_delete_user
      ∷ of_user "/api/departments/save" Users.post_save_department
      ∷ of_user "/api/departments/delete" Users.post_delete_department
      ∷ of_user "/api/cards/controller/settings" Users.post_auto_create
      ∷ of_user "/api/cards/controller/clear" Users.post_clear_cards
      ∷ of_user "/api/cards/create-user" Users.post_create_user
      ∷ of_user "/api/cards/create-users" Users.post_create_users
      ∷ of_user "/api/cards/assign" Users.post_assign_card
      ∷ of_user "/api/cards/delete" Users.post_delete_card
      ∷ of_user "/api/controllers/name" Users.post_controller_name
      ∷ of_user "/api/settings/reset-site-activity" Users.post_reset_activity
      ∷ post_endpoint "/api/import/users" post_import_users
      ∷ post_endpoint "/api/import/settings" post_import_settings
      ∷ post_endpoint "/api/settings/save" post_save_settings
      ∷ []

  -- All of them; no two have a path and a method in common.
  unfoldable pub endpoints : List (Endpoint S)
  unfolding shown of_jobs of_users
  endpoints = shown ++ (of_jobs ++ (of_users ++ more))
