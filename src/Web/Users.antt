-- ===== src/Web/Users.antt =====
-- src/web/WebServer.cpp: the requests of `route` that change users, cards, departments and settings.
pub mod Saved
pub mod Fields
use Prim.Native.String.{String}
use monk_skud_unex.Base.{
  ℕ, suc, ◌+◌, List, [], ◌∷◌, ◌++◌, Bool, true, false, ◌&&◌, ◌||◌, not, Text, Option, none, some, ℤ,
  pos, negsuc, eq_ℤ, leb_ℤ, ltb, ◌==◌, if◌then◌else◌, is_empty, length, any, map, codes, bytes_eq,
}
use monk_skud_unex.Text.{trim}
use monk_skud_unex.Text.Number.{to_string, is_digit, all_of}
use monk_skud_unex.Text.Int.{stoi}
use monk_skud_unex.Text.Card.{parse_card_parts, format_card_id}
use monk_skud_unex.Types.{User, new_user, Controller, ControllerCardRecord}
use monk_skud_unex.Config.{Config, set, get, save}
use monk_skud_unex.Users.Ops.{
  UserManager, by_card, by_id, upsert, erase, erase_many, assign_card, ensure_user_for_card,
  remove_card, rename_department, department_in_use,
}
use monk_skud_unex.Departments
use monk_skud_unex.Departments.{Departments}
use monk_skud_unex.Attendance.{Store, Engine}
use monk_skud_unex.Attendance.Maintenance.{refresh_user_metadata, reset_site_activity}
use monk_skud_unex.Controllers.Delete.{queue_user_delete}
use monk_skud_unex.Storage.Files.{FileSystem}
use monk_skud_unex.Web.Request.{Form, is_set, int_or, parse_int_list, parse_card_list}
use monk_skud_unex.Web.Site.{
  Site, Handler, Res, Body, done, queued, removed_users, saved_user, created_user, created_users,
  Problem, answer, refuse, ok_or_400,
}
use monk_skud_unex.Web.Jobs.Forms.{value_of, selected_nodes, users_of}
use monk_skud_unex.Web.Users.Fields.{
  Draft, with_fields, read_single_card, read_cards, valid_pin, needs_pin, known_mode, clamp_port,
  check_pin, check_draft, user_of_form, keep_old, accepted, declined,
}

unfoldable pub ids_of : List User → List ℤ
ids_of [] = []
ids_of (u ∷ us) = u.id ∷ ids_of us

-- The cards that controllers have read, each once: how many got a user, had one, or got none.
pub record Created (V : Type 0) : Type 0 where
  pub users : UserManager V
  pub ids : List ℤ
  pub created : ℕ
  pub already : ℕ
  pub failed : ℕ

abbrev is_user : Option User → Bool
is_user none = false
is_user (some u) = true

module _ {V E D C F : Type 0} (save_users : List User → V → Bool × V)
    (save_departments : List Text → D → Bool × D) (store : Store E)
    (save_controllers : List Controller → C → Bool × C)
    (save_cards : List (Text × ControllerCardRecord) → C → C) (fs : FileSystem F)
    (card_word : Text) where
  abbrev S : Type 0
  S = Site V E D C F

  -- `refreshUserMetadata` behind a change of the users.
  abbrev refreshed : S → S
  refreshed s = record s { engine = refresh_user_metadata store s.users.users s.engine }

  abbrev with_department : Text → S → S
  with_department name s =
      if is_empty name
      then s
      else record s { departments = (Departments.add save_departments name s.departments).1 }

  unfoldable pub post_save_user : Handler S
  unfolding user_of_form keep_old
  post_save_user f s = elim (user_of_form f) [
    | declined p ↦ (refuse 400 p, s)
    | accepted u ↦
        let old = if leb_ℤ u.id (pos 0) then none else by_id save_users u.id s.users in
        let r = upsert save_users (keep_old old u) s.users in
        (
          answer 200 (saved_user r.0.id),
          refreshed (with_department r.0.department (record s { users = r.1 })),
        )
  ]

  unfoldable pub post_delete_user : Handler S
  post_delete_user f s = elim (stoi (value_of "id" f)) [
    | none ↦ (answer 200 (done false), refreshed s)
    | some id ↦
        let r = erase save_users id s.users in
        (answer 200 (done r.0), refreshed (record s { users = r.1 }))
  ]

  -- The users go at once, or behind a job that takes them from the controllers.
  unfoldable pub post_delete_selected : Text → Handler S
  unfolding ids_of
  post_delete_selected now f s =
      let from_system = is_set (codes "delete_system") f in
      let from_controllers = is_set (codes "delete_controllers") f in
      let users =
        if is_set (codes "all_users") f
        then s.users.users
        else users_of s.users.users (parse_int_list (value_of "user_ids" f)) in
      let gone = erase_many save_users (ids_of users) s.users in
      let after = record s { users = gone.1 } in
      let nodes = selected_nodes f s.controllers in
      let job = queue_user_delete now users nodes from_system s.deletions in
      if not from_system && not from_controllers
      then (refuse 400 Problem.no_target, s)
      else if is_empty users
      then (refuse 400 Problem.no_users_selected, s)
      else if not from_controllers
      then (answer 200 (removed_users gone.0), if ltb 0 gone.0 then refreshed after else after)
      else if is_empty nodes
      then (refuse 400 Problem.no_controllers_selected, s)
      else (answer 200 (queued job.0), record s { deletions = job.1 })

  -- A department that is renamed takes its users along.
  unfoldable pub post_save_department : Handler S
  post_save_department f s =
      let old = trim (value_of "old_name" f) in
      let name = trim (value_of "name" f) in
      let added = Departments.add save_departments name s.departments in
      let renamed = Departments.rename save_departments old name s.departments in
      let moved = rename_department save_users old name s.users in
      if is_empty name
      then (refuse 400 Problem.empty_name, s)
      else if is_empty old
      then (answer 200 (done added.0), record s { departments = added.1 })
      else if bytes_eq old name
      then (answer 200 (done true), s)
      else if renamed.0
      then (
        answer 200 (done true),
        refreshed (record s { departments = renamed.1; users = moved.1 }),
      )
      else (answer 200 (done false), record s { departments = renamed.1 })

  unfoldable pub post_delete_department : Handler S
  post_delete_department f s =
      let name = trim (value_of "name" f) in
      let r = Departments.erase save_departments name s.departments in
      if department_in_use save_users name s.users
      then (answer 200 (done false), s)
      else (answer 200 (done r.0), record s { departments = r.1 })

  unfoldable pub post_auto_create : Handler S
  post_auto_create f s =
      let flag' = if is_set (codes "auto_create_unknown") f then codes "true" else codes "false" in
      let c = set (codes "cards.auto_create_unknown") flag' s.config in
      let r = save fs c s.config_file in (ok_or_400 r.0, record s { config = c; config_file = r.1 })

  unfoldable pub post_clear_cards : Handler S
  post_clear_cards f s = (
    answer 200 (done true),
    record s { controller_cards = []; controller_store = save_cards [] s.controller_store },
  )

  unfoldable pub post_create_user : Handler S
  post_create_user f s =
      let card = trim (value_of "card" f) in
      let existing = is_user (by_card save_users card s.users) in
      let r = ensure_user_for_card save_users card_word card s.users in
      elim r.0 [
        | none ↦ (refuse 400 Problem.bad_card, record s { users = r.1 })
        | some u ↦
            (answer 200 (created_user u.id (not existing)), refreshed (record s { users = r.1 }))
      ]

  unfoldable pub create_users : List Text → List Text → Created V → Created V
  create_users seen [] c = c
  create_users seen (card ∷ cards) c = elim (any (bytes_eq card) seen) [
    | true ↦ create_users seen cards c
    | false ↦ elim (by_card save_users card c.users) [
      | some u ↦ create_users (card ∷ seen) cards (record c { already = suc c.already })
      | none ↦
          let r = ensure_user_for_card save_users card_word card c.users in
          create_users (card ∷ seen) cards (elim r.0 [
            | none ↦ record c { users = r.1; failed = suc c.failed }
            | some u ↦ record c { users = r.1; created = suc c.created; ids = c.ids ++ u.id ∷ [] }
          ])
    ]
  ]

  -- The order of the cards is that of the table here.
  unfoldable pub post_create_users : Handler S
  unfolding create_users
  post_create_users f s =
      let cards = map (λ (e : Text × ControllerCardRecord). e.1.card) s.controller_cards in
      let r =
        create_users [] cards
          (record { users = s.users; ids = []; created = 0; already = 0; failed = 0 }) in
      let after = record s { users = r.users } in
      (
        answer 200 (created_users r.created r.already r.failed r.ids),
        if ltb 0 r.created then refreshed after else after,
      )

  unfoldable pub post_assign_card : Handler S
  post_assign_card f s = elim (stoi (value_of "user_id" f)) [
    | none ↦ (refuse 400 Problem.card_not_assigned, s)
    | some id ↦
        let r = assign_card save_users id (value_of "card" f) s.users in
        let after = record s { users = r.1 } in
        if r.0
        then (answer 200 (done true), refreshed after)
        else (refuse 400 Problem.card_not_assigned, after)
  ]

  unfoldable pub post_delete_card : Handler S
  post_delete_card f s =
      let r = remove_card save_users (value_of "card" f) s.users in
      (answer 200 (done r.0), refreshed (record s { users = r.1 }))

  -- All controllers with the node get the name, also where it cannot be saved.
  unfoldable pub post_controller_name : Handler S
  post_controller_name f s = elim (stoi (value_of "node" f)) [
    | none ↦ (answer 200 (done false), s)
    | some node ↦
        let has_node = λ (c : Controller). eq_ℤ (pos c.node) node in
        let named =
          map (λ (c : Controller). if has_node c then record c { name = value_of "name" f } else c)
            s.controllers in
        let r = save_controllers named s.controller_store in
        if any has_node s.controllers
        then (answer 200 (done r.0), record s { controllers = named; controller_store = r.1 })
        else (answer 200 (done false), s)
  ]

  unfoldable pub post_reset_activity : Handler S
  post_reset_activity f s =
      let r = reset_site_activity store s.engine in
      (
        if r.0 then answer 200 (done true) else refuse 500 Problem.save_failed,
        record s { engine = r.1 },
      )
