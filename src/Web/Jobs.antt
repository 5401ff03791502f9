-- ===== src/Web/Jobs.antt =====
-- src/web/WebServer.cpp: the requests of `route` that queue a job for the controllers, and those that show
-- one. The local time of a request is an argument.
pub mod Forms
pub mod Full
use monk_skud_unex.Base.{
  ℕ, ◌+◌, ◌-◌, List, [], ◌∷◌, ◌++◌, Bool, true, false, ◌&&◌, ◌||◌, not, Text, Option, none, some, ℤ,
  pos, negsuc, eq_ℤ, leb_ℤ, within, ltb, leb, ◌==◌, if◌then◌else◌, is_empty, any, map, codes,
  bytes_eq,
}
use Prim.Native.String.{String}
use monk_skud_unex.Base.Map.{lookup, nat_eq}
use monk_skud_unex.Text.Number.{to_string}
use monk_skud_unex.Text.Int.{stoi, stoull}
use monk_skud_unex.Types.{User, new_user, Controller}
use monk_skud_unex.Users.Ops.{find_id}
use monk_skud_unex.Controllers.Trace.{protocol_trace, clear_protocol_trace}
use monk_skud_unex.Controllers.Upload.{queue_user_upload}
use monk_skud_unex.Controllers.Delete.{queue_user_delete}
use monk_skud_unex.Controllers.Action.{queue_disable_pass_any_cards, queue_set_node_id}
use monk_skud_unex.Controllers.Read.{queue_user_read}
use monk_skud_unex.Controllers.Event.Drain.{queue_attendance_read}
use monk_skud_unex.Controllers.Search.{queue_eeprom_search}
use monk_skud_unex.Web.Request.{Form, field, is_set, int_or, job_id, parse_int_list}
use monk_skud_unex.Web.Site.{
  Site, Handler, Res, Body, queued, view, done, View, Problem, answer, refuse, job_page,
  enabled_controller, enabled_nodes, known_nodes,
}
use monk_skud_unex.Web.Jobs.Forms.{
  value_of, selected_nodes, users_of, enabled_users, sync_card, owner_of, sync_problem, Addresses,
  range, local_addresses, range_of, addresses_of, Search, search_of, Checked, check_search,
  slot_user, slot_of, upload_users, trace_range, fine, bad, asked_for, wrong,
}

module _ {V E D C F : Type 0} (now : Text) where
  unfoldable pub post_read_attendance : Handler (Site V E D C F)
  post_read_attendance f s = elim (stoi (value_of "controller_node" f)) [
    | none ↦ (refuse 400 Problem.bad_node, s)
    | some node ↦ elim (enabled_controller node s.controllers) [
      | none ↦ (refuse 400 Problem.no_controller, s)
      | some c ↦
          let r = queue_attendance_read now c.node s.attendance_reads in
          (answer 200 (queued r.0), record s { attendance_reads = r.1 })
    ]
  ]

  -- Both nodes in one `try`, and both within 1..254.
  unfoldable pub post_set_node_id : Handler (Site V E D C F)
  post_set_node_id f s = elim (stoi (value_of "controller_node" f)) [
    | none ↦ (refuse 400 Problem.bad_node, s)
    | some node ↦ elim (stoi (value_of "new_controller_node" f)) [
      | none ↦ (refuse 400 Problem.bad_node, s)
      | some new ↦ elim (within 254 new) [
        | none ↦ (refuse 400 Problem.bad_node, s)
        | some n ↦
            let taken =
              any (λ (c : Controller). c.node == n && not (eq_ℤ (pos c.node) node)) s.controllers in
            if leb n 0 || not (leb_ℤ (pos 1) node && leb_ℤ node (pos 254))
            then (refuse 400 Problem.bad_node, s)
            else elim (enabled_controller node s.controllers) [
              | none ↦ (refuse 400 Problem.no_controller, s)
              | some c ↦
                  let r = queue_set_node_id now c.node n s.actions in
                  if taken
                  then (refuse 409 Problem.node_exists, s)
                  else (answer 200 (queued r.0), record s { actions = r.1 })
            ]
      ]
    ]
  ]

  -- A node that cannot be read is 0.
  unfoldable pub post_disable_pass_any : Handler (Site V E D C F)
  post_disable_pass_any f s =
      let node = int_or (pos 0) (value_of "controller_node" f) in
      elim (enabled_controller node s.controllers) [
        | none ↦ (refuse 400 Problem.no_controller, s)
        | some c ↦
            let r = queue_disable_pass_any_cards now c.node s.actions in
            (answer 200 (queued r.0), record s { actions = r.1 })
      ]

  unfoldable pub post_eeprom_search : Handler (Site V E D C F)
  unfolding search_of
  post_eeprom_search f s = elim (search_of f) [
    | none ↦ (refuse 400 Problem.bad_numbers, s)
    | some q ↦ elim (check_search q) [
      | bad p ↦ (refuse 400 p, s)
      | fine series number first last block ↦
          let nodes = selected_nodes f s.controllers in
          let compact = parse_int_list (value_of "compact_addresses" f) in
          let r = queue_eeprom_search now series number nodes first last block compact s.searches in
          if is_empty nodes
          then (refuse 400 Problem.no_controllers_selected, s)
          else if any (λ (a : ℕ). ltb a 1 || ltb 16383 a) compact
          then (refuse 400 Problem.bad_address, s)
          else (answer 200 (queued r.0), record s { searches = r.1 })
    ]
  ]

  unfoldable pub post_read_users : Handler (Site V E D C F)
  unfolding selected_nodes addresses_of
  post_read_users f s =
      let nodes = selected_nodes f s.controllers in
      let users = s.users.users in
      elim (is_empty nodes) [
        | true ↦ (refuse 400 Problem.no_controllers_selected, s)
        | false ↦ elim (addresses_of f users) [
          | wrong p ↦ (refuse 400 p, s)
          | asked_for addresses ↦
              let r =
                queue_user_read now users nodes addresses (is_set (codes "include_empty") f)
                  s.user_reads in
              if is_empty addresses
              then (refuse 400 Problem.no_addresses, s)
              else (answer 200 (queued r.0), record s { user_reads = r.1 })
        ]
      ]

  unfoldable pub post_invalidate_slot : Handler (Site V E D C F)
  unfolding slot_user slot_of
  post_invalidate_slot f s =
      let (node, address) = slot_of f in
      elim (within 1023 address) [
        | none ↦ (refuse 400 Problem.bad_address, s)
        | some a ↦ elim (enabled_controller node s.controllers) [
          | none ↦ (refuse 400 Problem.no_controller, s)
          | some c ↦
              let r = queue_user_delete now (slot_user a ∷ []) (c.node ∷ []) false s.deletions in
              (answer 200 (queued r.0), record s { deletions = r.1 })
        ]
      ]

  unfoldable pub post_upload_users : Handler (Site V E D C F)
  unfolding upload_users selected_nodes
  post_upload_users f s =
      let chosen = upload_users f s.users.users in
      let nodes = selected_nodes f s.controllers in
      elim chosen.1 [
        | some p ↦ (refuse 400 p, s)
        | none ↦ elim (is_empty chosen.0) [
          | true ↦ (refuse 400 Problem.no_users_selected, s)
          | false ↦ elim (is_empty nodes) [
            | true ↦ (refuse 400 Problem.no_controllers_selected, s)
            | false ↦
                let r =
                  queue_user_upload now chosen.0 nodes (is_set (codes "all_users") f) s.uploads in
                (answer 200 (queued r.0), record s { uploads = r.1 })
          ]
        ]
      ]

  -- `refreshControllerList` runs at the next turn of the worker.
  unfoldable pub post_refresh : Handler (Site V E D C F)
  post_refresh f s = (answer 200 (done true), record s { refresh_requested = true })

  unfoldable pub post_clear_trace : Handler (Site V E D C F)
  post_clear_trace f s = (answer 200 (done true), record s { ring = clear_protocol_trace s.ring })

  unfoldable pub get_trace : Handler (Site V E D C F)
  unfolding trace_range
  get_trace f s =
      let range' = trace_range f in
      (answer 200 (view (View.trace_page (protocol_trace range'.0 range'.1 s.ring))), s)

  unfoldable pub get_upload_job : Handler (Site V E D C F)
  get_upload_job f s = (job_page View.upload_job (lookup (job_id f) s.uploads.jobs), s)

  unfoldable pub get_action_job : Handler (Site V E D C F)
  get_action_job f s = (job_page View.action_job (lookup (job_id f) s.actions.jobs), s)

  unfoldable pub get_attendance_job : Handler (Site V E D C F)
  get_attendance_job f s =
      (job_page View.attendance_job (lookup (job_id f) s.attendance_reads.jobs), s)

  unfoldable pub get_delete_job : Handler (Site V E D C F)
  get_delete_job f s = (job_page View.delete_job (lookup (job_id f) s.deletions.jobs), s)

  unfoldable pub get_read_job : Handler (Site V E D C F)
  get_read_job f s = (job_page View.read_job (lookup (job_id f) s.user_reads.jobs), s)

  unfoldable pub get_search_job : Handler (Site V E D C F)
  get_search_job f s = (job_page View.search_job (lookup (job_id f) s.searches.jobs), s)
