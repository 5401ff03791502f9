-- ===== src/Controllers/Upload.antt =====
-- src/controllers/ControllerManager.cpp: `queueUserUpload` and `processOneUserUpload`. The flag
-- `running_` belongs to other threads: it is read from the outside world before each step.
pub mod Progress
pub mod Completion
use monk_skud_unex.Base.{
  ℕ, zero, suc, ◌+◌, ◌-◌, ◌*◌, ◌%◌, List, [], ◌∷◌, ◌++◌, Bool, true, false, ◌&&◌, not, Text, Option,
  none, some, ℤ, pos, eq_ℤ, ◌==◌, if◌then◌else◌, length, any, leb_ℤ, is_empty, within,
}
use monk_skud_unex.Base.Map.{lookup, adjust, nat_eq}
use monk_skud_unex.Types.{User}
use monk_skud_unex.Types.Jobs.{
  ControllerUserUploadJob, ControllerUserUploadResult, JobState, Status, skipped,
}
use monk_skud_unex.Protocol.Link.{Port, Link, M}
use monk_skud_unex.Protocol.Upload.{UserWriteOutcome, write_user, clear_user_slot}
use monk_skud_unex.Protocol.Eeprom.{disable_pass_any_cards}
use monk_skud_unex.Controllers.{add_job}

pub record PendingUserUpload : Type 0 where
  pub id : ℕ
  pub users : List User
  pub controller_nodes : List ℕ
  pub full_sync : Bool

pub record UploadQueue : Type 0 where
  pub pending : List PendingUserUpload
  pub jobs : List (ℕ × ControllerUserUploadJob)
  pub next_id : ℕ

abbrev pub new_upload_job : ℕ → Text → Bool → ℕ → ControllerUserUploadJob
new_upload_job id created full total = record {
  id = id;
  created_at = created;
  state = JobState.queued;
  total = total;
  completed_count = 0;
  success = 0;
  failed = 0;
  skipped_count = 0;
  full_sync = full;
  results = [];
}

-- `userWriteSupported()` is constantly true, so the job is never blocked here.
unfoldable pub queue_user_upload : Text → List User → List ℕ → Bool → UploadQueue → ℕ × UploadQueue
queue_user_upload now users nodes full q = (
  q.next_id,
  record {
    pending = q.pending ++ request ∷ [];
    jobs = add_job 20 q.next_id (new_upload_job q.next_id now full total) q.jobs;
    next_id = suc q.next_id;
  },
)
  where
    request : PendingUserUpload
    request = record { id = q.next_id; users = users; controller_nodes = nodes; full_sync = full }

    total : ℕ
    total = if full then 1025 * length nodes else length users * length nodes

-- `append_result`: one step is done, and counts once.
unfoldable pub count_result :
    ControllerUserUploadResult
    → Bool
    → Bool
    → Bool
    → ControllerUserUploadJob
    → ControllerUserUploadJob
count_result r ok is_skipped keep job = record job {
  completed_count = suc job.completed_count;
  success = if ok && not is_skipped then suc job.success else job.success;
  skipped_count = if is_skipped then suc job.skipped_count else job.skipped_count;
  failed = if not ok && not is_skipped then suc job.failed else job.failed;
  results = if keep then job.results ++ r ∷ [] else job.results;
}

-- The addresses of a controller that could not be reconciled.
unfoldable pub skip_addresses : ControllerUserUploadJob → ControllerUserUploadJob
skip_addresses job = record job {
  completed_count = job.completed_count + 1024;
  skipped_count = job.skipped_count + 1024;
}

abbrev pub set_state : JobState → ControllerUserUploadJob → ControllerUserUploadJob
set_state state job = record job { state = state }

-- The jobs and the link while an upload runs.
pub record Run (W : Type 0) : Type 0 where
  pub link : Link W
  pub jobs : List (ℕ × ControllerUserUploadJob)

-- `out.status=="skipped"`.
unfoldable pub is_skipped : Status → Bool
is_skipped skipped = true
is_skipped _ = false

-- `desired.count(address)`.
unfoldable pub wanted : List User → ℕ → Bool
wanted users address = any (λ (u : User). eq_ℤ u.controller_port (pos address)) users

-- A part behind a part: it is left out where the worker was told to stop.
unfoldable pub next : {W : Type 0} → Bool × Run W → (Run W → Bool × Run W) → Bool × Run W
next (true, run) f = f run
next (false, run) f = (false, run)

module _ {W : Type 0} (io : Port W) (running : W → Bool) (id : ℕ) where
  abbrev pub on_job : (ControllerUserUploadJob → ControllerUserUploadJob) → Run W → Run W
  on_job f run = record run { jobs = adjust id f run.jobs }

  abbrev pub is_running : Run W → Bool
  is_running run = running run.link.port

  abbrev result : ℤ → ℕ → Status → ControllerUserUploadResult
  result user node status = record { user_id = user; controller_node = node; status = status }

  unfoldable pub clear_one : ℕ → ℕ → Run W → Run W
  clear_one node address run =
      let (out, link) = clear_user_slot io (node % 256) (pos address) run.link in
      on_job (count_result (result (pos 0) node out.status) out.ok false (not out.ok))
        (record run { link = link })

  unfoldable pub write_one : ℕ → User → Run W → Run W
  unfolding is_skipped
  write_one node u run =
      let (out, link) = write_user io (node % 256) u run.link in
      on_job (count_result (result u.id node out.status) out.ok (is_skipped out.status) true)
        (record run { link = link })

  -- Phase 1: `left` addresses from `address` on that no user wants. `false` means that the worker was
  -- told to stop.
  unfoldable pub clear_absent : List User → ℕ → ℕ → ℕ → Run W → Bool × Run W
  clear_absent users node zero address run = (true, run)
  clear_absent users node (suc left) address run = elim (wanted users address) [
    | true ↦ clear_absent users node left (suc address) run
    | false ↦ elim (is_running run) [
      | true ↦ clear_absent users node left (suc address) (clear_one node address run)
      | false ↦ (false, run)
    ]
  ]

  -- Phase 2, and the whole of an upload to one controller.
  unfoldable pub write_all_users : List User → ℕ → Run W → Bool × Run W
  write_all_users [] node run = (true, run)
  write_all_users (u ∷ us) node run = elim (is_running run) [
    | true ↦ write_all_users us node (write_one node u run)
    | false ↦ (false, run)
  ]

  -- The absent slots and the users, or none of them where the global option could not be set.
  unfoldable pub reconcile : List User → ℕ → Bool → Run W → Bool × Run W
  reconcile users node true run =
      next (clear_absent users node 1024 0 run) (write_all_users users node)
  reconcile users node false run = (true, on_job skip_addresses run)

  -- One controller of a full synchronisation, the global option first.
  unfoldable pub sync_controller : List User → ℕ → Run W → Bool × Run W
  sync_controller users node run =
      let (out, link) = disable_pass_any_cards io (node % 256) run.link in
      reconcile users node out.ok (
        on_job (count_result (result (pos 0) node out.status) out.ok false true)
          (record run { link = link }))

  unfoldable pub sync_all : List User → List ℕ → Run W → Bool × Run W
  sync_all users [] run = (true, run)
  sync_all users (node ∷ nodes) run = elim (is_running run) [
    | true ↦ next (sync_controller users node run) (sync_all users nodes)
    | false ↦ (false, run)
  ]

  -- The selective upload: each user to each controller.
  unfoldable pub write_nodes : User → List ℕ → Run W → Bool × Run W
  write_nodes u [] run = (true, run)
  write_nodes u (node ∷ nodes) run = elim (is_running run) [
    | true ↦ write_nodes u nodes (write_one node u run)
    | false ↦ (false, run)
  ]

  unfoldable pub write_selected : List User → List ℕ → Run W → Bool × Run W
  write_selected [] nodes run = (true, run)
  write_selected (u ∷ us) nodes run = next (write_nodes u nodes run) (write_selected us nodes)

  -- An interrupted upload leaves the job running.
  unfoldable pub finish : Bool × Run W → Run W
  finish (true, run) = on_job (set_state JobState.completed) run
  finish (false, run) = run

  unfoldable pub run_upload : PendingUserUpload → Run W → Run W
  unfolding finish
  run_upload p run =
      let started = on_job (set_state JobState.running) run in
      finish (
        if p.full_sync
        then sync_all p.users p.controller_nodes started
        else write_selected p.users p.controller_nodes started)

module _ {W : Type 0} (io : Port W) (running : W → Bool) where
  unfoldable pub process_one_user_upload : UploadQueue × Link W → UploadQueue × Link W
  process_one_user_upload (q, link) = elim q.pending [
    | [] ↦ (q, link)
    | p ∷ rest ↦
        let done = run_upload io running p.id p (record { link = link; jobs = q.jobs }) in
        (record q { pending = rest; jobs = done.jobs }, done.link)
  ]
