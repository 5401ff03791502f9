-- ===== src/Controllers/Delete.antt =====
-- src/controllers/ControllerManager.cpp: `queueUserDelete` and `processOneUserDelete`.
pub mod Confirmed
use monk_skud_unex.Base.{
  ℕ, zero, suc, ◌+◌, ◌*◌, ◌%◌, List, [], ◌∷◌, ◌++◌, Bool, true, false, ◌&&◌, ◌||◌, not, Text,
  Option, none, some, ℤ, if◌then◌else◌, length,
}
use monk_skud_unex.Base.Map.{lookup, adjust, nat_eq}
use monk_skud_unex.Types.{User}
use monk_skud_unex.Types.Jobs.{
  ControllerUserDeleteJob, ControllerUserDeleteResult, JobState, Status,
}
use monk_skud_unex.Users.Ops.{UserManager, erase}
use monk_skud_unex.Attendance.{Engine, Store}
use monk_skud_unex.Attendance.Maintenance.{refresh_user_metadata}
use monk_skud_unex.Protocol.Link.{Port, Link, M}
use monk_skud_unex.Protocol.Upload.{UserWriteOutcome, delete_user}
use monk_skud_unex.Controllers.{add_job}

pub record PendingUserDelete : Type 0 where
  pub id : ℕ
  pub users : List User
  pub controller_nodes : List ℕ
  pub delete_from_system : Bool

pub record DeleteQueue : Type 0 where
  pub pending : List PendingUserDelete
  pub jobs : List (ℕ × ControllerUserDeleteJob)
  pub next_id : ℕ

unfoldable pub queue_user_delete : Text → List User → List ℕ → Bool → DeleteQueue → ℕ × DeleteQueue
queue_user_delete now users nodes from_system q = (
  q.next_id,
  record {
    pending = q.pending ++ request ∷ [];
    jobs = add_job 20 q.next_id job q.jobs;
    next_id = suc q.next_id;
  },
)
  where
    request : PendingUserDelete
    request = record {
      id = q.next_id;
      users = users;
      controller_nodes = nodes;
      delete_from_system = from_system;
    }

    job : ControllerUserDeleteJob
    job = record {
      id = q.next_id;
      created_at = now;
      state = JobState.queued;
      delete_from_system = from_system;
      total = length users * length nodes;
      completed_count = 0;
      success = 0;
      failed = 0;
      local_deleted = 0;
      local_retained = 0;
      results = [];
    }

-- The worker's state while a deletion runs: `V` is the world of the user store.
pub record Run (W V : Type 0) : Type 0 where
  pub link : Link W
  pub jobs : List (ℕ × ControllerUserDeleteJob)
  pub manager : UserManager V
  pub metadata_changed : Bool

unfoldable pub count_delete :
    ControllerUserDeleteResult → Bool → ControllerUserDeleteJob → ControllerUserDeleteJob
count_delete r ok job = record job {
  completed_count = suc job.completed_count;
  success = if ok then suc job.success else job.success;
  failed = if ok then job.failed else suc job.failed;
  results = job.results ++ r ∷ [];
}

unfoldable pub count_local : Bool → ControllerUserDeleteJob → ControllerUserDeleteJob
count_local erased job = record job {
  local_deleted = if erased then suc job.local_deleted else job.local_deleted;
  local_retained = if erased then job.local_retained else suc job.local_retained;
}

abbrev has_job : ℕ → List (ℕ × ControllerUserDeleteJob) → Bool
has_job id jobs = elim (lookup id jobs) [ none ↦ false | some j ↦ true ]

module _ {W V : Type 0} (io : Port W) (running : W → Bool) (save : List User → V → Bool × V)
    (id : ℕ) where
  abbrev pub on_job : (ControllerUserDeleteJob → ControllerUserDeleteJob) → Run W V → Run W V
  on_job f run = record run { jobs = adjust id f run.jobs }

  unfoldable pub delete_one : ℕ → User → Run W V → Bool × Run W V
  delete_one node u run =
      let (out, link) = delete_user io (node % 256) u run.link in
      (
        out.ok,
        on_job
            (count_delete (record { user_id = u.id; controller_node = node; status = out.status })
              out.ok)
            (record run { link = link }),
      )

  -- The second flag tells whether all deletions so far were confirmed; the first is `false` when the
  -- worker was told to stop.
  unfoldable pub delete_nodes : User → List ℕ → Bool → Run W V → (Bool × Bool) × Run W V
  delete_nodes u [] all_ok run = ((true, all_ok), run)
  delete_nodes u (node ∷ nodes) all_ok run = elim (running run.link.port) [
    | true ↦ (let (ok, after) = delete_one node u run in delete_nodes u nodes (ok && all_ok) after)
    | false ↦ ((false, all_ok), run)
  ]

  -- The local record goes only when every controller confirmed.
  unfoldable pub erase_local : User → Bool → Run W V → Run W V
  erase_local u all_ok run =
      let (erased, manager) =
        if all_ok then erase save u.id run.manager else (false, run.manager) in
      on_job (count_local erased) (record run {
        manager = manager;
        metadata_changed = run.metadata_changed || (erased && has_job id run.jobs);
      })

  unfoldable pub after_nodes : Bool → User → (Bool × Bool) × Run W V → Bool × Run W V
  after_nodes from_system u ((false, all_ok), run) = (false, run)
  after_nodes from_system u ((true, all_ok), run) =
      (true, if from_system then erase_local u all_ok run else run)

  unfoldable pub delete_users : Bool → List User → List ℕ → Run W V → Bool × Run W V
  delete_users from_system [] nodes run = (true, run)
  delete_users from_system (u ∷ us) nodes run =
      let (going, after) = after_nodes from_system u (delete_nodes u nodes true run) in
      elim going [ true ↦ delete_users from_system us nodes after | false ↦ (false, after) ]

-- The three stores of the worker together; `E` is the world of the attendance store.
pub record Stores (W V E : Type 0) : Type 0 where
  pub queue : DeleteQueue
  pub link : Link W
  pub manager : UserManager V
  pub engine : Engine E

module _ {W V E : Type 0} (io : Port W) (running : W → Bool) (save : List User → V → Bool × V)
    (store : Store E) where
  abbrev set_job_state : JobState → ControllerUserDeleteJob → ControllerUserDeleteJob
  set_job_state state job = record job { state = state }

  -- What follows the loop: the attendance tables are refreshed if a user went, and the job is done.
  unfoldable pub finish_delete : ℕ → Bool × Run W V → Stores W V E → Stores W V E
  finish_delete id (false, run) s = record s {
    queue = record (s.queue) { jobs = run.jobs };
    link = run.link;
    manager = run.manager;
  }
  finish_delete id (true, run) s = record {
    queue = record (s.queue) { jobs = adjust id (set_job_state JobState.completed) run.jobs };
    link = run.link;
    manager = run.manager;
    engine =
        if run.metadata_changed
        then refresh_user_metadata store run.manager.users s.engine
        else s.engine;
  }

  unfoldable pub process_one_user_delete : Stores W V E → Stores W V E
  unfolding finish_delete
  process_one_user_delete s = elim s.queue.pending [
    | [] ↦ s
    | p ∷ rest ↦
        let start : Run W V = record {
          link = s.link;
          jobs = adjust p.id (set_job_state JobState.running) s.queue.jobs;
          manager = s.manager;
          metadata_changed = false;
        } in
        finish_delete p.id
          (delete_users io running save p.id p.delete_from_system p.users p.controller_nodes start)
          (record s { queue = record (s.queue) { pending = rest } })
  ]
