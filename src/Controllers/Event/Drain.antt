-- ===== src/Controllers/Event/Drain.antt =====
-- src/controllers/ControllerManager.cpp: `queueAttendanceRead` and `processAttendanceReadBatch`, the
-- reading of a controller's whole event queue on request.
use monk_skud_unex.Base.{
  ℕ, zero, suc, ◌%◌, List, [], ◌∷◌, ◌++◌, Bool, true, false, ◌&&◌, ◌||◌, not, Text, Option, none,
  some, ℤ, pos, eq_ℤ, ◌==◌, if◌then◌else◌, is_empty,
}
use monk_skud_unex.Base.Map.{lookup, adjust, nat_eq}
use monk_skud_unex.Types.{User, ControllerCardRecord, RawUnexEvent}
use monk_skud_unex.Types.Jobs.{ControllerAttendanceReadJob, JobState, Status}
use monk_skud_unex.Attendance.{Store}
use monk_skud_unex.Protocol.Link.{Port, tell, info, semantic}
use monk_skud_unex.Protocol.Event.{Oldest, silent, nothing, event, get_oldest_event}
use monk_skud_unex.Controllers.{add_job}
use monk_skud_unex.Controllers.Event.{Worker, Settings, Handled, handle_controller_event}

pub record PendingAttendanceRead : Type 0 where
  pub id : ℕ
  pub controller_node : ℕ

pub record ReadQueue : Type 0 where
  pub pending : List PendingAttendanceRead
  pub jobs : List (ℕ × ControllerAttendanceReadJob)
  pub next_id : ℕ

unfoldable pub queue_attendance_read : Text → ℕ → ReadQueue → ℕ × ReadQueue
queue_attendance_read now node q = (
  q.next_id,
  record {
    pending = q.pending ++ record { id = q.next_id; controller_node = node } ∷ [];
    jobs = add_job 20 q.next_id job q.jobs;
    next_id = suc q.next_id;
  },
)
  where
    job : ControllerAttendanceReadJob
    job = record {
      id = q.next_id;
      created_at = now;
      state = JobState.queued;
      controller_node = node;
      ok = false;
      status = Status.no_status;
      read = 0;
      stored = 0;
      access_events = 0;
      raw_events = 0;
      duplicates = 0;
      failed = 0;
      first_event_time = [];
      last_event_time = [];
    }

unfoldable pub end_job : Bool → Status → ControllerAttendanceReadJob → ControllerAttendanceReadJob
end_job ok status j = record j { state = JobState.completed; ok = ok; status = status }

unfoldable pub fail_silent : ControllerAttendanceReadJob → ControllerAttendanceReadJob
unfolding end_job
fail_silent j =
    let done = end_job false Status.communication_error j in record done { failed = suc j.failed }

unfoldable pub count_read : RawUnexEvent → ControllerAttendanceReadJob → ControllerAttendanceReadJob
count_read evt j =
    let is_access = eq_ℤ evt.event_code (pos 0x0b) in
    let timed = not (is_empty evt.event_timestamp) in
    record j {
      read = suc j.read;
      access_events = if is_access then suc j.access_events else j.access_events;
      raw_events = if is_access then j.raw_events else suc j.raw_events;
      first_event_time =
          if timed && is_empty j.first_event_time then evt.event_timestamp else j.first_event_time;
      last_event_time = if timed then evt.event_timestamp else j.last_event_time;
    }

-- The counters behind one event; a failure to store or to delete ends the job.
unfoldable pub count_handled : Handled → ControllerAttendanceReadJob → ControllerAttendanceReadJob
unfolding end_job
count_handled h j =
    let counted = record j {
      stored = if h.stored then suc j.stored else j.stored;
      failed = if h.stored then j.failed else suc j.failed;
      duplicates = if h.duplicate then suc j.duplicates else j.duplicates;
    } in
    if not h.stored
    then end_job false Status.storage_error counted
    else if not h.removed
    then end_job false Status.delete_failed counted
    else counted

-- `if(!queue.empty() && queue.front().id == id) pop_front()`.
unfoldable pub pop_job : ℕ → List PendingAttendanceRead → List PendingAttendanceRead
pop_job id [] = []
pop_job id (p ∷ rest) = if p.id == id then rest else p ∷ rest

abbrev has_job : ℕ → List (ℕ × ControllerAttendanceReadJob) → Bool
has_job id jobs = elim (lookup id jobs) [ none ↦ false | some j ↦ true ]

module _ {W V E C : Type 0} (save_cards : List (Text × ControllerCardRecord) → C → C)
    (save_users : List User → V → Bool × V) (store : Store E) (parse_time : Text → Option ℤ)
    (io : Port W) (running : W → Bool) (settings : Settings) where
  -- The job is changed, and leaves the queue where it has ended.
  abbrev change :
      ℕ → (ControllerAttendanceReadJob → ControllerAttendanceReadJob) → ReadQueue → ReadQueue
  change id f q = record q { jobs = adjust id f q.jobs }

  abbrev leave : ℕ → ReadQueue → ReadQueue
  leave id q = record q { pending = pop_job id q.pending }

  -- One event of the drain: `true` goes on with the next.
  unfoldable pub drain_event :
      PendingAttendanceRead
      → RawUnexEvent
      → ReadQueue × Worker W V E C
      → Bool × (ReadQueue × Worker W V E C)
  drain_event p evt (q, w) =
      let read = change p.id (count_read evt) q in
      let (h, after) =
        handle_controller_event save_cards save_users store parse_time io settings p.controller_node
          evt false w in
      let counted = change p.id (count_handled h) read in
      if has_job p.id q.jobs && (not h.stored || not h.removed)
      then (false, (leave p.id counted, after))
      else (true, (counted, after))

  unfoldable pub drain_step :
      PendingAttendanceRead
      → Oldest
      → ReadQueue × Worker W V E C
      → Bool × (ReadQueue × Worker W V E C)
  drain_step p silent (q, w) = (false, (leave p.id (change p.id fail_silent q), w))
  drain_step p nothing (q, w) = (
    false,
    (
      leave p.id (change p.id (end_job true Status.fifo_empty) q),
      record w { link = (tell info p.controller_node 0x25 semantic [] w.link).1 },
    ),
  )
  drain_step p (event evt) s = drain_event p evt s

  -- At most `batch` events in one turn of the worker.
  unfoldable pub drain :
      ℕ → PendingAttendanceRead → ReadQueue × Worker W V E C → ReadQueue × Worker W V E C
  drain zero p s = s
  drain (suc batch) p (q, w) = elim (running w.link.port) [
    | false ↦ (q, w)
    | true ↦
        let (got, link) = get_oldest_event io (p.controller_node % 256) w.link in
        let (going, s) = drain_step p got (q, record w { link = link }) in
        elim going [ true ↦ drain batch p s | false ↦ s ]
  ]

  -- The node that the drain owns in this turn, 0 where there is none.
  unfoldable pub process_attendance_read_batch :
      ReadQueue × Worker W V E C → ℕ × (ReadQueue × Worker W V E C)
  process_attendance_read_batch (q, w) = elim q.pending [
    | [] ↦ (0, (q, w))
    | p ∷ rest ↦ (
      p.controller_node,
      drain 20 p (change p.id (λ j. record j { state = JobState.running }) q, w),
    )
  ]
