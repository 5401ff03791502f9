-- ===== src/Reports/Schedule/Once.antt =====
-- src/reports/ReportManager.cpp: a scheduled report is tried once.
use monk_skud_unex.Base.{
  [], Text, Option, some, codes, bytes_eq, bytes_eq_iff, ◌≡◌, refl, ◌∙◌, Bool-cases, Option-cases,
  inl, inr,
}
use monk_skud_unex.Config.{Config, get, get-set, save}
use monk_skud_unex.Storage.Files.{FileSystem}
use monk_skud_unex.Reports.Calendar.{Calendar, Tm, scheduled_range}
use monk_skud_unex.Reports.Deliver.{Sent, sent, failed, SendError}
use monk_skud_unex.Reports.Schedule.{
  schedule, schedule_due, note_result, note_no_range, mark_attempt, run_scheduled, scheduler_turn,
}

abbrev attempt_key : Text
attempt_key = codes "reports.schedule.last_attempt_key"

module _ {W : Type 0} (fs : FileSystem W) (cal : Calendar)
    (send : Config → Text → Text → W → Sent × W) (error_text : Option SendError → Text) where
  mark_attempt-key :
      (key : Text) (c : Config)
      → get attempt_key [] (mark_attempt fs cal send error_text key c) ≡ key
  unfolding mark_attempt bytes_eq
  mark_attempt-key key c = simp get-set refl

  note_result-key :
      (key now : Text) (r : Sent) (c : Config)
      → get attempt_key [] (note_result fs cal send error_text key now r c) ≡ get attempt_key [] c
  unfolding note_result bytes_eq
  note_result-key key now (sent report) c = simp get-set refl
  note_result-key key now (failed e) c = simp get-set refl

  note_no_range-key :
      (c : Config)
      → get attempt_key [] (note_no_range fs cal send error_text c) ≡ get attempt_key [] c
  unfolding note_no_range bytes_eq
  note_no_range-key c = simp get-set refl

  run_scheduled-key :
      (key period today now : Text) (c : Config) (w : W)
      → get attempt_key [] (run_scheduled fs cal send error_text key period today now c w).0 ≡ key
  unfolding run_scheduled
  run_scheduled-key key period today now c w =
      let marked = mark_attempt fs cal send error_text key c in
      elim (Option-cases (scheduled_range cal today period)) [
        | inl e ↦ rw (e, run_scheduled) (note_no_range-key marked ∙ mark_attempt-key key c)
        | inr (range, e) ↦
            let w1 = (save fs marked w).1 in
            rw (e, run_scheduled)
              (note_result-key key now (send marked range.from range.to w1).0 marked
                ∙ mark_attempt-key key c)
      ]

  turn-tried :
      (tm : Tm) (today now key : Text) (c : Config) (w : W)
      → schedule_due cal (schedule c) tm ≡ some key
      → get attempt_key [] c ≡ key
      → scheduler_turn fs cal send error_text tm today now c w ≡ (c, w)
  unfolding scheduler_turn
  turn-tried tm today now key c w due e =
      rw (due, scheduler_turn, (bytes_eq_iff (get attempt_key [] c) key).1 e) refl

  turn-key :
      (tm : Tm) (today now key : Text) (c : Config) (w : W)
      → schedule_due cal (schedule c) tm ≡ some key
      → get attempt_key [] (scheduler_turn fs cal send error_text tm today now c w).0 ≡ key
  unfolding scheduler_turn
  turn-key tm today now key c w due = elim (Bool-cases (bytes_eq (get attempt_key [] c) key)) [
    | inl tried ↦
        rw (due, scheduler_turn, tried) ((bytes_eq_iff (get attempt_key [] c) key).0 tried)
    | inr fresh ↦
        rw (due, scheduler_turn, fresh) (run_scheduled-key key (schedule c).period today now c w)
  ]

  -- A turn at which a key is due, and a later turn at which the same key is due: whether or not the first
  -- one sent the report, the later one sends nothing and changes nothing.
  pub scheduler_turn-once :
      (tm later : Tm) (today then_today now then_now key : Text) (c : Config) (w : W)
      → let first = scheduler_turn fs cal send error_text tm today now c w in
        schedule_due cal (schedule c) tm ≡ some key
        → schedule_due cal (schedule first.0) later ≡ some key
        → scheduler_turn fs cal send error_text later then_today then_now first.0 first.1 ≡ first
  scheduler_turn-once tm later today then_today now then_now key c w due again =
      let first = scheduler_turn fs cal send error_text tm today now c w in
      turn-tried later then_today then_now key first.0 first.1 again
        (turn-key tm today now key c w due)
