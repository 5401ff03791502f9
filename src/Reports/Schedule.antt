-- ===== src/Reports/Schedule.antt =====
-- src/reports/ReportManager.cpp: the schedule in the settings, and one turn of the scheduler. Its pause of
-- twenty seconds between two turns is left out.
pub mod Once
pub mod RoundTrip
use monk_skud_unex.Base.{
  ℕ, ◌+◌, ◌*◌, min, max, List, [], ◌∷◌, ◌++◌, Bool, true, false, ◌&&◌, ◌||◌, not, Text, Option,
  none, some, ℤ, pos, negsuc, eq_ℤ, leb_ℤ, ltb, ◌==◌, if◌then◌else◌, codes, utf8, bytes_eq,
}
use monk_skud_unex.Text.Number.{to_string}
use monk_skud_unex.Text.Int.{int_text}
use monk_skud_unex.Config.{Config, get, get_int, get_bool, set, save}
use monk_skud_unex.Storage.Files.{FileSystem}
use monk_skud_unex.Reports.Words.{valid_time_of_day}
use monk_skud_unex.Reports.Calendar.{Calendar, Tm, ReportRange, scheduled_range}
use monk_skud_unex.Reports.Build.{AttendanceReport}
use monk_skud_unex.Reports.Deliver.{Sent, sent, failed, SendError}

pub record ReportSchedule : Type 0 where
  pub enabled : Bool
  pub period : Text
  pub time : Text
  pub weekday : ℕ
  pub month_day : ℕ
  pub last_sent_at : Text
  pub last_period : Text
  pub last_status : Text
  pub last_error : Text

unfoldable pub is_period : Text → Bool
is_period p =
    bytes_eq p (codes "daily") || bytes_eq p (codes "weekly") || bytes_eq p (codes "monthly")

unfoldable pub is_time : Text → Bool
is_time s = elim (valid_time_of_day s) [ none ↦ false | some t ↦ true ]

-- `std::clamp`.
unfoldable pub clamp : ℕ → ℕ → ℤ → ℕ
clamp low high (pos n) = max low (min n high)
clamp low high (negsuc n) = low

unfoldable pub schedule : Config → ReportSchedule
unfolding is_period is_time clamp
schedule c =
    let p = get (codes "reports.schedule.period") (codes "daily") c in
    let t = get (codes "reports.schedule.time") (codes "18:00") c in
    record {
      enabled = get_bool (codes "reports.schedule.enabled") false c;
      period = if is_period p then p else codes "daily";
      time = if is_time t then t else codes "18:00";
      weekday = clamp 1 7 (get_int (codes "reports.schedule.weekday") (pos 1) c);
      month_day = clamp 1 28 (get_int (codes "reports.schedule.month_day") (pos 1) c);
      last_sent_at = get (codes "reports.schedule.last_sent_at") [] c;
      last_period = get (codes "reports.schedule.last_period") [] c;
      last_status = get (codes "reports.schedule.last_status") [] c;
      last_error = get (codes "reports.schedule.last_error") [] c;
    }

abbrev pub outside : ℤ → ℤ → ℤ → Bool
outside low high z = not (leb_ℤ low z) || not (leb_ℤ z high)

pub data SaveResult : Type 0 where
  saved unknown_period bad_time bad_weekday bad_month_day not_saved : SaveResult

unfoldable pub write_schedule : Bool → Text → Text → ℤ → ℤ → Config → Config
unfolding set
write_schedule enabled period time weekday month_day c =
    set (codes "reports.schedule.last_sent_key") [] (
      set (codes "reports.schedule.last_attempt_key") [] (
        set (codes "reports.schedule.month_day") (int_text month_day) (
          set (codes "reports.schedule.weekday") (int_text weekday) (
            set (codes "reports.schedule.time") time (
              set (codes "reports.schedule.period") period (
                set (codes "reports.schedule.enabled")
                  (if enabled then codes "true" else codes "false") c))))))

-- What a run is for.
unfoldable pub trigger_key : Text → Text → Text → Text
trigger_key period date time = period ++ (b'|' ∷ (date ++ (b'|' ∷ time)))

module _ (cal : Calendar) where
  -- The key of the run that is due at this time of a day, if any.
  unfoldable pub schedule_due : ReportSchedule → Tm → Option Text
  unfolding trigger_key
  schedule_due s tm = elim (valid_time_of_day s.time) [
    | none ↦ none
    | some (hour, minute) ↦
        let weekday = if tm.wday == 0 then 7 else tm.wday in
        if not s.enabled
        then none
        else if ltb (tm.hour * 60 + tm.minute) (hour * 60 + minute)
        then none
        else if bytes_eq s.period (codes "weekly") && not (weekday == s.weekday)
        then none
        else if bytes_eq s.period (codes "monthly") && not (eq_ℤ tm.mday (pos s.month_day))
        then none
        else some (trigger_key s.period (cal.put_date tm) s.time)
  ]

module _ {W : Type 0} (fs : FileSystem W) where
  unfoldable pub save_schedule : Bool → Text → Text → ℤ → ℤ → Config → W → SaveResult × Config × W
  unfolding is_period is_time write_schedule
  save_schedule enabled period time weekday month_day c w =
      let next = write_schedule enabled period time weekday month_day c in
      let r = save fs next w in
      if not (is_period period)
      then (unknown_period, c, w)
      else if not (is_time time)
      then (bad_time, c, w)
      else if outside (pos 1) (pos 7) weekday
      then (bad_weekday, c, w)
      else if outside (pos 1) (pos 28) month_day
      then (bad_month_day, c, w)
      else (if r.0 then saved else not_saved, next, r.1)

  module _ (cal : Calendar) (send : Config → Text → Text → W → Sent × W)
      (error_text : Option SendError → Text) where
    -- The settings behind a run.
    unfoldable pub note_result : Text → Text → Sent → Config → Config
    unfolding set
    note_result key now (sent report) c = set (codes "reports.schedule.last_error") [] (
        set (codes "reports.schedule.last_status") (codes "ok") (
          set (codes "reports.schedule.last_period") (report.from ++ (utf8 " — " ++ report.to)) (
            set (codes "reports.schedule.last_sent_at") now
              (set (codes "reports.schedule.last_sent_key") key c))))
    note_result key now (failed e) c =
        set (codes "reports.schedule.last_error") (error_text (some e))
          (set (codes "reports.schedule.last_status") (codes "error") c)

    unfoldable pub note_no_range : Config → Config
    unfolding set
    note_no_range c =
        set (codes "reports.schedule.last_error") (error_text none)
          (set (codes "reports.schedule.last_status") (codes "error") c)

    unfoldable pub mark_attempt : Text → Config → Config
    unfolding set
    mark_attempt key c = set (codes "reports.schedule.last_error") [] (
        set (codes "reports.schedule.last_status") (codes "running")
          (set (codes "reports.schedule.last_attempt_key") key c))

    -- The run of a key that was not tried. The results of both saves are dropped.
    unfoldable pub run_scheduled : Text → Text → Text → Text → Config → W → Config × W
    unfolding note_result note_no_range mark_attempt
    run_scheduled key period today now c w =
        let marked = mark_attempt key c in
        let w1 = (save fs marked w).1 in
        elim (scheduled_range cal today period) [
          | none ↦ let next = note_no_range marked in (next, (save fs next w1).1)
          | some range ↦
              let r = send marked range.from range.to w1 in
              let next = note_result key now r.0 marked in (next, (save fs next r.1).1)
        ]

    unfoldable pub scheduler_turn : Tm → Text → Text → Config → W → Config × W
    unfolding schedule schedule_due run_scheduled
    scheduler_turn tm today now c w = elim (schedule_due cal (schedule c) tm) [
      | none ↦ (c, w)
      | some key ↦
          if bytes_eq (get (codes "reports.schedule.last_attempt_key") [] c) key
          then (c, w)
          else run_scheduled key (schedule c).period today now c w
    ]
