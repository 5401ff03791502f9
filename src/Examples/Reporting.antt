-- ===== src/Examples/Reporting.antt =====
-- A report, its messages and its schedule on a calendar of one month.
use monk_skud_unex.Base.{
  ℕ, suc, ◌≤◌, List, [], ◌∷◌, ◌++◌, Bool, true, false, Text, Option, none, some, ℤ, pos, negsuc,
  codes, length, is_empty, ◌≡◌, refl, sym, ap, ◌∙◌, arith, ◌+◌, ◌-◌, get_or, not,
}
use monk_skud_unex.Types.{AttendanceEvent, DailyAttendance, present}
use monk_skud_unex.Config.{Config, get}
use monk_skud_unex.Storage.Daily.{new_day}
use monk_skud_unex.Reports.Calendar.{Calendar, Tm}
use monk_skud_unex.Reports.Build.{
  AttendanceReport, Built, built, refused, FileResult, stored, Period, period, period_of, build,
}
use monk_skud_unex.Reports.Build.Counts.{build-counts, all_rows, distinct, has, names}
use monk_skud_unex.Reports.Telegram.{chunk_rows}
use monk_skud_unex.Reports.Telegram.Chunks.{Grouped, chunk_rows-Grouped}
use monk_skud_unex.Reports.Deliver.{Sent, failed, SendError, no_document}
use monk_skud_unex.Reports.Schedule.{schedule, schedule_due, scheduler_turn, save_schedule, saved}
use monk_skud_unex.Reports.Schedule.Once.{scheduler_turn-once}
use monk_skud_unex.Examples.Wire.{ivanov}
use monk_skud_unex.Examples.Disk.{Files, memory_files, arrival_event, departure_event}

-- Times are days, and a day is printed by its last digit.
abbrev day_tm : ℤ → Tm
day_tm t = record { year = pos 2026; month = pos 5; mday = t; wday = 1; hour = 19; minute = 0 }

abbrev last_digit : ℤ → Text
last_digit (pos n) = codes "2026-05-0" ++ (48 + n) ∷ []
last_digit (negsuc n) = []

abbrev digit_day : Text → Option Tm
digit_day s = some (day_tm (pos (get_or s 9 48 - 48)))

abbrev one_month : Calendar
one_month = record {
  get_time = digit_day;
  mktime = λ tm. tm.mday;
  localtime = day_tm;
  put_date = λ tm. last_digit tm.mday;
}

abbrev rows_of_day : Text → ℕ → List DailyAttendance × ℕ
rows_of_day date n = (record new_day { user_id = pos 7; presence = present } ∷ [], suc n)

abbrev file_written : Text → Text → ℕ → FileResult × ℕ
file_written path text n = (stored, n)

abbrev report_of : Built → AttendanceReport
report_of (built r) = r
report_of (refused e) = record {
  from = [];
  to = [];
  filename = [];
  path = [];
  content = [];
  days = 0;
  rows = 0;
  users = 0;
}

abbrev report_built : Built
report_built =
    (build one_month rows_of_day file_written [] (ivanov ∷ []) (codes "now") (codes "2026-05-03")
      (codes "2026-05-04") 0).0

is_built : report_built ≡ built (report_of report_built)
unfolding build monk_skud_unex.Reports.Calendar.parse_date monk_skud_unex.Base.bytes_eq
    monk_skud_unex.Reports.Calendar.day_range monk_skud_unex.Reports.Build.finish_report
is_built = refl

build-counts_example :
    (days : List ℤ) × (period_of one_month (codes "2026-05-03") (codes "2026-05-04") ≡ period days)
    × ((report_of report_built).days ≡ length days)
    × ((report_of report_built).days ≤ 3660)
    × ((report_of report_built).rows
        ≡ length (all_rows one_month rows_of_day file_written [] days 0))
    × ((report_of report_built).users ≤ (report_of report_built).rows)
    × ((ids : List ℤ) × ((report_of report_built).users ≡ length ids)
        × (distinct ids ≡ true)
        × ((id : ℤ)
            → has id ids ≡ names id (all_rows one_month rows_of_day file_written [] days 0)))
build-counts_example =
    build-counts one_month rows_of_day file_written [] (ivanov ∷ []) (codes "now")
      (codes "2026-05-03") (codes "2026-05-04") 0 (report_of report_built) is_built

chunk_rows-Grouped_example :
    Grouped
      (codes "<pre>")
      (chunk_rows (codes "<pre>") (codes "<pre>") (codes "a" ∷ codes "b" ∷ []))
      (codes "a" ∷ codes "b" ∷ [])
chunk_rows-Grouped_example =
    chunk_rows-Grouped (codes "<pre>") (codes "a") (codes "b" ∷ []) (refl, (refl, record {}))

-- A network that fails every other time.
abbrev shaky : Text → Bool → Bool × Bool
shaky m up = (up, not up)

abbrev events_of_day : Text → ℕ → List AttendanceEvent × ℕ
events_of_day date n = (arrival_event ∷ departure_event ∷ [], suc n)

abbrev no_settings : Config
no_settings = record { path = codes "system.conf"; kv = [] }

schedule_accepted :
    (save_schedule memory_files true
      (codes "weekly")
      (codes "18:00")
      (pos 1)
      (pos 28)
      no_settings
      []).0
    ≡ saved
unfolding save_schedule monk_skud_unex.Base.bytes_eq monk_skud_unex.Reports.Words.valid_time_of_day
    monk_skud_unex.Text.Int.stoi monk_skud_unex.Text.Int.signed_int monk_skud_unex.Text.drop_spaces
    monk_skud_unex.Text.is_space monk_skud_unex.Text.Int.digits_int
    monk_skud_unex.Text.Int.leading_digits monk_skud_unex.Text.Int.int_of
    monk_skud_unex.Text.Number.value monk_skud_unex.Config.save
    monk_skud_unex.Storage.Files.replace_file monk_skud_unex.Storage.Files.rename_over
    monk_skud_unex.Base.Map.lookup monk_skud_unex.Base.Map.adjust monk_skud_unex.Base.Map.insert
schedule_accepted = refl

abbrev daily_settings : Config
daily_settings = record {
  path = codes "system.conf";
  kv = (codes "reports.schedule.enabled", codes "true") ∷ [];
}

-- Nothing gets through.
abbrev no_network : Config → Text → Text → Files → Sent × Files
no_network c from to w = (failed no_document, w)

abbrev no_text : Option SendError → Text
no_text e = []

abbrev due_key : Text
due_key = codes "daily|2026-05-03|18:00"

abbrev first_turn : Config × Files
first_turn =
    scheduler_turn memory_files one_month no_network no_text (day_tm (pos 3)) (codes "2026-05-03")
      (codes "now") daily_settings []

due_first : schedule_due one_month (schedule daily_settings) (day_tm (pos 3)) ≡ some due_key
unfolding schedule_due monk_skud_unex.Reports.Words.valid_time_of_day schedule get
    monk_skud_unex.Base.Map.lookup monk_skud_unex.Base.bytes_eq monk_skud_unex.Text.Int.stoi
    monk_skud_unex.Text.Int.signed_int monk_skud_unex.Text.drop_spaces monk_skud_unex.Text.is_space
    monk_skud_unex.Text.Int.digits_int monk_skud_unex.Text.Int.leading_digits
    monk_skud_unex.Text.Int.int_of monk_skud_unex.Text.Number.value monk_skud_unex.Config.get_bool
due_first = refl

due_again : schedule_due one_month (schedule first_turn.0) (day_tm (pos 3)) ≡ some due_key
unfolding schedule_due monk_skud_unex.Reports.Words.valid_time_of_day schedule get
    monk_skud_unex.Base.Map.lookup monk_skud_unex.Base.bytes_eq monk_skud_unex.Text.Int.stoi
    monk_skud_unex.Text.Int.signed_int monk_skud_unex.Text.drop_spaces monk_skud_unex.Text.is_space
    monk_skud_unex.Text.Int.digits_int monk_skud_unex.Text.Int.leading_digits
    monk_skud_unex.Text.Int.int_of monk_skud_unex.Text.Number.value monk_skud_unex.Config.get_bool
    scheduler_turn monk_skud_unex.Reports.Schedule.run_scheduled
    monk_skud_unex.Reports.Schedule.mark_attempt monk_skud_unex.Reports.Schedule.note_result
    monk_skud_unex.Config.set monk_skud_unex.Base.Map.insert
    monk_skud_unex.Reports.Calendar.scheduled_range monk_skud_unex.Reports.Calendar.parse_date
due_again = refl

scheduler_turn-once_example :
    scheduler_turn memory_files one_month no_network no_text
      (day_tm (pos 3))
      (codes "2026-05-03")
      (codes "later")
      first_turn.0
      first_turn.1
    ≡ first_turn
scheduler_turn-once_example =
    scheduler_turn-once memory_files one_month no_network no_text (day_tm (pos 3)) (day_tm (pos 3))
      (codes "2026-05-03") (codes "2026-05-03") (codes "now") (codes "later") due_key daily_settings
      [] due_first due_again
