-- ===== src/Reports/Extended/Totals.antt =====
-- src/reports/ReportManager.cpp: what the detailed report lists and counts.
use monk_skud_unex.Base.{◌+◌, List, [], ◌∷◌, ◌++◌, ◌&&◌, Text, ℤ, if◌then◌else◌, length, ◌≡◌}
use monk_skud_unex.Base.Map.{int_eq}
use monk_skud_unex.Types.{User, AttendanceEvent}
use monk_skud_unex.Storage.Daily.{counts}
use monk_skud_unex.Storage.Daily.Summary.{passages_of}
use monk_skud_unex.Reports.Calendar.{Calendar, format_date}
use monk_skud_unex.Reports.Build.{FileResult}
use monk_skud_unex.Reports.Extended.{Passages, is_selected, collect_days, arrivals_in}

-- The passages of the selected users.
unfoldable pub selected_passages : List User → List AttendanceEvent → List AttendanceEvent
selected_passages users [] = []
selected_passages users (e ∷ es) =
    let rest = selected_passages users es in
    if counts e && is_selected users e.user_id then e ∷ rest else rest

abbrev pub of_selected : List User → ℤ → List AttendanceEvent → List AttendanceEvent
of_selected users id es = if is_selected users id then passages_of id es else []

-- The numbers behind some passages, from those before.
abbrev Counted : Passages → Passages → List AttendanceEvent → Type 0
Counted p q l =
    (q.total_events ≡ p.total_events + length l)
    × (q.arrivals ≡ p.arrivals + arrivals_in l)
    × (q.arrivals + q.departures + p.total_events ≡ p.arrivals + p.departures + q.total_events)

module _ {W : Type 0} (cal : Calendar) (load_events : Text → W → List AttendanceEvent × W)
    (put_file : Text → Text → W → FileResult × W) (reports_dir : Text) where
  abbrev collected : List User → List ℤ → Passages → W → Passages
  collected users days p w = (collect_days cal load_events put_file reports_dir users days p w).0

  -- All events of the days, in the order in which they are loaded.
  unfoldable pub all_events : List ℤ → W → List AttendanceEvent
  all_events [] w = []
  all_events (t ∷ ts) w = let r = load_events (format_date cal t) w in r.0 ++ all_events ts r.1
