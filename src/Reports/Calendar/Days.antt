-- ===== src/Reports/Calendar/Days.antt =====
-- src/reports/ReportManager.cpp: the loop over the days of a report.
use monk_skud_unex.Base.{ℕ, zero, suc, ◌≤◌, ◌<◌, ℤ, pos, length, ◌≡◌, arith}
use monk_skud_unex.Reports.Calendar.{Calendar, shift_days, day_range}

module _ (cal : Calendar) where
  pub length-day_range : (fuel : ℕ) (t to : ℤ) → length (day_range cal fuel t to) ≤ fuel
  unfolding day_range
  length-day_range zero t to = omega arith
  length-day_range (suc fuel) t to =
      ground (arith, length-day_range fuel (shift_days cal t (pos 1)) to)

  -- A range that ends before the bound is the whole range: a larger bound gives the same days.
  pub day_range_complete :
      (fuel more : ℕ) (t to : ℤ)
      → length (day_range cal fuel t to) < fuel
      → fuel ≤ more
      → day_range cal more t to ≡ day_range cal fuel t to
  unfolding day_range
  day_range_complete zero more t to h k = absurd (omega arith)
  day_range_complete (suc fuel) zero t to h k = absurd (omega arith)
  day_range_complete (suc fuel) (suc more) t to h k =
      ground (arith, day_range_complete fuel more (shift_days cal t (pos 1)) to)
