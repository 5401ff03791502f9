-- ===== src/Reports/Calendar.antt =====
-- src/reports/ReportManager.cpp: dates and ranges of days. The conversions of `<ctime>` and `<iomanip>`
-- are parameters.
pub mod Days
use monk_skud_unex.Base.{
  ℕ, zero, suc, ◌+◌, ◌%◌, List, [], ◌∷◌, Bool, true, false, not, Text, Option, none, some, ℤ, pos,
  negsuc, eq_ℤ, leb_ℤ, ◌-ℤ◌, ◌==◌, if◌then◌else◌, length, bytes_eq, codes,
}

-- The fields of `std::tm` that the code names; `year` and `month` are carried along.
pub record Tm : Type 0 where
  pub year : ℤ
  pub month : ℤ
  pub mday : ℤ
  pub wday : ℕ
  pub hour : ℕ
  pub minute : ℕ

pub record Calendar : Type 0 where
  -- `std::get_time` with `%Y-%m-%d`.
  pub get_time : Text → Option Tm
  -- -1 where it fails.
  pub mktime : Tm → ℤ
  pub localtime : ℤ → Tm
  -- `std::put_time` with `%Y-%m-%d`.
  pub put_date : Tm → Text

pub record ReportRange : Type 0 where
  pub from : Text
  pub to : Text

abbrev pub add_days : ℤ → ℤ → ℤ
add_days a (pos n) = ◌-ℤ◌ a (◌-ℤ◌ (pos 0) (pos n))
add_days a (negsuc n) = ◌-ℤ◌ a (pos (suc n))

module _ (cal : Calendar) where
  unfoldable pub noon : Tm → Tm
  noon tm = record tm { hour = 12; minute = 0 }

  -- The day, where the text is what the day is printed as.
  unfoldable pub parse_date : Text → Option (Tm × ℤ)
  unfolding noon
  parse_date text = if not (length text == 10) then none else elim (cal.get_time text) [
    | none ↦ none
    | some tm ↦
        let t = cal.mktime (noon tm) in
        let check = cal.localtime t in
        if eq_ℤ t (negsuc 0)
        then none
        else if bytes_eq (cal.put_date check) text
        then some (check, t)
        else none
  ]

  unfoldable pub format_date : ℤ → Text
  format_date t = cal.put_date (cal.localtime t)

  unfoldable pub shift_days : ℤ → ℤ → ℤ
  shift_days t n =
      let tm = cal.localtime t in cal.mktime (record tm { mday = add_days tm.mday n; hour = 12 })

  unfoldable pub today_range : Text → ReportRange
  today_range today = record { from = today; to = today }

  -- Sunday is 0.
  unfoldable pub monday_offset : Tm → ℕ
  monday_offset tm = (tm.wday + 6) % 7

  unfoldable pub current_week_range : Text → ReportRange
  unfolding monday_offset format_date shift_days
  current_week_range today = elim (parse_date today) [
    | none ↦ today_range today
    | some (tm, t) ↦ record {
      from = format_date (shift_days t (◌-ℤ◌ (pos 0) (pos (monday_offset tm))));
      to = format_date t;
    }
  ]

  unfoldable pub first_of_month : Tm → ℤ
  first_of_month tm = cal.mktime (record tm { mday = pos 1; hour = 12 })

  unfoldable pub current_month_range : Text → ReportRange
  unfolding first_of_month format_date
  current_month_range today = elim (parse_date today) [
    | none ↦ today_range today
    | some (tm, t) ↦ record { from = format_date (first_of_month tm); to = format_date t }
  ]

  -- `for (t = from; t <= to; t = shiftDays(t, 1))`, up to so many days.
  unfoldable pub day_range : ℕ → ℤ → ℤ → List ℤ
  unfolding shift_days
  day_range zero t to = []
  day_range (suc fuel) t to = elim (leb_ℤ t to) [
    | true ↦ t ∷ day_range fuel (shift_days t (pos 1)) to
    | false ↦ []
  ]

  -- The period of a scheduled report: the day, the week or the month before. No other period passes.
  unfoldable pub scheduled_range : Text → Text → Option ReportRange
  unfolding monday_offset first_of_month format_date shift_days
  scheduled_range today period = elim (parse_date today) [
    | none ↦ none
    | some (tm, t) ↦
        let yesterday = format_date (shift_days t (negsuc 0)) in
        let monday = shift_days t (◌-ℤ◌ (pos 0) (pos (monday_offset tm))) in
        let last = shift_days (first_of_month tm) (negsuc 0) in
        if bytes_eq period (codes "daily")
        then some (record { from = yesterday; to = yesterday })
        else if bytes_eq period (codes "weekly")
        then some (record {
          from = format_date (shift_days monday (negsuc 6));
          to = format_date (shift_days monday (negsuc 0));
        })
        else if bytes_eq period (codes "monthly")
        then some (record {
          from = format_date (first_of_month (cal.localtime last));
          to = format_date last;
        })
        else none
  ]
