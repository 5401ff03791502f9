-- ===== src/Reports/Build.antt =====
-- src/reports/ReportManager.cpp: `build`, the text report with a line per employee and day. The clock, the
-- calendar, the store and the file are parameters.
pub mod Counts
use monk_skud_unex.Base.{
  ℕ, zero, suc, ◌+◌, List, [], ◌∷◌, ◌++◌, Bool, true, false, not, Text, Option, none, some, ℤ, eq_ℤ,
  leb_ℤ, ltb, if◌then◌else◌, length, is_empty, codes, utf8, any,
}
use monk_skud_unex.Text.Number.{to_string}
use monk_skud_unex.Types.{User, PresenceState, absent, present, DailyAttendance}
use monk_skud_unex.Users.Ops.{find_id}
use monk_skud_unex.Reports.Words.{dash, or_dash, time_only, display_card, user_name, numbered_user}
use monk_skud_unex.Reports.Calendar.{Calendar, parse_date, format_date, day_range}

pub record AttendanceReport : Type 0 where
  pub from : Text
  pub to : Text
  pub filename : Text
  pub path : Text
  pub content : Text
  pub days : ℕ
  pub rows : ℕ
  pub users : ℕ

-- The errors, whose texts are left out.
pub data ReportError : Type 0 where
  bad_date from_after_to too_long no_user not_created not_written : ReportError
  unknown_user : ℤ → ReportError

pub data Built : Type 0 where
  built : AttendanceReport → Built
  refused : ReportError → Built

-- What becomes of a file that is written anew.
pub data FileResult : Type 0 where
  stored cannot_open cannot_write : FileResult

-- `s` behind `n` copies of a byte.
abbrev pub rule_line : ℕ → ℕ → Text
rule_line zero c = 10 ∷ []
rule_line (suc n) c = c ∷ rule_line n c

-- The days of a report, or the error of its two dates.
pub data Period : Type 0 where
  period : List ℤ → Period
  no_period : ReportError → Period

abbrev pub max_days : ℕ
max_days = 3660

-- `days` stops at one above the limit.
unfoldable pub period_of : Calendar → Text → Text → Period
period_of cal from to = elim (parse_date cal from) [
  | none ↦ no_period bad_date
  | some (from_tm, from_t) ↦ elim (parse_date cal to) [
    | none ↦ no_period bad_date
    | some (to_tm, to_t) ↦
        let days = day_range cal (suc max_days) from_t to_t in
        if not (leb_ℤ from_t to_t)
        then no_period from_after_to
        else if ltb max_days (length days)
        then no_period too_long
        else period days
  ]
]

-- The user of now fills in what the events did not record; the position is always the one of now.
unfoldable pub fill_row : List User → DailyAttendance → DailyAttendance
fill_row users row = elim (find_id users row.user_id) [
  | none ↦ row
  | some u ↦ record row {
    user_name = if is_empty row.user_name then user_name u else row.user_name;
    position = u.position;
    department = if is_empty row.department then u.department else row.department;
    card = if is_empty row.card then u.card else row.card;
  }
]

abbrev pub shown_name : DailyAttendance → Text
shown_name row = if is_empty row.user_name then numbered_user row.user_id else row.user_name

abbrev pub state_text : PresenceState → Text
state_text present = utf8 "На работе"
state_text absent = utf8 "Ушел"

unfoldable pub row_text : ℕ → DailyAttendance → Text
row_text n row =
    to_string n
    ++ (codes ". "
        ++ (shown_name row
            ++ (utf8 "\n   Должность: "
                ++ (or_dash row.position
                    ++ (utf8 "\n   Отдел: "
                        ++ (or_dash row.department
                            ++ (utf8 "\n   Карта: "
                                ++ (display_card row.card
                                    ++ (utf8 "\n   Первый приход: "
                                        ++ (time_only row.arrival_time
                                            ++ (utf8 "\n   Последний уход: "
                                                ++ (time_only row.departure_time
                                                    ++ (utf8 "\n   Состояние на конец дня: "
                                                        ++ (state_text row.presence
                                                            ++ codes "\n\n"))))))))))))))

unfoldable pub rows_text : List User → ℕ → List DailyAttendance → Text
unfolding row_text fill_row
rows_text users n [] = []
rows_text users n (row ∷ rows) =
    row_text (n + 1) (fill_row users row) ++ rows_text users (n + 1) rows

unfoldable pub day_text : List User → Text → List DailyAttendance → Text
unfolding rows_text
day_text users date rows =
    rule_line 60 b'='
    ++ (utf8 "Дата: "
        ++ (date
            ++ (10
                ∷ (rule_line 60 b'='
                    ++ (if is_empty rows
                        then utf8 "Событий посещаемости нет.\n\n"
                        else rows_text users 0 rows)))))

-- `std::set::insert`.
unfoldable pub add_id : ℤ → List ℤ → List ℤ
add_id id ids = if any (eq_ℤ id) ids then ids else id ∷ ids

unfoldable pub add_ids : List DailyAttendance → List ℤ → List ℤ
unfolding add_id
add_ids [] ids = ids
add_ids (row ∷ rows) ids = add_ids rows (add_id row.user_id ids)

pub record Tally : Type 0 where
  pub row_count : ℕ
  pub unique_users : List ℤ
  pub details : Text

unfoldable pub count_day : List User → Text → List DailyAttendance → Tally → Tally
unfolding add_ids day_text
count_day users date rows t = record {
  row_count = t.row_count + length rows;
  unique_users = add_ids rows t.unique_users;
  details = t.details ++ day_text users date rows;
}

unfoldable pub report_text : Text → Text → Text → ℕ → Tally → Text
report_text from to now days t =
    codes "Monk SKUD UNEX\n"
    ++ (utf8 "ОТЧЕТ ПО ПОСЕЩАЕМОСТИ\nПериод: "
        ++ (from
            ++ (utf8 " — "
                ++ (to
                    ++ (utf8 "\nСформирован: "
                        ++ (now
                            ++ (utf8 "\n\nДней в периоде: "
                                ++ (to_string days
                                    ++ (utf8 "\nПользователей с событиями: "
                                        ++ (to_string (length t.unique_users)
                                            ++ (utf8 "\nЗаписей пользователь/день: "
                                                ++ (to_string t.row_count
                                                    ++ (codes "\n\n" ++ t.details)))))))))))))

abbrev pub no_tally : Tally
no_tally = record { row_count = 0; unique_users = []; details = [] }

-- The report once its file was written.
unfoldable pub finish_report :
    {W : Type 0} → (Text → Text → W → FileResult × W) → AttendanceReport → W → Built × W
finish_report put_file report w =
    let r = put_file report.path report.content w in
    elim r.0 [
      | stored ↦ (built report, r.1)
      | cannot_open ↦ (refused not_created, r.1)
      | cannot_write ↦ (refused not_written, r.1)
    ]

module _ {W : Type 0} (cal : Calendar) (load_day : Text → W → List DailyAttendance × W)
    (put_file : Text → Text → W → FileResult × W) (reports_dir : Text) where
  unfoldable pub count_days : List User → List ℤ → Tally → W → Tally × W
  unfolding count_day format_date
  count_days users [] tally w = (tally, w)
  count_days users (t ∷ ts) tally w =
      let date = format_date cal t in
      let r = load_day date w in count_days users ts (count_day users date r.0 tally) r.1

  unfoldable pub build : List User → Text → Text → Text → W → Built × W
  unfolding period_of report_text
  build users now from to w = elim (period_of cal from to) [
    | no_period e ↦ (refused e, w)
    | period days ↦
        let r = count_days users days no_tally w in
        let filename = codes "attendance_" ++ (from ++ (b'_' ∷ (to ++ codes ".txt"))) in
        finish_report put_file
          (record {
            from = from;
            to = to;
            filename = filename;
            path = reports_dir ++ (b'/' ∷ filename);
            content = report_text from to now (length days) r.0;
            days = length days;
            rows = r.0.row_count;
            users = length r.0.unique_users;
          })
          r.1
  ]
