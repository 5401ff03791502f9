-- ===== src/Reports/Deliver.antt =====
-- src/reports/ReportManager.cpp: `sendToTelegram` and `sendExtendedToTelegram`.
use monk_skud_unex.Base.{
  ℕ, suc, ◌+◌, max, List, [], ◌∷◌, ◌++◌, Bool, true, not, Text, none, some, ℤ, pos, negsuc,
  if◌then◌else◌, length, codes, utf8,
}
use monk_skud_unex.Text.Number.{to_string}
use monk_skud_unex.Text.Escape.{html_escape}
use monk_skud_unex.Types.{User, DailyAttendance, AttendanceEvent}
use monk_skud_unex.Config.{Config, get_int, get_bool}
use monk_skud_unex.Attendance.{State}
use monk_skud_unex.Attendance.Present.{present_users}
use monk_skud_unex.Reports.Calendar.{Calendar, parse_date, format_date, day_range}
use monk_skud_unex.Reports.Build.{
  AttendanceReport, ReportError, built, refused, FileResult, build, max_days,
}
use monk_skud_unex.Reports.Extended.{build_extended}
use monk_skud_unex.Reports.Telegram.{day_messages, attempt, send_all}

-- What the reports use of `TelegramNotifier`.
pub record Telegram (W : Type 0) : Type 0 where
  pub send_document : Text → Text → W → Bool × W
  pub send_html : Text → W → Bool × W

pub data SendError : Type 0 where
  not_built : ReportError → SendError
  no_document no_period no_table : SendError

pub data Sent : Type 0 where
  sent : AttendanceReport → Sent
  failed : SendError → Sent

-- `max(1, …)`.
unfoldable pub retries : Config → ℕ
retries c = elim (get_int (codes "telegram.retry_count") (pos 3) c) [
  | pos n ↦ max 1 n
  | negsuc n ↦ 1
]

unfoldable pub count_enabled : List User → ℕ
count_enabled [] = 0
count_enabled (u ∷ us) = (if u.enabled then 1 else 0) + count_enabled us

unfoldable pub summary_message : Text → Text → ℕ → ℕ → Text
summary_message from to total on_site =
    utf8 "<b>📋 ОТЧЕТ ПО ПОСЕЩАЕМОСТИ</b>\nПериод: <b>"
    ++ (html_escape from
        ++ (utf8 " — "
            ++ (html_escape to
                ++ (utf8 "</b>\n👥 Всего работников: <b>"
                    ++ (to_string total
                        ++ (utf8 "</b>\n🏢 Сейчас на объекте: <b>"
                            ++ (to_string on_site ++ codes "</b>")))))))

abbrev pub caption : Text → Text → Text
caption from to =
    utf8 "Monk SKUD UNEX — отчет посещаемости\nПериод: " ++ (from ++ (utf8 " — " ++ to))

abbrev pub extended_caption : Text → Text → AttendanceReport → Text
extended_caption from to r =
    utf8 "Monk SKUD UNEX — расширенный отчет\nВсе входы/выходы: "
    ++ (from
        ++ (utf8 " — "
            ++ (to
                ++ (utf8 "\nПользователей: "
                    ++ (to_string r.users ++ (utf8 ", событий: " ++ to_string r.rows))))))

module _ {W : Type 0} (cal : Calendar) (load_day : Text → W → List DailyAttendance × W)
    (put_file : Text → Text → W → FileResult × W) (reports_dir : Text) (telegram : Telegram W) where
  unfoldable pub all_messages : List User → List ℤ → W → List Text × W
  unfolding day_messages
  all_messages users [] w = ([], w)
  all_messages users (t ∷ ts) w =
      let date = format_date cal t in
      let r = load_day date w in
      let rest = all_messages users ts r.1 in (day_messages users date r.0 ++ rest.0, rest.1)

  -- The table behind the document. The report was built for these dates, so their days are within its
  -- limit.
  unfoldable pub send_table :
      Config → List User → List (Text × State) → AttendanceReport → Text → Text → W → Sent × W
  unfolding summary_message count_enabled retries
  send_table c users states report from to w = elim (parse_date cal from) [
    | none ↦ (failed no_period, w)
    | some (from_tm, from_t) ↦ elim (parse_date cal to) [
      | none ↦ (failed no_period, w)
      | some (to_tm, to_t) ↦
          let on_site = count_enabled (present_users users states) in
          let r = all_messages users (day_range cal (suc max_days) from_t to_t) w in
          let out =
            send_all (retries c) telegram.send_html
              (summary_message from to (length users) on_site ∷ r.0) r.1 in
          (if out.0 then sent report else failed no_table, out.1)
    ]
  ]

  unfoldable pub send_to_telegram :
      Config → List User → List (Text × State) → Text → Text → Text → W → Sent × W
  unfolding retries
  send_to_telegram c users states now from to w =
      let b = build cal load_day put_file reports_dir users now from to w in
      elim b.0 [
        | refused e ↦ (failed (not_built e), b.1)
        | built report ↦
            let d =
              attempt (retries c) (telegram.send_document report.path (caption from to)) b.1 in
            if not d.0
            then (failed no_document, d.1)
            else if not (get_bool (codes "telegram.report_text_copy") true c)
            then (sent report, d.1)
            else send_table c users states report from to d.1
      ]

module _ {W : Type 0} (cal : Calendar) (load_events : Text → W → List AttendanceEvent × W)
    (put_file : Text → Text → W → FileResult × W) (reports_dir : Text) (telegram : Telegram W) where
  unfoldable pub send_extended_to_telegram :
      Config → List User → Text → Text → Text → List ℤ → W → Sent × W
  unfolding retries
  send_extended_to_telegram c users now from to ids w =
      let b = build_extended cal load_events put_file reports_dir users now from to ids w in
      elim b.0 [
        | refused e ↦ (failed (not_built e), b.1)
        | built report ↦
            let d =
              attempt (retries c)
                (telegram.send_document report.path (extended_caption from to report)) b.1 in
            (if d.0 then sent report else failed no_document, d.1)
      ]
