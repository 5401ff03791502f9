-- ===== src/Reports/Telegram.antt =====
-- src/reports/ReportManager.cpp: the Telegram messages of `sendToTelegram`, the attempts to send them, and
-- `sendExtendedToTelegram`. The network is an argument; the pauses are left out.
pub mod Chunks
pub mod Attempts
use monk_skud_unex.Base.{
  ℕ, zero, suc, ◌+◌, max, List, [], ◌∷◌, ◌++◌, Bool, true, false, ◌&&◌, not, Text, Option, none,
  some, ltb, if◌then◌else◌, length, is_empty, codes, utf8,
}
use monk_skud_unex.Text.Number.{to_string}
use monk_skud_unex.Text.Escape.{html_escape}
use monk_skud_unex.Types.{User, PresenceState, absent, present, DailyAttendance}
use monk_skud_unex.Users.Ops.{find_id}
use monk_skud_unex.Reports.Words.{
  dash, or_dash, time_only, user_name, compact_whitespace, utf8_length, telegram_pad,
}
use monk_skud_unex.Reports.Build.{shown_name, state_text}

-- The widths of the five columns.
pub record Widths : Type 0 where
  pub name : ℕ
  pub position : ℕ
  pub arrival : ℕ
  pub departure : ℕ
  pub state : ℕ

unfoldable pub title_widths : Widths
title_widths = record {
  name = utf8_length (utf8 "Сотрудник");
  position = utf8_length (utf8 "Должность");
  arrival = utf8_length (utf8 "Приход");
  departure = utf8_length (utf8 "Уход");
  state = utf8_length (utf8 "Состояние");
}

-- Here a position that the row has is kept.
unfoldable pub complete_row : List User → DailyAttendance → DailyAttendance
complete_row users row = elim (find_id users row.user_id) [
  | none ↦ row
  | some u ↦ record row {
    user_name = if is_empty row.user_name then user_name u else row.user_name;
    position = if is_empty row.position then u.position else row.position;
    department = if is_empty row.department then u.department else row.department;
  }
]

unfoldable pub widen : Widths → DailyAttendance → Widths
widen w row = record {
  name = max w.name (utf8_length (compact_whitespace (shown_name row)));
  position = max w.position (utf8_length (compact_whitespace (or_dash row.position)));
  arrival = max w.arrival (utf8_length (time_only row.arrival_time));
  departure = max w.departure (utf8_length (time_only row.departure_time));
  state = max w.state (utf8_length (state_text row.presence));
}

unfoldable pub all_widths : Widths → List DailyAttendance → Widths
unfolding widen
all_widths w [] = w
all_widths w (row ∷ rows) = all_widths (widen w row) rows

abbrev pub bar : Text
bar = utf8 " │ "

-- One line of the table, before it is escaped.
unfoldable pub table_line : Widths → Text → Text → Text → Text → Text → Text → Text
table_line w mark name position arrival departure state =
    mark
    ++ (bar
        ++ (telegram_pad name w.name
            ++ (bar
                ++ (telegram_pad position w.position
                    ++ (bar
                        ++ (telegram_pad arrival w.arrival
                            ++ (bar
                                ++ (telegram_pad departure w.departure
                                    ++ (bar ++ (telegram_pad state w.state ++ 10 ∷ []))))))))))

unfoldable pub title_line : Widths → Text
unfolding table_line
title_line w =
    table_line w (utf8 "Ст") (utf8 "Сотрудник") (utf8 "Должность") (utf8 "Приход") (utf8 "Уход")
      (utf8 "Состояние")

abbrev pub mark_of : PresenceState → Text
mark_of present = utf8 "🟢"
mark_of absent = utf8 "🔴"

unfoldable pub row_line : Widths → DailyAttendance → Text
unfolding table_line
row_line w row = html_escape (
    table_line w (mark_of row.presence) (shown_name row) (or_dash row.position)
      (time_only row.arrival_time) (time_only row.departure_time) (state_text row.presence))

abbrev pub chunk_limit : ℕ
chunk_limit = 3300

abbrev pub closing : Text
closing = codes "</pre>"

-- The messages of a day's rows. `chunk` is the message that is being filled: it is closed where the next
-- row would pass the limit and it has a row already.
unfoldable pub chunk_rows : Text → Text → List Text → List Text
chunk_rows start chunk [] = (chunk ++ closing) ∷ []
chunk_rows start chunk (row ∷ rows) =
    elim (ltb chunk_limit (length chunk + length row + 7) && ltb (length start) (length chunk)) [
      | true ↦ (chunk ++ closing) ∷ chunk_rows start (start ++ row) rows
      | false ↦ chunk_rows start (chunk ++ row) rows
    ]

unfoldable pub row_lines : Widths → List DailyAttendance → List Text
unfolding row_line
row_lines w [] = []
row_lines w (row ∷ rows) = row_line w row ∷ row_lines w rows

unfoldable pub complete_rows : List User → List DailyAttendance → List DailyAttendance
unfolding complete_row
complete_rows users [] = []
complete_rows users (row ∷ rows) = complete_row users row ∷ complete_rows users rows

abbrev pub day_header : Text → Text
day_header date = codes "<b>" ++ (html_escape date ++ codes "</b>\n")

unfoldable pub day_messages : List User → Text → List DailyAttendance → List Text
unfolding complete_rows all_widths title_widths title_line row_lines chunk_rows
day_messages users date loaded =
    let rows = complete_rows users loaded in
    let w = all_widths title_widths rows in
    let start = day_header date ++ (codes "<pre>" ++ html_escape (title_line w)) in
    if is_empty loaded
    then (day_header date ++ utf8 "<i>Событий посещаемости нет.</i>") ∷ []
    else chunk_rows start start (row_lines w rows)

-- Up to so many attempts, and whether one of them succeeded.
unfoldable pub attempt : {W : Type 0} → ℕ → (W → Bool × W) → W → Bool × W
attempt zero act w = (false, w)
attempt (suc n) act w =
    let r = act w in let rest = attempt n act r.1 in if r.0 then (true, r.1) else rest

-- The messages in their order, up to the first that is not sent.
unfoldable pub send_all : {W : Type 0} → ℕ → (Text → W → Bool × W) → List Text → W → Bool × W
unfolding attempt
send_all retries send [] w = (true, w)
send_all retries send (m ∷ ms) w =
    let r = attempt retries (send m) w in
    let rest = send_all retries send ms r.1 in if r.0 then rest else (false, r.1)
