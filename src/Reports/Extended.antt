-- ===== src/Reports/Extended.antt =====
-- src/reports/ReportManager.cpp: `buildExtended`, every arrival and departure of the selected users.
pub mod Totals
use monk_skud_unex.Base.{
  ℕ, zero, suc, ◌+◌, ◌-◌, List, [], ◌∷◌, ◌++◌, Bool, true, false, ◌&&◌, ◌||◌, not, Text, Option,
  none, some, ℤ, pos, eq_ℤ, leb_ℤ, ltb, if◌then◌else◌, length, is_empty, codes, utf8, any, bytes_eq,
  replicate,
}
use monk_skud_unex.Base.Map.{lookup, insert, int_eq}
use monk_skud_unex.Base.Sort.{sort, text_lt}
use monk_skud_unex.Text.Number.{to_string}
use monk_skud_unex.Text.Int.{int_text}
use monk_skud_unex.Types.{User, AttendanceEventType, AttendanceEvent}
use monk_skud_unex.Storage.Daily.{is_arrival, counts}
use monk_skud_unex.Reports.Words.{or_dash, display_card, user_name, dash}
use monk_skud_unex.Reports.Calendar.{Calendar, format_date}
use monk_skud_unex.Reports.Build.{
  AttendanceReport, ReportError, no_user, unknown_user, Built, built, refused, FileResult, Period,
  period, no_period, period_of, rule_line, finish_report,
}

abbrev pub lt_ℤ : ℤ → ℤ → Bool
lt_ℤ a b = not (leb_ℤ b a)

unfoldable pub by_name : User → User → Bool
by_name a b =
    let an = user_name a in
    let bn = user_name b in if not (bytes_eq an bn) then text_lt an bn else lt_ℤ a.id b.id

-- `users_by_id`: where an id stands twice, the last user has it.
unfoldable pub index_users : List (ℤ × User) → List User → List (ℤ × User)
index_users m [] = m
index_users m (u ∷ us) = index_users (insert u.id u m) us

-- The selected users, or the id that no user has. A repeated id, and one that is not above 0, is dropped.
pub data Selection : Type 0 where
  selection : List User → Selection
  missing : ℤ → Selection

unfoldable pub select_ids : List (ℤ × User) → List ℤ → List User → List ℤ → Selection
select_ids m seen chosen [] = selection chosen
select_ids m seen chosen (id ∷ ids) = elim (leb_ℤ id (pos 0) || any (eq_ℤ id) seen) [
  | true ↦ select_ids m seen chosen ids
  | false ↦ elim (lookup id m) [
    | none ↦ missing id
    | some u ↦ select_ids m (id ∷ seen) (chosen ++ u ∷ []) ids
  ]
]

unfoldable pub select_users : List User → List ℤ → Selection
unfolding index_users select_ids
select_users users ids =
    if is_empty ids then selection users else select_ids (index_users [] users) [] [] ids

-- The arrivals and departures so far, by user, and their numbers.
pub record Passages : Type 0 where
  pub events_by_user : List (ℤ × List AttendanceEvent)
  pub total_events : ℕ
  pub arrivals : ℕ
  pub departures : ℕ

abbrev pub no_passages : Passages
no_passages = record { events_by_user = []; total_events = 0; arrivals = 0; departures = 0 }

abbrev pub list_or_nil : Option (List AttendanceEvent) → List AttendanceEvent
list_or_nil none = []
list_or_nil (some l) = l

abbrev pub events_of : ℤ → List (ℤ × List AttendanceEvent) → List AttendanceEvent
events_of id m = list_or_nil (lookup id m)

abbrev pub is_selected : List User → ℤ → Bool
is_selected users id = any (λ (u : User). eq_ℤ u.id id) users

unfoldable pub add_passage : AttendanceEvent → Passages → Passages
add_passage e p = record {
  events_by_user =
      insert e.user_id (events_of e.user_id p.events_by_user ++ e ∷ []) p.events_by_user;
  total_events = p.total_events + 1;
  arrivals = if is_arrival e.event_type then p.arrivals + 1 else p.arrivals;
  departures = if is_arrival e.event_type then p.departures else p.departures + 1;
}

unfoldable pub collect : List User → List AttendanceEvent → Passages → Passages
unfolding add_passage
collect users [] p = p
collect users (e ∷ es) p =
    collect users es (if counts e && is_selected users e.user_id then add_passage e p else p)

-- By time; an arrival before a departure of the same time.
unfoldable pub event_before : AttendanceEvent → AttendanceEvent → Bool
event_before a b =
    if not (bytes_eq a.timestamp b.timestamp)
    then text_lt a.timestamp b.timestamp
    else is_arrival a.event_type && not (is_arrival b.event_type)

-- `std::setw(4)`.
abbrev pub right_aligned : ℕ → Text → Text
right_aligned w s = replicate (w - length s) 32 ++ s

unfoldable pub event_line : ℕ → AttendanceEvent → Text
event_line n e =
    right_aligned 4 (to_string n)
    ++ (codes ". "
        ++ (or_dash e.timestamp
            ++ (codes "  "
                ++ ((if is_arrival e.event_type then utf8 "ВХОД " else utf8 "ВЫХОД")
                    ++ (utf8 "  Карта: "
                        ++ (display_card e.card
                            ++ (utf8 "  Контроллер: "
                                ++ ((if leb_ℤ e.controller_node (pos 0)
                                      then dash
                                      else int_text e.controller_node)
                                    ++ ((if is_empty e.controller_name
                                          then []
                                          else codes " (" ++ (e.controller_name ++ codes ")"))
                                        ++ 10 ∷ [])))))))))

unfoldable pub event_lines : ℕ → List AttendanceEvent → Text
unfolding event_line
event_lines n [] = []
event_lines n (e ∷ es) = event_line (n + 1) e ++ event_lines (n + 1) es

unfoldable pub arrivals_in : List AttendanceEvent → ℕ
arrivals_in [] = 0
arrivals_in (e ∷ es) = (if is_arrival e.event_type then 1 else 0) + arrivals_in es

-- The part of one user.
unfoldable pub user_text : User → List AttendanceEvent → Text
unfolding event_lines
user_text u events =
    rule_line 70 b'='
    ++ (user_name u
        ++ (codes " (ID "
            ++ (int_text u.id
                ++ (utf8 ")\nДолжность: "
                    ++ (or_dash u.position
                        ++ (utf8 "\nОтдел: "
                            ++ (or_dash u.department
                                ++ (10
                                    ∷ (rule_line 70 b'='
                                        ++ (if is_empty events
                                            then utf8
                                                "За выбранный период входов и выходов нет.\n\n"
                                            else event_lines 0 events
                                              ++ (utf8 "Итого по пользователю: входов "
                                                  ++ (to_string (arrivals_in events)
                                                      ++ (utf8 ", выходов "
                                                          ++ (to_string
                                                            (length events - arrivals_in events)
                                                            ++ (utf8 ", событий "
                                                            ++ (to_string (length events)
                                                            ++ codes "\n\n"))))))))))))))))

unfoldable pub users_text : List (ℤ × List AttendanceEvent) → List User → Text
unfolding user_text event_before sort
users_text m [] = []
users_text m (u ∷ us) = user_text u (sort event_before (events_of u.id m)) ++ users_text m us

unfoldable pub users_with_events : List (ℤ × List AttendanceEvent) → List User → ℕ
users_with_events m [] = 0
users_with_events m (u ∷ us) =
    (if is_empty (events_of u.id m) then 0 else 1) + users_with_events m us

unfoldable pub extended_text : Text → Text → Text → List User → Passages → Text
unfolding users_text users_with_events
extended_text from to now users p =
    codes "Monk SKUD UNEX\n"
    ++ (utf8 "РАСШИРЕННЫЙ ОТЧЕТ ПО ПОЛЬЗОВАТЕЛЯМ\nВсе входы и выходы за указанный период\nПериод: "
        ++ (from
            ++ (utf8 " — "
                ++ (to
                    ++ (utf8 "\nСформирован: "
                        ++ (now
                            ++ (utf8 "\n\nВыбрано пользователей: "
                                ++ (to_string (length users)
                                    ++ (utf8 "\nВсего событий: "
                                        ++ (to_string p.total_events
                                            ++ (utf8 " (входов: "
                                                ++ (to_string p.arrivals
                                                    ++ (utf8 ", выходов: "
                                                        ++ (to_string p.departures
                                                            ++ (codes ")\n\n"
                                                            ++ (users_text p.events_by_user users
                                                            ++ (rule_line 70 b'-'
                                                            ++ (utf8 "Пользователей с событиями: "
                                                            ++ (to_string (
                                                            users_with_events p.events_by_user
                                                            users)
                                                            ++ (utf8 " из "
                                                            ++ (to_string (length users)
                                                            ++ (utf8 "\nВсего входов: "
                                                            ++ (to_string p.arrivals
                                                            ++ (utf8 "\nВсего выходов: "
                                                            ++ (to_string p.departures
                                                            ++ (utf8 "\nВсего событий: "
                                                            ++ (to_string p.total_events
                                                            ++ 10 ∷ [])))))))))))))))))))))))))))

module _ {W : Type 0} (cal : Calendar) (load_events : Text → W → List AttendanceEvent × W)
    (put_file : Text → Text → W → FileResult × W) (reports_dir : Text) where
  unfoldable pub collect_days : List User → List ℤ → Passages → W → Passages × W
  unfolding collect
  collect_days users [] p w = (p, w)
  collect_days users (t ∷ ts) p w =
      let r = load_events (format_date cal t) w in collect_days users ts (collect users r.0 p) r.1

  unfoldable pub write_extended : Text → Text → Text → Bool → List ℤ → List User → W → Built × W
  unfolding extended_text
  write_extended now from to everybody days users w =
      let r = collect_days users days no_passages w in
      let selector = if everybody then codes "all" else codes "users" ++ to_string (length users) in
      let filename =
        codes "attendance_extended_"
        ++ (from ++ (b'_' ∷ (to ++ (b'_' ∷ (selector ++ codes ".txt"))))) in
      finish_report put_file
        (record {
          from = from;
          to = to;
          filename = filename;
          path = reports_dir ++ (b'/' ∷ filename);
          content = extended_text from to now users r.0;
          days = length days;
          rows = r.0.total_events;
          users = length users;
        })
        r.1

  unfoldable pub build_extended : List User → Text → Text → Text → List ℤ → W → Built × W
  unfolding period_of select_users by_name sort
  build_extended all now from to ids w = elim (period_of cal from to) [
    | no_period e ↦ (refused e, w)
    | period days ↦ elim (select_users all ids) [
      | missing id ↦ (refused (unknown_user id), w)
      | selection chosen ↦
          if not (is_empty ids) && is_empty chosen
          then (refused no_user, w)
          else write_extended now from to (is_empty ids) days (sort by_name chosen) w
    ]
  ]
