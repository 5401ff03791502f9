-- ===== src/Reports/Build/Counts.antt =====
-- src/reports/ReportManager.cpp: what the numbers of a report count.
use monk_skud_unex.Base.{
  ◌+◌, ◌≤◌, List, [], ◌∷◌, ◌++◌, Bool, true, not, ◌&&◌, ◌||◌, Text, ℤ, eq_ℤ, eq_ℤ_iff, length,
  length-append, any, ◌≡◌, refl, ap, arith, ◌⊎◌, inl, inr,
}
use monk_skud_unex.Types.{User, DailyAttendance}
use monk_skud_unex.Reports.Calendar.{Calendar, format_date}
use monk_skud_unex.Reports.Build.{
  AttendanceReport, ReportError, built, FileResult, Period, period, no_period, period_of, add_id,
  add_ids, Tally, count_day, count_days, no_tally, finish_report, build, max_days,
}

abbrev pub has : ℤ → List ℤ → Bool
has id ids = any (eq_ℤ id) ids

abbrev pub names : ℤ → List DailyAttendance → Bool
names id rows = any (λ (r : DailyAttendance). eq_ℤ id r.user_id) rows

unfoldable pub distinct : List ℤ → Bool
distinct [] = true
distinct (i ∷ is) = not (has i is) && distinct is

has-add_ids :
    (id : ℤ) (rows : List DailyAttendance) (ids : List ℤ)
    → has id (add_ids rows ids) ≡ (has id ids || names id rows)
unfolding add_ids add_id
has-add_ids id [] ids = ground arith
has-add_ids id (r ∷ rows) ids =
    ground
      (arith, has-add_ids id rows ids, has-add_ids id rows (r.user_id ∷ ids), eq_ℤ_iff id r.user_id)

distinct-add_ids :
    (rows : List DailyAttendance) (ids : List ℤ)
    → distinct ids ≡ true
    → distinct (add_ids rows ids) ≡ true
unfolding add_ids add_id distinct
distinct-add_ids [] ids h = h
distinct-add_ids (r ∷ rows) ids h =
    ground (arith, distinct-add_ids rows ids h, distinct-add_ids rows (r.user_id ∷ ids))

length-add_ids :
    (rows : List DailyAttendance) (ids : List ℤ)
    → length (add_ids rows ids) ≤ length ids + length rows
unfolding add_ids add_id
length-add_ids [] ids = omega arith
length-add_ids (r ∷ rows) ids =
    ground (arith, length-add_ids rows ids, length-add_ids rows (r.user_id ∷ ids))

any-append :
    (p : DailyAttendance → Bool) (xs ys : List DailyAttendance)
    → any p (xs ++ ys) ≡ (any p xs || any p ys)
any-append p [] ys = refl
any-append p (x ∷ xs) ys = ground (arith, any-append p xs ys)

module _ {W : Type 0} (cal : Calendar) (load_day : Text → W → List DailyAttendance × W)
    (put_file : Text → Text → W → FileResult × W) (reports_dir : Text) where
  -- All rows of the days, in their order.
  unfoldable pub all_rows : List ℤ → W → List DailyAttendance
  all_rows [] w = []
  all_rows (t ∷ ts) w = let r = load_day (format_date cal t) w in r.0 ++ all_rows ts r.1

  -- A tally behind a list of rows, from the tally before.
  record Counted (before after : Tally) (rows : List DailyAttendance) : Type 0 where
    pub row_count : after.row_count ≡ before.row_count + length rows
    pub named : (id : ℤ) → has id after.unique_users ≡ (has id before.unique_users || names id rows)
    pub once : distinct before.unique_users ≡ true → distinct after.unique_users ≡ true
    pub bounded : length after.unique_users ≤ length before.unique_users + length rows

  count_days-Counted :
      (users : List User) (days : List ℤ) (tally : Tally) (w : W)
      → Counted tally
          (count_days cal load_day put_file reports_dir users days tally w).0
          (all_rows days w)
  unfolding count_days count_day all_rows
  count_days-Counted users [] tally w = record {
    row_count = omega arith;
    named = λ id. ground arith;
    once = λ h. h;
    bounded = omega arith;
  }
  count_days-Counted users (t ∷ ts) tally w =
      let r = load_day (format_date cal t) w in
      let next = count_day users (format_date cal t) r.0 tally in
      let rest = all_rows ts r.1 in
      let ih = count_days-Counted users ts next r.1 in
      record {
        row_count = omega (arith, ih.row_count, length-append r.0 rest);
        named = λ id. ground (
          arith,
          ih.named id,
          has-add_ids id r.0 tally.unique_users,
          any-append (λ (x : DailyAttendance). eq_ℤ id x.user_id) r.0 rest,
        );
        once = λ h. ih.once (distinct-add_ids r.0 tally.unique_users h);
        bounded =
            omega
              (arith, ih.bounded, length-append r.0 rest, length-add_ids r.0 tally.unique_users);
      }

  period_of-bounded :
      (from to : Text) (days : List ℤ)
      → period_of cal from to ≡ period days
      → length days ≤ max_days
  unfolding period_of
  period_of-bounded from to days h = ground arith

  Period-cases :
      (p : Period) → ((days : List ℤ) × (p ≡ period days)) ⊎ ((e : ReportError) × (p ≡ no_period e))
  Period-cases (period days) = inl (days, refl)
  Period-cases (no_period e) = inr (e, refl)

  finish_report-built :
      (report r : AttendanceReport) (w : W)
      → (finish_report put_file report w).0 ≡ built r
      → r ≡ report
  unfolding finish_report
  finish_report-built report r w h = ground arith

  -- The numbers of a report that was built: the days are those of the period, 3660 at most; the rows are all
  -- rows of these days; and the users are the different ids among the rows, so no more than the rows.
  pub build-counts :
      (users : List User) (now from to : Text) (w : W) (r : AttendanceReport)
      → (build cal load_day put_file reports_dir users now from to w).0 ≡ built r
      → (days : List ℤ) × (period_of cal from to ≡ period days)
        × (r.days ≡ length days)
        × (r.days ≤ 3660)
        × (r.rows ≡ length (all_rows days w))
        × (r.users ≤ r.rows)
        × ((ids : List ℤ) × (r.users ≡ length ids)
            × (distinct ids ≡ true)
            × ((id : ℤ) → has id ids ≡ names id (all_rows days w)))
  unfolding build distinct
  build-counts users now from to w r h = elim (Period-cases (period_of cal from to)) [
    | inr (e, p) ↦ absurd (ground (arith, p))
    | inl (days, p) ↦
        let tally = (count_days cal load_day put_file reports_dir users days no_tally w).0 in
        let c = count_days-Counted users days no_tally w in
        let e = finish_report-built _ r _ (rw (p, build) at h) in
        let small = period_of-bounded from to days p in
        (
          days,
          p,
          ap (λ (x : AttendanceReport). x.days) e,
          omega (arith, ap (λ (x : AttendanceReport). x.days) e, small),
          omega (arith, ap (λ (x : AttendanceReport). x.rows) e, c.row_count),
          omega (
            arith,
            ap (λ (x : AttendanceReport). x.rows) e,
            ap (λ (x : AttendanceReport). x.users) e,
            c.row_count,
            c.bounded,
          ),
          (tally.unique_users, ap (λ (x : AttendanceReport). x.users) e, c.once refl, c.named),
        )
  ]
