-- ===== src/Reports/Schedule/RoundTrip.antt =====
-- src/reports/ReportManager.cpp: the schedule that was saved is the schedule that is read.
use monk_skud_unex.Base.{
  ℕ, ◌<◌, ◌^◌, [], Bool, true, false, Text, ℤ, pos, negsuc, if◌then◌else◌, codes, bytes_eq, ◌≡◌,
  refl, ap, ◌∙◌, arith, Bool-cases, inl, inr,
}
use monk_skud_unex.Text.Int.{int_text}
use monk_skud_unex.Text.Int.RoundTrip.{stoi-int_text}
use monk_skud_unex.Config.{Config, get, get_int, get_bool, to_lower, get-set}
use monk_skud_unex.Storage.Files.{FileSystem}
use monk_skud_unex.Reports.Schedule.{
  is_period, is_time, clamp, outside, schedule, saved, write_schedule, save_schedule,
}

module _ (enabled : Bool) (period time : Text) (weekday month_day : ℤ) (c : Config) where
  abbrev written : Config
  written = write_schedule enabled period time weekday month_day c

  written-period : (d : Text) → get (codes "reports.schedule.period") d written ≡ period
  unfolding write_schedule bytes_eq
  written-period d = simp get-set refl

  written-time : (d : Text) → get (codes "reports.schedule.time") d written ≡ time
  unfolding write_schedule bytes_eq
  written-time d = simp get-set refl

  written-weekday : (d : Text) → get (codes "reports.schedule.weekday") d written ≡ int_text weekday
  unfolding write_schedule bytes_eq
  written-weekday d = simp get-set refl

  written-month_day :
      (d : Text) → get (codes "reports.schedule.month_day") d written ≡ int_text month_day
  unfolding write_schedule bytes_eq
  written-month_day d = simp get-set refl

  written-enabled :
      (d : Text)
      → get (codes "reports.schedule.enabled") d written
        ≡ (if enabled then codes "true" else codes "false")
  unfolding write_schedule bytes_eq
  written-enabled d = simp get-set refl

  schedule-enabled : (schedule written).enabled ≡ enabled
  unfolding schedule get_bool to_lower bytes_eq
  schedule-enabled = elim (Bool-cases enabled) [
    | inl e ↦ rw (written-enabled [], e) refl
    | inr e ↦ rw (written-enabled [], e) refl
  ]

  schedule-period : is_period period ≡ true → (schedule written).period ≡ period
  unfolding schedule
  schedule-period h = rw (written-period (codes "daily"), h) refl

  schedule-time : is_time time ≡ true → (schedule written).time ≡ time
  unfolding schedule
  schedule-time h = rw (written-time (codes "18:00"), h) refl

clamped :
    (low high : ℕ) (z : ℤ)
    → high < 2 ^ 31
    → outside (pos low) (pos high) z ≡ false
    → pos (clamp low high z) ≡ z
unfolding clamp
clamped low high (pos n) small h = ground arith
clamped low high (negsuc n) small h = ground arith

get_int-number :
    (k : Text) (d z : ℤ) (c : Config) (low high : ℕ)
    → get k [] c ≡ int_text z
    → high < 2 ^ 31
    → outside (pos low) (pos high) z ≡ false
    → get_int k d c ≡ z
unfolding get_int
get_int-number k d (pos n) c low high e small h =
    ground (arith, e, stoi-int_text (pos n) (ground arith))
get_int-number k d (negsuc n) c low high e small h = absurd (ground arith)

schedule-weekday :
    (enabled : Bool) (period time : Text) (weekday month_day : ℤ) (c : Config)
    → outside (pos 1) (pos 7) weekday ≡ false
    → pos (schedule (write_schedule enabled period time weekday month_day c)).weekday ≡ weekday
unfolding schedule
schedule-weekday enabled period time weekday month_day c h =
    let saved_text = written-weekday enabled period time weekday month_day c [] in
    ap (λ (z : ℤ). pos (clamp 1 7 z))
      (get_int-number (codes "reports.schedule.weekday") (pos 1) weekday _ 1 7 saved_text
        (omega arith) h)
    ∙ clamped 1 7 weekday (omega arith) h

schedule-month_day :
    (enabled : Bool) (period time : Text) (weekday month_day : ℤ) (c : Config)
    → outside (pos 1) (pos 28) month_day ≡ false
    → pos (schedule (write_schedule enabled period time weekday month_day c)).month_day ≡ month_day
unfolding schedule
schedule-month_day enabled period time weekday month_day c h =
    let saved_text = written-month_day enabled period time weekday month_day c [] in
    ap (λ (z : ℤ). pos (clamp 1 28 z))
      (get_int-number (codes "reports.schedule.month_day") (pos 1) month_day _ 1 28 saved_text
        (omega arith) h)
    ∙ clamped 1 28 month_day (omega arith) h

accepted :
    {W : Type 0} (fs : FileSystem W) (enabled : Bool) (period time : Text) (weekday month_day : ℤ)
    (c : Config) (w : W)
    → let r = save_schedule fs enabled period time weekday month_day c w in
      r.0 ≡ saved
      → (is_period period ≡ true)
        × (is_time time ≡ true)
        × (outside (pos 1) (pos 7) weekday ≡ false)
        × (outside (pos 1) (pos 28) month_day ≡ false)
        × (r.1 ≡ write_schedule enabled period time weekday month_day c)
unfolding save_schedule
accepted fs enabled period time weekday month_day c w h = elim (Bool-cases (is_period period)) [
  | inr a ↦ absurd (ground arith)
  | inl a ↦ elim (Bool-cases (is_time time)) [
    | inr b ↦ absurd (ground arith)
    | inl b ↦ ground arith
  ]
]

-- A schedule that was saved is the schedule that is read from the settings: switched on or off as asked,
-- with the same period, time, day of the week and day of the month.
pub schedule-save_schedule :
    {W : Type 0} (fs : FileSystem W) (enabled : Bool) (period time : Text) (weekday month_day : ℤ)
    (c : Config) (w : W)
    → let r = save_schedule fs enabled period time weekday month_day c w in
      r.0 ≡ saved
      → let s = schedule r.1 in
        (s.enabled ≡ enabled)
        × (s.period ≡ period)
        × (s.time ≡ time)
        × (pos s.weekday ≡ weekday)
        × (pos s.month_day ≡ month_day)
schedule-save_schedule fs enabled period time weekday month_day c w h =
    let (p, t, d, m, e) = accepted fs enabled period time weekday month_day c w h in
    rw e (
      schedule-enabled enabled period time weekday month_day c,
      schedule-period enabled period time weekday month_day c p,
      schedule-time enabled period time weekday month_day c t,
      schedule-weekday enabled period time weekday month_day c d,
      schedule-month_day enabled period time weekday month_day c m,
    )
