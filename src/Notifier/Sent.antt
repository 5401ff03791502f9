-- ===== src/Notifier/Sent.antt =====
-- src/telegram/TelegramNotifier.cpp: which notices Telegram has accepted when the queue is empty.
use monk_skud_unex.Base.{List, [], ◌∷◌, ◌++◌, Bool, true, false, Text, Option, ℤ, ◌≡◌}
use monk_skud_unex.Types.{AttendanceEvent}
use monk_skud_unex.Config.{Config}
use monk_skud_unex.Notifier.{is_wanted, is_old, message}

module _ {Tm : Type 0} (get_time : Text → Option Tm) (mktime : Tm → ℤ) (c : Config) where
  -- Some of the events in their order, each wanted and of a recent time when its turn came, by their texts.
  pub data Chosen : List AttendanceEvent → List Text → Type 0 where
    none_left : Chosen [] []
    passed_over :
        (e : AttendanceEvent) {es : List AttendanceEvent} {ms : List Text}
        → Chosen es ms
        → Chosen (e ∷ es) ms
    notified :
        (e : AttendanceEvent) {es : List AttendanceEvent} {ms : List Text} (now : ℤ)
        → is_wanted c e ≡ true
        → is_old get_time mktime c now e ≡ false
        → Chosen es ms
        → Chosen (e ∷ es) (message e ∷ ms)

  module _ {W : Type 0} (send : Text → W → Bool × W) (time : W × List Text → ℤ) where
    -- What one turn adds to the messages that Telegram accepted.
    data Turn (e : AttendanceEvent) (s : W × List Text) (after : W × List Text) : Type 0 where
      kept : after.1 ≡ s.1 → Turn e s after
      grew :
          (now : ℤ)
          → is_wanted c e ≡ true
          → is_old get_time mktime c now e ≡ false
          → after.1 ≡ s.1 ++ message e ∷ []
          → Turn e s after
