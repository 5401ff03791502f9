-- ===== src/Attendance/Key.antt =====
-- src/attendance/AttendanceEngine.cpp: `userStateKey` names one user only.
use monk_skud_unex.Base.{
  ℕ, ◌+◌, ◌∷◌, Text, ℤ, pos, negsuc, eq_ℤ, eq_ℤ_iff, ◌≡◌, ap, sym, arith, bytes_eq, bytes_eq_iff,
}
use monk_skud_unex.Text.Number.{to_string, all_of, is_digit}
use monk_skud_unex.Text.Number.Decimal.{value-to_string, all_of-to_string}
use monk_skud_unex.Text.Int.{int_text}
use monk_skud_unex.Attendance.{user_state_key}

to_string-injective : (n m : ℕ) → to_string n ≡ to_string m → n ≡ m
to_string-injective n m h = ground (arith, value-to_string n, value-to_string m)

minus-to_string : (s : Text) (m : ℕ) → b'-' ∷ s ≡ to_string m → ⊥
unfolding all_of is_digit
minus-to_string s m h = ground (arith, all_of-to_string m)

int_text-injective : (i j : ℤ) → int_text i ≡ int_text j → i ≡ j
unfolding int_text
int_text-injective (pos n) (pos m) h = ap pos (to_string-injective n m h)
int_text-injective (pos n) (negsuc m) h = absurd (minus-to_string (to_string (m + 1)) n (sym h))
int_text-injective (negsuc n) (pos m) h = absurd (minus-to_string (to_string (n + 1)) m h)
int_text-injective (negsuc n) (negsuc m) h = ground (arith, to_string-injective (n + 1) (m + 1))

pub bytes_eq-user_state_key : (i j : ℤ) → bytes_eq (user_state_key i) (user_state_key j) ≡ eq_ℤ i j
unfolding user_state_key
bytes_eq-user_state_key i j = ground (
  arith,
  bytes_eq_iff (user_state_key i) (user_state_key j),
  int_text-injective i j,
  eq_ℤ_iff i j,
)
