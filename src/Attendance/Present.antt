-- ===== src/Attendance/Present.antt =====
-- src/attendance/AttendanceEngine.cpp: who is there, and the lines of today with the data of the users.
use monk_skud_unex.Base.{
  List, [], ◌∷◌, ◌++◌, Bool, true, false, ◌&&◌, ◌||◌, not, Text, Option, none, some, ℤ, eq_ℤ,
  eq_ℤ_iff, if◌then◌else◌, is_empty, bytes_eq, drop, take, codes, any, map, reverse, ◌≡◌, refl,
  arith,
}
use monk_skud_unex.Text.Int.{stoi}
use monk_skud_unex.Types.{User, PresenceState, absent, present, CardActivity, DailyAttendance}
use monk_skud_unex.Users.Ops.{find_card, find_id}
use monk_skud_unex.Attendance.{State}

abbrev pub is_there : PresenceState → Bool
is_there present = true
is_there absent = false

-- The user of a key: by the id behind `U:`, or else by the card, which stands behind `C:` or alone.
unfoldable pub user_of_key : List User → Text → Option User
user_of_key users key =
    if bytes_eq (take 2 key) (codes "U:")
    then elim (stoi (drop 2 key)) [ none ↦ none | some id ↦ find_id users id ]
    else find_card users (if bytes_eq (take 2 key) (codes "C:") then drop 2 key else key)

abbrev pub has_id : ℤ → List User → Bool
has_id id users = any (λ (u : User). eq_ℤ u.id id) users

-- `seen.insert` and `push_back`: a user whose id was not seen.
unfoldable pub add_user : Option User → List User → List User
add_user none found = found
add_user (some u) found = if has_id u.id found then found else found ++ u ∷ []

-- `found` holds the users of the keys before, and so the ids that were seen.
unfoldable pub present_loop : List User → List (Text × State) → List User → List User
unfolding user_of_key add_user
present_loop users [] found = found
present_loop users ((key, st) ∷ states) found =
    present_loop users states
      (if is_there st.presence then add_user (user_of_key users key) found else found)

unfoldable pub present_users : List User → List (Text × State) → List User
present_users users states = present_loop users states []

unfoldable pub full_name : User → Text
full_name u =
    let n = u.last_name ++ b' ' ∷ u.first_name in
    if is_empty u.middle_name then n else n ++ b' ' ∷ u.middle_name

-- The line of a user who is still known takes the name, position and department of now.
unfoldable pub with_current_user : List User → DailyAttendance → DailyAttendance
with_current_user users row = elim (find_id users row.user_id) [
  | none ↦ row
  | some u ↦ record row {
    user_name = full_name u;
    position = u.position;
    department = u.department;
  }
]

unfoldable pub today_attendance : List User → List DailyAttendance → List DailyAttendance
unfolding with_current_user
today_attendance users rows = map (with_current_user users) rows

abbrev activity_value : Text × CardActivity → CardActivity
activity_value (k, a) = a

unfoldable pub activities : List (Text × CardActivity) → List CardActivity
activities t = map activity_value (reverse t)

-- No id stands twice.
unfoldable pub has_distinct_ids : List User → Bool
has_distinct_ids [] = true
has_distinct_ids (u ∷ us) = not (has_id u.id us) && has_distinct_ids us

has_id-append : (id : ℤ) (us vs : List User) → has_id id (us ++ vs) ≡ (has_id id us || has_id id vs)
has_id-append id [] vs = refl
has_id-append id (u ∷ us) vs = ground (arith, has_id-append id us vs)

has_distinct_ids-snoc :
    (us : List User) (u : User)
    → has_distinct_ids us ≡ true
    → has_id u.id us ≡ false
    → has_distinct_ids (us ++ u ∷ []) ≡ true
unfolding has_distinct_ids
has_distinct_ids-snoc [] u h n = refl
has_distinct_ids-snoc (v ∷ us) u h n = ground (
  arith,
  has_distinct_ids-snoc us u,
  has_id-append v.id us (u ∷ []),
  eq_ℤ_iff v.id u.id,
  eq_ℤ_iff u.id v.id,
)

add_user-has_distinct_ids :
    (u : Option User) (found : List User)
    → has_distinct_ids found ≡ true
    → has_distinct_ids (add_user u found) ≡ true
unfolding add_user
add_user-has_distinct_ids none found h = h
add_user-has_distinct_ids (some u) found h = ground (arith, has_distinct_ids-snoc found u h)

present_loop-has_distinct_ids :
    (users : List User) (states : List (Text × State)) (found : List User)
    → has_distinct_ids found ≡ true
    → has_distinct_ids (present_loop users states found) ≡ true
unfolding present_loop
present_loop-has_distinct_ids users [] found h = h
present_loop-has_distinct_ids users ((key, st) ∷ states) found h =
    present_loop-has_distinct_ids users states _
      (ground (arith, add_user-has_distinct_ids (user_of_key users key) found h))

abbrev is_user : ℤ → Option User → Bool
is_user id none = false
is_user id (some u) = eq_ℤ u.id id

-- Somebody with this id is there: a state that is present, under a key that leads to the user.
unfoldable pub is_among : List User → ℤ → List (Text × State) → Bool
is_among users id [] = false
is_among users id ((key, st) ∷ states) =
    (is_there st.presence && is_user id (user_of_key users key)) || is_among users id states

has_id-add_user :
    (id : ℤ) (u : Option User) (found : List User)
    → has_id id (add_user u found) ≡ (has_id id found || is_user id u)
unfolding add_user
has_id-add_user id none found = ground arith
has_id-add_user id (some u) found =
    ground (arith, has_id-append id found (u ∷ []), eq_ℤ_iff u.id id)

has_id-present_loop :
    (users : List User) (id : ℤ) (states : List (Text × State)) (found : List User)
    → has_id id (present_loop users states found) ≡ (has_id id found || is_among users id states)
unfolding present_loop is_among
has_id-present_loop users id [] found = ground arith
has_id-present_loop users id ((key, st) ∷ states) found =
    let next = add_user (user_of_key users key) found in
    ground (
      arith,
      has_id-present_loop users id states found,
      has_id-present_loop users id states next,
      has_id-add_user id (user_of_key users key) found,
    )

-- The list of those who are there names a user exactly if a key that leads to the user is present, and
-- names nobody twice, though a user can have several keys.
pub present_users-exact :
    (users : List User) (states : List (Text × State))
    → ((id : ℤ) → has_id id (present_users users states) ≡ is_among users id states)
      × (has_distinct_ids (present_users users states) ≡ true)
unfolding present_users has_distinct_ids
present_users-exact users states = (
  λ id. has_id-present_loop users id states [],
  present_loop-has_distinct_ids users states [] refl,
)
