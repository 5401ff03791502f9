-- ===== src/Attendance/Maintenance.antt =====
-- src/attendance/AttendanceEngine.cpp: loading the saved states, the reset, and the move of a card's
-- state to the user who got the card.
pub mod Reset
use monk_skud_unex.Base.{
  ℕ, List, [], ◌∷◌, Bool, true, false, ◌==◌, Text, Option, none, some, ℤ, pos, leb_ℤ, not,
  if◌then◌else◌, map, foldl,
}
use monk_skud_unex.Base.Map.{lookup, insert, delete, text_eq}
use monk_skud_unex.Types.{User, CardActivity, PersistedCardState}
use monk_skud_unex.Users.Ops.{find_card}
use monk_skud_unex.Attendance.{Store, State, Engine, user_state_key, state_key, full_name, persist}

-- `key.rfind(prefix, 0) == 0` for a prefix of two letters.
unfoldable pub has_prefix : ℕ → Text → Bool
has_prefix p (a ∷ b ∷ rest) = if a == p then b == b':' else false
has_prefix p _ = false

abbrev after_prefix : Text → Text
after_prefix (a ∷ b ∷ rest) = rest
after_prefix other = other

-- The card that a key stands for; an old key is the card itself.
unfoldable pub card_of_key : Text → Text
unfolding has_prefix
card_of_key key = if has_prefix b'C' key then after_prefix key else key

later : Option ℤ → Option ℤ → Bool
later none none = false
later none (some s) = true
later (some d) none = false
later (some d) (some s) = not (leb_ℤ s d)

-- A state replaces the one at its key if there is none, or if it was read later.
unfoldable pub supersedes : Option State → State → Bool
unfolding later
supersedes none src = true
supersedes (some dst) src = later dst.last_read src.last_read

unfoldable pub merge_state : Text → State → List (Text × State) → List (Text × State)
unfolding supersedes
merge_state key s states = if supersedes (lookup key states) s then insert key s states else states

module _ (parse_time : Text → Option ℤ) (users : List User) where
  unfoldable pub load_key : Text → Text
  unfolding has_prefix card_of_key
  load_key key =
      if has_prefix b'U' key
      then key
      else state_key (find_card users (card_of_key key)) (card_of_key key)

  unfoldable pub load_state : PersistedCardState → State
  load_state p = record {
    presence = p.state;
    last_read = parse_time p.last_read;
    last_read_text = p.last_read;
  }

  unfoldable pub load_states : List (Text × PersistedCardState) → List (Text × State)
  unfolding load_key load_state merge_state
  load_states =
      foldl (λ states entry. merge_state (load_key entry.0) (load_state entry.1) states) []

abbrev clear_user : CardActivity → CardActivity
clear_user a = record a { user_id = pos 0; user_name = []; department = [] }

abbrev describe : Option User → CardActivity → CardActivity
describe none a = clear_user a
describe (some u) a = record a {
  user_id = u.id;
  user_name = full_name u;
  department = u.department;
}

module _ (users : List User) where
  unfoldable refresh_activity : Text × CardActivity → Text × CardActivity
  refresh_activity (card, a) = (card, describe (find_card users card) a)

  -- The keys to move, each with the user's key.
  unfoldable pub migrations : List (Text × State) → List (Text × Text)
  unfolding has_prefix card_of_key
  migrations [] = []
  migrations ((key, s) ∷ rest) =
      let more = migrations rest in
      if has_prefix b'U' key then more else elim (find_card users (card_of_key key)) [
        | none ↦ more
        | some u ↦ (key, user_state_key u.id) ∷ more
      ]

  unfoldable pub migrate : List (Text × State) → Text × Text → List (Text × State)
  unfolding merge_state
  migrate states (from, to) = elim (lookup from states) [
    | none ↦ states
    | some src ↦ delete from (merge_state to src states)
  ]

module _ {W : Type 0} (store : Store W) where
  unfoldable pub refresh_user_metadata : List User → Engine W → Engine W
  unfolding refresh_activity migrate migrations
  refresh_user_metadata users g = persist store (record g {
    states = foldl (migrate users) g.states (migrations users g.states);
    activities = map (refresh_activity users) g.activities;
  })

  -- Both saves must succeed; where one fails the old tables come back, in memory and in the store.
  unfoldable pub reset_site_activity : Engine W → Bool × Engine W
  unfolding persist
  reset_site_activity g =
      let first = store.save_card_states [] g.world in
      let second = store.save_activities [] first.1 in
      if not first.0
      then (false, record g { world = first.1 })
      else if not second.0
      then (false, persist store (record g { world = second.1 }))
      else (true, record g { states = []; activities = []; world = second.1 })
