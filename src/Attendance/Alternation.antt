-- ===== src/Attendance/Alternation.antt =====
-- src/attendance/AttendanceEngine.cpp: over any series of deliveries the passages of a user alternate.
use monk_skud_unex.Base.{
  List, [], ◌∷◌, ◌++◌, Bool, true, false, ◌&&◌, not, Text, Option, none, some, ℤ, eq_ℤ, ◌≡◌, refl,
  ap, ◌∙◌, arith, is_empty, if◌then◌else◌, bytes_eq, bytes_eq_iff, Bool-cases, inl, inr,
}
use monk_skud_unex.Types.{User, PresenceState, absent, present, AttendanceEventType}
use monk_skud_unex.Users.Ops.{find_card}
use monk_skud_unex.Attendance.{
  Store, State, Engine, EventResult, Access, state_at, state_key, user_state_key, classify, flip,
  is_passage, event_time, outcome, process, on_controller_access_event, with_user,
}
use monk_skud_unex.Attendance.Key.{bytes_eq-user_state_key}
use monk_skud_unex.Attendance.Presence.{process-event, process-state_at}

-- The arrivals and departures that a result adds to the record of the user.
unfoldable pub passage : ℤ → EventResult → List AttendanceEventType
passage id r =
    if r.stored && not r.duplicate && eq_ℤ r.event.user_id id && is_passage r.event.event_type
    then r.event.event_type ∷ []
    else []

unfoldable pub passages : ℤ → List EventResult → List AttendanceEventType
passages id [] = []
passages id (r ∷ rs) = passage id r ++ passages id rs

-- The presence behind a series of passages, if each one fits the presence it meets.
unfoldable pub walk : PresenceState → List AttendanceEventType → Option PresenceState
walk p [] = some p
walk absent (AttendanceEventType.arrival ∷ es) = walk present es
walk present (AttendanceEventType.departure ∷ es) = walk absent es
walk _ (e ∷ es) = none

walk-append :
    (p q : PresenceState) (xs es : List AttendanceEventType)
    → walk p xs ≡ some q
    → walk p (xs ++ es) ≡ walk q es
unfolding walk
walk-append p q [] es h = ground arith
walk-append absent q (AttendanceEventType.arrival ∷ xs) es h = walk-append present q xs es h
walk-append present q (AttendanceEventType.departure ∷ xs) es h = walk-append absent q xs es h
walk-append p q (x ∷ xs) es h = absurd (ground arith)

-- What a delivery comes with: the settings and the users of that moment, the clock and the frame.
pub record Delivery : Type 0 where
  pub repeat : ℤ
  pub users : List User
  pub now : Text
  pub access : Access
  pub allow : Bool

module _ {W : Type 0} (store : Store W) (parse_time : Text → Option ℤ) where
  abbrev pub deliver : Delivery → Engine W → EventResult × Engine W
  deliver d g =
      on_controller_access_event store parse_time d.repeat d.users d.now d.access d.allow g

  unfoldable pub deliver_all : List Delivery → Engine W → List EventResult × Engine W
  deliver_all [] g = ([], g)
  deliver_all (d ∷ ds) g =
      let r = deliver d g in let rest = deliver_all ds r.1 in (r.0 ∷ rest.0, rest.1)

  abbrev pub presence : ℤ → Engine W → PresenceState
  presence id g = (state_at g.states (user_state_key id)).presence

  outcome-walk :
      (repeat : ℤ) (user : Option User) (a : Access) (time : Text × Option ℤ) (st : State)
      (p : PresenceState) (id : ℤ) (r : EventResult)
      → let o = outcome store parse_time repeat user st a time in
        (bytes_eq (state_key user a.card) (user_state_key id) ≡ true → st.presence ≡ p)
        → r.duplicate ≡ false
        → r.event ≡ o.0
        → walk p (passage id r)
          ≡ some (
              if r.stored && bytes_eq (state_key user a.card) (user_state_key id)
              then o.1.presence
              else p)
  unfolding outcome classify flip passage walk is_passage with_user state_key
  outcome-walk repeat none a time st p id r hp hd he = ground arith
  outcome-walk repeat (some u) a time st p id r hp hd he =
      ground (arith, bytes_eq-user_state_key u.id id)

  deliver-walk :
      (d : Delivery) (g : Engine W) (id : ℤ)
      → walk (presence id g) (passage id (deliver d g).0) ≡ some (presence id (deliver d g).1)
  unfolding on_controller_access_event passage walk
  deliver-walk d g id =
      let a = d.access in
      let user = find_card d.users a.card in
      let key = state_key user a.card in
      let time = event_time store parse_time d.now a.event_timestamp in
      let r = process store parse_time d.repeat user a d.allow time g in
      let facts = process-event store parse_time d.repeat user a d.allow time g in
      elim (Bool-cases
        (not (is_empty a.raw) && store.has_controller_event a.node a.raw time.0 g.world)) [
          | inl seen ↦ rw (seen, on_controller_access_event) refl
          | inr new ↦
              rw (new, on_controller_access_event)
                (outcome-walk d.repeat user a time (state_at g.states key) (presence id g) id r.0
                    (λ same.
                      ap (λ k. (state_at g.states k).presence)
                        ((bytes_eq_iff key (user_state_key id)).0 same))
                    facts.0 facts.1
                  ∙ ground (
                    arith,
                    process-state_at store parse_time d.repeat user a d.allow time g
                        (user_state_key id),
                  ))
        ]

  -- For every user id and every series of deliveries, whatever the users, the settings and the clock of
  -- each: the arrivals and departures that were stored for the id alternate, beginning with the one that
  -- fits the presence of before, and the presence that is left is the one behind the last of them.
  pub deliver_all-walk :
      (ds : List Delivery) (g : Engine W) (id : ℤ)
      → walk (presence id g) (passages id (deliver_all ds g).0)
        ≡ some (presence id (deliver_all ds g).1)
  unfolding deliver_all passages walk
  deliver_all-walk [] g id = refl
  deliver_all-walk (d ∷ ds) g id =
      let r = deliver d g in
      walk-append (presence id g) (presence id r.1) (passage id r.0)
        (passages id (deliver_all ds r.1).0) (deliver-walk d g id)
      ∙ deliver_all-walk ds r.1 id
