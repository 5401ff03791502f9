-- ===== src/Attendance/Presence.antt =====
-- src/attendance/AttendanceEngine.cpp: what one delivery does to the presence of every key.
use monk_skud_unex.Base.{
  List, Bool, false, ◌&&◌, not, Text, Option, ℤ, ◌≡◌, refl, arith, is_empty, if◌then◌else◌,
  bytes_eq, bytes_eq_iff, Bool-cases, inl, inr,
}
use monk_skud_unex.Base.Map.{insert, text_eq, lookup-insert}
use monk_skud_unex.Types.{User, AttendanceEvent}
use monk_skud_unex.Users.Ops.{find_card}
use monk_skud_unex.Attendance.{
  Store, State, Engine, Access, state_at, state_key, persist, notify, settle, event_time, outcome,
  process, on_controller_access_event,
}

state_at-insert :
    (states : List (Text × State)) (key k : Text) (st : State)
    → state_at (insert key st states) k ≡ (if bytes_eq key k then st else state_at states k)
state_at-insert states key k st = ground (arith, lookup-insert key k st states)

-- An entry is made for the key with the state that the key had anyway.
state_at-touch :
    (states : List (Text × State)) (key k : Text)
    → state_at (insert key (state_at states key) states) k ≡ state_at states k
state_at-touch states key k =
    ground (arith, state_at-insert states key k (state_at states key), bytes_eq_iff key k)

module _ {W : Type 0} (store : Store W) where
  notify-states :
      (allow : Bool) (e : AttendanceEvent) (g : Engine W)
      → (notify store allow e g).states ≡ g.states
  unfolding notify
  notify-states allow e g = ground arith

  settle-states :
      (key : Text) (st : State) (e : AttendanceEvent) (g : Engine W)
      → (settle store key st e g).states ≡ insert key st g.states
  unfolding settle persist
  settle-states key st e g = refl

module _ {W : Type 0} (store : Store W) (parse_time : Text → Option ℤ) (repeat : ℤ) where
  pub process-state_at :
      (user : Option User) (a : Access) (allow : Bool) (time : Text × Option ℤ) (g : Engine W)
      (k : Text)
      → state_at (process store parse_time repeat user a allow time g).1.states k ≡ (
          if (process store parse_time repeat user a allow time g).0.stored
            && bytes_eq (state_key user a.card) k
          then (outcome store parse_time repeat user
              (state_at g.states (state_key user a.card))
              a
              time).1
          else state_at g.states k)
  unfolding process
  process-state_at user a allow time g k =
      let key = state_key user a.card in
      let st = state_at g.states key in
      let out = outcome store parse_time repeat user st a time in
      let appended = store.append_event out.0 g.world in
      let touched : Engine W = record g { states = insert key st g.states; world = appended.1 } in
      elim (Bool-cases appended.0) [
        | inl ok ↦
            rw (ok, process, notify-states, settle-states, state_at-insert)
              (ground (arith, state_at-touch g.states key k))
        | inr failed ↦ rw (failed, process) (state_at-touch g.states key k)
      ]

  pub process-event :
      (user : Option User) (a : Access) (allow : Bool) (time : Text × Option ℤ) (g : Engine W)
      → ((process store parse_time repeat user a allow time g).0.duplicate ≡ false)
        × ((process store parse_time repeat user a allow time g).0.event
            ≡ (outcome store parse_time repeat user
                (state_at g.states (state_key user a.card))
                a
                time).0)
  unfolding process
  process-event user a allow time g = ground arith

  -- One delivery changes the state of at most one key: that of the card's user, or of the card where
  -- nobody owns it, and only if it was stored and is no duplicate. There the state becomes the one that
  -- the read's outcome says; so a delivery that could not be stored moves nobody in or out.
  pub on_controller_access_event-state_at :
      (users : List User) (now : Text) (a : Access) (allow : Bool) (g : Engine W) (k : Text)
      → let r = on_controller_access_event store parse_time repeat users now a allow g in
        let user = find_card users a.card in
        let key = state_key user a.card in
        state_at r.1.states k ≡ (
          if not r.0.duplicate && r.0.stored && bytes_eq key k
          then (outcome store parse_time repeat user
              (state_at g.states key)
              a
              (event_time store parse_time now a.event_timestamp)).1
          else state_at g.states k)
  unfolding on_controller_access_event
  on_controller_access_event-state_at users now a allow g k =
      let time = event_time store parse_time now a.event_timestamp in
      elim (Bool-cases
        (not (is_empty a.raw) && store.has_controller_event a.node a.raw time.0 g.world)) [
          | inl seen ↦ rw (seen, on_controller_access_event) refl
          | inr new ↦
              rw
                (
                  new,
                  on_controller_access_event,
                  (process-event (find_card users a.card) a allow time g).0,
                )
                (process-state_at (find_card users a.card) a allow time g k)
        ]
