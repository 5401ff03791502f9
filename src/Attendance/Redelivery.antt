-- ===== src/Attendance/Redelivery.antt =====
-- src/attendance/AttendanceEngine.cpp: a controller repeats an event until it is told to drop it. The
-- engine counts it once.
use monk_skud_unex.Base.{
  ℕ, List, [], ◌∷◌, Bool, true, false, ◌&&◌, not, Text, Option, none, some, ℤ, pos, ◌≡◌, refl,
  arith, is_empty, Bool-cases, inl, inr,
}
use monk_skud_unex.Base.Map.{insert, text_eq}
use monk_skud_unex.Types.{User, AttendanceEvent, CardActivity, PersistedCardState}
use monk_skud_unex.Users.Ops.{find_card}
use monk_skud_unex.Attendance.Alternation.{Delivery, deliver_all}
use monk_skud_unex.Attendance.{
  Store, State, Engine, Access, state_at, state_key, persist, notify, settle, event_time, outcome,
  process, on_controller_access_event, with_user,
}

-- What the engine relies on: on a world of the right shape, an event of the kind that the store can keep
-- is found by its controller, frame and time once it was appended; a later event and saving the tables
-- lose none; and the shape of the world is kept.
pub record Keeps {W : Type 0} (store : Store W) (IsSound : W → Type 0)
    (IsKept : ℕ → Text → Text → Type 0) : Type 0 where
  pub appended :
      (e : AttendanceEvent) (node : ℕ) (w : W)
      → IsSound w
      → IsKept node e.raw_hex e.timestamp
      → e.controller_node ≡ pos node
      → (store.append_event e w).0 ≡ true
      → store.has_controller_event node e.raw_hex e.timestamp (store.append_event e w).1 ≡ true
  pub later :
      (e : AttendanceEvent) (node : ℕ) (raw ts : Text) (w : W)
      → IsSound w
      → store.has_controller_event node raw ts w ≡ true
      → store.has_controller_event node raw ts (store.append_event e w).1 ≡ true
  pub states :
      (t : List (Text × PersistedCardState)) (node : ℕ) (raw ts : Text) (w : W)
      → store.has_controller_event node raw ts w ≡ true
      → store.has_controller_event node raw ts (store.save_card_states t w).1 ≡ true
  pub activities :
      (t : List CardActivity) (node : ℕ) (raw ts : Text) (w : W)
      → store.has_controller_event node raw ts w ≡ true
      → store.has_controller_event node raw ts (store.save_activities t w).1 ≡ true
  pub append_sound : (e : AttendanceEvent) (w : W) → IsSound w → IsSound (store.append_event e w).1
  pub states_sound :
      (t : List (Text × PersistedCardState)) (w : W)
      → IsSound w
      → IsSound (store.save_card_states t w).1
  pub activities_sound :
      (t : List CardActivity) (w : W) → IsSound w → IsSound (store.save_activities t w).1

module _ {W : Type 0} (store : Store W) (parse_time : Text → Option ℤ) {IsSound : W → Type 0}
    {IsKept : ℕ → Text → Text → Type 0} (laws : Keeps store IsSound IsKept) where
  notify-world :
      (allow : Bool) (e : AttendanceEvent) (g : Engine W) → (notify store allow e g).world ≡ g.world
  unfolding notify
  notify-world allow e g = ground arith

  -- The event is in a world of the right shape.
  abbrev IsHeld : ℕ → Text → Text → W → Type 0
  IsHeld node raw ts w = IsSound w × (store.has_controller_event node raw ts w ≡ true)

  settle-IsHeld :
      (key : Text) (st : State) (e : AttendanceEvent) (g : Engine W) (node : ℕ) (raw ts : Text)
      → IsHeld node raw ts g.world
      → IsHeld node raw ts (settle store key st e g).world
  unfolding settle persist
  settle-IsHeld key st e g node raw ts (sound, h) = (
    laws.activities_sound _ _ (laws.states_sound _ _ sound),
    laws.activities _ node raw ts _ (laws.states _ node raw ts _ h),
  )

  appended-found :
      (e : AttendanceEvent) (w : W) (node : ℕ) (raw ts : Text)
      → IsSound w
      → IsKept node raw ts
      → e.controller_node ≡ pos node
      → e.raw_hex ≡ raw
      → e.timestamp ≡ ts
      → (store.append_event e w).0 ≡ true
      → IsHeld node raw ts (store.append_event e w).1
  appended-found e w node raw ts sound kept hn hr ht ok = (
    laws.append_sound e w sound,
    ground (arith, laws.appended e node w sound (rw (hr, ht) kept) hn ok),
  )

  outcome-event :
      (repeat : ℤ) (user : Option User) (st : State) (a : Access) (time : Text × Option ℤ)
      → let e = (outcome store parse_time repeat user st a time).0 in
        (e.controller_node ≡ pos a.node) × (e.raw_hex ≡ a.raw) × (e.timestamp ≡ time.0)
  unfolding outcome with_user
  outcome-event repeat none st a time = (refl, refl, refl)
  outcome-event repeat (some u) st a time = (refl, refl, refl)

  process-found :
      (repeat : ℤ) (user : Option User) (a : Access) (allow : Bool) (time : Text × Option ℤ)
      (g : Engine W)
      → IsSound g.world
      → IsKept a.node a.raw time.0
      → (process store parse_time repeat user a allow time g).0.stored ≡ true
      → IsHeld a.node a.raw time.0 (process store parse_time repeat user a allow time g).1.world
  unfolding process
  process-found repeat user a allow time g sound kept h =
      let key = state_key user a.card in
      let st = state_at g.states key in
      let out = outcome store parse_time repeat user st a time in
      let facts = outcome-event repeat user st a time in
      elim (Bool-cases (store.append_event out.0 g.world).0) [
        | inr failed ↦ absurd (ground arith)
        | inl ok ↦
            rw (ok, process, notify-world)
              (settle-IsHeld key out.1 out.0
                (record g {
                  states = insert key st g.states;
                  world = (store.append_event out.0 g.world).1;
                })
                a.node a.raw time.0
                (appended-found out.0 g.world a.node a.raw time.0 sound kept facts.0 facts.1 facts.2
                  ok))
      ]

  found_after :
      (repeat : ℤ) (users : List User) (now : Text) (a : Access) (allow : Bool) (g : Engine W)
      → let r = on_controller_access_event store parse_time repeat users now a allow g in
        let ts = (event_time store parse_time now a.event_timestamp).0 in
        IsSound g.world
        → IsKept a.node a.raw ts
        → r.0.stored ≡ true
        → IsHeld a.node a.raw ts r.1.world
  unfolding on_controller_access_event
  found_after repeat users now a allow g sound kept h =
      let time = event_time store parse_time now a.event_timestamp in
      elim (Bool-cases
        (not (is_empty a.raw) && store.has_controller_event a.node a.raw time.0 g.world)) [
          | inl seen ↦ rw (seen, on_controller_access_event) (sound, ground arith)
          | inr new ↦
              rw (new, on_controller_access_event)
                (process-found repeat (find_card users a.card) a allow time g sound kept
                  (rw (new, on_controller_access_event) at h))
        ]

  process-IsHeld :
      (repeat : ℤ) (user : Option User) (a : Access) (allow : Bool) (time : Text × Option ℤ)
      (g : Engine W) (node : ℕ) (raw ts : Text)
      → IsHeld node raw ts g.world
      → IsHeld node raw ts (process store parse_time repeat user a allow time g).1.world
  unfolding process
  process-IsHeld repeat user a allow time g node raw ts (sound, h) =
      let key = state_key user a.card in
      let st = state_at g.states key in
      let out = outcome store parse_time repeat user st a time in
      let world = (store.append_event out.0 g.world).1 in
      let held : IsHeld node raw ts world =
        (laws.append_sound out.0 g.world sound, laws.later out.0 node raw ts g.world sound h) in
      elim (Bool-cases (store.append_event out.0 g.world).0) [
        | inr failed ↦ rw (failed, process) held
        | inl ok ↦
            rw (ok, process, notify-world)
              (settle-IsHeld key out.1 out.0
                (record g { states = insert key st g.states; world = world }) node raw ts held)
      ]

  deliver_all-IsHeld :
      (ds : List Delivery) (g : Engine W) (node : ℕ) (raw ts : Text)
      → IsHeld node raw ts g.world
      → IsHeld node raw ts (deliver_all store parse_time ds g).1.world
  unfolding deliver_all on_controller_access_event
  deliver_all-IsHeld [] g node raw ts h = h
  deliver_all-IsHeld (d ∷ ds) g node raw ts h =
      let a = d.access in
      let time = event_time store parse_time d.now a.event_timestamp in
      elim (Bool-cases
        (not (is_empty a.raw) && store.has_controller_event a.node a.raw time.0 g.world)) [
          | inl seen ↦
              rw (seen, deliver_all, on_controller_access_event)
                (deliver_all-IsHeld ds g node raw ts h)
          | inr new ↦
              rw (new, deliver_all, on_controller_access_event)
                (deliver_all-IsHeld ds
                  (process store parse_time d.repeat (find_card d.users a.card) a d.allow time g).1
                  node raw ts
                  (process-IsHeld d.repeat (find_card d.users a.card) a d.allow time g node raw ts
                    h))
        ]

  found-duplicate :
      (repeat : ℤ) (users : List User) (now : Text) (a : Access) (allow : Bool) (g : Engine W)
      → is_empty a.raw ≡ false
      → store.has_controller_event a.node a.raw
          (event_time store parse_time now a.event_timestamp).0
          g.world
        ≡ true
      → let r = on_controller_access_event store parse_time repeat users now a allow g in
        (r.0.stored ≡ true) × (r.0.duplicate ≡ true) × (r.1 ≡ g)
  unfolding on_controller_access_event
  found-duplicate repeat users now a allow g hr h =
      rw (hr, h, on_controller_access_event) (refl, refl, refl)

  own_time :
      (now ts : Text) (t : ℤ) → parse_time ts ≡ some t → (event_time store parse_time now ts).0 ≡ ts
  unfolding event_time
  own_time now ts t h = rw (h, event_time) refl

  -- Where the store keeps the event, a frame with an own, readable time that was stored as an access counts
  -- once: delivered again, directly or behind any series of other deliveries, with whatever users, settings
  -- and clock, it is answered as stored and as a duplicate, and leaves presences, activities, notifications
  -- and the store as they are.
  pub redelivery-unchanged :
      (repeat again : ℤ) (users later : List User) (now then_now : Text) (a : Access)
      (allow allow_then : Bool) (t : ℤ) (between : List Delivery) (g : Engine W)
      → IsSound g.world
      → IsKept a.node a.raw a.event_timestamp
      → is_empty a.raw ≡ false
      → parse_time a.event_timestamp ≡ some t
      → (on_controller_access_event store parse_time repeat users now a allow g).0.stored ≡ true
      → let first = (on_controller_access_event store parse_time repeat users now a allow g).1 in
        let after = (deliver_all store parse_time between first).1 in
        let second =
          on_controller_access_event store parse_time again later then_now a allow_then after in
        (second.0.stored ≡ true) × (second.0.duplicate ≡ true) × (second.1 ≡ after)
  redelivery-unchanged repeat again users later now then_now a allow allow_then t between g sound
        kept hr ht h =
      let ts = a.event_timestamp in
      let first = (on_controller_access_event store parse_time repeat users now a allow g).1 in
      let held : IsHeld a.node a.raw ts first.world =
        rw (own_time now ts t ht) at
          (found_after repeat users now a allow g sound (rw (own_time now ts t ht) kept) h) in
      let after = (deliver_all store parse_time between first).1 in
      found-duplicate again later then_now a allow_then after hr
        (rw (own_time then_now ts t ht) (deliver_all-IsHeld between first a.node a.raw ts held).1)
