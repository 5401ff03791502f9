-- ===== src/Controllers/Event/Safety.antt =====
-- src/controllers/ControllerManager.cpp: `handleControllerEvent` removes an event from the controller only
-- behind its storage.
use monk_skud_unex.Base.{
  ℕ, ◌%◌, List, [], Bool, true, ◌&&◌, Text, Option, ℤ, ◌≡◌, refl, ◌++◌, ◌∷◌, map, subst, ◌∙◌, arith,
  if◌then◌else◌, Bool-cases, Option-cases, inl, inr,
}
use monk_skud_unex.Types.{User, ControllerCardRecord, RawUnexEvent}
use monk_skud_unex.Text.Card.{parse_card_id}
use monk_skud_unex.Attendance.{Store, EventResult}
use monk_skud_unex.Protocol.Link.{Port, Link, tell, info, semantic}
use monk_skud_unex.Protocol.Event.{remove_oldest_event}
use monk_skud_unex.Controllers.Event.{
  Worker, on_link, touch, Settings, Handled, trace_event, remember_controller_card, create_unknown,
  note_card, prepare, store_event, remove_event, finish_event, name_of, handle_controller_event,
}

module _ {W V E C : Type 0} where
  trace_event-port :
      (node : ℕ) (evt : RawUnexEvent) (w : Worker W V E C)
      → (trace_event node evt w).1.link.port ≡ w.link.port
  unfolding trace_event tell
  trace_event-port node evt w = ground arith

module _ {W V E C : Type 0} (save_cards : List (Text × ControllerCardRecord) → C → C)
    (save_users : List User → V → Bool × V) (store : Store E) (parse_time : Text → Option ℤ)
    (io : Port W) (settings : Settings) where
  remember_controller_card-port :
      (card : Text) (node : ℕ) (name raw : Text) (w : Worker W V E C)
      → (remember_controller_card save_cards save_users store parse_time io settings card node name
          raw w).link.port
        ≡ w.link.port
  unfolding remember_controller_card
  remember_controller_card-port card node name raw w = elim (Option-cases (parse_card_id card)) [
    | inl bad ↦ rw (bad, remember_controller_card) refl
    | inr (number, good) ↦ rw (good, remember_controller_card) refl
  ]

  create_unknown-port :
      (node : ℕ) (card : Text) (w : Worker W V E C)
      → (create_unknown save_cards save_users store parse_time io settings node card w).link.port
        ≡ w.link.port
  unfolding create_unknown tell
  create_unknown-port node card w = ground arith

  note_card-port :
      (node : ℕ) (name : Text) (evt : RawUnexEvent) (w : Worker W V E C)
      → (note_card save_cards save_users store parse_time io settings node name evt w).link.port
        ≡ w.link.port
  unfolding note_card
  note_card-port node name evt w = ground (
    arith,
    create_unknown-port node evt.card (
        remember_controller_card save_cards save_users store parse_time io settings evt.card node
          name evt.raw_hex w),
    remember_controller_card-port evt.card node name evt.raw_hex w,
  )

  -- What is left behind the answer of the store: 37H goes out if and only if the event was stored.
  pub record IsFinished (node : ℕ) (port : W) (processed : EventResult)
      (result : Handled × Worker W V E C) : Type 0 where
    pub link : Link W
    pub silent : link.port ≡ port
    pub stored : result.0.stored ≡ processed.stored
    pub duplicate : processed.stored ≡ true → result.0.duplicate ≡ processed.duplicate
    pub removed :
        result.0.removed ≡ processed.stored && (remove_oldest_event io (node % 256) link).0
    pub wire :
        result.1.link.port
        ≡ (if processed.stored then (remove_oldest_event io (node % 256) link).1.port else port)

  finish_event-IsFinished :
      (node : ℕ) (log : Bool) (processed : EventResult) (w : Worker W V E C)
      → IsFinished node w.link.port processed
          (finish_event save_cards save_users store parse_time io settings node log (processed, w))
  unfolding finish_event remove_event tell
  finish_event-IsFinished node log processed w = elim (Bool-cases processed.stored) [
    | inl good ↦ record {
      link =
          (if processed.duplicate && log
            then on_link (tell info node 0x25 semantic []) w
            else w).link;
      silent = ground arith;
      stored = ground arith;
      duplicate = ground arith;
      removed = ground arith;
      wire = ground arith;
    }
    | inr bad ↦ record {
      link = w.link;
      silent = refl;
      stored = ground arith;
      duplicate = ground arith;
      removed = ground arith;
      wire = ground arith;
    }
  ]

  prepare-port :
      (node : ℕ) (evt : RawUnexEvent) (w : Worker W V E C)
      → (prepare save_cards save_users store parse_time io settings node evt w).link.port
        ≡ w.link.port
  unfolding prepare
  prepare-port node evt w =
      let traced = (trace_event node evt w).1 in
      note_card-port node (name_of node [] traced.controllers) evt (record traced {
        controllers = map (touch node settings.now evt.raw_hex) traced.controllers;
        reported =
            if settings.has_raw_callback then traced.reported ++ evt ∷ [] else traced.reported;
      })
      ∙ trace_event-port node evt w

  -- The answer of the store to an event.
  pub store_answer : ℕ → RawUnexEvent → Bool → Worker W V E C → EventResult
  store_answer node evt allow w =
      (store_event save_cards save_users store parse_time io settings node
        (name_of node [] (trace_event node evt w).1.controllers) evt allow
        (prepare save_cards save_users store parse_time io settings node evt w)).0

  -- `handleControllerEvent` sends 37H once if attendance or the raw log answers that it has the event,
  -- and reports the removal by the reply to it. An event that was not stored stays in the controller:
  -- nothing at all goes over the wire, and it is reported as not stored and not removed.
  pub handle_controller_event-IsFinished :
      (node : ℕ) (evt : RawUnexEvent) (allow : Bool) (w : Worker W V E C)
      → IsFinished node w.link.port (store_answer node evt allow w) (
          handle_controller_event save_cards save_users store parse_time io settings node evt allow
            w)
  unfolding handle_controller_event store_event store_answer
  handle_controller_event-IsFinished node evt allow w =
      let traced = trace_event node evt w in
      let noted = prepare save_cards save_users store parse_time io settings node evt w in
      let done =
        store_event save_cards save_users store parse_time io settings node
          (name_of node [] traced.1.controllers) evt allow noted in
      subst
        (λ port.
          IsFinished node port done.0
            (finish_event save_cards save_users store parse_time io settings node traced.0 done))
        (prepare-port node evt w) (finish_event-IsFinished node traced.0 done.0 done.1)
