-- ===== src/Controllers/Event.antt =====
-- src/controllers/ControllerManager.cpp: `handleControllerEvent` and `rememberControllerCard`, the way of
-- one event from the controller's queue into the store and out of the queue.
pub mod Drain
pub mod Safety
use monk_skud_unex.Base.{
  ℕ, suc, ◌+◌, ◌%◌, List, [], ◌∷◌, ◌++◌, Bool, true, false, ◌&&◌, not, Text, Option, none, some, ℤ,
  pos, eq_ℤ, ◌==◌, if◌then◌else◌, is_empty, map, bytes_eq,
}
use monk_skud_unex.Base.Map.{lookup, insert, text_eq}
use monk_skud_unex.Text.Number.{to_string}
use monk_skud_unex.Text.Card.{parse_card_id, format_card_id}
use monk_skud_unex.Types.{User, Controller, ControllerCardRecord, RawUnexEvent}
use monk_skud_unex.Users.Ops.{UserManager, find_card, ensure_user_for_card}
use monk_skud_unex.Attendance.{
  Engine, Store, Access, EventResult, on_controller_access_event, record_controller_raw_event,
}
use monk_skud_unex.Attendance.Maintenance.{refresh_user_metadata}
use monk_skud_unex.Protocol.Link.{Port, Link, M, tell, Direction, Wire, event, info, semantic}
use monk_skud_unex.Protocol.Event.{remove_oldest_event}

-- What the worker reads and writes for one event. `W`, `V`, `E` and `C` are the worlds of the serial
-- port, of the user store, of the attendance store and of the controller store.
pub record Worker (W V E C : Type 0) : Type 0 where
  pub link : Link W
  pub controllers : List Controller
  pub cards : List (Text × ControllerCardRecord)
  pub cards_world : C
  pub manager : UserManager V
  pub engine : Engine E
  pub last_event_trace_raw : Text
  pub reported : List RawUnexEvent

-- The settings that an event depends on, and the local time at which it is handled.
pub record Settings : Type 0 where
  pub auto_create_unknown : Bool
  pub has_raw_callback : Bool
  pub repeat_seconds : ℤ
  pub card_word : Text
  pub now : Text

pub record Handled : Type 0 where
  pub stored : Bool
  pub duplicate : Bool
  pub removed : Bool

abbrev card_key : ℕ → Text → Text
card_key node canonical = to_string node ++ b'|' ∷ canonical

-- The record of a card that was not seen before, and of one that was.
unfoldable see_card : Text → ℕ → Text → Option ControllerCardRecord → ControllerCardRecord
see_card canonical node now none = record {
  card = canonical;
  controller_node = node;
  controller_name = [];
  first_seen = now;
  last_seen = now;
  read_count = 0;
  last_raw_hex = [];
}
see_card canonical node now (some x) = x

unfoldable pub remember_card :
    ℕ
    → Text
    → Text
    → Text
    → ℕ × ℕ
    → List (Text × ControllerCardRecord)
    → List (Text × ControllerCardRecord)
unfolding see_card
remember_card node name now raw (series, number) cards =
    let canonical = format_card_id series number in
    let key = card_key node canonical in
    let x = see_card canonical node now (lookup key cards) in
    insert key
      (record x {
        controller_name = name;
        last_seen = now;
        read_count = suc x.read_count;
        last_raw_hex = raw;
      })
      cards

-- The name of the last controller with the node.
unfoldable pub name_of : ℕ → Text → List Controller → Text
name_of node found [] = found
name_of node found (c ∷ cs) = name_of node (if c.node == node then c.name else found) cs

unfoldable pub touch : ℕ → Text → Text → Controller → Controller
touch node now raw c =
    if c.node == node then record c { online = true; last_seen = now; last_raw_hex = raw } else c

module _ {W V E C : Type 0} where
  abbrev pub on_link : M W Unit → Worker W V E C → Worker W V E C
  on_link m w = record w { link = (m w.link).1 }

  -- One trace line for a frame that was not the last one.
  unfoldable pub trace_event : ℕ → RawUnexEvent → Worker W V E C → Bool × Worker W V E C
  trace_event node evt w = if bytes_eq w.last_event_trace_raw evt.raw_hex then (false, w) else (
    true,
    on_link (tell event node 0x25 semantic evt.frame)
        (record w { last_event_trace_raw = evt.raw_hex }),
  )

module _ {W V E C : Type 0} (save_cards : List (Text × ControllerCardRecord) → C → C)
    (save_users : List User → V → Bool × V) (store : Store E) (parse_time : Text → Option ℤ)
    (io : Port W) (settings : Settings) where
  unfoldable pub remember_controller_card : Text → ℕ → Text → Text → Worker W V E C → Worker W V E C
  unfolding remember_card
  remember_controller_card card node name raw w = elim (parse_card_id card) [
    | none ↦ w
    | some number ↦
        let cards = remember_card node name settings.now raw number w.cards in
        record w { cards = cards; cards_world = save_cards cards w.cards_world }
  ]

  -- An unknown card becomes a user where the setting says so.
  unfoldable pub create_unknown : ℕ → Text → Worker W V E C → Worker W V E C
  create_unknown node card w =
      let created = ensure_user_for_card save_users settings.card_word card w.manager in
      let refreshed = λ (g : Engine E). refresh_user_metadata store created.1.users g in
      elim (find_card w.manager.users card) [
        | some u ↦ w
        | none ↦
            if settings.auto_create_unknown
            then elim created.0 [
              | none ↦ record w { manager = created.1 }
              | some u ↦
                  on_link (tell info node 0x25 semantic [])
                    (record w { manager = created.1; engine = refreshed w.engine })
            ]
            else w
      ]

  unfoldable pub note_card : ℕ → Text → RawUnexEvent → Worker W V E C → Worker W V E C
  note_card node name evt w =
      if is_empty evt.card
      then w
      else create_unknown node evt.card (remember_controller_card evt.card node name evt.raw_hex w)

  abbrev pub access_of : ℕ → Text → RawUnexEvent → Access
  access_of node name evt = record {
    card = evt.card;
    node = node;
    controller = name;
    raw = evt.raw_hex;
    event_timestamp = evt.event_timestamp;
  }

  -- A valid access (0BH) with a card counts for attendance; any other frame is only stored.
  unfoldable pub store_event :
      ℕ → Text → RawUnexEvent → Bool → Worker W V E C → EventResult × Worker W V E C
  store_event node name evt allow w =
      let a = access_of node name evt in
      let r =
        if eq_ℤ evt.event_code (pos 0x0b) && not (is_empty evt.card)
        then on_controller_access_event store parse_time settings.repeat_seconds w.manager.users
            settings.now a allow w.engine
        else record_controller_raw_event store parse_time settings.now a w.engine in
      (r.0, record w { engine = r.1 })

  -- The 37H, sent only behind a stored event.
  unfoldable pub remove_event : ℕ → Bool → EventResult → Worker W V E C → Handled × Worker W V E C
  remove_event node log_semantic processed w =
      let told =
        if processed.duplicate && log_semantic
        then on_link (tell info node 0x25 semantic []) w
        else w in
      let (gone, link) = remove_oldest_event io (node % 256) told.link in
      let after = record told { link = link } in
      (
        record { stored = true; duplicate = processed.duplicate; removed = gone },
        if log_semantic then on_link (tell info node 0x37 semantic []) after else after,
      )

  unfoldable pub finish_event : ℕ → Bool → EventResult × Worker W V E C → Handled × Worker W V E C
  finish_event node log_semantic (processed, w) =
      if processed.stored then remove_event node log_semantic processed w else (
        record { stored = false; duplicate = false; removed = false },
        on_link (tell info node 0x25 semantic []) w,
      )

  -- What happens before the event is stored: its trace line, the controller's state, and its card.
  unfoldable pub prepare : ℕ → RawUnexEvent → Worker W V E C → Worker W V E C
  unfolding touch name_of
  prepare node evt w =
      let traced = (trace_event node evt w).1 in
      note_card node (name_of node [] traced.controllers) evt (record traced {
        controllers = map (touch node settings.now evt.raw_hex) traced.controllers;
        reported =
            if settings.has_raw_callback then traced.reported ++ evt ∷ [] else traced.reported;
      })

  unfoldable pub handle_controller_event :
      ℕ → RawUnexEvent → Bool → Worker W V E C → Handled × Worker W V E C
  unfolding name_of
  handle_controller_event node evt allow w =
      let (log_semantic, traced) = trace_event node evt w in
      let name = name_of node [] traced.controllers in
      finish_event node log_semantic (store_event node name evt allow (prepare node evt w))
