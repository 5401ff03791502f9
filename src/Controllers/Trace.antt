-- ===== src/Controllers/Trace.antt =====
-- src/controllers/ControllerManager.cpp: the ring of the last thousand protocol messages, and its pages.
pub mod Bounded
use monk_skud_unex.Base.{
  ℕ, ◌+◌, ◌-◌, max, min, List, [], ◌∷◌, ◌++◌, Text, Bytes, ℤ, ltb, if◌then◌else◌, length, take,
  drop,
}
use monk_skud_unex.Text.Escape.{hex}

pub record ProtocolTraceEntry : Type 0 where
  pub id : ℕ
  pub timestamp : Text
  pub direction : Text
  pub node : ℤ
  pub command : ℤ
  pub protocol : Text
  pub raw_hex : Text
  pub message : Text
  pub card : Text
  pub user_address : ℤ

pub record Ring : Type 0 where
  pub entries : List ProtocolTraceEntry
  pub next_id : ℕ
  pub last_event_raw : Text

-- A message before it has its number and its time.
pub record Message : Type 0 where
  pub direction : Text
  pub node : ℤ
  pub command : ℤ
  pub protocol : Text
  pub frame : Bytes
  pub message : Text
  pub card : Text
  pub user_address : ℤ

abbrev pub trace_limit : ℕ
trace_limit = 1000

abbrev pub entry_of : ℕ → Text → Message → ProtocolTraceEntry
entry_of id now m = record {
  id = id;
  timestamp = now;
  direction = m.direction;
  node = m.node;
  command = m.command;
  protocol = m.protocol;
  raw_hex = hex m.frame;
  message = m.message;
  card = m.card;
  user_address = m.user_address;
}

-- `while (size > 1000) pop_front`.
unfoldable pub append_protocol_trace : Text → Message → Ring → Ring
append_protocol_trace now m r =
    let entries = r.entries ++ entry_of r.next_id now m ∷ [] in
    record r { entries = drop (length entries - trace_limit) entries; next_id = r.next_id + 1 }

unfoldable pub entries_after : ℕ → List ProtocolTraceEntry → List ProtocolTraceEntry
entries_after id [] = []
entries_after id (e ∷ es) = let rest = entries_after id es in if ltb id e.id then e ∷ rest else rest

-- The page behind an id, of 1 to 500 entries.
unfoldable pub protocol_trace : ℕ → ℕ → Ring → List ProtocolTraceEntry
unfolding entries_after
protocol_trace after limit r = take (max 1 (min limit 500)) (entries_after after r.entries)

unfoldable pub clear_protocol_trace : Ring → Ring
clear_protocol_trace r = record r { entries = []; last_event_raw = [] }
