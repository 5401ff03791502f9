-- ===== src/Protocol/NodeId.antt =====
-- src/unex/Unex721Protocol.cpp: `ping`, `readNodeId` (24H) and `setNodeId` (80H).
pub mod Verified
use monk_skud_unex.Base.{
  ℕ, Bool, true, false, ◌||◌, not, Bytes, Text, Option, none, some, ℤ, pos, negsuc, eq_ℤ, ltb, ◌==◌,
  if◌then◌else◌, length, get_or, ◌∷◌, [],
}
use monk_skud_unex.Text.Escape.{hex}
use monk_skud_unex.Types.Jobs.{Status}
use monk_skud_unex.Protocol.Link.{Port, M, pure, tell, info, semantic, ◌>>=◌, ◌>>◌, transact}
use monk_skud_unex.Protocol.Reply.{Reply, no_reply, nack, acknowledged, check_ack}

pub record NodeProbeOutcome : Type 0 where
  pub ok : Bool
  pub requested_node : ℕ
  pub reported_node : ℤ
  pub raw_frame_hex : Text

pub record NodeIdChangeOutcome : Type 0 where
  pub ok : Bool
  pub old_node : ℕ
  pub new_node : ℕ
  pub status : Status

unfoldable pub is_node : ℕ → Bool
is_node n = not (ltb n 1 || ltb 254 n)

-- `NodeProbeOutcome{}` for a requested node.
abbrev pub no_probe : ℕ → NodeProbeOutcome
no_probe node = record {
  ok = false;
  requested_node = node;
  reported_node = negsuc 0;
  raw_frame_hex = [];
}

-- What a 24H reply says of the reader behind a node.
unfoldable pub decode_probe : ℕ → Option Bytes → NodeProbeOutcome
unfolding is_node
decode_probe node none = no_probe node
decode_probe node (some r) =
    let out = record (no_probe node) { raw_frame_hex = hex r } in
    let id = get_or r 4 0 in
    if ltb (length r) 10
    then out
    else if not (get_or r 2 0 == 0x00) || not (get_or r 3 0 == 0x03)
    then out
    else record out { ok = is_node id; reported_node = pos id }

module _ {W : Type 0} (io : Port W) where
  unfoldable pub read_node_id : ℕ → M W NodeProbeOutcome
  read_node_id node = do r ← transact io node 0x24 [] 180; pure (decode_probe node r)

  unfoldable pub ping : ℕ → M W Bool
  ping node = do probe ← read_node_id node; pure probe.ok

  abbrev pub id_change : ℕ → ℕ → Bool → Status → NodeIdChangeOutcome
  id_change old_node new_node ok status = record {
    ok = ok;
    old_node = old_node;
    new_node = new_node;
    status = status;
  }

  -- The control 24H at the new node.
  unfoldable pub verify_node_id : ℕ → ℕ → M W NodeIdChangeOutcome
  verify_node_id current new = do
    after ← read_node_id new
    if not after.ok || not (eq_ℤ after.reported_node (pos new))
        then pure (id_change current new false Status.verify_failed)
        else (do
          tell info new 0x80 semantic []
          pure (id_change current new true Status.node_id_changed))

  -- The 80H, answered by the reader under its new node.
  unfoldable pub after_ack : ℕ → ℕ → Bytes → Reply → M W NodeIdChangeOutcome
  after_ack current new ack acknowledged =
      if get_or ack 4 0 == new
      then verify_node_id current new
      else pure (id_change current new false Status.ack_id_mismatch)
  after_ack current new ack nack = pure (id_change current new false Status.write_nack)
  after_ack current new ack no_reply = pure (id_change current new false Status.write_timeout)
  after_ack current new ack other = pure (id_change current new false Status.write_error)

  unfoldable pub after_set : ℕ → ℕ → Option Bytes → M W NodeIdChangeOutcome
  after_set current new none = pure (id_change current new false Status.write_timeout)
  after_set current new (some ack) = after_ack current new ack (check_ack 7 (some ack))

  unfoldable pub change_node_id : ℕ → ℕ → NodeProbeOutcome → M W NodeIdChangeOutcome
  change_node_id current new before =
      if not before.ok
      then pure (id_change current new false Status.precheck_failed)
      else if not (eq_ℤ before.reported_node (pos current))
      then pure (id_change current new false Status.id_mismatch)
      else if current == new
      then pure (id_change current new true Status.unchanged)
      else do ack ← transact io current 0x80 (new ∷ []) 500; after_set current new ack

  unfoldable pub set_node_id : ℕ → ℕ → M W NodeIdChangeOutcome
  unfolding is_node
  set_node_id current new =
      if not (is_node current) || not (is_node new)
      then pure (id_change current new false Status.invalid_node)
      else do before ← read_node_id current; change_node_id current new before
