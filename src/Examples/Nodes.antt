-- ===== src/Examples/Nodes.antt =====
-- The change of a node of src/unex/Unex721Protocol.cpp on a scripted port.
use monk_skud_unex.Base.{
  ℕ, List, [], ◌∷◌, Bool, true, false, Bytes, pos, codes, ◌≡◌, ◌≤◌, ◌<◌, get_or, within, some, refl,
  arith, replicate,
}
use monk_skud_unex.Protocol.Frame.{frame}
use monk_skud_unex.Protocol.Link.{Port, Link}
use monk_skud_unex.Protocol.Upload.{write_user, clear_user_slot, delete_user}
use monk_skud_unex.Protocol.NodeId.{set_node_id}
use monk_skud_unex.Protocol.NodeId.Verified.{IsRenumbered, set_node_id-IsRenumbered}
use monk_skud_unex.Protocol.Eeprom.{read_eeprom, write_eeprom, disable_pass_any_cards}
use monk_skud_unex.Examples.Wire.{scripted, link_with}

abbrev node_reply : ℕ → Bytes
node_reply node = frame 0 0x03 (node ∷ 0 ∷ 0 ∷ 0 ∷ 0 ∷ [])

abbrev node_link : Link (List Bytes)
node_link = link_with (node_reply 1 ∷ frame 0 0x04 (2 ∷ 0 ∷ []) ∷ node_reply 2 ∷ [])

node_ok : (set_node_id scripted 1 2 node_link).0.ok ≡ true
unfolding frame monk_skud_unex.Base.bytes_eq monk_skud_unex.Protocol.Frame.extended_frame
    monk_skud_unex.Protocol.Frame.sum_from monk_skud_unex.Protocol.Frame.trailer_ok
    monk_skud_unex.Protocol.Frame.valid_extended_frame monk_skud_unex.Protocol.Frame.valid_frame
    monk_skud_unex.Protocol.Frame.xor_from monk_skud_unex.Protocol.Link.await
    monk_skud_unex.Protocol.Link.exchange monk_skud_unex.Protocol.Link.on_port
    monk_skud_unex.Protocol.Link.tell monk_skud_unex.Protocol.Link.transact
    monk_skud_unex.Protocol.Link.transact_extended monk_skud_unex.Protocol.Reply.check_ack
    monk_skud_unex.Protocol.Slot.access_mode_from_byte monk_skud_unex.Protocol.Slot.compact_record
    monk_skud_unex.Protocol.Slot.data_echo monk_skud_unex.Protocol.Slot.decode_reply
    monk_skud_unex.Protocol.Slot.decode_user monk_skud_unex.Protocol.Slot.long_record
    monk_skud_unex.Protocol.Slot.read_extended monk_skud_unex.Protocol.Slot.read_slot
    monk_skud_unex.Protocol.Slot.read_user monk_skud_unex.Protocol.Upload.access_mode_byte
    monk_skud_unex.Protocol.Upload.compare_record monk_skud_unex.Protocol.Upload.confirm_record
    monk_skud_unex.Protocol.Upload.needs_pin monk_skud_unex.Protocol.Upload.parse_pin
    monk_skud_unex.Protocol.Upload.primary_card monk_skud_unex.Protocol.Upload.send_record
    monk_skud_unex.Protocol.Upload.time_zone monk_skud_unex.Protocol.Upload.user_record
    monk_skud_unex.Protocol.Upload.write_at monk_skud_unex.Protocol.Upload.write_card
    monk_skud_unex.Protocol.Upload.write_slot monk_skud_unex.Protocol.Upload.write_status
    monk_skud_unex.Protocol.Upload.write_with_card monk_skud_unex.Protocol.Upload.write_with_pin
    monk_skud_unex.Text.Card.is_card_separator monk_skud_unex.Text.Card.parse_card_id
    monk_skud_unex.Text.Card.unpack_card monk_skud_unex.Text.Escape.hex
    monk_skud_unex.Text.Number.all_of monk_skud_unex.Text.Number.bounded
    monk_skud_unex.Text.Number.is_digit monk_skud_unex.Text.Number.is_xdigit
    monk_skud_unex.Text.Number.parse_unsigned_base monk_skud_unex.Text.Number.value
    monk_skud_unex.Text.cut monk_skud_unex.Text.drop_spaces monk_skud_unex.Text.is_space
    monk_skud_unex.Text.trim set_node_id disable_pass_any_cards
    monk_skud_unex.Protocol.Eeprom.after_write monk_skud_unex.Protocol.Eeprom.decode_eeprom
    monk_skud_unex.Protocol.Eeprom.rewrite_option monk_skud_unex.Protocol.Eeprom.verify_eeprom
    monk_skud_unex.Protocol.NodeId.after_ack monk_skud_unex.Protocol.NodeId.after_set
    monk_skud_unex.Protocol.NodeId.change_node_id monk_skud_unex.Protocol.NodeId.decode_probe
    monk_skud_unex.Protocol.NodeId.read_node_id monk_skud_unex.Protocol.NodeId.verify_node_id
    read_eeprom write_eeprom
node_ok = refl

set_node_id-IsRenumbered_example :
    IsRenumbered scripted 1 2 node_link (set_node_id scripted 1 2 node_link).1
set_node_id-IsRenumbered_example = set_node_id-IsRenumbered scripted 1 2 node_link node_ok
