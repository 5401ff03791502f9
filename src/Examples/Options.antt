-- ===== src/Examples/Options.antt =====
-- The EEPROM commands of src/unex/Unex721Protocol.cpp on a scripted port.
use monk_skud_unex.Base.{
  ℕ, List, [], ◌∷◌, Bool, true, false, Bytes, pos, codes, ◌≡◌, ◌≤◌, ◌<◌, get_or, within, some, refl,
  arith, replicate,
}
use monk_skud_unex.Protocol.Frame.{frame}
use monk_skud_unex.Protocol.Link.{Port, Link}
use monk_skud_unex.Protocol.Upload.{write_user, clear_user_slot, delete_user}
use monk_skud_unex.Protocol.Eeprom.{read_eeprom, write_eeprom, disable_pass_any_cards}
use monk_skud_unex.Protocol.Eeprom.Verified.{
  Holds, IsPassAnyDisabled, write_eeprom-Holds, disable_pass_any_cards-IsPassAnyDisabled,
}
use monk_skud_unex.Examples.Wire.{scripted, link_with, slot_reply, ack_reply}

abbrev eeprom_link : Link (List Bytes)
eeprom_link = link_with (ack_reply ∷ slot_reply (0x41 ∷ 0x42 ∷ []) ∷ [])

eeprom_ok : (write_eeprom scripted 1 (pos 0x0016) (0x41 ∷ 0x42 ∷ []) eeprom_link).0.ok ≡ true
unfolding frame monk_skud_unex.Base.bytes_eq monk_skud_unex.Protocol.Frame.extended_frame
    monk_skud_unex.Protocol.Frame.sum_from monk_skud_unex.Protocol.Frame.trailer_ok
    monk_skud_unex.Protocol.Frame.valid_extended_frame monk_skud_unex.Protocol.Frame.valid_frame
    monk_skud_unex.Protocol.Frame.xor_from monk_skud_unex.Protocol.Link.await
    monk_skud_unex.Protocol.Link.exchange monk_skud_unex.Protocol.Link.on_port
    monk_skud_unex.Protocol.Link.tell monk_skud_unex.Protocol.Link.transact
    monk_skud_unex.Protocol.Link.transact_extended monk_skud_unex.Protocol.Reply.check_ack
    monk_skud_unex.Protocol.Slot.access_mode_from_byte monk_skud_unex.Protocol.Slot.compact_record
    monk_skud_unex.Protocol.Slot.data_echo monk_skud_unex.Protocol.Slot.decode_reply
    monk_skud_unex.Protocol.Slot.decode_user monk_skud_unex.Protocol.Slot.long_record
    monk_skud_unex.Protocol.Slot.read_extended monk_skud_unex.Protocol.Slot.read_slot
    monk_skud_unex.Protocol.Slot.read_user monk_skud_unex.Protocol.Upload.access_mode_byte
    monk_skud_unex.Protocol.Upload.compare_record monk_skud_unex.Protocol.Upload.confirm_record
    monk_skud_unex.Protocol.Upload.needs_pin monk_skud_unex.Protocol.Upload.parse_pin
    monk_skud_unex.Protocol.Upload.primary_card monk_skud_unex.Protocol.Upload.send_record
    monk_skud_unex.Protocol.Upload.time_zone monk_skud_unex.Protocol.Upload.user_record
    monk_skud_unex.Protocol.Upload.write_at monk_skud_unex.Protocol.Upload.write_card
    monk_skud_unex.Protocol.Upload.write_slot monk_skud_unex.Protocol.Upload.write_status
    monk_skud_unex.Protocol.Upload.write_with_card monk_skud_unex.Protocol.Upload.write_with_pin
    monk_skud_unex.Text.Card.is_card_separator monk_skud_unex.Text.Card.parse_card_id
    monk_skud_unex.Text.Card.unpack_card monk_skud_unex.Text.Escape.hex
    monk_skud_unex.Text.Number.all_of monk_skud_unex.Text.Number.bounded
    monk_skud_unex.Text.Number.is_digit monk_skud_unex.Text.Number.is_xdigit
    monk_skud_unex.Text.Number.parse_unsigned_base monk_skud_unex.Text.Number.value
    monk_skud_unex.Text.cut monk_skud_unex.Text.drop_spaces monk_skud_unex.Text.is_space
    monk_skud_unex.Text.trim write_eeprom disable_pass_any_cards
    monk_skud_unex.Protocol.Eeprom.after_write monk_skud_unex.Protocol.Eeprom.decode_eeprom
    monk_skud_unex.Protocol.Eeprom.rewrite_option monk_skud_unex.Protocol.Eeprom.verify_eeprom
    read_eeprom
eeprom_ok = refl

write_eeprom-Holds_example :
    Holds scripted 1
      (pos 0x0016)
      (0x41 ∷ 0x42 ∷ [])
      (write_eeprom scripted 1 (pos 0x0016) (0x41 ∷ 0x42 ∷ []) eeprom_link).1
write_eeprom-Holds_example =
    write_eeprom-Holds scripted 1 (pos 0x0016) (0x41 ∷ 0x42 ∷ []) eeprom_link eeprom_ok

abbrev option_link : Link (List Bytes)
option_link = link_with (slot_reply (0x61 ∷ []) ∷ ack_reply ∷ slot_reply (0x41 ∷ []) ∷ [])

option_ok : (disable_pass_any_cards scripted 1 option_link).0.ok ≡ true
unfolding frame monk_skud_unex.Base.bytes_eq monk_skud_unex.Protocol.Frame.extended_frame
    monk_skud_unex.Protocol.Frame.sum_from monk_skud_unex.Protocol.Frame.trailer_ok
    monk_skud_unex.Protocol.Frame.valid_extended_frame monk_skud_unex.Protocol.Frame.valid_frame
    monk_skud_unex.Protocol.Frame.xor_from monk_skud_unex.Protocol.Link.await
    monk_skud_unex.Protocol.Link.exchange monk_skud_unex.Protocol.Link.on_port
    monk_skud_unex.Protocol.Link.tell monk_skud_unex.Protocol.Link.transact
    monk_skud_unex.Protocol.Link.transact_extended monk_skud_unex.Protocol.Reply.check_ack
    monk_skud_unex.Protocol.Slot.access_mode_from_byte monk_skud_unex.Protocol.Slot.compact_record
    monk_skud_unex.Protocol.Slot.data_echo monk_skud_unex.Protocol.Slot.decode_reply
    monk_skud_unex.Protocol.Slot.decode_user monk_skud_unex.Protocol.Slot.long_record
    monk_skud_unex.Protocol.Slot.read_extended monk_skud_unex.Protocol.Slot.read_slot
    monk_skud_unex.Protocol.Slot.read_user monk_skud_unex.Protocol.Upload.access_mode_byte
    monk_skud_unex.Protocol.Upload.compare_record monk_skud_unex.Protocol.Upload.confirm_record
    monk_skud_unex.Protocol.Upload.needs_pin monk_skud_unex.Protocol.Upload.parse_pin
    monk_skud_unex.Protocol.Upload.primary_card monk_skud_unex.Protocol.Upload.send_record
    monk_skud_unex.Protocol.Upload.time_zone monk_skud_unex.Protocol.Upload.user_record
    monk_skud_unex.Protocol.Upload.write_at monk_skud_unex.Protocol.Upload.write_card
    monk_skud_unex.Protocol.Upload.write_slot monk_skud_unex.Protocol.Upload.write_status
    monk_skud_unex.Protocol.Upload.write_with_card monk_skud_unex.Protocol.Upload.write_with_pin
    monk_skud_unex.Text.Card.is_card_separator monk_skud_unex.Text.Card.parse_card_id
    monk_skud_unex.Text.Card.unpack_card monk_skud_unex.Text.Escape.hex
    monk_skud_unex.Text.Number.all_of monk_skud_unex.Text.Number.bounded
    monk_skud_unex.Text.Number.is_digit monk_skud_unex.Text.Number.is_xdigit
    monk_skud_unex.Text.Number.parse_unsigned_base monk_skud_unex.Text.Number.value
    monk_skud_unex.Text.cut monk_skud_unex.Text.drop_spaces monk_skud_unex.Text.is_space
    monk_skud_unex.Text.trim disable_pass_any_cards monk_skud_unex.Protocol.Eeprom.after_write
    monk_skud_unex.Protocol.Eeprom.decode_eeprom monk_skud_unex.Protocol.Eeprom.rewrite_option
    monk_skud_unex.Protocol.Eeprom.verify_eeprom read_eeprom write_eeprom
option_ok = refl

option_byte : get_or (read_eeprom scripted 1 (pos 0x0016) (pos 1) option_link).0.bytes 0 0 < 256
unfolding frame monk_skud_unex.Base.bytes_eq monk_skud_unex.Protocol.Frame.extended_frame
    monk_skud_unex.Protocol.Frame.sum_from monk_skud_unex.Protocol.Frame.trailer_ok
    monk_skud_unex.Protocol.Frame.valid_extended_frame monk_skud_unex.Protocol.Frame.valid_frame
    monk_skud_unex.Protocol.Frame.xor_from monk_skud_unex.Protocol.Link.await
    monk_skud_unex.Protocol.Link.exchange monk_skud_unex.Protocol.Link.on_port
    monk_skud_unex.Protocol.Link.tell monk_skud_unex.Protocol.Link.transact
    monk_skud_unex.Protocol.Link.transact_extended monk_skud_unex.Protocol.Reply.check_ack
    monk_skud_unex.Protocol.Slot.access_mode_from_byte monk_skud_unex.Protocol.Slot.compact_record
    monk_skud_unex.Protocol.Slot.data_echo monk_skud_unex.Protocol.Slot.decode_reply
    monk_skud_unex.Protocol.Slot.decode_user monk_skud_unex.Protocol.Slot.long_record
    monk_skud_unex.Protocol.Slot.read_extended monk_skud_unex.Protocol.Slot.read_slot
    monk_skud_unex.Protocol.Slot.read_user monk_skud_unex.Protocol.Upload.access_mode_byte
    monk_skud_unex.Protocol.Upload.compare_record monk_skud_unex.Protocol.Upload.confirm_record
    monk_skud_unex.Protocol.Upload.needs_pin monk_skud_unex.Protocol.Upload.parse_pin
    monk_skud_unex.Protocol.Upload.primary_card monk_skud_unex.Protocol.Upload.send_record
    monk_skud_unex.Protocol.Upload.time_zone monk_skud_unex.Protocol.Upload.user_record
    monk_skud_unex.Protocol.Upload.write_at monk_skud_unex.Protocol.Upload.write_card
    monk_skud_unex.Protocol.Upload.write_slot monk_skud_unex.Protocol.Upload.write_status
    monk_skud_unex.Protocol.Upload.write_with_card monk_skud_unex.Protocol.Upload.write_with_pin
    monk_skud_unex.Text.Card.is_card_separator monk_skud_unex.Text.Card.parse_card_id
    monk_skud_unex.Text.Card.unpack_card monk_skud_unex.Text.Escape.hex
    monk_skud_unex.Text.Number.all_of monk_skud_unex.Text.Number.bounded
    monk_skud_unex.Text.Number.is_digit monk_skud_unex.Text.Number.is_xdigit
    monk_skud_unex.Text.Number.parse_unsigned_base monk_skud_unex.Text.Number.value
    monk_skud_unex.Text.cut monk_skud_unex.Text.drop_spaces monk_skud_unex.Text.is_space
    monk_skud_unex.Text.trim read_eeprom monk_skud_unex.Protocol.Eeprom.decode_eeprom
option_byte = omega arith

disable_pass_any_cards-IsPassAnyDisabled_example :
    IsPassAnyDisabled scripted 1 option_link (disable_pass_any_cards scripted 1 option_link).1
disable_pass_any_cards-IsPassAnyDisabled_example =
    disable_pass_any_cards-IsPassAnyDisabled scripted 1 option_link option_byte option_ok
