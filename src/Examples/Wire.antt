-- ===== src/Examples/Wire.antt =====
-- A port that answers from a list of replies, and the commands of src/unex/Unex721Protocol.cpp on it.
use monk_skud_unex.Base.{
  ℕ, List, [], ◌∷◌, Bool, true, false, Bytes, pos, codes, ◌≡◌, ◌≤◌, ◌<◌, get_or, within, some, refl,
  arith, replicate,
}
use monk_skud_unex.Types.{User, new_user}
use monk_skud_unex.Protocol.Frame.{frame}
use monk_skud_unex.Protocol.Link.{Port, Link}
use monk_skud_unex.Protocol.Upload.{write_user, clear_user_slot, delete_user}
use monk_skud_unex.Protocol.Upload.Verified.{IsUploaded, write_user-IsUploaded}

abbrev next_reply : List Bytes → Bytes × List Bytes
next_reply [] = ([], [])
next_reply (r ∷ rs) = (r, rs)

abbrev pub scripted : Port (List Bytes)
scripted = record {
  write_all = λ bytes w. (true, w);
  read_frame = λ timeout w. next_reply w;
  read_extended_frame = λ timeout w. next_reply w;
}

abbrev pub link_with : List Bytes → Link (List Bytes)
link_with replies = record { port = replies; trace = [] }

-- What node 1 answers: a slot record, and an acknowledgement.
abbrev pub slot_reply : Bytes → Bytes
slot_reply bytes = frame 0 0x03 (1 ∷ bytes)

abbrev pub ack_reply : Bytes
ack_reply = frame 0 0x04 (1 ∷ [])

abbrev pub ivanov : User
ivanov = record new_user {
  id = pos 7;
  card = codes "123:45678";
  cards = codes "123:45678" ∷ [];
  controller_port = pos 5;
}

abbrev pub ivanov_record : Bytes
ivanov_record = 0 ∷ 123 ∷ 178 ∷ 110 ∷ 0 ∷ 0 ∷ 1 ∷ 1 ∷ []

abbrev pub upload_link : Link (List Bytes)
upload_link =
    link_with
      (slot_reply (0 ∷ 0 ∷ 0 ∷ 0 ∷ 0 ∷ 0 ∷ 0 ∷ 0 ∷ []) ∷ ack_reply ∷ slot_reply ivanov_record ∷ [])

upload_ok : (write_user scripted 1 ivanov upload_link).0.ok ≡ true
unfolding write_user frame monk_skud_unex.Base.bytes_eq monk_skud_unex.Protocol.Frame.extended_frame
    monk_skud_unex.Protocol.Frame.sum_from monk_skud_unex.Protocol.Frame.trailer_ok
    monk_skud_unex.Protocol.Frame.valid_extended_frame monk_skud_unex.Protocol.Frame.valid_frame
    monk_skud_unex.Protocol.Frame.xor_from monk_skud_unex.Protocol.Link.await
    monk_skud_unex.Protocol.Link.exchange monk_skud_unex.Protocol.Link.on_port
    monk_skud_unex.Protocol.Link.tell monk_skud_unex.Protocol.Link.transact
    monk_skud_unex.Protocol.Link.transact_extended monk_skud_unex.Protocol.Reply.check_ack
    monk_skud_unex.Protocol.Slot.access_mode_from_byte monk_skud_unex.Protocol.Slot.compact_record
    monk_skud_unex.Protocol.Slot.data_echo monk_skud_unex.Protocol.Slot.decode_reply
    monk_skud_unex.Protocol.Slot.decode_user monk_skud_unex.Protocol.Slot.long_record
    monk_skud_unex.Protocol.Slot.read_extended monk_skud_unex.Protocol.Slot.read_slot
    monk_skud_unex.Protocol.Slot.read_user monk_skud_unex.Protocol.Upload.access_mode_byte
    monk_skud_unex.Protocol.Upload.compare_record monk_skud_unex.Protocol.Upload.confirm_record
    monk_skud_unex.Protocol.Upload.needs_pin monk_skud_unex.Protocol.Upload.parse_pin
    monk_skud_unex.Protocol.Upload.primary_card monk_skud_unex.Protocol.Upload.send_record
    monk_skud_unex.Protocol.Upload.time_zone monk_skud_unex.Protocol.Upload.user_record
    monk_skud_unex.Protocol.Upload.write_at monk_skud_unex.Protocol.Upload.write_card
    monk_skud_unex.Protocol.Upload.write_slot monk_skud_unex.Protocol.Upload.write_status
    monk_skud_unex.Protocol.Upload.write_with_card monk_skud_unex.Protocol.Upload.write_with_pin
    monk_skud_unex.Text.Card.is_card_separator monk_skud_unex.Text.Card.parse_card_id
    monk_skud_unex.Text.Card.unpack_card monk_skud_unex.Text.Escape.hex
    monk_skud_unex.Text.Number.all_of monk_skud_unex.Text.Number.bounded
    monk_skud_unex.Text.Number.is_digit monk_skud_unex.Text.Number.is_xdigit
    monk_skud_unex.Text.Number.parse_unsigned_base monk_skud_unex.Text.Number.value
    monk_skud_unex.Text.cut monk_skud_unex.Text.drop_spaces monk_skud_unex.Text.is_space
    monk_skud_unex.Text.trim
upload_ok = refl

write_user-IsUploaded_example :
    IsUploaded scripted 1 ivanov (write_user scripted 1 ivanov upload_link).1
write_user-IsUploaded_example = write_user-IsUploaded scripted 1 ivanov upload_link upload_ok
