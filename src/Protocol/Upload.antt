-- ===== src/Protocol/Upload.antt =====
-- src/unex/Unex721Protocol.cpp: `writeUser`, `clearUserSlot`, `deleteUser`, `clearAllUsers`. Each write
-- of a slot is one 83H, whose acknowledgement is not believed until an 87H reads the record back.
pub mod Verified
use monk_skud_unex.Base.{
  ℕ, Bool, true, false, ◌&&◌, ◌||◌, not, Bytes, Text, Option, none, some, ℤ, within, ltb, leb, ◌==◌,
  if◌then◌else◌, length, get_or, set, ◌∷◌, [], codes, is_empty, bytes_eq, replicate, List, pos,
}
use monk_skud_unex.Text.{trim}
use monk_skud_unex.Text.Number.{all_of, is_digit, value}
use monk_skud_unex.Text.Card.{parse_card_id}
use monk_skud_unex.Types.{User}
use monk_skud_unex.Types.Jobs.{Status}
use monk_skud_unex.Protocol.Link.{Port, M, pure, ◌>>=◌, transact}
use monk_skud_unex.Protocol.Reply.{
  Reply, no_reply, short, nack, unexpected, acknowledged, check_ack, high, low,
}
use monk_skud_unex.Protocol.Slot.{UserReadOutcome, read_user}

pub record UserWriteOutcome : Type 0 where
  pub ok : Bool
  pub status : Status

abbrev pub failure : Status → UserWriteOutcome
failure status = record { ok = false; status = status }

abbrev pub success : Status → UserWriteOutcome
success status = record { ok = true; status = status }

-- An empty PIN is 0; any other has four digits and is not 0000.
unfoldable pub parse_pin : Text → Option ℕ
unfolding trim all_of is_digit value
parse_pin pin =
    let s = trim pin in
    let v = value 10 0 s in
    if is_empty s
    then some 0
    else if not (length s == 4) || not (all_of is_digit s)
    then none
    else if ltb v 1 || ltb 9999 v
    then none
    else some v

unfoldable pub needs_pin : User → Bool
needs_pin user =
    bytes_eq user.access_mode (codes "card_or_pin")
    || bytes_eq user.access_mode (codes "card_and_pin")

unfoldable pub access_mode_byte : User → ℕ
access_mode_byte user =
    if not user.enabled
    then 0x00
    else if bytes_eq user.access_mode (codes "card_or_pin")
    then 0x02
    else if bytes_eq user.access_mode (codes "card_and_pin")
    then 0x03
    else 0x01

front : List Text → Text
front [] = []
front (c ∷ cs) = c

unfoldable pub primary_card : User → Text
unfolding front
primary_card user = if is_empty user.card then front user.cards else user.card

-- What one 83H led to: a refusal, a read-back that failed or differs, or a confirmed record.
pub data SlotWrite : Type 0 where
  refused : Reply → SlotWrite
  unreadable different confirmed : SlotWrite

-- The test of the read-back.
unfoldable pub compare_record : Bytes → UserReadOutcome → SlotWrite
compare_record expected after =
    if not after.ok || not (length after.raw_record == 8)
    then unreadable
    else if bytes_eq after.raw_record expected
    then confirmed
    else different

-- An existing slot keeps its time zone, if it has one.
unfoldable pub time_zone : UserReadOutcome → ℕ
time_zone before =
    if before.is_present && length before.raw_record == 8 && leb (get_or before.raw_record 7 0) 0x0b
    then get_or before.raw_record 7 0
    else 0x01

unfoldable pub user_record : ℕ → ℕ → ℕ → ℕ → ℕ → Bytes
user_record site card pin mode zone =
    high site ∷ low site ∷ high card ∷ low card ∷ high pin ∷ low pin ∷ mode ∷ zone ∷ []

unfoldable pub write_status : SlotWrite → UserWriteOutcome
write_status (refused no_reply) = failure Status.write_timeout
write_status (refused nack) = failure Status.write_nack
write_status (refused _) = failure Status.write_error
write_status unreadable = failure Status.verify_failed
write_status different = failure Status.verify_failed
write_status confirmed = success Status.written_verified

unfoldable pub clear_status : SlotWrite → UserWriteOutcome
clear_status (refused no_reply) = failure Status.clear_slot_timeout
clear_status (refused nack) = failure Status.clear_slot_nack
clear_status (refused _) = failure Status.clear_slot_error
clear_status unreadable = failure Status.clear_slot_verify_failed
clear_status different = failure Status.clear_slot_verify_failed
clear_status confirmed = success Status.slot_cleared_verified

unfoldable pub delete_status : SlotWrite → UserWriteOutcome
delete_status (refused no_reply) = failure Status.delete_timeout
delete_status (refused nack) = failure Status.delete_nack
delete_status (refused _) = failure Status.delete_error
delete_status unreadable = failure Status.verify_failed
delete_status different = failure Status.verify_failed
delete_status confirmed = success Status.invalidated_verified

unfoldable pub clear_all_status : Reply → UserWriteOutcome
clear_all_status no_reply = failure Status.clear_timeout
clear_all_status short = failure Status.clear_error
clear_all_status nack = failure Status.clear_nack
clear_all_status unexpected = failure Status.clear_error
clear_all_status acknowledged = success Status.cleared_all

module _ {W : Type 0} (io : Port W) where
  unfoldable pub send_record : ℕ → ℕ → Bytes → M W Reply
  send_record node a expected = do
    ack ← transact io node 0x83 (high a ∷ low a ∷ expected) 500
    pure (check_ack 6 ack)

  unfoldable pub confirm_record : ℕ → ℕ → Bytes → Reply → M W SlotWrite
  confirm_record node a expected acknowledged = do
    after ← read_user io node (pos a)
    pure (compare_record expected after)
  confirm_record node a expected other = pure (refused other)

  unfoldable pub write_slot : ℕ → ℕ → Bytes → M W SlotWrite
  write_slot node a expected = do
    reply ← send_record node a expected
    confirm_record node a expected reply

  -- The pre-read, and the write where it succeeds.
  unfoldable pub write_card : ℕ → ℕ → ℕ → ℕ → ℕ → ℕ → M W UserWriteOutcome
  write_card node a site card pin mode = do
    before ← read_user io node (pos a)
    if before.ok
        then (do
          result ← write_slot node a (user_record site card pin mode (time_zone before))
          pure (write_status result))
        else pure (failure Status.precheck_failed)

  -- The guards of `writeUser`, in its order: the PIN, the card, the address.
  unfoldable pub write_with_pin : ℕ → User → ℕ → ℕ × ℕ → Option ℕ → M W UserWriteOutcome
  write_with_pin node user a number none = pure (failure Status.invalid_user)
  write_with_pin node user a (site, card) (some pin) =
      if needs_pin user && pin == 0
      then pure (failure Status.invalid_user)
      else write_card node a site card pin (access_mode_byte user)

  unfoldable pub write_with_card : ℕ → User → ℕ → Option (ℕ × ℕ) → M W UserWriteOutcome
  write_with_card node user a none = pure (failure Status.invalid_user)
  write_with_card node user a (some number) =
      write_with_pin node user a number (parse_pin user.pin_code)

  unfoldable pub write_at : ℕ → User → Option ℕ → M W UserWriteOutcome
  write_at node user none = pure (failure Status.skipped)
  write_at node user (some a) = write_with_card node user a (parse_card_id (primary_card user))

  unfoldable pub write_user : ℕ → User → M W UserWriteOutcome
  unfolding write_at write_with_card write_with_pin
  write_user node user = write_at node user (within 1023 user.controller_port)

  unfoldable pub clear_all_users : ℕ → M W UserWriteOutcome
  clear_all_users node = do
    ack ← transact io node 0x85 [] 12000
    pure (clear_all_status (check_ack 6 ack))

  unfoldable pub clear_at : ℕ → Option ℕ → M W UserWriteOutcome
  clear_at node none = pure (failure Status.clear_slot_invalid)
  clear_at node (some a) = do
    result ← write_slot node a (replicate 8 0x00)
    pure (clear_status result)

  unfoldable pub clear_user_slot : ℕ → ℤ → M W UserWriteOutcome
  unfolding clear_at
  clear_user_slot node address = clear_at node (within 1023 address)

  -- The slot that was read, with its mode set to 0.
  unfoldable pub invalidate : ℕ → ℕ → UserReadOutcome → M W UserWriteOutcome
  invalidate node a before =
      if not before.ok
      then pure (failure Status.precheck_failed)
      else if not (length before.raw_record == 8)
      then pure (failure Status.unsupported_record)
      else if get_or before.raw_record 6 0 == 0
      then pure (success Status.already_invalid)
      else do result ← write_slot node a (set before.raw_record 6 0x00); pure (delete_status result)

  unfoldable pub delete_at : ℕ → Option ℕ → M W UserWriteOutcome
  delete_at node none = pure (failure Status.skipped)
  delete_at node (some a) = do before ← read_user io node (pos a); invalidate node a before

  unfoldable pub delete_user : ℕ → User → M W UserWriteOutcome
  unfolding delete_at
  delete_user node user = delete_at node (within 1023 user.controller_port)
