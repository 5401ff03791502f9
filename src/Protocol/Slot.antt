-- ===== src/Protocol/Slot.antt =====
-- src/unex/Unex721Protocol.cpp: `readUser`, the 87H command, and the record of a user slot.
use monk_skud_unex.Base.{
  ℕ, ◌+◌, ◌-◌, ◌*◌, Bool, true, false, ◌&&◌, not, Bytes, Text, Option, none, some, ℤ, within, ltb,
  leb, ◌==◌, if◌then◌else◌, length, get_or, take, drop, ◌∷◌, [], codes,
}
use monk_skud_unex.Text.Escape.{hex}
use monk_skud_unex.Text.Number.{all_of}
use monk_skud_unex.Protocol.Link.{Port, M, pure, ◌>>=◌, transact, transact_extended}
use monk_skud_unex.Protocol.Reply.{high, low, nack_code}

pub record UserReadOutcome : Type 0 where
  pub ok : Bool
  pub is_present : Bool
  pub enabled : Bool
  pub address : ℤ
  pub uid1 : ℕ
  pub uid2 : ℕ
  pub pin : ℕ
  pub mode : ℕ
  pub access_mode : Text
  pub card_known : Bool
  pub details_known : Bool
  pub raw_record_hex : Text
  pub raw_record : Bytes

-- `UserReadOutcome{}` with its address.
abbrev pub no_outcome : ℤ → UserReadOutcome
no_outcome address = record {
  ok = false;
  is_present = false;
  enabled = false;
  address = address;
  uid1 = 0;
  uid2 = 0;
  pin = 0;
  mode = 0;
  access_mode = [];
  card_known = true;
  details_known = true;
  raw_record_hex = [];
  raw_record = [];
}

unfoldable pub access_mode_from_byte : ℕ → Text
access_mode_from_byte mode =
    if mode == 0x02
    then codes "card_or_pin"
    else if mode == 0x03
    then codes "card_and_pin"
    else if leb mode 0x01
    then codes "card"
    else []

-- The reply is a data echo (03H) with at least `size` bytes; `at` is the place of its function code.
unfoldable pub data_echo : ℕ → ℕ → Option Bytes → Option Bytes
data_echo size at none = none
data_echo size at (some r) =
    if ltb (length r) size
    then none
    else if get_or r at 0 == nack_code
    then none
    else if not (get_or r at 0 == 0x03)
    then none
    else some r

-- SiteH SiteL CardH CardL PINH PINL Mode Zone.
unfoldable pub compact_record : ℤ → Bytes → UserReadOutcome
unfolding access_mode_from_byte all_of
compact_record address record8 =
    let mode = get_or record8 6 0 in
    record {
      ok = true;
      is_present = not (all_of (λ b. b == 0x00) record8);
      enabled = not (mode == 0);
      address = address;
      uid1 = get_or record8 0 0 * 256 + get_or record8 1 0;
      uid2 = get_or record8 2 0 * 256 + get_or record8 3 0;
      pin = get_or record8 4 0 * 256 + get_or record8 5 0;
      mode = mode;
      access_mode = access_mode_from_byte mode;
      card_known = true;
      details_known = leb mode 3;
      raw_record_hex = hex record8;
      raw_record = record8;
    }

-- The record of 24 bytes: four bytes stand before the card.
unfoldable pub long_record : ℤ → ℕ → Bytes → Bytes → UserReadOutcome
unfolding access_mode_from_byte
long_record address begin r raw =
    let at = λ (i : ℕ). get_or r (begin + 4 + i) 0 in
    let uid1 = at 0 * 256 + at 1 in
    let uid2 = at 2 * 256 + at 3 in
    let mode = at 8 in
    record {
      ok = true;
      is_present = not (mode == 0 && uid1 == 0xffff && uid2 == 0xffff);
      enabled = ltb 0 mode;
      address = address;
      uid1 = uid1;
      uid2 = uid2;
      pin = at 4 * 16777216 + at 5 * 65536 + at 6 * 256 + at 7;
      mode = mode;
      access_mode = access_mode_from_byte mode;
      card_known = true;
      details_known = true;
      raw_record_hex = hex raw;
      raw_record = raw;
    }

-- The record stands from `begin` up to the trailer.
unfoldable pub decode_user : ℤ → ℕ → Bytes → UserReadOutcome
unfolding compact_record long_record
decode_user address begin r =
    let size = length r - 2 - begin in
    let raw = take size (drop begin r) in
    if ltb (length r) (begin + 2)
    then no_outcome address
    else if size == 8
    then compact_record address raw
    else if leb 24 size
    then long_record address begin r raw
    else record (no_outcome address) { raw_record = raw; raw_record_hex = hex raw }

unfoldable pub decode_reply : ℤ → ℕ → Option Bytes → UserReadOutcome
unfolding decode_user
decode_reply address begin none = no_outcome address
decode_reply address begin (some r) = decode_user address begin r

module _ {W : Type 0} (io : Port W) where
  -- The fallback, on the extended transport.
  unfoldable pub read_extended : ℤ → ℕ → Bytes → M W UserReadOutcome
  unfolding data_echo decode_reply
  read_extended address node read_data = do
    er ← transact_extended io node 0x87 read_data 350
    pure (decode_reply address 9 (data_echo 11 7 er))

  unfoldable pub read_slot : ℤ → ℕ → ℕ → M W UserReadOutcome
  unfolding data_echo
  read_slot address node a = do
    sr ← transact io node 0x87 (high a ∷ low a ∷ 0x01 ∷ []) 250
    elim (data_echo 7 3 sr) [
      | some r ↦ pure (decode_user address 5 r)
      | none ↦ read_extended address node (high a ∷ low a ∷ 0x01 ∷ [])
    ]

  unfoldable pub read_user : ℕ → ℤ → M W UserReadOutcome
  read_user node address = elim (within 1023 address) [
    | none ↦ pure (no_outcome address)
    | some a ↦ read_slot address node a
  ]
