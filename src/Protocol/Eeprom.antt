-- ===== src/Protocol/Eeprom.antt =====
-- src/unex/Unex721Protocol.cpp: `readEeprom` (12H), `writeEeprom` (20H with its 12H read-back) and
-- `disablePassAnyCards`, which clears bit 0x20 of the byte at 0x0016.
pub mod Verified
use monk_skud_unex.Base.{
  ℕ, ◌+◌, ◌-◌, ◌%◌, Bool, true, false, ◌||◌, ◌&&◌, not, Bytes, Text, Option, none, some, ℤ, pos,
  within, ltb, ◌==◌, if◌then◌else◌, length, get_or, take, drop, ◌∷◌, [], bytes_eq, bit_and,
}
use monk_skud_unex.Text.Escape.{hex}
use monk_skud_unex.Types.Jobs.{Status}
use monk_skud_unex.Protocol.Link.{Port, M, pure, tell, info, semantic, ◌>>=◌, ◌>>◌, transact}
use monk_skud_unex.Protocol.Reply.{Reply, acknowledged, check_ack, high, low, nack_code}
use monk_skud_unex.Protocol.Upload.{UserWriteOutcome, failure, success}

pub record EepromReadOutcome : Type 0 where
  pub ok : Bool
  pub address : ℤ
  pub bytes : Bytes
  pub raw_frame_hex : Text

pub record EepromWriteOutcome : Type 0 where
  pub ok : Bool
  pub address : ℤ
  pub size : ℕ
  pub raw_frame_hex : Text

abbrev pub no_read : ℤ → EepromReadOutcome
no_read address = record { ok = false; address = address; bytes = []; raw_frame_hex = [] }

-- 1..240 bytes that do not pass 0xFFFF.
unfoldable pub fits : ℕ → ℕ → Bool
fits a n = not (ltb n 1 || ltb 240 n || ltb 0xffff (a + n - 1))

-- A reply with function 02H or 03H and at least `n` bytes.
unfoldable pub decode_eeprom : ℤ → ℕ → Option Bytes → EepromReadOutcome
decode_eeprom address n none = no_read address
decode_eeprom address n (some r) =
    let out = record (no_read address) { raw_frame_hex = hex r } in
    let code = get_or r 3 0 in
    if ltb (length r) 6
    then out
    else if code == nack_code
    then out
    else if not (code == 0x02) && not (code == 0x03)
    then out
    else if ltb (length r) 7
    then out
    else if ltb (length r - 2 - 5) n
    then out
    else record out { ok = true; bytes = take n (drop 5 r) }

unfoldable pub frame_hex : Option Bytes → Text
frame_hex none = []
frame_hex (some r) = hex r

-- `~0x20u` cut to a byte.
abbrev pub without_pass_any : ℕ → ℕ
without_pass_any old = bit_and old 0xdf

module _ {W : Type 0} (io : Port W) where
  unfoldable pub read_eeprom : ℕ → ℤ → ℤ → M W EepromReadOutcome
  unfolding fits
  read_eeprom node address size = elim (within 0xffff address) [
    | none ↦ pure (no_read address)
    | some a ↦ elim (within 240 size) [
      | none ↦ pure (no_read address)
      | some n ↦ if not (fits a n) then pure (no_read address) else do
        r ← transact io node 0x12 (high a ∷ low a ∷ (n % 256) ∷ []) 450
        pure (decode_eeprom address n r)
    ]
  ]

  -- The read-back of the bytes that an acknowledged 20H wrote.
  unfoldable pub verify_eeprom : ℕ → ℤ → Bytes → Text → M W EepromWriteOutcome
  verify_eeprom node address bytes raw = do
    verify ← read_eeprom node address (pos (length bytes))
    pure (record {
      ok = verify.ok && bytes_eq verify.bytes bytes;
      address = address;
      size = length bytes;
      raw_frame_hex = raw;
    })

  abbrev no_write : ℤ → Bytes → Text → EepromWriteOutcome
  no_write address bytes raw = record {
    ok = false;
    address = address;
    size = length bytes;
    raw_frame_hex = raw;
  }

  unfoldable pub after_write : ℕ → ℤ → Bytes → Text → Reply → M W EepromWriteOutcome
  after_write node address bytes raw acknowledged = verify_eeprom node address bytes raw
  after_write node address bytes raw other = pure (no_write address bytes raw)

  unfoldable pub write_eeprom : ℕ → ℤ → Bytes → M W EepromWriteOutcome
  unfolding fits
  write_eeprom node address bytes = elim (within 0xffff address) [
    | none ↦ pure (no_write address bytes [])
    | some a ↦ if not (fits a (length bytes)) then pure (no_write address bytes []) else do
      r ← transact io node 0x20 (high a ∷ low a ∷ (length bytes % 256) ∷ bytes) 500
      after_write node address bytes (frame_hex r) (check_ack 6 r)
  ]

  -- The write of the option byte with the bit cleared, also where it was clear.
  unfoldable pub rewrite_option : ℕ → ℕ → M W UserWriteOutcome
  rewrite_option node old = do
    wr ← write_eeprom node (pos 0x0016) (without_pass_any old ∷ [])
    if not wr.ok then pure (failure Status.pass_any_write_failed) else (do
      tell info node 0x20 semantic []
      pure (
          success (
            if old == without_pass_any old
            then Status.pass_any_rewritten_disabled
            else Status.pass_any_disabled)))

  unfoldable pub disable_pass_any_cards : ℕ → M W UserWriteOutcome
  disable_pass_any_cards node = do
    before ← read_eeprom node (pos 0x0016) (pos 1)
    if not before.ok || not (length before.bytes == 1)
        then pure (failure Status.pass_any_read_failed)
        else rewrite_option node (get_or before.bytes 0 0)
