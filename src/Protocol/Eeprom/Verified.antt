-- ===== src/Protocol/Eeprom/Verified.antt =====
-- src/unex/Unex721Protocol.cpp: `writeEeprom` and `disablePassAnyCards` report success only behind a
-- read-back of the bytes.
use monk_skud_unex.Base.{
  ℕ, ◌<◌, ◌+◌, ◌*◌, ◌/◌, ◌%◌, [], ◌∷◌, true, ◌||◌, not, Bytes, Text, ℤ, pos, within, length, get_or,
  ◌==◌, bytes_eq_iff, ◌≡◌, refl, arith, inl, inr, Bool-cases, Option-cases,
}
use monk_skud_unex.Base.Bits.{bit_and-clear_bit}
use monk_skud_unex.Protocol.Link.{Port, Link, transact, tell}
use monk_skud_unex.Protocol.Reply.{Reply, acknowledged, check_ack, high, low}
use monk_skud_unex.Protocol.Eeprom.{
  fits, read_eeprom, verify_eeprom, after_write, write_eeprom, frame_hex, without_pass_any,
  rewrite_option, disable_pass_any_cards,
}

module _ {W : Type 0} (io : Port W) (node : ℕ) where
  -- The last exchange was a 12H of the address, and it gave back these bytes.
  pub record Holds (address : ℤ) (bytes : Bytes) (final : Link W) : Type 0 where
    pub before : Link W
    pub answered : (read_eeprom io node address (pos (length bytes)) before).0.ok ≡ true
    pub same_bytes : (read_eeprom io node address (pos (length bytes)) before).0.bytes ≡ bytes
    pub last : final.port ≡ (read_eeprom io node address (pos (length bytes)) before).1.port

  after_write-Holds :
      (address : ℤ) (bytes : Bytes) (raw : Text) (r : Reply) (s : Link W)
      → (after_write io node address bytes raw r s).0.ok ≡ true
      → Holds address bytes (after_write io node address bytes raw r s).1
  unfolding after_write verify_eeprom
  after_write-Holds address bytes raw acknowledged s h =
      let read = (read_eeprom io node address (pos (length bytes)) s).0 in
      record {
        before = s;
        answered = ground arith;
        same_bytes = ground (arith, bytes_eq_iff read.bytes bytes);
        last = refl;
      }
  after_write-Holds address bytes raw _ s h = absurd (ground arith)

  -- `writeEeprom` answers success only if its last exchange is a 12H of the same address and size that
  -- gives back the bytes that were to be written.
  pub write_eeprom-Holds :
      (address : ℤ) (bytes : Bytes) (s : Link W)
      → (write_eeprom io node address bytes s).0.ok ≡ true
      → Holds address bytes (write_eeprom io node address bytes s).1
  unfolding write_eeprom
  write_eeprom-Holds address bytes s h = elim (Option-cases (within 0xffff address)) [
    | inl outside ↦ absurd (ground arith)
    | inr (a, inside) ↦ elim (Bool-cases (fits a (length bytes))) [
      | inr wide ↦ absurd (ground arith)
      | inl ok ↦
          let sent = transact io node 0x20 (high a ∷ low a ∷ (length bytes % 256) ∷ bytes) 500 s in
          rw (inside, ok, write_eeprom)
            (after_write-Holds address bytes (frame_hex sent.0) (check_ack 6 sent.0) sent.1
              (rw (inside, ok, write_eeprom) at h))
    ]
  ]

  -- The option byte after a success: the old one without its bit 0x20.
  pub record IsPassAnyDisabled (s final : Link W) : Type 0 where
    pub old : ℕ
    pub new : ℕ
    pub known : (read_eeprom io node (pos 0x0016) (pos 1) s).0.ok ≡ true
    pub was : get_or (read_eeprom io node (pos 0x0016) (pos 1) s).0.bytes 0 0 ≡ old
    pub holds : Holds (pos 0x0016) (new ∷ []) final
    pub bit : new + old / 32 % 2 * 32 ≡ old

  rewrite_option-Holds :
      (old : ℕ) (s : Link W)
      → (rewrite_option io node old s).0.ok ≡ true
      → Holds (pos 0x0016) (without_pass_any old ∷ []) (rewrite_option io node old s).1
  unfolding rewrite_option tell
  rewrite_option-Holds old s h =
      let written = write_eeprom io node (pos 0x0016) (without_pass_any old ∷ []) s in
      elim (Bool-cases written.0.ok) [
        | inr failed ↦ absurd (ground arith)
        | inl ok ↦
            let held = write_eeprom-Holds (pos 0x0016) (without_pass_any old ∷ []) s ok in
            record {
              before = held.before;
              answered = held.answered;
              same_bytes = held.same_bytes;
              last = rw (ok, rewrite_option) held.last;
            }
      ]

  -- `disablePassAnyCards` answers success only if the option byte was read before, and its last exchange
  -- is a 12H that gives back the old byte without bit 0x20 and with every other bit as it was; where the
  -- old byte is a byte.
  pub disable_pass_any_cards-IsPassAnyDisabled :
      (s : Link W)
      → get_or (read_eeprom io node (pos 0x0016) (pos 1) s).0.bytes 0 0 < 256
      → (disable_pass_any_cards io node s).0.ok ≡ true
      → IsPassAnyDisabled s (disable_pass_any_cards io node s).1
  unfolding disable_pass_any_cards
  disable_pass_any_cards-IsPassAnyDisabled s hb h =
      let read = read_eeprom io node (pos 0x0016) (pos 1) s in
      let old = get_or read.0.bytes 0 0 in
      elim (Bool-cases (not read.0.ok || not (length read.0.bytes == 1))) [
        | inl bad ↦ absurd (ground arith)
        | inr good ↦ record {
          old = old;
          new = without_pass_any old;
          known = ground arith;
          was = refl;
          holds =
              rw (good, disable_pass_any_cards)
                (rewrite_option-Holds old read.1 (rw (good, disable_pass_any_cards) at h));
          bit = bit_and-clear_bit old hb;
        }
      ]
