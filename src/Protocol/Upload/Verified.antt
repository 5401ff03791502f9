-- ===== src/Protocol/Upload/Verified.antt =====
-- src/unex/Unex721Protocol.cpp: a command that writes a slot reports success only behind a read-back.
use monk_skud_unex.Base.{
  ℕ, true, Bytes, Option, none, some, pos, within, length, get_or, set, replicate, ◌≡◌, ◌≢◌, refl,
  arith, bytes_eq_iff, Bool-cases, inl, inr, ◌≤◌, ◌⊎◌, ◌&&◌, ◌==◌, leb,
}
use monk_skud_unex.Text.Card.{parse_card_id}
use monk_skud_unex.Types.{User}
use monk_skud_unex.Protocol.Link.{Port, Link}
use monk_skud_unex.Protocol.Reply.{Reply, acknowledged}
use monk_skud_unex.Protocol.Slot.{UserReadOutcome, read_user}
use monk_skud_unex.Protocol.Upload.{
  SlotWrite, confirmed, compare_record, send_record, confirm_record, write_slot, write_card,
  write_user, write_status, user_record, time_zone, access_mode_byte, parse_pin, primary_card,
  needs_pin, clear_user_slot, clear_at, clear_status, write_with_pin, write_with_card, write_at,
  delete_at, delete_user, delete_status, invalidate,
}

compare_record-confirmed :
    (expected : Bytes) (after : UserReadOutcome)
    → compare_record expected after ≡ confirmed
    → (after.ok ≡ true) × (after.raw_record ≡ expected)
unfolding compare_record
compare_record-confirmed expected after h = ground (arith, bytes_eq_iff after.raw_record expected)

module _ {W : Type 0} (io : Port W) (node : ℕ) where
  -- The last thing on the wire was an 87H of the slot, and it returned these bytes.
  pub record ReadsBack (a : ℕ) (expected : Bytes) (final : Link W) : Type 0 where
    pub before : Link W
    pub answered : (read_user io node (pos a) before).0.ok ≡ true
    pub same_bytes : (read_user io node (pos a) before).0.raw_record ≡ expected
    pub last : final ≡ (read_user io node (pos a) before).1

  confirm_record-ReadsBack :
      (a : ℕ) (expected : Bytes) (r : Reply) (t : Link W)
      → (confirm_record io node a expected r t).0 ≡ confirmed
      → ReadsBack a expected (confirm_record io node a expected r t).1
  unfolding confirm_record
  confirm_record-ReadsBack a expected acknowledged t h =
      let after = (read_user io node (pos a) t).0 in
      let facts = compare_record-confirmed expected after h in
      record { before = t; answered = facts.0; same_bytes = facts.1; last = refl }
  confirm_record-ReadsBack a expected _ t h = cc

  pub write_slot-ReadsBack :
      (a : ℕ) (expected : Bytes) (s : Link W)
      → (write_slot io node a expected s).0 ≡ confirmed
      → ReadsBack a expected (write_slot io node a expected s).1
  unfolding write_slot
  write_slot-ReadsBack a expected s h =
      confirm_record-ReadsBack a expected (send_record io node a expected s).0
        (send_record io node a expected s).1 h

  write_status-confirmed : (r : SlotWrite) → (write_status r).ok ≡ true → r ≡ confirmed
  unfolding write_status
  write_status-confirmed r h = ground arith

  clear_status-confirmed : (r : SlotWrite) → (clear_status r).ok ≡ true → r ≡ confirmed
  unfolding clear_status
  clear_status-confirmed r h = ground arith

  delete_status-confirmed : (r : SlotWrite) → (delete_status r).ok ≡ true → r ≡ confirmed
  unfolding delete_status
  delete_status-confirmed r h = ground arith

  -- A successful upload of a user: where it went, and the record that the controller gave back.
  pub record IsUploaded (user : User) (final : Link W) : Type 0 where
    pub address : ℕ
    pub site : ℕ
    pub card : ℕ
    pub pin : ℕ
    pub zone : ℕ
    pub in_range : within 1023 user.controller_port ≡ some address
    pub parsed : parse_card_id (primary_card user) ≡ some (site, card)
    pub has_pin : parse_pin user.pin_code ≡ some pin
    pub pin_given : needs_pin user ≡ true → pin ≢ 0
    pub read_back : ReadsBack address (user_record site card pin (access_mode_byte user) zone) final

  write_card-ReadsBack :
      (a site card pin mode : ℕ) (s : Link W)
      → (write_card io node a site card pin mode s).0.ok ≡ true
      → (zone : ℕ) × ReadsBack a
          (user_record site card pin mode zone)
          (write_card io node a site card pin mode s).1
  unfolding write_card
  write_card-ReadsBack a site card pin mode s h =
      let before = read_user io node (pos a) s in
      let expected = user_record site card pin mode (time_zone before.0) in
      elim (Bool-cases before.0.ok) [
        | inl known ↦ (
          time_zone before.0,
          rw (known, write_card)
              (write_slot-ReadsBack a expected before.1 (
                write_status-confirmed (write_slot io node a expected before.1).0
                  (rw (known, write_card) at h))),
        )
        | inr failed ↦ absurd (ground arith)
      ]

  write_with_pin-IsUploaded :
      (user : User) (a site card : ℕ) (pin : Option ℕ) (s : Link W)
      → within 1023 user.controller_port ≡ some a
      → parse_card_id (primary_card user) ≡ some (site, card)
      → parse_pin user.pin_code ≡ pin
      → (write_with_pin io node user a (site, card) pin s).0.ok ≡ true
      → IsUploaded user (write_with_pin io node user a (site, card) pin s).1
  unfolding write_with_pin
  write_with_pin-IsUploaded user a site card none s ha hc hp h = absurd (ground arith)
  write_with_pin-IsUploaded user a site card (some pin) s ha hc hp h =
      elim (Bool-cases (needs_pin user && pin == 0)) [
        | inl missing ↦ absurd (ground arith)
        | inr given ↦
            let written =
              write_card-ReadsBack a site card pin (access_mode_byte user) s (rw given at h) in
            record {
              address = a;
              site = site;
              card = card;
              pin = pin;
              zone = written.0;
              in_range = ha;
              parsed = hc;
              has_pin = hp;
              pin_given = ground arith;
              read_back = rw (given, write_with_pin) written.1;
            }
      ]

  write_with_card-IsUploaded :
      (user : User) (a : ℕ) (number : Option (ℕ × ℕ)) (s : Link W)
      → within 1023 user.controller_port ≡ some a
      → parse_card_id (primary_card user) ≡ number
      → (write_with_card io node user a number s).0.ok ≡ true
      → IsUploaded user (write_with_card io node user a number s).1
  unfolding write_with_card
  write_with_card-IsUploaded user a none s ha hc h = absurd (ground arith)
  write_with_card-IsUploaded user a (some (site, card)) s ha hc h =
      write_with_pin-IsUploaded user a site card (parse_pin user.pin_code) s ha hc refl h

  write_at-IsUploaded :
      (user : User) (a : Option ℕ) (s : Link W)
      → within 1023 user.controller_port ≡ a
      → (write_at io node user a s).0.ok ≡ true
      → IsUploaded user (write_at io node user a s).1
  unfolding write_at
  write_at-IsUploaded user none s ha h = absurd (ground arith)
  write_at-IsUploaded user (some a) s ha h =
      write_with_card-IsUploaded user a (parse_card_id (primary_card user)) s ha refl h

  -- `writeUser` answers success only for a user with an address, a card and, where the mode wants one,
  -- a PIN; and only if the last exchange was an 87H that gave back the record of this user, byte for byte.
  pub write_user-IsUploaded :
      (user : User) (s : Link W)
      → (write_user io node user s).0.ok ≡ true
      → IsUploaded user (write_user io node user s).1
  unfolding write_user
  write_user-IsUploaded user s h =
      write_at-IsUploaded user (within 1023 user.controller_port) s refl h

  clear_at-ReadsBack :
      (a : ℕ) (s : Link W)
      → (clear_at io node (some a) s).0.ok ≡ true
      → ReadsBack a (replicate 8 0x00) (clear_at io node (some a) s).1
  unfolding clear_at
  clear_at-ReadsBack a s h =
      write_slot-ReadsBack a (replicate 8 0x00) s
        (clear_status-confirmed (write_slot io node a (replicate 8 0x00) s).0 h)

  -- `clearUserSlot` answers success only if an 87H then gave back eight zero bytes.
  pub clear_user_slot-ReadsBack :
      (a : ℕ) (s : Link W)
      → (clear_user_slot io node (pos a) s).0.ok ≡ true
      → (a ≤ 1023) × ReadsBack a (replicate 8 0x00) (clear_user_slot io node (pos a) s).1
  unfolding clear_user_slot clear_at
  clear_user_slot-ReadsBack a s h = elim (Bool-cases (leb a 1023)) [
    | inl inside ↦ (ground arith, rw inside (clear_at-ReadsBack a s (rw inside at h)))
    | inr outside ↦ absurd (ground arith)
  ]

  -- What a deletion must leave: the record that was read before, with mode 0.
  pub record IsInvalidated (a : ℕ) (s final : Link W) : Type 0 where
    pub known : (read_user io node (pos a) s).0.ok ≡ true
    pub compact : length (read_user io node (pos a) s).0.raw_record ≡ 8
    pub result :
        ((get_or (read_user io node (pos a) s).0.raw_record 6 0 ≡ 0)
          × (final ≡ (read_user io node (pos a) s).1))
        ⊎ ReadsBack a (set (read_user io node (pos a) s).0.raw_record 6 0) final

  invalidate-IsInvalidated :
      (a : ℕ) (s : Link W)
      → (invalidate io node a (read_user io node (pos a) s).0 (read_user io node (pos a) s).1).0.ok
        ≡ true
      → IsInvalidated a s
          (invalidate io node a (read_user io node (pos a) s).0 (read_user io node (pos a) s).1).1
  unfolding invalidate
  invalidate-IsInvalidated a s h =
      let before = read_user io node (pos a) s in
      let expected = set before.0.raw_record 6 0 in
      elim (Bool-cases before.0.ok) [
        | inr failed ↦ absurd (ground arith)
        | inl known ↦ elim (Bool-cases (length before.0.raw_record == 8)) [
          | inr other ↦ absurd (ground arith)
          | inl compact ↦ elim (Bool-cases (get_or before.0.raw_record 6 0 == 0)) [
            | inl off ↦ record {
              known = known;
              compact = ground arith;
              result = inl (ground arith, rw (known, compact, off, invalidate));
            }
            | inr on ↦ record {
              known = known;
              compact = ground arith;
              result = inr (
                  rw (known, compact, on, invalidate)
                    (write_slot-ReadsBack a expected before.1 (
                      delete_status-confirmed (write_slot io node a expected before.1).0
                        (rw (known, compact, on, invalidate) at h))));
            }
          ]
        ]
      ]

  delete_at-IsInvalidated :
      (a : Option ℕ) (s : Link W)
      → (delete_at io node a s).0.ok ≡ true
      → (k : ℕ) × (a ≡ some k) × IsInvalidated k s (delete_at io node a s).1
  unfolding delete_at
  delete_at-IsInvalidated none s h = absurd (ground arith)
  delete_at-IsInvalidated (some k) s h = (k, refl, invalidate-IsInvalidated k s h)

  -- `deleteUser` answers success only if the slot was read before, and either was disabled already and
  -- is left alone, or an 87H then gave back the same record with only its mode set to 0.
  pub delete_user-IsInvalidated :
      (user : User) (s : Link W)
      → (delete_user io node user s).0.ok ≡ true
      → (a : ℕ) × (within 1023 user.controller_port ≡ some a)
        × IsInvalidated a s (delete_user io node user s).1
  unfolding delete_user
  delete_user-IsInvalidated user s h =
      delete_at-IsInvalidated (within 1023 user.controller_port) s h
