-- ===== src/Protocol/Reply.antt =====
-- src/unex/Unex721Protocol.cpp: the test of an acknowledgement, which every command repeats, and
-- the two bytes of a 16-bit number.
use monk_skud_unex.Base.{
  ℕ, ◌/◌, ◌%◌, Bytes, Option, none, some, ltb, ◌==◌, if◌then◌else◌, length, get_or,
}

abbrev pub ack_code : ℕ
ack_code = 0x04

abbrev pub nack_code : ℕ
nack_code = 0x05

pub data Reply : Type 0 where
  no_reply short nack unexpected acknowledged : Reply

-- No reply, fewer than `size` bytes, NACK, something else, or ACK, tested in this order.
unfoldable pub check_ack : ℕ → Option Bytes → Reply
check_ack size none = no_reply
check_ack size (some r) =
    if ltb (length r) size
    then short
    else if get_or r 3 0 == nack_code
    then nack
    else if get_or r 3 0 == ack_code
    then acknowledged
    else unexpected

abbrev pub high : ℕ → ℕ
high v = v / 256 % 256

abbrev pub low : ℕ → ℕ
low v = v % 256
