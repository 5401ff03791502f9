-- ===== src/Examples/Terminal.antt =====
-- Frames on the bytes of a terminal, and a file of users.
use monk_skud_unex.SoyalImport.{SoyalSlots, imported, parse_usr}
use monk_skud_unex.SoyalImport.Counted.{parse_usr-Ascends}
use monk_skud_unex.Base.{
  ℕ, ◌+◌, ◌*◌, ◌≤◌, length, replicate, [], ◌∷◌, ◌++◌, Bytes, ◌≡◌, refl, arith,
}
use monk_skud_unex.Protocol.Frame.{frame, extended_frame}
use monk_skud_unex.Serial.{read_frame, read_extended_frame}
use monk_skud_unex.Serial.Framing.{read_frame-frame, read_extended_frame-extended_frame}

abbrev noise : Bytes
noise = 0x00 ∷ 0xfe ∷ []

abbrev rest : Bytes
rest = 0x7e ∷ 0x01 ∷ []

read_frame-frame_example :
    read_frame (noise ++ (frame 1 0x25 (5 ∷ []) ++ rest)) ≡ (frame 1 0x25 (5 ∷ []), rest)
unfolding monk_skud_unex.Text.Csv.Rows.lacks
read_frame-frame_example =
    read_frame-frame noise rest (5 ∷ []) 1 0x25 refl (omega arith) (omega arith)

read_extended_frame-extended_frame_example :
    read_extended_frame (noise ++ (extended_frame 1 0x25 (5 ∷ []) ++ rest))
    ≡ (extended_frame 1 0x25 (5 ∷ []), rest)
unfolding monk_skud_unex.Text.Csv.Rows.lacks
read_extended_frame-extended_frame_example =
    read_extended_frame-extended_frame noise rest (5 ∷ []) 1 0x25 refl (omega arith) (omega arith)

-- One empty record.
abbrev empty_usr : Bytes
empty_usr = replicate 328 0

abbrev one_slot : SoyalSlots
one_slot = record { total_slots = 1; empty_slots = 1; records = [] }

is_imported : parse_usr empty_usr ≡ imported one_slot
unfolding parse_usr monk_skud_unex.Text.trim
is_imported = refl

parse_usr-Ascends_example :
    (◌≡◌ {A = ℕ} (1 * 328) (length empty_usr)) × (◌≡◌ {A = ℕ} (1 + 0) 1) × (0 ≤ 1)
parse_usr-Ascends_example = parse_usr-Ascends empty_usr one_slot is_imported
