-- ===== src/Examples/Texts.antt =====
-- Frames, cards and escapes.
use monk_skud_unex.Base.{
  List, [], ◌∷◌, Bool, true, false, Bytes, some, pos, codes, length, get_or, set, leb, is_empty,
  ◌≡◌, ◌≢◌, ◌<◌, refl, arith,
}
use monk_skud_unex.Types.{User}
use monk_skud_unex.Text.Number.{to_string, parse_unsigned_base}
use monk_skud_unex.Text.Card.{parse_card_id, format_card_id}
use monk_skud_unex.Text.Card.RoundTrip.{parse_card_id-format_card_id}
use monk_skud_unex.Protocol.Frame.{frame, valid_frame}
use monk_skud_unex.Protocol.Frame.Check.{valid_frame-frame}
use monk_skud_unex.Protocol.Frame.Corruption.{valid_frame-set}
use monk_skud_unex.Users.{canonical_card}
use monk_skud_unex.Users.Ops.{UserManager, assign_card, remove_card}
use monk_skud_unex.Users.Ops.Cards.{
  is_held, held_by_other, remove_card-is_held, assign_card-held_by_other, assign_card-unknown,
}
use monk_skud_unex.Examples.Wire.{ivanov}

abbrev read_command : Bytes
read_command = 0 ∷ 5 ∷ 1 ∷ []

five_inside : 5 < length (frame 1 0x87 read_command)
unfolding frame
five_inside = omega arith

five_other : get_or (frame 1 0x87 read_command) 5 0 ≢ 6
unfolding frame
five_other = omega arith

valid_frame-set_example : valid_frame (set (frame 1 0x87 read_command) 5 6) ≡ false
valid_frame-set_example =
    valid_frame-set 1 0x87 read_command 6 (omega arith) (omega arith)
      (omega arith, (omega arith, (omega arith, tt))) (omega arith) (omega arith) 5 five_inside
      five_other

valid_frame-frame_example : valid_frame (frame 1 0x87 read_command) ≡ leb (length read_command) 251
valid_frame-frame_example = valid_frame-frame 1 0x87 read_command

parse_card_id-format_card_id_example : parse_card_id (format_card_id 123 45678) ≡ some (123, 45678)
parse_card_id-format_card_id_example =
    parse_card_id-format_card_id 123 45678 (omega arith) (omega arith)

parsed : parse_card_id (codes "31:45678") ≡ some (31, 45678)
unfolding parse_card_id canonical_card format_card_id monk_skud_unex.Text.Card.is_card_separator
    monk_skud_unex.Text.cut monk_skud_unex.Text.trim parse_unsigned_base to_string
parsed = refl

abbrev save_all : List User → List User → Bool × List User
save_all users w = (true, users)

abbrev owners : UserManager (List User)
owners = record { users = ivanov ∷ []; world = [] }

a_card : is_empty (canonical_card (codes "123:45678")) ≡ false
unfolding canonical_card format_card_id monk_skud_unex.Text.Card.is_card_separator
    monk_skud_unex.Text.cut monk_skud_unex.Text.trim parse_card_id parse_unsigned_base to_string
a_card = refl

remove_card-is_held_example :
    is_held
      (canonical_card (codes "123:45678"))
      (remove_card save_all (codes "123:45678") owners).1.users
    ≡ false
remove_card-is_held_example = remove_card-is_held save_all (codes "123:45678") owners a_card

assign_card-held_by_other_example :
    held_by_other
      (pos 7)
      (canonical_card (codes "123:45678"))
      (assign_card save_all (pos 7) (codes "123:45678") owners).1.users
    ≡ false
assign_card-held_by_other_example =
    assign_card-held_by_other save_all (pos 7) (codes "123:45678") owners a_card

assign_card-unknown_example :
    ((assign_card save_all (pos 9) (codes "123:45678") owners).0 ≡ false)
    × (is_held
          (canonical_card (codes "123:45678"))
          (assign_card save_all (pos 9) (codes "123:45678") owners).1.users
        ≡ false)
    × ((assign_card save_all (pos 9) (codes "123:45678") owners).1.world ≡ [])
assign_card-unknown_example =
    assign_card-unknown save_all (pos 9) (codes "123:45678") owners a_card refl
