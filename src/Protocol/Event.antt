-- ===== src/Protocol/Event.antt =====
-- src/unex/Unex721Protocol.cpp: the event queue of a controller (25H, 37H), its decoding, and the clock
-- (23H). The local time comes from the system and is an argument.
use monk_skud_unex.Base.{
  ℕ, ◌+◌, ◌*◌, ◌%◌, Bool, false, ◌||◌, ◌&&◌, not, Bytes, Text, Option, none, some, pos, negsuc, ltb,
  leb, ◌==◌, if◌then◌else◌, length, get_or, ◌∷◌, ◌++◌, [], any,
}
use monk_skud_unex.Text.Escape.{hex}
use monk_skud_unex.Text.Number.{padded}
use monk_skud_unex.Text.Card.{format_card_id}
use monk_skud_unex.Types.{RawUnexEvent}
use monk_skud_unex.Protocol.Link.{Port, M, pure, ◌>>=◌, transact}
use monk_skud_unex.Protocol.Reply.{ack_code, nack_code}
use monk_skud_unex.Protocol.Frame.{payload}

abbrev outside : ℕ → ℕ → ℕ → Bool
outside lo hi v = ltb v lo || ltb hi v

-- "YYYY-MM-DD HH:MM:SS", or nothing where a field is out of range.
unfoldable pub event_timestamp : Bytes → Text
unfolding padded
event_timestamp f =
    let at = λ (i : ℕ). get_or f i 0 in
    let year = 2000 + at 11 in
    if ltb (length f) 12
    then []
    else if outside 0 59 (at 5)
        || outside 0 59 (at 6)
        || outside 0 23 (at 7)
        || outside 1 31 (at 9)
        || outside 1 12 (at 10)
        || outside 2000 2099 year
    then []
    else padded 4 year
      ++ b'-'
        ∷ (padded 2 (at 10)
            ++ b'-'
              ∷ (padded 2 (at 9)
                  ++ b' '
                    ∷ (padded 2 (at 7) ++ b':' ∷ (padded 2 (at 6) ++ b':' ∷ padded 2 (at 5)))))

-- `RawUnexEvent{}` with its frame.
abbrev pub raw_event : ℕ → Bytes → RawUnexEvent
raw_event node f = record {
  node = node;
  frame = f;
  raw_hex = hex f;
  card = [];
  user_address = negsuc 0;
  event_code = negsuc 0;
  event_timestamp = [];
}

-- A card of all zeros or all ones is none.
unfoldable pub event_card : ℕ → ℕ → Text
unfolding format_card_id
event_card series number =
    if (series == 0 && number == 0) || (series == 0xffff && number == 0xffff)
    then []
    else format_card_id series number

unfoldable pub decode_event : ℕ → Bytes → RawUnexEvent
unfolding event_timestamp event_card
decode_event node f =
    let at = λ (i : ℕ). get_or f i 0 in
    let word = λ (i : ℕ). at i * 256 + at (i + 1) in
    if leb 31 (length f) && at 0 == 0x7e && (at 3 == 0x0b || at 3 == 0x03)
    then record (raw_event node f) {
      event_code = pos (at 3);
      event_timestamp = event_timestamp f;
      user_address = pos (word 13);
      card = event_card (word 19) (word 23);
    }
    else if any (λ b. b == 0x0b) (payload 2 f)
    then record (raw_event node f) { event_code = pos 0x0b }
    else raw_event node f

unfoldable pub decode_extended_event : ℕ → Bytes → RawUnexEvent
unfolding format_card_id
decode_extended_event node f =
    let at = λ (i : ℕ). get_or f i 0 in
    let word = λ (i : ℕ). at i * 256 + at (i + 1) in
    if ltb 28 (length f)
    then record (raw_event node f) {
      user_address = pos (word 17);
      card = format_card_id (word 23) (word 27);
      event_code = pos (at 7);
    }
    else raw_event node f

-- What a 25H brings back: no answer, an answer without an event, or an event.
pub data Oldest : Type 0 where
  silent nothing : Oldest
  event : RawUnexEvent → Oldest

unfoldable pub decode_oldest : ℕ → Option Bytes → Oldest
decode_oldest node none = silent
decode_oldest node (some r) = if ltb (length r) 18 then nothing else event (decode_event node r)

unfoldable pub removed : Option Bytes → Bool
removed none = false
removed (some r) = leb 6 (length r) && not (get_or r 3 0 == nack_code)

-- The broken-down local time, `std::tm`.
pub record Tm : Type 0 where
  pub sec : ℕ
  pub min : ℕ
  pub hour : ℕ
  pub wday : ℕ
  pub mday : ℕ
  pub mon : ℕ
  pub year : ℕ

unfoldable pub clock_bytes : Tm → Bytes
clock_bytes tm =
    (tm.sec % 256)
    ∷ (tm.min % 256)
    ∷ (tm.hour % 256)
    ∷ ((tm.wday + 1) % 256)
    ∷ (tm.mday % 256)
    ∷ ((tm.mon + 1) % 256)
    ∷ ((tm.year + 1900) % 100 % 256)
    ∷ []

unfoldable pub clock_set : ℕ → Option Bytes → Bool
clock_set node none = false
clock_set node (some r) =
    if ltb (length r) 7 then false else get_or r 3 0 == ack_code && get_or r 4 0 == node

module _ {W : Type 0} (io : Port W) where
  unfoldable pub get_oldest_event : ℕ → M W Oldest
  get_oldest_event node = do r ← transact io node 0x25 [] 120; pure (decode_oldest node r)

  unfoldable pub remove_oldest_event : ℕ → M W Bool
  remove_oldest_event node = do r ← transact io node 0x37 [] 120; pure (removed r)

  unfoldable pub set_system_time : Tm → ℕ → M W Bool
  set_system_time tm node = do
    r ← transact io node 0x23 (clock_bytes tm) 180
    pure (clock_set node r)
