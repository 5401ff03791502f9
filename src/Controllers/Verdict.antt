-- ===== src/Controllers/Verdict.antt =====
-- src/controllers/ControllerManager.cpp: the verdict of `processUserReadBatch` on one slot, against the
-- local user of its address.
pub mod Balanced
use monk_skud_unex.Base.{
  ℕ, zero, suc, ◌+◌, ◌-◌, ◌*◌, ◌%◌, ◌^◌, List, [], ◌∷◌, ◌++◌, Bool, true, false, ◌&&◌, ◌||◌, not,
  Text, Option, none, some, ℤ, pos, negsuc, eq_ℤ, leb_ℤ, leb, ltb, ◌==◌, if◌then◌else◌, is_empty,
  length, get_or, any, find_if, bytes_eq, codes,
}
use monk_skud_unex.Base.Map.{lookup, adjust, insert, nat_eq}
use monk_skud_unex.Text.{drop_spaces}
use monk_skud_unex.Text.Number.{is_digit, value}
use monk_skud_unex.Text.Int.{int_text}
use monk_skud_unex.Text.Card.{parse_card_id, format_card_id}
use monk_skud_unex.Types.{User}
use monk_skud_unex.Types.Jobs.{
  ControllerUserReadJob, ControllerUserReadResult, JobState, ReadStatus,
}
use monk_skud_unex.Protocol.Link.{Port, Link}
use monk_skud_unex.Protocol.Slot.{UserReadOutcome, read_user}

-- `userFullName`; the word is the text of the source for a user without a name.
with_name : Text → Text → Text
with_name n part = if is_empty part then n else if is_empty n then part else n ++ b' ' ∷ part

unfoldable pub user_full_name : Text → User → Text
unfolding with_name int_text
user_full_name user_word u =
    let n = with_name (with_name u.last_name u.first_name) u.middle_name in
    if is_empty n then user_word ++ int_text u.id else n

-- `std::stoul`, cut to 32 bits; 0 where it throws.
unfoldable leading_digits : Text → Text
leading_digits [] = []
leading_digits (c ∷ s) = let rest = leading_digits s in if is_digit c then c ∷ rest else []

signed : Text → Bool × Text
signed [] = (false, [])
signed (c ∷ s) = if c == b'-' then (true, s) else if c == b'+' then (false, s) else (false, c ∷ s)

unfoldable pub local_pin_value : User → ℕ
unfolding leading_digits signed
local_pin_value u =
    let (negative, s) = signed (drop_spaces u.pin_code) in
    let d = leading_digits s in
    let v = value 10 0 d in
    if is_empty d || ltb (2 ^ 64 - 1) v then 0 else (if negative then 2 ^ 64 - v else v) % 2 ^ 32

-- One of the user's cards is the card of the slot.
is_card : ℕ → ℕ → Text → Bool
is_card uid1 uid2 card = elim (parse_card_id card) [
  | none ↦ false
  | some (s, n) ↦ s == uid1 && n == uid2
]

unfoldable pub owns_card : User → ℕ → ℕ → Bool
unfolding is_card
owns_card u uid1 uid2 = any (is_card uid1 uid2) (if is_empty u.cards then u.card ∷ [] else u.cards)

unfoldable pub agrees : User → UserReadOutcome → Bool
agrees u got =
    let known = got.details_known in
    let mode = if is_empty u.access_mode then codes "card" else u.access_mode in
    owns_card u got.uid1 got.uid2
    && (not known || (if u.enabled then got.enabled else not got.enabled))
    && (not known || local_pin_value u == got.pin)
    && (not known || bytes_eq mode got.access_mode)

-- The verdict on one slot.
unfoldable pub verdict : Option User → UserReadOutcome → ReadStatus
verdict local got =
    if not got.ok
    then ReadStatus.error
    else if got.is_present
    then (elim local [
      | none ↦ ReadStatus.unknown
      | some u ↦
          if not got.card_known
          then ReadStatus.unverified
          else if agrees u got
          then ReadStatus.same
          else ReadStatus.diff
    ])
    else elim local [
      | none ↦ ReadStatus.empty
      | some u ↦ if u.enabled && not (is_empty u.card) then ReadStatus.missing else ReadStatus.same
    ]

local_id : Option User → ℤ
local_id none = pos 0
local_id (some u) = u.id

local_name : Text → Option User → Text
local_name user_word none = []
local_name user_word (some u) = user_full_name user_word u

unfoldable pub read_result : Text → ℕ → ℕ → Option User → UserReadOutcome → ControllerUserReadResult
unfolding local_id local_name
read_result user_word node address local got =
    let shown = got.ok && got.is_present in
    record {
      controller_node = node;
      address = pos address;
      local_user_id = local_id local;
      local_user_name = local_name user_word local;
      controller_card = if shown && got.card_known then format_card_id got.uid1 got.uid2 else [];
      controller_enabled = shown && got.enabled;
      pin_set = shown && not (got.pin == 0);
      access_mode = if shown then got.access_mode else [];
      card_known = if shown then got.card_known else true;
      details_known = if shown then got.details_known else true;
      raw_record_hex = if shown then got.raw_record_hex else [];
      status = verdict local got;
    }

-- An empty slot without a local user is kept only on request.
unfoldable pub keeps : Bool → ReadStatus → Bool
keeps include_empty ReadStatus.empty = include_empty
keeps include_empty _ = true

unfoldable pub count_status : ReadStatus → ControllerUserReadJob → ControllerUserReadJob
count_status ReadStatus.same job = record job { matches = suc job.matches }
count_status ReadStatus.diff job = record job { differences = suc job.differences }
count_status ReadStatus.missing job = record job { missing_count = suc job.missing_count }
count_status ReadStatus.unknown job = record job { unknown_count = suc job.unknown_count }
count_status ReadStatus.unverified job = record job { unverified_count = suc job.unverified_count }
count_status ReadStatus.empty job = record job { empty_count = suc job.empty_count }
count_status ReadStatus.error job = record job { failed = suc job.failed }

unfoldable pub count_slot :
    Bool → Bool → ControllerUserReadResult → ControllerUserReadJob → ControllerUserReadJob
unfolding count_status keeps
count_slot include_empty last r job =
    let counted =
      count_status r.status (record job { completed_count = suc job.completed_count }) in
    record counted {
      results = if keeps include_empty r.status then job.results ++ r ∷ [] else job.results;
      state = if last then JobState.completed else job.state;
    }
