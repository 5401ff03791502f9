-- ===== src/Controllers/Search/Matches.antt =====
-- src/controllers/ControllerManager.cpp: the matches of one block of `processEepromSearchBatch`, and what a job
-- keeps of them.
use monk_skud_unex.Base.{
  ℕ, suc, ◌+◌, ◌-◌, min, List, [], ◌∷◌, ◌++◌, Bool, true, false, ◌&&◌, ◌||◌, not, Text, Bytes, leb,
  ltb, ◌==◌, if◌then◌else◌, is_empty, length, take, drop, map,
}
use monk_skud_unex.Base.Map.{nat_eq}
use monk_skud_unex.Text.Escape.{hex}
use monk_skud_unex.Types.Jobs.{
  ControllerEepromSearchJob, ControllerEepromSearchMatch, ControllerEepromSearchError, JobState,
  CompactProbe, probe_error, probe_empty, probe_skipped, probe_compact,
}
use monk_skud_unex.Protocol.Slot.{UserReadOutcome}
use monk_skud_unex.Protocol.Eeprom.{EepromReadOutcome}
use monk_skud_unex.Controllers.Search.Patterns.{EepromPattern}

unfoldable pub is_prefix : Bytes → Bytes → Bool
is_prefix [] data' = true
is_prefix (b ∷ bs) [] = false
is_prefix (b ∷ bs) (c ∷ data') = b == c && is_prefix bs data'

-- The positions below `core` at which the pattern stands; `here` is the position of the bytes given.
unfoldable pub positions : Bytes → ℕ → ℕ → Bytes → List ℕ
unfolding is_prefix
positions pattern core here [] = []
positions pattern core here (c ∷ rest) =
    let more = positions pattern core (suc here) rest in
    if ltb (length (c ∷ rest)) (length pattern) || leb core here
    then []
    else if is_prefix pattern (c ∷ rest)
    then here ∷ more
    else more

unfoldable pub hex_slice : Bytes → ℕ → ℕ → Text
hex_slice data' begin end' =
    if leb end' begin || leb (length data') begin
    then []
    else hex (take (min end' (length data') - begin) (drop begin data'))

unfoldable pub match_of : ℕ → ℕ → EepromPattern → Bytes → ℕ → ControllerEepromSearchMatch
unfolding hex_slice
match_of node start pattern data' at = record {
  controller_node = node;
  eeprom_address = start + at;
  pattern = pattern.name;
  exact = pattern.exact;
  matched_hex = hex pattern.bytes;
  context_hex = hex_slice data' (at - 8) (min (length data') (at + length pattern.bytes + 8));
}

unfoldable pub pattern_matches :
    ℕ → ℕ → ℕ → Bytes → EepromPattern → List ControllerEepromSearchMatch
unfolding positions match_of
pattern_matches node start core data' pattern =
    if is_empty pattern.bytes
    then []
    else map (match_of node start pattern data') (positions pattern.bytes core 0 data')

unfoldable pub all_matches :
    ℕ → ℕ → ℕ → Bytes → List EepromPattern → List ControllerEepromSearchMatch
unfolding pattern_matches
all_matches node start core data' [] = []
all_matches node start core data' (p ∷ ps) =
    pattern_matches node start core data' p ++ all_matches node start core data' ps

-- At most 500 matches are kept, and the job tells that some are not.
unfoldable pub keep_matches :
    List ControllerEepromSearchMatch → ControllerEepromSearchJob → ControllerEepromSearchJob
keep_matches [] job = job
keep_matches (m ∷ ms) job = keep_matches ms (
    if ltb (length job.matches) 500
    then record job { matches = job.matches ++ m ∷ [] }
    else record job { truncated = true })

-- At most 50 errors are kept.
unfoldable pub count_block :
    ℕ
    → ℕ
    → Bool
    → EepromReadOutcome
    → List ControllerEepromSearchMatch
    → ControllerEepromSearchJob
    → ControllerEepromSearchJob
unfolding keep_matches
count_block node start last got found job =
    let error : ControllerEepromSearchError = record {
      controller_node = node;
      eeprom_address = start;
    } in
    let errors = if ltb (length job.errors) 50 then job.errors ++ error ∷ [] else job.errors in
    let counted = record job { completed_count = suc job.completed_count } in
    let read =
      if got.ok then counted else record counted { failed = suc job.failed; errors = errors } in
    let kept = keep_matches found read in
    if last then record kept { state = JobState.completed } else kept

unfoldable pub probe_note : ℕ → ℕ → UserReadOutcome → CompactProbe
probe_note node address u =
    if not u.ok
    then probe_error node address
    else if not u.is_present
    then probe_empty node address u.raw_record_hex
    else if not (length u.raw_record == 8)
    then probe_skipped node address (length u.raw_record) u.raw_record_hex
    else probe_compact node address u.raw_record_hex

unfoldable pub compact_of : UserReadOutcome → Bool
compact_of u = u.ok && u.is_present && length u.raw_record == 8
