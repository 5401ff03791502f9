-- ===== src/Controllers/Search.antt =====
-- src/controllers/ControllerManager.cpp: `eepromPatterns`, `queueEepromSearch` and
-- `processEepromSearchBatch`, the search for a card in the memory of the controllers.
pub mod Patterns
pub mod Occurrences
pub mod Covered
pub mod Matches
use monk_skud_unex.Base.{
  ℕ, zero, suc, ◌+◌, ◌-◌, ◌*◌, ◌/◌, ◌%◌, min, List, [], ◌∷◌, ◌++◌, Bool, true, false, ◌&&◌, ◌||◌,
  not, Text, Bytes, Option, none, some, ℤ, pos, leb, ltb, ◌==◌, if◌then◌else◌, is_empty, length,
  get_or, any, take, drop, map, sub_ℕ,
}
use monk_skud_unex.Base.Map.{lookup, adjust, insert, nat_eq}
use monk_skud_unex.Base.Sort
use monk_skud_unex.Text.Escape.{hex}
use monk_skud_unex.Types.Jobs.{
  ControllerEepromSearchJob, ControllerEepromSearchMatch, ControllerEepromSearchError, JobState,
  CompactProbe, probe_error, probe_empty, probe_skipped, probe_compact,
}
use monk_skud_unex.Protocol.Link.{Port, Link}
use monk_skud_unex.Protocol.Slot.{UserReadOutcome, read_user}
use monk_skud_unex.Protocol.Eeprom.{EepromReadOutcome, read_eeprom}
use monk_skud_unex.Controllers.{add_job}
use monk_skud_unex.Controllers.Search.Patterns.{EepromPattern, eeprom_patterns, compact_patterns}
use monk_skud_unex.Controllers.Search.Matches.{
  is_prefix, positions, hex_slice, match_of, pattern_matches, all_matches, keep_matches,
  count_block, probe_note, compact_of,
}

pub record PendingEepromSearch : Type 0 where
  pub id : ℕ
  pub card_series : ℕ
  pub card_number : ℕ
  pub controller_nodes : List ℕ
  pub start_address : ℕ
  pub end_address : ℕ
  pub block_size : ℕ
  pub controller_index : ℕ
  pub next_address : ℕ
  pub compact_user_addresses : List ℕ
  pub compact_probed_nodes : List ℕ
  pub compact_records : List (ℕ × List (ℕ × Bytes))

pub record SearchQueue : Type 0 where
  pub pending : List PendingEepromSearch
  pub jobs : List (ℕ × ControllerEepromSearchJob)
  pub next_id : ℕ

-- `remove_if` of what is no address, then `unique`.
unfoldable pub distinct_addresses : List ℕ → List ℕ
distinct_addresses [] = []
distinct_addresses (a ∷ rest) =
    let others = distinct_addresses rest in
    if ltb a 1 || ltb 16383 a || get_or others 0 0 == a then others else a ∷ others

-- The number of blocks, as the division of `int`s gives it. A range that ends before it starts by a
-- block or more has a number below zero.
unfoldable pub block_count : ℕ → ℕ → ℕ → ℤ
block_count first last size =
    if leb first (last + size)
    then pos ((last + size - first) / size)
    else sub_ℕ 0 ((first - last - size) / size)

-- `n * blocks`.
unfoldable pub scaled : ℕ → ℤ → ℤ
scaled n (pos k) = pos (n * k)
scaled n (ℤ.negsuc k) = sub_ℕ 0 (n * suc k)

unfoldable pub queue_eeprom_search :
    Text → ℕ → ℕ → List ℕ → ℕ → ℕ → ℕ → List ℕ → SearchQueue → ℕ × SearchQueue
unfolding distinct_addresses block_count scaled
queue_eeprom_search now series number nodes first last size wanted q =
    let addresses = distinct_addresses (Sort.sort ltb wanted) in
    let done = is_empty nodes || ltb last first in
    let job : ControllerEepromSearchJob = record {
      id = q.next_id;
      created_at = now;
      state = if done then JobState.completed else JobState.queued;
      card_series = series;
      card_number = number;
      compact_user_addresses = addresses;
      compact_probes = [];
      start_address = first;
      end_address = last;
      block_size = size;
      total = scaled (length nodes) (block_count first last size);
      completed_count = 0;
      failed = 0;
      truncated = false;
      matches = [];
      errors = [];
    } in
    let request : PendingEepromSearch = record {
      id = q.next_id;
      card_series = series;
      card_number = number;
      controller_nodes = nodes;
      start_address = first;
      end_address = last;
      block_size = size;
      controller_index = 0;
      next_address = first;
      compact_user_addresses = addresses;
      compact_probed_nodes = [];
      compact_records = [];
    } in
    (
      q.next_id,
      record {
        pending = if done then q.pending else q.pending ++ request ∷ [];
        jobs = add_job 12 q.next_id job q.jobs;
        next_id = suc q.next_id;
      },
    )

unfoldable pub eeprom_search_job : ℕ → SearchQueue → Option ControllerEepromSearchJob
eeprom_search_job id q = lookup id q.jobs

-- The next block: of this controller, or the first one of the next controller.
unfoldable pub next_block : PendingEepromSearch → PendingEepromSearch
next_block p =
    let next = p.next_address + p.block_size in
    if ltb p.end_address next
    then record p { next_address = p.start_address; controller_index = suc p.controller_index }
    else record p { next_address = next }

unfoldable pub exhausted : PendingEepromSearch → Bool
exhausted p = leb (length p.controller_nodes) p.controller_index

-- The addresses that a block answers for, and the bytes that are read for it.
unfoldable pub core_length : PendingEepromSearch → ℕ
core_length p = min p.block_size (p.end_address + 1 - p.next_address)

unfoldable pub read_length : PendingEepromSearch → ℕ
unfolding core_length
read_length p = min (core_length p + 12) (0x10000 - p.next_address)

pub record Run (W : Type 0) : Type 0 where
  pub link : Link W
  pub queue : SearchQueue

-- What the probes of a controller gave.
pub record Probed (W : Type 0) : Type 0 where
  pub notes : List CompactProbe
  pub records : List (ℕ × Bytes)
  pub after : Link W

abbrev records_or : Option (List (ℕ × Bytes)) → List (ℕ × Bytes)
records_or none = []
records_or (some rs) = rs

module _ {W : Type 0} (io : Port W) (running : W → Bool) where
  unfoldable pub probe_users : ℕ → List ℕ → Link W → Probed W
  unfolding probe_note compact_of
  probe_users node [] link = record { notes = []; records = []; after = link }
  probe_users node (address ∷ addresses) link =
      let (u, read) = read_user io (node % 256) (pos address) link in
      let others = probe_users node addresses read in
      record others {
        notes = probe_note node address u ∷ others.notes;
        records = if compact_of u then (address, u.raw_record) ∷ others.records else others.records;
      }

  unfoldable pub needs_probe : PendingEepromSearch → ℕ → Bool
  needs_probe p node =
      not (is_empty p.compact_user_addresses)
      && not (any (λ (n : ℕ). n == node) p.compact_probed_nodes)

  -- The records of a controller, which are read before its first block.
  unfoldable pub probe : PendingEepromSearch → ℕ → Link W → Probed W × PendingEepromSearch
  unfolding probe_users needs_probe
  probe p node link =
      let known : Probed W = record {
        notes = [];
        records = records_or (lookup node p.compact_records);
        after = link;
      } in
      let probed = probe_users node p.compact_user_addresses link in
      if needs_probe p node
      then (
        probed,
        record p {
          compact_probed_nodes = node ∷ p.compact_probed_nodes;
          compact_records = insert node probed.records p.compact_records;
        },
      )
      else (known, p)

  -- One block of the request at the front: the flag is `false` behind the last one.
  unfoldable pub search_task : PendingEepromSearch → List PendingEepromSearch → Run W → Bool × Run W
  unfolding probe next_block exhausted core_length read_length all_matches count_block
  search_task p rest run =
      let node = get_or p.controller_nodes p.controller_index 0 in
      let start = p.next_address in
      let (probed, kept) = probe p node run.link in
      let moved = next_block kept in
      let last = exhausted moved in
      let (got, link) =
        read_eeprom io (node % 256) (pos start) (pos (read_length p)) probed.after in
      let patterns =
        eeprom_patterns p.card_series p.card_number ++ compact_patterns probed.records in
      let found =
        if got.ok then all_matches node start (core_length p) got.bytes patterns else [] in
      let noted : ControllerEepromSearchJob → ControllerEepromSearchJob =
        λ job. record job { compact_probes = job.compact_probes ++ probed.notes } in
      let queue = run.queue in
      (
        not last,
        record {
          link = link;
          queue = record queue {
            pending = if last then rest else moved ∷ rest;
            jobs =
                adjust p.id (λ job. count_block node start last got found (noted job)) queue.jobs;
          };
        },
      )

  unfoldable pub search_front :
      PendingEepromSearch → List PendingEepromSearch → Run W → Bool × Run W
  unfolding search_task exhausted
  search_front p rest run =
      let queue = run.queue in
      let in_state : JobState → SearchQueue = λ state. record queue {
        jobs = adjust p.id (λ job. record job { state = state }) queue.jobs;
      } in
      elim (lookup p.id queue.jobs) [
        | none ↦ (true, record run { queue = record queue { pending = rest } })
        | some job ↦
            if exhausted p
            then (
              true,
              record run { queue = record (in_state JobState.completed) { pending = rest } },
            )
            else search_task p rest (record run { queue = in_state JobState.running })
      ]

  -- At most `batch` blocks in one turn of the worker.
  unfoldable pub search_batch : ℕ → Run W → Run W
  unfolding search_front
  search_batch zero run = run
  search_batch (suc batch) run = elim (running run.link.port) [
    | false ↦ run
    | true ↦ elim run.queue.pending [
      | [] ↦ run
      | p ∷ rest ↦
          let (going, after) = search_front p rest run in
          elim going [ true ↦ search_batch batch after | false ↦ after ]
    ]
  ]

  unfoldable pub process_eeprom_search_batch : Run W → Run W
  unfolding search_batch
  process_eeprom_search_batch run = search_batch 4 run
