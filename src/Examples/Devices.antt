-- ===== src/Examples/Devices.antt =====
-- A search of a memory, the list of controllers on files in memory, and the notices of two events.
use monk_skud_unex.Base.{
  ℕ, suc, ◌+◌, ◌-◌, List, [], ◌∷◌, ◌++◌, Bool, true, false, Text, Bytes, Option, none, some, ℤ, pos,
  negsuc, All, codes, replicate, length, length-append, drop, is_empty, ◌≡◌, refl, ◌∙◌, arith,
}
use monk_skud_unex.Text.Csv.{body_rows}
use monk_skud_unex.Config.{Config}
use monk_skud_unex.Reports.Telegram.Attempts.{logged}
use monk_skud_unex.Notifier.{notify_all}
use monk_skud_unex.Controllers.Search.{PendingEepromSearch}
use monk_skud_unex.Controllers.Search.Patterns.{EepromPattern}
use monk_skud_unex.Controllers.Search.Occurrences.{occurrences}
use monk_skud_unex.Controllers.Search.Covered.{Fits, sweep, block_addresses, sweep-occurrences}
use monk_skud_unex.Controllers.Stored.{
  BackupFiles, Stored, files, load_controllers, save_controllers,
}
use monk_skud_unex.Controllers.Stored.Rows.{StoredController, parse_controllers, controllers_text}
use monk_skud_unex.Controllers.Stored.RoundTrip.{
  IsPlainController, load_controllers-save_controllers,
}
use monk_skud_unex.Examples.Disk.{
  Files, memory_files, memory_files-Reliable, arrival_event, departure_event,
}

-- The card 1:2 in two bytes each, across the end of the first block, and again in the second one.
abbrev some_bytes : Bytes
some_bytes = replicate 14 0 ++ (0 ∷ 1 ∷ 0 ∷ 2 ∷ 0 ∷ 0 ∷ 0 ∷ 1 ∷ 0 ∷ 2 ∷ [])

abbrev memory : Bytes
memory = some_bytes ++ replicate 65512 255

length-replicate : (n b : ℕ) → length (replicate n b) ≡ n
length-replicate ℕ.zero b = refl
length-replicate (suc n) b = omega (arith, length-replicate n b)

memory_size : length memory ≡ 0x10000
memory_size =
    omega (arith, length-append some_bytes (replicate 65512 255), length-replicate 65512 255)

abbrev card_pattern : EepromPattern
card_pattern = record { name = codes "S16+N16 BE"; bytes = 0 ∷ 1 ∷ 0 ∷ 2 ∷ []; exact = true }

abbrev first_block : PendingEepromSearch
first_block = record {
  id = 1;
  card_series = 1;
  card_number = 2;
  controller_nodes = 1 ∷ [];
  start_address = 0;
  end_address = 31;
  block_size = 16;
  controller_index = 0;
  next_address = 0;
  compact_user_addresses = [];
  compact_probed_nodes = [];
  compact_records = [];
}

block_Fits : Fits card_pattern memory first_block
block_Fits = record {
  some_bytes = refl;
  in_overlap = omega arith;
  whole = memory_size;
  positive = omega arith;
  in_range = omega arith;
  in_memory = omega arith;
}

two_places : occurrences (0 ∷ 1 ∷ 0 ∷ 2 ∷ []) 32 0 (some_bytes ++ replicate 40 255) ≡ 14 ∷ 20 ∷ []
unfolding occurrences monk_skud_unex.Controllers.Search.Matches.is_prefix
two_places = refl

sweep-occurrences_example :
    sweep 32 (block_addresses 1 card_pattern memory) first_block
    ≡ occurrences card_pattern.bytes
        (first_block.end_address + 1 - first_block.next_address)
        first_block.next_address
        (drop first_block.next_address memory)
sweep-occurrences_example =
    sweep-occurrences 1 card_pattern memory 32 first_block block_Fits (omega arith)

abbrev no_backup : BackupFiles Files
no_backup = record {
  create_directories = λ path w. (none, w);
  copy_file = λ from to w. (none, w);
  remove = λ path w. (none, memory_files.remove path w);
}

abbrev no_settings : Config
no_settings = record { path = codes "system.conf"; kv = [] }

abbrev door : ℤ → Text → Bool → StoredController
door node name enabled = record {
  node = node;
  name = name;
  model = codes "AR-721H";
  enabled = enabled;
}

abbrev two_doors : List StoredController
two_doors = door (pos 1) (codes "Main door") true ∷ door (pos 2) (codes "Gate") false ∷ []

abbrev doors : Stored Files
doors = record { controllers = two_doors; controller_cards = []; storage_error = []; world = [] }

abbrev doors_path : Text
doors_path = codes "controllers.csv"

abbrev cards_path : Text
cards_path = codes "controller_cards.csv"

door_names :
    IsPlainController (door (pos 1) (codes "Main door") true)
    × IsPlainController (door (pos 2) (codes "Gate") false)
unfolding monk_skud_unex.Text.Csv.Rows.is_plain
door_names = (
  record { node = omega arith; name = refl; model = refl },
  record { node = omega arith; name = refl; model = refl },
)

doors_saved :
    (save_controllers memory_files no_backup no_settings doors_path cards_path [] [] files doors).0
    ≡ true
unfolding save_controllers monk_skud_unex.Storage.Files.replace_file
    monk_skud_unex.Storage.Files.rename_over monk_skud_unex.Base.Map.lookup
    monk_skud_unex.Base.Map.adjust monk_skud_unex.Base.Map.insert monk_skud_unex.Base.bytes_eq
doors_saved = refl

load_controllers-save_controllers_example :
    let saved =
      (save_controllers memory_files no_backup no_settings doors_path cards_path [] [] files
        doors).1 in
    let r =
      load_controllers memory_files no_backup no_settings doors_path cards_path [] [] files
        (record saved { controllers = [] }) in
    (r.0 ≡ true) × (r.1.controllers ≡ two_doors)
load_controllers-save_controllers_example =
    load_controllers-save_controllers memory_files memory_files-Reliable no_backup no_settings
      doors_path cards_path [] [] doors [] (door_names.0, (door_names.1, record {})) doors_saved

-- A name with a separator: the disabled controller comes back enabled, with another name and model.
shifted :
    parse_controllers (body_rows (controllers_text (door (pos 2) (codes "Gate;east") false ∷ [])))
    ≡ record { node = pos 2; name = codes "Gate"; model = codes "east"; enabled = true } ∷ []
unfolding parse_controllers monk_skud_unex.Controllers.Stored.Rows.parse_controller
    monk_skud_unex.Text.Csv.body_rows monk_skud_unex.Text.Csv.lines
    monk_skud_unex.Text.Csv.lines_loop monk_skud_unex.Text.Csv.terminated
    monk_skud_unex.Controllers.Stored.Rows.controllers_text
    monk_skud_unex.Controllers.Stored.Rows.controller_line
    monk_skud_unex.Controllers.Stored.Rows.controller_fields monk_skud_unex.Text.Csv.joined
    monk_skud_unex.Text.Int.int_text monk_skud_unex.Text.Number.to_string monk_skud_unex.Text.split
    monk_skud_unex.Text.split_loop monk_skud_unex.Text.Int.stoi monk_skud_unex.Text.Int.signed_int
    monk_skud_unex.Text.Int.digits_int monk_skud_unex.Text.Int.leading_digits
    monk_skud_unex.Text.Int.int_of monk_skud_unex.Text.Number.value
    monk_skud_unex.Text.Number.is_digit monk_skud_unex.Text.drop_spaces monk_skud_unex.Text.is_space
    monk_skud_unex.Base.bytes_eq
shifted = refl

abbrev no_time : Text → Option ℤ
no_time s = none

abbrev same_time : ℤ → ℤ
same_time t = t

abbrev network : Text → ℕ → Bool × ℕ
network m n = (true, suc n)

abbrev at_zero : ℕ × List Text → ℤ
at_zero s = pos 0

two_notices :
    length
      (notify_all no_time same_time
        (logged network)
        no_settings
        at_zero
        (arrival_event ∷ departure_event ∷ [])
        (0, [])).1
    ≡ 2
unfolding notify_all monk_skud_unex.Config.get_bool monk_skud_unex.Base.Map.lookup
    monk_skud_unex.Reports.Telegram.attempt monk_skud_unex.Reports.Deliver.retries
    monk_skud_unex.Config.get_int monk_skud_unex.Text.Int.stoi monk_skud_unex.Text.Int.signed_int
    monk_skud_unex.Text.drop_spaces logged
two_notices = refl
