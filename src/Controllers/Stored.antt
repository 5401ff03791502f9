-- ===== src/Controllers/Stored.antt =====
-- src/controllers/ControllerManager.cpp: what `loadControllers`, `saveControllers`, `loadControllerCards`
-- and `saveControllerCards` keep, in files or in the database, and the move from one to the other.
pub mod RoundTrip
pub mod Merged
pub mod Rows
use monk_skud_unex.Base.{
  ℕ, List, [], ◌∷◌, ◌++◌, Bool, true, false, ◌&&◌, not, Text, Option, none, some, ℤ, eq_ℤ, leb_ℤ,
  ◌==◌, if◌then◌else◌, is_empty, length, map, any, codes, bytes_eq,
}
use monk_skud_unex.Base.Map.{insert, text_eq}
use monk_skud_unex.Base.Sort
use monk_skud_unex.Base.Sort.{text_lt}
use monk_skud_unex.Text.Number.{to_string}
use monk_skud_unex.Text.Int.{int_text, stoi, stoull}
use monk_skud_unex.Text.Card.{parse_card_id, format_card_id}
use monk_skud_unex.Text.Csv.{safe, joined, terminated, body_rows}
use monk_skud_unex.Config.{Config, get_bool}
use monk_skud_unex.Storage.Files.{FileSystem, replace_file}
use monk_skud_unex.Storage.FileStore.{Answer, ok, failed}
use monk_skud_unex.Controllers.Stored.Rows.{
  StoredController, StoredCard, controller_header, flag, controller_fields, controller_line,
  controllers_text, parse_controller, parse_controllers, card_header, card_fields, cards_text,
  with_numbers, parse_card, parse_cards, key_of, index_cards, merge_controllers, same_card,
  merge_card, merge_cards,
}

-- What the manager uses of `MariaDbUserStore`.
pub record ControllerDatabase (W : Type 0) : Type 0 where
  pub load_controllers : W → Answer (List StoredController)
  pub save_controllers : List StoredController → W → Option Text × W
  pub load_controller_cards : W → Answer (List StoredCard)
  pub save_controller_cards : List StoredCard → W → Option Text × W

pub data Backend (W : Type 0) : Type 0 where
  files : Backend W
  no_database : Backend W
  database : ControllerDatabase W → Backend W

-- `std::filesystem`: each operation gives its error, if there is one.
pub record BackupFiles (W : Type 0) : Type 0 where
  pub create_directories : Text → W → Option Text × W
  pub copy_file : Text → Text → W → Option Text × W
  pub remove : Text → W → Option Text × W

pub record Stored (W : Type 0) : Type 0 where
  pub controllers : List StoredController
  pub controller_cards : List (Text × StoredCard)
  pub storage_error : Text
  pub world : W

-- A table that can be moved: its rows, and how the database and the file keep them.
record Table (W R : Type 0) : Type 0 where
  load : W → Answer (List R)
  save : List R → W → Option Text × W
  merge : List R → List R → List R
  label : Text
  refused : Text

module _ {W : Type 0} (fs : FileSystem W) (backup : BackupFiles W) (c : Config)
    (path cards_path backup_dir stamp : Text) where
  unfoldable pub backup_and_remove : Text → Text → W → Option Text × W
  backup_and_remove file label w =
      let made = backup.create_directories backup_dir w in
      let target = backup_dir ++ b'/' ∷ (label ++ (codes ".pre-mariadb-" ++ stamp)) in
      let copied = backup.copy_file file target made.1 in
      let removed = backup.remove file copied.1 in
      if not (fs.exists file w) then (none, w) else elim made.0 [
        | some e ↦ (some e, made.1)
        | none ↦ elim copied.0 [ some e ↦ (some e, copied.1) | none ↦ removed ]
      ]

  abbrev migrates : Bool
  migrates = get_bool (codes "database.migrate_runtime_csv") true c

  abbrev removes : Bool
  removes = get_bool (codes "database.remove_csv_after_migration") true c

  -- The rows that the database gives back, or the error.
  unfoldable verified : {R : Type 0} → Table W R → List R → W → Answer (List R)
  verified t rows w = elim (t.load w) [
    | failed e ↦ failed (t.refused ++ e)
    | ok back ↦ if length back == length rows then ok back else failed t.refused
  ]

  -- The rows of the file are merged into those of the database, saved and read back, and the file is put
  -- away only then.
  unfoldable migrate : {R : Type 0} → Table W R → Text → List R → List R → W → Answer (List R) × W
  unfolding verified backup_and_remove
  migrate t file rows csv w =
      let merged = t.merge rows csv in
      let saved = t.save merged w in
      let gone = backup_and_remove file t.label saved.1 in
      elim saved.0 [
        | some e ↦ (failed e, saved.1)
        | none ↦ elim (verified t merged saved.1) [
          | failed e ↦ (failed e, saved.1)
          | ok back ↦
              if not removes
              then (ok back, saved.1)
              else elim gone.0 [ some e ↦ (failed e, gone.1) | none ↦ (ok back, gone.1) ]
        ]
      ]

  -- The rows of a table in the database, with those of a file that is still there.
  unfoldable load_table :
      {R : Type 0} → Table W R → (List (List Text) → List R) → Text → W → Answer (List R) × W
  unfolding migrate
  load_table t parse file w = elim (t.load w) [
    | failed e ↦ (failed e, w)
    | ok rows ↦ elim (fs.read file w) [
      | none ↦ (ok rows, w)
      | some s ↦ if migrates then migrate t file rows (parse (body_rows s)) w else (ok rows, w)
    ]
  ]

  abbrev controller_table : ControllerDatabase W → Table W StoredController
  controller_table db = record {
    load = db.load_controllers;
    save = db.save_controllers;
    merge = merge_controllers;
    label = codes "controllers.csv";
    refused = codes "controllers migration verification failed: ";
  }

  abbrev card_table : ControllerDatabase W → Table W StoredCard
  card_table db = record {
    load = db.load_controller_cards;
    save = db.save_controller_cards;
    merge = merge_cards;
    label = codes "controller_cards.csv";
    refused = codes "controller cards migration verification failed: ";
  }

  module _ (backend : Backend W) where
    unfoldable pub load_controller_cards : Stored W → Bool × Stored W
    unfolding load_table parse_cards index_cards
    load_controller_cards s = elim backend [
      | no_database ↦ (false, s)
      | database db ↦
          let r = load_table (card_table db) parse_cards cards_path s.world in
          elim r.0 [
            | failed e ↦ (false, record s { storage_error = e; world = r.1 })
            | ok rows ↦ (true, record s { controller_cards = index_cards [] rows; world = r.1 })
          ]
      | files ↦ elim (fs.read cards_path s.world) [
        | none ↦ (false, s)
        | some text ↦
            (true, record s { controller_cards = index_cards [] (parse_cards (body_rows text)) })
      ]
    ]

    -- With files, a list of controllers is loaded also where their cards are not.
    unfoldable pub load_controllers : Stored W → Bool × Stored W
    unfolding load_table parse_controllers load_controller_cards
    load_controllers s = elim backend [
      | no_database ↦
          (false, record s { storage_error = codes "MariaDB backend is not initialized" })
      | database db ↦
          let r = load_table (controller_table db) parse_controllers path s.world in
          elim r.0 [
            | failed e ↦ (false, record s { storage_error = e; world = r.1 })
            | ok rows ↦ load_controller_cards (record s { controllers = rows; world = r.1 })
          ]
      | files ↦ elim (fs.read path s.world) [
        | none ↦ (false, s)
        | some text ↦
            let rows = parse_controllers (body_rows text) in
            (true, (load_controller_cards (record s { controllers = rows })).1)
      ]
    ]

    abbrev noted : Option Text × W → Stored W → Bool × Stored W
    noted (none, w) s = (true, record s { world = w })
    noted (some e, w) s = (false, record s { world = w; storage_error = e })

    unfoldable pub save_controllers : Stored W → Bool × Stored W
    save_controllers s = elim backend [
      | no_database ↦ (false, s)
      | database db ↦ noted (db.save_controllers s.controllers s.world) s
      | files ↦
          let r = replace_file fs path (controllers_text s.controllers) s.world in
          (r.0, record s { world = r.1 })
    ]

    unfoldable pub save_controller_cards : Stored W → Bool × Stored W
    save_controller_cards s =
        let rows = map (λ (e : Text × StoredCard). e.1) s.controller_cards in
        elim backend [
          | no_database ↦ (false, s)
          | database db ↦ noted (db.save_controller_cards rows s.world) s
          | files ↦
              let r = replace_file fs cards_path (cards_text rows) s.world in
              (r.0, record s { world = r.1 })
        ]

    -- The name changes in memory also where it cannot be saved.
    unfoldable pub rename_controller : ℤ → Text → Stored W → Bool × Stored W
    unfolding save_controllers
    rename_controller node name s =
        let named =
          λ (x : StoredController). if eq_ℤ x.node node then record x { name = name } else x in
        if any (λ (x : StoredController). eq_ℤ x.node node) s.controllers
        then save_controllers (record s { controllers = map named s.controllers })
        else (false, s)

    unfoldable pub clear_controller_cards : Stored W → Stored W
    unfolding save_controller_cards
    clear_controller_cards s = (save_controller_cards (record s { controller_cards = [] })).1

-- The latest card first, then by node and by card.
unfoldable pub card_before : StoredCard → StoredCard → Bool
card_before a b =
    if not (bytes_eq a.last_seen b.last_seen)
    then text_lt b.last_seen a.last_seen
    else if not (eq_ℤ a.controller_node b.controller_node)
    then not (leb_ℤ b.controller_node a.controller_node)
    else text_lt a.card b.card

unfoldable pub controller_cards : List (Text × StoredCard) → List StoredCard
unfolding card_before
controller_cards m = Sort.sort card_before (map (λ (e : Text × StoredCard). e.1) m)
