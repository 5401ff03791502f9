-- ===== src/Controllers/Stored/RoundTrip.antt =====
-- src/controllers/ControllerManager.cpp: a list of controllers that was saved is the list that is loaded.
use monk_skud_unex.Base.{
  List, [], ◌∷◌, Bool, true, false, not, some, Text, All, ◌≡◌, refl, ◌∙◌, map, codes, bytes_eq,
  Option-cases, inl, inr, arith,
}
use monk_skud_unex.Text.{split}
use monk_skud_unex.Text.Number.{all_of}
use monk_skud_unex.Text.Int.{int_text}
use monk_skud_unex.Text.Int.RoundTrip.{IsInt, stoi-int_text}
use monk_skud_unex.Text.Csv.{is_separator, body_rows}
use monk_skud_unex.Text.Csv.Rows.{is_plain, Plain, OneLine, split-joined, lacks-joined, lacks}
use monk_skud_unex.Config.{Config}
use monk_skud_unex.Storage.Files.{FileSystem, Reliable}
use monk_skud_unex.Storage.Files.Replace.{replace_file-read}
use monk_skud_unex.Storage.Formats.RoundTrip.{is_plain-int_text}
use monk_skud_unex.Storage.Formats.Tables.{body_rows-terminated}
use monk_skud_unex.Controllers.Stored.{
  BackupFiles, Stored, files, load_controllers, load_controller_cards, save_controllers,
}
use monk_skud_unex.Controllers.Stored.Rows.{
  StoredController, controller_header, flag, controller_fields, controller_line, controllers_text,
  parse_controller, parse_controllers,
}

-- A name and a model that do not end a field or a row, which nothing else in the program asks for.
pub record IsPlainController (c : StoredController) : Type 0 where
  pub node : IsInt c.node
  pub name : is_plain c.name ≡ true
  pub model : is_plain c.model ≡ true

flag-Plain : (b : Bool) → Plain (flag b)
unfolding is_plain all_of is_separator
flag-Plain true = refl
flag-Plain false = refl

controller_fields-Plain :
    (c : StoredController) → IsPlainController c → All Plain (controller_fields c)
unfolding controller_fields
controller_fields-Plain c h =
    (is_plain-int_text c.node, (h.name, (h.model, (flag-Plain c.enabled, record {}))))

split-controller_line :
    (c : StoredController)
    → IsPlainController c
    → split (controller_line c) b';' ≡ controller_fields c
unfolding controller_line controller_fields
split-controller_line c h =
    split-joined (int_text c.node) c.name (c.model ∷ flag c.enabled ∷ [])
      (controller_fields-Plain c h)

read_flag : (b : Bool) → not (bytes_eq (flag b) (codes "0")) ≡ b
unfolding bytes_eq
read_flag true = refl
read_flag false = refl

parse_controller-controller_fields :
    (c : StoredController) → IsPlainController c → parse_controller (controller_fields c) ≡ some c
unfolding parse_controller controller_fields
parse_controller-controller_fields c h =
    ground (arith, stoi-int_text c.node h.node, read_flag c.enabled)

parse_controllers-lines :
    (cs : List StoredController)
    → All IsPlainController cs
    → parse_controllers (map (λ (l : Text). split l b';') (map controller_line cs)) ≡ cs
unfolding parse_controllers
parse_controllers-lines [] h = refl
parse_controllers-lines (c ∷ cs) h = ground (
  arith,
  split-controller_line c h.0,
  parse_controller-controller_fields c h.0,
  parse_controllers-lines cs h.1,
)

controller_lines-OneLine :
    (cs : List StoredController) → All IsPlainController cs → All OneLine (map controller_line cs)
unfolding controller_line
controller_lines-OneLine [] h = record {}
controller_lines-OneLine (c ∷ cs) h = (
  lacks-joined (controller_fields c) (controller_fields-Plain c h.0),
  controller_lines-OneLine cs h.1,
)

parse_controllers-controllers_text :
    (cs : List StoredController)
    → All IsPlainController cs
    → parse_controllers (body_rows (controllers_text cs)) ≡ cs
unfolding controllers_text lacks all_of
parse_controllers-controllers_text cs h =
    rw
      (body_rows-terminated controller_header (map controller_line cs) refl
        (controller_lines-OneLine cs h))
      (parse_controllers-lines cs h)

module _ {W : Type 0} (fs : FileSystem W) (laws : Reliable fs) (backup : BackupFiles W) (c : Config)
    (path cards_path backup_dir stamp : Text) where
  keeps_controllers :
      (s : Stored W)
      → (load_controller_cards fs backup c path cards_path backup_dir stamp files s).1.controllers
        ≡ s.controllers
  unfolding load_controller_cards
  keeps_controllers s = elim (Option-cases (fs.read cards_path s.world)) [
    | inl gone ↦ rw (gone, load_controller_cards) refl
    | inr found ↦ rw (found.1, load_controller_cards) refl
  ]

  -- Controllers that were saved to the file, whose names and models have no separator, are the
  -- controllers that are loaded from it, whatever the list was then and whether or not their cards are
  -- there.
  pub load_controllers-save_controllers :
      (s : Stored W) (others : List StoredController)
      → All IsPlainController s.controllers
      → (save_controllers fs backup c path cards_path backup_dir stamp files s).0 ≡ true
      → let saved = (save_controllers fs backup c path cards_path backup_dir stamp files s).1 in
        let r =
          load_controllers fs backup c path cards_path backup_dir stamp files
            (record saved { controllers = others }) in
        (r.0 ≡ true) × (r.1.controllers ≡ s.controllers)
  unfolding save_controllers load_controllers
  load_controllers-save_controllers s others h done =
      rw
        (
          replace_file-read fs laws path (controllers_text s.controllers) s.world done,
          load_controllers,
          save_controllers,
        )
        (refl, keeps_controllers _ ∙ parse_controllers-controllers_text s.controllers h)
