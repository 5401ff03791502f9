-- ===== src/Departments.antt =====
-- src/departments/DepartmentManager.cpp: the list of departments and its changes. The lock makes each call
-- atomic; `save` writes the list to its file or to the database.
pub mod Unique
use monk_skud_unex.Base.{
  ℕ, List, [], ◌∷◌, ◌++◌, Bool, true, false, not, ◌||◌, Text, Option, none, some, if◌then◌else◌,
  is_empty, bytes_eq, any, remove_if, length, ◌==◌, codes, drop,
}
use monk_skud_unex.Base.Sort.{sort, text_lt}
use monk_skud_unex.Text.{trim}
use monk_skud_unex.Text.Csv.{safe, lines, terminated}
use monk_skud_unex.Storage.Files.{FileSystem, content, replace_file}

unfoldable pub normalize : Text → Text
normalize name = trim (safe (trim name))

abbrev pub has_name : Text → List Text → Bool
has_name n names = any (bytes_eq n) names

-- A name that is empty or there already is dropped.
unfoldable pub add_name : Text → List Text → List Text
unfolding normalize
add_name raw names =
    let n = normalize raw in
    if is_empty n then names else if has_name n names then names else names ++ n ∷ []

unfoldable pub add_names : List Text → List Text → List Text
unfolding add_name
add_names [] names = names
add_names (raw ∷ raws) names = add_names raws (add_name raw names)

-- The names of the lines behind the header.
unfoldable pub parse_names : Text → List Text
unfolding add_names
parse_names s = sort text_lt (add_names (drop 1 (lines s)) [])

unfoldable pub replace_first : Text → Text → List Text → List Text
replace_first old new [] = []
replace_first old new (n ∷ names) =
    let rest = replace_first old new names in if bytes_eq old n then new ∷ names else n ∷ rest

pub record Departments (W : Type 0) : Type 0 where
  pub names : List Text
  pub world : W

module _ {W : Type 0} (fs : FileSystem W) (path : Text) where
  -- With no database: the list of the file, or the old one where it cannot be opened.
  unfoldable pub load : Departments W → Bool × Departments W
  unfolding parse_names
  load d = elim (fs.read path d.world) [
    | none ↦ (false, d)
    | some s ↦ (true, record d { names = parse_names s })
  ]

  unfoldable pub save_file : List Text → W → Bool × W
  save_file names w = replace_file fs path (terminated (codes "name" ∷ names)) w

module _ {W : Type 0} (save : List Text → W → Bool × W) where
  -- The list changes also where saving fails.
  unfoldable pub commit : List Text → Departments W → Bool × Departments W
  commit names d = let r = save names d.world in (r.0, record { names = names; world = r.1 })

  unfoldable pub contains : Text → Departments W → Bool
  unfolding normalize
  contains raw d = has_name (normalize raw) d.names

  unfoldable pub add : Text → Departments W → Bool × Departments W
  unfolding normalize commit
  add raw d =
      let n = normalize raw in
      if is_empty n
      then (false, d)
      else if has_name n d.names
      then (true, d)
      else commit (sort text_lt (d.names ++ n ∷ [])) d

  unfoldable pub rename : Text → Text → Departments W → Bool × Departments W
  unfolding normalize commit replace_first
  rename raw_old raw_new d =
      let old = normalize raw_old in
      let new = normalize raw_new in
      if is_empty old || is_empty new
      then (false, d)
      else if bytes_eq old new
      then (true, d)
      else if has_name new d.names || not (has_name old d.names)
      then (false, d)
      else commit (sort text_lt (replace_first old new d.names)) d

  unfoldable pub erase : Text → Departments W → Bool × Departments W
  unfolding normalize commit
  erase raw d =
      let n = normalize raw in
      let rest = remove_if (bytes_eq n) d.names in
      if is_empty n
      then (false, d)
      else if length d.names == length rest
      then (false, d)
      else commit rest d

  -- All names that are missing, and one save if there was any.
  unfoldable pub ensure : List Text → Departments W → Bool × Departments W
  unfolding add_names commit
  ensure raws d =
      let names = add_names raws d.names in
      if length names == length d.names then (true, d) else commit (sort text_lt names) d
