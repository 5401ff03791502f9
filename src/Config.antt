-- ===== src/Config.antt =====
-- src/config/Config.cpp: the settings, a map from keys to values and its file. The lock makes each call
-- atomic.
pub mod RoundTrip
use monk_skud_unex.Base.{
  ℕ, ◌+◌, List, [], ◌∷◌, ◌++◌, Bool, true, false, ◌||◌, ◌&&◌, Text, Option, none, some, ℤ, leb,
  ◌==◌, if◌then◌else◌, is_empty, codes, bytes_eq, get_or, map, ◌≡◌, arith,
}
use monk_skud_unex.Base.Map.{lookup, insert, lookup-insert, text_eq}
use monk_skud_unex.Text.{trim, cut}
use monk_skud_unex.Text.Int.{stoi}
use monk_skud_unex.Text.Csv.{lines, terminated}
use monk_skud_unex.Storage.Files.{FileSystem, replace_file}

pub record Config : Type 0 where
  pub path : Text
  pub kv : List (Text × Text)

abbrev pub text_or : Text → Option Text → Text
text_or d none = d
text_or d (some v) = v

unfoldable pub get : Text → Text → Config → Text
get key default c = text_or default (lookup key c.kv)

unfoldable pub get_int : Text → ℤ → Config → ℤ
unfolding get
get_int key default c = elim (stoi (get key [] c)) [ none ↦ default | some z ↦ z ]

-- `std::tolower` in the C locale.
unfoldable pub to_lower : Text → Text
to_lower [] = []
to_lower (c ∷ s) = (if leb b'A' c && leb c b'Z' then c + 32 else c) ∷ to_lower s

unfoldable pub get_bool : Text → Bool → Config → Bool
unfolding get to_lower
get_bool key default c =
    let v = to_lower (get key [] c) in
    if is_empty v
    then default
    else bytes_eq v (codes "1")
      || bytes_eq v (codes "true")
      || bytes_eq v (codes "yes")
      || bytes_eq v (codes "on")

unfoldable pub set : Text → Text → Config → Config
set key value c = record c { kv = insert key value c.kv }

pub get-set :
    (k j v d : Text) (c : Config) → get k d (set j v c) ≡ (if bytes_eq j k then v else get k d c)
unfolding get set
get-set k j v d c = ground (arith, lookup-insert j k v c.kv)

unfoldable pub config_line : Text × Text → Text
config_line (k, v) = k ++ b'=' ∷ v

unfoldable pub raw : Config → Text
unfolding config_line
raw c = terminated (map config_line c.kv)

abbrev pub config_header : Text
config_header = codes "# Monk_SKUD_UNEX system configuration"

unfoldable pub config_text : Config → Text
unfolding config_line
config_text c = terminated (config_header ∷ map config_line c.kv)

-- A line of the file: nothing to read, no `=`, or a key and a value.
pub data Line : Type 0 where
  blank : Line
  bad : Line
  entry : Text → Text → Line

unfoldable pub parse_line : Text → Line
parse_line s =
    let line = trim s in
    if is_empty line || get_or line 0 0 == b'#'
    then blank
    else elim (cut (λ (c : ℕ). c == b'=') line) [
      | none ↦ bad
      | some (k, v) ↦ entry (trim k) (trim v)
    ]

-- `load` skips a line without `=`.
unfoldable pub load_lines : List (Text × Text) → List Text → List (Text × Text)
unfolding parse_line
load_lines kv [] = kv
load_lines kv (l ∷ ls) = elim (parse_line l) [
  | blank ↦ load_lines kv ls
  | bad ↦ load_lines kv ls
  | entry k v ↦ load_lines (insert k v kv) ls
]

-- `replaceRaw` refuses the whole text for such a line.
unfoldable pub read_lines : List (Text × Text) → List Text → Option (List (Text × Text))
unfolding parse_line
read_lines kv [] = some kv
read_lines kv (l ∷ ls) = elim (parse_line l) [
  | blank ↦ read_lines kv ls
  | bad ↦ none
  | entry k v ↦ read_lines (insert k v kv) ls
]

module _ {W : Type 0} (fs : FileSystem W) where
  unfoldable pub load : Config → W → Bool × Config
  load c w = elim (fs.read c.path w) [
    | none ↦ (false, record c { kv = [] })
    | some s ↦ (true, record c { kv = load_lines [] (lines s) })
  ]

  unfoldable pub save : Config → W → Bool × W
  save c w = replace_file fs c.path (config_text c) w

  -- The settings are replaced before the file is written, and stay so where that fails.
  unfoldable pub replace_raw : Text → Config → W → Bool × Config × W
  replace_raw text c w = elim (read_lines [] (lines text)) [
    | none ↦ (false, c, w)
    | some kv ↦ let next = record c { kv = kv } in let r = save next w in (r.0, next, r.1)
  ]
