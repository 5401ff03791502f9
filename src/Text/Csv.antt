-- ===== src/Text/Csv.antt =====
-- The CSV files of src/storage/FileStore.cpp and src/users/UserManager.cpp: `safe` and `clean`, rows joined
-- by `;`, and the loop of `std::getline` over a file.
pub mod Rows
use monk_skud_unex.Base.{
  ℕ, List, [], ◌∷◌, ◌++◌, ◌==◌, Bool, true, false, ◌||◌, not, Text, if◌then◌else◌, is_empty, map,
  drop,
}
use monk_skud_unex.Text.{split}

-- What would end a field or a row.
unfoldable pub is_separator : ℕ → Bool
is_separator c = c == b';' || c == 10 || c == 13

unfoldable pub safe : Text → Text
unfolding is_separator
safe [] = []
safe (c ∷ s) = let rest = safe s in (if is_separator c then 32 else c) ∷ rest

-- The fields with a `;` between two of them.
unfoldable pub joined : List Text → Text
joined [] = []
joined (f ∷ []) = f
joined (f ∷ g ∷ fs) = f ++ b';' ∷ joined (g ∷ fs)

-- The rows, each with its end of line.
unfoldable pub terminated : List Text → Text
terminated [] = []
terminated (l ∷ ls) = l ++ 10 ∷ terminated ls

unfoldable pub lines_loop : Text → Text → List Text
lines_loop [] cur = if is_empty cur then [] else cur ∷ []
lines_loop (c ∷ s) cur = elim (c == 10) [
  | true ↦ cur ∷ lines_loop s []
  | false ↦ lines_loop s (cur ++ c ∷ [])
]

-- `while (std::getline(f, line))`: what stands behind the last end of line is a line unless it is empty.
unfoldable pub lines : Text → List Text
lines s = lines_loop s []

-- The fields of every line but the first, which is the header.
unfoldable pub body_rows : Text → List (List Text)
body_rows content = map (λ (l : Text). split l b';') (drop 1 (lines content))
