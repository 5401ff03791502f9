-- ===== src/Text.antt =====
-- src/utils/Util.cpp: the text helpers. A `std::string` is the list of its bytes.
pub mod Number
pub mod Escape
pub mod Card
pub mod Int
pub mod Csv
use monk_skud_unex.Base.{
  ℕ, suc, ◌+◌, List, [], ◌∷◌, ◌++◌, Bool, ◌&&◌, ◌||◌, Option, none, some, Text, ltb, leb, ◌==◌,
  if◌then◌else◌, reverse, true, false,
}

-- `std::isspace` in the C locale.
unfoldable pub is_space : ℕ → Bool
is_space c = c == 32 || (leb 9 c && leb c 13)

unfoldable pub drop_spaces : Text → Text
drop_spaces [] = []
drop_spaces (c ∷ s) = let rest = drop_spaces s in if is_space c then rest else c ∷ s

-- Both erasures of `trim`: the leading spaces, then the trailing ones.
unfoldable pub trim : Text → Text
unfolding drop_spaces is_space
trim s = reverse (drop_spaces (reverse (drop_spaces s)))

-- `getline` up to each delimiter; a delimiter at the very end opens one more, empty, part.
unfoldable pub split_loop : ℕ → Text → Text → List Text
split_loop d [] cur = cur ∷ []
split_loop d (c ∷ s) cur = elim (c == d) [
  | true ↦ cur ∷ split_loop d s []
  | false ↦ split_loop d s (cur ++ c ∷ [])
]

unfoldable pub split : Text → ℕ → List Text
unfolding split_loop
split [] d = []
split (c ∷ s) d = split_loop d (c ∷ s) []

-- The text before and after the first byte that passes: `find` or `find_first_of`, and two `substr`.
unfoldable pub cut : (ℕ → Bool) → Text → Option (Text × Text)
cut p [] = none
cut p (c ∷ s) =
    let rest = cut p s in
    if p c then some ([], s) else elim rest [ none ↦ none | some (a, b) ↦ some (c ∷ a, b) ]
