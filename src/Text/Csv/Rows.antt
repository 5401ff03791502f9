-- ===== src/Text/Csv/Rows.antt =====
-- What is read back from the rows of a CSV file.
use monk_skud_unex.Base.{
  ℕ, List, [], ◌∷◌, ◌++◌, ◌==◌, Bool, true, not, Text, All, ◌≡◌, refl, ap, ◌∙◌, arith, append_assoc,
  append-nil, map, Bool-cases, inl, inr,
}
use monk_skud_unex.Text.{split, split_loop}
use monk_skud_unex.Text.Number.{all_of}
use monk_skud_unex.Text.Number.Decimal.{all_of-append}
use monk_skud_unex.Text.Csv.{is_separator, safe, joined, terminated, lines_loop, lines, body_rows}

unfoldable pub lacks : ℕ → Text → Bool
unfolding all_of
lacks d s = all_of (λ (c : ℕ). not (c == d)) s

unfoldable pub is_plain : Text → Bool
unfolding all_of is_separator
is_plain s = all_of (λ (c : ℕ). not (is_separator c)) s

abbrev pub Plain : Text → Type 0
Plain s = is_plain s ≡ true

pub is_plain-safe : (s : Text) → is_plain (safe s) ≡ true
unfolding is_plain safe all_of is_separator
is_plain-safe [] = refl
is_plain-safe (c ∷ s) = ground (arith, is_plain-safe s)

pub safe-is_plain : (s : Text) → is_plain s ≡ true → safe s ≡ s
unfolding is_plain safe all_of
safe-is_plain [] h = refl
safe-is_plain (c ∷ s) h = ground (arith, safe-is_plain s)

pub lacks-is_plain : (s : Text) → is_plain s ≡ true → (lacks b';' s ≡ true) × (lacks 10 s ≡ true)
unfolding is_plain lacks all_of is_separator
lacks-is_plain [] h = (refl, refl)
lacks-is_plain (c ∷ s) h = ground (arith, lacks-is_plain s)

split_loop-field :
    (d : ℕ) (f rest cur : Text)
    → lacks d f ≡ true
    → split_loop d (f ++ d ∷ rest) cur ≡ (cur ++ f) ∷ split_loop d rest []
unfolding split_loop lacks all_of
split_loop-field d [] rest cur h = ground (arith, append-nil cur)
split_loop-field d (c ∷ f) rest cur h =
    ground (arith, split_loop-field d f rest (cur ++ c ∷ []), append_assoc cur (c ∷ []) f)

split_loop-last : (d : ℕ) (f cur : Text) → lacks d f ≡ true → split_loop d f cur ≡ (cur ++ f) ∷ []
unfolding split_loop lacks all_of
split_loop-last d [] cur h = ground (arith, append-nil cur)
split_loop-last d (c ∷ f) cur h =
    ground (arith, split_loop-last d f (cur ++ c ∷ []), append_assoc cur (c ∷ []) f)

split_loop-joined :
    (f : Text) (fs : List Text) → All Plain (f ∷ fs) → split_loop b';' (joined (f ∷ fs)) [] ≡ f ∷ fs
unfolding joined
split_loop-joined f [] h = split_loop-last b';' f [] (lacks-is_plain f h.0).0
split_loop-joined f (g ∷ fs) h =
    split_loop-field b';' f (joined (g ∷ fs)) [] (lacks-is_plain f h.0).0
    ∙ ap (λ (r : List Text). f ∷ r) (split_loop-joined g fs h.1)

split-cons : (f s : Text) (d : ℕ) → split (f ++ d ∷ s) d ≡ split_loop d (f ++ d ∷ s) []
unfolding split
split-cons [] s d = refl
split-cons (c ∷ f) s d = refl

-- Two or more fields without separators are read back from their row.
pub split-joined :
    (f g : Text) (fs : List Text)
    → All Plain (f ∷ g ∷ fs)
    → split (joined (f ∷ g ∷ fs)) b';' ≡ f ∷ g ∷ fs
unfolding joined
split-joined f g fs h = split-cons f (joined (g ∷ fs)) b';' ∙ split_loop-joined f (g ∷ fs) h

pub lacks-joined : (fs : List Text) → All Plain fs → lacks 10 (joined fs) ≡ true
unfolding joined lacks all_of
lacks-joined [] h = refl
lacks-joined (f ∷ []) h = (lacks-is_plain f h.0).1
lacks-joined (f ∷ g ∷ fs) h =
    all_of-append (λ (c : ℕ). not (c == 10)) f (b';' ∷ joined (g ∷ fs)) (lacks-is_plain f h.0).1
      (lacks-joined (g ∷ fs) h.1)

pub lines_loop-append :
    (p t cur : Text) → lines_loop (p ++ 10 ∷ t) cur ≡ lines_loop (p ++ 10 ∷ []) cur ++ lines t
unfolding lines_loop lines
lines_loop-append [] t cur = refl
lines_loop-append (c ∷ p) t cur =
    ground (arith, lines_loop-append p t (cur ++ c ∷ []), lines_loop-append p t [])

lines_loop-line :
    (l t cur : Text)
    → lacks 10 l ≡ true
    → lines_loop (l ++ 10 ∷ t) cur ≡ (cur ++ l) ∷ lines_loop t []
unfolding lines_loop lacks all_of
lines_loop-line [] t cur h = ground (arith, append-nil cur)
lines_loop-line (c ∷ l) t cur h =
    ground (arith, lines_loop-line l t (cur ++ c ∷ []), append_assoc cur (c ∷ []) l)

abbrev pub OneLine : Text → Type 0
OneLine s = lacks 10 s ≡ true

pub lines-terminated : (ls : List Text) → All OneLine ls → lines (terminated ls) ≡ ls
unfolding lines terminated lines_loop
lines-terminated [] h = refl
lines-terminated (l ∷ ls) h =
    lines_loop-line l (terminated ls) [] h.0
    ∙ ap (λ (r : List Text). l ∷ r) (lines-terminated ls h.1)

-- A file whose last line is ended, and that is not empty.
abbrev pub Closed : Text → Type 0
Closed s = (p : Text) × (s ≡ p ++ 10 ∷ [])

lines_loop-cons :
    (p cur : Text) → (l : Text) × (ls : List Text) × (lines_loop (p ++ 10 ∷ []) cur ≡ l ∷ ls)
unfolding lines_loop
lines_loop-cons [] cur = (cur, [], refl)
lines_loop-cons (c ∷ p) cur = elim (Bool-cases (c == 10)) [
  | inl h ↦ (cur, lines_loop (p ++ 10 ∷ []) [], ground arith)
  | inr h ↦ let r = lines_loop-cons p (cur ++ c ∷ []) in (r.0, r.1, ground (arith, r.2))
]

map-append : (f : Text → List Text) (xs ys : List Text) → map f (xs ++ ys) ≡ map f xs ++ map f ys
map-append f [] ys = refl
map-append f (x ∷ xs) ys = ap (λ (r : List (List Text)). f x ∷ r) (map-append f xs ys)

-- Lines appended to a closed file are read behind the rows it has.
pub body_rows-append :
    (s t : Text)
    → Closed s
    → body_rows (s ++ t) ≡ body_rows s ++ map (λ (l : Text). split l b';') (lines t)
unfolding body_rows lines
body_rows-append s t (p, e) =
    let r = lines_loop-cons p [] in
    let whole : lines_loop (s ++ t) [] ≡ (r.0 ∷ r.1) ++ lines_loop t [] =
      rw (e, append_assoc p (10 ∷ []) t)
        (lines_loop-append p t [] ∙ ap (λ (x : List Text). x ++ lines_loop t []) r.2) in
    let alone : lines_loop s [] ≡ r.0 ∷ r.1 = rw e r.2 in
    rw (whole, alone) (map-append (λ (l : Text). split l b';') r.1 (lines_loop t []))
