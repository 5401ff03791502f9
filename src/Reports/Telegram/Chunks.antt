-- ===== src/Reports/Telegram/Chunks.antt =====
-- src/reports/ReportManager.cpp: the rows of a day are cut into messages that Telegram accepts.
use monk_skud_unex.Base.{
  ◌+◌, ◌≤◌, ◌<◌, List, [], ◌∷◌, ◌++◌, false, ◌&&◌, Text, All, ltb, length, length-append, is_empty,
  map, ◌≡◌, refl, sym, ap, ◌∙◌, ◌⊎◌, inl, inr, arith, append_assoc, append-nil, Bool-cases,
}
use monk_skud_unex.Reports.Telegram.{chunk_rows, chunk_limit, closing}

abbrev pub concat : List Text → Text
concat [] = []
concat (r ∷ rs) = r ++ concat rs

abbrev pub flatten : List (List Text) → List Text
flatten [] = []
flatten (g ∷ gs) = g ++ flatten gs

-- A message with these rows.
abbrev pub block : Text → List Text → Text
block start g = (start ++ concat g) ++ closing

-- There is a row, and the message is within the limit unless its only row is too long for that.
abbrev pub Fits : Text → List Text → Type 0
Fits start g = (is_empty g ≡ false) × ((length (block start g) ≤ chunk_limit) ⊎ (length g ≡ 1))

abbrev pub HasText : Text → Type 0
HasText s = is_empty s ≡ false

concat-snoc : (g : List Text) (r : Text) → concat (g ++ r ∷ []) ≡ concat g ++ r
concat-snoc [] r = append-nil r
concat-snoc (x ∷ g) r =
    ap (λ (t : Text). x ++ t) (concat-snoc g r) ∙ sym (append_assoc x (concat g) r)

-- The groups of rows of the messages.
abbrev pub Grouped : Text → List Text → List Text → Type 0
Grouped start messages rows =
    (gs : List (List Text)) × (messages ≡ map (block start) gs)
    × (flatten gs ≡ rows)
    × All (Fits start) gs

concat-HasText : (g : List Text) → is_empty g ≡ false → All HasText g → 0 < length (concat g)
concat-HasText [] h k = absurd (ground arith)
concat-HasText ([] ∷ g) h k = absurd (ground (arith, k.0))
concat-HasText ((c ∷ s) ∷ g) h k = omega arith

All-snoc : (g : List Text) (r : Text) → All HasText g → HasText r → All HasText (g ++ r ∷ [])
All-snoc [] r h k = (k, record {})
All-snoc (x ∷ g) r h k = (h.0, All-snoc g r h.1 k)

is_empty-snoc : (g : List Text) (r : Text) → is_empty (g ++ r ∷ []) ≡ false
is_empty-snoc [] r = refl
is_empty-snoc (x ∷ g) r = refl

-- A row is added to a message only where it leaves room.
Fits-snoc :
    (start : Text) (g : List Text) (row : Text)
    → is_empty g ≡ false
    → All HasText g
    → (ltb chunk_limit (length (start ++ concat g) + length row + 7)
        && ltb (length start) (length (start ++ concat g)))
      ≡ false
    → Fits start (g ++ row ∷ [])
Fits-snoc start g row ne h room =
    let long = concat-HasText g ne h in
    (
      is_empty-snoc g row,
      inl (
          rw (concat-snoc g row) (
            ground (
              arith,
              long,
              room,
              length-append start (concat g),
              length-append start (concat g ++ row),
              length-append (concat g) row,
              length-append (start ++ (concat g ++ row)) closing,
            ))),
    )

chunk_rows-groups :
    (start : Text) (g rows : List Text)
    → Fits start g
    → All HasText g
    → All HasText rows
    → Grouped start (chunk_rows start (start ++ concat g) rows) (g ++ rows)
unfolding chunk_rows
chunk_rows-groups start g [] fits hg h = (g ∷ [], refl, refl, (fits, record {}))
chunk_rows-groups start g (row ∷ rows) fits hg h =
    elim (Bool-cases (
      ltb chunk_limit (length (start ++ concat g) + length row + 7)
      && ltb (length start) (length (start ++ concat g)))) [
        | inl full ↦
            let rest =
              chunk_rows-groups start (row ∷ []) rows (refl, inr refl) (h.0, record {}) h.1 in
            (
              g ∷ rest.0,
              rw (full, chunk_rows)
                  (ap (λ (ms : List Text). block start g ∷ ms) (rw (append-nil row) at rest.1)),
              ap (λ (rs : List Text). g ++ rs) rest.2,
              (fits, rest.3),
            )
        | inr room ↦
            let more = g ++ row ∷ [] in
            let rest =
              chunk_rows-groups start more rows (Fits-snoc start g row fits.0 hg room)
                (All-snoc g row hg h.0) h.1 in
            (
              rest.0,
              rw (room, chunk_rows)
                  (rw (append_assoc start (concat g) row) (rw (concat-snoc g row) at rest.1)),
              rest.2 ∙ append_assoc g (row ∷ []) rows,
              rest.3,
            )
      ]

-- The messages of a day with rows are groups of its rows in their order, each row once, each message with
-- one row at least, and within 3300 bytes unless its only row is too long for that.
pub chunk_rows-Grouped :
    (start row : Text) (rows : List Text)
    → All HasText (row ∷ rows)
    → Grouped start (chunk_rows start start (row ∷ rows)) (row ∷ rows)
unfolding chunk_rows
chunk_rows-Grouped start row rows h =
    let rest = chunk_rows-groups start (row ∷ []) rows (refl, inr refl) (h.0, record {}) h.1 in
    let none_yet : (ltb chunk_limit (length start + length row + 7)
          && ltb (length start) (length start))
        ≡ false =
      ground arith in
    (rest.0, rw (none_yet, chunk_rows) (rw (append-nil row) at rest.1), rest.2, rest.3)
