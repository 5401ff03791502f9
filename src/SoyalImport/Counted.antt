-- ===== src/SoyalImport/Counted.antt =====
-- src/import/SoyalImport.cpp: every slot of an import is counted once.
use monk_skud_unex.Base.{
  ℕ, zero, suc, ◌+◌, ◌*◌, ◌/◌, ◌%◌, ◌≤◌, List, [], ◌∷◌, ◌++◌, Bool, true, false, Text, Bytes,
  Option, none, some, if◌then◌else◌, length, length-append, take, drop, ◌≡◌, refl, sym, ◌∙◌, arith,
  Option-cases, inl, inr,
}
use monk_skud_unex.Text.{trim}
use monk_skud_unex.Text.Csv.{lines}
use monk_skud_unex.SoyalImport.{
  SoyalImportRecord, SoyalSlots, imported, record_size, named, split_name, words_loop, slot_record,
  is_blank_slot, parse_slot, add_slot, parse_slots, parse_usr, parse_export_line,
  parse_export_lines, parse_export, parse_user_card_text, chomp,
}

-- The addresses rise, from `low` on and below `high`.
abbrev pub Ascends : ℕ → ℕ → List SoyalImportRecord → Type 0
Ascends low high [] = low ≤ high
Ascends low high (r ∷ rs) = (low ≤ r.address) × Ascends (suc r.address) high rs

Ascends-wider :
    (low i : ℕ) (rs : List SoyalImportRecord) → Ascends low i rs → Ascends low (i + 1) rs
Ascends-wider low i [] h = omega arith
Ascends-wider low i (r ∷ rs) h = (h.0, Ascends-wider (suc r.address) i rs h.1)

Ascends-snoc :
    (low i : ℕ) (rs : List SoyalImportRecord) (r : SoyalImportRecord)
    → r.address ≡ i
    → Ascends low i rs
    → Ascends low (i + 1) (rs ++ r ∷ [])
Ascends-snoc low i [] r e h = (omega (arith, e), omega (arith, e))
Ascends-snoc low i (x ∷ rs) r e h = (h.0, Ascends-snoc (suc x.address) i rs r e h.1)

named-address : (ws : List Text) (r : SoyalImportRecord) → (named ws r).address ≡ r.address
unfolding named
named-address [] r = refl
named-address (a ∷ []) r = refl
named-address (a ∷ b ∷ ws) r = refl

split_name-address : (r : SoyalImportRecord) → (split_name r).address ≡ r.address
unfolding split_name
split_name-address r =
    let name = trim r.full_name in
    named-address (words_loop name []) (record r { full_name = name })

slot_record-address : (i : ℕ) (b : Bytes) → (slot_record i b).address ≡ i
unfolding slot_record
slot_record-address i b = refl

kept_address :
    (blank : Bool) (i : ℕ) (x r : SoyalImportRecord)
    → x.address ≡ i
    → ◌≡◌ {A = Option SoyalImportRecord} (if blank then none else some x) (some r)
    → r.address ≡ i
kept_address true i x r e h = absurd (ground arith)
kept_address false i x r e h = ground (arith, e)

parse_slot-address :
    (i : ℕ) (b : Bytes) (r : SoyalImportRecord) → parse_slot i b ≡ some r → r.address ≡ i
unfolding parse_slot
parse_slot-address i b r h =
    kept_address (is_blank_slot b) i (split_name (slot_record i b)) r
      (split_name-address (slot_record i b) ∙ slot_record-address i b) h

-- Slots up to address `i`: each is empty or a record, and the records stand by their addresses.
abbrev Counted : ℕ → SoyalSlots → Type 0
Counted i s = (s.empty_slots + length s.records ≡ i) × Ascends 0 i s.records

add_slot-Counted :
    (i : ℕ) (b : Bytes) (s : SoyalSlots)
    → Counted i s
    → Counted (i + 1) (add_slot (parse_slot i b) s)
unfolding add_slot
add_slot-Counted i b s h = elim (Option-cases (parse_slot i b)) [
  | inl e ↦ rw (e, add_slot) (omega (arith, h), Ascends-wider 0 i s.records h.1)
  | inr (r, e) ↦
      rw (e, add_slot)
        (
          omega (arith, h, length-append s.records (r ∷ [])),
          Ascends-snoc 0 i s.records r (parse_slot-address i b r e) h.1,
        )
]

add_slot-total :
    (r : Option SoyalImportRecord) (s : SoyalSlots) → (add_slot r s).total_slots ≡ s.total_slots
unfolding add_slot
add_slot-total none s = refl
add_slot-total (some r) s = refl

add_slot-count :
    (r : Option SoyalImportRecord) (s : SoyalSlots)
    → (add_slot r s).empty_slots + length (add_slot r s).records
      ≡ s.empty_slots + length s.records + 1
unfolding add_slot
add_slot-count none s = omega arith
add_slot-count (some r) s = omega (arith, length-append s.records (r ∷ []))

parse_slots-Counted :
    (count i total : ℕ) (b : Bytes) (s : SoyalSlots)
    → i + count ≡ total
    → Counted i s
    → Counted total (parse_slots count i b s)
      × ((parse_slots count i b s).total_slots ≡ s.total_slots)
unfolding parse_slots
parse_slots-Counted zero i total b s e h =
    let same : i ≡ total = omega (arith, e) in (rw (sym same) h, refl)
parse_slots-Counted (suc count) i total b s e h =
    let slot = parse_slot i (take record_size b) in
    let ih =
      parse_slots-Counted count (i + 1) total (drop record_size b) (add_slot slot s)
        (omega (arith, e)) (add_slot-Counted i (take record_size b) s h) in
    (ih.0, ih.1 ∙ add_slot-total slot s)

abbrev fresh_slots : ℕ → SoyalSlots
fresh_slots n = record { total_slots = n; empty_slots = 0; records = [] }

parse_usr-imported :
    (b : Bytes) (s : SoyalSlots)
    → parse_usr b ≡ imported s
    → (length b % 328 ≡ 0) × (s ≡ parse_slots (length b / 328) 0 b (fresh_slots (length b / 328)))
unfolding parse_usr
parse_usr-imported b s h = ground arith

-- A `.usr` file that is imported holds whole records of 328 bytes, each of which is counted once, as empty or
-- as a user; no two users have one address, they stand in the order of their addresses, and these are
-- below the number of records.
pub parse_usr-Ascends :
    (b : Bytes) (s : SoyalSlots)
    → parse_usr b ≡ imported s
    → (s.total_slots * 328 ≡ length b)
      × (s.empty_slots + length s.records ≡ s.total_slots)
      × Ascends 0 s.total_slots s.records
parse_usr-Ascends b s h =
    let n = length b / 328 in
    let (whole, e) = parse_usr-imported b s h in
    let c = parse_slots-Counted n 0 n b (fresh_slots n) (omega arith) (omega arith, omega arith) in
    rw e (omega (arith, whole, c.1), omega (arith, c), rw c.1 c.0.1)

parse_export_lines-total :
    (ls : List Text) (s : SoyalSlots)
    → let r = parse_export_lines ls s in
      (r.empty_slots + length r.records ≡ s.empty_slots + length s.records + length ls)
      × (r.total_slots ≡ s.total_slots)
unfolding parse_export_lines
parse_export_lines-total [] s = (omega arith, refl)
parse_export_lines-total (l ∷ ls) s =
    let slot = parse_export_line (chomp l) in
    let ih = parse_export_lines-total ls (add_slot slot s) in
    (omega (arith, ih.0, add_slot-count slot s), ih.1 ∙ add_slot-total slot s)

parse_export-total :
    (ls : List Text) (s : SoyalSlots)
    → parse_export ls ≡ imported s
    → s.empty_slots + length s.records ≡ s.total_slots
unfolding parse_export
parse_export-total [] s h = absurd (ground arith)
parse_export-total (header ∷ ls) s h =
    let t = parse_export_lines-total ls (fresh_slots (length ls)) in ground (arith, t.0, t.1)

-- In a text export that is imported, each line behind the header is counted once, as empty or as a user.
pub parse_user_card_text-total :
    (t : Text) (s : SoyalSlots)
    → parse_user_card_text t ≡ imported s
    → s.empty_slots + length s.records ≡ s.total_slots
unfolding parse_user_card_text
parse_user_card_text-total t s h = ground (arith, parse_export-total (lines t) s)
