-- ===== src/Controllers/Search/Covered.antt =====
-- src/controllers/ControllerManager.cpp: the blocks of a search against one search of the whole range.
use monk_skud_unex.Base.{
  ℕ, zero, suc, ◌+◌, ◌-◌, ◌≤◌, ◌<◌, min, List, [], ◌∷◌, ◌++◌, true, false, Bytes, ltb, ◌==◌,
  if◌then◌else◌, is_empty, length, take, drop, map, ◌≡◌, refl, sym, ap, ◌∙◌, arith, Bool-cases, inl,
  inr, append-nil,
}
use monk_skud_unex.Types.Jobs.{ControllerEepromSearchMatch}
use monk_skud_unex.Controllers.Search.{PendingEepromSearch, next_block, core_length, read_length}
use monk_skud_unex.Controllers.Search.Matches.{positions, match_of, pattern_matches}
use monk_skud_unex.Controllers.Search.Patterns.{EepromPattern}
use monk_skud_unex.Controllers.Search.Occurrences.{
  occurrences, positions-occurrences, occurrences-take, occurrences-add,
}

-- What a search shows of one pattern in one block: the memory is read from the block's address on.
unfoldable pub block_addresses : ℕ → EepromPattern → Bytes → PendingEepromSearch → List ℕ
unfolding pattern_matches core_length read_length
block_addresses node pattern memory p =
    let read = take (read_length p) (drop p.next_address memory) in
    map (λ (m : ControllerEepromSearchMatch). m.eeprom_address)
      (pattern_matches node p.next_address (core_length p) read pattern)

-- The blocks of a controller from one block on, as `next_block` goes through them.
unfoldable pub sweep : ℕ → (PendingEepromSearch → List ℕ) → PendingEepromSearch → List ℕ
unfolding next_block
sweep zero f p = []
sweep (suc n) f p =
    let next = next_block p in
    f p ++ (if next.controller_index == p.controller_index then sweep n f next else [])

map-match :
    (node start : ℕ) (q : EepromPattern) (d : Bytes) (at : List ℕ)
    → map (λ (m : ControllerEepromSearchMatch). m.eeprom_address) (map (match_of node start q d) at)
      ≡ map (λ (k : ℕ). start + k) at
unfolding match_of
map-match node start q d [] = refl
map-match node start q d (k ∷ at) =
    ap (λ (t : List ℕ). (start + k) ∷ t) (map-match node start q d at)

occurrences-shift :
    (p : Bytes) (n start here base : ℕ) (m : Bytes)
    → base ≡ start + here
    → map (λ (k : ℕ). start + k) (occurrences p n here m) ≡ occurrences p n base m
unfolding occurrences
occurrences-shift p zero start here base m e = refl
occurrences-shift p (suc n) start here base [] e = refl
occurrences-shift p (suc n) start here base (c ∷ m) e =
    let ih = occurrences-shift p n start (suc here) (suc base) m (omega (arith, e)) in
    ground (arith, e, ih)

take-min : (n k : ℕ) (d : Bytes) → k ≡ min n (length d) → take k d ≡ take n d
take-min zero zero d e = refl
take-min zero (suc k) d e = absurd (omega (arith, e))
take-min (suc n) zero [] e = refl
take-min (suc n) (suc k) [] e = refl
take-min (suc n) zero (c ∷ d) e = absurd (omega (arith, e))
take-min (suc n) (suc k) (c ∷ d) e = ap (λ (t : Bytes). c ∷ t) (take-min n k d (omega (arith, e)))

length-drop : (n : ℕ) (d : Bytes) → length (drop n d) ≡ length d - n
length-drop zero d = omega arith
length-drop (suc n) [] = omega arith
length-drop (suc n) (c ∷ d) = length-drop n d ∙ omega arith

drop-drop : (a b n : ℕ) (d : Bytes) → n ≡ a + b → drop b (drop a d) ≡ drop n d
drop-drop zero b n d e = ap (λ (k : ℕ). drop k d) (omega (arith, e))
drop-drop (suc a) zero zero [] e = refl
drop-drop (suc a) (suc b) zero [] e = refl
drop-drop (suc a) zero (suc n) [] e = refl
drop-drop (suc a) (suc b) (suc n) [] e = refl
drop-drop (suc a) b zero (c ∷ d) e = absurd (omega (arith, e))
drop-drop (suc a) b (suc n) (c ∷ d) e = drop-drop a b n d (omega (arith, e))

-- A block of the range, and the patterns that the overlap is made for.
pub record Fits (pattern : EepromPattern) (memory : Bytes) (p : PendingEepromSearch) : Type 0 where
  pub some_bytes : is_empty pattern.bytes ≡ false
  pub in_overlap : length pattern.bytes ≤ 13
  pub whole : length memory ≡ 0x10000
  pub positive : 0 < p.block_size
  pub in_range : p.next_address ≤ p.end_address
  pub in_memory : p.end_address ≤ 0xffff

block-occurrences :
    (node : ℕ) (pattern : EepromPattern) (memory : Bytes) (p : PendingEepromSearch)
    → Fits pattern memory p
    → block_addresses node pattern memory p
      ≡ occurrences pattern.bytes (core_length p) p.next_address (drop p.next_address memory)
unfolding block_addresses pattern_matches core_length read_length
block-occurrences node pattern memory p fits =
    let d = drop p.next_address memory in
    let core = core_length p in
    let left : length d ≡ 0x10000 - p.next_address =
      length-drop p.next_address memory ∙ ap (λ (k : ℕ). k - p.next_address) fits.whole in
    let read = take (read_length p) d in
    let all_read : read ≡ take (core + 12) d =
      take-min (core + 12) (read_length p) d (omega (arith, left)) in
    let at = positions pattern.bytes core 0 read in
    let found : at ≡ occurrences pattern.bytes core 0 d =
      positions-occurrences pattern.bytes core core 0 read (omega arith)
      ∙ ap (λ (t : Bytes). occurrences pattern.bytes core 0 t) all_read
      ∙ occurrences-take pattern.bytes core 12 (core + 12) 0 d fits.in_overlap refl in
    rw fits.some_bytes (
      map-match node p.next_address pattern read at
      ∙ ap (map (λ (k : ℕ). p.next_address + k)) found
      ∙ occurrences-shift pattern.bytes core p.next_address 0 p.next_address d (omega arith))

next_block_in_range :
    (pattern : EepromPattern) (memory : Bytes) (p : PendingEepromSearch)
    → Fits pattern memory p
    → p.next_address + p.block_size ≤ p.end_address
    → Fits pattern memory (record p { next_address = p.next_address + p.block_size })
next_block_in_range pattern memory p fits more = record {
  some_bytes = fits.some_bytes;
  in_overlap = fits.in_overlap;
  whole = fits.whole;
  positive = fits.positive;
  in_range = more;
  in_memory = fits.in_memory;
}

moves_on :
    (p : PendingEepromSearch)
    → ltb p.end_address (p.next_address + p.block_size) ≡ true
    → ((next_block p).controller_index == p.controller_index) ≡ false
unfolding next_block
moves_on p h = rw h (ground arith)

stays :
    (p : PendingEepromSearch)
    → ltb p.end_address (p.next_address + p.block_size) ≡ false
    → next_block p ≡ record p { next_address = p.next_address + p.block_size }
unfolding next_block
stays p h = rw h refl

same_index : (n : ℕ) → (n == n) ≡ true
same_index n = ground arith

core_last :
    (p : PendingEepromSearch)
    → ltb p.end_address (p.next_address + p.block_size) ≡ true
    → core_length p ≡ p.end_address + 1 - p.next_address
unfolding core_length
core_last p h = ground arith

core_more :
    (p : PendingEepromSearch)
    → ltb p.end_address (p.next_address + p.block_size) ≡ false
    → core_length p ≡ p.block_size
unfolding core_length
core_more p h = ground arith

-- The blocks of a controller from one block on show each occurrence of a pattern in the rest of the
-- range once and in order, also where it crosses the end of a block, and nothing else.
pub sweep-occurrences :
    (node : ℕ) (pattern : EepromPattern) (memory : Bytes) (n : ℕ) (p : PendingEepromSearch)
    → Fits pattern memory p
    → p.end_address < p.next_address + n
    → sweep n (block_addresses node pattern memory) p
      ≡ occurrences pattern.bytes
          (p.end_address + 1 - p.next_address)
          p.next_address
          (drop p.next_address memory)
unfolding sweep next_block
sweep-occurrences node pattern memory zero p fits enough =
    absurd (omega (arith, fits.in_range, enough))
sweep-occurrences node pattern memory (suc n) p fits enough =
    let d = drop p.next_address memory in
    let bytes = pattern.bytes in
    let shown = block_addresses node pattern memory p in
    let block = block-occurrences node pattern memory p fits in
    let next = p.next_address + p.block_size in
    elim (Bool-cases (ltb p.end_address next)) [
      | inl last_block ↦ rw (moves_on p last_block) (
          append-nil shown
          ∙ block
          ∙ ap (λ (k : ℕ). occurrences bytes k p.next_address d) (core_last p last_block))
      | inr more ↦
          let left = p.end_address + 1 - next in
          let inside : next ≤ p.end_address = ground arith in
          let ih =
            sweep-occurrences node pattern memory n (record p { next_address = next })
              (next_block_in_range pattern memory p fits inside)
              (omega (arith, enough, fits.positive)) in
          let rest : drop p.block_size d ≡ drop next memory =
            drop-drop p.next_address p.block_size next memory refl in
          let split =
            occurrences-add bytes p.block_size left (p.end_address + 1 - p.next_address)
              p.next_address next d (omega (arith, inside)) refl in
          let first : shown ≡ occurrences bytes p.block_size p.next_address d =
            block ∙ ap (λ (k : ℕ). occurrences bytes k p.next_address d) (core_more p more) in
          rw (stays p more, same_index p.controller_index)
            (ap
                (λ (t : List ℕ).
                  t
                  ++ sweep n (block_addresses node pattern memory)
                      (record p { next_address = next }))
                first
              ∙ ap (λ (t : List ℕ). occurrences bytes p.block_size p.next_address d ++ t) ih
              ∙ ap
                  (λ (t : Bytes).
                    occurrences bytes p.block_size p.next_address d
                    ++ occurrences bytes left next t)
                  (sym rest)
              ∙ sym split)
    ]
