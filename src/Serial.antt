-- ===== src/Serial.antt =====
-- src/serial/SerialPort.cpp: the frames that are cut out of the bytes of the terminal. The bytes that
-- arrive before a timeout are a list; a read that meets its end fails, and takes what there was. The port is
-- open; opening it and writing to it are system calls.
pub mod Framing
use monk_skud_unex.Base.{
  ℕ, zero, suc, ◌+◌, ◌*◌, [], ◌∷◌, ◌++◌, Bool, true, false, ◌||◌, Option, none, some, Bytes, ltb,
  ◌==◌, if◌then◌else◌, get_or,
}

-- `readExact`: the bytes and the rest.
unfoldable pub read_exact : ℕ → Bytes → Option (Bytes × Bytes)
read_exact zero s = some ([], s)
read_exact (suc n) [] = none
read_exact (suc n) (b ∷ s) = elim (read_exact n s) [
  | none ↦ none
  | some (got, rest) ↦ some (b ∷ got, rest)
]

-- So many bytes at most are read for the start of a frame.
unfoldable pub seek_start : ℕ → Bytes → Option Bytes
seek_start zero s = none
seek_start (suc n) [] = none
seek_start (suc n) (b ∷ s) = elim (b == 0x7e) [ true ↦ some s | false ↦ seek_start n s ]

-- Behind the start: a length from 1 to 250 and so many bytes. No bytes stand for a failure.
unfoldable pub read_tail : Bytes → Bytes × Bytes
unfolding read_exact
read_tail [] = ([], [])
read_tail (len ∷ s) =
    if len == 0 || ltb 250 len
    then ([], s)
    else elim (read_exact len s) [ none ↦ ([], []) | some (tail, rest) ↦ (0x7e ∷ len ∷ tail, rest) ]

-- Bytes behind a failed search are left.
unfoldable pub after_search : ℕ → Bytes → Bytes
after_search zero s = s
after_search (suc n) [] = []
after_search (suc n) (b ∷ s) = after_search n s

unfoldable pub read_frame : Bytes → Bytes × Bytes
unfolding seek_start read_tail after_search
read_frame s = elim (seek_start 64 s) [
  | none ↦ ([], after_search 64 s)
  | some rest ↦ read_tail rest
]

abbrev pub magic : Bytes
magic = 0xff ∷ 0x00 ∷ 0x5a ∷ 0xa5 ∷ []

-- How many bytes of the magic stand behind one more byte.
unfoldable pub match_magic : ℕ → ℕ → ℕ
match_magic matched b =
    if b == get_or magic matched 0 then suc matched else if b == 0xff then 1 else 0

unfoldable pub seek_magic : ℕ → ℕ → Bytes → Option Bytes
unfolding match_magic
seek_magic zero matched s = if matched == 4 then some s else none
seek_magic (suc n) matched [] = if matched == 4 then some [] else none
seek_magic (suc n) matched (b ∷ s) = elim (matched == 4) [
  | true ↦ some (b ∷ s)
  | false ↦ seek_magic n (match_magic matched b) s
]

unfoldable pub read_extended_tail : Bytes → Bytes × Bytes
unfolding read_exact
read_extended_tail [] = ([], [])
read_extended_tail (hi ∷ []) = ([], [])
read_extended_tail (hi ∷ lo ∷ s) =
    let len = hi * 256 + lo in
    if ltb len 4 || ltb 1018 len then ([], s) else elim (read_exact len s) [
      | none ↦ ([], [])
      | some (tail, rest) ↦ (magic ++ (hi ∷ lo ∷ tail), rest)
    ]

unfoldable pub read_extended_frame : Bytes → Bytes × Bytes
unfolding seek_magic read_extended_tail after_search
read_extended_frame s = elim (seek_magic 256 0 s) [
  | none ↦ ([], after_search 256 s)
  | some rest ↦ read_extended_tail rest
]
