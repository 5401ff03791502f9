-- ===== src/Serial/Framing.antt =====
-- src/serial/SerialPort.cpp and src/unex/Unex721Protocol.cpp: a frame that was built is read behind noise.
use monk_skud_unex.Base.{
  ℕ, zero, suc, ◌+◌, ◌*◌, ◌/◌, ◌%◌, ◌≤◌, ◌<◌, [], ◌∷◌, ◌++◌, true, false, Bytes, some, ltb, length,
  length-append, ◌≡◌, refl, arith,
}
use monk_skud_unex.Text.Number.{all_of}
use monk_skud_unex.Text.Csv.Rows.{lacks}
use monk_skud_unex.Protocol.Frame.{frame, extended_frame, trailer}
use monk_skud_unex.Serial.{
  read_exact, seek_start, read_tail, read_frame, match_magic, seek_magic, read_extended_tail,
  read_extended_frame, magic,
}

read_exact-append :
    (p rest : Bytes) (n : ℕ) → n ≡ length p → read_exact n (p ++ rest) ≡ some (p, rest)
unfolding read_exact
read_exact-append [] rest zero h = refl
read_exact-append [] rest (suc n) h = absurd (omega arith)
read_exact-append (b ∷ p) rest zero h = absurd (omega arith)
read_exact-append (b ∷ p) rest (suc n) h = rw (read_exact-append p rest n (omega arith)) refl

seek_start-noise :
    (noise rest : Bytes) (n : ℕ)
    → lacks 0x7e noise ≡ true
    → length noise < n
    → seek_start n (noise ++ 0x7e ∷ rest) ≡ some rest
unfolding seek_start lacks all_of
seek_start-noise noise rest zero h k = absurd (omega arith)
seek_start-noise [] rest (suc n) h k = refl
seek_start-noise (b ∷ noise) rest (suc n) h k = ground (arith, seek_start-noise noise rest n)

read_tail-append :
    (p rest : Bytes)
    → 1 ≤ length p
    → length p ≤ 250
    → read_tail ((length p % 256) ∷ (p ++ rest)) ≡ (0x7e ∷ (length p % 256) ∷ p, rest)
unfolding read_tail
read_tail-append p rest h k =
    ground (arith, read_exact-append p rest (length p % 256) (omega arith))

-- The reader takes a frame out of the bytes whole: behind fewer than 64 bytes of noise without a start
-- byte, the next frame is the one that was built, and what follows it is left. The frame has 246 data bytes
-- at most.
pub read_frame-frame :
    (noise rest bytes : Bytes) (node cmd : ℕ)
    → lacks 0x7e noise ≡ true
    → length noise < 64
    → length bytes ≤ 246
    → read_frame (noise ++ (frame node cmd bytes ++ rest)) ≡ (frame node cmd bytes, rest)
unfolding read_frame frame
read_frame-frame noise rest bytes node cmd h k small =
    let body = node ∷ cmd ∷ bytes in
    let p = body ++ trailer body in
    let len = length-append body (trailer body) in
    rw (seek_start-noise noise ((length p % 256) ∷ (p ++ rest)) 64 h k, read_frame)
      (read_tail-append p rest (omega (arith, len)) (omega (arith, len)))

seek_magic-done : (n : ℕ) (rest : Bytes) → seek_magic n 4 rest ≡ some rest
unfolding seek_magic
seek_magic-done zero rest = refl
seek_magic-done (suc n) [] = refl
seek_magic-done (suc n) (b ∷ rest) = refl

seek_magic-magic : (n : ℕ) (rest : Bytes) → 4 ≤ n → seek_magic n 0 (magic ++ rest) ≡ some rest
unfolding seek_magic match_magic
seek_magic-magic (suc (suc (suc (suc n)))) rest k = seek_magic-done n rest
seek_magic-magic (suc (suc (suc zero))) rest k = absurd (omega arith)
seek_magic-magic (suc (suc zero)) rest k = absurd (omega arith)
seek_magic-magic (suc zero) rest k = absurd (omega arith)
seek_magic-magic zero rest k = absurd (omega arith)

seek_magic-noise :
    (noise rest : Bytes) (n : ℕ)
    → lacks 0xff noise ≡ true
    → length noise + 4 ≤ n
    → seek_magic n 0 (noise ++ (magic ++ rest)) ≡ some rest
unfolding seek_magic match_magic lacks all_of
seek_magic-noise noise rest zero h k = absurd (omega arith)
seek_magic-noise [] rest (suc n) h k = seek_magic-magic (suc n) rest (omega arith)
seek_magic-noise (b ∷ noise) rest (suc n) h k = ground (arith, seek_magic-noise noise rest n)

read_extended_tail-append :
    (p rest : Bytes) (hi lo : ℕ)
    → hi * 256 + lo ≡ length p
    → 4 ≤ length p
    → length p ≤ 1018
    → read_extended_tail (hi ∷ lo ∷ (p ++ rest)) ≡ (magic ++ (hi ∷ lo ∷ p), rest)
unfolding read_extended_tail
read_extended_tail-append p rest hi lo e h k =
    ground (arith, read_exact-append p rest (hi * 256 + lo) e)

-- So for an extended frame with 1014 data bytes at most, behind up to 252 bytes of noise without the first
-- byte of its mark.
pub read_extended_frame-extended_frame :
    (noise rest bytes : Bytes) (node cmd : ℕ)
    → lacks 0xff noise ≡ true
    → length noise ≤ 252
    → length bytes ≤ 1014
    → read_extended_frame (noise ++ (extended_frame node cmd bytes ++ rest))
      ≡ (extended_frame node cmd bytes, rest)
unfolding read_extended_frame extended_frame
read_extended_frame-extended_frame noise rest bytes node cmd h k small =
    let body = node ∷ cmd ∷ bytes in
    let p = body ++ trailer body in
    let n = length bytes + 4 in
    let fits : ltb 1018 n ≡ false = ground arith in
    let len = length-append body (trailer body) in
    rw (fits, extended_frame)
      (rw
        (
          seek_magic-noise noise ((n / 256 % 256) ∷ (n % 256) ∷ (p ++ rest)) 256 h (omega arith),
          read_extended_frame,
        )
        (read_extended_tail-append p rest (n / 256 % 256) (n % 256) (omega (arith, len))
          (omega (arith, len)) (omega (arith, len))))
