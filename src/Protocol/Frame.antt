-- ===== src/Protocol/Frame.antt =====
-- src/unex/Unex721Protocol.cpp: the two packet formats, their builders and their checks.
pub mod Check
pub mod Corruption
use monk_skud_unex.Base.{
  ℕ, ◌+◌, ◌-◌, ◌*◌, ◌/◌, ◌%◌, ◌^◌, [], ◌∷◌, ◌++◌, Bool, false, ◌||◌, not, Bytes, ltb, ◌==◌,
  if◌then◌else◌, length, get_or, take, drop, bit_xor,
}

-- `for(b : bytes) x ^= b`, and `sum += b` in a 32-bit unsigned.
unfoldable pub xor_from : ℕ → Bytes → ℕ
xor_from x [] = x
xor_from x (b ∷ bs) = xor_from (bit_xor x b) bs

unfoldable pub sum_from : ℕ → Bytes → ℕ
sum_from s [] = s
sum_from s (b ∷ bs) = sum_from ((s + b) % 2 ^ 32) bs

-- The XOR and SUM bytes behind a body.
abbrev pub trailer : Bytes → Bytes
trailer body = let x = xor_from 0xff body in x ∷ ((sum_from 0 body + x) % 2 ^ 32 % 256) ∷ []

-- 7E LEN node command data… XOR SUM; LEN is cut to a byte.
unfoldable pub frame : ℕ → ℕ → Bytes → Bytes
frame node cmd bytes =
    let body = node ∷ cmd ∷ bytes in let p = body ++ trailer body in 0x7e ∷ (length p % 256) ∷ p

-- The bytes from index `i` up to the two trailer bytes, and the test of those two.
abbrev pub payload : ℕ → Bytes → Bytes
payload i f = take (length f - i - 2) (drop i f)

unfoldable pub trailer_ok : ℕ → Bytes → Bool
trailer_ok i f =
    let x = xor_from 0xff (payload i f) in
    let sum = (sum_from 0 (payload i f) + x) % 2 ^ 32 in
    if not (x == get_or f (length f - 2) 0) then false else sum % 256 == get_or f (length f - 1) 0

unfoldable pub valid_frame : Bytes → Bool
unfolding trailer_ok
valid_frame f =
    if ltb (length f) 6 || not (get_or f 0 0 == 0x7e) || not (get_or f 1 0 + 2 == length f)
    then false
    else trailer_ok 2 f

-- FF 00 5A A5 LENH LENL node command data… XOR SUM.
unfoldable pub extended_frame : ℕ → ℕ → Bytes → Bytes
extended_frame node cmd bytes =
    let len = length bytes + 4 in
    let body = node ∷ cmd ∷ bytes in
    if ltb 1018 len
    then []
    else 0xff ∷ 0x00 ∷ 0x5a ∷ 0xa5 ∷ (len / 256 % 256) ∷ (len % 256) ∷ (body ++ trailer body)

unfoldable pub valid_extended_frame : Bytes → Bool
unfolding trailer_ok
valid_extended_frame f =
    let len = get_or f 4 0 * 256 + get_or f 5 0 in
    if ltb (length f) 10
      || not (get_or f 0 0 == 0xff)
      || not (get_or f 1 0 == 0x00)
      || not (get_or f 2 0 == 0x5a)
      || not (get_or f 3 0 == 0xa5)
    then false
    else if ltb len 4 || ltb 1018 len || not (length f == len + 6)
    then false
    else trailer_ok 6 f
