-- ===== src/Protocol/Frame/Check.antt =====
-- src/unex/Unex721Protocol.cpp: what the packet checks accept.
use monk_skud_unex.Base.{
  ℕ, zero, suc, ◌+◌, ◌-◌, ◌/◌, ◌%◌, ◌^◌, ◌<◌, [], ◌∷◌, ◌++◌, false, Bytes, leb, ◌==◌, if◌then◌else◌,
  length, get_or, take, drop, bit_xor, ◌≡◌, refl, ap, ◌∙◌, arith, All, IsByte, length-append,
}
use monk_skud_unex.Base.Bits.{bit_xor-lt}
use monk_skud_unex.Protocol.Frame.{
  frame, valid_frame, extended_frame, valid_extended_frame, trailer_ok, xor_from, sum_from, payload,
  trailer,
}

pub xor_from-lt : (x : ℕ) (bs : Bytes) → x < 256 → All IsByte bs → xor_from x bs < 256
unfolding xor_from
xor_from-lt x [] h hs = h
xor_from-lt x (b ∷ bs) h (hb, hs) = xor_from-lt (bit_xor x b) bs (bit_xor-lt x b h hb) hs

take-append : (xs ys : Bytes) → take (length xs) (xs ++ ys) ≡ xs
take-append [] ys = refl
take-append (x ∷ xs) ys = ap (λ t. x ∷ t) (take-append xs ys)

drop-append : (xs ys : Bytes) → drop (length xs) (xs ++ ys) ≡ ys
drop-append [] ys = refl
drop-append (x ∷ xs) ys = drop-append xs ys

get_or-append :
    (xs ys : Bytes) (k i : ℕ) → k ≡ length xs + i → get_or (xs ++ ys) k 0 ≡ get_or ys i 0
get_or-append [] ys k i h = let e : k ≡ i = omega arith in ap (λ (j : ℕ). get_or ys j 0) e
get_or-append (x ∷ xs) ys zero i h = absurd (omega arith)
get_or-append (x ∷ xs) ys (suc k) i h = get_or-append xs ys k i (omega arith)

-- A whole packet: what stands in front of the body, the body, and two trailer bytes.
abbrev pub packet : Bytes → Bytes → ℕ → ℕ → Bytes
packet header body x s = header ++ (body ++ x ∷ s ∷ [])

pub length-packet :
    (header body : Bytes) (x s : ℕ)
    → length (packet header body x s) ≡ length header + length body + 2
length-packet header body x s =
    omega (arith, length-append header (body ++ x ∷ s ∷ []), length-append body (x ∷ s ∷ []))

payload-packet :
    (header body : Bytes) (x s : ℕ) → payload (length header) (packet header body x s) ≡ body
payload-packet header body x s = rw (drop-append header (body ++ x ∷ s ∷ [])) (
    ap (λ (k : ℕ). take k (body ++ x ∷ s ∷ [])) (omega (arith, length-packet header body x s))
    ∙ take-append body (x ∷ s ∷ []))

from_end :
    (header body : Bytes) (x s k i : ℕ)
    → k ≡ length header + length body + i
    → get_or (packet header body x s) k 0 ≡ get_or (x ∷ s ∷ []) i 0
from_end header body x s k i h =
    get_or-append header (body ++ x ∷ s ∷ []) k (length body + i) (omega arith)
    ∙ get_or-append body (x ∷ s ∷ []) (length body + i) i refl

-- The two trailer bytes are accepted exactly when they are the XOR and the SUM of the body.
pub trailer_ok-packet :
    (header body : Bytes) (x s : ℕ)
    → trailer_ok (length header) (packet header body x s) ≡ (
        if x == xor_from 0xff body
        then (sum_from 0 body + xor_from 0xff body) % 2 ^ 32 % 256 == s
        else false)
unfolding trailer_ok
trailer_ok-packet header body x s =
    rw
      (
        payload-packet header body x s,
        from_end header body x s (length (packet header body x s) - 2) 0
            (omega (arith, length-packet header body x s)),
        from_end header body x s (length (packet header body x s) - 1) 1
            (omega (arith, length-packet header body x s)),
      )
      (ground arith)

-- A frame is accepted exactly when its length fits the length byte.
pub valid_frame-frame :
    (node cmd : ℕ) (bytes : Bytes) → valid_frame (frame node cmd bytes) ≡ leb (length bytes) 251
unfolding valid_frame frame
valid_frame-frame node cmd bytes =
    let body : Bytes = node ∷ cmd ∷ bytes in
    let x : ℕ = xor_from 0xff body in
    let s : ℕ = (sum_from 0 body + x) % 2 ^ 32 % 256 in
    let size : ℕ = length (body ++ trailer body) in
    ground (
      arith,
      trailer_ok-packet (0x7e ∷ (size % 256) ∷ []) body x s,
      length-append body (trailer body),
    )

-- An extended frame is accepted exactly when it was built at all.
pub valid_extended_frame-extended_frame :
    (node cmd : ℕ) (bytes : Bytes)
    → valid_extended_frame (extended_frame node cmd bytes) ≡ leb (length bytes) 1014
unfolding valid_extended_frame extended_frame
valid_extended_frame-extended_frame node cmd bytes =
    let body : Bytes = node ∷ cmd ∷ bytes in
    let x : ℕ = xor_from 0xff body in
    let s : ℕ = (sum_from 0 body + x) % 2 ^ 32 % 256 in
    let len : ℕ = length bytes + 4 in
    ground (
      arith,
      trailer_ok-packet (0xff ∷ 0x00 ∷ 0x5a ∷ 0xa5 ∷ (len / 256 % 256) ∷ (len % 256) ∷ []) body x s,
      length-append body (trailer body),
    )
