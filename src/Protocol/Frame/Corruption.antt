-- ===== src/Protocol/Frame/Corruption.antt =====
-- src/unex/Unex721Protocol.cpp: a reply with one wrong byte does not pass `validFrame`.
use monk_skud_unex.Base.{
  ℕ, zero, suc, ◌+◌, ◌-◌, ◌%◌, ◌^◌, ◌≤◌, ◌<◌, [], ◌∷◌, ◌++◌, true, false, Bytes, length, get_or,
  set, bit_xor, ◌≡◌, ◌≢◌, refl, ap, sym, ◌∙◌, arith, All, IsByte, inl, inr, Bool-cases,
}
use native.Mathlib.Decide.{dec_lt}
use monk_skud_unex.Base.Bits.{bit_xor-lt, bit_xor_cancel_left, bit_xor_cancel_right}
use monk_skud_unex.Protocol.Frame.{frame, valid_frame, xor_from, sum_from}
use monk_skud_unex.Protocol.Frame.Check.{packet, trailer_ok-packet, length-packet}

-- The XOR of one list tells its start.
xor_from_injective :
    (x y : ℕ) (bs : Bytes)
    → x < 256
    → y < 256
    → All IsByte bs
    → xor_from x bs ≡ xor_from y bs
    → x ≡ y
unfolding xor_from
xor_from_injective x y [] hx hy hs h = h
xor_from_injective x y (b ∷ bs) hx hy (hb, hs) h = bit_xor_cancel_right x y b hx hy hb (
    xor_from_injective (bit_xor x b) (bit_xor y b) bs (bit_xor-lt x b hx hb) (bit_xor-lt y b hy hb)
      hs h)

-- One changed byte changes the XOR.
xor_from-set_ne :
    (x : ℕ) (bs : Bytes) (j v : ℕ)
    → x < 256
    → v < 256
    → All IsByte bs
    → j < length bs
    → get_or bs j 0 ≢ v
    → xor_from x (set bs j v) ≢ xor_from x bs
unfolding xor_from
xor_from-set_ne x [] j v hx hv hs hj ne = absurd (omega arith)
xor_from-set_ne x (b ∷ bs) zero v hx hv (hb, hs) hj ne = λ e. ne (
    bit_xor_cancel_left b v x hb hv hx (
      sym (
        xor_from_injective (bit_xor x v) (bit_xor x b) bs (bit_xor-lt x v hx hv)
          (bit_xor-lt x b hx hb) hs e)))
xor_from-set_ne x (b ∷ bs) (suc j) v hx hv (hb, hs) hj ne =
    xor_from-set_ne (bit_xor x b) bs j v (bit_xor-lt x b hx hb) hv hs (omega arith) ne

length-set : (xs : Bytes) (i v : ℕ) → length (set xs i v) ≡ length xs
length-set [] i v = refl
length-set (x ∷ xs) zero v = refl
length-set (x ∷ xs) (suc i) v = ap suc (length-set xs i v)

set-append_left : (xs ys : Bytes) (i v : ℕ) → i < length xs → set (xs ++ ys) i v ≡ set xs i v ++ ys
set-append_left [] ys i v h = absurd (omega arith)
set-append_left (x ∷ xs) ys zero v h = refl
set-append_left (x ∷ xs) ys (suc i) v h = ap (λ t. x ∷ t) (set-append_left xs ys i v (omega arith))

set-append_right :
    (xs ys : Bytes) (k i v : ℕ) → k ≡ length xs + i → set (xs ++ ys) k v ≡ xs ++ set ys i v
set-append_right [] ys k i v h = let e : k ≡ i = omega arith in ap (λ (j : ℕ). set ys j v) e
set-append_right (x ∷ xs) ys zero i v h = absurd (omega arith)
set-append_right (x ∷ xs) ys (suc k) i v h =
    ap (λ t. x ∷ t) (set-append_right xs ys k i v (omega arith))

get_or-append_left : (xs ys : Bytes) (i : ℕ) → i < length xs → get_or (xs ++ ys) i 0 ≡ get_or xs i 0
get_or-append_left [] ys i h = absurd (omega arith)
get_or-append_left (x ∷ xs) ys zero h = refl
get_or-append_left (x ∷ xs) ys (suc i) h = get_or-append_left xs ys i (omega arith)

get_or-append_right :
    (xs ys : Bytes) (k i : ℕ) → k ≡ length xs + i → get_or (xs ++ ys) k 0 ≡ get_or ys i 0
get_or-append_right [] ys k i h = let e : k ≡ i = omega arith in ap (λ (j : ℕ). get_or ys j 0) e
get_or-append_right (x ∷ xs) ys zero i h = absurd (omega arith)
get_or-append_right (x ∷ xs) ys (suc k) i h = get_or-append_right xs ys k i (omega arith)

-- A packet behind its two header bytes, with a length that need not be right.
valid-packet :
    (a len : ℕ) (body : Bytes) (x s : ℕ)
    → valid_frame (packet (a ∷ len ∷ []) body x s) ≡ true
    → (a ≡ 0x7e)
      × (len ≡ length body + 2)
      × (x ≡ xor_from 0xff body)
      × (s ≡ (sum_from 0 body + xor_from 0xff body) % 2 ^ 32 % 256)
unfolding valid_frame
valid-packet a len body x s h =
    ground (arith, trailer_ok-packet (a ∷ len ∷ []) body x s, length-packet (a ∷ len ∷ []) body x s)

module _ (node cmd : ℕ) (bytes : Bytes) (v : ℕ) (hn : node < 256) (hc : cmd < 256)
    (hb : All IsByte bytes) (fits : length bytes ≤ 251) (hv : v < 256) where
  abbrev body : Bytes
  body = node ∷ cmd ∷ bytes

  abbrev check_xor : ℕ
  check_xor = xor_from 0xff body

  abbrev check_sum : ℕ
  check_sum = (sum_from 0 body + check_xor) % 2 ^ 32 % 256

  abbrev size_byte : ℕ
  size_byte = length (body ++ check_xor ∷ check_sum ∷ []) % 256

  size_byte_lem : size_byte ≡ length body + 2
  size_byte_lem = omega (arith, length-packet [] body check_xor check_sum)

  changed_body :
      (j : ℕ)
      → j < length body
      → get_or body j 0 ≢ v
      → ¬ (valid_frame (packet (0x7e ∷ size_byte ∷ []) (set body j v) check_xor check_sum) ≡ true)
  changed_body j hj ne h =
      xor_from-set_ne 0xff body j v (omega arith) hv (hn, (hc, hb)) hj ne
        (sym (valid-packet 0x7e size_byte (set body j v) check_xor check_sum h).2)

  changed_trailer :
      (k : ℕ)
      → k < 2
      → get_or (check_xor ∷ check_sum ∷ []) k 0 ≢ v
      → ¬ (
          valid_frame ((0x7e ∷ size_byte ∷ []) ++ (body ++ set (check_xor ∷ check_sum ∷ []) k v))
          ≡ true)
  changed_trailer zero hk ne h = ne (sym (valid-packet 0x7e size_byte body v check_sum h).2)
  changed_trailer (suc zero) hk ne h = ne (sym (valid-packet 0x7e size_byte body check_xor v h).3)
  changed_trailer (suc (suc k)) hk ne h = absurd (omega arith)

  -- The cases of the changed place behind the header: in the body, or in the trailer.
  changed_tail :
      (j : ℕ)
      → j < length body + 2
      → get_or (body ++ check_xor ∷ check_sum ∷ []) j 0 ≢ v
      → ¬ (
          valid_frame ((0x7e ∷ size_byte ∷ []) ++ set (body ++ check_xor ∷ check_sum ∷ []) j v)
          ≡ true)
  changed_tail j hj ne h = elim (dec_lt j (length body)) [
    | yes inside ↦
        changed_body j inside
          (λ e. ne (get_or-append_left body (check_xor ∷ check_sum ∷ []) j inside ∙ e))
          (rw (set-append_left body (check_xor ∷ check_sum ∷ []) j v inside) at h)
    | no outside ↦
        let k : ℕ = j - length body in
        let split : j ≡ length body + k = omega arith in
        changed_trailer k (omega arith)
          (λ e. ne (get_or-append_right body (check_xor ∷ check_sum ∷ []) j k split ∙ e))
          (rw (set-append_right body (check_xor ∷ check_sum ∷ []) j k v split) at h)
  ]

  still_valid :
      (i : ℕ)
      → i < length (frame node cmd bytes)
      → get_or (frame node cmd bytes) i 0 ≢ v
      → ¬ (valid_frame (set (frame node cmd bytes) i v) ≡ true)
  unfolding frame
  still_valid zero hi ne h = ne (sym (valid-packet v size_byte body check_xor check_sum h).0)
  still_valid (suc zero) hi ne h =
      ne (size_byte_lem ∙ sym (valid-packet 0x7e v body check_xor check_sum h).1)
  still_valid (suc (suc j)) hi ne h =
      changed_tail j (omega (arith, length-packet [] body check_xor check_sum)) ne h

  -- A frame in which one byte, wherever it stands, was replaced by another byte is refused.
  pub valid_frame-set :
      (i : ℕ)
      → i < length (frame node cmd bytes)
      → get_or (frame node cmd bytes) i 0 ≢ v
      → valid_frame (set (frame node cmd bytes) i v) ≡ false
  valid_frame-set i hi ne = elim (Bool-cases (valid_frame (set (frame node cmd bytes) i v))) [
    | inl accepted ↦ absurd (still_valid i hi ne accepted)
    | inr refused ↦ refused
  ]
