-- ===== src/Base/Bits.antt =====
-- The bit operations of the program on bytes, from tables of all their values.
use Prim.Native.Nat.{ℕ, zero, suc, ◌+◌, ◌*◌, ◌/◌, ◌%◌, ◌<◌, bit_and, bit_xor}
use mathlib.Core.Path.{◌≡◌, refl}
use mathlib.Core.Bool.{Bool, true, false, ◌&&◌}
use native.Mathlib.Omega.{arith}
use monk_skud_unex.Base.Tests.{◌==◌, ==_iff, ltb, if◌then◌else◌}

-- The test passes for every number under the bound.
passes : (ℕ → Bool) → ℕ → Bool
passes test zero = true
passes test (suc bound) = let rest = passes test bound in if test bound then rest else false

passes-at : (test : ℕ → Bool) (bound v : ℕ) → v < bound → passes test bound ≡ true → test v ≡ true
unfolding passes
passes-at test zero v inside h = absurd (omega arith)
passes-at test (suc bound) v inside h = ground (arith, passes-at test bound v)

passes_twice-at :
    (p : ℕ → ℕ → Bool) (x y : ℕ)
    → passes (λ a. passes (p a) 256) 256 ≡ true
    → x < 256
    → y < 256
    → p x y ≡ true
passes_twice-at p x y h hx hy =
    passes-at (p x) 256 y hy (passes-at (λ a. passes (p a) 256) 256 x hx h)

xor_table :
    passes
      (λ a.
        passes
          (λ b.
            ltb (bit_xor a b) 256 && bit_xor (bit_xor a b) b == a && bit_xor (bit_xor a b) a == b)
          256)
      256
    ≡ true
unfolding passes
xor_table = refl

xor_facts :
    (a b : ℕ)
    → a < 256
    → b < 256
    → (bit_xor a b < 256) × (bit_xor (bit_xor a b) b ≡ a) × (bit_xor (bit_xor a b) a ≡ b)
xor_facts a b ha hb = ground (
  arith,
  passes_twice-at
      (λ a b. ltb (bit_xor a b) 256 && bit_xor (bit_xor a b) b == a && bit_xor (bit_xor a b) a == b)
      a b xor_table ha hb,
)

pub bit_xor-lt : (a b : ℕ) → a < 256 → b < 256 → bit_xor a b < 256
bit_xor-lt a b ha hb = (xor_facts a b ha hb).0

-- Equal results of an XOR come from equal arguments, on either side.
pub bit_xor_cancel_right :
    (a b c : ℕ) → a < 256 → b < 256 → c < 256 → bit_xor a c ≡ bit_xor b c → a ≡ b
bit_xor_cancel_right a b c ha hb hc h = ground (arith, xor_facts a c ha hc, xor_facts b c hb hc)

pub bit_xor_cancel_left :
    (a b c : ℕ) → a < 256 → b < 256 → c < 256 → bit_xor c a ≡ bit_xor c b → a ≡ b
bit_xor_cancel_left a b c ha hb hc h = ground (arith, xor_facts c a hc ha, xor_facts c b hc hb)

clear_bit_table : passes (λ v. bit_and v 0xdf + v / 32 % 2 * 32 == v) 256 ≡ true
unfolding passes
clear_bit_table = refl

-- The mask clears the bit of weight 32 and keeps the others.
pub bit_and-clear_bit : (v : ℕ) → v < 256 → bit_and v 0xdf + v / 32 % 2 * 32 ≡ v
bit_and-clear_bit v h =
    (==_iff _ v).0 (passes-at (λ v. bit_and v 0xdf + v / 32 % 2 * 32 == v) 256 v h clear_bit_table)
