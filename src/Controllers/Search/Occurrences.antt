-- ===== src/Controllers/Search/Occurrences.antt =====
-- src/controllers/ControllerManager.cpp: the positions that the search of a block finds, as occurrences of a
-- pattern in the bytes.
use monk_skud_unex.Base.{
  ℕ, zero, suc, ◌+◌, ◌≤◌, ◌<◌, List, [], ◌∷◌, ◌++◌, false, Bytes, if◌then◌else◌, length, take, drop,
  ◌≡◌, refl, sym, ap, ◌∙◌, arith, Bool-cases, inl, inr,
}
use monk_skud_unex.Controllers.Search.Matches.{is_prefix, positions}

-- The addresses from `base` on at which the pattern stands among the first `n`.
unfoldable pub occurrences : Bytes → ℕ → ℕ → Bytes → List ℕ
occurrences pattern zero base m = []
occurrences pattern (suc n) base [] = []
occurrences pattern (suc n) base (c ∷ m) =
    let more = occurrences pattern n (suc base) m in
    if is_prefix pattern (c ∷ m) then base ∷ more else more

pub is_prefix-short : (p m : Bytes) → length m < length p → is_prefix p m ≡ false
unfolding is_prefix
is_prefix-short [] m h = absurd (ground arith)
is_prefix-short (b ∷ p) [] h = refl
is_prefix-short (b ∷ p) (c ∷ m) h = ground (arith, is_prefix-short p m)

pub occurrences-short :
    (p : Bytes) (n base : ℕ) (m : Bytes) → length m < length p → occurrences p n base m ≡ []
unfolding occurrences
occurrences-short p zero base m h = refl
occurrences-short p (suc n) base [] h = refl
occurrences-short p (suc n) base (c ∷ m) h =
    ground (arith, is_prefix-short p (c ∷ m) h, occurrences-short p n (suc base) m)

-- The loop with its two early ends finds what stands there.
pub positions-occurrences :
    (p : Bytes) (core n here : ℕ) (m : Bytes)
    → core ≡ here + n
    → positions p core here m ≡ occurrences p n here m
unfolding positions occurrences
positions-occurrences p core zero here [] e = refl
positions-occurrences p core (suc n) here [] e = refl
positions-occurrences p core zero here (c ∷ m) e = ground (arith, e)
positions-occurrences p core (suc n) here (c ∷ m) e =
    let ih = positions-occurrences p core n (suc here) m (omega (arith, e)) in
    let short = occurrences-short p (suc n) here (c ∷ m) in ground (arith, e, ih, short)

pub is_prefix-take : (p m : Bytes) (n : ℕ) → length p ≤ n → is_prefix p (take n m) ≡ is_prefix p m
unfolding is_prefix
is_prefix-take [] m n h = refl
is_prefix-take (b ∷ p) m zero h = absurd (ground arith)
is_prefix-take (b ∷ p) [] (suc n) h = refl
is_prefix-take (b ∷ p) (c ∷ m) (suc n) h = ground (arith, is_prefix-take p m n)

pub take-nil : (n : ℕ) → take {A = ℕ} n [] ≡ []
take-nil zero = refl
take-nil (suc n) = refl

pub occurrences-nil : (p : Bytes) (n base : ℕ) → occurrences p n base [] ≡ []
unfolding occurrences
occurrences-nil p zero base = refl
occurrences-nil p (suc n) base = refl

-- The bytes behind the block show the patterns that begin in it.
pub occurrences-take :
    (p : Bytes) (n over k base : ℕ) (m : Bytes)
    → length p ≤ suc over
    → k ≡ n + over
    → occurrences p n base (take k m) ≡ occurrences p n base m
unfolding occurrences
occurrences-take p zero over k base m h e = refl
occurrences-take p (suc n) over zero base m h e = absurd (omega (arith, e))
occurrences-take p (suc n) over (suc k) base [] h e = refl
occurrences-take p (suc n) over (suc k) base (c ∷ m) h e =
    let ih = occurrences-take p n over k (suc base) m h (omega (arith, e)) in
    let head = is_prefix-take p (c ∷ m) (suc k) (omega (arith, h, e)) in ground (arith, ih, head)

pub occurrences-add :
    (p : Bytes) (a b n base next : ℕ) (m : Bytes)
    → n ≡ a + b
    → next ≡ base + a
    → occurrences p n base m ≡ occurrences p a base m ++ occurrences p b next (drop a m)
unfolding occurrences
occurrences-add p zero b n base next m e f =
    let same : n ≡ b = omega (arith, e) in
    let here : next ≡ base = omega (arith, f) in
    ap (λ (k : ℕ). occurrences p k base m) same ∙ sym (ap (λ (k : ℕ). occurrences p b k m) here)
occurrences-add p (suc a) b n base next [] e f =
    occurrences-nil p n base ∙ sym (occurrences-nil p b next)
occurrences-add p (suc a) b zero base next (c ∷ m) e f = absurd (omega (arith, e))
occurrences-add p (suc a) b (suc n) base next (c ∷ m) e f =
    let ih = occurrences-add p a b n (suc base) next m (omega (arith, e)) (omega (arith, f)) in
    elim (Bool-cases (is_prefix p (c ∷ m))) [
      | inl yes_here ↦ ground (arith, yes_here, ih)
      | inr not_here ↦ ground (arith, not_here, ih)
    ]
