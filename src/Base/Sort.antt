-- ===== src/Base/Sort.antt =====
-- `std::sort` with a comparison, and `<` of two `std::string`. Elements of equal rank stand in the order
-- of the input here; no theorem rests on that.
use Prim.Native.Nat.{ℕ, ◌+◌}
use mathlib.Core.Path.{◌≡◌, refl}
use mathlib.Core.Bool.{Bool, true, false, ◌||◌, ◌&&◌}
use mathlib.Core.List.{List, [], ◌∷◌}
use native.Mathlib.Omega.{arith}
use monk_skud_unex.Base.Tests.{if◌then◌else◌, ltb, ◌==◌, Bool-cases}
use monk_skud_unex.Base.Lists.{Text}
use mathlib.Core.Logic.{inl, inr}

unfoldable pub text_lt : Text → Text → Bool
text_lt [] [] = false
text_lt [] (d ∷ t) = true
text_lt (c ∷ s) [] = false
text_lt (c ∷ s) (d ∷ t) = ltb c d || (c == d && text_lt s t)

pub text_lt-asymmetric : (s t : Text) → text_lt s t ≡ true → text_lt t s ≡ false
unfolding text_lt
text_lt-asymmetric [] [] h = refl
text_lt-asymmetric [] (d ∷ t) h = refl
text_lt-asymmetric (c ∷ s) [] h = absurd (ground arith)
text_lt-asymmetric (c ∷ s) (d ∷ t) h = ground (arith, text_lt-asymmetric s t)

module _ {A : Type 0} (less : A → A → Bool) where
  unfoldable pub insert_sorted : A → List A → List A
  insert_sorted x [] = x ∷ []
  insert_sorted x (y ∷ ys) =
      let rest = insert_sorted x ys in if less y x then y ∷ rest else x ∷ y ∷ ys

  unfoldable pub sort : List A → List A
  unfolding insert_sorted
  sort [] = []
  sort (x ∷ xs) = insert_sorted x (sort xs)

  -- How often a test passes: two lists with the same counts for all tests are permutations.
  unfoldable pub count : (A → Bool) → List A → ℕ
  count p [] = 0
  count p (x ∷ xs) = (if p x then 1 else 0) + count p xs

  count-insert_sorted :
      (p : A → Bool) (x : A) (xs : List A) → count p (insert_sorted x xs) ≡ count p (x ∷ xs)
  unfolding insert_sorted count
  count-insert_sorted p x [] = refl
  count-insert_sorted p x (y ∷ ys) = ground (arith, count-insert_sorted p x ys)

  pub count-sort : (p : A → Bool) (xs : List A) → count p (sort xs) ≡ count p xs
  unfolding sort count
  count-sort p [] = refl
  count-sort p (x ∷ xs) = ground (arith, count-insert_sorted p x (sort xs), count-sort p xs)

  -- No element is less than the one before it.
  abbrev pub InOrder : List A → Type 0
  InOrder [] = Unit {0}
  InOrder (x ∷ []) = Unit {0}
  InOrder (x ∷ y ∷ ys) = (less y x ≡ false) × InOrder (y ∷ ys)

  module _ (asymmetric : (x y : A) → less x y ≡ true → less y x ≡ false) where
    insert_sorted-InOrder : (x : A) (xs : List A) → InOrder xs → InOrder (insert_sorted x xs)
    unfolding insert_sorted
    insert_sorted-InOrder x [] h = record {}
    insert_sorted-InOrder x (y ∷ []) h = elim (Bool-cases (less y x)) [
      | inl e ↦ rw (e, insert_sorted) (asymmetric y x e, record {})
      | inr e ↦ rw (e, insert_sorted) (e, record {})
    ]
    insert_sorted-InOrder x (y ∷ z ∷ zs) h = elim (Bool-cases (less y x)) [
      | inr e ↦ rw (e, insert_sorted) (e, h)
      | inl e ↦
          let ih = insert_sorted-InOrder x (z ∷ zs) h.1 in
          elim (Bool-cases (less z x)) [
            | inl f ↦ rw (e, insert_sorted, f) (h.0, rw (insert_sorted, f) at ih)
            | inr f ↦ rw (e, insert_sorted, f) (asymmetric y x e, rw (insert_sorted, f) at ih)
          ]
    ]

    pub sort-InOrder : (xs : List A) → InOrder (sort xs)
    unfolding sort
    sort-InOrder [] = record {}
    sort-InOrder (x ∷ xs) = insert_sorted-InOrder x (sort xs) (sort-InOrder xs)
