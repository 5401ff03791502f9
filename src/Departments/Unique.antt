-- ===== src/Departments/Unique.antt =====
-- src/departments/DepartmentManager.cpp: no department stands twice in the list.
use monk_skud_unex.Base.{
  ℕ, ◌+◌, ◌≤◌, List, [], ◌∷◌, ◌++◌, Bool, true, false, not, Text, if◌then◌else◌, is_empty, bytes_eq,
  bytes_eq_iff, remove_if, length, ◌==◌, ◌||◌, ◌≡◌, refl, arith, Bool-cases, inl, inr,
}
use monk_skud_unex.Base.Sort.{sort, text_lt, count, count-sort}
use monk_skud_unex.Departments.{
  Departments, normalize, has_name, add_name, add_names, replace_first, commit, add, rename, erase,
  ensure,
}

abbrev times : Text → List Text → ℕ
times x names = count text_lt (bytes_eq x) names

-- No name stands twice.
pub record IsUnique (names : List Text) : Type 0 where
  pub once : (x : Text) → times x names ≤ 1

times-append : (x : Text) (xs ys : List Text) → times x (xs ++ ys) ≡ times x xs + times x ys
unfolding count
times-append x [] ys = ground arith
times-append x (y ∷ xs) ys = ground (arith, times-append x xs ys)

times-absent : (x : Text) (names : List Text) → has_name x names ≡ false → times x names ≡ 0
unfolding count
times-absent x [] h = refl
times-absent x (y ∷ names) h = ground (arith, times-absent x names)

snoc-IsUnique :
    (n : Text) (names : List Text)
    → has_name n names ≡ false
    → IsUnique names
    → IsUnique (names ++ n ∷ [])
unfolding count
snoc-IsUnique n names absent u = record {
  once = λ x. ground (
    arith,
    times-append x names (n ∷ []),
    u.once x,
    times-absent n names absent,
    bytes_eq_iff x n,
  );
}

sort-IsUnique : (names : List Text) → IsUnique names → IsUnique (sort text_lt names)
sort-IsUnique names u = record {
  once = λ x. omega (arith, u.once x, count-sort text_lt (bytes_eq x) names);
}

add_name-IsUnique :
    (raw : Text) (names : List Text) → IsUnique names → IsUnique (add_name raw names)
unfolding add_name
add_name-IsUnique raw names u =
    let n = normalize raw in
    elim (Bool-cases (is_empty n)) [
      | inl e ↦ rw (e, add_name) u
      | inr e ↦ elim (Bool-cases (has_name n names)) [
        | inl f ↦ rw (e, add_name, f) u
        | inr f ↦ rw (e, add_name, f) (snoc-IsUnique n names f u)
      ]
    ]

add_names-IsUnique : (raws names : List Text) → IsUnique names → IsUnique (add_names raws names)
unfolding add_names
add_names-IsUnique [] names u = u
add_names-IsUnique (raw ∷ raws) names u =
    add_names-IsUnique raws (add_name raw names) (add_name-IsUnique raw names u)

times-replace_first :
    (x old new : Text) (names : List Text)
    → has_name old names ≡ true
    → times x (replace_first old new names) + (if bytes_eq x old then 1 else 0)
      ≡ times x names + (if bytes_eq x new then 1 else 0)
unfolding count replace_first
times-replace_first x old new [] h = absurd (ground arith)
times-replace_first x old new (n ∷ names) h =
    ground (arith, times-replace_first x old new names, bytes_eq_iff old n)

times-remove_if :
    (x n : Text) (names : List Text) → times x (remove_if (bytes_eq n) names) ≤ times x names
unfolding count
times-remove_if x n [] = omega arith
times-remove_if x n (y ∷ names) = ground (arith, times-remove_if x n names)

module _ {W : Type 0} (save : List Text → W → Bool × W) where
  commit-IsUnique :
      (names : List Text) (d : Departments W)
      → IsUnique names
      → IsUnique (commit save names d).1.names
  unfolding commit
  commit-IsUnique names d u = u

  add-IsUnique :
      (raw : Text) (d : Departments W) → IsUnique d.names → IsUnique (add save raw d).1.names
  unfolding add
  add-IsUnique raw d u =
      let n = normalize raw in
      elim (Bool-cases (is_empty n)) [
        | inl e ↦ rw (e, add) u
        | inr e ↦ elim (Bool-cases (has_name n d.names)) [
          | inl f ↦ rw (e, add, f) u
          | inr f ↦
              rw (e, add, f)
                (commit-IsUnique _ d
                  (sort-IsUnique (d.names ++ n ∷ []) (snoc-IsUnique n d.names f u)))
        ]
      ]

  replace_first-IsUnique :
      (old new : Text) (names : List Text)
      → has_name old names ≡ true
      → has_name new names ≡ false
      → IsUnique names
      → IsUnique (replace_first old new names)
  replace_first-IsUnique old new names there absent u = record {
    once = λ x. ground (
      arith,
      times-replace_first x old new names there,
      u.once x,
      times-absent new names absent,
      bytes_eq_iff x new,
    );
  }

  rename-IsUnique :
      (raw_old raw_new : Text) (d : Departments W)
      → IsUnique d.names
      → IsUnique (rename save raw_old raw_new d).1.names
  unfolding rename
  rename-IsUnique raw_old raw_new d u =
      let old = normalize raw_old in
      let new = normalize raw_new in
      elim (Bool-cases (is_empty old || is_empty new)) [
        | inl e ↦ rw (e, rename) u
        | inr e ↦ elim (Bool-cases (bytes_eq old new)) [
          | inl f ↦ rw (e, rename, f) u
          | inr f ↦ elim (Bool-cases (has_name new d.names || not (has_name old d.names))) [
            | inl g ↦ rw (e, rename, f, g) u
            | inr g ↦
                rw (e, rename, f, g)
                  (commit-IsUnique (sort text_lt (replace_first old new d.names)) d (
                    sort-IsUnique (replace_first old new d.names)
                      (replace_first-IsUnique old new d.names (ground arith) (ground arith) u)))
          ]
        ]
      ]

  erase-IsUnique :
      (raw : Text) (d : Departments W) → IsUnique d.names → IsUnique (erase save raw d).1.names
  unfolding erase
  erase-IsUnique raw d u =
      let n = normalize raw in
      let rest = remove_if (bytes_eq n) d.names in
      elim (Bool-cases (is_empty n)) [
        | inl e ↦ rw (e, erase) u
        | inr e ↦ elim (Bool-cases (length d.names == length rest)) [
          | inl f ↦ rw (e, erase, f) u
          | inr f ↦
              rw (e, erase, f)
                (commit-IsUnique rest d
                  (record { once = λ x. omega (arith, times-remove_if x n d.names, u.once x) }))
        ]
      ]

  ensure-IsUnique :
      (raws : List Text) (d : Departments W)
      → IsUnique d.names
      → IsUnique (ensure save raws d).1.names
  unfolding ensure
  ensure-IsUnique raws d u =
      let names = add_names raws d.names in
      elim (Bool-cases (length names == length d.names)) [
        | inl e ↦ rw (e, ensure) u
        | inr e ↦
            rw (e, ensure)
              (commit-IsUnique (sort text_lt names) d
                (sort-IsUnique names (add_names-IsUnique raws d.names u)))
      ]

  -- A change that somebody asks for.
  pub data Change : Type 0 where
    to_add : Text → Change
    to_rename : Text → Text → Change
    to_erase : Text → Change
    to_ensure : List Text → Change

  unfoldable pub change : Change → Departments W → Bool × Departments W
  change (to_add raw) d = add save raw d
  change (to_rename old new) d = rename save old new d
  change (to_erase raw) d = erase save raw d
  change (to_ensure raws) d = ensure save raws d

  unfoldable pub change_all : List Change → Departments W → Departments W
  unfolding change
  change_all [] d = d
  change_all (c ∷ cs) d = change_all cs (change c d).1

  change-IsUnique :
      (c : Change) (d : Departments W) → IsUnique d.names → IsUnique (change c d).1.names
  unfolding change
  change-IsUnique (to_add raw) d u = add-IsUnique raw d u
  change-IsUnique (to_rename old new) d u = rename-IsUnique old new d u
  change-IsUnique (to_erase raw) d u = erase-IsUnique raw d u
  change-IsUnique (to_ensure raws) d u = ensure-IsUnique raws d u

  -- Over any series of changes, whether or not they could be saved, no department stands twice.
  pub change_all-IsUnique :
      (cs : List Change) (d : Departments W) → IsUnique d.names → IsUnique (change_all cs d).names
  unfolding change_all
  change_all-IsUnique [] d u = u
  change_all-IsUnique (c ∷ cs) d u = change_all-IsUnique cs (change c d).1 (change-IsUnique c d u)
