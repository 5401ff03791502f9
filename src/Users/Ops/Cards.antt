-- ===== src/Users/Ops/Cards.antt =====
-- src/users/UserManager.cpp: which users have a card behind `removeCard` and `assignCard`.
use monk_skud_unex.Base.{
  ℕ, List, [], ◌∷◌, Bool, false, not, ◌&&◌, Text, ℤ, ◌≡◌, ◌≤◌, refl, arith, any, remove_if, length,
  is_empty, ◌==◌, map, eq_ℤ, Bool-cases, inl, inr, Option, none, some,
}
use monk_skud_unex.Types.{User}
use monk_skud_unex.Users.{
  canonical_card, user_has_card, remove_card_from_user, sync_primary, normalize_user, same_card,
  primary, with_parts,
}
use monk_skud_unex.Text.Card.{parse_card_id}
use monk_skud_unex.Users.Ops.{
  UserManager, assign_card, remove_card, commit, detach_from_others, assign_list, update_first,
  give_card,
}

any-remove_if {ℓ} : {A : Type ℓ} (p : A → Bool) (xs : List A) → any p (remove_if p xs) ≡ false
any-remove_if p [] = refl
any-remove_if p (x ∷ xs) = ground (arith, any-remove_if p xs)

length-remove_if {ℓ} :
    {A : Type ℓ} (p : A → Bool) (xs : List A) → length (remove_if p xs) ≤ length xs
length-remove_if p [] = omega arith
length-remove_if p (x ∷ xs) = ground (arith, length-remove_if p xs)

remove_if-none {ℓ} :
    {A : Type ℓ} (p : A → Bool) (xs : List A)
    → length (remove_if p xs) ≡ length xs
    → any p xs ≡ false
remove_if-none p [] h = refl
remove_if-none p (x ∷ xs) h = ground (arith, remove_if-none p xs, length-remove_if p xs)

with_parts-cards :
    (u : User) (card : Text) (o : Option (ℕ × ℕ)) → (with_parts u card o).cards ≡ u.cards
unfolding with_parts
with_parts-cards u card none = refl
with_parts-cards u card (some number) = refl

primary-cards : (u : User) (cs : List Text) → (primary u cs).cards ≡ u.cards
unfolding primary
primary-cards u [] = refl
primary-cards u (c ∷ cs) = with_parts-cards u c (parse_card_id c)

sync_primary-cards : (u : User) → (sync_primary u).cards ≡ u.cards
unfolding sync_primary
sync_primary-cards u = primary-cards u u.cards

-- A user from whom a card was removed does not have it any more, whether there was one or not.
pub remove_card_from_user-user_has_card :
    (u : User) (card : Text) → user_has_card (remove_card_from_user u card).0 card ≡ false
unfolding remove_card_from_user user_has_card
remove_card_from_user-user_has_card u card =
    let p = λ (x : Text). same_card x card in
    let rest = remove_if p u.cards in
    elim (Bool-cases (length rest == length u.cards)) [
      | inl same ↦ rw (same, remove_card_from_user) (remove_if-none p u.cards (ground arith))
      | inr fewer ↦
          rw (fewer, remove_card_from_user, sync_primary-cards (record u { cards = rest }))
            (any-remove_if p u.cards)
    ]

-- Some user has the card, apart from the one with the id.
unfoldable pub held_by_other : ℤ → Text → List User → Bool
held_by_other id card users = any (λ (u : User). not (eq_ℤ u.id id) && user_has_card u card) users

unfoldable pub is_held : Text → List User → Bool
is_held card users = any (λ u. user_has_card u card) users

removed-is_held :
    (card : Text) (users : List User)
    → is_held card (map (λ u. (remove_card_from_user u card).0) users) ≡ false
unfolding is_held
removed-is_held card [] = refl
removed-is_held card (u ∷ us) =
    ground (arith, remove_card_from_user-user_has_card u card, removed-is_held card us)

detached-held_by_other :
    (id : ℤ) (card : Text) (users : List User)
    → held_by_other id card (map (detach_from_others id card) users) ≡ false
unfolding held_by_other detach_from_others
detached-held_by_other id card [] = refl
detached-held_by_other id card (u ∷ us) =
    ground (arith, remove_card_from_user-user_has_card u card, detached-held_by_other id card us)

-- The change of the first user with the id gives nobody else a card, if it keeps the id.
update_first-held_by_other :
    (id : ℤ) (card : Text) (f : User → User) (users : List User)
    → ((u : User) → (f u).id ≡ u.id)
    → held_by_other id card (update_first id f users) ≡ held_by_other id card users
unfolding held_by_other update_first
update_first-held_by_other id card f [] hf = refl
update_first-held_by_other id card f (u ∷ us) hf =
    ground (arith, hf u, update_first-held_by_other id card f us hf)

with_parts-id : (u : User) (card : Text) (o : Option (ℕ × ℕ)) → (with_parts u card o).id ≡ u.id
unfolding with_parts
with_parts-id u card none = refl
with_parts-id u card (some number) = refl

primary-id : (u : User) (cs : List Text) → (primary u cs).id ≡ u.id
unfolding primary
primary-id u [] = refl
primary-id u (c ∷ cs) = with_parts-id u c (parse_card_id c)

sync_primary-id : (u : User) → (sync_primary u).id ≡ u.id
unfolding sync_primary
sync_primary-id u = primary-id u u.cards

give_card-id : (card : Text) (u : User) → (give_card card u).id ≡ u.id
unfolding give_card normalize_user
give_card-id card u = sync_primary-id _

unknown-is_held :
    (id : ℤ) (card : Text) (users : List User)
    → any (λ (u : User). eq_ℤ u.id id) users ≡ false
    → is_held card (map (detach_from_others id card) users) ≡ false
unfolding is_held detach_from_others
unknown-is_held id card [] h = refl
unknown-is_held id card (u ∷ us) h =
    ground (arith, remove_card_from_user-user_has_card u card, unknown-is_held id card us)

module _ {W : Type 0} (save : List User → W → Bool × W) where
  -- Behind `removeCard` nobody has the card, also where the users could not be saved.
  pub remove_card-is_held :
      (card : Text) (m : UserManager W)
      → is_empty (canonical_card card) ≡ false
      → is_held (canonical_card card) (remove_card save card m).1.users ≡ false
  unfolding remove_card commit
  remove_card-is_held card m h = ground (arith, removed-is_held (canonical_card card) m.users)

  -- Behind `assignCard` no other user than the one asked for has the card, whatever it answers.
  pub assign_card-held_by_other :
      (id : ℤ) (card : Text) (m : UserManager W)
      → is_empty (canonical_card card) ≡ false
      → held_by_other id (canonical_card card) (assign_card save id card m).1.users ≡ false
  unfolding assign_card commit assign_list
  assign_card-held_by_other id card m h =
      let c = canonical_card card in
      let detached = map (detach_from_others id c) m.users in
      ground (
        arith,
        detached-held_by_other id c m.users,
        update_first-held_by_other id c (give_card c) detached (give_card-id c),
      )

  -- `assignCard` to an id that no user has answers false and writes nothing, yet it takes the card from
  -- its owner in memory: nobody has it then.
  pub assign_card-unknown :
      (id : ℤ) (card : Text) (m : UserManager W)
      → is_empty (canonical_card card) ≡ false
      → any (λ (u : User). eq_ℤ u.id id) m.users ≡ false
      → ((assign_card save id card m).0 ≡ false)
        × (is_held (canonical_card card) (assign_card save id card m).1.users ≡ false)
        × ((assign_card save id card m).1.world ≡ m.world)
  unfolding assign_card
  assign_card-unknown id card m h hid =
      rw (h, hid, assign_card) (refl, unknown-is_held id (canonical_card card) m.users hid, refl)
