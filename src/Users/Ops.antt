-- ===== src/Users/Ops.antt =====
-- src/users/UserManager.cpp: the methods that look users up and change the list.
pub mod Cards
use monk_skud_unex.Base.{
  ℕ, ◌+◌, ◌-◌, max, ◌≡◌, List, [], ◌∷◌, ◌++◌, Bool, true, false, ◌&&◌, ◌||◌, not, Text, Option,
  none, some, ltb, ◌==◌, if◌then◌else◌, length, is_empty, any, remove_if, find_if, codes, bytes_eq,
  ℤ, pos, eq_ℤ, leb_ℤ, pos_part, map,
}
use mathlib.Core.List.{foldl}
use monk_skud_unex.Types.{User, new_user}
use monk_skud_unex.Users.{
  canonical_card, user_has_card, remove_card_from_user, append_unique_card, normalize_user,
}

-- The list, and the store behind `save()` as the world `W`.
pub record UserManager (W : Type 0) : Type 0 where
  pub users : List User
  pub world : W

unfoldable pub find_card : List User → Text → Option User
find_card users card =
    let canonical = canonical_card card in
    if is_empty canonical then none else find_if (λ u. user_has_card u canonical) users

unfoldable pub find_id : List User → ℤ → Option User
find_id users id = find_if (λ u. eq_ℤ u.id id) users

-- `m = max(m, x.id)` from 0 on.
unfoldable pub max_id : List User → ℕ
max_id [] = 0
max_id (u ∷ us) = max (pos_part u.id) (max_id us)

-- `removeCardFromUser` for each card, and whether any was removed.
unfoldable pub detach_cards : List Text → User × Bool → User × Bool
detach_cards [] p = p
detach_cards (c ∷ cs) (u, changed) =
    let r = remove_card_from_user u c in detach_cards cs (r.0, r.1 || changed)

unfoldable pub detach_other : User → User → User
unfolding detach_cards
detach_other u x =
    let r = detach_cards u.cards (x, false) in
    if eq_ℤ x.id u.id then x else if r.1 then normalize_user r.0 else x

-- The first user with the id is replaced; a new one goes to the end.
unfoldable pub replace_or_append : User → List User → List User
replace_or_append u [] = u ∷ []
replace_or_append u (x ∷ xs) =
    let rest = replace_or_append u xs in if eq_ℤ x.id u.id then u ∷ xs else x ∷ rest

unfoldable pub with_id : List User → User → User
with_id users u = if leb_ℤ u.id (pos 0) then record u { id = pos (max_id users + 1) } else u

unfoldable pub upsert_list : List User → User → List User
upsert_list users u = replace_or_append u (map (detach_other u) users)

-- The other users lose the card; the first user with the id gains it.
unfoldable pub detach_from_others : ℤ → Text → User → User
detach_from_others id card u = if eq_ℤ u.id id then u else (remove_card_from_user u card).0

unfoldable pub update_first : ℤ → (User → User) → List User → List User
update_first id f [] = []
update_first id f (u ∷ us) =
    let rest = update_first id f us in if eq_ℤ u.id id then f u ∷ us else u ∷ rest

unfoldable pub give_card : Text → User → User
give_card card u = normalize_user (record u { cards = append_unique_card u.cards card })

unfoldable pub assign_list : List User → ℤ → Text → List User
unfolding give_card
assign_list users id card =
    update_first id (give_card card) (map (detach_from_others id card) users)

-- The placeholder for a card that nobody owns; its last name is the text of the source.
unfoldable pub placeholder : Text → List User → Text → User
placeholder card_word users card = normalize_user (record new_user {
  id = pos (max_id users + 1);
  last_name = card_word;
  first_name = card;
  cards = card ∷ [];
})

module _ {W : Type 0} (save : List User → W → Bool × W) where
  unfoldable pub commit : List User → UserManager W → Bool × UserManager W
  commit users m = let r = save users m.world in (r.0, record { users = users; world = r.1 })

  unfoldable pub by_card : Text → UserManager W → Option User
  by_card card m = find_card m.users card

  unfoldable pub by_id : ℤ → UserManager W → Option User
  by_id id m = find_id m.users id

  -- The result of `save()` is dropped.
  unfoldable pub upsert : User → UserManager W → User × UserManager W
  upsert user m =
      let u = with_id m.users (normalize_user user) in (u, (commit (upsert_list m.users u) m).1)

  unfoldable pub erase : ℤ → UserManager W → Bool × UserManager W
  erase id m =
      let users = remove_if (λ (u : User). eq_ℤ u.id id) m.users in
      if length users == length m.users then (false, m) else commit users m

  unfoldable pub erase_many : List ℤ → UserManager W → ℕ × UserManager W
  erase_many ids m =
      let users = remove_if (λ (u : User). any (λ id. eq_ℤ id u.id) ids) m.users in
      if length users == length m.users
      then (0, m)
      else (length m.users - length users, (commit users m).1)

  unfoldable pub assign_card : ℤ → Text → UserManager W → Bool × UserManager W
  assign_card id card m =
      let canonical = canonical_card card in
      let detached = map (detach_from_others id canonical) m.users in
      if is_empty canonical
      then (false, m)
      else if not (any (λ (u : User). eq_ℤ u.id id) m.users)
      then (false, record m { users = detached })
      else commit (assign_list m.users id canonical) m

  unfoldable pub ensure_user_for_card : Text → Text → UserManager W → Option User × UserManager W
  ensure_user_for_card card_word card m =
      let canonical = canonical_card card in
      let created = placeholder card_word m.users canonical in
      let saved = commit (m.users ++ created ∷ []) m in
      if is_empty canonical
      then (none, m)
      else elim (find_if (λ u. user_has_card u canonical) m.users) [
        | some u ↦ (some u, m)
        | none ↦ if saved.0 then (some created, saved.1) else (none, saved.1)
      ]

  unfoldable pub remove_card : Text → UserManager W → Bool × UserManager W
  remove_card card m =
      let canonical = canonical_card card in
      let detached = map (λ u. (remove_card_from_user u canonical).0) m.users in
      if is_empty canonical
      then (false, m)
      else if any (λ (u : User). (remove_card_from_user u canonical).1) m.users
      then commit detached m
      else (false, record m { users = detached })

  unfoldable pub rename_department : Text → Text → UserManager W → Bool × UserManager W
  rename_department old new m =
      let renamed =
        map (λ (u : User). if bytes_eq u.department old then record u { department = new } else u)
          m.users in
      if bytes_eq old new then (true, m) else commit renamed m

  unfoldable pub department_in_use : Text → UserManager W → Bool
  department_in_use name m = any (λ (u : User). bytes_eq u.department name) m.users
