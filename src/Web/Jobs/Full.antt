-- ===== src/Web/Jobs/Full.antt =====
-- src/web/WebServer.cpp: the users of a full synchronisation, which rewrites all slots of a controller.
use monk_skud_unex.Base.{
  ℕ, ◌≤◌, List, [], ◌∷◌, true, false, none, some, ℤ, pos, eq_ℤ, within, ◌==◌, is_empty, All, codes,
  ◌≡◌, refl, arith, Bool-cases, Option-cases, inl, inr,
}
use monk_skud_unex.Base.Map.{lookup, nat_eq}
use monk_skud_unex.Types.{User}
use monk_skud_unex.Web.Request.{Form, is_set}
use monk_skud_unex.Web.Jobs.Forms.{sync_card, sync_problem, enabled_users, upload_users}

-- A slot of the controller, and a card to write into it.
pub record Ready (u : User) : Type 0 where
  pub address : ℕ
  pub at : u.controller_port ≡ pos address
  pub in_range : address ≤ 1023
  pub has_card : is_empty (sync_card u) ≡ false

-- No two users have the same slot.
abbrev pub Apart : List User → Type 0
Apart [] = Unit {0}
Apart (u ∷ us) = All (λ (v : User). eq_ℤ v.controller_port u.controller_port ≡ false) us × Apart us

record Fresh (owners : List (ℕ × ℤ)) (u : User) : Type 0 where
  ready : Ready u
  free : lookup ready.address owners ≡ none

within-some : (z : ℤ) (a : ℕ) → within 1023 z ≡ some a → (z ≡ pos a) × (a ≤ 1023)
within-some z a h = ground arith

-- A user whose slot is free behind another one's has a slot of its own.
still_free :
    (owners : List (ℕ × ℤ)) (u v : User) (a : ℕ)
    → u.controller_port ≡ pos a
    → Fresh ((a, u.id) ∷ owners) v
    → Fresh owners v × (eq_ℤ v.controller_port u.controller_port ≡ false)
unfolding lookup
still_free owners u v a at h =
    let r = h.ready in
    let apart : (a == r.address) ≡ false = ground (arith, h.free) in
    let still : lookup r.address owners ≡ none = ground (arith, h.free) in
    (record { ready = r; free = still }, ground (arith, at, r.at, apart))

every_behind :
    (owners : List (ℕ × ℤ)) (u : User) (a : ℕ) (us : List User)
    → u.controller_port ≡ pos a
    → All (Fresh ((a, u.id) ∷ owners)) us
    → All (Fresh owners) us
      × All (λ (v : User). eq_ℤ v.controller_port u.controller_port ≡ false) us
every_behind owners u a [] at h = (record {}, record {})
every_behind owners u a (v ∷ us) at (h, hs) =
    let one = still_free owners u v a at h in
    let rest = every_behind owners u a us at hs in ((one.0, rest.0), (one.1, rest.1))

sync_problem-Fresh :
    (owners : List (ℕ × ℤ)) (us : List User)
    → sync_problem owners us ≡ none
    → All (Fresh owners) us × Apart us
unfolding sync_problem
sync_problem-Fresh owners [] = λ h. (record {}, record {})
sync_problem-Fresh owners (u ∷ us) = elim (Option-cases (within 1023 u.controller_port)) [
  | inl outside ↦ rw (outside, sync_problem) (λ h. absurd (ground (arith, h)))
  | inr (a, at) ↦ elim (Bool-cases (is_empty (sync_card u))) [
    | inl no_card ↦ rw (at, no_card, sync_problem) (λ h. absurd (ground (arith, h)))
    | inr card ↦ elim (Option-cases (lookup a owners)) [
      | inr (owner, taken) ↦ rw (at, card, taken, sync_problem) (λ h. absurd (ground (arith, h)))
      | inl free ↦
          rw (at, card, free, sync_problem)
            (λ h.
              let w = within-some u.controller_port a at in
              let ih = sync_problem-Fresh ((a, u.id) ∷ owners) us h in
              let rest = every_behind owners u a us w.0 ih.0 in
              let me : Fresh owners u = record {
                ready = record { address = a; at = w.0; in_range = w.1; has_card = card };
                free = free;
              } in
              ((me, rest.0), (rest.1, ih.1)))
    ]
  ]
]

each_user : (owners : List (ℕ × ℤ)) (us : List User) → All (Fresh owners) us → All Ready us
each_user owners [] h = record {}
each_user owners (u ∷ us) (h, hs) = (h.ready, each_user owners us hs)

-- A full synchronisation that is not refused is for the enabled users, each of whom has a card and a slot
-- of the controller, and no two of whom have the same slot.
pub upload_users-Ready :
    (f : Form) (users : List User)
    → is_set (codes "all_users") f ≡ true
    → (upload_users f users).1 ≡ none
    → let chosen = (upload_users f users).0 in
      (chosen ≡ enabled_users users) × All Ready chosen × Apart chosen
unfolding upload_users
upload_users-Ready f users all =
    rw (all, upload_users)
      (λ h.
        let r = sync_problem-Fresh [] (enabled_users users) h in
        (refl, each_user [] (enabled_users users) r.0, r.1))
