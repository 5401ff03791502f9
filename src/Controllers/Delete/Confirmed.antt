-- ===== src/Controllers/Delete/Confirmed.antt =====
-- src/controllers/ControllerManager.cpp: `processOneUserDelete` drops a local user only behind the
-- confirmation of every controller.
use monk_skud_unex.Base.{
  ℕ, ◌%◌, List, [], ◌∷◌, Bool, true, false, ◌&&◌, ℤ, ◌≡◌, ◌⊎◌, refl, arith, any, remove_if, eq_ℤ,
  eq_ℤ_iff, Bool-cases, inl, inr,
}
use monk_skud_unex.Types.{User}
use monk_skud_unex.Users.Ops.{UserManager, erase, commit}
use monk_skud_unex.Protocol.Link.{Port, Link}
use monk_skud_unex.Protocol.Upload.{delete_user}
use monk_skud_unex.Controllers.Delete.{
  Run, delete_one, delete_nodes, erase_local, after_nodes, delete_users,
}

abbrev pub has_id : ℤ → List User → Bool
has_id id users = any (λ (u : User). eq_ℤ u.id id) users

has_id-remove_if :
    (id other : ℤ) (users : List User)
    → eq_ℤ other id ≡ false
    → has_id id (remove_if (λ (u : User). eq_ℤ u.id other) users) ≡ has_id id users
has_id-remove_if id other [] h = refl
has_id-remove_if id other (u ∷ us) h = ground (
  arith,
  has_id-remove_if id other us h,
  eq_ℤ_iff u.id other,
  eq_ℤ_iff u.id id,
  eq_ℤ_iff other id,
)

module _ {W V : Type 0} (io : Port W) (running : W → Bool) (save : List User → V → Bool × V)
    (id : ℕ) where
  erase-has_id :
      (k other : ℤ) (m : UserManager V)
      → eq_ℤ other k ≡ false
      → has_id k (erase save other m).1.users ≡ has_id k m.users
  unfolding erase commit
  erase-has_id k other m h = ground (arith, has_id-remove_if k other m.users h)

  -- From this state of the link on, one controller after the other confirms the deletion of the user.
  pub data AllConfirmed (u : User) : Link W → List ℕ → Type 0 where
    none_left : (s : Link W) → AllConfirmed u s []
    confirmed :
        (node : ℕ) (nodes : List ℕ) (s : Link W)
        → (delete_user io (node % 256) u s).0.ok ≡ true
        → AllConfirmed u (delete_user io (node % 256) u s).1 nodes
        → AllConfirmed u s (node ∷ nodes)

  delete_nodes-AllConfirmed :
      (u : User) (nodes : List ℕ) (all_ok : Bool) (run : Run W V)
      → (delete_nodes io running save id u nodes all_ok run).0.1 ≡ true
      → (delete_nodes io running save id u nodes all_ok run).0.0 ≡ true
      → (all_ok ≡ true) × AllConfirmed u run.link nodes
  unfolding delete_nodes delete_one
  delete_nodes-AllConfirmed u [] all_ok run h g = (h, none_left run.link)
  delete_nodes-AllConfirmed u (node ∷ nodes) all_ok run h g =
      elim (Bool-cases (running run.link.port)) [
        | inr stopped ↦ absurd (ground arith)
        | inl going ↦
            let out = delete_one io running save id node u run in
            let rest =
              delete_nodes-AllConfirmed u nodes (out.0 && all_ok) out.1
                (rw (going, delete_nodes) at h) (rw (going, delete_nodes) at g) in
            (ground (arith, rest.0), confirmed node nodes run.link (ground (arith, rest.0)) rest.1)
      ]

  delete_nodes-manager :
      (u : User) (nodes : List ℕ) (all_ok : Bool) (run : Run W V)
      → (delete_nodes io running save id u nodes all_ok run).1.manager ≡ run.manager
  unfolding delete_nodes delete_one
  delete_nodes-manager u [] all_ok run = refl
  delete_nodes-manager u (node ∷ nodes) all_ok run = elim (Bool-cases (running run.link.port)) [
    | inr stopped ↦ rw (stopped, delete_nodes) refl
    | inl going ↦
        let out = delete_one io running save id node u run in
        rw (going, delete_nodes) (delete_nodes-manager u nodes (out.0 && all_ok) out.1)
  ]

  -- One user: the id is still there, or it is this user's and every controller confirmed.
  IsRetained : ℤ → User → List ℕ → Run W V → Run W V → Type 0
  IsRetained k u nodes run after =
      (has_id k after.manager.users ≡ true) ⊎ ((eq_ℤ u.id k ≡ true) × AllConfirmed u run.link nodes)

  after_nodes-IsRetained :
      (from_system : Bool) (k : ℤ) (u : User) (nodes : List ℕ) (run : Run W V)
      → has_id k run.manager.users ≡ true
      → IsRetained k u nodes run
          (after_nodes io running save id from_system u
            (delete_nodes io running save id u nodes true run)).1
  unfolding after_nodes erase_local IsRetained
  after_nodes-IsRetained from_system k u nodes run h =
      let x = delete_nodes io running save id u nodes true run in
      let same = delete_nodes-manager u nodes true run in
      elim (Bool-cases (eq_ℤ u.id k)) [
        | inr other ↦ inl (ground (arith, same, erase-has_id k u.id x.1.manager other))
        | inl own ↦ elim (Bool-cases (x.0.0 && x.0.1)) [
          | inl all ↦
              inr
                (own, (delete_nodes-AllConfirmed u nodes true run (ground arith) (ground arith)).1)
          | inr some_failed ↦ inl (ground (arith, same))
        ]
      ]

  -- Some user of the request has the id, and when the job came to that user every controller confirmed
  -- the deletion.
  pub data IsConfirmed (from_system : Bool) (k : ℤ) (nodes : List ℕ)
      : Run W V → List User → Type 0 where
    this :
        (u : User) (us : List User) (run : Run W V)
        → eq_ℤ u.id k ≡ true
        → AllConfirmed u run.link nodes
        → IsConfirmed from_system k nodes run (u ∷ us)
    later :
        (u : User) (us : List User) (run : Run W V)
        → IsConfirmed from_system k nodes
            (after_nodes io running save id from_system u
              (delete_nodes io running save id u nodes true run)).1
            us
        → IsConfirmed from_system k nodes run (u ∷ us)

  -- A user that is in the local list before a deletion job is there behind it, unless the job names a user
  -- with this id and, when it came to that user, every controller in turn confirmed the deletion.
  pub delete_users-IsConfirmed :
      (from_system : Bool) (k : ℤ) (us : List User) (nodes : List ℕ) (run : Run W V)
      → has_id k run.manager.users ≡ true
      → (has_id k (delete_users io running save id from_system us nodes run).1.manager.users ≡ true)
        ⊎ IsConfirmed from_system k nodes run us
  unfolding delete_users IsRetained
  delete_users-IsConfirmed from_system k [] nodes run h = inl h
  delete_users-IsConfirmed from_system k (u ∷ us) nodes run h =
      let x =
        after_nodes io running save id from_system u
          (delete_nodes io running save id u nodes true run) in
      elim (after_nodes-IsRetained from_system k u nodes run h) [
        | inr (own, all) ↦ inr (this u us run own all)
        | inl kept ↦ elim (Bool-cases x.0) [
          | inr stopped ↦ inl (rw (stopped, delete_users) kept)
          | inl going ↦ elim (delete_users-IsConfirmed from_system k us nodes x.1 kept) [
            | inl there_still ↦ inl (rw (going, delete_users) there_still)
            | inr c ↦ inr (later u us run c)
          ]
        ]
      ]
