-- ===== src/Controllers/Upload/Completion.antt =====
-- src/controllers/ControllerManager.cpp: an upload takes as many steps as were announced.
use monk_skud_unex.Base.{ℕ, zero, suc, ◌+◌, ◌*◌, List, true, ◌≡◌, if◌then◌else◌, length}
use monk_skud_unex.Base.Map.{nat_eq}
use monk_skud_unex.Types.{User}
use monk_skud_unex.Controllers.Upload.{PendingUserUpload, wanted}
use monk_skud_unex.Controllers.Upload.Progress.{Progress}

-- The addresses that a full synchronisation clears.
unfoldable pub absent_count : List User → ℕ → ℕ → ℕ
absent_count users zero address = 0
absent_count users (suc left) address =
    let rest = absent_count users left (suc address) in
    if wanted users address then rest else suc rest

-- The condition on a full synchronisation: the users stand at different addresses of the 1024.
unfoldable pub HasSlots : PendingUserUpload → Type 0
HasSlots p = p.full_sync ≡ true → absent_count p.users 1024 0 + length p.users ≡ 1024

unfoldable pub planned : PendingUserUpload → ℕ
planned p =
    if p.full_sync
    then 1025 * length p.controller_nodes
    else length p.users * length p.controller_nodes
