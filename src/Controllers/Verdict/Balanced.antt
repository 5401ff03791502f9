-- ===== src/Controllers/Verdict/Balanced.antt =====
-- src/controllers/ControllerManager.cpp: the counters of a read job.
use monk_skud_unex.Base.{ℕ, suc, ◌+◌, Bool, ◌≡◌, refl, arith}
use monk_skud_unex.Types.Jobs.{ControllerUserReadJob, ControllerUserReadResult, ReadStatus}
use monk_skud_unex.Controllers.Verdict.{count_status, count_slot}

-- The slots that the seven counters account for.
abbrev pub sorted_out : ControllerUserReadJob → ℕ
sorted_out j =
    j.matches + j.differences + j.missing_count + j.unknown_count + j.unverified_count
    + j.empty_count + j.failed

count_status-sorted_out :
    (status : ReadStatus) (j : ControllerUserReadJob)
    → (sorted_out (count_status status j) ≡ suc (sorted_out j))
      × ((count_status status j).completed_count ≡ j.completed_count)
unfolding count_status
count_status-sorted_out ReadStatus.same j = (omega arith, refl)
count_status-sorted_out ReadStatus.diff j = (omega arith, refl)
count_status-sorted_out ReadStatus.missing j = (omega arith, refl)
count_status-sorted_out ReadStatus.unknown j = (omega arith, refl)
count_status-sorted_out ReadStatus.unverified j = (omega arith, refl)
count_status-sorted_out ReadStatus.empty j = (omega arith, refl)
count_status-sorted_out ReadStatus.error j = (omega arith, refl)

-- If the seven counters of a read job add up to its completed slots, they do so behind one more slot too.
pub count_slot-sorted_out :
    (include_empty last : Bool) (r : ControllerUserReadResult) (j : ControllerUserReadJob)
    → sorted_out j ≡ j.completed_count
    → sorted_out (count_slot include_empty last r j)
      ≡ (count_slot include_empty last r j).completed_count
unfolding count_slot
count_slot-sorted_out include_empty last r j h =
    ground (
      arith,
      count_status-sorted_out r.status (record j { completed_count = suc j.completed_count }),
    )
