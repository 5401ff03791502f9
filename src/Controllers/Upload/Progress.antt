-- ===== src/Controllers/Upload/Progress.antt =====
-- src/controllers/ControllerManager.cpp: the counters of an upload job account for every step of it.
use monk_skud_unex.Base.{ℕ, ◌+◌, Bool, true, false, some, ◌≡◌, refl, ◌∙◌, arith}
use monk_skud_unex.Base.Map.{lookup, adjust, nat_eq, lookup-adjust}
use monk_skud_unex.Types.Jobs.{ControllerUserUploadJob, ControllerUserUploadResult}
use monk_skud_unex.Protocol.Link.{Link}
use monk_skud_unex.Controllers.Upload.{Run, count_result, skip_addresses, is_skipped, next}

-- The steps that the counters account for.
abbrev pub counted : ControllerUserUploadJob → ℕ
counted j = j.success + j.failed + j.skipped_count

-- `n` more steps are done, and each of them is a success, a failure or skipped.
pub record Advances (n : ℕ) (j k : ControllerUserUploadJob) : Type 0 where
  pub completed : k.completed_count ≡ j.completed_count + n
  pub counters : counted k ≡ counted j + n
  pub total : k.total ≡ j.total

Advances-trans :
    (n m sum : ℕ) (i j k : ControllerUserUploadJob)
    → n + m ≡ sum
    → Advances n i j
    → Advances m j k
    → Advances sum i k
Advances-trans n m sum i j k h a b = record {
  completed = ground (arith, a.completed, b.completed);
  counters = ground (arith, a.counters, b.counters);
  total = b.total ∙ a.total;
}

pub count_result-Advances :
    (r : ControllerUserUploadResult) (ok is_skipped keep : Bool) (j : ControllerUserUploadJob)
    → Advances 1 j (count_result r ok is_skipped keep j)
unfolding count_result
count_result-Advances r ok is_skipped keep j = record {
  completed = ground arith;
  counters = ground arith;
  total = refl;
}

pub skip_addresses-Advances : (j : ControllerUserUploadJob) → Advances 1024 j (skip_addresses j)
unfolding skip_addresses
skip_addresses-Advances j = record { completed = refl; counters = ground arith; total = refl }

module _ {W : Type 0} (id : ℕ) where
  -- What a part of the upload does to its job, wherever that is in the table.
  unfoldable pub Progress : ℕ → Run W → Run W → Type 0
  Progress n run after =
      (j : ControllerUserUploadJob)
      → lookup id run.jobs ≡ some j
      → (k : ControllerUserUploadJob) × (lookup id after.jobs ≡ some k) × Advances n j k

  pub Progress-trans :
      (n m sum : ℕ) (a b c : Run W)
      → n + m ≡ sum
      → Progress n a b
      → Progress m b c
      → Progress sum a c
  unfolding Progress
  Progress-trans n m sum a b c e p q j h =
      let first = p j h in
      let second = q first.0 first.1 in
      (second.0, second.1, Advances-trans n m sum j first.0 second.0 e first.2 second.2)

  pub on_job-Progress :
      (n : ℕ) (f : ControllerUserUploadJob → ControllerUserUploadJob) (run : Run W) (link : Link W)
      → ((j : ControllerUserUploadJob) → Advances n j (f j))
      → Progress n run (record { link = link; jobs = adjust id f run.jobs })
  unfolding Progress
  on_job-Progress n f run link hf j h = (f j, ground (arith, lookup-adjust id id f run.jobs), hf j)

  pub none-Progress : (run : Run W) → Progress 0 run run
  unfolding Progress
  none-Progress run j h =
      (j, h, record { completed = ground arith; counters = ground arith; total = refl })

  -- A part of the upload that was not stopped.
  unfoldable pub Completes : ℕ → Run W → Bool × Run W → Type 0
  Completes n run (going, after) = (going ≡ true) × Progress n run after

  pub next-Completes :
      (n m sum : ℕ) (a : Run W) (x : Bool × Run W) (f : Run W → Bool × Run W)
      → n + m ≡ sum
      → Completes n a x
      → ((b : Run W) → Completes m b (f b))
      → Completes sum a (next x f)
  unfolding Completes next
  next-Completes n m sum a (true, b) f e hx hf =
      let rest = hf b in (rest.0, Progress-trans n m sum a b (f b).1 e hx.1 rest.1)
  next-Completes n m sum a (false, b) f e hx hf = absurd (ground arith)
