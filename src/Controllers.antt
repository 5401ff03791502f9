-- ===== src/Controllers.antt =====
-- src/controllers/ControllerManager.cpp: the jobs of the serial worker. A web request only queues a job;
-- the worker thread runs it. The lock makes each access of a job table atomic.
pub mod Trace
pub mod Upload
pub mod Delete
pub mod Action
pub mod Verdict
pub mod Read
pub mod Event
pub mod Search
pub mod Stored
use monk_skud_unex.Base.{ℕ, ◌-◌, List, ◌++◌, ◌∷◌, [], Bool, length, drop}
use monk_skud_unex.Base.Map.{insert, nat_eq}
use monk_skud_unex.Protocol.Link.{M, Link}

-- A job table keeps the newest `cap` jobs: `while(size() > cap) erase(begin())`, where ids only grow.
abbrev pub keep_newest {ℓ} : {A : Type ℓ} → ℕ → List A → List A
keep_newest cap jobs = drop (length jobs - cap) jobs

abbrev pub add_job : {J : Type 0} → ℕ → ℕ → J → List (ℕ × J) → List (ℕ × J)
add_job cap id job jobs = keep_newest cap (insert id job jobs)
