-- ===== src/Controllers/Stored/Merged.antt =====
-- src/controllers/ControllerManager.cpp: the controllers behind the move of an old file into the database.
use monk_skud_unex.Base.{List, Option, none, some, ℤ, eq_ℤ, find_if}
use monk_skud_unex.Controllers.Stored.Rows.{StoredController}

abbrev pub first_of : ℤ → List StoredController → Option StoredController
first_of node cs = find_if (λ (c : StoredController). eq_ℤ c.node node) cs

abbrev pub or_first : Option StoredController → Option StoredController → Option StoredController
or_first none o = o
or_first (some c) o = some c
