-- ===== src/Store/Valid.antt =====
-- The integrity constraints of SQLITE_SCHEMA as an invariant of the tables (store.py).
use durable_agent_engine.Base.{◌≡◌, true, false, List, [], ◌∷◌}
use durable_agent_engine.Externals.{RunRow}
use durable_agent_engine.Store.Sql.{
  StepRow, LockRow, Tables, is_active, run_id_taken, key_active, has_step, lock_held,
}

-- The primary key of `runs` and its partial unique index.
abbrev pub IsValidRuns : List RunRow → Type 0
IsValidRuns [] = Unit
IsValidRuns (r ∷ rs) =
    (run_id_taken r.run_id rs ≡ false)
    × (is_active r.status ≡ true → key_active r.idempotency_key r.run_id rs ≡ false)
    × IsValidRuns rs

-- The primary key of `step_records`.
abbrev pub IsValidSteps : List StepRow → Type 0
IsValidSteps [] = Unit
IsValidSteps (r ∷ rs) = (has_step r.run_id r.step_index rs ≡ false) × IsValidSteps rs

-- The foreign key of `step_records`.
abbrev pub HasRuns : List RunRow → List StepRow → Type 0
HasRuns runs [] = Unit
HasRuns runs (r ∷ rs) = (run_id_taken r.run_id runs ≡ true) × HasRuns runs rs

-- The primary key of `locks`.
abbrev pub IsValidLocks : List LockRow → Type 0
IsValidLocks [] = Unit
IsValidLocks (l ∷ ls) = (lock_held l.lock_id ls ≡ false) × IsValidLocks ls

pub record IsValid (t : Tables) : Type 0 where
  pub runs : IsValidRuns t.runs
  pub steps : IsValidSteps t.step_records
  pub refs : HasRuns t.runs t.step_records
  pub locks : IsValidLocks t.locks
