-- ===== src/Store/Setup.antt =====
-- store.py, `SQLiteStore.setup`: the statements of SQLITE_SCHEMA on a database file, one after the
-- other and each committed by itself, so that a process that is killed leaves the first of them.
use durable_agent_engine.Base.{
  ℕ, zero, suc, Bool, true, false, ◌&&◌, ◌||◌, List, [], ◌∷◌, if◌then◌else◌,
}
use durable_agent_engine.Exec.{integrity_error, Result, ok, err}
use durable_agent_engine.Externals.{RunRow}
use durable_agent_engine.Store.Sql.{Tables, is_active, key_active}

-- The objects that the file has. A table that it does not have has no rows.
pub record File : Type 0 where
  pub has_runs : Bool
  pub has_index : Bool
  pub has_locks : Bool
  pub has_steps : Bool
  pub tables : Tables

pub data Statement : Type 0 where
  create_runs create_index create_locks create_steps : Statement

-- whether the rows break uq_active_run
unfoldable pub active_twice : List RunRow → Bool
unfolding key_active
active_twice [] = false
active_twice (r ∷ rs) =
    (is_active r.status && key_active r.idempotency_key r.run_id rs) || active_twice rs

-- `CREATE ... IF NOT EXISTS`
unfoldable pub execute : Statement → File → Result (Unit {0}) × File
unfolding active_twice
execute create_runs file = (ok tt, record file { has_runs = true })
execute create_index file =
    if file.has_index
    then (ok tt, file)
    else if active_twice file.tables.runs
    then (err integrity_error, file)
    else (ok tt, record file { has_index = true })
execute create_locks file = (ok tt, record file { has_locks = true })
execute create_steps file = (ok tt, record file { has_steps = true })

abbrev pub script : List Statement
script = create_runs ∷ create_index ∷ create_locks ∷ create_steps ∷ []

-- `executescript`: up to the first statement that fails, or the death of the process after `n`
unfoldable pub execute_some : ℕ → List Statement → File → Result (Unit {0}) × File
unfolding execute
execute_some zero statements file = (ok tt, file)
execute_some (suc n) [] file = (ok tt, file)
execute_some (suc n) (statement ∷ statements) file =
    let (r, file') = execute statement file in
    elim r [ ok u ↦ execute_some n statements file' | err error ↦ (err error, file') ]

unfoldable pub setup : File → Result (Unit {0}) × File
unfolding execute_some
setup = execute_some 4 script

-- Setups whose process is killed, each after so many statements.
abbrev pub killed_setups : List ℕ → File → File
killed_setups [] file = file
killed_setups (n ∷ ns) file = killed_setups ns (execute_some n script file).1

abbrev pub complete : Tables → File
complete t = record {
  has_runs = true;
  has_index = true;
  has_locks = true;
  has_steps = true;
  tables = t;
}
