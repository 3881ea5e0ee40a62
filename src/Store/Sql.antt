-- ===== src/Store/Sql.antt =====
-- store.py, SQLITE_SCHEMA and the statements that the methods of `SQLiteStore` run on it.
use durable_agent_engine.Base.{
  Text, ℕ, String, Bool, true, false, ◌&&◌, ◌||◌, not, Option, none, some, List, [], ◌∷◌, str_eq,
  leb, ◌==◌, if◌then◌else◌,
}
use durable_agent_engine.Exec.{integrity_error, Result, ok, err}
use durable_agent_engine.Models.{RunStatus, StepOutcome}
use durable_agent_engine.Externals.{RunRow}

-- A row of `step_records`. `output` is the JSON text.
pub record StepRow : Type 0 where
  pub run_id : String
  pub step_index : ℕ
  pub name : String
  pub outcome : StepOutcome
  pub attempts : ℕ
  pub output : String
  pub tokens_used : ℕ
  pub created_at : ℕ

pub record LockRow : Type 0 where
  pub lock_id : ℕ
  pub key : String
  pub owner : String
  pub expires_at : ℕ

pub record Tables : Type 0 where
  pub runs : List RunRow
  pub step_records : List StepRow
  pub locks : List LockRow

-- `WHERE status IN ('pending', 'running')` of uq_active_run
abbrev pub is_active : RunStatus → Bool
is_active RunStatus.pending = true
is_active RunStatus.running = true
is_active _ = false

unfoldable pub run_id_taken : String → List RunRow → Bool
run_id_taken run_id [] = false
run_id_taken run_id (r ∷ rs) = str_eq r.run_id run_id || run_id_taken run_id rs

-- whether the index holds the key for a run other than `run_id`
unfoldable pub key_active : String → String → List RunRow → Bool
key_active key run_id [] = false
key_active key run_id (r ∷ rs) =
    (is_active r.status && str_eq r.idempotency_key key && not (str_eq r.run_id run_id))
    || key_active key run_id rs

-- SELECT * FROM runs WHERE run_id = ?
unfoldable pub find_run : String → List RunRow → Option RunRow
find_run run_id [] = none
find_run run_id (r ∷ rs) = if str_eq r.run_id run_id then some r else find_run run_id rs

-- the rows that find_by_key orders
unfoldable pub rows_of_key : String → List RunRow → List RunRow
rows_of_key key [] = []
rows_of_key key (r ∷ rs) =
    if str_eq r.idempotency_key key then r ∷ rows_of_key key rs else rows_of_key key rs

-- INSERT INTO runs, under the primary key and the partial unique index
unfoldable pub insert_run : RunRow → Tables → Result (Unit {0} × Tables)
unfolding run_id_taken key_active
insert_run r t =
    if run_id_taken r.run_id t.runs
    then err integrity_error
    else if is_active r.status && key_active r.idempotency_key r.run_id t.runs
    then err integrity_error
    else ok (tt, record t { runs = r ∷ t.runs })

unfoldable pub replace_run : String → RunStatus → Option Text → List RunRow → List RunRow
replace_run run_id status error [] = []
replace_run run_id status error (r ∷ rs) =
    if str_eq r.run_id run_id
    then record r { status = status; error = error } ∷ replace_run run_id status error rs
    else r ∷ replace_run run_id status error rs

-- the partial unique index, asked before the row of `run_id` takes the status
unfoldable pub status_conflicts : String → RunStatus → List RunRow → Bool
unfolding find_run key_active
status_conflicts run_id status runs = elim (find_run run_id runs) [
  | none ↦ false
  | some r ↦ is_active status && key_active r.idempotency_key run_id runs
]

-- UPDATE runs SET status = ?, error = ? WHERE run_id = ?
unfoldable pub update_status :
    String → RunStatus → Option Text → Tables → Result (Unit {0} × Tables)
unfolding status_conflicts replace_run
update_status run_id status error t =
    if status_conflicts run_id status t.runs
    then err integrity_error
    else ok (tt, record t { runs = replace_run run_id status error t.runs })

-- whether the primary key (run_id, step_index) is there
unfoldable pub has_step : String → ℕ → List StepRow → Bool
has_step run_id index [] = false
has_step run_id index (r ∷ rs) =
    (str_eq r.run_id run_id && r.step_index == index) || has_step run_id index rs

-- ORDER BY step_index, as an insertion sort
unfoldable pub insert_sorted : StepRow → List StepRow → List StepRow
insert_sorted r [] = r ∷ []
insert_sorted r (s ∷ ss) =
    if leb r.step_index s.step_index then r ∷ s ∷ ss else s ∷ insert_sorted r ss

-- SELECT * FROM step_records WHERE run_id = ? ORDER BY step_index
unfoldable pub steps_of : String → List StepRow → List StepRow
unfolding insert_sorted
steps_of run_id [] = []
steps_of run_id (r ∷ rs) =
    let rest = steps_of run_id rs in if str_eq r.run_id run_id then insert_sorted r rest else rest

-- DELETE FROM locks WHERE lock_id = ? AND expires_at <= ?
unfoldable pub delete_expired : ℕ → ℕ → List LockRow → List LockRow
delete_expired lock_id now [] = []
delete_expired lock_id now (l ∷ ls) =
    let rest = delete_expired lock_id now ls in
    if l.lock_id == lock_id && leb l.expires_at now then rest else l ∷ rest

-- SELECT owner FROM locks WHERE lock_id = ?
unfoldable pub lock_held : ℕ → List LockRow → Bool
lock_held lock_id [] = false
lock_held lock_id (l ∷ ls) = l.lock_id == lock_id || lock_held lock_id ls

-- DELETE FROM locks WHERE lock_id = ? AND owner = ?
unfoldable pub delete_lock : ℕ → String → List LockRow → List LockRow
delete_lock lock_id owner [] = []
delete_lock lock_id owner (l ∷ ls) =
    let rest = delete_lock lock_id owner ls in
    if l.lock_id == lock_id && str_eq l.owner owner then rest else l ∷ rest

-- the row under the primary key (run_id, step_index)
unfoldable pub find_step : String → ℕ → List StepRow → Option StepRow
find_step run_id index [] = none
find_step run_id index (r ∷ rs) =
    if str_eq r.run_id run_id && r.step_index == index then some r else find_step run_id index rs
