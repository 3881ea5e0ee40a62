-- ===== src/Postgres/Sql.antt =====
-- postgres.py, SCHEMA and the statements that the methods of `PostgresStore` run on it. A JSONB column
-- holds a value, not a text.
use durable_agent_engine.Base.{
  Text, ℕ, String, Bool, false, ◌&&◌, ◌||◌, not, Option, none, some, List, [], ◌∷◌, str_eq, leb,
  ◌==◌, ◌^◌, if◌then◌else◌,
}
use durable_agent_engine.Exec.{integrity_error, data_error, Result, ok, err}
use durable_agent_engine.Models.{RunStatus, StepOutcome}
use durable_agent_engine.Store.Sql.{is_active}

pub record RunRow (J : Type 0) : Type 0 where
  pub run_id : String
  pub idempotency_key : String
  pub plan_name : String
  pub payload : J
  pub status : RunStatus
  pub error : Option Text
  pub created_at : ℕ

-- The three numbers are INTEGER columns; `insert_step` refuses what does not go into one.
pub record StepRow (J : Type 0) : Type 0 where
  pub run_id : String
  pub step_index : ℕ
  pub name : String
  pub outcome : StepOutcome
  pub attempts : ℕ
  pub output : J
  pub tokens_used : ℕ
  pub created_at : ℕ

pub record Tables (J : Type 0) : Type 0 where
  pub runs : List (RunRow J)
  pub step_records : List (StepRow J)

module _ {J : Type 0} where
  unfoldable pub run_id_taken : String → List (RunRow J) → Bool
  run_id_taken run_id [] = false
  run_id_taken run_id (r ∷ rs) = str_eq r.run_id run_id || run_id_taken run_id rs

  -- whether uq_active_run holds the key for a run other than `run_id`
  unfoldable pub key_active : String → String → List (RunRow J) → Bool
  key_active key run_id [] = false
  key_active key run_id (r ∷ rs) =
      (is_active r.status && str_eq r.idempotency_key key && not (str_eq r.run_id run_id))
      || key_active key run_id rs

  -- SELECT * FROM runs WHERE run_id = %s
  unfoldable pub find_run : String → List (RunRow J) → Option (RunRow J)
  find_run run_id [] = none
  find_run run_id (r ∷ rs) = if str_eq r.run_id run_id then some r else find_run run_id rs

  -- the rows that find_by_key orders
  unfoldable pub rows_of_key : String → List (RunRow J) → List (RunRow J)
  rows_of_key key [] = []
  rows_of_key key (r ∷ rs) =
      if str_eq r.idempotency_key key then r ∷ rows_of_key key rs else rows_of_key key rs

  -- INSERT INTO runs, under the primary key and the partial unique index
  unfoldable pub insert_run : RunRow J → Tables J → Result (Unit {0} × Tables J)
  unfolding run_id_taken key_active
  insert_run r t =
      if run_id_taken r.run_id t.runs
      then err integrity_error
      else if is_active r.status && key_active r.idempotency_key r.run_id t.runs
      then err integrity_error
      else ok (tt, record t { runs = r ∷ t.runs })

  unfoldable pub replace_run : String → RunStatus → Option Text → List (RunRow J) → List (RunRow J)
  replace_run run_id status error [] = []
  replace_run run_id status error (r ∷ rs) =
      if str_eq r.run_id run_id
      then record r { status = status; error = error } ∷ replace_run run_id status error rs
      else r ∷ replace_run run_id status error rs

  -- the partial unique index, asked before the row of `run_id` takes the status
  unfoldable pub status_conflicts : String → RunStatus → List (RunRow J) → Bool
  unfolding find_run key_active
  status_conflicts run_id status runs = elim (find_run run_id runs) [
    | none ↦ false
    | some r ↦ is_active status && key_active r.idempotency_key run_id runs
  ]

  -- UPDATE runs SET status = %s, error = %s WHERE run_id = %s
  unfoldable pub update_status :
      String → RunStatus → Option Text → Tables J → Result (Unit {0} × Tables J)
  unfolding status_conflicts replace_run
  update_status run_id status error t =
      if status_conflicts run_id status t.runs
      then err integrity_error
      else ok (tt, record t { runs = replace_run run_id status error t.runs })

  -- whether the primary key (run_id, step_index) is there
  unfoldable pub has_step : String → ℕ → List (StepRow J) → Bool
  has_step run_id index [] = false
  has_step run_id index (r ∷ rs) =
      (str_eq r.run_id run_id && r.step_index == index) || has_step run_id index rs

  -- whether a value does not go into an INTEGER column, which has 32 bits
  unfoldable pub out_of_range : StepRow J → Bool
  out_of_range r =
      leb (2 ^ 31) r.step_index || leb (2 ^ 31) r.attempts || leb (2 ^ 31) r.tokens_used

  -- INSERT INTO step_records ... ON CONFLICT (run_id, step_index) DO NOTHING
  unfoldable pub insert_step : StepRow J → Tables J → Result (Unit {0} × Tables J)
  unfolding has_step run_id_taken out_of_range
  insert_step r t =
      if out_of_range r
      then err data_error
      else if has_step r.run_id r.step_index t.step_records
      then ok (tt, t)
      else if run_id_taken r.run_id t.runs
      then ok (tt, record t { step_records = r ∷ t.step_records })
      else err integrity_error

  -- ORDER BY step_index, as an insertion sort
  unfoldable pub insert_sorted : StepRow J → List (StepRow J) → List (StepRow J)
  insert_sorted r [] = r ∷ []
  insert_sorted r (s ∷ ss) =
      if leb r.step_index s.step_index then r ∷ s ∷ ss else s ∷ insert_sorted r ss

  -- SELECT * FROM step_records WHERE run_id = %s ORDER BY step_index
  unfoldable pub steps_of : String → List (StepRow J) → List (StepRow J)
  unfolding insert_sorted
  steps_of run_id [] = []
  steps_of run_id (r ∷ rs) =
      let rest = steps_of run_id rs in if str_eq r.run_id run_id then insert_sorted r rest else rest
