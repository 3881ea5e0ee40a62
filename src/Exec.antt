-- ===== src/Exec.antt =====
-- Python's exceptions and mutable state: what a call raises, and the state that it leaves behind.
-- The exceptions are those of store.py and engine.py, and those that the database driver, the JSON
-- codec and a handler let through.
pub mod Keeps
pub mod Crash
use durable_agent_engine.Base.{Text, String, List, Option, none, some}

pub data Error : Type 0 where
  -- RunAlreadyActive, with the run's id
  run_already_active : String → Error
  -- LockUnavailable
  lock_unavailable : Error
  -- sqlite3.IntegrityError, psycopg.errors.IntegrityError
  integrity_error : Error
  -- the connection, a statement or the commit failed
  outage : Error
  -- psycopg.DataError: a text that JSONB does not take, a text with a NUL, a number out of range
  data_error : Error
  -- psycopg.errors.UndefinedTable, InvalidSchemaName: a schema without the tables
  undefined_table : Error
  -- RuntimeError of `drop`
  drop_refused : Error
  -- json.dumps refused a value
  not_serializable : Error
  -- KeyError of `run`, `submit` and `self.handlers[...]`
  unknown_run : Error
  no_handlers : List String → Error
  -- PlanChanged
  plan_changed : Error
  -- SimulatedCrash
  simulated_crash : Error
  -- any other exception of a handler, with the text "Type: message"
  handler_error : Text → Error
  -- Escalation, with its reason
  escalation : Text → Error
  -- RuntimeError: a run vanished
  vanished : Error

pub data Result {ℓ} (A : Type ℓ) : Type ℓ where
  ok : A → Result A
  err : Error → Result A

-- What was written before a raise stays written, so the state comes back beside the error too.
abbrev pub Exec : Type 0 → Type 0 → Type 0
Exec S A = S → Result A × S

module _ {S A B : Type 0} where
  abbrev pub continue : Result A → (A → Exec S B) → Exec S B
  continue (ok a) f s = f a s
  continue (err e) f s = (err e, s)

infixl 5 ◌>>=◌ ◌>>◌
abbrev pub ◌>>=◌ : {S A B : Type 0} → Exec S A → (A → Exec S B) → Exec S B
◌>>=◌ m f s = let (r, s') = m s in continue r f s'

abbrev pub ◌>>◌ : {S A B : Type 0} → Exec S A → Exec S B → Exec S B
m >> k = m >>= λ _. k

module _ {S A : Type 0} where
  abbrev pub pure : A → Exec S A
  pure a s = (ok a, s)

  abbrev pub raise : Error → Exec S A
  raise e s = (err e, s)

-- A dictionary read by key that may fail.
abbrev pub or_raise : {S A : Type 0} → Option A → Error → Exec S A
or_raise none e = raise e
or_raise (some a) e = pure a

-- What a call returns, if it returns, satisfies `P`.
abbrev pub Yields : {A : Type 0} → (A → Type 0) → Result A → Type 0
Yields P (ok a) = P a
Yields P (err e) = Unit
