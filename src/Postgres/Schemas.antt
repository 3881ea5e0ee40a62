-- ===== src/Postgres/Schemas.antt =====
-- postgres.py: a store's connection string and its schema, `setup` and `drop`, and several stores that
-- share one database.
pub mod Apart
use durable_agent_engine.Base.{
  Text, ℕ, String, Bool, true, false, Option, none, some, List, [], ◌∷◌, ◌++◌, codes, decimal,
  text_eq, if◌then◌else◌,
}
use durable_agent_engine.Exec.{
  Error, outage, data_error, undefined_table, drop_refused, not_serializable, Result, ok, err,
}
use durable_agent_engine.Externals.{Externals}
use durable_agent_engine.Models.{RunSpec, StepRecord}
use durable_agent_engine.Postgres.{Fate, Server, schema_accepted, any_nul, error_texts}
use durable_agent_engine.Postgres.Sql.{Tables}
use durable_agent_engine.Postgres.Requests.{Request, Answer, postgres_answer}

abbrev pub default_host : Text
default_host = codes "127.0.0.1"

abbrev pub default_port : ℕ
default_port = 55433

abbrev pub default_user : Text
default_user = codes "durable"

abbrev pub default_db : Text
default_db = codes "durable_test"

unfoldable pub default_dsn : Text
default_dsn =
    codes "postgresql://"
    ++ (default_user
        ++ (codes "@"
            ++ (default_host
                ++ (codes ":" ++ (decimal default_port ++ (codes "/" ++ default_db))))))

-- `os.environ.get("DURABLE_AGENT_DSN", default_dsn())`
unfoldable pub dsn_from_env : (String → Option Text) → Text
unfolding default_dsn
dsn_from_env environ = elim (environ "DURABLE_AGENT_DSN") [ none ↦ default_dsn | some dsn ↦ dsn ]

-- `dsn or dsn_from_env()`
abbrev or_env : (String → Option Text) → Option Text → Text
or_env environ (some (c ∷ dsn)) = c ∷ dsn
or_env environ _ = dsn_from_env environ

-- The fields of `PostgresStore`; the name of the schema is its UTF-8 bytes.
pub record PostgresStore : Type 0 where
  pub dsn : Text
  pub schema : List ℕ

-- `PostgresStore(dsn, schema)`: `none` is its ValueError.
unfoldable pub new_store : (String → Option Text) → Option Text → List ℕ → Option PostgresStore
unfolding schema_accepted dsn_from_env
new_store environ dsn schema =
    if schema_accepted schema
    then some (record { dsn = or_env environ dsn; schema = schema })
    else none

-- "public", in UTF-8
abbrev pub public : List ℕ
public = codes "public"

-- A schema of the database: it is not there, or the script has not been run on it, or it has the tables.
pub data Slot (J : Type 0) : Type 0 where
  absent bare : Slot J
  holds : Tables J → Slot J

abbrev pub no_rows : {J : Type 0} → Tables J
no_rows = record { runs = []; step_records = [] }

-- What a store is told to do.
pub data Job (J : Type 0) : Type 0 where
  setup drop : Job J
  call : Request J → Job J

abbrev first_fate : List Fate → Fate
first_fate [] = Fate.answered
first_fate (fate ∷ fates) = fate

abbrev later_fates : List Fate → List Fate
later_fates [] = []
later_fates (fate ∷ fates) = fates

module _ {J : Type 0} where
  -- CREATE SCHEMA IF NOT EXISTS
  unfoldable pub create_schema : Slot J → Result (Unit {0}) × Slot J
  create_schema absent = (ok tt, bare)
  create_schema bare = (ok tt, bare)
  create_schema (holds t) = (ok tt, holds t)

  -- SCHEMA: each of its statements is CREATE ... IF NOT EXISTS
  unfoldable pub run_script : Slot J → Result (Unit {0}) × Slot J
  run_script absent = (err undefined_table, absent)
  run_script bare = (ok tt, holds no_rows)
  run_script (holds t) = (ok tt, holds t)

  -- DROP SCHEMA IF EXISTS ... CASCADE
  unfoldable pub drop_schema : Slot J → Result (Unit {0}) × Slot J
  drop_schema slot = (ok tt, absent)

  -- one statement of a script, under autocommit
  unfoldable pub sent :
      (Slot J → Result (Unit {0}) × Slot J) → Fate → Slot J → Result (Unit {0}) × Slot J
  sent statement Fate.answered slot = statement slot
  sent statement Fate.lost slot = (err outage, slot)
  sent statement Fate.unanswered slot = (err outage, (statement slot).1)

  after_schema : List Fate → Result (Unit {0}) × Slot J → Result (Unit {0}) × Slot J
  unfolding sent run_script
  after_schema fates (ok _, slot) = sent run_script (first_fate fates) slot
  after_schema fates (err error, slot) = (err error, slot)

  unfoldable pub setup_slot : List ℕ → List Fate → Slot J → Result (Unit {0}) × Slot J
  unfolding after_schema create_schema
  setup_slot schema fates slot =
      if text_eq schema public
      then sent run_script (first_fate fates) slot
      else after_schema (later_fates fates) (sent create_schema (first_fate fates) slot)

  unfoldable pub drop_slot : List ℕ → List Fate → Slot J → Result (Unit {0}) × Slot J
  unfolding sent drop_schema
  drop_slot schema fates slot =
      if text_eq schema public
      then (err drop_refused, slot)
      else sent drop_schema (first_fate fates) slot

-- A call that raises.
unfoldable pub raised_answer : {J : Type 0} → Request J → Error → Answer J
raised_answer (Request.create_run now run_id spec) error = Answer.created (err error)
raised_answer (Request.load run_id) error = Answer.found (err error)
raised_answer (Request.find_by_key key) error = Answer.found (err error)
raised_answer (Request.append step) error = Answer.done (err error)
raised_answer (Request.set_status run_id status e) error = Answer.done (err error)

module _ {J : Type 0} (x : Externals J) (server : Server J) where
  -- a statement on a table that is not there, if psycopg sends it
  unsent : List Text → Error
  unsent texts = if any_nul texts then data_error else undefined_table

  abbrev unless_encoded : J → List Text → Error
  unless_encoded value texts = elim (x.dumps value) [
    | none ↦ not_serializable
    | some text ↦ unsent texts
  ]

  -- What a call meets in a schema without the tables: the value and the texts are encoded before they
  -- are sent.
  unfoldable pub missing_tables : Request J → Fate → Error
  unfolding unsent
  missing_tables (Request.create_run now run_id spec) Fate.answered =
      unless_encoded spec.payload
        (codes run_id ∷ codes spec.idempotency_key ∷ codes spec.plan.name ∷ [])
  missing_tables (Request.append step) Fate.answered =
      unless_encoded step.output (codes step.run_id ∷ codes step.name ∷ [])
  missing_tables (Request.load run_id) Fate.answered = unsent (codes run_id ∷ [])
  missing_tables (Request.find_by_key key) Fate.answered = unsent (codes key ∷ [])
  missing_tables (Request.set_status run_id status error) Fate.answered =
      unsent (codes run_id ∷ error_texts error)
  missing_tables _ _ = outage

  unfoldable pub call_slot : Request J → List Fate → Slot J → Answer J × Slot J
  unfolding missing_tables raised_answer
  call_slot request fates (holds t) =
      let (answer, db) =
        postgres_answer x server request (record { tables = t; held = []; fates = fates }) in
      (answer, holds db.tables)
  call_slot request fates absent =
      (raised_answer request (missing_tables request (first_fate fates)), absent)
  call_slot request fates bare =
      (raised_answer request (missing_tables request (first_fate fates)), bare)

  unfoldable pub slot_act : List ℕ → Job J → List Fate → Slot J → Answer J × Slot J
  unfolding setup_slot drop_slot call_slot
  slot_act schema setup fates slot =
      let (r, slot') = setup_slot schema fates slot in (Answer.done r, slot')
  slot_act schema drop fates slot =
      let (r, slot') = drop_slot schema fates slot in (Answer.done r, slot')
  slot_act schema (call request) fates slot = call_slot request fates slot

-- A store, by the name of its schema, is told to do something; the fates of its requests.
pub record Act (J : Type 0) : Type 0 where
  pub schema : List ℕ
  pub job : Job J
  pub fates : List Fate

-- The schemas of a database, by the names that it gives them.
abbrev pub Schemas : Type 0 → Type 0
Schemas J = List ℕ → Slot J

-- `ident` is the name that the database gives to an identifier, and `user` the name of the role that
-- the stores connect as.
module _ {J : Type 0} (x : Externals J) (server : Server J) (ident : List ℕ → List ℕ)
    (user : List ℕ) where
  -- A store of "public" sets no search_path, so that of the server stands, `"$user", public`: a table
  -- is created in the first of the two schemas that is there, and found in the first that has it. The
  -- second argument is the schema that has the user's name.
  unfoldable pub default_path : Job J → Slot J → List ℕ
  default_path setup absent = public
  default_path setup bare = user
  default_path setup (holds t) = user
  default_path drop slot = public
  default_path (call request) absent = public
  default_path (call request) bare = public
  default_path (call request) (holds t) = user

  -- the schema on which a store acts
  unfoldable pub resolved : Act J → Schemas J → List ℕ
  unfolding default_path
  resolved a d = if text_eq a.schema public then default_path a.job (d user) else ident a.schema

  abbrev pub slot_of : Act J → Schemas J → Answer J × Slot J
  slot_of a d = slot_act x server a.schema a.job a.fates (d (resolved a d))

  unfoldable pub act : Act J → Schemas J → Schemas J
  unfolding slot_act
  act a d name = if text_eq name (resolved a d) then (slot_of a d).1 else d name

  unfoldable pub after_acts : List (Act J) → Schemas J → Schemas J
  unfolding act
  after_acts [] d = d
  after_acts (a ∷ acts) d = after_acts acts (act a d)

  -- The answers to the stores of one schema.
  unfoldable pub answers_to : List ℕ → List (Act J) → Schemas J → List (Answer J)
  unfolding act
  answers_to schema [] d = []
  answers_to schema (a ∷ acts) d =
      let rest = answers_to schema acts (act a d) in
      if text_eq a.schema schema then (slot_of a d).0 ∷ rest else rest

-- The acts of the stores of one schema.
unfoldable pub acts_of : {J : Type 0} → List ℕ → List (Act J) → List (Act J)
acts_of schema [] = []
acts_of schema (a ∷ acts) =
    let rest = acts_of schema acts in if text_eq a.schema schema then a ∷ rest else rest
