-- ===== src/Postgres/Requests.antt =====
-- postgres.py and store.py: the calls of the `Store` protocol, as each store answers them.
use durable_agent_engine.Base.{Text, codes, ℕ, ◌<◌, ◌^◌, String, false, ◌≡◌, Option, List, [], ◌∷◌}
use durable_agent_engine.Exec.{Result}
use durable_agent_engine.Models.{RunStatus, RunSpec, RunState, StepRecord}
use durable_agent_engine.Externals.{Externals}
use durable_agent_engine.Store
use durable_agent_engine.Store.Healthy.{}
use durable_agent_engine.Postgres
use durable_agent_engine.Postgres.{Server, Held, any_nul, checked, error_texts}

-- The calls of the `Store` protocol on the tables, and their answers.
pub data Request (J : Type 0) : Type 0 where
  create_run : ℕ → String → RunSpec J → Request J
  load find_by_key : String → Request J
  append : StepRecord J → Request J
  set_status : String → RunStatus → Option Text → Request J

pub data Answer (J : Type 0) : Type 0 where
  created : Result (RunState J) → Answer J
  found : Result (Option (RunState J)) → Answer J
  done : Result (Unit {0}) → Answer J

-- The call has no NUL in its texts, and its numbers go into 32 bits: what Postgres takes and SQLite
-- takes as well.
abbrev pub Fits : {J : Type 0} → Request J → Type 0
Fits (Request.create_run now run_id spec) =
    any_nul (codes run_id ∷ codes spec.idempotency_key ∷ codes spec.plan.name ∷ []) ≡ false
Fits (Request.load run_id) = any_nul (codes run_id ∷ []) ≡ false
Fits (Request.find_by_key key) = any_nul (codes key ∷ []) ≡ false
Fits (Request.append r) =
    (any_nul (codes r.run_id ∷ codes r.name ∷ []) ≡ false)
    × (r.index < 2 ^ 31)
    × (r.attempts < 2 ^ 31)
    × (r.tokens_used < 2 ^ 31)
Fits (Request.set_status run_id status error) = any_nul (codes run_id ∷ error_texts error) ≡ false

abbrev pub AllFit : {J : Type 0} → List (Request J) → Type 0
AllFit [] = Unit
AllFit (c ∷ cs) = Fits c × AllFit cs

module _ {J : Type 0} (x : Externals J) where
  unfoldable pub sqlite_answer : Request J → Store.Db → Answer J × Store.Db
  sqlite_answer (Request.create_run now run_id spec) db =
      let (r, db') = Store.create_run x now run_id spec db in (Answer.created r, db')
  sqlite_answer (Request.load run_id) db =
      let (r, db') = Store.load x run_id db in (Answer.found r, db')
  sqlite_answer (Request.find_by_key key) db =
      let (r, db') = Store.find_by_key x key db in (Answer.found r, db')
  sqlite_answer (Request.append step) db =
      let (r, db') = Store.append x step db in (Answer.done r, db')
  sqlite_answer (Request.set_status run_id status error) db =
      let (r, db') = Store.set_status run_id status error db in (Answer.done r, db')

  unfoldable pub sqlite_answers : List (Request J) → Store.Db → List (Answer J) × Store.Db
  sqlite_answers [] db = ([], db)
  sqlite_answers (c ∷ cs) db =
      let (a, db') = sqlite_answer c db in
      let (as', last) = sqlite_answers cs db' in (a ∷ as', last)

module _ {J : Type 0} (x : Externals J) (server : Server J) where
  unfoldable pub postgres_answer : Request J → Postgres.Db J → Answer J × Postgres.Db J
  postgres_answer (Request.create_run now run_id spec) db =
      let (r, db') = Postgres.create_run x server now run_id spec db in (Answer.created r, db')
  postgres_answer (Request.load run_id) db =
      let (r, db') = Postgres.load run_id db in (Answer.found r, db')
  postgres_answer (Request.find_by_key key) db =
      let (r, db') = Postgres.find_by_key x server key db in (Answer.found r, db')
  postgres_answer (Request.append step) db =
      let (r, db') = Postgres.append x server step db in (Answer.done r, db')
  postgres_answer (Request.set_status run_id status error) db =
      let (r, db') = Postgres.set_status run_id status error db in (Answer.done r, db')

  unfoldable pub postgres_answers :
      List (Request J) → Postgres.Db J → List (Answer J) × Postgres.Db J
  postgres_answers [] db = ([], db)
  postgres_answers (c ∷ cs) db =
      let (a, db') = postgres_answer c db in
      let (as', last) = postgres_answers cs db' in (a ∷ as', last)
