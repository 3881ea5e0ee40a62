-- ===== src/Engine/Stages.antt =====
-- engine.py, `Engine.run`: a run in stages, each with what it has made of the world outside.
pub mod Loop
pub mod Runs
pub mod Submit
use durable_agent_engine.Base.{
  ℕ, ◌+◌, String, ◌≡◌, refl, Bool, true, false, Option, none, some, List, [], ◌∷◌, Text, ltb,
  get_elem?, drop,
}
use durable_agent_engine.Exec.{
  Error, simulated_crash, vanished, handler_error, Result, ok, err, Exec, ◌>>=◌, ◌>>◌, raise,
  or_raise,
}
use durable_agent_engine.Exec.Crash.{After, bind-After}
use durable_agent_engine.Models.{
  RunStatus, is_terminal, StepOutcome, Step, Plan, StepRecord, RunState, contains, done,
}
use durable_agent_engine.Externals.{Externals, RunRow}
use durable_agent_engine.Store
use durable_agent_engine.Store.{Db, conn, load_rows}
use durable_agent_engine.Store.Sql.{Tables, is_active, find_run, steps_of, update_status}
use durable_agent_engine.Store.Crash.{Commits, conn-After, update_status-Commits}
use durable_agent_engine.Store.Healthy.{find-replaced}
use durable_agent_engine.Engine.{
  Outcome, returned, escalated, crashed, raised, Engine, State, on_store, reload,
}
use durable_agent_engine.Engine.Replay.Rows.{AreBelow}

module _ {W : Type 0} where
  on_store-After :
      {A : Type 0} (P : A → Tables → Type 0) (C : State W → Type 0) (s : State W) (r : Result A)
      (db : Db)
      → After (λ a (db : Db). P a db.tables) (λ db. C (record s { db = db })) r db
      → After
          (λ a (s' : State W). P a s'.db.tables × (s' ≡ record s { db = s'.db }))
          C
          r
          (record s { db = db })
  on_store-After P C s (ok a) db h = (h, refl)
  on_store-After P C s (err error) db h = h

  -- A call of the store commits, with the world as it is, or raises and is no crash.
  pub call_last :
      {A : Type 0} (P : A → Tables → Type 0) (C : State W → Type 0)
      (body : Tables → Result (A × Tables)) (s : State W)
      → Commits P (body s.db.tables)
      → After
          (λ a (s' : State W). P a s'.db.tables × (s' ≡ record s { db = s'.db }))
          C
          (on_store (conn body) s).0
          (on_store (conn body) s).1
  call_last P C body s h =
      on_store-After P C s (conn body s.db).0 (conn body s.db).1
        (conn-After P (λ db. C (record s { db = db })) body s.db h)

  -- What follows goes on from what it commits.
  pub call_then :
      {A B : Type 0} (P : A → Tables → Type 0) (Q : B → State W → Type 0) (C : State W → Type 0)
      (body : Tables → Result (A × Tables)) (f : A → Exec (State W) B) (s : State W)
      → Commits P (body s.db.tables)
      → ((a : A) (db : Db)
          → P a db.tables
          → After Q C (f a (record s { db = db })).0 (f a (record s { db = db })).1)
      → After Q C ((on_store (conn body) >>= f) s).0 ((on_store (conn body) >>= f) s).1
  call_then P Q C body f s h k =
      bind-After C (λ a (s' : State W). P a s'.db.tables × (s' ≡ record s { db = s'.db })) Q
        (on_store (conn body)) f s (call_last P C body s h) (λ a s' p. rw p.1 (k a s'.db p.0))

module _ {J : Type 0} (x : Externals J) (run_id : String) where
  -- The run is open, and the steps before `i` are done.
  pub record Stage (i : ℕ) (t : Tables) : Type 0 where
    pub row : RunRow
    pub found : find_run run_id t.runs ≡ some row
    pub active : is_active row.status ≡ true
    pub below : AreBelow i (steps_of run_id t.step_records)
    pub is_done :
        (k : ℕ)
        → contains k (done (Store.step_records x (steps_of run_id t.step_records))) ≡ ltb k i

-- `Fine i w`: the world as it is before step `i`; `Right status w`: as it is at the end.
module _ {J W : Type 0} (e : Engine J W) (run_id : String) (plan : Plan) (Fine : ℕ → W → Type 0)
    (Right : RunStatus → W → Type 0) where
  -- The run has ended, and the world is right for its status.
  pub record Over (s : State W) : Type 0 where
    pub row : RunRow
    pub found : find_run run_id s.db.tables.runs ≡ some row
    pub is_over : is_terminal row.status ≡ true
    pub right : Right row.status s.world

  pub data Ready (s : State W) : Type 0 where
    stage : (i : ℕ) → Stage e.externals run_id i s.db.tables → Fine i s.world → Ready s
    over : Over s → Ready s

  abbrev pub Done : RunState J → State W → Type 0
  Done state s = Right state.status s.world × Over s

  -- It returns a state that the world is right for, or crashes at a stage, or raises another exception.
  abbrev pub Goes : Result (RunState J) × State W → Type 0
  Goes (r, s) = After Done Ready r s

  pub found-Goes :
      (found : Option (RunState J)) (s : State W)
      → found ≡ Store.hydrate_if e.externals s.db.tables (find_run run_id s.db.tables.runs)
      → Over s
      → Goes (or_raise {S = State W} found vanished s)
  unfolding Store.hydrate_if Store.hydrate
  found-Goes found s same o = rw (same, o.found) (o.right, o)

  pub reload-Goes : (s : State W) → Over s → Goes (reload e run_id s)
  unfolding reload Store.load load_rows
  reload-Goes s o =
      call_then
        (λ found t.
          (found ≡ Store.hydrate_if e.externals t (find_run run_id t.runs)) × (t ≡ s.db.tables))
        Done Ready (load_rows e.externals run_id) (λ found. or_raise found vanished) s (refl, refl)
        (λ found db p.
          found-Goes found (record s { db = db }) p.0
            (record { row = o.row; found = rw p.1 o.found; is_over = o.is_over; right = o.right }))

  -- A terminal status that the world is right for.
  pub finish-Goes :
      (status : RunStatus) (error : Option Text) (s : State W) (row : RunRow)
      → find_run run_id s.db.tables.runs ≡ some row
      → is_terminal status ≡ true
      → Right status s.world
      → Goes ((on_store (Store.set_status run_id status error) >> reload e run_id) s)
  unfolding Store.set_status
  finish-Goes status error s row f final right =
      call_then
        (λ _ t. find_run run_id t.runs ≡ some (record row { status = status; error = error })) Done
        Ready (update_status run_id status error) (λ _. reload e run_id) s
        (update_status-Commits _ run_id status error s.db.tables
          (find-replaced run_id status error s.db.tables.runs row f))
        (λ _ db found.
          reload-Goes (record s { db = db })
            (record {
              row = record row { status = status; error = error };
              found = found;
              is_over = final;
              right = right;
            }))
