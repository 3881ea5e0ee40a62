-- ===== src/Engine/Stages/Submit.antt =====
-- engine.py, `Engine.submit`: the first stage of a run, and what a later submission leaves of a run.
use durable_agent_engine.Base.{
  ℕ, String, ◌≡◌, refl, true, false, some, List, [], ◌∷◌, str_eq, eq_iff, eq_refl, sym, ◌∙◌, subst,
  false≢true, Bool-cases, inl, inr, arith,
}
use durable_agent_engine.Exec.{no_handlers, Result, ok, err, Exec, raise}
use durable_agent_engine.Exec.Keeps.{Keeps, Leaves}
use durable_agent_engine.Exec.Crash.{After}
use durable_agent_engine.Models.{RunSpec, RunState, contains, done}
use durable_agent_engine.Externals.{RunRow}
use durable_agent_engine.Store
use durable_agent_engine.Store.{Db, pending_row, step_records}
use durable_agent_engine.Store.Sql.{Tables, run_id_taken, find_run, steps_of}
use durable_agent_engine.Store.Healthy.{taken-find}
use durable_agent_engine.Store.Creates.{Made, create_run-Creates, create_run-Keeps}
use durable_agent_engine.Engine.{Engine, State, missing_handlers, submit_run, submit}
use durable_agent_engine.Engine.Stages.{Stage}

-- A new row hides none that is there.
find_run-cons :
    (id : String) (r row : RunRow) (rs : List RunRow)
    → run_id_taken r.run_id rs ≡ false
    → find_run id rs ≡ some row
    → find_run id (r ∷ rs) ≡ some row
unfolding find_run
find_run-cons id r row rs new f = elim (Bool-cases (str_eq r.run_id id)) [
  | inl same ↦ absurd (
      false≢true (
        sym new
        ∙ subst (λ u. run_id_taken u rs ≡ true) (sym ((eq_iff r.run_id id).0 same))
            (taken-find id rs row f)))
  | inr other ↦ rw other f
]

module _ {J W : Type 0} (e : Engine J W) where
  -- A submission leaves the stage of a run as it is.
  module _ (run_id : String) (i : ℕ) where
    abbrev At : Tables → Type 0
    At = Stage e.externals run_id i

    new_row :
        (r : RunRow) (t : Tables)
        → run_id_taken r.run_id t.runs ≡ false
        → At t
        → At (record t { runs = r ∷ t.runs })
    new_row r t new p = record {
      row = p.row;
      found = find_run-cons run_id r p.row t.runs new p.found;
      active = p.active;
      below = p.below;
      is_done = p.is_done;
    }

    found_keeps :
        (spec : RunSpec J) (missing : List String)
        → let submitted : Exec (State W) (RunState J) = elim missing [
          | [] ↦ submit_run e spec
          | name ∷ names ↦ raise (no_handlers (name ∷ names))
        ] in
          Keeps (λ (s : State W). At s.db.tables) submitted
    unfolding submit_run
    found_keeps spec [] s h =
        let (id, w) = e.uuid s.world in
        create_run-Keeps e.externals At new_row (e.time w) id spec s.db h
    found_keeps spec (name ∷ names) s h = h

    pub submit_keeps_stage :
        (spec : RunSpec J) → Keeps (λ (s : State W). At s.db.tables) (submit e spec)
    unfolding submit
    submit_keeps_stage spec s h = found_keeps spec (missing_handlers e spec.plan.steps) s h

  Made-Stage :
      (now : ℕ) (id : String) (spec : RunSpec J) (old t : Tables)
      → old.step_records ≡ []
      → Made e.externals now id spec old t
      → Stage e.externals id 0 t
  unfolding find_run steps_of step_records done contains
  Made-Stage now id spec old t bare (payload, same) = record {
    row = pending_row e.externals now id spec payload;
    found = rw (same, eq_refl id) refl;
    active = refl;
    below = rw (same, bare) tt;
    is_done = λ k. rw (same, bare) (ground arith);
  }

  created-After :
      (now : ℕ) (id : String) (spec : RunSpec J) (old : Tables) (r : Result (RunState J)) (db : Db)
      (w : W)
      → old.step_records ≡ []
      → Leaves
          (λ (state : RunState J) (db : Db).
            (state.run_id ≡ id) × Made e.externals now id spec old db.tables)
          (λ db. Unit {0})
          r
          db
      → After
          (λ (state : RunState J) (s : State W). Stage e.externals state.run_id 0 s.db.tables)
          (λ s. Unit)
          r
          (record { db = db; world = w })
  created-After now id spec old (ok state) db w bare (same, made) =
      rw same (Made-Stage now id spec old db.tables bare made)
  created-After now id spec old (err error) db w bare h = λ crash. tt

  abbrev Begins : Result (RunState J) × State W → Type 0
  Begins (r, s) =
      After (λ (state : RunState J) (s : State W). Stage e.externals state.run_id 0 s.db.tables)
        (λ s. Unit) r s

  found-Begins :
      (spec : RunSpec J) (missing : List String) (s : State W)
      → missing ≡ []
      → s.db.tables.step_records ≡ []
      → let submitted : Exec (State W) (RunState J) = elim missing [
        | [] ↦ submit_run e spec
        | name ∷ names ↦ raise (no_handlers (name ∷ names))
      ] in
        Begins (submitted s)
  unfolding submit_run
  found-Begins spec [] s all bare =
      let (id, w) = e.uuid s.world in
      created-After (e.time w) id spec s.db.tables
        (Store.create_run e.externals (e.time w) id spec s.db).0
        (Store.create_run e.externals (e.time w) id spec s.db).1 w bare
        (create_run-Creates e.externals (e.time w) id spec s.db)
  found-Begins spec (name ∷ names) s all bare = cc

  -- On tables without checkpoints: where submit returns, its run is at the first stage.
  pub submit-Begins :
      (spec : RunSpec J) (s : State W)
      → missing_handlers e spec.plan.steps ≡ []
      → s.db.tables.step_records ≡ []
      → Begins (submit e spec s)
  unfolding submit
  submit-Begins spec s all bare = found-Begins spec (missing_handlers e spec.plan.steps) s all bare
