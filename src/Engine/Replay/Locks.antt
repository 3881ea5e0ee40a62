-- ===== src/Engine/Replay/Locks.antt =====
-- engine.py, `Engine.run`: the story in the tables, and the lock, which leaves it alone.
use durable_agent_engine.Base.{
  ℕ, String, ◌≡◌, refl, sym, ap, ◌∙◌, false, Option, none, some, List, Bool-cases, inl, inr, drop,
  eq_iff, some-injective, false≢true,
}
use durable_agent_engine.Exec.{Result, ok, err, Exec, Yields}
use durable_agent_engine.Models.{
  RunStatus, is_terminal, Step, Plan, RunState, contains, done, next_index,
}
use durable_agent_engine.Models.NextIndex.{next_index_reaches}
use durable_agent_engine.Models.Token.{advisory_lock_id}
use durable_agent_engine.Externals.{RunRow}
use durable_agent_engine.Store
use durable_agent_engine.Store.{load_rows, take_lease, release_rows}
use durable_agent_engine.Store.Sql.{
  Tables, find_run, steps_of, update_status, status_conflicts, lock_held, delete_expired,
}
use durable_agent_engine.Store.Connection.{conn_keeps}
use durable_agent_engine.Store.Healthy.{find-replaced, found_id}
use durable_agent_engine.Engine.{Engine, State, on_store, previous_of}
use durable_agent_engine.Engine.Bodies.{store_then}
use durable_agent_engine.Engine.Run.{run_steps, after_release, locked, with_lock, lock_ttl}
use durable_agent_engine.Engine.Replay.Story.{Answers}
use durable_agent_engine.Engine.Replay.Progress.{history, ResumesAt}
use durable_agent_engine.Engine.Replay.Steps.{
  payload, Live, Told, OnStory, underway, failing, complete,
}

module _ {J W : Type 0} (e : Engine J W) (run_id : String) (plan : Plan) (answer : Answers J W)
    (submitted : RunRow) where
  abbrev pub Tells : Tables → Type 0
  Tells = OnStory e run_id plan answer submitted

  abbrev IsLive : Tables → Type 0
  IsLive = Live e run_id plan answer submitted

  IsLive-tables : (t t' : Tables) → t'.runs ≡ t.runs → IsLive t → IsLive t'
  IsLive-tables t t' r l = record {
    status = l.status;
    error = l.error;
    found = rw r l.found;
    active = l.active;
  }

  -- The story is in the runs and the checkpoints only.
  pub Tells-tables :
      (t t' : Tables) → t'.runs ≡ t.runs → t'.step_records ≡ t.step_records → Tells t → Tells t'
  Tells-tables t t' r s (underway l i steps previous p) =
      underway (IsLive-tables t t' r l) i steps previous (rw s p)
  Tells-tables t t' r s (failing l i step status error previous p) =
      failing (IsLive-tables t t' r l) i step status error previous (rw s p)
  Tells-tables t t' r s (complete o) =
      complete (record { found = rw r o.found; tale = rw s o.tale; is_over = o.is_over })

  leased :
      (id : ℕ) (key owner : String) (now ttl : ℕ) (t : Tables)
      → Yields
          (λ (p : Unit {0} × Tables). (p.1.runs ≡ t.runs) × (p.1.step_records ≡ t.step_records))
          (take_lease id key owner now ttl t)
  unfolding take_lease
  leased id key owner now ttl t = elim (Bool-cases (lock_held id (delete_expired id now t.locks))) [
    | inl held ↦ rw held tt
    | inr free ↦ rw free (refl, refl)
  ]

  after_release_tells :
      (r : Result (RunState J)) (r' : Result (Unit {0})) (s : State W)
      → Tells s.db.tables
      → Tells (after_release e r (r', s)).1.db.tables
  unfolding after_release
  after_release_tells r (ok u) s h = h
  after_release_tells r (err error) s h = h

  unlocked :
      (key owner : String) (r : Result (RunState J)) (s : State W)
      → Tells s.db.tables
      → Tells (after_release e r (on_store (Store.release e.externals key owner) s)).1.db.tables
  unfolding Store.release
  unlocked key owner r s h = after_release_tells r _ _ (
      conn_keeps Tells (release_rows (advisory_lock_id e.externals key) owner) s.db h
        (Tells-tables s.db.tables _ refl refl h))

  pub same_payload :
      (row : RunRow) (t : Tables)
      → find_run run_id t.runs ≡ some row
      → Tells t
      → e.externals.loads row.payload ≡ payload e run_id plan answer submitted
  same_payload row t f (underway l i steps previous p) =
      ap (λ (r : RunRow). e.externals.loads r.payload) (some-injective row _ (sym f ∙ l.found))
  same_payload row t f (failing l i step status error previous p) =
      ap (λ (r : RunRow). e.externals.loads r.payload) (some-injective row _ (sym f ∙ l.found))
  same_payload row t f (complete o) =
      ap (λ (r : RunRow). e.externals.loads r.payload) (some-injective row _ (sym f ∙ o.found))

  -- What is loaded is the history of tables that have the same checkpoints.
  pub own_steps :
      (row : RunRow) (t t' : Tables)
      → find_run run_id t.runs ≡ some row
      → t'.step_records ≡ t.step_records
      → Store.step_records e.externals (steps_of row.run_id t.step_records)
        ≡ history e run_id (payload e run_id plan answer submitted) plan answer t'.step_records
  own_steps row t t' f q = rw (q, (eq_iff row.run_id run_id).0 (found_id run_id t.runs row f)) refl

  pub no-Told :
      (row : RunRow) (t : Tables)
      → find_run run_id t.runs ≡ some row
      → is_terminal row.status ≡ false
      → Told e run_id plan answer submitted t
      → ⊥
  no-Told row t f live o = false≢true (
      sym live
      ∙ ap (λ (r : RunRow). is_terminal r.status) (some-injective row _ (sym f ∙ o.found))
      ∙ o.is_over)

  -- The lock touches neither.
  pub with_lock_tells :
      (key : String) (body : Exec (State W) (RunState J)) (s : State W)
      → Tells s.db.tables
      → ((s' : State W)
          → s'.db.tables.runs ≡ s.db.tables.runs
          → s'.db.tables.step_records ≡ s.db.tables.step_records
          → Tells (body s').1.db.tables)
      → Tells (with_lock e key body s).1.db.tables
  unfolding with_lock Store.acquire
  with_lock_tells key body s h k =
      let (owner, w) = e.uuid s.world in
      let id = advisory_lock_id e.externals key in
      store_then (λ _ t. (t.runs ≡ s.db.tables.runs) × (t.step_records ≡ s.db.tables.step_records))
        Tells (take_lease id key owner (e.time w) lock_ttl) (λ _. locked e key owner body)
        (record s { world = w }) h (leased id key owner (e.time w) lock_ttl s.db.tables)
        (λ _ s' p. unlocked key owner (body s').0 (body s').1 (k s' p.0 p.1))

  -- RUNNING is a status under which the run is open.
  pub running_live :
      (P : Tables → Type 0) (t : Tables)
      → IsLive t
      → ((t' : Tables) → t'.step_records ≡ t.step_records → IsLive t' → P t')
      → Yields (λ (p : Unit {0} × Tables). P p.1) (update_status run_id RunStatus.running none t)
  unfolding update_status
  running_live P t l k = elim (Bool-cases (status_conflicts run_id RunStatus.running t.runs)) [
    | inl busy ↦ rw busy tt
    | inr free ↦ rw free (
        k _ refl (record {
          status = RunStatus.running;
          error = none;
          found = find-replaced run_id RunStatus.running none t.runs _ l.found;
          active = refl;
        }))
  ]

  -- What the loop starts from is what the history says.
  pub resume_tells :
      (crash_at : Option ℕ) (state : RunState J) (i : ℕ) (steps : List Step)
      (previous : List (String × J)) (s : State W)
      → state.payload ≡ payload e run_id plan answer submitted
      → state.steps
        ≡ history e run_id
            (payload e run_id plan answer submitted)
            plan
            answer
            s.db.tables.step_records
      → ResumesAt e run_id
          (payload e run_id plan answer submitted)
          plan
          answer
          i
          previous
          s.db.tables.step_records
      → drop i plan.steps ≡ steps
      → Tells
          (run_steps e run_id
            (payload e run_id plan answer submitted)
            crash_at
            i
            steps
            previous
            s).1.db.tables
      → Tells
          (run_steps e run_id state.payload crash_at
            (next_index state)
            (drop (next_index state) plan.steps)
            (previous_of state.steps)
            s).1.db.tables
  resume_tells crash_at state i steps previous s pay same r left h =
      let position : next_index state ≡ i =
        next_index_reaches state i (λ k. ap (λ l. contains k (done l)) same ∙ r.is_done k) in
      rw (position, left, ap previous_of same ∙ r.outputs, pay) h
