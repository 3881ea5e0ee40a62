-- ===== src/Engine/Replay/Steps.antt =====
-- engine.py, `Engine.run`: each step of a run goes along the story, whatever connections fail.
use durable_agent_engine.Base.{
  ℕ, String, ◌≡◌, refl, ap, ◌∙◌, true, Option, some, List, map, Text, Bool-cases, inl, inr,
}
use durable_agent_engine.Exec.{vanished, Exec, ◌>>◌, or_raise, Yields}
use durable_agent_engine.Exec.Keeps.{or_raise-Keeps}
use durable_agent_engine.Models.{RunStatus, is_terminal, StepOutcome, Step, Plan, RunState}
use durable_agent_engine.Externals.{RunRow}
use durable_agent_engine.Store
use durable_agent_engine.Store.{insert_step, step_row, load_rows}
use durable_agent_engine.Store.Sql.{Tables, is_active, find_run, update_status, status_conflicts}
use durable_agent_engine.Store.Connection.{Commits, conn_keeps}
use durable_agent_engine.Store.Healthy.{find-replaced}
use durable_agent_engine.Engine.{
  Outcome, returned, escalated, crashed, raised, Engine, State, on_store, reload,
}
use durable_agent_engine.Engine.Bodies.{store_then, keep_then}
use durable_agent_engine.Engine.Context.{StepContext}
use durable_agent_engine.Engine.Run.{checkpoint, append_checkpoint, record_failure}
use durable_agent_engine.Engine.Replay.Story.{undated, Answers}
use durable_agent_engine.Engine.Replay.Progress.{
  EndsRun, history, whole, last_word, Reached, Failed,
}

ends-terminal :
    {J : Type 0} (outcome : Outcome J) (status : RunStatus) (error : Text)
    → EndsRun outcome status error
    → is_terminal status ≡ true
unfolding is_terminal
ends-terminal (returned output) status error f = absurd f
ends-terminal (escalated reason) status error f = rw f.0 refl
ends-terminal crashed status error f = absurd f
ends-terminal (raised reason) status error f = rw f.0 refl

module _ {J W : Type 0} (e : Engine J W) (run_id : String) (plan : Plan) (answer : Answers J W)
    (submitted : RunRow) where
  abbrev pub payload : J
  payload = e.externals.loads submitted.payload

  -- The run's row as it was submitted, under a status that is not terminal.
  pub record Live (t : Tables) : Type 0 where
    pub status : RunStatus
    pub error : Option Text
    pub found : find_run run_id t.runs ≡ some (record submitted { status = status; error = error })
    pub active : is_active status ≡ true

  -- The row and the checkpoints that the story ends with.
  pub record Told (t : Tables) : Type 0 where
    pub found :
        find_run run_id t.runs
        ≡ some (record submitted {
          status = (last_word e run_id payload plan answer).0;
          error = (last_word e run_id payload plan answer).1;
        })
    pub tale :
        map undated (history e run_id payload plan answer t.step_records)
        ≡ whole e run_id payload plan answer
    pub is_over : is_terminal (last_word e run_id payload plan answer).0 ≡ true

  -- The tables hold some part of the story.
  pub data OnStory (t : Tables) : Type 0 where
    underway :
        Live t
        → (i : ℕ) (steps : List Step) (previous : List (String × J))
        → Reached e run_id payload plan answer i steps previous t.step_records
        → OnStory t
    failing :
        Live t
        → (i : ℕ) (step : Step) (status : RunStatus) (error : Text) (previous : List (String × J))
        → Failed e run_id payload plan answer i step status error previous t.step_records
        → OnStory t
    complete : Told t → OnStory t

  abbrev pub Q : State W → Type 0
  Q s = OnStory s.db.tables

  pub reload_onstory : (s : State W) → Q s → Q (reload e run_id s).1
  unfolding reload Store.load load_rows
  reload_onstory s h =
      store_then (λ _. OnStory) OnStory (load_rows e.externals run_id)
        (λ state. or_raise state vanished) s h h (λ state s. or_raise-Keeps Q state vanished s)

  -- The last status is set where the checkpoints are complete.
  told_status :
      (status : RunStatus) (error : Option Text) (t : Tables)
      → Live t
      → map undated (history e run_id payload plan answer t.step_records)
        ≡ whole e run_id payload plan answer
      → (status, error) ≡ last_word e run_id payload plan answer
      → is_terminal status ≡ true
      → Commits OnStory (update_status run_id status error t)
  unfolding update_status
  told_status status error t l tale word final =
      elim (Bool-cases (status_conflicts run_id status t.runs)) [
        | inl busy ↦ rw busy tt
        | inr free ↦ rw free (
            complete (record {
              found =
                  find-replaced run_id status error t.runs _ l.found
                  ∙ ap (λ w. some (record submitted { status = w.0; error = w.1 })) word;
              tale = tale;
              is_over = rw⁻¹ word final;
            }))
      ]

  pub set_onstory :
      (status : RunStatus) (error : Option Text) (s : State W)
      → Live s.db.tables
      → map undated (history e run_id payload plan answer s.db.tables.step_records)
        ≡ whole e run_id payload plan answer
      → (status, error) ≡ last_word e run_id payload plan answer
      → is_terminal status ≡ true
      → Q s
      → Q (on_store (Store.set_status run_id status error) s).1
  unfolding Store.set_status
  set_onstory status error s l tale word final h =
      conn_keeps OnStory (update_status run_id status error) s.db h
        (told_status status error s.db.tables l tale word final)

  -- Both calls of an `except` clause, and what follows them.
  pub failure_onstory :
      (i : ℕ) (step : Step) (status : RunStatus) (error : Text) (previous : List (String × J))
      (ctx : StepContext J W) (w : W) (s : State W) (rest : Exec (State W) (RunState J))
      → Q s
      → Yields
          (λ (p : Unit {0} × Tables).
            Live p.1
            × Failed e run_id payload plan answer i step status error previous p.1.step_records)
          (insert_step e.externals
            (checkpoint e run_id i step StepOutcome.failed (e.externals.error_object error) ctx w)
            (e.externals.dumps (e.externals.error_object error))
            s.db.tables)
      → ((s : State W) → Q s → Q (rest s).1)
      → Q ((record_failure e run_id i step status error ctx w >> rest) s).1
  unfolding record_failure append_checkpoint Store.append checkpoint
  failure_onstory i step status error previous ctx w s rest h y k =
      keep_then Q (record_failure e run_id i step status error ctx w) (λ _. rest) s
        (store_then
          (λ _ t.
            Live t
            × Failed e run_id payload plan answer i step status error previous t.step_records)
          OnStory
          (insert_step e.externals
            (checkpoint e run_id i step StepOutcome.failed (e.externals.error_object error) ctx w)
            (e.externals.dumps (e.externals.error_object error)))
          (λ _. on_store (Store.set_status run_id status (some error))) s h y
          (λ _ s p.
            set_onstory status (some error) s p.0 p.1.tale p.1.ends
              (ends-terminal _ status error p.1.fails)
              (failing p.0 i step status error previous p.1)))
        (λ _ s h. k s h)
