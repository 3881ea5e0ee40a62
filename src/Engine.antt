-- ===== src/Engine.antt =====
-- src/durable_agent/engine.py: `Engine`, over the tables of a store and the world outside (the
-- provider, the handlers, the clock and the source of uuids).
pub mod Context
pub mod Run
pub mod Frame
pub mod Safety
pub mod Asking
pub mod Answers
pub mod Resume
pub mod Previous
pub mod Endings
pub mod Liveness
pub mod Refusals
pub mod Hazards
pub mod Attach
pub mod History
pub mod Recovery
pub mod World
pub mod FirstTry
pub mod Healed
pub mod Interrupted
pub mod Bodies
pub mod Replay
pub mod Stages
use durable_agent_engine.Base.{
  ℕ, zero, suc, ◌+◌, String, Bool, true, false, ◌&&◌, Option, none, some, List, [], ◌∷◌, ◌++◌, ◌==◌,
  str_eq, Text, codes, get_elem?, drop, if◌then◌else◌,
}
use Prim.Native.String
use durable_agent_engine.Exec.{
  Error, run_already_active, unknown_run, no_handlers, plan_changed, simulated_crash, handler_error,
  vanished, Result, ok, err, Exec, ◌>>=◌, ◌>>◌, continue, pure, raise, or_raise,
}
use durable_agent_engine.Models.{
  RunStatus, is_terminal, StepOutcome, Step, Plan, RunSpec, StepRecord, RunState, next_index,
}
use durable_agent_engine.Externals.{Externals}
use durable_agent_engine.Store
use durable_agent_engine.Store.{Db}
use durable_agent_engine.Providers.{Provider}
use Context.{StepContext, tokens_used, attempts, was_healed}

-- How a handler ends: its output, an Escalation, SimulatedCrash, or any other exception as the text
-- "Type: message".
pub data Outcome (J : Type 0) : Type 0 where
  returned : J → Outcome J
  escalated : Text → Outcome J
  crashed : Outcome J
  raised : Text → Outcome J

-- A handler is given its context and the world, and leaves both; it may have changed the dicts of the
-- context in place.
abbrev pub Handler : Type 0 → Type 0 → Type 0
Handler J W = StepContext J W → W → Outcome J × StepContext J W × W

-- The fields of `Engine`, and what its methods read from the world: `uuid.uuid4().hex`, the clocks
-- of the process and of the database, in milliseconds.
pub record Engine (J W : Type 0) : Type 0 where
  pub externals : Externals J
  pub provider : Provider W
  pub handlers : String → Option (Handler J W)
  pub uuid : W → String × W
  pub time : W → ℕ

pub record State (W : Type 0) : Type 0 where
  pub db : Db
  pub world : W

-- a call of the store
abbrev pub on_store : {A W : Type 0} → Exec Db A → Exec (State W) A
on_store m s = let (r, db') = m s.db in (r, record s { db = db' })

unfoldable pub names_step : Option Step → String → Bool
names_step none name = false
names_step (some step) name = str_eq step.name name

module _ {J : Type 0} where
  -- `previous[name] = output`
  unfoldable pub dict_put : String → J → List (String × J) → List (String × J)
  dict_put name output [] = (name, output) ∷ []
  dict_put name output ((n, o) ∷ d) =
      if str_eq n name then (n, output) ∷ d else (n, o) ∷ dict_put name output d

  unfoldable pub outputs_from : List (String × J) → List (StepRecord J) → List (String × J)
  outputs_from d [] = d
  outputs_from d (r ∷ rs) = outputs_from (dict_put r.name r.output d) rs

  -- `{s.name: s.output for s in state.steps}`
  unfoldable pub previous_of : List (StepRecord J) → List (String × J)
  unfolding outputs_from dict_put
  previous_of = outputs_from []

  -- _assert_plan_matches_history: false where it raises PlanChanged
  unfoldable pub plan_matches_history : List Step → List (StepRecord J) → Bool
  unfolding names_step
  plan_matches_history steps [] = true
  plan_matches_history steps (r ∷ rs) =
      names_step (get_elem? steps r.index) r.name && plan_matches_history steps rs

-- `crash_at is not None and index == crash_at`
abbrev pub crashes_at : Option ℕ → ℕ → Bool
crashes_at none index = false
crashes_at (some k) index = index == k

module _ {J W : Type 0} (e : Engine J W) where
  unfoldable pub missing_handlers : List Step → List String
  missing_handlers [] = []
  missing_handlers (step ∷ steps) =
      let rest = missing_handlers steps in
      elim (e.handlers step.name) [ none ↦ step.name ∷ rest | some h ↦ rest ]

  submit_run : RunSpec J → Exec (State W) (RunState J)
  submit_run spec s =
      let (run_id, w) = e.uuid s.world in
      on_store (Store.create_run e.externals (e.time w) run_id spec) (record s { world = w })

  unfoldable pub submit : RunSpec J → Exec (State W) (RunState J)
  unfolding missing_handlers submit_run
  submit spec = elim (missing_handlers spec.plan.steps) [
    | [] ↦ submit_run spec
    | name ∷ names ↦ raise (no_handlers (name ∷ names))
  ]

  attach : Result (RunState J) → Exec (State W) (RunState J)
  attach (ok state) = pure state
  attach (err (run_already_active run_id)) =
      on_store (Store.load e.externals run_id) >>= λ existing. or_raise existing vanished
  attach (err error) = raise error

  unfoldable pub submit_or_attach : RunSpec J → Exec (State W) (RunState J)
  unfolding attach
  submit_or_attach spec s = let (r, s') = submit spec s in attach r s'

  unfoldable pub reload : String → Exec (State W) (RunState J)
  reload run_id = on_store (Store.load e.externals run_id) >>= λ state. or_raise state vanished
