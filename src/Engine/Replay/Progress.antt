-- ===== src/Engine/Replay/Progress.antt =====
-- engine.py, `Engine.run`: how far a run has come along the story of an uninterrupted one.
use durable_agent_engine.Base.{
  ℕ, ◌+◌, String, ◌≡◌, refl, ap, ◌∙◌, true, false, ◌||◌, Option, some, List, [], ◌∷◌, ◌++◌, map,
  Text, ◌==◌, ltb, arith, drop, drop-get_elem?, eq_refl, if_cases,
}
use durable_agent_engine.Models.{
  RunStatus, StepOutcome, is_success, Step, Plan, StepRecord, contains, done,
}
use durable_agent_engine.Externals.{RoundTrips}
use durable_agent_engine.Store.{step_row, step_record, step_records}
use durable_agent_engine.Store.Sql.{StepRow, steps_of, has_step}
use durable_agent_engine.Engine.{
  Outcome, returned, escalated, raised, Engine, dict_put, previous_of,
}
use durable_agent_engine.Engine.Context.{StepContext}
use durable_agent_engine.Engine.Run.{call_handler, step_context, checkpoint, success_outcome}
use durable_agent_engine.Engine.Replay.Story.{undated, Answers, told, tell, judge, story, verdict}
use durable_agent_engine.Engine.Replay.Rows.{
  AreBelow, below_last, steps_of_last, records_last, outputs_last, done_last, done_failed,
  undated_last,
}

-- A handler's end that ends the run, with the status and the error that it leaves.
abbrev pub EndsRun : {J : Type 0} → Outcome J → RunStatus → Text → Type 0
EndsRun (escalated reason) status error = (status ≡ RunStatus.escalated) × (error ≡ reason)
EndsRun (raised reason) status error = (status ≡ RunStatus.failed) × (error ≡ reason)
EndsRun _ status error = ⊥

module _ {J W : Type 0} (e : Engine J W) (answer : Answers J W) where
  -- What a handler answers depends on its context only, and it leaves the dicts `payload` and
  -- `previous` as they are; it may change the world.
  abbrev pub IsSteady : Type 0
  IsSteady =
      (step : Step) (ctx : StepContext J W) (w : W)
      → (w' : W) × (call_handler e step ctx w ≡ ((answer step ctx).0, (answer step ctx).1, w'))
        × ((answer step ctx).1.payload ≡ ctx.payload)
        × ((answer step ctx).1.previous ≡ ctx.previous)

  -- A step that fails does so again when `previous` holds its own failure.
  abbrev pub IsStubborn : Type 0
  IsStubborn =
      (step : Step) (ctx : StepContext J W) (status : RunStatus) (error : Text)
      → EndsRun (answer step ctx).0 status error
      → EndsRun
          (answer step (record ctx {
            previous = dict_put step.name (e.externals.error_object error) ctx.previous;
          })).0
          status error

module _ {J W : Type 0} (e : Engine J W) (run_id : String) (payload : J) (plan : Plan)
    (answer : Answers J W) where
  -- The run's history, as `load` reads it.
  abbrev pub history : List StepRow → List (StepRecord J)
  history rows = step_records e.externals (steps_of run_id rows)

  abbrev pub whole : List (StepRecord J)
  whole = story e run_id payload answer 0 plan.steps []

  abbrev pub last_word : RunStatus × Option Text
  last_word = verdict e run_id payload answer 0 plan.steps []

  -- The resume position and the dictionary `previous` of the history.
  pub record ResumesAt (i : ℕ) (previous : List (String × J)) (rows : List StepRow) : Type 0 where
    pub outputs : previous_of (history rows) ≡ previous
    pub is_done : (k : ℕ) → contains k (done (history rows)) ≡ ltb k i

  -- The steps before `i` are done, as the story has them, and `steps` are left.
  pub record Reached (i : ℕ) (steps : List Step) (previous : List (String × J))
      (rows : List StepRow) : Type 0 where
    pub below : AreBelow i (steps_of run_id rows)
    pub tale : map undated (history rows) ++ story e run_id payload answer i steps previous ≡ whole
    pub ends : verdict e run_id payload answer i steps previous ≡ last_word
    pub resumes : ResumesAt i previous rows
    pub left : drop i plan.steps ≡ steps

  -- The story has come to its end with the failure of step `i`, whose status is still to be set.
  pub record Failed (i : ℕ) (step : Step) (status : RunStatus) (error : Text)
      (previous : List (String × J)) (rows : List StepRow) : Type 0 where
    pub rest : List Step
    pub present : has_step run_id i rows ≡ true
    pub tale : map undated (history rows) ≡ whole
    pub ends : (status, some error) ≡ last_word
    pub resumes : ResumesAt i (dict_put step.name (e.externals.error_object error) previous) rows
    pub left : drop i plan.steps ≡ step ∷ rest
    pub fails : EndsRun (answer step (step_context e run_id payload i step previous)).0 status error

  module _ (trips : RoundTrips e.externals) where
    row_record :
        (r : StepRecord J) (text : String)
        → e.externals.dumps r.output ≡ some text
        → step_record e.externals (step_row r text) ≡ r
    unfolding step_record
    row_record r text d = λ i. record r { output = trips r.output text d i }

    pub history_last :
        (r : StepRecord J) (text : String) (rows : List StepRow)
        → e.externals.dumps r.output ≡ some text
        → r.run_id ≡ run_id
        → AreBelow r.index (steps_of run_id rows)
        → history (step_row r text ∷ rows) ≡ history rows ++ (r ∷ [])
    history_last r text rows d own b =
        ap (step_records e.externals)
          (steps_of_last run_id (step_row r text) rows (rw own (eq_refl run_id)) b)
        ∙ records_last e.externals (step_row r text) (steps_of run_id rows)
        ∙ ap (λ q. history rows ++ (q ∷ [])) (row_record r text d)

    outputs_reached :
        (r : StepRecord J) (text : String) (i : ℕ) (previous : List (String × J))
        (rows : List StepRow)
        → history (step_row r text ∷ rows) ≡ history rows ++ (r ∷ [])
        → previous_of (history rows) ≡ previous
        → previous_of (history (step_row r text ∷ rows)) ≡ dict_put r.name r.output previous
    unfolding previous_of
    outputs_reached r text i previous rows h o =
        ap previous_of h ∙ outputs_last r (history rows) [] ∙ ap (dict_put r.name r.output) o

    below_suc : (k i : ℕ) → (ltb k i || k == i) ≡ ltb k (i + 1)
    below_suc k i = ground arith

    -- A successful checkpoint at the resume position moves it on.
    resumes_next :
        (r : StepRecord J) (text : String) (previous : List (String × J)) (rows : List StepRow)
        → history (step_row r text ∷ rows) ≡ history rows ++ (r ∷ [])
        → is_success r.outcome ≡ true
        → ResumesAt r.index previous rows
        → ResumesAt (r.index + 1) (dict_put r.name r.output previous) (step_row r text ∷ rows)
    resumes_next r text previous rows h good o = record {
      outputs = outputs_reached r text r.index previous rows h o.outputs;
      is_done = λ k.
          ap (λ l. contains k (done l)) h
          ∙ done_last k r (history rows) good
          ∙ ap (λ b. b || k == r.index) (o.is_done k)
          ∙ below_suc k r.index;
    }

    -- A failed one does not.
    pub resumes_failed :
        (r : StepRecord J) (text : String) (previous : List (String × J)) (rows : List StepRow)
        → history (step_row r text ∷ rows) ≡ history rows ++ (r ∷ [])
        → is_success r.outcome ≡ false
        → ResumesAt r.index previous rows
        → ResumesAt r.index (dict_put r.name r.output previous) (step_row r text ∷ rows)
    resumes_failed r text previous rows h bad o = record {
      outputs = outputs_reached r text r.index previous rows h o.outputs;
      is_done =
          λ k. ap (λ l. contains k l) (ap done h ∙ done_failed r (history rows) bad) ∙ o.is_done k;
    }

    success_outcome_good : (ctx : StepContext J W) → is_success (success_outcome e ctx) ≡ true
    unfolding success_outcome
    success_outcome_good ctx =
        if_cases (λ o. is_success o ≡ true) _ StepOutcome.healed StepOutcome.ok
          (λ h. unfold is_success in refl) (λ h. unfold is_success in refl)

    pub next-Reached :
        (i : ℕ) (step : Step) (steps : List Step) (previous : List (String × J))
        (rows : List StepRow) (output : J) (ctx : StepContext J W) (w : W) (text : String)
        → Reached i (step ∷ steps) previous rows
        → answer step (step_context e run_id payload i step previous) ≡ (returned output, ctx)
        → e.externals.dumps output ≡ some text
        → Reached
            (i + 1)
            steps
            (dict_put step.name output previous)
            (step_row (checkpoint e run_id i step (success_outcome e ctx) output ctx w) text ∷ rows)
    unfolding checkpoint story verdict tell judge told
    next-Reached i step steps previous rows output ctx w text p a d =
        let r = checkpoint e run_id i step (success_outcome e ctx) output ctx w in
        let h = history_last r text rows d refl p.below in
        record {
          below =
              rw (steps_of_last run_id (step_row r text) rows (eq_refl run_id) p.below)
                (below_last i (step_row r text) (steps_of run_id rows) refl p.below);
          tale =
              ap
                (λ l.
                  map undated l
                  ++ story e run_id payload answer (i + 1) steps
                      (dict_put step.name output previous))
                h
              ∙ undated_last r (history rows) _
              ∙ (rw a at p.tale);
          ends = rw a at p.ends;
          resumes = resumes_next r text previous rows h (success_outcome_good ctx) p.resumes;
          left = (drop-get_elem? plan.steps i step steps p.left).1;
        }
