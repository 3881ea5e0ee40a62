-- ===== src/Demo/Paid.antt =====
-- demo.py, `main`: what each handler makes of the gateway, and a run of the plan with it.
use durable_agent_engine.Base.{
  ℕ, zero, suc, String, ◌≡◌, refl, subst, true, Option, none, some, some-injective, List, [], Text,
  get_elem?, drop, length,
}
use durable_agent_engine.Models.{RunStatus, Step}
use durable_agent_engine.Engine.{Outcome, State}
use durable_agent_engine.Engine.Context.{StepContext, Asked}
use durable_agent_engine.Engine.Run.{run, call_handler, call_found, step_context}
use durable_agent_engine.Engine.Stages.{Ready, Goes}
use durable_agent_engine.Engine.Stages.Loop.{Handled}
use durable_agent_engine.Engine.Stages.Runs.{run-Goes}
use durable_agent_engine.Engine.World.Asked.{IsKept, ask-WorldKeeps}
use durable_agent_engine.Demo.{
  World, ModelProvider, mock, chaos, record_charge, charge, charge_found, charge_handler,
}
use durable_agent_engine.Demo.Story.{
  Setting, checkout, complete_with, build, parse, parse_outcome, assess, assess_outcome, receipt,
  handler_of, new_uuid, invariant_holds,
}

-- The gateway before step `i`: the third step charges.
abbrev Paid : ℕ → List (Text × Text) → Type 0
Paid zero seen = seen ≡ []
Paid (suc zero) seen = seen ≡ []
Paid (suc (suc zero)) seen = seen ≡ []
Paid (suc (suc (suc n))) seen = length seen ≡ 1

module _ {J T V : Type 0} (d : Setting J T V) where
  abbrev pub Fine : ℕ → World V → Type 0
  Fine i w = Paid i w.gateway.seen

  -- What `main` checks, for a status.
  abbrev pub Right : RunStatus → World V → Type 0
  Right status w = invariant_holds d status (length w.gateway.seen) ≡ true

  module _ (run_id : String) where
    abbrev Fits : ℕ → Outcome J → World V → Type 0
    Fits = Handled (build d) run_id checkout Fine Right

    parsed-Fits :
        (amount : Option ℕ) (w : World V) → w.gateway.seen ≡ [] → Fits 0 (parse_outcome d amount) w
    unfolding parse_outcome
    parsed-Fits none w h = tt
    parsed-Fits (some amount) w h = h

    assessed-Fits :
        (asked : Asked T) (w : World V) → w.gateway.seen ≡ [] → Fits 1 (assess_outcome d asked) w
    unfolding assess_outcome
    assessed-Fits (Asked.answer value) w h = h
    assessed-Fits (Asked.escalation reason) w h = rw h refl
    assessed-Fits (Asked.exception exc) w h = tt

    charged-Fits :
        (amount : Option ℕ) (ctx : StepContext J (World V)) (w : World V)
        → w.gateway.seen ≡ []
        → let (outcome, ctx', w') =
            charge_found d.externals d.amount_of d.receipt_json amount ctx w in
          Fits 2 outcome w'
    unfolding charge_found charge record_charge
    charged-Fits none ctx w h = tt
    charged-Fits (some amount) ctx w h = rw h refl

    complete_unpaid :
        (prompt : Text) (m : ModelProvider) (w : World V)
        → w.gateway.seen ≡ []
        → (complete_with prompt m w).1.gateway.seen ≡ []
    unfolding complete_with
    complete_unpaid prompt (mock p) w h = h
    complete_unpaid prompt (chaos p) w h = h

    provider-IsKept : IsKept (λ (w : World V). w.gateway.seen ≡ []) (build d).provider
    provider-IsKept = record {
      completes = λ prompt w h. complete_unpaid prompt w.model w h;
      sleeps = λ n w h. h;
    }

    handler-Fits :
        (i : ℕ) (step : Step) (payload : J) (previous : List (String × J)) (w : World V)
        → get_elem? checkout.steps i ≡ some step
        → Fine i w
        → let (outcome, ctx, w') =
            call_handler (build d) step (step_context (build d) run_id payload i step previous) w in
          Fits i outcome w'
    unfolding call_handler call_found handler_of parse assess receipt charge_handler step_context
    handler-Fits zero step payload previous w here h =
        subst
          (λ s.
            let (outcome, ctx, w') =
              call_handler (build d) s (step_context (build d) run_id payload 0 s previous) w in
            Fits 0 outcome w')
          (some-injective _ _ here) (parsed-Fits (d.amount_of payload) w h)
    handler-Fits (suc zero) step payload previous w here h =
        subst
          (λ s.
            let (outcome, ctx, w') =
              call_handler (build d) s (step_context (build d) run_id payload 1 s previous) w in
            Fits 1 outcome w')
          (some-injective _ _ here)
          (assessed-Fits _ _ (
            ask-WorldKeeps d.json d.assessment (λ (w : World V). w.gateway.seen ≡ []) _ none _ w
              provider-IsKept h))
    handler-Fits (suc (suc zero)) step payload previous w here h =
        subst
          (λ s.
            let (outcome, ctx, w') =
              call_handler (build d) s (step_context (build d) run_id payload 2 s previous) w in
            Fits 2 outcome w')
          (some-injective _ _ here) (charged-Fits (d.amount_of payload) _ w h)
    handler-Fits (suc (suc (suc zero))) step payload previous w here h =
        subst
          (λ s.
            let (outcome, ctx, w') =
              call_handler (build d) s (step_context (build d) run_id payload 3 s previous) w in
            Fits 3 outcome w')
          (some-injective _ _ here) h
    handler-Fits (suc (suc (suc (suc n)))) step payload previous w here h = cc here

    completes :
        (i : ℕ) (w : World V) → drop i checkout.steps ≡ [] → Fine i w → Right RunStatus.completed w
    completes zero w e h = cc e
    completes (suc zero) w e h = cc e
    completes (suc (suc zero)) w e h = cc e
    completes (suc (suc (suc zero))) w e h = cc
    completes (suc (suc (suc (suc n)))) w e h = rw h refl

    abbrev pub IsReady : State (World V) → Type 0
    IsReady = Ready (build d) run_id checkout Fine Right

    pub run-Goes_right :
        (crash_at : Option ℕ) (s : State (World V))
        → IsReady s
        → Goes (build d) run_id checkout Fine Right (run (build d) run_id checkout crash_at s)
    unfolding new_uuid
    run-Goes_right =
        run-Goes (build d) run_id checkout Fine Right (λ i w h. h) handler-Fits completes
