-- ===== src/Demo/Charges.antt =====
-- demo.py: how often the gateway charges, over the runs of the demo.
use durable_agent_engine.Base.{
  ℕ, zero, suc, ◌≤◌, String, ◌≡◌, refl, subst, Option, none, some, some-injective, List, [], ◌∷◌,
  Text, get_elem?, length, arith,
}
use durable_agent_engine.Exec.{◌>>◌, vanished, or_raise}
use durable_agent_engine.Exec.Keeps.{Keeps, bind-Keeps, bind-Leads, or_raise-Keeps}
use durable_agent_engine.Models.{Step, RunState}
use durable_agent_engine.Models.Token.{effect_token}
use durable_agent_engine.Store
use durable_agent_engine.Engine.{State, submit, on_store}
use durable_agent_engine.Engine.Context
use durable_agent_engine.Engine.Context.{StepContext}
use durable_agent_engine.Engine.Run.{run, call_handler, call_found, step_context}
use durable_agent_engine.Engine.World.{submit-WorldKeeps, run-WorldKeeps}
use durable_agent_engine.Engine.World.Asked.{IsKept, ask-WorldKeeps}
use durable_agent_engine.Demo.{
  Gateway, World, ModelProvider, mock, chaos, record_charge, charge, charge_found, charge_handler,
  text_eq_refl,
}
use durable_agent_engine.Demo.Story.{
  Setting, checkout, complete_with, build, parse, assess, receipt, handler_of, new_uuid, order,
  submit_duplicate, run_until, pick_up, after_submit, main,
}

-- Nothing has been charged, or one token and no other.
pub data AtMostOne (token : Text) (seen : List (Text × Text)) : Type 0 where
  uncharged : seen ≡ [] → AtMostOne token seen
  charged : (receipt : Text) → seen ≡ (token, receipt) ∷ [] → AtMostOne token seen

charge-AtMostOne :
    (token : Text) (amount : ℕ) (g : Gateway)
    → AtMostOne token g.seen
    → AtMostOne token (charge token amount g).1.seen
unfolding charge record_charge
charge-AtMostOne token amount g (uncharged h) = rw h (charged _ refl)
charge-AtMostOne token amount g (charged receipt h) =
    rw (h, text_eq_refl token) (charged receipt refl)

module _ {J T V : Type 0} (d : Setting J T V) (run_id : String) where
  -- The gateway has charged nothing, or the run's third step alone.
  abbrev pub ChargedOnce : World V → Type 0
  ChargedOnce w = AtMostOne (effect_token d.externals run_id 2) w.gateway.seen

  complete-ChargedOnce :
      (prompt : Text) (m : ModelProvider) (w : World V)
      → ChargedOnce w
      → ChargedOnce (complete_with prompt m w).1
  unfolding complete_with
  complete-ChargedOnce prompt (mock p) w h = h
  complete-ChargedOnce prompt (chaos p) w h = h

  provider-IsKept : IsKept ChargedOnce (build d).provider
  provider-IsKept = record {
    completes = λ prompt w h. complete-ChargedOnce prompt w.model w h;
    sleeps = λ n w h. h;
  }

  charge_found-AtMostOne :
      (amount : Option ℕ) (ctx : StepContext J (World V)) (w : World V)
      → AtMostOne (Context.effect_token d.externals ctx) w.gateway.seen
      → AtMostOne
          (Context.effect_token d.externals ctx)
          (charge_found d.externals d.amount_of d.receipt_json amount ctx w).2.gateway.seen
  unfolding charge_found
  charge_found-AtMostOne none ctx w h = h
  charge_found-AtMostOne (some amount) ctx w h =
      charge-AtMostOne (Context.effect_token d.externals ctx) amount w.gateway h

  no_fifth : (step : Step) → ◌≡◌ {A = Option Step} none (some step) → ⊥
  no_fifth step h = cc h

  -- each handler of the plan, at its own index
  handler-ChargedOnce :
      (index : ℕ) (step : Step) (payload : J) (previous : List (String × J)) (w : World V)
      → get_elem? checkout.steps index ≡ some step
      → ChargedOnce w
      → ChargedOnce
          (call_handler
            (build d)
            step
            (step_context (build d) run_id payload index step previous)
            w).2
  unfolding call_handler call_found handler_of parse assess receipt charge_handler step_context
      Context.effect_token
  handler-ChargedOnce zero step payload previous w here h =
      subst
        (λ s.
          ChargedOnce
            (call_handler (build d) s (step_context (build d) run_id payload 0 s previous) w).2)
        (some-injective _ _ here) h
  handler-ChargedOnce (suc zero) step payload previous w here h =
      subst
        (λ s.
          ChargedOnce
            (call_handler (build d) s (step_context (build d) run_id payload 1 s previous) w).2)
        (some-injective _ _ here)
        (ask-WorldKeeps d.json d.assessment ChargedOnce _ none _ w provider-IsKept h)
  handler-ChargedOnce (suc (suc zero)) step payload previous w here h =
      subst
        (λ s.
          ChargedOnce
            (call_handler (build d) s (step_context (build d) run_id payload 2 s previous) w).2)
        (some-injective _ _ here) (charge_found-AtMostOne (d.amount_of payload) _ w h)
  handler-ChargedOnce (suc (suc (suc zero))) step payload previous w here h =
      subst
        (λ s.
          ChargedOnce
            (call_handler (build d) s (step_context (build d) run_id payload 3 s previous) w).2)
        (some-injective _ _ here) h
  handler-ChargedOnce (suc (suc (suc (suc n)))) step payload previous w here h =
      absurd (no_fifth step here)

  -- A run of the demo's plan, whatever its tables, its connections and its provider, and wherever
  -- it crashes, keeps this: the gateway has charged nothing, or the one token of this run's third
  -- step and no other.
  pub run-ChargedOnce :
      (crash_at : Option ℕ) (s : State (World V))
      → ChargedOnce s.world
      → ChargedOnce (run (build d) run_id checkout crash_at s).1.world
  unfolding new_uuid
  run-ChargedOnce =
      run-WorldKeeps (build d) run_id checkout ChargedOnce (λ w h. h) handler-ChargedOnce

  abbrev Holds : State (World V) → Type 0
  Holds s = ChargedOnce s.world

  submit-ChargedOnce : Keeps Holds (submit (build d) (order d))
  unfolding new_uuid
  submit-ChargedOnce = submit-WorldKeeps (build d) ChargedOnce (λ w h. h) (order d)

  pick_up-ChargedOnce : Keeps Holds (pick_up d run_id)
  unfolding pick_up
  pick_up-ChargedOnce =
      bind-Keeps Holds (on_store (Store.load d.externals run_id)) _ (λ s h. h)
        (λ found.
          bind-Keeps Holds (or_raise found vanished) _ (or_raise-Keeps Holds found vanished)
            (λ state.
              bind-Keeps Holds (run (build d) run_id checkout none) _ (run-ChargedOnce none)
                (λ final s h. h)))

AtMostOne-length :
    (token : Text) (seen : List (Text × Text)) → AtMostOne token seen → length seen ≤ 1
AtMostOne-length token seen (uncharged h) = rw h (omega arith)
AtMostOne-length token seen (charged receipt h) = rw h (omega arith)

module _ {J T V : Type 0} (d : Setting J T V) where
  after_submit-ChargedOnce :
      (crash_at : ℕ) (accepted : RunState J)
      → Keeps (Holds d accepted.run_id) (after_submit d crash_at accepted)
  unfolding after_submit submit_duplicate run_until
  after_submit-ChargedOnce crash_at accepted =
      let P = Holds d accepted.run_id in
      bind-Keeps P (submit_duplicate d >> run_until d crash_at accepted.run_id)
        (λ u. pick_up d accepted.run_id)
        (bind-Keeps P (submit_duplicate d) (λ u. run_until d crash_at accepted.run_id)
          (submit-ChargedOnce d accepted.run_id)
          (λ u. run-ChargedOnce d accepted.run_id (some crash_at)))
        (λ u. pick_up-ChargedOnce d accepted.run_id)

  submit_keeps_seen :
      Keeps (λ (s : State (World V)). s.world.gateway.seen ≡ []) (submit (build d) (order d))
  unfolding new_uuid
  submit_keeps_seen = submit-WorldKeeps (build d) (λ w. w.gateway.seen ≡ []) (λ w h. h) (order d)

  -- The demo charges at most once: whatever the connections, the provider and the tables that it
  -- starts from, wherever the first run is killed, and however `main` ends. Supposed: at the start
  -- the gateway has charged nothing.
  pub main_charges_once :
      (crash_at : ℕ) (s : State (World V))
      → s.world.gateway.seen ≡ []
      → length (main d crash_at s).1.world.gateway.seen ≤ 1
  unfolding main
  main_charges_once crash_at s h =
      bind-Leads (λ (s : State (World V)). s.world.gateway.seen ≡ [])
        (λ (s : State (World V)). length s.world.gateway.seen ≤ 1) (submit (build d) (order d))
        (after_submit d crash_at) submit_keeps_seen (λ s h. rw h (omega arith))
        (λ accepted s h.
          AtMostOne-length _ _ (after_submit-ChargedOnce crash_at accepted s (uncharged h)))
        s h
