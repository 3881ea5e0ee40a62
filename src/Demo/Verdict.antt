-- ===== src/Demo/Verdict.antt =====
-- demo.py, `main`: the invariant that it checks at its end.
use durable_agent_engine.Base.{ℕ, String, ◌≡◌, refl, Option, none, some, [], ap}
use durable_agent_engine.Exec.{simulated_crash, vanished, Result, ok, err, ◌>>◌, or_raise, Yields}
use durable_agent_engine.Exec.Crash.{After, bind-After}
use durable_agent_engine.Models.{RunState}
use durable_agent_engine.Store
use durable_agent_engine.Store.Sql.{Tables}
use durable_agent_engine.Engine.{State, submit, missing_handlers}
use durable_agent_engine.Engine.Run.{run}
use durable_agent_engine.Engine.Stages.{Stage, stage, over, Goes, call_then}
use durable_agent_engine.Engine.Stages.Runs.{Ready-Same}
use durable_agent_engine.Engine.Stages.Submit.{submit-Begins, submit_keeps_stage}
use durable_agent_engine.Engine.World.{submit-WorldKeeps}
use durable_agent_engine.Demo.{World}
use durable_agent_engine.Demo.Story.{
  Setting, checkout, build, handler_of, new_uuid, order, submit_duplicate, run_until, pick_up,
  after_submit, main, duplicate_result, crash_result, verdict,
}
use durable_agent_engine.Demo.Paid.{Fine, Right, IsReady, run-Goes_right}

module _ {J T V : Type 0} (d : Setting J T V) where
  -- What a step of `main` returns and leaves; of an exception that it raises, nothing.
  abbrev Leads : {A : Type 0} → (A → State (World V) → Type 0) → Result A × State (World V) → Type 0
  Leads P (r, s) = After P (λ s. Unit) r s

  either-Leads :
      {A : Type 0} (P : State (World V) → Type 0) (r : Result A) (s : State (World V))
      → P s
      → Leads (λ a. P) (r, s)
  either-Leads P (ok a) s h = h
  either-Leads P (err error) s h = λ crash. tt

  duplicate-Leads :
      (run_id : String) (s : State (World V))
      → Stage d.externals run_id 0 s.db.tables
      → s.world.gateway.seen ≡ []
      → Leads (λ u. IsReady d run_id) (submit_duplicate d s)
  unfolding submit_duplicate new_uuid
  duplicate-Leads run_id s p h =
      either-Leads (IsReady d run_id) (duplicate_result d (submit (build d) (order d) s).0) _ (
        stage 0 (submit_keeps_stage (build d) run_id 0 (order d) s p) (
          submit-WorldKeeps (build d) (λ (w : World V). w.gateway.seen ≡ []) (λ w h. h) (order d) s
            h))

  crash-Leads :
      (run_id : String) (r : Result (RunState J)) (s : State (World V))
      → Goes (build d) run_id checkout (Fine d) (Right d) (r, s)
      → Leads (λ u. IsReady d run_id) (crash_result d r, s)
  unfolding crash_result
  crash-Leads run_id (ok state) s h = over h.1
  crash-Leads run_id (err simulated_crash) s h = h refl
  crash-Leads run_id (err error) s h = λ crash. tt

  until-Leads :
      (crash_at : ℕ) (run_id : String) (s : State (World V))
      → IsReady d run_id s
      → Leads (λ u. IsReady d run_id) (run_until d crash_at run_id s)
  unfolding run_until
  until-Leads crash_at run_id s h =
      crash-Leads run_id _ _ (run-Goes_right d run_id (some crash_at) s h)

  Goes-Leads :
      (run_id : String) (r : Result (RunState J)) (s : State (World V))
      → Goes (build d) run_id checkout (Fine d) (Right d) (r, s)
      → Leads (λ final s. Right d final.status s.world) (r, s)
  Goes-Leads run_id (ok state) s h = h.0
  Goes-Leads run_id (err error) s h = λ crash. tt

  abbrev Zero : ℕ → State (World V) → Type 0
  Zero n s = n ≡ 0

  found-Leads :
      (run_id : String) (found : Option (RunState J)) (s : State (World V))
      → IsReady d run_id s
      → Leads (λ state. IsReady d run_id) (or_raise {S = State (World V)} found vanished s)
  found-Leads run_id none s h = λ crash. tt
  found-Leads run_id (some state) s h = h

  pick_up-Leads :
      (run_id : String) (s : State (World V)) → IsReady d run_id s → Leads Zero (pick_up d run_id s)
  unfolding pick_up verdict Store.load Store.load_rows
  pick_up-Leads run_id s h =
      call_then (λ found t. t ≡ s.db.tables) _ _ (Store.load_rows d.externals run_id) _ s refl
        (λ found db same.
          bind-After (λ s. Unit) (λ state s. IsReady d run_id s) _ (or_raise found vanished) _
            (record s { db = db })
            (found-Leads run_id found (record s { db = db })
              (Ready-Same (build d) run_id checkout (Fine d) (Right d) s db
                (ap (λ (t : Tables). t.runs) same, ap (λ (t : Tables). t.step_records) same) h))
            (λ state s h.
              bind-After (λ s. Unit) (λ final s. Right d final.status s.world) Zero
                (run (build d) run_id checkout none) (verdict d) s
                (Goes-Leads run_id _ _ (run-Goes_right d run_id none s h))
                (λ final s right. rw right refl)))

  after_submit-Leads :
      (crash_at : ℕ) (accepted : RunState J) (s : State (World V))
      → Stage d.externals accepted.run_id 0 s.db.tables
      → s.world.gateway.seen ≡ []
      → Leads Zero (after_submit d crash_at accepted s)
  unfolding after_submit
  after_submit-Leads crash_at accepted s p h =
      bind-After (λ s. Unit) (λ u. IsReady d accepted.run_id) Zero
        (submit_duplicate d >> run_until d crash_at accepted.run_id)
        (λ u. pick_up d accepted.run_id) s
        (bind-After (λ s. Unit) (λ u. IsReady d accepted.run_id) (λ u. IsReady d accepted.run_id)
          (submit_duplicate d) (λ u. run_until d crash_at accepted.run_id) s
          (duplicate-Leads accepted.run_id s p h) (λ u. until-Leads crash_at accepted.run_id))
        (λ u. pick_up-Leads accepted.run_id)

  both_lead :
      (r : Result (RunState J)) (s : State (World V))
      → Leads (λ state s. Stage d.externals state.run_id 0 s.db.tables) (r, s)
      → s.world.gateway.seen ≡ []
      → Leads
          (λ state s. Stage d.externals state.run_id 0 s.db.tables × (s.world.gateway.seen ≡ []))
          (r, s)
  both_lead (ok state) s h k = (h, k)
  both_lead (err error) s h k = λ crash. tt

  code_of : (r : Result ℕ) (s : State (World V)) → Leads Zero (r, s) → Yields (λ code. code ≡ 0) r
  code_of (ok code) s h = h
  code_of (err error) s h = tt

  -- Whatever the connections and the provider do, and wherever the first run is killed: where `main`
  -- returns an exit code, it is 0. So the check at its end holds, a run that completed has one charge,
  -- and one that was escalated none. Supposed: at the start the tables have no checkpoints, and the
  -- gateway has charged nothing.
  pub main_invariant_holds :
      (crash_at : ℕ) (s : State (World V))
      → s.db.tables.step_records ≡ []
      → s.world.gateway.seen ≡ []
      → Yields (λ code. code ≡ 0) (main d crash_at s).0
  unfolding main missing_handlers handler_of new_uuid
  main_invariant_holds crash_at s bare unpaid = code_of _ _ (
      bind-After (λ s. Unit)
        (λ state s. Stage d.externals state.run_id 0 s.db.tables × (s.world.gateway.seen ≡ [])) Zero
        (submit (build d) (order d)) (after_submit d crash_at) s
        (both_lead _ _ (submit-Begins (build d) (order d) s refl bare) (
          submit-WorldKeeps (build d) (λ (w : World V). w.gateway.seen ≡ []) (λ w h. h) (order d) s
            unpaid))
        (λ accepted s p. after_submit-Leads crash_at accepted s p.0 p.1))
