-- ===== src/Engine/World/Asked.antt =====
-- engine.py, `StepContext.ask`: what the provider keeps of the world outside, `ask` keeps.
use durable_agent_engine.Base.{
  ℕ, zero, suc, ◌+◌, ◌==◌, leb, Option, none, some, List, Text, Bool-cases, inl, inr,
}
use durable_agent_engine.Healing.{Json, Schema, FieldFault, max_correction_rounds, parse_or_faults}
use durable_agent_engine.Providers.{Reply, Provider}
use durable_agent_engine.Engine.Context.{
  StepContext, Asked, Round, ends, again, transient, parsed, replied, ask_round, go_on, ask_loop,
  ask,
}

module _ {W : Type 0} (Q : W → Type 0) where
  -- A call of the provider, and a sleep, keep `Q`.
  pub record IsKept (p : Provider W) : Type 0 where
    pub completes : (prompt : Text) (w : W) → Q w → Q (p.complete prompt w).1
    pub sleeps : (n : ℕ) (w : W) → Q w → Q (p.sleep n w)

module _ {J W T : Type 0} (json : Json J) (schema : Schema J T) (Q : W → Type 0) where
  abbrev Holds : {A : Type 0} → A × StepContext J W × W → Type 0
  Holds (a, ctx, w) = IsKept Q ctx.provider × Q w

  parsed-Holds :
      (prompt : Text) (corrections : ℕ) (text : Text) (r : Option T × List (FieldFault J))
      (ctx : StepContext J W) (w : W)
      → IsKept Q ctx.provider
      → Q w
      → Holds (parsed json schema prompt corrections text r ctx w)
  unfolding parsed
  parsed-Holds prompt corrections text (some value, faults) ctx w k h = (k, h)
  parsed-Holds prompt corrections text (none, faults) ctx w k h =
      elim (Bool-cases (leb max_correction_rounds corrections)) [
        | inl full ↦ rw full (k, h)
        | inr room ↦ rw room (k, h)
      ]

  transient-Holds :
      (attempt budget : ℕ) (exc current : Text) (corrections : ℕ) (ctx : StepContext J W) (w : W)
      → IsKept Q ctx.provider
      → Q w
      → Holds (transient json schema attempt budget exc current corrections ctx w)
  unfolding transient
  transient-Holds attempt budget exc current corrections ctx w k h =
      elim (Bool-cases (attempt == budget)) [
        | inl last ↦ rw last (k, h)
        | inr more ↦ rw more (k, k.sleeps _ w h)
      ]

  replied-Holds :
      (prompt : Text) (attempt budget : ℕ) (current : Text) (corrections : ℕ)
      (ctx : StepContext J W) (r : Reply) (w : W)
      → IsKept Q ctx.provider
      → Q w
      → Holds (replied json schema prompt attempt budget current corrections ctx (r, w))
  unfolding replied
  replied-Holds prompt attempt budget current corrections ctx (Reply.timeout exc) w k h =
      transient-Holds attempt budget exc current corrections ctx w k h
  replied-Holds prompt attempt budget current corrections ctx (Reply.unavailable exc) w k h =
      transient-Holds attempt budget exc current corrections ctx w k h
  replied-Holds prompt attempt budget current corrections ctx (Reply.other exc) w k h = (k, h)
  replied-Holds prompt attempt budget current corrections ctx (Reply.completion c) w k h =
      parsed-Holds prompt corrections c.text (parse_or_faults json schema c.text) _ w k h

  go_on-Holds :
      (next : Text → ℕ → StepContext J W → W → Asked T × StepContext J W × W)
      (r : Round T × StepContext J W × W)
      → Holds r
      → ((current : Text) (corrections : ℕ) (ctx : StepContext J W) (w : W)
          → IsKept Q ctx.provider
          → Q w
          → Holds (next current corrections ctx w))
      → Holds (go_on next r)
  unfolding go_on
  go_on-Holds next (ends asked, ctx, w) h n = h
  go_on-Holds next (again current corrections, ctx, w) h n = n current corrections ctx w h.0 h.1

  ask_loop-Holds :
      (left : ℕ) (prompt : Text) (attempt budget : ℕ) (current : Text) (corrections : ℕ)
      (ctx : StepContext J W) (w : W)
      → IsKept Q ctx.provider
      → Q w
      → Holds (ask_loop json schema left prompt attempt budget current corrections ctx w)
  unfolding ask_loop ask_round
  ask_loop-Holds zero prompt attempt budget current corrections ctx w k h = (k, h)
  ask_loop-Holds (suc left) prompt attempt budget current corrections ctx w k h =
      go_on-Holds _ _
        (replied-Holds prompt attempt budget current corrections
          (record ctx { made = ctx.made + 1 }) (ctx.provider.complete current w).0
          (ctx.provider.complete current w).1 k (k.completes current w h))
        (λ current' corrections' ctx' w' k' h'.
          ask_loop-Holds left prompt (attempt + 1) budget current' corrections' ctx' w' k' h')

  -- What the context's provider keeps of the world, `ask` keeps.
  pub ask-WorldKeeps :
      (prompt : Text) (override : Option ℕ) (ctx : StepContext J W) (w : W)
      → IsKept Q ctx.provider
      → Q w
      → Q (ask json schema prompt override ctx w).2
  unfolding ask
  ask-WorldKeeps prompt none ctx w k h = (ask_loop-Holds _ prompt 1 _ prompt 0 ctx w k h).1
  ask-WorldKeeps prompt (some budget) ctx w k h = (ask_loop-Holds _ prompt 1 _ prompt 0 ctx w k h).1
