-- ===== src/Engine/Asking.antt =====
-- engine.py, `StepContext.ask`: the budget and the cap on corrections.
use durable_agent_engine.Base.{
  ℕ, zero, suc, ◌+◌, ◌≤◌, ◌≡◌, refl, Option, none, some, List, [], ◌∷◌, ◌++◌, inl, inr, Text, leb,
  ◌==◌, arith, Bool-cases,
}
use durable_agent_engine.Healing.{Json, Schema, FieldFault, max_correction_rounds}
use durable_agent_engine.Providers.{Reply}
use durable_agent_engine.Engine.Context.{
  StepContext, Asked, Round, ends, again, transient, parsed, replied, ask_round, go_on, ask_loop,
  ask,
}

-- The budget of a call: its own, or the step's.
abbrev pub budget_of : {J W : Type 0} → Option ℕ → StepContext J W → ℕ
budget_of none ctx = ctx.max_attempts
budget_of (some budget) ctx = budget

-- Each entry is at most two.
abbrev pub AreCapped : List ℕ → Type 0
AreCapped [] = Unit
AreCapped (c ∷ cs) = (c ≤ max_correction_rounds) × AreCapped cs

AreCapped-append :
    (cs : List ℕ) (c : ℕ) → AreCapped cs → c ≤ max_correction_rounds → AreCapped (cs ++ (c ∷ []))
AreCapped-append [] c h k = (k, tt)
AreCapped-append (d ∷ cs) c h k = (h.0, AreCapped-append cs c h.1 k)

abbrev corrections_of : {T : Type 0} → ℕ → Round T → ℕ
corrections_of c (ends r) = c
corrections_of c (again t c') = c'

module _ {J W T : Type 0} (json : Json J) (schema : Schema J T) where
  -- One round: one call of the provider, and the cap is kept.
  abbrev IsRound : ℕ → StepContext J W → Round T × StepContext J W × W → Type 0
  IsRound corrections ctx (round, ctx', w') =
      (ctx'.made ≡ ctx.made)
      × AreCapped ctx'.corrections
      × (corrections_of corrections round ≤ max_correction_rounds)

  parsed-IsRound :
      (prompt : Text) (corrections : ℕ) (text : Text) (r : Option T × List (FieldFault J))
      (ctx : StepContext J W) (w : W)
      → corrections ≤ max_correction_rounds
      → AreCapped ctx.corrections
      → IsRound corrections ctx (parsed json schema prompt corrections text r ctx w)
  unfolding parsed
  parsed-IsRound prompt corrections text (some value, faults) ctx w h k =
      (refl, AreCapped-append ctx.corrections corrections k h, h)
  parsed-IsRound prompt corrections text (none, faults) ctx w h k =
      elim (Bool-cases (leb max_correction_rounds corrections)) [
        | inl full ↦ rw full (refl, k, h)
        | inr room ↦ rw room (refl, k, ground arith)
      ]

  transient-IsRound :
      (attempt budget : ℕ) (exc current : Text) (corrections : ℕ) (ctx : StepContext J W) (w : W)
      → corrections ≤ max_correction_rounds
      → AreCapped ctx.corrections
      → IsRound corrections ctx (transient json schema attempt budget exc current corrections ctx w)
  unfolding transient
  transient-IsRound attempt budget exc current corrections ctx w h k =
      elim (Bool-cases (attempt == budget)) [
        | inl last ↦ rw last (refl, k, h)
        | inr more ↦ rw more (refl, k, h)
      ]

  replied-IsRound :
      (prompt : Text) (attempt budget : ℕ) (current : Text) (corrections : ℕ)
      (ctx : StepContext J W) (r : Reply) (w : W)
      → corrections ≤ max_correction_rounds
      → AreCapped ctx.corrections
      → IsRound corrections ctx
          (replied json schema prompt attempt budget current corrections ctx (r, w))
  unfolding replied
  replied-IsRound prompt attempt budget current corrections ctx (Reply.timeout exc) w h k =
      transient-IsRound attempt budget exc current corrections ctx w h k
  replied-IsRound prompt attempt budget current corrections ctx (Reply.unavailable exc) w h k =
      transient-IsRound attempt budget exc current corrections ctx w h k
  replied-IsRound prompt attempt budget current corrections ctx (Reply.other exc) w h k =
      (refl, k, h)
  replied-IsRound prompt attempt budget current corrections ctx (Reply.completion c) w h k =
      parsed-IsRound prompt corrections c.text _ _ w h k

  -- what the loop keeps, from a context with `made` calls and `left` rounds to go
  abbrev IsAsked : ℕ → Asked T × StepContext J W × W → Type 0
  IsAsked most (result, ctx, w) = (ctx.made ≤ most) × AreCapped ctx.corrections

  go_on-IsAsked :
      (next : Text → ℕ → StepContext J W → W → Asked T × StepContext J W × W) (most corrections : ℕ)
      (ctx : StepContext J W) (r : Round T × StepContext J W × W)
      → ctx.made ≤ most
      → IsRound corrections ctx r
      → ((current : Text) (corrections : ℕ) (ctx' : StepContext J W) (w : W)
          → corrections ≤ max_correction_rounds
          → AreCapped ctx'.corrections
          → ctx'.made ≡ ctx.made
          → IsAsked most (next current corrections ctx' w))
      → IsAsked most (go_on next r)
  unfolding go_on
  go_on-IsAsked next most corrections ctx (ends result, ctx', w) h r k = (omega arith, r.1)
  go_on-IsAsked next most corrections ctx (again current c, ctx', w) h r k =
      k current c ctx' w r.2 r.1 r.0

  ask_loop-IsAsked :
      (left : ℕ) (prompt : Text) (attempt budget : ℕ) (current : Text) (corrections : ℕ)
      (ctx : StepContext J W) (w : W) (most : ℕ)
      → ctx.made + left ≤ most
      → corrections ≤ max_correction_rounds
      → AreCapped ctx.corrections
      → IsAsked most (ask_loop json schema left prompt attempt budget current corrections ctx w)
  unfolding ask_loop ask_round
  ask_loop-IsAsked zero prompt attempt budget current corrections ctx w most m h k =
      (omega arith, k)
  ask_loop-IsAsked (suc left) prompt attempt budget current corrections ctx w most m h k =
      go_on-IsAsked _ most corrections (record ctx { made = ctx.made + 1 }) _ (omega arith)
        (replied-IsRound prompt attempt budget current corrections
          (record ctx { made = ctx.made + 1 }) (ctx.provider.complete current w).0
          (ctx.provider.complete current w).1 h k)
        (λ current' corrections' ctx' w' h' k' e.
          ask_loop-IsAsked left prompt (attempt + 1) budget current' corrections' ctx' w' most
            (omega (arith, e)) h' k')

  -- However the provider behaves, `ask` adds at most its budget to the count of attempts (its own
  -- budget, or the step's where it has none), and no entry of the list of corrections passes
  -- MAX_CORRECTION_ROUNDS, if none did before.
  pub ask_budget :
      (prompt : Text) (override : Option ℕ) (ctx : StepContext J W) (w : W)
      → AreCapped ctx.corrections
      → let (result, ctx', w') = ask json schema prompt override ctx w in
        (ctx'.made ≤ ctx.made + budget_of override ctx) × AreCapped ctx'.corrections
  unfolding ask
  ask_budget prompt none ctx w k =
      ask_loop-IsAsked ctx.max_attempts prompt 1 ctx.max_attempts prompt 0 ctx w _ (omega arith)
        (omega arith) k
  ask_budget prompt (some budget) ctx w k =
      ask_loop-IsAsked budget prompt 1 budget prompt 0 ctx w _ (omega arith) (omega arith) k
