-- ===== src/Engine/Answers.antt =====
-- engine.py, `StepContext.ask`: where an answer comes from.
use durable_agent_engine.Base.{
  ℕ, zero, suc, ◌+◌, ◌==◌, leb, ◌≡◌, refl, sym, ap, subst, Option, none, some, List, Text,
  Bool-cases, inl, inr,
}
use durable_agent_engine.Healing.{Json, Schema, FieldFault, max_correction_rounds, parse_or_faults}
use durable_agent_engine.Providers.{Completion, Reply, Provider}
use durable_agent_engine.Engine.Context.{
  StepContext, Asked, Round, ends, again, transient, parsed, replied, ask_round, go_on, ask_loop,
  ask,
}

module _ {J T W : Type 0} (json : Json J) (schema : Schema J T) (provider : Provider W) where
  -- The provider answered some prompt with a completion, which left the world `w` and whose text
  -- parses to `value`.
  pub record IsFromReply (value : T) (w : W) : Type 0 where
    pub prompt : Text
    pub before : W
    pub completion : Completion
    pub came : provider.complete prompt before ≡ (Reply.completion completion, w)
    pub taken : (parse_or_faults json schema completion.text).0 ≡ some value

  abbrev IsSound : Asked T → W → Type 0
  IsSound (Asked.answer value) w = IsFromReply value w
  IsSound _ w = Unit

  -- A round that goes on does so with the same provider.
  abbrev IsSoundRound : Round T × StepContext J W × W → Type 0
  IsSoundRound (ends asked, ctx, w) = IsSound asked w
  IsSoundRound (again current corrections, ctx, w) = ctx.provider ≡ provider

  parsed-IsSound :
      (prompt current : Text) (corrections : ℕ) (c : Completion)
      (r : Option T × List (FieldFault J)) (ctx : StepContext J W) (v w : W)
      → ctx.provider ≡ provider
      → provider.complete current v ≡ (Reply.completion c, w)
      → parse_or_faults json schema c.text ≡ r
      → IsSoundRound (parsed json schema prompt corrections c.text r ctx w)
  unfolding parsed
  parsed-IsSound prompt current corrections c (some value, faults) ctx v w p came h = record {
    prompt = current;
    before = v;
    completion = c;
    came = came;
    taken = ap (λ r. r.0) h;
  }
  parsed-IsSound prompt current corrections c (none, faults) ctx v w p came h =
      elim (Bool-cases (leb max_correction_rounds corrections)) [
        | inl full ↦ rw full tt
        | inr room ↦ rw room p
      ]

  transient-IsSound :
      (attempt budget : ℕ) (exc current : Text) (corrections : ℕ) (ctx : StepContext J W) (w : W)
      → ctx.provider ≡ provider
      → IsSoundRound (transient json schema attempt budget exc current corrections ctx w)
  unfolding transient
  transient-IsSound attempt budget exc current corrections ctx w p =
      elim (Bool-cases (attempt == budget)) [ inl last ↦ rw last tt | inr more ↦ rw more p ]

  replied-IsSound :
      (prompt : Text) (attempt budget : ℕ) (current : Text) (corrections : ℕ)
      (ctx : StepContext J W) (v : W) (r : Reply × W)
      → ctx.provider ≡ provider
      → provider.complete current v ≡ r
      → IsSoundRound (replied json schema prompt attempt budget current corrections ctx r)
  unfolding replied
  replied-IsSound prompt attempt budget current corrections ctx v (Reply.timeout exc, w) p came =
      transient-IsSound attempt budget exc current corrections ctx w p
  replied-IsSound prompt attempt budget current corrections ctx v (Reply.unavailable exc, w) p
        came =
      transient-IsSound attempt budget exc current corrections ctx w p
  replied-IsSound prompt attempt budget current corrections ctx v (Reply.other exc, w) p came = tt
  replied-IsSound prompt attempt budget current corrections ctx v (Reply.completion c, w) p came =
      parsed-IsSound prompt current corrections c _ _ v w p came refl

  go_on-IsSound :
      (next : Text → ℕ → StepContext J W → W → Asked T × StepContext J W × W)
      (r : Round T × StepContext J W × W)
      → IsSoundRound r
      → ((current : Text) (corrections : ℕ) (ctx : StepContext J W) (w : W)
          → ctx.provider ≡ provider
          → IsSound (next current corrections ctx w).0 (next current corrections ctx w).2)
      → IsSound (go_on next r).0 (go_on next r).2
  unfolding go_on
  go_on-IsSound next (ends asked, ctx, w) h k = h
  go_on-IsSound next (again current corrections, ctx, w) h k = k current corrections ctx w h

  ask_loop-IsSound :
      (left : ℕ) (prompt : Text) (attempt budget : ℕ) (current : Text) (corrections : ℕ)
      (ctx : StepContext J W) (w : W)
      → ctx.provider ≡ provider
      → let r = ask_loop json schema left prompt attempt budget current corrections ctx w in
        IsSound r.0 r.2
  unfolding ask_loop ask_round
  ask_loop-IsSound zero prompt attempt budget current corrections ctx w p = tt
  ask_loop-IsSound (suc left) prompt attempt budget current corrections ctx w p =
      go_on-IsSound _ _
        (replied-IsSound prompt attempt budget current corrections
          (record ctx { made = ctx.made + 1 }) w (ctx.provider.complete current w) p
          (ap (λ (q : Provider W). q.complete current w) (sym p)))
        (λ current' corrections' ctx' w' p'.
          ask_loop-IsSound left prompt (attempt + 1) budget current' corrections' ctx' w' p')

module _ {J T W : Type 0} (json : Json J) (schema : Schema J T) where
  ask-IsSound :
      (prompt : Text) (override : Option ℕ) (ctx : StepContext J W) (w : W)
      → let r = ask json schema prompt override ctx w in IsSound json schema ctx.provider r.0 r.2
  unfolding ask
  ask-IsSound prompt none ctx w =
      ask_loop-IsSound json schema ctx.provider _ prompt 1 _ prompt 0 ctx w refl
  ask-IsSound prompt (some budget) ctx w =
      ask_loop-IsSound json schema ctx.provider _ prompt 1 _ prompt 0 ctx w refl

  -- Whatever the provider does, an answer of `ask` is what parse_or_faults takes from the text of a
  -- completion that the provider gave, and this was the last call of the provider.
  pub ask-IsFromReply :
      (prompt : Text) (override : Option ℕ) (ctx : StepContext J W) (w : W) (value : T)
      → (ask json schema prompt override ctx w).0 ≡ Asked.answer value
      → IsFromReply json schema ctx.provider value (ask json schema prompt override ctx w).2
  ask-IsFromReply prompt override ctx w value h =
      subst (λ a. IsSound json schema ctx.provider a (ask json schema prompt override ctx w).2) h
        (ask-IsSound prompt override ctx w)
