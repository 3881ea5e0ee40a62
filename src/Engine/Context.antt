-- ===== src/Engine/Context.antt =====
-- engine.py, `StepContext` and its `ask`.
use durable_agent_engine.Base.{
  ℕ, zero, suc, ◌+◌, ◌-◌, ◌*◌, ◌^◌, min, max, String, Bool, false, ◌||◌, Option, none, some, List,
  [], ◌∷◌, ◌++◌, map, sum, ◌==◌, leb, ltb, Text, codes, decimal, join, if◌then◌else◌,
}
use durable_agent_engine.Models.Token
use durable_agent_engine.Externals.{Externals}
use durable_agent_engine.Healing.{
  Json, Schema, FieldFault, max_correction_rounds, parse_or_faults, build_retry_prompt,
}
use durable_agent_engine.Providers.{tokens, Reply, Provider}

-- `made` is `_attempts`; `tokens` and `corrections` are the lists of those names.
pub record StepContext (J W : Type 0) : Type 0 where
  pub run_id : String
  pub index : ℕ
  pub payload : J
  pub previous : List (String × J)
  pub provider : Provider W
  pub max_attempts : ℕ
  pub tokens : List ℕ
  pub corrections : List ℕ
  pub made : ℕ

-- How a call of `ask` ends: the validated object, an Escalation with its reason, or another
-- exception.
pub data Asked (T : Type 0) : Type 0 where
  answer : T → Asked T
  escalation : Text → Asked T
  exception : Text → Asked T

abbrev any_positive : List ℕ → Bool
any_positive [] = false
any_positive (c ∷ cs) = ltb 0 c || any_positive cs

-- `", ".join(f.field for f in faults)`
abbrev fields_text : {J : Type 0} → List (FieldFault J) → Text
fields_text {J} faults = join (codes ", ") (map (λ (f : FieldFault J). f.field) faults)

pub unavailable_reason : ℕ → Text → Text
unavailable_reason attempt exc =
    codes "provider unavailable after " ++ (decimal attempt ++ (codes " attempts: " ++ exc))

pub invalid_reason : ℕ → Text → Text
invalid_reason corrections fields =
    codes "schema still invalid after "
    ++ (decimal corrections ++ (codes " corrections: " ++ fields))

pub exhausted_reason : ℕ → Text
exhausted_reason budget =
    codes "exhausted " ++ (decimal budget ++ codes " attempts without a valid response")

-- `min(0.05 * (2 ** (attempt - 1)), 0.4)`, in milliseconds
unfoldable pub backoff : ℕ → ℕ
backoff attempt = min (50 * 2 ^ (attempt - 1)) 400

module _ {J W : Type 0} where
  unfoldable pub tokens_used : StepContext J W → ℕ
  tokens_used ctx = sum ctx.tokens

  unfoldable pub attempts : StepContext J W → ℕ
  attempts ctx = max 1 ctx.made

  unfoldable pub was_healed : StepContext J W → Bool
  was_healed ctx = any_positive ctx.corrections

  unfoldable pub effect_token : Externals J → StepContext J W → Text
  effect_token x ctx = Token.effect_token x ctx.run_id ctx.index

-- What the loop of `ask` does with one reply: it ends, or goes on with a prompt and a count of
-- corrections.
pub data Round (T : Type 0) : Type 0 where
  ends : Asked T → Round T
  again : Text → ℕ → Round T

-- leaves the loop, or makes the next round
unfoldable pub go_on :
    {J W T : Type 0}
    → (Text → ℕ → StepContext J W → W → Asked T × StepContext J W × W)
    → Round T × StepContext J W × W
    → Asked T × StepContext J W × W
go_on next (ends result, ctx, w) = (result, ctx, w)
go_on next (again current corrections, ctx, w) = next current corrections ctx w

module _ {J W T : Type 0} (json : Json J) (schema : Schema J T) where
  unfoldable pub transient :
      ℕ → ℕ → Text → Text → ℕ → StepContext J W → W → Round T × StepContext J W × W
  transient attempt budget exc current corrections ctx w =
      if attempt == budget
      then (ends (Asked.escalation (unavailable_reason attempt exc)), ctx, w)
      else (again current corrections, ctx, ctx.provider.sleep (backoff attempt) w)

  unfoldable pub parsed :
      Text
      → ℕ
      → Text
      → Option T × List (FieldFault J)
      → StepContext J W
      → W
      → Round T × StepContext J W × W
  parsed prompt corrections text (some value, faults) ctx w = (
    ends (Asked.answer value),
    record ctx { corrections = ctx.corrections ++ (corrections ∷ []) },
    w,
  )
  parsed prompt corrections text (none, faults) ctx w =
      if leb max_correction_rounds corrections
      then (ends (Asked.escalation (invalid_reason corrections (fields_text faults))), ctx, w)
      else (
        again (build_retry_prompt json prompt text faults schema.name) (corrections + 1),
        ctx,
        w,
      )

  unfoldable pub replied :
      Text → ℕ → ℕ → Text → ℕ → StepContext J W → Reply × W → Round T × StepContext J W × W
  replied prompt attempt budget current corrections ctx (Reply.timeout exc, w) =
      transient attempt budget exc current corrections ctx w
  replied prompt attempt budget current corrections ctx (Reply.unavailable exc, w) =
      transient attempt budget exc current corrections ctx w
  replied prompt attempt budget current corrections ctx (Reply.other exc, w) =
      (ends (Asked.exception exc), ctx, w)
  replied prompt attempt budget current corrections ctx (Reply.completion c, w) =
      parsed prompt corrections c.text (parse_or_faults json schema c.text)
        (record ctx { tokens = ctx.tokens ++ (tokens c ∷ []) }) w

  -- the body of the loop, for one `attempt`
  unfoldable pub ask_round :
      Text → ℕ → ℕ → Text → ℕ → StepContext J W → W → Round T × StepContext J W × W
  unfolding replied parsed transient
  ask_round prompt attempt budget current corrections ctx w =
      replied prompt attempt budget current corrections (record ctx { made = ctx.made + 1 })
        (ctx.provider.complete current w)

  -- `for attempt in range(attempt, budget + 1)`: the first argument counts the rounds left.
  unfoldable pub ask_loop :
      ℕ → Text → ℕ → ℕ → Text → ℕ → StepContext J W → W → Asked T × StepContext J W × W
  unfolding ask_round go_on
  ask_loop zero prompt attempt budget current corrections ctx w =
      (Asked.escalation (exhausted_reason budget), ctx, w)
  ask_loop (suc left) prompt attempt budget current corrections ctx w =
      go_on
        (λ current' corrections' ctx' w'.
          ask_loop left prompt (attempt + 1) budget current' corrections' ctx' w')
        (ask_round prompt attempt budget current corrections ctx w)

  -- `max_attempts` is `none` where the caller leaves it out.
  unfoldable pub ask : Text → Option ℕ → StepContext J W → W → Asked T × StepContext J W × W
  unfolding ask_loop
  ask prompt none ctx w = ask_loop ctx.max_attempts prompt 1 ctx.max_attempts prompt 0 ctx w
  ask prompt (some budget) ctx w = ask_loop budget prompt 1 budget prompt 0 ctx w
