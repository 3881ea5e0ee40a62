-- ===== src/Models.antt =====
-- src/durable_agent/models.py: the data contracts, the derived resume position, and the tokens.
pub mod NextIndex
pub mod Token
pub mod Validation
pub mod Distinct
use durable_agent_engine.Base.{
  Text, ℕ, zero, suc, ◌+◌, String, Bool, true, false, ◌||◌, Option, none, some, List, [], ◌∷◌,
  length, sum, ◌==◌, if◌then◌else◌, map,
}

pub data RunStatus : Type 0 where
  pending running completed failed escalated : RunStatus

unfoldable pub is_terminal : RunStatus → Bool
is_terminal RunStatus.completed = true
is_terminal RunStatus.failed = true
is_terminal RunStatus.escalated = true
is_terminal _ = false

pub data StepOutcome : Type 0 where
  ok retried healed failed : StepOutcome

pub record Step : Type 0 where
  pub name : String
  pub effect : Bool
  pub max_attempts : ℕ

pub record Plan : Type 0 where
  pub name : String
  pub steps : List Step

-- `dict[str, Any]` values are a type `J` throughout.
pub record RunSpec (J : Type 0) : Type 0 where
  pub plan : Plan
  pub payload : J
  pub idempotency_key : String

pub record StepRecord (J : Type 0) : Type 0 where
  pub run_id : String
  pub index : ℕ
  pub name : String
  pub outcome : StepOutcome
  pub attempts : ℕ
  pub output : J
  pub tokens_used : ℕ
  pub created_at : ℕ

pub record RunState (J : Type 0) : Type 0 where
  pub run_id : String
  pub idempotency_key : String
  pub status : RunStatus
  pub plan_name : String
  pub payload : J
  pub steps : List (StepRecord J)
  pub error : Option Text

-- `s.outcome is not StepOutcome.FAILED`
unfoldable pub is_success : StepOutcome → Bool
is_success StepOutcome.failed = false
is_success _ = true

unfoldable pub contains : ℕ → List ℕ → Bool
contains i [] = false
contains i (j ∷ js) = (i == j) || contains i js

-- `while i in done: i += 1`, on fuel
unfoldable pub first_missing : ℕ → ℕ → List ℕ → ℕ
first_missing zero i done = i
first_missing (suc fuel) i done =
    let rest = first_missing fuel (i + 1) done in if contains i done then rest else i

module _ {J : Type 0} where
  -- the set `done` of `next_index`
  unfoldable pub done : List (StepRecord J) → List ℕ
  unfolding is_success
  done [] = []
  done (s ∷ ss) = if is_success s.outcome then s.index ∷ done ss else done ss

  -- One more round than there are indices is enough fuel (`next_index_least`).
  unfoldable pub next_index : RunState J → ℕ
  unfolding done first_missing contains
  next_index state = first_missing (length (done state.steps) + 1) 0 (done state.steps)

  unfoldable pub tokens_used : RunState J → ℕ
  tokens_used state = sum (map (λ (s : StepRecord J). s.tokens_used) state.steps)
