-- ===== src/Providers.antt =====
-- src/durable_agent/providers.py: what a provider returns, the provider that always answers, and
-- the one that fails on purpose.
use durable_agent_engine.Base.{
  ℕ, ◌+◌, ◌/◌, max, Bool, true, false, ◌&&◌, List, [], ◌∷◌, ◌++◌, length, leb, Text, codes,
  is_infix, if◌then◌else◌,
}

pub record Completion : Type 0 where
  pub text : Text
  pub tokens_in : ℕ
  pub tokens_out : ℕ

unfoldable pub tokens : Completion → ℕ
tokens c = c.tokens_in + c.tokens_out

-- How `complete` ends: a completion, ProviderTimeout or ProviderUnavailable with its message, or
-- any other exception as the text "Type: message".
pub data Reply : Type 0 where
  completion : Completion → Reply
  timeout unavailable other : Text → Reply

-- The protocol, over the state of the world outside the engine; `sleep` is `time.sleep`, in
-- milliseconds.
pub record Provider (W : Type 0) : Type 0 where
  pub complete : Text → W → Reply × W
  pub sleep : ℕ → W → W

unfoldable pub estimate_tokens : Text → ℕ
estimate_tokens text = max 1 (length text / 4)

answer_completion : Text → Text → Completion
unfolding estimate_tokens
answer_completion prompt body = record {
  text = body;
  tokens_in = estimate_tokens prompt;
  tokens_out = estimate_tokens body;
}

-- MockProvider; `body` is `json.dumps(self.answer)`.
pub record MockProvider : Type 0 where
  pub body : Text
  pub calls : ℕ

unfoldable pub mock_complete : Text → MockProvider → Reply × MockProvider
unfolding answer_completion
mock_complete prompt p =
    (Reply.completion (answer_completion prompt p.body), record p { calls = p.calls + 1 })

pub data Mode : Type 0 where
  not_json bad_schema timeout unavailable : Mode

-- ChaosProvider. `draws` tells, for each call to come that draws from `self.rng`, whether
-- `self.rng.random() >= self.failure_rate`, and the mode that `self.rng.choice` picks if not; with
-- the list at its end a draw passes.
pub record ChaosProvider : Type 0 where
  pub body : Text
  pub heal_after : ℕ
  pub draws : List (Bool × Mode)
  pub calls : ℕ
  pub failures : List Mode

abbrev not_json_body : Text
not_json_body =
    codes
      "Sure! Here's the result:\n\n```json\n{ decision: approve, }\n```\nLet me know if you need anything else."

abbrev pub bad_schema_body : Text
bad_schema_body = codes "{\"decision\": \"approve\", \"confidence\": \"very high\"}"

fail_with : Mode → Text → Reply
unfolding answer_completion
fail_with Mode.timeout prompt = Reply.timeout (codes "provider exceeded the deadline")
fail_with Mode.unavailable prompt = Reply.unavailable (codes "connection reset by peer")
fail_with Mode.not_json prompt = Reply.completion (answer_completion prompt not_json_body)
fail_with Mode.bad_schema prompt = Reply.completion (answer_completion prompt bad_schema_body)

-- the part of `complete` behind the correction test
draw : Text → List (Bool × Mode) → ChaosProvider → Reply × ChaosProvider
unfolding answer_completion fail_with
draw prompt [] p = (Reply.completion (answer_completion prompt p.body), p)
draw prompt ((true, mode) ∷ draws) p =
    (Reply.completion (answer_completion prompt p.body), record p { draws = draws })
draw prompt ((false, mode) ∷ draws) p =
    (fail_with mode prompt, record p { draws = draws; failures = p.failures ++ (mode ∷ []) })

unfoldable pub chaos_complete : Text → ChaosProvider → Reply × ChaosProvider
unfolding draw answer_completion
chaos_complete prompt p =
    let called = record p { calls = p.calls + 1 } in
    if is_infix (codes "CORRECTION") prompt && leb p.heal_after (length p.failures)
    then (Reply.completion (answer_completion prompt p.body), called)
    else draw prompt p.draws called
