-- ===== src/Benchmark.antt =====
-- scripts/benchmark.py: what a retry costs after one schema violation. What is printed and
-- written is the list of results; a percentage is kept as an exact fraction.
pub mod Costs
use durable_agent_engine.Base.{
  ℕ, zero, suc, ◌+◌, ◌*◌, ◌%◌, Bool, true, false, ◌&&◌, not, Option, none, some, List, [], ◌∷◌,
  ◌++◌, ◌==◌, leb, ltb, Text, codes, decimal, is_infix, if◌then◌else◌,
}
use durable_agent_engine.Healing.{Json, Schema, FieldFault, parse_or_faults, build_retry_prompt}
use durable_agent_engine.Providers.{estimate_tokens}

-- BROKEN, as json.dumps writes it
abbrev pub broken : Text
broken =
    codes "{\"decision\": \"approve\", \"confidence\": \"very high\", \"reasons\": \"looks fine\"}"

-- CONTEXTS
abbrev pub contexts : List (Text × ℕ)
contexts =
    (codes "short (a one-line question)", 1)
    ∷ (codes "medium (a page of policy)", 40)
    ∷ (codes "long (a full customer history)", 200)
    ∷ (codes "very long (history + policy + logs)", 600)
    ∷ []

-- `{n:02d}`
two_digits : ℕ → Text
two_digits n = if ltb n 10 then b'0' ∷ decimal n else decimal n

unfoldable pub transaction : ℕ → Text
unfolding two_digits
transaction i =
    codes "2026-08-"
    ++ (two_digits (i % 28 + 1)
        ++ (codes " txn="
            ++ (decimal (1000 + i)
                ++ (codes " amount="
                    ++ (decimal (i * 37 % 900) ++ codes ".00 status=settled channel=web\n")))))

-- the lines from `i` on
unfoldable pub transactions : ℕ → ℕ → Text
unfolding transaction
transactions i zero = []
transactions i (suc n) = transaction i ++ transactions (i + 1) n

abbrev pub head : Text
head =
    codes
      "You are a risk analyst. Decide whether to approve this transaction and return JSON matching the Decision schema.\n\n"

unfoldable pub build_prompt : ℕ → Text
unfolding transactions
build_prompt lines = head ++ transactions 0 lines

pub record Result : Type 0 where
  pub label : Text
  pub prompt_tokens : ℕ
  pub naive_retry : ℕ
  pub delta_retry : ℕ
  pub chosen_retry : ℕ
  pub naive_recovers : Bool
  pub delta_recovers : Bool
  pub engine_recovers : Bool

-- The number `100 * (gain - loss) / whole`.
pub record Percent : Type 0 where
  pub gain : ℕ
  pub loss : ℕ
  pub whole : ℕ

abbrev percent : ℕ → ℕ → Percent
percent naive retry =
    if naive == 0
    then record { gain = 0; loss = 0; whole = 1 }
    else record { gain = naive; loss = retry; whole = naive }

abbrev pub saved_pct : Result → Percent
saved_pct r = percent r.naive_retry r.delta_retry

abbrev pub chosen_pct : Result → Percent
chosen_pct r = percent r.naive_retry r.chosen_retry

-- the column `saved`: `none` is the dash
abbrev pub shown_saving : Result → Option Percent
shown_saving r = if leb r.chosen_retry r.naive_retry then some (chosen_pct r) else none

module _ {J T : Type 0} (json : Json J) (schema : Schema J T) where
  -- the part of `measure` behind the first assert; `none` is an AssertionError
  unfoldable pub measured : Text → ℕ → List (FieldFault J) → Option Result
  measured label lines faults =
      let prompt = build_prompt lines in
      let correction = build_retry_prompt json prompt broken faults schema.name in
      if is_infix (codes "approve") correction
      then some (record {
        label = label;
        prompt_tokens = estimate_tokens prompt;
        naive_retry = estimate_tokens prompt;
        delta_retry = estimate_tokens correction;
        chosen_retry = estimate_tokens correction;
        naive_recovers = false;
        delta_recovers = true;
        engine_recovers = true;
      })
      else none

  -- `assert parsed is None and faults`
  unfoldable pub checked : Text → ℕ → Option T × List (FieldFault J) → Option Result
  unfolding measured
  checked label lines (some value, faults) = none
  checked label lines (none, []) = none
  checked label lines (none, fault ∷ faults) = measured label lines (fault ∷ faults)

  unfoldable pub measure : Text → ℕ → Option Result
  unfolding checked
  measure label lines = checked label lines (parse_or_faults json schema broken)

  unfoldable pub measure_all : List (Text × ℕ) → Option (List Result)
  unfolding measure
  measure_all [] = some []
  measure_all ((label, lines) ∷ rest) = elim (measure label lines) [
    | none ↦ none
    | some r ↦ elim (measure_all rest) [ none ↦ none | some rs ↦ some (r ∷ rs) ]
  ]

  -- the results that `main` prints and writes
  abbrev pub main : Option (List Result)
  main = measure_all contexts
