-- ===== src/Models/NextIndex.antt =====
-- The resume position (models.py, `RunState.next_index`).
use durable_agent_engine.Base.{
  ℕ, zero, suc, ◌+◌, ◌≤◌, ◌<◌, ◌≡◌, true, false, List, [], ◌∷◌, length, arith, leb, if◌then◌else◌,
  Bool-cases, inl, inr, ltb, sym, ◌∙◌,
}
use durable_agent_engine.Models.{RunState, contains, first_missing, done, next_index}

-- how many entries are `i` or more
count_from : ℕ → List ℕ → ℕ
count_from i [] = 0
count_from i (j ∷ js) = if leb i j then suc (count_from i js) else count_from i js

count_from-le : (i : ℕ) (js : List ℕ) → count_from i js ≤ length js
unfolding count_from
count_from-le i [] = omega arith
count_from-le i (j ∷ js) = ground (arith, count_from-le i js)

count_from_mono : (i : ℕ) (js : List ℕ) → count_from (i + 1) js ≤ count_from i js
unfolding count_from
count_from_mono i [] = omega arith
count_from_mono i (j ∷ js) = ground (arith, count_from_mono i js)

count_from-lt :
    (i : ℕ) (js : List ℕ) → contains i js ≡ true → count_from (i + 1) js < count_from i js
unfolding count_from contains
count_from-lt i [] h = ground arith
count_from-lt i (j ∷ js) h = ground (arith, count_from-lt i js, count_from_mono i js)

first_missing_not_in :
    (fuel i : ℕ) (js : List ℕ)
    → count_from i js < fuel
    → contains (first_missing fuel i js) js ≡ false
unfolding first_missing
first_missing_not_in zero i js h = elim h [ ]
first_missing_not_in (suc fuel) i js h =
    ground (arith, first_missing_not_in fuel (i + 1) js, count_from-lt i js)

first_missing_below :
    (fuel i : ℕ) (js : List ℕ) (k : ℕ) → i ≤ k → k < first_missing fuel i js → contains k js ≡ true
unfolding first_missing
first_missing_below zero i js k a b = absurd (omega arith)
first_missing_below (suc fuel) i js k a b = elim (Bool-cases (contains i js)) [
  | inl here ↦ elim (Bool-cases (leb (i + 1) k)) [
    | inl later ↦ first_missing_below fuel (i + 1) js k (ground arith) (rw here at b)
    | inr same ↦ let e : k ≡ i = ground arith in rw e here
  ]
  | inr gone ↦ absurd (ground arith)
]

module _ {J : Type 0} where
  -- Every index below the resume position has a successful checkpoint, and the position itself has
  -- none: it is the least such index, and the fuel of the loop is enough.
  pub next_index_least :
      (state : RunState J) (k : ℕ)
      → k < next_index state
      → (contains k (done state.steps) ≡ true)
        × (contains (next_index state) (done state.steps) ≡ false)
  unfolding next_index
  next_index_least state k h = (
    first_missing_below (length (done state.steps) + 1) 0 (done state.steps) k (omega arith) h,
    first_missing_not_in (length (done state.steps) + 1) 0 (done state.steps)
        (omega (arith, count_from-le 0 (done state.steps))),
  )

  -- Where the indices that are done are those below one, that one is the resume position.
  pub next_index_reaches :
      (state : RunState J) (i : ℕ)
      → ((k : ℕ) → contains k (done state.steps) ≡ ltb k i)
      → next_index state ≡ i
  unfolding next_index
  next_index_reaches state i d =
      let gone =
        first_missing_not_in (length (done state.steps) + 1) 0 (done state.steps)
          (omega (arith, count_from-le 0 (done state.steps))) in
      let reached : ltb (next_index state) i ≡ false = sym (d (next_index state)) ∙ gone in
      elim (Bool-cases (ltb i (next_index state))) [
        | inl past ↦
            let here : ltb i i ≡ true =
              sym (d i)
              ∙ first_missing_below (length (done state.steps) + 1) 0 (done state.steps) i
                  (omega arith) (ground (arith, past)) in
            absurd (ground (arith, here))
        | inr not_past ↦ ground (arith, reached, not_past)
      ]
