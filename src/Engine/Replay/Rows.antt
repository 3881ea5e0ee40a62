-- ===== src/Engine/Replay/Rows.antt =====
-- store.py and engine.py: a checkpoint that comes after all others of its run, as the reads see it.
use durable_agent_engine.Base.{
  ℕ, ◌+◌, ◌<◌, String, ◌≡◌, refl, ap, true, false, ◌||◌, List, [], ◌∷◌, ◌++◌, map, ◌==◌, leb,
  str_eq, Bool-cases, inl, inr, arith,
}
use durable_agent_engine.Models.{StepRecord, is_success, contains, done}
use durable_agent_engine.Externals.{Externals}
use durable_agent_engine.Store.{step_record, step_records}
use durable_agent_engine.Store.Sql.{StepRow, insert_sorted, steps_of, has_step}
use durable_agent_engine.Engine.{dict_put, outputs_from}
use durable_agent_engine.Engine.Replay.Story.{undated}

-- Every row's index is below `i`.
abbrev pub AreBelow : ℕ → List StepRow → Type 0
AreBelow i [] = Unit
AreBelow i (r ∷ rs) = (r.step_index < i) × AreBelow i rs

-- A row above all others is put last.
insert_last :
    (r : StepRow) (rs : List StepRow)
    → AreBelow r.step_index rs
    → insert_sorted r rs ≡ rs ++ (r ∷ [])
unfolding insert_sorted
insert_last r [] b = refl
insert_last r (s ∷ ss) b =
    let later : leb r.step_index s.step_index ≡ false = let l = b.0 in ground (arith, l) in
    rw (later, insert_last r ss b.1) refl

pub below_last :
    (i : ℕ) (r : StepRow) (rs : List StepRow)
    → r.step_index ≡ i
    → AreBelow i rs
    → AreBelow (i + 1) (rs ++ (r ∷ []))
below_last i r [] e b = (omega (arith, e), tt)
below_last i r (s ∷ ss) e b = (let l = b.0 in omega (arith, l), below_last i r ss e b.1)

insert_below :
    (i : ℕ) (r : StepRow) (rs : List StepRow)
    → AreBelow i (insert_sorted r rs)
    → (r.step_index < i) × AreBelow i rs
unfolding insert_sorted
insert_below i r [] b = b
insert_below i r (s ∷ ss) b = elim (Bool-cases (leb r.step_index s.step_index)) [
  | inl first ↦ rw first at b
  | inr later ↦
      let c : AreBelow i (s ∷ insert_sorted r ss) = rw later at b in
      let (here, rest) = insert_below i r ss c.1 in (here, (c.0, rest))
]

-- A run whose checkpoints are all below an index has none there.
pub absent :
    (run_id : String) (i : ℕ) (rows : List StepRow)
    → AreBelow i (steps_of run_id rows)
    → has_step run_id i rows ≡ false
unfolding has_step steps_of
absent run_id i [] b = refl
absent run_id i (r ∷ rs) b = elim (Bool-cases (str_eq r.run_id run_id)) [
  | inl own ↦
      let (here, rest) = insert_below i r (steps_of run_id rs) (rw own at b) in
      let other : (r.step_index == i) ≡ false = ground (arith, here) in
      rw (own, other, absent run_id i rs rest) refl
  | inr other ↦ rw (other, absent run_id i rs (rw other at b)) refl
]

pub steps_of_last :
    (run_id : String) (r : StepRow) (rows : List StepRow)
    → str_eq r.run_id run_id ≡ true
    → AreBelow r.step_index (steps_of run_id rows)
    → steps_of run_id (r ∷ rows) ≡ steps_of run_id rows ++ (r ∷ [])
unfolding steps_of
steps_of_last run_id r rows own b = rw own (insert_last r (steps_of run_id rows) b)

module _ {J : Type 0} (x : Externals J) where
  pub records_last :
      (r : StepRow) (rs : List StepRow)
      → step_records x (rs ++ (r ∷ [])) ≡ step_records x rs ++ (step_record x r ∷ [])
  unfolding step_records
  records_last r [] = refl
  records_last r (s ∷ ss) = ap (λ l. step_record x s ∷ l) (records_last r ss)

module _ {J : Type 0} where
  pub outputs_last :
      (r : StepRecord J) (rs : List (StepRecord J)) (d : List (String × J))
      → outputs_from d (rs ++ (r ∷ [])) ≡ dict_put r.name r.output (outputs_from d rs)
  unfolding outputs_from
  outputs_last r [] d = refl
  outputs_last r (s ∷ ss) d = outputs_last r ss (dict_put s.name s.output d)

  pub done_last :
      (k : ℕ) (r : StepRecord J) (rs : List (StepRecord J))
      → is_success r.outcome ≡ true
      → contains k (done (rs ++ (r ∷ []))) ≡ (contains k (done rs) || k == r.index)
  unfolding done contains
  done_last k r [] h = rw h (ground arith)
  done_last k r (s ∷ ss) h = elim (Bool-cases (is_success s.outcome)) [
    | inl good ↦ rw (good, done_last k r ss h) (ground arith)
    | inr bad ↦ rw bad (done_last k r ss h)
  ]

  pub done_failed :
      (r : StepRecord J) (rs : List (StepRecord J))
      → is_success r.outcome ≡ false
      → done (rs ++ (r ∷ [])) ≡ done rs
  unfolding done
  done_failed r [] h = rw h refl
  done_failed r (s ∷ ss) h = rw (done_failed r ss h) refl

  pub undated_last :
      (r : StepRecord J) (rs rest : List (StepRecord J))
      → map undated (rs ++ (r ∷ [])) ++ rest ≡ map undated rs ++ (undated r ∷ rest)
  undated_last r [] rest = refl
  undated_last r (s ∷ ss) rest = ap (λ l. undated s ∷ l) (undated_last r ss rest)

  pub last_mark :
      (r : StepRecord J) (rs : List (StepRecord J))
      → map undated (rs ++ (r ∷ [])) ≡ map undated rs ++ (undated r ∷ [])
  last_mark r [] = refl
  last_mark r (s ∷ ss) = ap (λ l. undated s ∷ l) (last_mark r ss)
