-- ===== src/Engine/History.antt =====
-- engine.py, `_assert_plan_matches_history`: a checkpoint that the loop writes matches the plan.
use durable_agent_engine.Base.{
  String, ◌≡◌, refl, true, List, [], ◌∷◌, str_eq, leb, get_elem?, Bool-cases, inl, inr, and_true,
}
use durable_agent_engine.Models.{Step}
use durable_agent_engine.Externals.{Externals}
use durable_agent_engine.Store.{step_records, step_record}
use durable_agent_engine.Store.Sql.{StepRow, insert_sorted, steps_of}
use durable_agent_engine.Engine.{names_step, plan_matches_history}

module _ {J : Type 0} (x : Externals J) (steps : List Step) where
  -- The rows of one run, as its history.
  abbrev pub RowsMatch : String → List StepRow → Type 0
  RowsMatch id rows = plan_matches_history steps (step_records x (steps_of id rows)) ≡ true

  insert_matches :
      (r : StepRow) (rs : List StepRow)
      → names_step (get_elem? steps r.step_index) r.name ≡ true
      → plan_matches_history steps (step_records x rs) ≡ true
      → plan_matches_history steps (step_records x (insert_sorted r rs)) ≡ true
  unfolding plan_matches_history step_records step_record insert_sorted
  insert_matches r [] h k = rw h refl
  insert_matches r (s ∷ ss) h k = elim (Bool-cases (leb r.step_index s.step_index)) [
    | inl first ↦ rw (first, h) k
    | inr later ↦
        let (here, rest) =
          and_true (names_step (get_elem? steps s.step_index) s.name)
            (plan_matches_history steps (step_records x ss)) k in
        rw (later, here) (insert_matches r ss h rest)
  ]

  pub append-RowsMatch :
      (id : String) (r : StepRow) (rows : List StepRow)
      → names_step (get_elem? steps r.step_index) r.name ≡ true
      → RowsMatch id rows
      → RowsMatch id (r ∷ rows)
  unfolding steps_of
  append-RowsMatch id r rows h k = elim (Bool-cases (str_eq r.run_id id)) [
    | inl same ↦ rw same (insert_matches r (steps_of id rows) h k)
    | inr other ↦ rw other k
  ]
