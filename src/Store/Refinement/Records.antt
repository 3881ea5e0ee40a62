-- ===== src/Store/Refinement/Records.antt =====
-- store.py: the checkpoints of a state, as the rows hold them.
use durable_agent_engine.Base.{
  ℕ, String, true, false, ◌||◌, ◌==◌, leb, Option, none, some, List, [], ◌∷◌, str_eq, eq_iff, Text,
  ◌≡◌, refl, sym, subst, Bool-cases, inl, inr, arith,
}
use durable_agent_engine.Models.{RunStatus, StepRecord}
use durable_agent_engine.Externals.{Externals, RunRow, RoundTrips}
use durable_agent_engine.Store.Sql.{
  StepRow, Tables, find_run, replace_run, has_step, insert_sorted, steps_of,
}
use durable_agent_engine.Store.{hydrate, step_record, step_records, step_row}
use durable_agent_engine.Store.Abstract.{has_record, insert_record, with_record}

pub replaced_gone :
    (run_id : String) (status : RunStatus) (error : Option Text) (j : String) (rs : List RunRow)
    → find_run j rs ≡ none
    → find_run j (replace_run run_id status error rs) ≡ none
unfolding find_run replace_run
replaced_gone run_id status error j [] h = refl
replaced_gone run_id status error j (r ∷ rs) h =
    ground (arith, replaced_gone run_id status error j rs)

module _ {J : Type 0} (x : Externals J) where
  record-sorted :
      (r : StepRow) (rs : List StepRow)
      → step_records x (insert_sorted r rs) ≡ insert_record (step_record x r) (step_records x rs)
  unfolding insert_sorted step_records insert_record step_record
  record-sorted r [] = refl
  record-sorted r (s ∷ ss) = elim (Bool-cases (leb r.step_index s.step_index)) [
    | inl first ↦ rw (first, step_records) refl
    | inr later ↦ rw (later, step_records, record-sorted r ss) refl
  ]

  has_record-sorted :
      (i : ℕ) (r : StepRow) (rs : List StepRow)
      → has_record i (step_records x (insert_sorted r rs))
        ≡ (r.step_index == i || has_record i (step_records x rs))
  unfolding insert_sorted step_records has_record step_record
  has_record-sorted i r [] = refl
  has_record-sorted i r (s ∷ ss) = elim (Bool-cases (leb r.step_index s.step_index)) [
    | inl first ↦ rw (first, step_records) refl
    | inr later ↦ rw (later, step_records, has_record-sorted i r ss) (ground arith)
  ]

  -- The primary key of the rows is the index of a state's checkpoints.
  has_record-steps :
      (j : String) (i : ℕ) (rs : List StepRow)
      → has_record i (step_records x (steps_of j rs)) ≡ has_step j i rs
  unfolding steps_of has_step has_record step_records
  has_record-steps j i [] = refl
  has_record-steps j i (r ∷ rs) = elim (Bool-cases (str_eq r.run_id j)) [
    | inl same ↦ rw (same, has_record-sorted i r (steps_of j rs), has_record-steps j i rs) refl
    | inr other ↦ rw (other, has_record-steps j i rs) refl
  ]

  record_of_row :
      (trips : RoundTrips x) (r : StepRecord J) (output : String)
      → x.dumps r.output ≡ some output
      → step_record x (step_row r output) ≡ r
  unfolding step_record
  record_of_row trips r output d = rw (trips r.output output d) refl

  -- a run whose row is there: its checkpoints with the new one
  pub inserted-view :
      (trips : RoundTrips x) (r : StepRecord J) (output : String) (t : Tables) (row : RunRow)
      → x.dumps r.output ≡ some output
      → row.run_id ≡ r.run_id
      → has_step r.run_id r.index t.step_records ≡ false
      → hydrate x (record t { step_records = step_row r output ∷ t.step_records }) row
        ≡ with_record r (hydrate x t row)
  unfolding hydrate with_record steps_of
  inserted-view trips r output t row d same new =
      let new' : has_step row.run_id r.index t.step_records ≡ false =
        subst (λ u. has_step u r.index t.step_records ≡ false) (sym same) new in
      rw
        (
          (eq_iff r.run_id row.run_id).1 (sym same),
          record-sorted (step_row r output) (steps_of row.run_id t.step_records),
          record_of_row trips r output d,
          has_record-steps row.run_id r.index t.step_records,
          new',
        )
        refl

  pub old-view :
      (r : StepRecord J) (t : Tables) (row : RunRow)
      → row.run_id ≡ r.run_id
      → has_step r.run_id r.index t.step_records ≡ true
      → hydrate x t row ≡ with_record r (hydrate x t row)
  unfolding hydrate with_record
  old-view r t row same old = rw (same, has_record-steps r.run_id r.index t.step_records, old) refl

  pub other-view :
      (r : StepRecord J) (output : String) (t : Tables) (row : RunRow)
      → str_eq r.run_id row.run_id ≡ false
      → hydrate x (record t { step_records = step_row r output ∷ t.step_records }) row
        ≡ hydrate x t row
  unfolding hydrate steps_of
  other-view r output t row other = rw other refl
