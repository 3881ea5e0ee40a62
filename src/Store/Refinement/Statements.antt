-- ===== src/Store/Refinement/Statements.antt =====
-- store.py: what each statement makes of a run's state.
use durable_agent_engine.Base.{
  ℕ, String, Bool, true, false, Option, none, some, ◌∷◌, str_eq, eq_iff, Text, ◌≡◌, refl, sym, ap,
  ◌∙◌, Bool-cases, inl, inr,
}
use durable_agent_engine.Exec.{Result, ok, err}
use durable_agent_engine.Models.{RunStatus, RunSpec, StepRecord, RunState}
use durable_agent_engine.Externals.{Externals, RunRow, RoundTrips}
use durable_agent_engine.Store.Sql.{
  Tables, find_run, run_id_taken, replace_run, update_status, status_conflicts, has_step,
  insert_run, key_active, lock_held, delete_expired,
}
use durable_agent_engine.Store.{
  hydrate, hydrate_if, step_records, step_row, insert_step, pending_row, insert_pending, take_lease,
}
use durable_agent_engine.Store.Valid.{HasRuns}
use durable_agent_engine.Store.RoundTrip.{no_steps}
use durable_agent_engine.Store.Healthy.{found_id, find-replaced}
use durable_agent_engine.Store.Checkpoints.{find_run-replace_ne}
use durable_agent_engine.Store.Calls.{Call}
use durable_agent_engine.Store.Abstract.{new_state, on_state, promised, promised_if, view}
use durable_agent_engine.Store.Refinement.Records.{
  replaced_gone, inserted-view, old-view, other-view,
}

-- What a body leaves, by whether it returns.
abbrev pub Decides : {A : Type 0} → (Bool → Tables → Type 0) → Result (A × Tables) → Type 0
Decides P (ok (a, t)) = P true t
Decides P (err e) = Unit

module _ {J : Type 0} (x : Externals J) where
  -- `b` says whether the call returned.
  abbrev pub Kept : Call J → String → Tables → Bool → Tables → Type 0
  Kept c j t b t' = view x t' j ≡ promised_if b c j (view x t j)

  append-found :
      (trips : RoundTrips x) (r : StepRecord J) (output : String) (t : Tables) (j : String)
      (found : Option RunRow)
      → find_run j t.runs ≡ found
      → x.dumps r.output ≡ some output
      → has_step r.run_id r.index t.step_records ≡ false
      → hydrate_if x (record t { step_records = step_row r output ∷ t.step_records }) found
        ≡ promised (Call.append r) j (hydrate_if x t found)
  unfolding promised hydrate_if on_state
  append-found trips r output t j none f d new = elim (Bool-cases (str_eq r.run_id j)) [
    | inl same ↦ rw same refl
    | inr other ↦ rw other refl
  ]
  append-found trips r output t j (some row) f d new =
      let owner : row.run_id ≡ j = (eq_iff row.run_id j).0 (found_id j t.runs row f) in
      elim (Bool-cases (str_eq r.run_id j)) [
        | inl same ↦ rw same (
            ap some (
              inserted-view x trips r output t row d (owner ∙ sym ((eq_iff r.run_id j).0 same))
                new))
        | inr other ↦ rw other (ap some (other-view x r output t row (rw owner other)))
      ]

  again-found :
      (r : StepRecord J) (t : Tables) (j : String) (found : Option RunRow)
      → find_run j t.runs ≡ found
      → has_step r.run_id r.index t.step_records ≡ true
      → hydrate_if x t found ≡ promised (Call.append r) j (hydrate_if x t found)
  unfolding promised hydrate_if on_state
  again-found r t j none f old = elim (Bool-cases (str_eq r.run_id j)) [
    | inl same ↦ rw same refl
    | inr other ↦ rw other refl
  ]
  again-found r t j (some row) f old =
      let owner : row.run_id ≡ j = (eq_iff row.run_id j).0 (found_id j t.runs row f) in
      elim (Bool-cases (str_eq r.run_id j)) [
        | inl same ↦
            rw same (ap some (old-view x r t row (owner ∙ sym ((eq_iff r.run_id j).0 same)) old))
        | inr other ↦ rw other refl
      ]

  pub append-Decides :
      (trips : RoundTrips x) (r : StepRecord J) (t : Tables) (j : String) (output : Option String)
      → x.dumps r.output ≡ output
      → Decides (Kept (Call.append r) j t) (insert_step x r output t)
  unfolding insert_step promised_if
  append-Decides trips r t j none d = tt
  append-Decides trips r t j (some output) d =
      elim (Bool-cases (has_step r.run_id r.index t.step_records)) [
        | inl old ↦ rw old (again-found r t j (find_run j t.runs) refl old)
        | inr new ↦ elim (Bool-cases (run_id_taken r.run_id t.runs)) [
          | inl known ↦
              rw (new, known) (append-found trips r output t j (find_run j t.runs) refl d new)
          | inr unknown ↦ rw (new, unknown) tt
        ]
      ]

  status-found :
      (run_id : String) (status : RunStatus) (error : Option Text) (t : Tables) (j : String)
      (found : Option RunRow)
      → find_run j t.runs ≡ found
      → view x (record t { runs = replace_run run_id status error t.runs }) j
        ≡ promised (Call.set_status run_id status error) j (hydrate_if x t found)
  unfolding promised hydrate_if on_state hydrate
  status-found run_id status error t j none f =
      rw (replaced_gone run_id status error j t.runs f) (elim (Bool-cases (str_eq run_id j)) [
        | inl same ↦ rw same refl
        | inr other ↦ rw other refl
      ])
  status-found run_id status error t j (some row) f = elim (Bool-cases (str_eq run_id j)) [
    | inl same ↦
        let e : run_id ≡ j = (eq_iff run_id j).0 same in
        rw (same, e, find-replaced j status error t.runs row f) refl
    | inr other ↦ rw (other, find_run-replace_ne j run_id status error t.runs other, f) refl
  ]

  pub status-Decides :
      (run_id : String) (status : RunStatus) (error : Option Text) (t : Tables) (j : String)
      → Decides
          (Kept (Call.set_status run_id status error) j t)
          (update_status run_id status error t)
  unfolding update_status promised_if
  status-Decides run_id status error t j =
      elim (Bool-cases (status_conflicts run_id status t.runs)) [
        | inl busy ↦ rw busy tt
        | inr free ↦ rw free (status-found run_id status error t j (find_run j t.runs) refl)
      ]

  create-view :
      (trips : RoundTrips x) (now : ℕ) (run_id : String) (spec : RunSpec J) (payload : String)
      (t : Tables) (j : String)
      → HasRuns t.runs t.step_records
      → x.dumps spec.payload ≡ some payload
      → run_id_taken run_id t.runs ≡ false
      → view x (record t { runs = pending_row x now run_id spec payload ∷ t.runs }) j
        ≡ promised (Call.create_run now run_id spec) j (view x t j)
  unfolding promised find_run hydrate_if hydrate new_state
  create-view trips now run_id spec payload t j refs d new = elim (Bool-cases (str_eq run_id j)) [
    | inl same ↦
        rw
          (
            same,
            no_steps run_id t.runs t.step_records new refs,
            trips spec.payload payload d,
            step_records,
          )
          refl
    | inr other ↦ rw other refl
  ]

  pub create-Decides :
      (trips : RoundTrips x) (now : ℕ) (run_id : String) (spec : RunSpec J) (t : Tables)
      (j : String) (payload : Option String)
      → HasRuns t.runs t.step_records
      → x.dumps spec.payload ≡ payload
      → Decides
          (Kept (Call.create_run now run_id spec) j t)
          (insert_pending x now run_id spec payload t)
  unfolding insert_pending insert_run promised_if
  create-Decides trips now run_id spec t j none refs d = tt
  create-Decides trips now run_id spec t j (some payload) refs d =
      elim (Bool-cases (run_id_taken run_id t.runs)) [
        | inl taken ↦ rw taken tt
        | inr new ↦ elim (Bool-cases (key_active spec.idempotency_key run_id t.runs)) [
          | inl active ↦ rw (new, active) tt
          | inr free ↦ rw (new, free) (create-view trips now run_id spec payload t j refs d new)
        ]
      ]

  pub lease-Decides :
      (c : Call J) (id : ℕ) (key owner : String) (now ttl : ℕ) (t : Tables) (j : String)
      → ((before : Option (RunState J)) → promised c j before ≡ before)
      → Decides (Kept c j t) (take_lease id key owner now ttl t)
  unfolding take_lease promised_if hydrate_if
  lease-Decides c id key owner now ttl t j same =
      elim (Bool-cases (lock_held id (delete_expired id now t.locks))) [
        | inl held ↦ rw held tt
        | inr free ↦ rw free (sym (same (view x t j)))
      ]
