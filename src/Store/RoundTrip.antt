-- ===== src/Store/RoundTrip.antt =====
-- store.py: a run that is created is loaded as it was returned.
use durable_agent_engine.Base.{
  ℕ, String, ◌≡◌, refl, sym, ◌∙◌, true, false, Option, none, some, List, [], ◌∷◌, str_eq, eq_iff,
  eq_refl, false≢true, Bool-cases, inl, inr, subst,
}
use durable_agent_engine.Exec.{integrity_error, not_serializable, Result, ok, err, continue, Yields}
use durable_agent_engine.Models.{RunSpec, RunState}
use durable_agent_engine.Externals.{Externals, RunRow, RoundTrips}
use durable_agent_engine.Store.Sql.{
  Tables, StepRow, run_id_taken, find_run, insert_run, key_active, steps_of,
}
use durable_agent_engine.Store.Valid.{HasRuns}
use durable_agent_engine.Store.{
  Db, pending_row, insert_pending, raise_active, after_insert, find_by_key, create_run, load,
  hydrate, hydrate_if, step_records,
}
use durable_agent_engine.Store.Connection.{conn_ok, conn_err}
use durable_agent_engine.Store.Healthy.{healthy, load-healthy}

-- A run that is not there has no checkpoints.
pub no_steps :
    (run_id : String) (runs : List RunRow) (rows : List StepRow)
    → run_id_taken run_id runs ≡ false
    → HasRuns runs rows
    → steps_of run_id rows ≡ []
unfolding steps_of
no_steps run_id runs [] h k = refl
no_steps run_id runs (r ∷ rs) h k = elim (Bool-cases (str_eq r.run_id run_id)) [
  | inl same ↦ absurd (
      false≢true
        (sym h ∙ subst (λ u. run_id_taken u runs ≡ true) ((eq_iff r.run_id run_id).0 same) k.0))
  | inr other ↦ rw (other, no_steps run_id runs rs h k.1) refl
]

module _ {J : Type 0} (x : Externals J) where
  -- What create_run returns, load finds in what it leaves.
  abbrev pub IsLoaded : String → Result (RunState J) × Db → Type 0
  IsLoaded run_id p =
      Yields (λ (state : RunState J). load x run_id p.1 ≡ (ok (some state), p.1)) p.0

  -- `RunAlreadyActive`, or the IntegrityError itself: the `except` clause returns nothing.
  raised-IsLoaded :
      (run_id : String) (r : Result (Option (RunState J))) (db : Db)
      → IsLoaded run_id (continue r (raise_active x) db)
  unfolding raise_active
  raised-IsLoaded run_id (ok none) db = tt
  raised-IsLoaded run_id (ok (some existing)) db = tt
  raised-IsLoaded run_id (err e) db = tt

  created-IsLoaded :
      (now : ℕ) (run_id : String) (spec : RunSpec J) (t : Tables) (payload : String)
      → RoundTrips x
      → HasRuns t.runs t.step_records
      → x.dumps spec.payload ≡ some payload
      → run_id_taken run_id t.runs ≡ false
      → IsLoaded run_id (
          after_insert x run_id spec
            (ok tt)
            (healthy (record t { runs = pending_row x now run_id spec payload ∷ t.runs })))
  unfolding find_run hydrate_if hydrate step_records after_insert
  created-IsLoaded now run_id spec t payload trips refs d new =
      rw
        (
          load-healthy x run_id
              (record t { runs = pending_row x now run_id spec payload ∷ t.runs }),
          eq_refl run_id,
          no_steps run_id t.runs t.step_records new refs,
          trips spec.payload payload d,
        )
        refl

  refused-IsLoaded :
      (run_id : String) (spec : RunSpec J) (db : Db)
      → IsLoaded run_id (after_insert x run_id spec (err integrity_error) db)
  unfolding after_insert
  refused-IsLoaded run_id spec db =
      raised-IsLoaded run_id (find_by_key x spec.idempotency_key db).0
        (find_by_key x spec.idempotency_key db).1

  inserted-IsLoaded :
      (now : ℕ) (run_id : String) (spec : RunSpec J) (t : Tables) (payload : Option String)
      → RoundTrips x
      → HasRuns t.runs t.step_records
      → x.dumps spec.payload ≡ payload
      → IsLoaded run_id (create_run x now run_id spec (healthy t))
  unfolding create_run insert_pending insert_run after_insert
  inserted-IsLoaded now run_id spec t none trips refs d =
      rw (d, conn_err (insert_pending x now run_id spec none) t not_serializable refl) tt
  inserted-IsLoaded now run_id spec t (some payload) trips refs d =
      let row = pending_row x now run_id spec payload in
      elim (Bool-cases (run_id_taken run_id t.runs)) [
        | inl taken ↦
            rw
              (
                d,
                conn_err (insert_pending x now run_id spec (some payload)) t integrity_error
                    (rw taken refl),
              )
              (refused-IsLoaded run_id spec (healthy t))
        | inr new ↦ elim (Bool-cases (key_active spec.idempotency_key run_id t.runs)) [
          | inl active ↦
              rw
                (
                  d,
                  conn_err (insert_pending x now run_id spec (some payload)) t integrity_error
                      (rw (new, active) refl),
                )
                (refused-IsLoaded run_id spec (healthy t))
          | inr free ↦
              rw
                (
                  d,
                  conn_ok (insert_pending x now run_id spec (some payload)) t
                      (record t { runs = row ∷ t.runs }) tt (rw (new, free) refl),
                )
                (created-IsLoaded now run_id spec t payload trips refs d new)
        ]
      ]

  -- On connections that work, with a codec that reads back what it writes, and where every
  -- checkpoint's run exists: whenever create_run returns a state, load gives exactly that state, and
  -- changes nothing.
  pub load-create_run :
      (now : ℕ) (run_id : String) (spec : RunSpec J) (t : Tables)
      → RoundTrips x
      → HasRuns t.runs t.step_records
      → let created = create_run x now run_id spec (healthy t) in
        Yields
          (λ (state : RunState J). load x run_id created.1 ≡ (ok (some state), created.1))
          created.0
  load-create_run now run_id spec t trips refs =
      inserted-IsLoaded now run_id spec t (x.dumps spec.payload) trips refs refl
