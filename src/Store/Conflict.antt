-- ===== src/Store/Conflict.antt =====
-- store.py, `SQLiteStore.create_run`: the answer to a second active run of a key.
use durable_agent_engine.Base.{
  ℕ, String, ◌≡◌, refl, sym, subst, ◌∙◌, true, false, some, str_eq, eq_iff, false≢true, Bool-cases,
  inl, inr,
}
use durable_agent_engine.Exec.{run_already_active, integrity_error, ok, err}
use durable_agent_engine.Models.{RunSpec}
use durable_agent_engine.Externals.{Externals, RunRow}
use durable_agent_engine.Store.Sql.{
  Tables, is_active, key_active, run_id_taken, find_run, rows_of_key, insert_run,
}
use durable_agent_engine.Store.Rows.{key_active-find}
use durable_agent_engine.Store.{
  insert_pending, after_insert, raise_active, find_rows, find_by_key, create_run, hydrate,
  hydrate_if,
}
use durable_agent_engine.Store.Connection.{conn_ok, conn_err}
use durable_agent_engine.Store.Healthy.{healthy, taken-find}

key_taken :
    (key run_id : String) (t : Tables) (row : RunRow)
    → find_run row.run_id t.runs ≡ some row
    → is_active row.status ≡ true
    → row.idempotency_key ≡ key
    → run_id_taken run_id t.runs ≡ false
    → key_active key run_id t.runs ≡ true
key_taken key run_id t row f a k new = elim (Bool-cases (str_eq row.run_id run_id)) [
  | inl same ↦ absurd (
      false≢true (
        sym new
        ∙ subst (λ u. run_id_taken u t.runs ≡ true) ((eq_iff row.run_id run_id).0 same)
            (taken-find row.run_id t.runs row f)))
  | inr other ↦
      subst (λ u. key_active u run_id t.runs ≡ true) k
        (key_active-find row.run_id run_id row t.runs f a other)
]

module _ {J : Type 0} (x : Externals J) where
  insert_conflicts :
      (now : ℕ) (run_id : String) (spec : RunSpec J) (payload : String) (t : Tables) (row : RunRow)
      → find_run row.run_id t.runs ≡ some row
      → is_active row.status ≡ true
      → row.idempotency_key ≡ spec.idempotency_key
      → insert_pending x now run_id spec (some payload) t ≡ err integrity_error
  unfolding insert_pending insert_run
  insert_conflicts now run_id spec payload t row f a k =
      elim (Bool-cases (run_id_taken run_id t.runs)) [
        | inl taken ↦ rw taken refl
        | inr new ↦ rw (new, key_taken spec.idempotency_key run_id t row f a k new) refl
      ]

  newest-healthy :
      (key : String) (t : Tables) (row : RunRow)
      → x.newest (rows_of_key key t.runs) ≡ some row
      → find_by_key x key (healthy t) ≡ (ok (some (hydrate x t row)), healthy t)
  unfolding find_by_key find_rows hydrate_if
  newest-healthy key t row n = conn_ok (find_rows x key) t t (some (hydrate x t row)) (rw n refl)

  pub create_run-conflict :
      (now : ℕ) (run_id : String) (spec : RunSpec J) (payload : String) (t : Tables) (row : RunRow)
      → x.dumps spec.payload ≡ some payload
      → find_run row.run_id t.runs ≡ some row
      → is_active row.status ≡ true
      → row.idempotency_key ≡ spec.idempotency_key
      → x.newest (rows_of_key spec.idempotency_key t.runs) ≡ some row
      → create_run x now run_id spec (healthy t) ≡ (err (run_already_active row.run_id), healthy t)
  unfolding create_run after_insert raise_active hydrate
  create_run-conflict now run_id spec payload t row d f a k n =
      rw
        (
          d,
          conn_err (insert_pending x now run_id spec (some payload)) t integrity_error
              (insert_conflicts now run_id spec payload t row f a k),
          newest-healthy spec.idempotency_key t row n,
        )
        refl
