-- ===== src/Store/Creates.antt =====
-- store.py, `create_run`: what it leaves of the tables, and the run that it makes.
use durable_agent_engine.Base.{
  ℕ, String, ◌≡◌, refl, false, Option, none, some, ◌∷◌, Bool-cases, inl, inr,
}
use durable_agent_engine.Exec.{integrity_error, Result, ok, err, continue, Yields}
use durable_agent_engine.Exec.Keeps.{Keeps, bind-Keeps, Leaves}
use durable_agent_engine.Models.{RunSpec, RunState}
use durable_agent_engine.Externals.{Externals, RunRow}
use durable_agent_engine.Store.Sql.{Tables, run_id_taken, key_active, insert_run}
use durable_agent_engine.Store.Connection.{Commits, conn_keeps, conn-Leaves}
use durable_agent_engine.Store.{
  Db, pending_row, insert_pending, find_rows, find_by_key, raise_active, after_insert, create_run,
}

module _ {J : Type 0} (x : Externals J) where
  -- What every new row leaves, a submission leaves.
  module _ (Q : Tables → Type 0)
      (new : (r : RunRow) (t : Tables)
        → run_id_taken r.run_id t.runs ≡ false
        → Q t
        → Q (record t { runs = r ∷ t.runs })) where
    abbrev P : Db → Type 0
    P db = Q db.tables

    insert_keeps :
        (now : ℕ) (run_id : String) (spec : RunSpec J) (payload : Option String) (t : Tables)
        → Q t
        → Commits Q (insert_pending x now run_id spec payload t)
    unfolding insert_pending insert_run
    insert_keeps now run_id spec none t h = tt
    insert_keeps now run_id spec (some payload) t h =
        elim (Bool-cases (run_id_taken run_id t.runs)) [
          | inl taken ↦ rw taken tt
          | inr fresh ↦ elim (Bool-cases (key_active spec.idempotency_key run_id t.runs)) [
            | inl busy ↦ rw (fresh, busy) tt
            | inr free ↦ rw (fresh, free) (new _ t fresh h)
          ]
        ]

    raise_active-Keeps : (found : Option (RunState J)) → Keeps P (raise_active x found)
    unfolding raise_active
    raise_active-Keeps none db h = h
    raise_active-Keeps (some state) db h = h

    find_by_key-Keeps : (key : String) → Keeps P (find_by_key x key)
    unfolding find_by_key find_rows
    find_by_key-Keeps key db h = conn_keeps Q (find_rows x key) db h h

    after_insert-Keeps :
        (run_id : String) (spec : RunSpec J) (r : Result (Unit {0}))
        → Keeps P (after_insert x run_id spec r)
    unfolding after_insert
    after_insert-Keeps run_id spec (err integrity_error) db h =
        bind-Keeps P (find_by_key x spec.idempotency_key) (raise_active x)
          (find_by_key-Keeps spec.idempotency_key) raise_active-Keeps db h
    after_insert-Keeps run_id spec (ok a) db h = h
    after_insert-Keeps run_id spec (err e) db h = h

    pub create_run-Keeps :
        (now : ℕ) (run_id : String) (spec : RunSpec J) → Keeps P (create_run x now run_id spec)
    unfolding create_run
    create_run-Keeps now run_id spec db h = after_insert-Keeps run_id spec _ _ (
        conn_keeps Q (insert_pending x now run_id spec (x.dumps spec.payload)) db h
          (insert_keeps now run_id spec (x.dumps spec.payload) db.tables h))

  -- The tables with the run's row before the others.
  abbrev pub Made : ℕ → String → RunSpec J → Tables → Tables → Type 0
  Made now run_id spec old t =
      (payload : String) × (t
        ≡ record old { runs = pending_row x now run_id spec payload ∷ old.runs })

  inserted-Made :
      (now : ℕ) (run_id : String) (spec : RunSpec J) (payload : Option String) (t : Tables)
      → Yields
          (λ (p : Unit {0} × Tables). Made now run_id spec t p.1)
          (insert_pending x now run_id spec payload t)
  unfolding insert_pending insert_run
  inserted-Made now run_id spec none t = tt
  inserted-Made now run_id spec (some payload) t = elim (Bool-cases (run_id_taken run_id t.runs)) [
    | inl taken ↦ rw taken tt
    | inr fresh ↦ elim (Bool-cases (key_active spec.idempotency_key run_id t.runs)) [
      | inl busy ↦ rw (fresh, busy) tt
      | inr free ↦ rw (fresh, free) (payload, refl)
    ]
  ]

  -- Where it returns, it has made the run.
  abbrev Creates : ℕ → String → RunSpec J → Tables → Result (RunState J) × Db → Type 0
  Creates now run_id spec old (r, db) =
      Leaves
        (λ (state : RunState J) (db : Db).
          (state.run_id ≡ run_id) × Made now run_id spec old db.tables)
        (λ db. Unit) r db

  raised-Creates :
      (now : ℕ) (run_id : String) (spec : RunSpec J) (old : Tables)
      (r : Result (Option (RunState J))) (db : Db)
      → Creates now run_id spec old (continue r (raise_active x) db)
  unfolding raise_active
  raised-Creates now run_id spec old (ok none) db = tt
  raised-Creates now run_id spec old (ok (some state)) db = tt
  raised-Creates now run_id spec old (err error) db = tt

  after_insert-Creates :
      (now : ℕ) (run_id : String) (spec : RunSpec J) (old : Tables) (r : Result (Unit {0}))
      (db : Db)
      → Leaves (λ u (db : Db). Made now run_id spec old db.tables) (λ db. Unit {0}) r db
      → Creates now run_id spec old (after_insert x run_id spec r db)
  unfolding after_insert
  after_insert-Creates now run_id spec old (err integrity_error) db h =
      raised-Creates now run_id spec old (find_by_key x spec.idempotency_key db).0
        (find_by_key x spec.idempotency_key db).1
  after_insert-Creates now run_id spec old (ok u) db h = (refl, h)
  after_insert-Creates now run_id spec old (err error) db h = tt

  pub create_run-Creates :
      (now : ℕ) (run_id : String) (spec : RunSpec J) (db : Db)
      → Creates now run_id spec db.tables (create_run x now run_id spec db)
  unfolding create_run
  create_run-Creates now run_id spec db = after_insert-Creates now run_id spec db.tables _ _ (
      conn-Leaves (λ u. Made now run_id spec db.tables) (λ t. Unit)
        (insert_pending x now run_id spec (x.dumps spec.payload)) db tt
        (inserted-Made now run_id spec (x.dumps spec.payload) db.tables))
