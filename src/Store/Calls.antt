-- ===== src/Store/Calls.antt =====
-- Any sequence of calls on the store, by any workers and in any order (store.py).
use durable_agent_engine.Base.{
  Text, ℕ, String, ◌≡◌, sym, ◌∙◌, Bool, true, false, Option, some, some-injective, List, [], ◌∷◌,
  str_eq, str_eq-false_sym, false≢true, arith, eq_iff, Bool-cases, inl, inr,
}
use durable_agent_engine.Models.{RunStatus, RunSpec, StepRecord}
use durable_agent_engine.Externals.{Externals, RunRow}
use durable_agent_engine.Store.Sql.{Tables, is_active, key_active, find_run}
use durable_agent_engine.Store.Rows.{key_active-find}
use durable_agent_engine.Store.Valid.{IsValid, IsValidRuns}
use durable_agent_engine.Store
use durable_agent_engine.Store.{Db}
use durable_agent_engine.Store.Invariant.{
  load-IsValid, find_by_key-IsValid, create_run-IsValid, append-IsValid, acquire-IsValid,
  release-IsValid, set_status-IsValid,
}

-- The methods of the `Store` protocol that touch the tables.
pub data Call (J : Type 0) : Type 0 where
  create_run : ℕ → String → RunSpec J → Call J
  load find_by_key : String → Call J
  append : StepRecord J → Call J
  set_status : String → RunStatus → Option Text → Call J
  acquire : String → String → ℕ → ℕ → Call J
  release : String → String → Call J

abbrev pub empty_tables : Tables
empty_tables = record { runs = []; step_records = []; locks = [] }

module _ {J : Type 0} (x : Externals J) where
  -- the database after a call, which may have returned or raised
  unfoldable pub perform : Call J → Db → Db
  perform (Call.create_run now run_id spec) db = (Store.create_run x now run_id spec db).1
  perform (Call.load run_id) db = (Store.load x run_id db).1
  perform (Call.find_by_key key) db = (Store.find_by_key x key db).1
  perform (Call.append r) db = (Store.append x r db).1
  perform (Call.set_status run_id status error) db = (Store.set_status run_id status error db).1
  perform (Call.acquire key owner now ttl) db = (Store.acquire x key owner now ttl db).1
  perform (Call.release key owner) db = (Store.release x key owner db).1

  unfoldable pub perform_all : List (Call J) → Db → Db
  unfolding perform
  perform_all [] db = db
  perform_all (c ∷ cs) db = perform_all cs (perform c db)

  pub perform-IsValid : (c : Call J) (db : Db) → IsValid db.tables → IsValid (perform c db).tables
  unfolding perform
  perform-IsValid (Call.create_run now run_id spec) db v = create_run-IsValid x now run_id spec db v
  perform-IsValid (Call.load run_id) db v = load-IsValid x run_id db v
  perform-IsValid (Call.find_by_key key) db v = find_by_key-IsValid x key db v
  perform-IsValid (Call.append r) db v = append-IsValid x r db v
  perform-IsValid (Call.set_status run_id status error) db v =
      set_status-IsValid run_id status error db v
  perform-IsValid (Call.acquire key owner now ttl) db v = acquire-IsValid x key owner now ttl db v
  perform-IsValid (Call.release key owner) db v = release-IsValid x key owner db v

  perform_all-IsValid :
      (cs : List (Call J)) (db : Db) → IsValid db.tables → IsValid (perform_all cs db).tables
  unfolding perform_all
  perform_all-IsValid [] db v = v
  perform_all-IsValid (c ∷ cs) db v = perform_all-IsValid cs (perform c db) (perform-IsValid c db v)

one_entry :
    (r q : RunRow) (b : String) (rb : RunRow) (rs : List RunRow)
    → IsValidRuns (r ∷ rs)
    → some r ≡ some q
    → find_run b rs ≡ some rb
    → is_active q.status ≡ true
    → is_active rb.status ≡ true
    → q.idempotency_key ≡ rb.idempotency_key
    → str_eq r.run_id b ≡ false
    → ⊥
one_entry r q b rb rs v g f aq ab k n =
    let same : r ≡ q = some-injective r q g in
    let free : key_active rb.idempotency_key r.run_id rs ≡ false =
      rw (← k, ← same) (v.1 (rw same aq)) in
    let busy : key_active rb.idempotency_key r.run_id rs ≡ true =
      key_active-find b r.run_id rb rs f ab (str_eq-false_sym r.run_id b n) in
    false≢true (sym free ∙ busy)

-- Two active rows with one key are one row.
pub active_unique :
    (a b : String) (ra rb : RunRow) (rs : List RunRow)
    → IsValidRuns rs
    → find_run a rs ≡ some ra
    → find_run b rs ≡ some rb
    → is_active ra.status ≡ true
    → is_active rb.status ≡ true
    → ra.idempotency_key ≡ rb.idempotency_key
    → a ≡ b
unfolding find_run
active_unique a b ra rb [] v fa fb aa ab k = cc
active_unique a b ra rb (r ∷ rs) v fa fb aa ab k = elim (Bool-cases (str_eq r.run_id a)) [
  | inl is_a ↦ elim (Bool-cases (str_eq r.run_id b)) [
    | inl is_b ↦ sym ((eq_iff r.run_id a).0 is_a) ∙ (eq_iff r.run_id b).0 is_b
    | inr not_b ↦ absurd (one_entry r ra b rb rs v (rw is_a at fa) (rw not_b at fb) aa ab k not_b)
  ]
  | inr not_a ↦ elim (Bool-cases (str_eq r.run_id b)) [
    | inl is_b ↦
        absurd (one_entry r rb a ra rs v (rw is_b at fb) (rw not_a at fa) ab aa (sym k) not_a)
    | inr not_b ↦ active_unique a b ra rb rs v.2 (rw not_a at fa) (rw not_b at fb) aa ab k
  ]
]

-- Whatever calls the workers make on a fresh database, in whatever order and with whatever
-- connection faults, two runs that are both pending or running and share an idempotency key are
-- one run.
pub one_active_run_per_key :
    {J : Type 0} (x : Externals J) (calls : List (Call J)) (faults : List Bool) (a b : String)
    (ra rb : RunRow)
    → let runs =
        (perform_all x calls (record { tables = empty_tables; faults = faults })).tables.runs in
      find_run a runs ≡ some ra
      → find_run b runs ≡ some rb
      → is_active ra.status ≡ true
      → is_active rb.status ≡ true
      → ra.idempotency_key ≡ rb.idempotency_key
      → a ≡ b
one_active_run_per_key x calls faults a b ra rb =
    active_unique a b ra rb _
      (perform_all-IsValid x calls (record { tables = empty_tables; faults = faults })
        (omega arith)).runs
