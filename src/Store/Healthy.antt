-- ===== src/Store/Healthy.antt =====
-- The calls of the store on a database whose connections work (store.py).
use durable_agent_engine.Base.{
  ℕ, ◌+◌, String, ◌≡◌, ◌⊎◌, refl, true, false, Option, none, some, List, [], ◌∷◌, str_eq, Text,
  arith, some-injective, Bool-cases, Option-cases, inl, inr,
}
use durable_agent_engine.Exec.{not_serializable, ok, err}
use durable_agent_engine.Models.{RunStatus, is_terminal, StepRecord}
use durable_agent_engine.Models.Token.{advisory_lock_id}
use durable_agent_engine.Externals.{Externals, RunRow}
use durable_agent_engine.Store.Sql.{
  Tables, StepRow, LockRow, is_active, run_id_taken, find_run, replace_run, status_conflicts,
  update_status, has_step, delete_expired, lock_held, delete_lock,
}
use durable_agent_engine.Store.Rows.{own_key_free}
use durable_agent_engine.Store.Valid.{IsValidRuns}
use durable_agent_engine.Store.{
  Db, insert_step, take_lease, release_rows, step_row, lease, load_rows, hydrate_if, load, append,
  acquire, release, set_status,
}
use durable_agent_engine.Store.Connection.{conn_ok, conn_err}

-- Every connection to come works.
abbrev pub healthy : Tables → Db
healthy t = record { tables = t; faults = [] }

-- The tables hold the run, under a terminal status.
pub record IsEnded (run_id : String) (t : Tables) : Type 0 where
  pub row : RunRow
  pub found : find_run run_id t.runs ≡ some row
  pub is_over : is_terminal row.status ≡ true

terminal-active : (st : RunStatus) → is_terminal st ≡ true → is_active st ≡ false
unfolding is_terminal
terminal-active st h = ground arith

pub active-terminal : (st : RunStatus) → is_active st ≡ true → is_terminal st ≡ false
unfolding is_terminal
active-terminal st h = ground arith

-- A row that is found under an id has that id.
pub found_id :
    (id : String) (rs : List RunRow) (row : RunRow)
    → find_run id rs ≡ some row
    → str_eq row.run_id id ≡ true
unfolding find_run
found_id id [] row f = cc f
found_id id (r ∷ rs) row f = ground (arith, found_id id rs row)

pub taken-find :
    (id : String) (rs : List RunRow) (row : RunRow)
    → find_run id rs ≡ some row
    → run_id_taken id rs ≡ true
unfolding run_id_taken find_run
taken-find id [] row h = cc
taken-find id (r ∷ rs) row h = ground (arith, taken-find id rs row)

find_taken :
    (id : String) (rs : List RunRow)
    → run_id_taken id rs ≡ true
    → (row : RunRow) × (find_run id rs ≡ some row)
unfolding run_id_taken find_run
find_taken id [] h = cc
find_taken id (r ∷ rs) h = elim (Bool-cases (str_eq r.run_id id)) [
  | inl same ↦ (r, rw same)
  | inr other ↦ let (row, f) = find_taken id rs (rw other at h) in (row, rw other f)
]

pub find-replaced :
    (id : String) (st : RunStatus) (error : Option Text) (rs : List RunRow) (row : RunRow)
    → find_run id rs ≡ some row
    → find_run id (replace_run id st error rs) ≡ some (record row { status = st; error = error })
unfolding find_run replace_run
find-replaced id st error [] row h = cc
find-replaced id st error (r ∷ rs) row h = elim (Bool-cases (str_eq r.run_id id)) [
  | inl same ↦ let e : r ≡ row = some-injective r row (rw same at h) in rw (same, same, e)
  | inr other ↦ rw (other, other) (find-replaced id st error rs row (rw other at h))
]

abbrev pub with_status : String → RunStatus → Option Text → Tables → Tables
with_status run_id st error t = record t { runs = replace_run run_id st error t.runs }

pub set_unblocked :
    (run_id : String) (st : RunStatus) (error : Option Text) (t : Tables)
    → status_conflicts run_id st t.runs ≡ false
    → set_status run_id st error (healthy t) ≡ (ok tt, healthy (with_status run_id st error t))
unfolding set_status update_status
set_unblocked run_id st error t free =
    conn_ok (update_status run_id st error) t (with_status run_id st error t) tt
      (rw (free, update_status))

conflicts-terminal :
    (run_id : String) (st : RunStatus) (rs : List RunRow)
    → is_terminal st ≡ true
    → status_conflicts run_id st rs ≡ false
unfolding status_conflicts
conflicts-terminal run_id st rs over = elim (Option-cases (find_run run_id rs)) [
  | inl gone ↦ rw (gone, status_conflicts)
  | inr (row, f) ↦ rw (f, status_conflicts, terminal-active st over)
]

-- A terminal status can always be set.
pub set_terminal :
    (run_id : String) (st : RunStatus) (error : Option Text) (t : Tables)
    → is_terminal st ≡ true
    → set_status run_id st error (healthy t) ≡ (ok tt, healthy (with_status run_id st error t))
set_terminal run_id st error t over =
    set_unblocked run_id st error t (conflicts-terminal run_id st t.runs over)

pub with_status-IsEnded :
    (run_id : String) (st : RunStatus) (error : Option Text) (t : Tables)
    → is_terminal st ≡ true
    → run_id_taken run_id t.runs ≡ true
    → IsEnded run_id (with_status run_id st error t)
with_status-IsEnded run_id st error t over known =
    let (row, f) = find_taken run_id t.runs known in
    record {
      row = record row { status = st; error = error };
      found = find-replaced run_id st error t.runs row f;
      is_over = over;
    }

-- An active run can be set to running.
pub set_running :
    (run_id : String) (t : Tables) (row : RunRow)
    → IsValidRuns t.runs
    → find_run run_id t.runs ≡ some row
    → is_active row.status ≡ true
    → set_status run_id RunStatus.running none (healthy t)
      ≡ (ok tt, healthy (with_status run_id RunStatus.running none t))
unfolding status_conflicts
set_running run_id t row v f a =
    set_unblocked run_id RunStatus.running none t
      (rw (f, status_conflicts) (own_key_free run_id row t.runs v f a))

module _ {J : Type 0} (x : Externals J) where
  pub load-healthy :
      (run_id : String) (t : Tables)
      → load x run_id (healthy t) ≡ (ok (hydrate_if x t (find_run run_id t.runs)), healthy t)
  unfolding load load_rows
  load-healthy run_id t = conn_ok (load_rows x run_id) t t _ refl

  -- The rows are those that were there, or one more.
  pub append_grows :
      (r : StepRecord J) (t : Tables) (output : String)
      → x.dumps r.output ≡ some output
      → run_id_taken r.run_id t.runs ≡ true
      → (rows : List StepRow) × (append x r (healthy t)
          ≡ (ok tt, healthy (record t { step_records = rows })))
        × ((rows ≡ t.step_records) ⊎ (rows ≡ step_row r output ∷ t.step_records))
  unfolding append insert_step
  append_grows r t output d known = elim (Bool-cases (has_step r.run_id r.index t.step_records)) [
    | inl old ↦ (
      t.step_records,
      conn_ok (insert_step x r (x.dumps r.output)) t t tt (rw (d, old)),
      inl refl,
    )
    | inr new ↦ (
      step_row r output ∷ t.step_records,
      conn_ok (insert_step x r (x.dumps r.output)) t
          (record t { step_records = step_row r output ∷ t.step_records }) tt (rw (d, new, known)),
      inr refl,
    )
  ]

  -- Where the steps of the tables differ only.
  pub append-healthy :
      (r : StepRecord J) (t : Tables) (output : String)
      → x.dumps r.output ≡ some output
      → run_id_taken r.run_id t.runs ≡ true
      → (rows : List StepRow) × (append x r (healthy t)
          ≡ (ok tt, healthy (record t { step_records = rows })))
  append-healthy r t output d known =
      let (rows, h, grows) = append_grows r t output d known in (rows, h)

  pub acquire-healthy :
      (key owner : String) (now ttl : ℕ) (t : Tables)
      → lock_held (advisory_lock_id x key) (delete_expired (advisory_lock_id x key) now t.locks)
        ≡ false
      → (locks : List LockRow) × (acquire x key owner now ttl (healthy t)
          ≡ (ok tt, healthy (record t { locks = locks })))
  unfolding acquire take_lease
  acquire-healthy key owner now ttl t free =
      let id = advisory_lock_id x key in
      let kept = lease id key owner (now + ttl) ∷ delete_expired id now t.locks in
      (kept, conn_ok (take_lease id key owner now ttl) t (record t { locks = kept }) tt (rw free))

  pub release-healthy :
      (key owner : String) (t : Tables)
      → release x key owner (healthy t)
        ≡ (ok tt, healthy (record t { locks = delete_lock (advisory_lock_id x key) owner t.locks }))
  unfolding release release_rows
  release-healthy key owner t = conn_ok (release_rows (advisory_lock_id x key) owner) t _ tt refl

  pub append_unserializable :
      (r : StepRecord J) (t : Tables)
      → x.dumps r.output ≡ none
      → append x r (healthy t) ≡ (err not_serializable, healthy t)
  unfolding append insert_step
  append_unserializable r t d =
      conn_err (insert_step x r (x.dumps r.output)) t not_serializable (rw d)
