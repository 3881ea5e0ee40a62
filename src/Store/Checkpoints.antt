-- ===== src/Store/Checkpoints.antt =====
-- What the calls of the store leave of the checkpoints and of the other runs (store.py).
use durable_agent_engine.Base.{
  ℕ, ◌==◌, get_elem?, String, ◌≡◌, ◌≢◌, refl, true, false, ◌&&◌, Option, none, some, List, [], ◌∷◌,
  str_eq, str_eq-false, and_true, ==_iff, Text, arith, eq_iff, Bool-cases, inl, inr,
}
use durable_agent_engine.Exec.Keeps.{Keeps}
use durable_agent_engine.Models.{RunStatus, Step, StepRecord}
use durable_agent_engine.Models.Token.{advisory_lock_id}
use durable_agent_engine.Externals.{Externals, RunRow}
use durable_agent_engine.Store.Sql.{
  StepRow, Tables, run_id_taken, find_run, replace_run, status_conflicts, update_status, lock_held,
  delete_expired, has_step, find_step, steps_of,
}
use durable_agent_engine.Store.{
  Db, load_rows, insert_step, take_lease, release_rows, load, append, acquire, release, set_status,
}
use durable_agent_engine.Store.Connection.{Commits, conn_keeps}

has-find_step :
    (j : String) (i : ℕ) (rows : List StepRow)
    → has_step j i rows ≡ false
    → find_step j i rows ≡ none
unfolding has_step find_step
has-find_step j i [] h = refl
has-find_step j i (r ∷ rs) h = ground (arith, has-find_step j i rs)

-- A new row hides no row that is there.
find_step-cons :
    (j : String) (i : ℕ) (row r : StepRow) (rows : List StepRow)
    → has_step r.run_id r.step_index rows ≡ false
    → find_step j i rows ≡ some row
    → find_step j i (r ∷ rows) ≡ some row
unfolding find_step
find_step-cons j i row r rows new f = elim (Bool-cases (str_eq r.run_id j && r.step_index == i)) [
  | inl same ↦
      let (same_run, same_index) = and_true (str_eq r.run_id j) (r.step_index == i) same in
      let new' : has_step j i rows ≡ false =
        rw ((eq_iff r.run_id j).0 same_run, (==_iff r.step_index i).0 same_index) at new in
      cc (has-find_step j i rows new', f)
  | inr other ↦ rw other f
]

-- A property of the tables that the locks do not touch, that a new checkpoint of `run_id` keeps if it
-- is one of the plan's steps, and that a new status of `run_id` keeps.
pub record Stable (run_id : String) (steps : List Step) (P : Tables → Type 0) : Type 0 where
  pub new_locks : (t t' : Tables) → t'.runs ≡ t.runs → t'.step_records ≡ t.step_records → P t → P t'
  pub new_step :
      (t : Tables) (row : StepRow) (step : Step)
      → row.run_id ≡ run_id
      → get_elem? steps row.step_index ≡ some step
      → row.name ≡ step.name
      → has_step row.run_id row.step_index t.step_records ≡ false
      → run_id_taken row.run_id t.runs ≡ true
      → P t
      → P (record t { step_records = row ∷ t.step_records })
  pub new_status :
      (t : Tables) (status : RunStatus) (error : Option Text)
      → status_conflicts run_id status t.runs ≡ false
      → P t
      → P (record t { runs = replace_run run_id status error t.runs })

-- `P` survives each call of the store that a run of `run_id` makes.
pub record RunKeeps {J : Type 0} (x : Externals J) (run_id : String) (steps : List Step)
    (P : Tables → Type 0) : Type 0 where
  pub loads : Keeps (λ (db : Db). P db.tables) (load x run_id)
  pub appends :
      (r : StepRecord J) (step : Step)
      → r.run_id ≡ run_id
      → get_elem? steps r.index ≡ some step
      → r.name ≡ step.name
      → Keeps (λ (db : Db). P db.tables) (append x r)
  pub statuses :
      (status : RunStatus) (error : Option Text)
      → Keeps (λ (db : Db). P db.tables) (set_status run_id status error)
  pub acquires :
      (key owner : String) (now ttl : ℕ)
      → Keeps (λ (db : Db). P db.tables) (acquire x key owner now ttl)
  pub releases : (key owner : String) → Keeps (λ (db : Db). P db.tables) (release x key owner)

module _ {J : Type 0} (x : Externals J) (run_id : String) (steps : List Step) (P : Tables → Type 0)
    (stable : Stable run_id steps P) where
  insert_keeps :
      (r : StepRecord J) (output : Option String) (t : Tables) (step : Step)
      → r.run_id ≡ run_id
      → get_elem? steps r.index ≡ some step
      → r.name ≡ step.name
      → P t
      → Commits P (insert_step x r output t)
  unfolding insert_step
  insert_keeps r none t step e g n h = tt
  insert_keeps r (some output) t step e g n h =
      elim (Bool-cases (has_step r.run_id r.index t.step_records)) [
        | inl old ↦ rw old h
        | inr new ↦ elim (Bool-cases (run_id_taken r.run_id t.runs)) [
          | inl known ↦ rw (new, known) (stable.new_step t _ step e g n new known h)
          | inr unknown ↦ rw (new, unknown) tt
        ]
      ]

  update_keeps :
      (status : RunStatus) (error : Option Text) (t : Tables)
      → P t
      → Commits P (update_status run_id status error t)
  unfolding update_status
  update_keeps status error t h = elim (Bool-cases (status_conflicts run_id status t.runs)) [
    | inl busy ↦ rw busy tt
    | inr free ↦ rw free (stable.new_status t status error free h)
  ]

  lease_keeps :
      (id : ℕ) (key owner : String) (now ttl : ℕ) (t : Tables)
      → P t
      → Commits P (take_lease id key owner now ttl t)
  unfolding take_lease
  lease_keeps id key owner now ttl t h =
      elim (Bool-cases (lock_held id (delete_expired id now t.locks))) [
        | inl held ↦ rw held tt
        | inr free ↦ rw free (stable.new_locks t _ refl refl h)
      ]

  pub Stable-RunKeeps : RunKeeps x run_id steps P
  unfolding load append set_status acquire release
  Stable-RunKeeps = record {
    loads = λ db h. conn_keeps P (load_rows x run_id) db h h;
    appends = λ r step e g n db h.
        conn_keeps P (insert_step x r (x.dumps r.output)) db h
          (insert_keeps r (x.dumps r.output) db.tables step e g n h);
    statuses = λ status error db h.
        conn_keeps P (update_status run_id status error) db h
          (update_keeps status error db.tables h);
    acquires = λ key owner now ttl db h.
        conn_keeps P (take_lease (advisory_lock_id x key) key owner now ttl) db h
          (lease_keeps (advisory_lock_id x key) key owner now ttl db.tables h);
    releases = λ key owner db h.
        conn_keeps P (release_rows (advisory_lock_id x key) owner) db h
          (stable.new_locks db.tables _ refl refl h);
  }

-- Every checkpoint, of whatever run, is stable.
pub checkpoint-Stable :
    (run_id j : String) (steps : List Step) (i : ℕ) (row : StepRow)
    → Stable run_id steps (λ t. find_step j i t.step_records ≡ some row)
checkpoint-Stable run_id j steps i row = record {
  new_locks = λ t t' er es h. rw es h;
  new_step = λ t r step e g n new known h. find_step-cons j i row r t.step_records new h;
  new_status = λ t status error free h. h;
}

pub find_run-replace_ne :
    (j run_id : String) (status : RunStatus) (error : Option Text) (rs : List RunRow)
    → str_eq run_id j ≡ false
    → find_run j (replace_run run_id status error rs) ≡ find_run j rs
unfolding find_run replace_run
find_run-replace_ne j run_id status error [] n = refl
find_run-replace_ne j run_id status error (r ∷ rs) n = ground (
  arith,
  find_run-replace_ne j run_id status error rs n,
  eq_iff r.run_id run_id,
  eq_iff r.run_id j,
  eq_iff run_id j,
)

-- So is the row of another run, with its checkpoints.
pub other_run-Stable :
    (run_id j : String) (steps : List Step) (row : Option RunRow) (rows : List StepRow)
    → run_id ≢ j
    → Stable run_id steps (λ t. (find_run j t.runs ≡ row) × (steps_of j t.step_records ≡ rows))
unfolding steps_of
other_run-Stable run_id j steps row rows n = record {
  new_locks = λ t t' er es h. rw (er, es) h;
  new_step = λ t r step e g m new known h. (h.0, rw (e, str_eq-false run_id j n) h.1);
  new_status = λ t status error free h.
      (rw (find_run-replace_ne j run_id status error t.runs (str_eq-false run_id j n)) h.0, h.1);
}
