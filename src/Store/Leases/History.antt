-- ===== src/Store/Leases/History.antt =====
-- store.py, `SQLiteStore.lock`: who is inside the lock after a history of calls.
use durable_agent_engine.Base.{
  ℕ, ◌+◌, ◌≤◌, ◌<◌, String, ◌≡◌, refl, sym, ap, ◌∙◌, Bool, false, Option, none, some,
  some-injective, List, [], ◌∷◌, Text, ==_refl, Bool-cases, inl, inr,
}
use durable_agent_engine.Exec.{Result, ok, err}
use durable_agent_engine.Exec.Keeps.{Leaves}
use durable_agent_engine.Models.{RunStatus, StepRecord}
use durable_agent_engine.Models.Token.{advisory_lock_id}
use durable_agent_engine.Externals.{Externals}
use durable_agent_engine.Store
use durable_agent_engine.Store.{
  Db, lease, take_lease, release_rows, insert_step, load_rows, find_rows,
}
use durable_agent_engine.Store.Sql.{
  Tables, LockRow, delete_expired, lock_held, delete_lock, has_step, run_id_taken, update_status,
  status_conflicts,
}
use durable_agent_engine.Store.Calls.{Call, perform, perform_all, empty_tables}
use durable_agent_engine.Store.Connection.{Commits, conn_keeps, conn-Leaves}
use durable_agent_engine.Store.Creates.{create_run-Keeps}
use durable_agent_engine.Store.Leases.{
  HaveRows, later-HaveRows, taken-HaveRows, left-HaveRows, released-HaveRows, Inside, Inside-row,
  find_lock,
}

module _ {J : Type 0} (x : Externals J) where
  granted : Result (Unit {0}) → LockRow → List LockRow → List LockRow
  granted (ok u) h hs = h ∷ hs
  granted (err error) h hs = hs

  -- The leases of the workers that are inside, after a call: one that the lock lets in, and one that
  -- leaves, be the row deleted or not.
  unfoldable pub inside_after : Call J → Db → List LockRow → List LockRow
  unfolding granted
  inside_after (Call.acquire key owner now ttl) db hs =
      granted (Store.acquire x key owner now ttl db).0
        (lease (advisory_lock_id x key) key owner (now + ttl)) hs
  inside_after (Call.release key owner) db hs = delete_lock (advisory_lock_id x key) owner hs
  inside_after _ db hs = hs

  unfoldable pub inside : List (Call J) → Db → List LockRow → List LockRow
  unfolding inside_after
  inside [] db hs = hs
  inside (c ∷ cs) db hs = inside cs (perform x c db) (inside_after c db hs)

  -- The clock of the calls does not run backwards, from `time` to `last`.
  abbrev pub AreTimed : ℕ → List (Call J) → ℕ → Type 0
  AreTimed time [] last = time ≤ last
  AreTimed time (Call.acquire key owner now ttl ∷ cs) last = (time ≤ now) × AreTimed now cs last
  AreTimed time (c ∷ cs) last = AreTimed time cs last

  abbrev Kept : List LockRow → Tables → Type 0
  Kept locks t = t.locks ≡ locks

  insert-Kept :
      (r : StepRecord J) (output : Option String) (t : Tables)
      → Commits (Kept t.locks) (insert_step x r output t)
  unfolding insert_step
  insert-Kept r none t = tt
  insert-Kept r (some output) t = elim (Bool-cases (has_step r.run_id r.index t.step_records)) [
    | inl old ↦ rw old refl
    | inr new ↦ elim (Bool-cases (run_id_taken r.run_id t.runs)) [
      | inl known ↦ rw (new, known) refl
      | inr unknown ↦ rw (new, unknown) tt
    ]
  ]

  update-Kept :
      (run_id : String) (status : RunStatus) (error : Option Text) (t : Tables)
      → Commits (Kept t.locks) (update_status run_id status error t)
  unfolding update_status
  update-Kept run_id status error t = elim (Bool-cases (status_conflicts run_id status t.runs)) [
    | inl busy ↦ rw busy tt
    | inr free ↦ rw free refl
  ]

  acquire-Leaves :
      (key owner : String) (now ttl : ℕ) (db : Db)
      → let id = advisory_lock_id x key in
        let kept = delete_expired id now db.tables.locks in
        Leaves
          (λ u (db' : Db).
            (db'.tables.locks ≡ lease id key owner (now + ttl) ∷ kept)
            × (lock_held id kept ≡ false))
          (λ db'. db'.tables.locks ≡ db.tables.locks)
          (Store.acquire x key owner now ttl db).0
          (Store.acquire x key owner now ttl db).1
  unfolding Store.acquire take_lease
  acquire-Leaves key owner now ttl db =
      let id = advisory_lock_id x key in
      let kept = delete_expired id now db.tables.locks in
      conn-Leaves
        (λ u t. (t.locks ≡ lease id key owner (now + ttl) ∷ kept) × (lock_held id kept ≡ false))
        (Kept db.tables.locks) (take_lease id key owner now ttl) db refl
        (elim (Bool-cases (lock_held id kept)) [
          | inl held ↦ rw held tt
          | inr free ↦ rw free (refl, refl)
        ])

  granted-HaveRows :
      (key owner : String) (now ttl : ℕ) (hs locks : List LockRow) (r : Result (Unit {0})) (db : Db)
      → HaveRows now hs locks
      → let id = advisory_lock_id x key in
        let kept = delete_expired id now locks in
        Leaves
          (λ u (db' : Db).
            (db'.tables.locks ≡ lease id key owner (now + ttl) ∷ kept)
            × (lock_held id kept ≡ false))
          (λ db'. db'.tables.locks ≡ locks)
          r
          db
        → HaveRows now (granted r (lease id key owner (now + ttl)) hs) db.tables.locks
  unfolding granted
  granted-HaveRows key owner now ttl hs locks (ok u) db h (same, free) =
      let id = advisory_lock_id x key in
      rw same
        (λ live. rw (==_refl id) refl, taken-HaveRows id now key owner (now + ttl) hs locks free h)
  granted-HaveRows key owner now ttl hs locks (err error) db h same = rw same h

  release_rows_kept :
      (time : ℕ) (key owner : String) (hs : List LockRow) (db : Db)
      → HaveRows time hs db.tables.locks
      → HaveRows time
          (delete_lock (advisory_lock_id x key) owner hs)
          (Store.release x key owner db).1.tables.locks
  unfolding Store.release release_rows
  release_rows_kept time key owner hs db h =
      let id = advisory_lock_id x key in
      conn_keeps (λ t. HaveRows time (delete_lock id owner hs) t.locks) (release_rows id owner) db
        (left-HaveRows time id owner hs db.tables.locks h)
        (released-HaveRows time id owner hs db.tables.locks h)

  -- A call that is about no lock leaves the rows of `locks`.
  other_kept :
      (time : ℕ) (hs locks locks' : List LockRow)
      → locks' ≡ locks
      → HaveRows time hs locks
      → HaveRows time hs locks'
  other_kept time hs locks locks' same h = rw same h

  inside-HaveRows :
      (calls : List (Call J)) (time last : ℕ) (db : Db) (hs : List LockRow)
      → AreTimed time calls last
      → HaveRows time hs db.tables.locks
      → HaveRows last (inside calls db hs) (perform_all x calls db).tables.locks
  unfolding inside inside_after perform perform_all Store.load load_rows Store.find_by_key find_rows
      Store.append Store.set_status
  inside-HaveRows [] time last db hs e h = later-HaveRows time last hs db.tables.locks e h
  inside-HaveRows (Call.create_run now run_id spec ∷ cs) time last db hs e h =
      inside-HaveRows cs time last (Store.create_run x now run_id spec db).1 hs e (
        other_kept time hs db.tables.locks _
          (create_run-Keeps x (Kept db.tables.locks) (λ r t new same. same) now run_id spec db refl)
          h)
  inside-HaveRows (Call.load run_id ∷ cs) time last db hs e h =
      inside-HaveRows cs time last (Store.load x run_id db).1 hs e (
        other_kept time hs db.tables.locks _
          (conn_keeps (Kept db.tables.locks) (load_rows x run_id) db refl refl) h)
  inside-HaveRows (Call.find_by_key key ∷ cs) time last db hs e h =
      inside-HaveRows cs time last (Store.find_by_key x key db).1 hs e (
        other_kept time hs db.tables.locks _
          (conn_keeps (Kept db.tables.locks) (find_rows x key) db refl refl) h)
  inside-HaveRows (Call.append r ∷ cs) time last db hs e h =
      inside-HaveRows cs time last (Store.append x r db).1 hs e (
        other_kept time hs db.tables.locks _
          (conn_keeps (Kept db.tables.locks) (insert_step x r (x.dumps r.output)) db refl
            (insert-Kept r (x.dumps r.output) db.tables))
          h)
  inside-HaveRows (Call.set_status run_id status error ∷ cs) time last db hs e h =
      inside-HaveRows cs time last (Store.set_status run_id status error db).1 hs e (
        other_kept time hs db.tables.locks _
          (conn_keeps (Kept db.tables.locks) (update_status run_id status error) db refl
            (update-Kept run_id status error db.tables))
          h)
  inside-HaveRows (Call.acquire key owner now ttl ∷ cs) time last db hs e h =
      inside-HaveRows cs now last (Store.acquire x key owner now ttl db).1 _ e.1 (
        granted-HaveRows key owner now ttl hs db.tables.locks
          (Store.acquire x key owner now ttl db).0 (Store.acquire x key owner now ttl db).1
          (later-HaveRows time now hs db.tables.locks e.0 h) (acquire-Leaves key owner now ttl db))
  inside-HaveRows (Call.release key owner ∷ cs) time last db hs e h =
      inside-HaveRows cs time last (Store.release x key owner db).1 _ e
        (release_rows_kept time key owner hs db h)

  -- Whatever calls the workers make on a fresh database, in whatever order and with whatever
  -- connection faults, on a clock that does not run backwards: two workers that are inside one lock,
  -- with leases that are both in force, are one worker with one lease.
  pub one_lease_per_lock :
      (calls : List (Call J)) (faults : List Bool) (last : ℕ) (a b : LockRow)
      → AreTimed 0 calls last
      → let db : Db = record { tables = empty_tables; faults = faults } in
        Inside a (inside calls db [])
        → Inside b (inside calls db [])
        → last < a.expires_at
        → last < b.expires_at
        → a.lock_id ≡ b.lock_id
        → a ≡ b
  one_lease_per_lock calls faults last a b timed ia ib la lb same =
      let db : Db = record { tables = empty_tables; faults = faults } in
      let rows = inside-HaveRows calls 0 last db [] timed tt in
      some-injective a b (
        sym (Inside-row last a _ _ ia rows la)
        ∙ ap (λ i. find_lock i (perform_all x calls db).tables.locks) same
        ∙ Inside-row last b _ _ ib rows lb)
