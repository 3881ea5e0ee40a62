-- ===== src/Store/Connection.antt =====
-- What a connection leaves behind (store.py, `SQLiteStore._conn`).
use durable_agent_engine.Base.{◌≡◌, Bool, true, false, List, [], ◌∷◌, arith}
use durable_agent_engine.Exec.{Error, Result, ok, err, Yields}
use durable_agent_engine.Exec.Keeps.{Leaves}
use durable_agent_engine.Store.Sql.{Tables}
use durable_agent_engine.Store.{Db, settle, connect, conn}

-- What a body commits, if it returns, satisfies `P`.
abbrev pub Commits : {A : Type 0} → (Tables → Type 0) → Result (A × Tables) → Type 0
Commits P (ok (a, t)) = P t
Commits P (err e) = Unit

-- What holds of the tables before a body and of what the body commits holds at the end.
module _ {A : Type 0} (P : Tables → Type 0) (body : Tables → Result (A × Tables)) where
  settle_keeps :
      (r : Result (A × Tables)) (t : Tables) (faults : List Bool)
      → P t
      → Commits P r
      → P (settle r t faults).1.tables
  unfolding settle
  settle_keeps (ok (a, t')) t faults h k = k
  settle_keeps (err e) t faults h k = h

  connect_keeps :
      (t : Tables) (faults : List Bool)
      → P t
      → Commits P (body t)
      → P (connect body t faults).1.tables
  unfolding connect
  connect_keeps t [] h k = settle_keeps (body t) t [] h k
  connect_keeps t (true ∷ faults) h k = h
  connect_keeps t (false ∷ faults) h k = settle_keeps (body t) t faults h k

  pub conn_keeps : (db : Db) → P db.tables → Commits P (body db.tables) → P (conn body db).1.tables
  unfolding conn
  conn_keeps db h k = connect_keeps db.tables db.faults h k

-- What a body commits with what it returns, or the tables as they were.
module _ {A : Type 0} (P : A → Tables → Type 0) (E : Tables → Type 0)
    (body : Tables → Result (A × Tables)) where
  settle-Leaves :
      (r : Result (A × Tables)) (t : Tables) (faults : List Bool)
      → E t
      → Yields (λ p. P p.0 p.1) r
      → Leaves
          (λ a (db : Db). P a db.tables)
          (λ db. E db.tables)
          (settle r t faults).0
          (settle r t faults).1
  unfolding settle
  settle-Leaves (ok (a, t')) t faults h k = k
  settle-Leaves (err error) t faults h k = h

  connect-Leaves :
      (t : Tables) (faults : List Bool)
      → E t
      → Yields (λ p. P p.0 p.1) (body t)
      → Leaves
          (λ a (db : Db). P a db.tables)
          (λ db. E db.tables)
          (connect body t faults).0
          (connect body t faults).1
  unfolding connect
  connect-Leaves t [] h k = settle-Leaves (body t) t [] h k
  connect-Leaves t (true ∷ faults) h k = h
  connect-Leaves t (false ∷ faults) h k = settle-Leaves (body t) t faults h k

  pub conn-Leaves :
      (db : Db)
      → E db.tables
      → Yields (λ p. P p.0 p.1) (body db.tables)
      → Leaves (λ a (db : Db). P a db.tables) (λ db. E db.tables) (conn body db).0 (conn body db).1
  unfolding conn
  conn-Leaves db h k = connect-Leaves db.tables db.faults h k

-- With no fault to come the body decides.
pub conn_ok :
    {A : Type 0} (body : Tables → Result (A × Tables)) (t t' : Tables) (a : A)
    → body t ≡ ok (a, t')
    → conn body (record { tables = t; faults = [] }) ≡ (ok a, record { tables = t'; faults = [] })
unfolding conn
conn_ok body t t' a h = ground arith

pub conn_err :
    {A : Type 0} (body : Tables → Result (A × Tables)) (t : Tables) (e : Error)
    → body t ≡ err e
    → conn body (record { tables = t; faults = [] }) ≡ (err e, record { tables = t; faults = [] })
unfolding conn
conn_err body t e h = ground arith
