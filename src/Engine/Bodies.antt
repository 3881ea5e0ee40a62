-- ===== src/Engine/Bodies.antt =====
-- engine.py: a call of the store through a connection that may fail, and what follows it.
use durable_agent_engine.Exec.{Result, ok, err, Exec, ◌>>=◌, Yields}
use durable_agent_engine.Exec.Keeps.{Leaves, bind-Leaves}
use durable_agent_engine.Store.{Db, conn}
use durable_agent_engine.Store.Sql.{Tables}
use durable_agent_engine.Store.Connection.{conn-Leaves}
use durable_agent_engine.Engine.{State, on_store}

module _ {A W : Type 0} (P : A → Tables → Type 0) (Q : Tables → Type 0) where
  on_store-Leaves :
      (r : Result A) (db : Db) (s : State W)
      → Leaves (λ a (db : Db). P a db.tables) (λ db. Q db.tables) r db
      → Leaves (λ a (s : State W). P a s.db.tables) (λ s. Q s.db.tables) r (record s { db = db })
  on_store-Leaves (ok a) db s h = h
  on_store-Leaves (err error) db s h = h

  -- Where the connection fails or the body raises, the tables are as they were; what follows goes on
  -- from what the body commits.
  pub store_then :
      {B : Type 0} (body : Tables → Result (A × Tables)) (f : A → Exec (State W) B) (s : State W)
      → Q s.db.tables
      → Yields (λ p. P p.0 p.1) (body s.db.tables)
      → ((a : A) (s : State W) → P a s.db.tables → Q (f a s).1.db.tables)
      → Q ((on_store (conn body) >>= f) s).1.db.tables
  store_then body f s q h k =
      bind-Leaves (λ a (s : State W). P a s.db.tables) (λ s. Q s.db.tables) (λ s. Q s.db.tables)
        (on_store (conn body)) f s
        (on_store-Leaves (conn body s.db).0 (conn body s.db).1 s (conn-Leaves P Q body s.db q h))
        (λ s h. h) k

either :
    {A W : Type 0} (Q : State W → Type 0) (r : Result A) (s : State W) → Q s → Leaves (λ _. Q) Q r s
either Q (ok a) s h = h
either Q (err error) s h = h

-- What holds after a call, and what follows keeps.
pub keep_then :
    {A B W : Type 0} (Q : State W → Type 0) (m : Exec (State W) A) (f : A → Exec (State W) B)
    (s : State W)
    → Q (m s).1
    → ((a : A) (s : State W) → Q s → Q (f a s).1)
    → Q ((m >>= f) s).1
keep_then Q m f s h k = bind-Leaves (λ _. Q) Q Q m f s (either Q (m s).0 (m s).1 h) (λ s h. h) k
