-- ===== src/Postgres/Session/Inside.antt =====
-- postgres.py, `PostgresStore.lock`: the workers that are inside its `with` block.
use durable_agent_engine.Base.{
  ℕ, ◌==◌, ◌≡◌, refl, true, ◌&&◌, not, List, [], ◌∷◌, arith, Bool-cases, inl, inr, false≢true,
}
use durable_agent_engine.Exec.{Result, ok, err}
use durable_agent_engine.Models.Token.{advisory_lock_id}
use durable_agent_engine.Externals.{Externals}
use durable_agent_engine.Postgres.{
  Db, Held, Fate, held_elsewhere, end_session, acquire, lock_fated, try_lock, unless_refused,
  pg_try_advisory_lock, close,
}
use durable_agent_engine.Postgres.Sql.{Tables}
use durable_agent_engine.Postgres.Session.{
  Act, holds, IsExclusive, ends-IsExclusive, fated-IsExclusive, exclusive_holders, unlocked,
}

-- The database, and the workers that are inside, by the connection and the lock of each.
pub record Scene (J : Type 0) : Type 0 where
  pub db : Db J
  pub inside : List Held

-- A worker is inside once `lock` has come to its `yield`.
unfoldable pub entered : Result (Unit {0}) → ℕ → ℕ → List Held → List Held
entered (ok _) session lock_id inside = record { session = session; lock_id = lock_id } ∷ inside
entered (err error) session lock_id inside = inside

module _ {J : Type 0} (x : Externals J) where
  -- The `finally`, or the death of the process, ends the worker's stay with its connection.
  unfoldable pub step_inside : Act → Scene J → Scene J
  unfolding entered
  step_inside (Act.asks session key) s =
      let (r, db) = acquire x session key s.db in
      record { db = db; inside = entered r session (advisory_lock_id x key) s.inside }
  step_inside (Act.ends session) s = record {
    db = (close session s.db).1;
    inside = end_session session s.inside;
  }

  unfoldable pub steps_inside : List Act → Scene J → Scene J
  unfolding step_inside
  steps_inside [] s = s
  steps_inside (a ∷ acts) s = steps_inside acts (step_inside a s)

-- Who is inside a lock holds it.
abbrev AreHolders : List Held → List Held → Type 0
AreHolders inside held = (s i : ℕ) → holds s i inside ≡ true → holds s i held ≡ true

holds-end_session :
    (s i a : ℕ) (hs : List Held) → holds s i (end_session a hs) ≡ (holds s i hs && not (s == a))
unfolding holds end_session
holds-end_session s i a [] = refl
holds-end_session s i a (h ∷ hs) = ground (arith, holds-end_session s i a hs)

ends-AreHolders :
    (a : ℕ) (inside held : List Held)
    → AreHolders inside held
    → AreHolders (end_session a inside) (end_session a held)
ends-AreHolders a inside held h s i k =
    ground (arith, holds-end_session s i a inside, holds-end_session s i a held, h s i, k)

try-AreHolders :
    {J : Type 0} (s i : ℕ) (fates : List Fate) (db : Db J) (inside : List Held)
    → AreHolders inside db.held
    → AreHolders (entered (try_lock s i fates db).0 s i inside) (try_lock s i fates db).1.held
unfolding try_lock pg_try_advisory_lock unless_refused entered holds
try-AreHolders s i fates db inside h = elim (Bool-cases (held_elsewhere s i db.held)) [
  | inl busy ↦ rw busy h
  | inr free ↦ rw free (λ s' i' k. ground (arith, h s' i', k))
]

fated-AreHolders :
    {J : Type 0} (s i : ℕ) (fates : List Fate) (db : Db J) (inside : List Held)
    → AreHolders inside db.held
    → AreHolders (entered (lock_fated s i fates db).0 s i inside) (lock_fated s i fates db).1.held
unfolding lock_fated entered
fated-AreHolders s i [] db inside h = try-AreHolders s i [] db inside h
fated-AreHolders s i (Fate.answered ∷ fates) db inside h = try-AreHolders s i fates db inside h
fated-AreHolders s i (Fate.lost ∷ fates) db inside h = h
fated-AreHolders s i (Fate.unanswered ∷ fates) db inside h = h

module _ {J : Type 0} (x : Externals J) where
  inside_unique :
      (acts : List Act) (s : Scene J) (a b lock_id : ℕ)
      → IsExclusive s.db.held
      → AreHolders s.inside s.db.held
      → holds a lock_id (steps_inside x acts s).inside ≡ true
      → holds b lock_id (steps_inside x acts s).inside ≡ true
      → a ≡ b
  unfolding steps_inside step_inside acquire close
  inside_unique [] s a b lock_id v h ha hb =
      exclusive_holders a b lock_id s.db.held v (h a lock_id ha) (h b lock_id hb)
  inside_unique (Act.asks session key ∷ acts) s a b lock_id v h ha hb =
      let id = advisory_lock_id x key in
      inside_unique acts _ a b lock_id (fated-IsExclusive x session id s.db.fates s.db v)
        (fated-AreHolders session id s.db.fates s.db s.inside h) ha hb
  inside_unique (Act.ends session ∷ acts) s a b lock_id v h ha hb =
      inside_unique acts _ a b lock_id (ends-IsExclusive session s.db.held v)
        (ends-AreHolders session s.inside s.db.held h) ha hb

  -- On a database where nobody holds a lock, whatever connections ask for locks, and close by the
  -- finally of `lock` or with their process, in whatever order and whatever becomes of their requests:
  -- two workers that are inside the with block of one lock are on one connection.
  pub one_worker_per_lock :
      (acts : List Act) (t : Tables J) (fates : List Fate) (a b lock_id : ℕ)
      → let inside =
          (steps_inside x acts (record { db = unlocked x t fates; inside = [] })).inside in
        holds a lock_id inside ≡ true → holds b lock_id inside ≡ true → a ≡ b
  unfolding holds
  one_worker_per_lock acts t fates a b lock_id =
      inside_unique acts (record { db = unlocked x t fates; inside = [] }) a b lock_id tt
        (λ s i h. absurd (false≢true h))
