-- ===== src/Postgres/Session.antt =====
-- postgres.py, `PostgresStore.lock`: sessions that take locks, and that end.
pub mod Inside
use durable_agent_engine.Base.{
  ℕ, ◌==◌, String, ◌≡◌, ◌≢◌, refl, sym, ◌∙◌, Bool, true, false, ◌&&◌, ◌||◌, not, List, [], ◌∷◌,
  arith, ==_iff, Bool-cases, inl, inr, false≢true,
}
use durable_agent_engine.Exec.{lock_unavailable, ok, err}
use durable_agent_engine.Models.Token.{advisory_lock_id}
use durable_agent_engine.Externals.{Externals}
use durable_agent_engine.Postgres.{
  Db, Held, Fate, held_elsewhere, end_session, acquire, lock_fated, try_lock, unless_refused,
  pg_try_advisory_lock, close,
}
use durable_agent_engine.Postgres.Sql.{Tables}

-- A connection that asks for the lock of a key, or one that closes: by the `finally`, or with its
-- process.
pub data Act : Type 0 where
  asks : ℕ → String → Act
  ends : ℕ → Act

unfoldable pub holds : ℕ → ℕ → List Held → Bool
holds session lock_id [] = false
holds session lock_id (h ∷ hs) =
    (h.lock_id == lock_id && h.session == session) || holds session lock_id hs

-- Two sessions hold no lock together.
abbrev pub IsExclusive : List Held → Type 0
IsExclusive [] = Unit
IsExclusive (h ∷ hs) = (held_elsewhere h.session h.lock_id hs ≡ false) × IsExclusive hs

ends-free :
    (s i a : ℕ) (hs : List Held)
    → held_elsewhere s i hs ≡ false
    → held_elsewhere s i (end_session a hs) ≡ false
unfolding held_elsewhere end_session
ends-free s i a [] h = h
ends-free s i a (x ∷ hs) h = ground (arith, ends-free s i a hs)

pub ends-IsExclusive : (a : ℕ) (hs : List Held) → IsExclusive hs → IsExclusive (end_session a hs)
unfolding end_session
ends-IsExclusive a [] v = tt
ends-IsExclusive a (h ∷ hs) v = elim (Bool-cases (h.session == a)) [
  | inl gone ↦ rw gone (ends-IsExclusive a hs v.1)
  | inr kept ↦ rw kept (ends-free h.session h.lock_id a hs v.0, ends-IsExclusive a hs v.1)
]

-- who holds a lock that is held elsewhere
holder :
    (s i : ℕ) (hs : List Held)
    → held_elsewhere s i hs ≡ true
    → (c : ℕ) × (holds c i hs ≡ true) × ((c == s) ≡ false)
unfolding held_elsewhere holds
holder s i [] h = absurd (false≢true h)
holder s i (x ∷ hs) h = elim (Bool-cases (x.lock_id == i && not (x.session == s))) [
  | inl here ↦ (x.session, ground arith, ground arith)
  | inr later ↦ let (c, k, n) = holder s i hs (ground arith) in (c, ground arith, n)
]

holds-elsewhere :
    (a b i : ℕ) (hs : List Held)
    → holds a i hs ≡ true
    → (a == b) ≡ false
    → held_elsewhere b i hs ≡ true
unfolding held_elsewhere holds
holds-elsewhere a b i [] h n = absurd (false≢true h)
holds-elsewhere a b i (x ∷ hs) h n = ground (arith, holds-elsewhere a b i hs)

pub exclusive_holders :
    (a b i : ℕ) (hs : List Held)
    → IsExclusive hs
    → holds a i hs ≡ true
    → holds b i hs ≡ true
    → a ≡ b
unfolding holds
exclusive_holders a b i [] v h k = absurd (false≢true h)
exclusive_holders a b i (x ∷ hs) v h k =
    ground (
      arith,
      exclusive_holders a b i hs v.1,
      holds-elsewhere a b i hs,
      holds-elsewhere b a i hs,
      v.0,
    )

-- the only holder's end frees the lock
free_after :
    (a b i : ℕ) (hs : List Held)
    → held_elsewhere a i hs ≡ false
    → held_elsewhere b i (end_session a hs) ≡ false
unfolding held_elsewhere end_session
free_after a b i [] h = h
free_after a b i (x ∷ hs) h = ground (arith, free_after a b i hs)

module _ {J : Type 0} (x : Externals J) where
  unfoldable pub act : Act → Db J → Db J
  act (Act.asks session key) db = (acquire x session key db).1
  act (Act.ends session) db = (close session db).1

  unfoldable pub act_all : List Act → Db J → Db J
  unfolding act
  act_all [] db = db
  act_all (a ∷ acts) db = act_all acts (act a db)

  try-IsExclusive :
      (s i : ℕ) (fates : List Fate) (db : Db J)
      → IsExclusive db.held
      → IsExclusive (try_lock s i fates db).1.held
  unfolding try_lock pg_try_advisory_lock
  try-IsExclusive s i fates db v = elim (Bool-cases (held_elsewhere s i db.held)) [
    | inl busy ↦ rw busy v
    | inr free ↦ rw free (free, v)
  ]

  pub fated-IsExclusive :
      (s i : ℕ) (fates : List Fate) (db : Db J)
      → IsExclusive db.held
      → IsExclusive (lock_fated s i fates db).1.held
  unfolding lock_fated
  fated-IsExclusive s i [] db v = try-IsExclusive s i [] db v
  fated-IsExclusive s i (Fate.answered ∷ fates) db v = try-IsExclusive s i fates db v
  fated-IsExclusive s i (Fate.lost ∷ fates) db v = v
  fated-IsExclusive s i (Fate.unanswered ∷ fates) db v = v

  act_all-IsExclusive :
      (acts : List Act) (db : Db J) → IsExclusive db.held → IsExclusive (act_all acts db).held
  unfolding act_all act acquire close
  act_all-IsExclusive [] db v = v
  act_all-IsExclusive (Act.asks session key ∷ acts) db v =
      act_all-IsExclusive acts _ (fated-IsExclusive session (advisory_lock_id x key) db.fates db v)
  act_all-IsExclusive (Act.ends session ∷ acts) db v =
      act_all-IsExclusive acts _ (ends-IsExclusive session db.held v)

  abbrev pub unlocked : Tables J → List Fate → Db J
  unlocked t fates = record { tables = t; held = []; fates = fates }

  acquire_free :
      (s : ℕ) (key : String) (db : Db J)
      → db.fates ≡ []
      → held_elsewhere s (advisory_lock_id x key) db.held ≡ false
      → (acquire x s key db).0 ≡ ok tt
  unfolding acquire lock_fated try_lock pg_try_advisory_lock unless_refused
  acquire_free s key db f free = rw (f, free) refl

  acquire_held :
      (s : ℕ) (key : String) (db : Db J)
      → db.fates ≡ []
      → held_elsewhere s (advisory_lock_id x key) db.held ≡ true
      → (acquire x s key db).0 ≡ err lock_unavailable
  unfolding acquire lock_fated try_lock pg_try_advisory_lock unless_refused
  acquire_held s key db f held = rw (f, held) refl

  only_holder :
      (a i : ℕ) (hs : List Held)
      → IsExclusive hs
      → holds a i hs ≡ true
      → held_elsewhere a i hs ≡ false
  only_holder a i hs v h = elim (Bool-cases (held_elsewhere a i hs)) [
    | inl other ↦
        let (c, k, n) = holder a i hs other in
        absurd (false≢true (sym n ∙ (==_iff c a).1 (exclusive_holders c a i hs v k h)))
    | inr free ↦ free
  ]

  -- After connections have asked for locks and closed, in whatever order and with whatever fates of
  -- their requests, on requests that are answered: while the connection of a lock's holder is open,
  -- another session that asks for the lock is refused; as soon as that connection is closed, be it that
  -- the process was killed, it gets the lock.
  pub end_frees :
      (acts : List Act) (t : Tables J) (fates : List Fate) (a b : ℕ) (key : String)
      → let db = act_all acts (unlocked t fates) in
        db.fates ≡ []
        → holds a (advisory_lock_id x key) db.held ≡ true
        → a ≢ b
        → ((acquire x b key db).0 ≡ err lock_unavailable)
          × ((acquire x b key (close a db).1).0 ≡ ok tt)
  unfolding close
  end_frees acts t fates a b key f h n =
      let db = act_all acts (unlocked t fates) in
      let i = advisory_lock_id x key in
      let free = only_holder a i db.held (act_all-IsExclusive acts (unlocked t fates) tt) h in
      (
        acquire_held b key db f (holds-elsewhere a b i db.held h (ground (arith, ==_iff a b))),
        acquire_free b key (close a db).1 f (free_after a b i db.held free),
      )
