-- ===== src/Store/Leases.antt =====
-- store.py, `SQLiteStore.lock`: the workers that are inside the lock, over any history of calls.
pub mod History
use durable_agent_engine.Base.{
  ℕ, ◌+◌, ◌≤◌, ◌<◌, ◌==◌, leb, String, ◌≡◌, refl, sym, ap, ◌∙◌, Bool, true, false, ◌&&◌, Option,
  none, some, some-injective, List, [], ◌∷◌, str_eq, arith, eq_iff, ==_iff, ==_refl, eq_refl,
  Bool-cases, inl, inr, if◌then◌else◌, false≢true, subst, ◌⊎◌,
}
use durable_agent_engine.Store.Sql.{LockRow, delete_expired, lock_held, delete_lock}
use durable_agent_engine.Store.{lease}

-- SELECT * FROM locks WHERE lock_id = ?
abbrev pub find_lock : ℕ → List LockRow → Option LockRow
find_lock id [] = none
find_lock id (l ∷ ls) = if l.lock_id == id then some l else find_lock id ls

-- Each lease that is in force at the time has its row.
abbrev pub HaveRows : ℕ → List LockRow → List LockRow → Type 0
HaveRows time [] locks = Unit
HaveRows time (h ∷ hs) locks =
    (time < h.expires_at → find_lock h.lock_id locks ≡ some h) × HaveRows time hs locks

pub later-HaveRows :
    (time later : ℕ) (hs locks : List LockRow)
    → time ≤ later
    → HaveRows time hs locks
    → HaveRows later hs locks
later-HaveRows time later [] locks e h = tt
later-HaveRows time later (x ∷ hs) locks e h =
    (λ live. h.0 (omega (arith, e, live)), later-HaveRows time later hs locks e h.1)

found-held :
    (id : ℕ) (h : LockRow) (locks : List LockRow)
    → find_lock id locks ≡ some h
    → lock_held id locks ≡ true
unfolding lock_held
found-held id h [] f = cc
found-held id h (l ∷ ls) f = ground (arith, found-held id h ls)

and_kept : (b : Bool) → (b && false) ≡ false
and_kept true = refl
and_kept false = refl

-- A row in force survives the deletion of those that have lapsed.
find-delete_expired :
    (i id now : ℕ) (h : LockRow) (locks : List LockRow)
    → now < h.expires_at
    → find_lock i locks ≡ some h
    → find_lock i (delete_expired id now locks) ≡ some h
unfolding delete_expired
find-delete_expired i id now h [] live f = f
find-delete_expired i id now h (l ∷ ls) live f = elim (Bool-cases (l.lock_id == i)) [
  | inl here ↦
      let e : l ≡ h = some-injective l h (rw here at f) in
      let kept : leb l.expires_at now ≡ false = rw e (ground (arith, live)) in
      rw (kept, and_kept (l.lock_id == id), here) (ap (λ r. some r) e)
  | inr other ↦ elim (Bool-cases (l.lock_id == id && leb l.expires_at now)) [
    | inl gone ↦ rw gone (find-delete_expired i id now h ls live (rw other at f))
    | inr kept ↦ rw (kept, other) (find-delete_expired i id now h ls live (rw other at f))
  ]
]

-- A row of another owner survives a release.
find-delete_lock :
    (i id : ℕ) (owner : String) (h : LockRow) (locks : List LockRow)
    → (h.lock_id == id && str_eq h.owner owner) ≡ false
    → find_lock i locks ≡ some h
    → find_lock i (delete_lock id owner locks) ≡ some h
unfolding delete_lock
find-delete_lock i id owner h [] n f = f
find-delete_lock i id owner h (l ∷ ls) n f = elim (Bool-cases (l.lock_id == i)) [
  | inl here ↦
      let e : l ≡ h = some-injective l h (rw here at f) in
      let kept : (l.lock_id == id && str_eq l.owner owner) ≡ false = rw e n in
      rw (kept, here) (ap (λ r. some r) e)
  | inr other ↦ elim (Bool-cases (l.lock_id == id && str_eq l.owner owner)) [
    | inl gone ↦ rw gone (find-delete_lock i id owner h ls n (rw other at f))
    | inr kept ↦ rw (kept, other) (find-delete_lock i id owner h ls n (rw other at f))
  ]
]

-- A lease that is granted leaves the rows of the others in force.
pub taken-HaveRows :
    (id now : ℕ) (key owner : String) (expires : ℕ) (hs locks : List LockRow)
    → lock_held id (delete_expired id now locks) ≡ false
    → HaveRows now hs locks
    → HaveRows now hs (lease id key owner expires ∷ delete_expired id now locks)
taken-HaveRows id now key owner expires [] locks free h = tt
taken-HaveRows id now key owner expires (x ∷ hs) locks free h = (
  λ live.
      let kept = find-delete_expired x.lock_id id now x locks live (h.0 live) in
      elim (Bool-cases (id == x.lock_id)) [
        | inl same ↦
            let e : id ≡ x.lock_id = (==_iff id x.lock_id).0 same in
            let held : lock_held id (delete_expired id now locks) ≡ true =
              subst (λ i. lock_held i (delete_expired id now locks) ≡ true) (sym e)
                (found-held x.lock_id x (delete_expired id now locks) kept) in
            absurd (false≢true (sym free ∙ held))
        | inr other ↦ rw other kept
      ],
  taken-HaveRows id now key owner expires hs locks free h.1,
)

-- A worker that leaves takes its own lease with it.
pub left-HaveRows :
    (time id : ℕ) (owner : String) (hs locks : List LockRow)
    → HaveRows time hs locks
    → HaveRows time (delete_lock id owner hs) locks
unfolding delete_lock
left-HaveRows time id owner [] locks h = tt
left-HaveRows time id owner (x ∷ hs) locks h =
    elim (Bool-cases (x.lock_id == id && str_eq x.owner owner)) [
      | inl own ↦ rw own (left-HaveRows time id owner hs locks h.1)
      | inr other ↦ rw other (h.0, left-HaveRows time id owner hs locks h.1)
    ]

pub released-HaveRows :
    (time id : ℕ) (owner : String) (hs locks : List LockRow)
    → HaveRows time hs locks
    → HaveRows time (delete_lock id owner hs) (delete_lock id owner locks)
unfolding delete_lock
released-HaveRows time id owner [] locks h = tt
released-HaveRows time id owner (x ∷ hs) locks h =
    elim (Bool-cases (x.lock_id == id && str_eq x.owner owner)) [
      | inl own ↦ rw own (released-HaveRows time id owner hs locks h.1)
      | inr other ↦ rw other (
        λ live. find-delete_lock x.lock_id id owner x locks other (h.0 live),
        released-HaveRows time id owner hs locks h.1,
      )
    ]

-- whether a lease is one of a list
abbrev pub Inside : LockRow → List LockRow → Type 0
Inside h [] = ⊥
Inside h (x ∷ hs) = (x ≡ h) ⊎ Inside h hs

pub Inside-row :
    (time : ℕ) (h : LockRow) (hs locks : List LockRow)
    → Inside h hs
    → HaveRows time hs locks
    → time < h.expires_at
    → find_lock h.lock_id locks ≡ some h
Inside-row time h [] locks i k live = absurd i
Inside-row time h (x ∷ hs) locks (inl same) k live =
    subst (λ (r : LockRow). time < r.expires_at → find_lock r.lock_id locks ≡ some r) same k.0 live
Inside-row time h (x ∷ hs) locks (inr later) k live = Inside-row time h hs locks later k.1 live
