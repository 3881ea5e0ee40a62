-- ===== src/Store/LockRows.antt =====
-- How the statements on `locks` keep its primary key (store.py).
use durable_agent_engine.Base.{
  ℕ, ◌==◌, leb, String, ◌≡◌, false, ◌&&◌, List, [], ◌∷◌, str_eq, arith, Bool-cases, inl, inr,
}
use durable_agent_engine.Store.Sql.{LockRow, delete_expired, lock_held, delete_lock}
use durable_agent_engine.Store.Valid.{IsValidLocks}

-- Deleting locks leaves at most one for each id.
pub held-delete_expired :
    (i j now : ℕ) (ls : List LockRow)
    → lock_held j ls ≡ false
    → lock_held j (delete_expired i now ls) ≡ false
unfolding lock_held delete_expired
held-delete_expired i j now [] h = h
held-delete_expired i j now (l ∷ ls) h = ground (arith, held-delete_expired i j now ls)

pub delete_expired-IsValidLocks :
    (i now : ℕ) (ls : List LockRow) → IsValidLocks ls → IsValidLocks (delete_expired i now ls)
unfolding delete_expired
delete_expired-IsValidLocks i now [] v = tt
delete_expired-IsValidLocks i now (l ∷ ls) v =
    elim (Bool-cases (l.lock_id == i && leb l.expires_at now)) [
      | inl gone ↦ rw gone (delete_expired-IsValidLocks i now ls v.1)
      | inr kept ↦
          rw kept
            (held-delete_expired i l.lock_id now ls v.0, delete_expired-IsValidLocks i now ls v.1)
    ]

pub held-delete_lock :
    (i j : ℕ) (o : String) (ls : List LockRow)
    → lock_held j ls ≡ false
    → lock_held j (delete_lock i o ls) ≡ false
unfolding lock_held delete_lock
held-delete_lock i j o [] h = h
held-delete_lock i j o (l ∷ ls) h = ground (arith, held-delete_lock i j o ls)

pub delete_lock-IsValidLocks :
    (i : ℕ) (o : String) (ls : List LockRow) → IsValidLocks ls → IsValidLocks (delete_lock i o ls)
unfolding delete_lock
delete_lock-IsValidLocks i o [] v = tt
delete_lock-IsValidLocks i o (l ∷ ls) v = elim (Bool-cases (l.lock_id == i && str_eq l.owner o)) [
  | inl gone ↦ rw gone (delete_lock-IsValidLocks i o ls v.1)
  | inr kept ↦ rw kept (held-delete_lock i l.lock_id o ls v.0, delete_lock-IsValidLocks i o ls v.1)
]
