-- ===== src/Store/Lease.antt =====
-- store.py, `SQLiteStore.lock`: a lease excludes until it lapses, and no longer.
use durable_agent_engine.Base.{
  ℕ, ◌+◌, leb, String, ◌≡◌, ◌≢◌, refl, ◌∙◌, Bool, true, false, List, ◌∷◌, str_eq-false, ==_refl,
  Bool-cases, inl, inr, if◌then◌else◌,
}
use durable_agent_engine.Exec.{lock_unavailable, Result, ok, err}
use durable_agent_engine.Models.Token.{advisory_lock_id}
use durable_agent_engine.Externals.{Externals}
use durable_agent_engine.Store.Sql.{Tables, LockRow, delete_expired, lock_held, delete_lock}
use durable_agent_engine.Store.LockRows.{held-delete_expired, held-delete_lock}
use durable_agent_engine.Store.{lease, take_lease, acquire, release}
use durable_agent_engine.Store.Connection.{conn_ok, conn_err}
use durable_agent_engine.Store.Healthy.{healthy, release-healthy}

-- whether a lease of `id`, in front of rows that hold none, is held later on
held-lease :
    (id : ℕ) (key owner other : String) (expires later : ℕ) (kept : List LockRow)
    → owner ≢ other
    → lock_held id kept ≡ false
    → lock_held id
        (delete_expired id later (delete_lock id other (lease id key owner expires ∷ kept)))
      ≡ (if leb expires later then false else true)
unfolding lock_held delete_expired delete_lock
held-lease id key owner other expires later kept ne free = elim (Bool-cases (leb expires later)) [
  | inl lapsed ↦
      rw (str_eq-false owner other ne, ==_refl id, ==_refl id, lapsed)
        (held-delete_expired id id later (delete_lock id other kept)
          (held-delete_lock id id other kept free))
  | inr live ↦ rw (str_eq-false owner other ne, ==_refl id, ==_refl id, live, ==_refl id)
]

module _ {J : Type 0} (x : Externals J) where
  taken_again :
      (key owner : String) (now ttl : ℕ) (t : Tables) (held : Bool)
      → lock_held (advisory_lock_id x key) (delete_expired (advisory_lock_id x key) now t.locks)
        ≡ held
      → (acquire x key owner now ttl (healthy t)).0 ≡ (if held then err lock_unavailable else ok tt)
  unfolding acquire take_lease
  taken_again key owner now ttl t true h =
      rw
        (conn_err (take_lease (advisory_lock_id x key) key owner now ttl) t lock_unavailable (rw h))
  taken_again key owner now ttl t false h =
      let kept =
        lease (advisory_lock_id x key) key owner (now + ttl)
        ∷ delete_expired (advisory_lock_id x key) now t.locks in
      rw (
        conn_ok (take_lease (advisory_lock_id x key) key owner now ttl) t
          (record t { locks = kept }) tt (rw h))

  pub acquired :
      (key owner : String) (now ttl : ℕ) (t : Tables)
      → lock_held (advisory_lock_id x key) (delete_expired (advisory_lock_id x key) now t.locks)
        ≡ false
      → acquire x key owner now ttl (healthy t) ≡ (
        ok tt,
        healthy (record t {
          locks =
              lease (advisory_lock_id x key) key owner (now + ttl)
              ∷ delete_expired (advisory_lock_id x key) now t.locks;
        }),
      )
  unfolding acquire take_lease
  acquired key owner now ttl t free =
      let kept =
        lease (advisory_lock_id x key) key owner (now + ttl)
        ∷ delete_expired (advisory_lock_id x key) now t.locks in
      conn_ok (take_lease (advisory_lock_id x key) key owner now ttl) t (record t { locks = kept })
        tt (rw free)

  if_swapped :
      (b : Bool)
      → ◌≡◌ {A = Result (Unit {0})}
          (if (if b then false else true) then err lock_unavailable else ok tt)
          (if b then ok tt else err lock_unavailable)
  if_swapped true = refl
  if_swapped false = refl

  -- On connections that work, with the lock free at first: one worker takes a lease, and another,
  -- with another owner's id, releases and then asks for the same lock. The release is by owner
  -- and changes nothing, and the other worker is refused exactly until the lease has lapsed.
  pub lease_excludes :
      (key owner other : String) (now ttl later ttl' : ℕ) (t : Tables)
      → owner ≢ other
      → lock_held (advisory_lock_id x key) (delete_expired (advisory_lock_id x key) now t.locks)
        ≡ false
      → (acquire x key other later ttl'
          (release x key other (acquire x key owner now ttl (healthy t)).1).1).0
        ≡ (if leb (now + ttl) later then ok tt else err lock_unavailable)
  lease_excludes key owner other now ttl later ttl' t ne free =
      let id = advisory_lock_id x key in
      let kept = delete_expired id now t.locks in
      let taken : Tables = record t { locks = lease id key owner (now + ttl) ∷ kept } in
      let after : Tables = record taken { locks = delete_lock id other taken.locks } in
      rw (acquired key owner now ttl t free, release-healthy x key other taken)
        (taken_again key other later ttl' after _
            (held-lease id key owner other (now + ttl) later kept ne free)
          ∙ if_swapped (leb (now + ttl) later))
