-- ===== src/Tests/LeaseTests.antt =====
-- store.py: workers that ask for one lock, one of which hangs past its lease.
use durable_agent_engine.Base.{◌≡◌, Bool, true, false, List, [], ◌∷◌, refl, inl, arith}
use durable_agent_engine.Models.Token.{advisory_lock_id}
use durable_agent_engine.Store.{lease}
use durable_agent_engine.Store.Sql.{LockRow}
use durable_agent_engine.Store.Calls.{Call, perform, perform_all, empty_tables}
use durable_agent_engine.Store.Leases.History.{inside, inside_after, one_lease_per_lock}
use durable_agent_engine.Tests.Fixture.{Value, externals, everything}

-- The second is refused, let in when the first one's lease has lapsed, and excludes the third.
abbrev calls : List (Call Value)
calls =
    Call.acquire "order-42" "first" 10 100
    ∷ Call.acquire "order-42" "second" 50 100
    ∷ Call.load "a"
    ∷ Call.acquire "order-42" "second" 200 100
    ∷ Call.release "order-42" "first"
    ∷ Call.acquire "order-42" "third" 250 100
    ∷ []

-- The release of the first fails.
abbrev faults : List Bool
faults = false ∷ false ∷ false ∷ false ∷ true ∷ []

abbrev second : LockRow
second = lease (advisory_lock_id externals "order-42") "order-42" "second" 300

one_lease_per_lock_example : second ≡ second
unfolding everything inside inside_after perform perform_all
one_lease_per_lock_example =
    one_lease_per_lock externals calls faults 260 second second
      (omega arith, (omega arith, (omega arith, (omega arith, omega arith)))) (inl refl) (inl refl)
      (omega arith) (omega arith) refl

only_second :
    inside externals calls (record { tables = empty_tables; faults = faults }) [] ≡ second ∷ []
unfolding everything inside inside_after perform perform_all
only_second = refl
