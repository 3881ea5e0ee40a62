-- ===== src/Tests/RecoveryTests.antt =====
-- engine.py: a run that dies twice, and is resumed to its end.
use durable_agent_engine.Base.{
  ℕ, ◌+◌, String, str_eq, if◌then◌else◌, ◌≡◌, some, Bool, true, false, Option, List, refl, none, [],
  ◌∷◌,
}
use durable_agent_engine.Store
use durable_agent_engine.Engine.{crashed, Handler, Engine}
use durable_agent_engine.Engine.Interrupted.{interrupted}
use durable_agent_engine.Models.Token.{advisory_lock_id}
use durable_agent_engine.Store.Sql.{lock_held}
use durable_agent_engine.Tests.Fixture.{Value, externals, engine, plan, ready, tables, everything}

-- the engine, with a clock that follows the world
abbrev pub clocked : Engine Value ℕ
clocked = record engine { time = λ w. w }

-- The process is killed after the handler of the second step has charged, and keeps the lock.
abbrev pub killed : List (Option ℕ × List Bool)
killed = (none, false ∷ false ∷ false ∷ true ∷ true ∷ []) ∷ []

lease_stays :
    lock_held
      (advisory_lock_id externals "order-42")
      (interrupted clocked "a" "order-42" plan killed ready).db.tables.locks
    ≡ true
unfolding everything interrupted
lease_stays = refl

-- The handlers of the run that is killed; the second one raises SimulatedCrash.
abbrev dying : String → Option (Handler Value ℕ)
dying name =
    if str_eq name "charge" then some (λ ctx w. (crashed, ctx, w + 1)) else engine.handlers name
