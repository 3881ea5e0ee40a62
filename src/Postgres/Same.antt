-- ===== src/Postgres/Same.antt =====
-- postgres.py and store.py: on connections that answer, the two stores answer alike.
use durable_agent_engine.Base.{String, ◌≡◌, Option, some, List, [], map}
use mathlib.Core.Option
use durable_agent_engine.Externals.{Externals}
use durable_agent_engine.Externals
use durable_agent_engine.Store
use durable_agent_engine.Store.Sql
use durable_agent_engine.Store.Healthy.{healthy}
use durable_agent_engine.Postgres
use durable_agent_engine.Postgres.Sql as Pg
use durable_agent_engine.Postgres.{Server, Held}
use durable_agent_engine.Postgres.View.{run_view, view}

module _ {J : Type 0} (x : Externals J) (server : Server J) where
  -- JSONB takes what json.dumps writes, and holds what json.loads reads from it.
  abbrev pub StoresJson : Type 0
  StoresJson = (j : J) (t : String) → x.dumps j ≡ some t → server.jsonb t ≡ some (x.loads t)

  -- The two databases pick the same row of a key.
  abbrev pub PicksAlike : Type 0
  PicksAlike =
      (rs : List Externals.RunRow)
      → server.newest (map (run_view x) rs) ≡ Option.map (run_view x) (x.newest rs)

  module _ (held : List Held) where
    -- a Postgres database whose requests are answered, with the tables of an SQLite one
    abbrev pub mirror : Sql.Tables → Postgres.Db J
    mirror t = record { tables = view x t; held = held; fates = [] }

    -- Two calls end alike.
    pub data Alike {A : Type 0} (p : A × Store.Db) (q : A × Postgres.Db J) : Type 0 where
      alike : (a : A) (t : Sql.Tables) → p ≡ (a, healthy t) → q ≡ (a, mirror t) → Alike p q
