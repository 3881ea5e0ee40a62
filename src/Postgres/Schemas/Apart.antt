-- ===== src/Postgres/Schemas/Apart.antt =====
-- postgres.py: stores of different schemas in one database.
use durable_agent_engine.Base.{ℕ, ◌≡◌, true, false, List, [], ◌∷◌, text_eq}
use durable_agent_engine.Externals.{Externals}
use durable_agent_engine.Postgres.{schema_accepted}
use durable_agent_engine.Postgres.Schemas.{absent, public, Act, Schemas}

-- Every store has a name that `__init__` accepts.
abbrev pub AreAccepted : {J : Type 0} → List (Act J) → Type 0
AreAccepted [] = Unit
AreAccepted (a ∷ acts) = (schema_accepted a.schema ≡ true) × AreAccepted acts

-- No store is one of "public".
abbrev pub AreNamed : {J : Type 0} → List (Act J) → Type 0
AreNamed [] = Unit
AreNamed (a ∷ acts) = (text_eq a.schema public ≡ false) × AreNamed acts

-- No store has a schema of the user's name.
abbrev pub AreNotOf : {J : Type 0} → List ℕ → List (Act J) → Type 0
AreNotOf user [] = Unit
AreNotOf user (a ∷ acts) = (text_eq user a.schema ≡ false) × AreNotOf user acts

-- No store of "public" can come upon a schema that has the user's name.
pub data IsClear {J : Type 0} (user : List ℕ) (acts : List (Act J)) (d : Schemas J) : Type 0 where
  all_named : AreNamed acts → IsClear user acts d
  no_user_schema : d user ≡ absent → AreNotOf user acts → IsClear user acts d
