-- ===== src/Tests/SchemaTests.antt =====
-- postgres.py: two schemas of one database, one of which is dropped.
use durable_agent_engine.Base.{
  Bool, true, false, map, text_eq, if◌then◌else◌, ◌≡◌, refl, List, [], ◌∷◌, Text, take, codes, none,
  some, decimal,
}
use durable_agent_engine.Models.{RunStatus}
use durable_agent_engine.Exec.{ok, err, outage, undefined_table, drop_refused}
use durable_agent_engine.Postgres.{Fate}
use durable_agent_engine.Postgres.Requests.{Request, Answer, postgres_answer}
use durable_agent_engine.Postgres.Schemas.{
  Job, Act, Schemas, public, default_user, resolved, no_rows, absent, bare, setup, drop, call,
  answers_to, new_store, slot_act, holds,
}
use durable_agent_engine.Tests.PostgresTests.{server}
use durable_agent_engine.Tests.Fixture.{Value, externals, spec, everything}

abbrev empty : Schemas Value
empty name = if text_eq name public then bare else absent

abbrev told : Text → Job Value → List Fate → Act Value
told schema job fates = record { schema = schema; job = job; fates = fates }

abbrev acts : List (Act Value)
acts =
    told (codes "blue") setup []
    ∷ told public setup []
    ∷ told public (call (Request.create_run 1 "c" spec)) []
    ∷ told (codes "green") setup (Fate.answered ∷ Fate.unanswered ∷ [])
    ∷ told (codes "green") (call (Request.create_run 1 "a" spec)) []
    ∷ told (codes "blue") (call (Request.create_run 2 "b" spec)) []
    ∷ told (codes "green") drop []
    ∷ told (codes "blue") (call (Request.set_status "b" RunStatus.running none)) []
    ∷ told (codes "green") (call (Request.load "a")) []
    ∷ []

abbrev dropped : List (Act Value)
dropped =
    told (codes "green") setup (Fate.answered ∷ Fate.unanswered ∷ [])
    ∷ told (codes "green") (call (Request.set_status "a" RunStatus.running none)) []
    ∷ told (codes "green") drop []
    ∷ told (codes "green") (call (Request.load "a")) []
    ∷ []

-- A setup whose answer is lost has made the tables; a schema that is dropped has none.
dropped_answers :
    answers_to externals server (take 63) default_user (codes "green") dropped empty
    ≡ Answer.done (err outage)
      ∷ Answer.done (ok tt)
      ∷ Answer.done (ok tt)
      ∷ Answer.found (err undefined_table)
      ∷ []
unfolding everything answers_to slot_act postgres_answer resolved
dropped_answers = refl

abbrev found_run : Answer Value → Bool
found_run (Answer.found (ok none)) = false
found_run (Answer.found (err error)) = false
found_run (Answer.created (err error)) = false
found_run (Answer.done (err error)) = false
found_run _ = true

-- A store of "public" reads the tables of the schema that has the user's name, once they are there.
abbrev captured : List (Act Value)
captured =
    told public setup []
    ∷ told public (call (Request.create_run 1 "c" spec)) []
    ∷ told default_user setup []
    ∷ told public (call (Request.load "c")) []
    ∷ []

public_loses_its_run :
    map found_run (answers_to externals server (take 63) default_user public captured empty)
    ≡ true ∷ true ∷ false ∷ []
unfolding everything answers_to slot_act resolved postgres_answer
public_loses_its_run = refl

public_stays :
    (slot_act externals server public drop [] (holds no_rows))
    ≡ (Answer.done (err drop_refused), holds no_rows)
unfolding slot_act
public_stays = refl

default_store :
    new_store (λ name. none) none public
    ≡ some (record {
      dsn = codes "postgresql://durable@127.0.0.1:55433/durable_test";
      schema = codes "public";
    })
unfolding new_store decimal
default_store = refl
