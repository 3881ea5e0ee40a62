-- ===== src/Lib.antt =====
-- The durable agent engine: runs that are plans of steps, walked one step at a time with a checkpoint
-- behind each, so that a crash resumes where the checkpoints end.
--
-- Parts, and the file that models each.
--   Models (src/durable_agent/models.py): RunStatus, StepOutcome, Step, Plan, RunSpec, StepRecord and
--     RunState as data; `next_index` is the loop of RunState.next_index on fuel, one round more than
--     there are successful checkpoints. Models/Token has effect_token and advisory_lock_id,
--     Models/Validation the validators of Step, Plan and RunSpec, Models/Distinct
--     what two equal tokens mean.
--   Externals: what the program calls and does not implement, as one record: json.dumps and
--     json.loads on the columns, hashlib.blake2b, and the database's choice of the newest row.
--     `RoundTrips` states what is documented of the codec.
--   Exec: exceptions as values. A call is a function from a state to a result and the state it
--     leaves, so what was written before a raise stays written.
--   Store (src/durable_agent/store.py): the tables of SQLITE_SCHEMA (Store/Sql has the statements with
--     their constraints) and the methods of SQLiteStore. `conn` is _conn: a connection that fails
--     does nothing, a body that raises is rolled back. The list `faults` says which connections
--     fail; every theorem with a `Db` holds for all such lists unless it says that they work.
--     Store/Leases has the workers that are inside the lock over any history of calls, Store/Setup
--     has setup, statement by statement, on a file that may have some of the objects, and
--     Store/Abstract states the `Store` protocol as a map from run ids to states, and
--     Store/Refinement compares the tables with it.
--   Postgres (src/durable_agent/postgres.py): the tables of SCHEMA and the methods of PostgresStore.
--     A request is answered, lost, or carried out without an answer (`Fate`); each call takes the
--     next fate of a list. psycopg refuses a text with a NUL, and an INTEGER column a number of more than
--     32 bits. An advisory lock belongs to the session that has it, and goes with the session's end.
--     Postgres/Requests has the calls of the `Store` protocol, Postgres/View decodes SQLite's rows,
--     Postgres/Same compares the two stores, Postgres/Unique has the partial unique index under any
--     fates, Postgres/Session sequences of sessions that lock and close, and its Inside the workers
--     inside the lock. Postgres/Schemas has the connection string, setup and drop, and stores of
--     several schemas in one database, whose rule for names is a parameter; a store of `public` sets
--     no search_path, and goes by the server's default, the user's schema before `public`.
--   Healing (src/durable_agent/healing.py): Healing/Scan has the scans of a response, Healing the
--     candidates, the faults, the prompts and the validation. The matcher of _FENCE tries each
--     position in turn, on fuel that is the length of the text: each match or failure consumes one;
--     `re.finditer` itself has no such bound.
--   Providers (src/durable_agent/providers.py): the protocol, MockProvider and ChaosProvider, whose
--     random draws are a list.
--   Engine (src/durable_agent/engine.py): Engine/Context has StepContext and `ask`, whose loop recurs on
--     the rounds left of `range(1, budget + 1)`; Engine has submit and submit_or_attach; Engine/Run
--     has `run`, one function to each block of it. A handler is any function of its context and the
--     world outside. It may change the two dicts of its context in place: the context that it leaves is
--     the next step's, as the handlers of a run share `payload` and `previous`. The engine calls the store through `on_store`; the store never calls back.
--     Engine/World and Engine/World/Asked say what a run and `ask` keep of the world outside,
--     Engine/Recovery what becomes of a run that dies before its steps, Engine/Interrupted of one that
--     is cut off anywhere: a killed process is one whose connections all fail from then on.
--     Engine/Replay compares a run that is cut off with a story that is told without a store (Story),
--     by how far its checkpoints have come along it (Progress, Failure, Handled, Loop, Locks, Runs);
--     Engine/Stages follows a run from step to step with what each has made of the world outside.
--   Demo (src/durable_agent/demo.py): the gateway and the handler that charges with a step's token;
--     Demo/Story has the plan, the handlers and the engine of `build`, and `main` up to its exit code;
--     Demo/Charges counts the charges, and Demo/Paid and Demo/Verdict follow the gateway through `main`.
--   Benchmark (scripts/benchmark.py): the prompts, the measurement with its asserts, and the results;
--     a percentage is an exact fraction, where the script has a float.
--
-- Conventions. Names, keys and columns of text are native strings; prompts, responses, reasons and
-- hashed texts are lists of code points. A value of `dict[str, Any]` is of a type `J`. Times are
-- numbers of milliseconds. An integer that the program keeps at zero or more is a natural number.
--
-- Not modelled: a dict that a handler keeps and changes after it has ended, and dicts of a context
-- that are one object; numbers beyond the 64 bits of an INTEGER of SQLite, and texts too long for an
-- index of Postgres; the messages of PlanChanged, LockUnavailable and KeyError, what the demo and the
-- benchmark print and write to files, the demo's arguments and directory, PRAGMA, and threads inside
-- one process (the calls of several workers are sequences of store calls). The two reads of
-- PostgresStore's load are taken as one, and so are the statements of one setup of it with respect to
-- other stores; a `SET search_path` that is lost is taken as the loss of the statement behind it.
pub mod Base
pub mod Exec
pub mod Models
pub mod Externals
pub mod Store
pub mod Postgres
pub mod Healing
pub mod Providers
pub mod Engine
pub mod Demo
pub mod Benchmark
mod Tests
