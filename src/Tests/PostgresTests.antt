-- ===== src/Tests/PostgresTests.antt =====
-- postgres.py: calls that both stores answer, sessions, and instances of the theorems on them.
use durable_agent_engine.Base.{
  ℕ, suc, String, ◌≡◌, refl, Option, none, some, List, [], ◌∷◌, leb, arith, if◌then◌else◌,
}
use durable_agent_engine.Exec.{ok, err, lock_unavailable}
use durable_agent_engine.Models.{RunStatus}
use durable_agent_engine.Models.Token.{advisory_lock_id}
use durable_agent_engine.Externals
use durable_agent_engine.Store.Calls.{empty_tables}
use durable_agent_engine.Postgres.{Server, Fate, acquire, close}
use durable_agent_engine.Postgres.Sql.{RunRow, Tables}
use durable_agent_engine.Postgres.Requests.{Request, Answer, postgres_answer, postgres_answers}
use durable_agent_engine.Postgres.Same.{mirror}
use durable_agent_engine.Postgres.Unique.{one_open_run_per_key}
use durable_agent_engine.Postgres.Session.{Act, act_all, unlocked, end_frees}
use durable_agent_engine.Postgres.Session.Inside.{steps_inside, one_worker_per_lock}
use durable_agent_engine.Tests.Fixture.{Value, externals, spec, parse_row, everything}

abbrev first_stored : RunRow Value → List (RunRow Value) → RunRow Value
first_stored best [] = best
first_stored best (r ∷ rs) =
    first_stored (if leb (suc best.created_at) r.created_at then r else best) rs

abbrev newest_stored : List (RunRow Value) → Option (RunRow Value)
newest_stored [] = none
newest_stored (r ∷ rs) = some (first_stored r rs)

abbrev pub server : Server Value
server = record { jsonb = λ t. some (some t); newest = newest_stored }

abbrev requests : List (Request Value)
requests =
    Request.create_run 1 "a" spec
    ∷ Request.create_run 2 "b" spec
    ∷ Request.append (record {
      run_id = "a";
      index = 0;
      name = "parse";
      outcome = parse_row.outcome;
      attempts = 1;
      output = some "amount";
      tokens_used = 0;
      created_at = 3;
    })
    ∷ Request.set_status "a" RunStatus.completed none
    ∷ Request.find_by_key "order-42"
    ∷ []

-- A duplicate is refused, a checkpoint is written, and the run that is over is found.
abbrev statuses : List (Answer Value) → List (Option RunStatus)
statuses [] = []
statuses (Answer.created (ok s) ∷ as') = some s.status ∷ statuses as'
statuses (Answer.found (ok (some s)) ∷ as') = some s.status ∷ statuses as'
statuses (_ ∷ as') = none ∷ statuses as'

answered_requests :
    statuses
      (postgres_answers externals server requests (mirror externals server [] empty_tables)).0
    ≡ some RunStatus.pending ∷ none ∷ none ∷ none ∷ some RunStatus.completed ∷ []
unfolding postgres_answers postgres_answer everything
answered_requests = refl

abbrev acts : List Act
acts = Act.asks 1 "order-42" ∷ Act.asks 2 "order-42" ∷ Act.asks 2 "order-43" ∷ Act.ends 3 ∷ []

abbrev no_rows : Tables Value
no_rows = record { runs = []; step_records = [] }

abbrev lock_42 : ℕ
lock_42 = advisory_lock_id externals "order-42"

one_worker_per_lock_example : ◌≡◌ {A = ℕ} 1 1
unfolding everything steps_inside
one_worker_per_lock_example =
    one_worker_per_lock externals acts no_rows (Fate.answered ∷ Fate.unanswered ∷ []) 1 1 lock_42
      refl refl

end_frees_example :
    let db = act_all externals acts (unlocked externals no_rows []) in
    ((acquire externals 2 "order-42" db).0 ≡ err lock_unavailable)
    × ((acquire externals 2 "order-42" (close 1 db).1).0 ≡ ok tt)
unfolding everything
end_frees_example =
    end_frees externals acts no_rows [] 1 2 "order-42" refl refl (λ e. omega (arith, e))

-- The first run is created and its answer lost; the second request is lost, and asked again.
abbrev retried : List (Request Value)
retried =
    Request.create_run 1 "a" spec
    ∷ Request.create_run 2 "b" spec
    ∷ Request.create_run 3 "b" spec
    ∷ []

abbrev created : RunRow Value
created = record {
  run_id = "a";
  idempotency_key = "order-42";
  plan_name = "checkout";
  payload = some "4200";
  status = RunStatus.pending;
  error = none;
  created_at = 1;
}

one_open_run_per_key_example : ◌≡◌ {A = String} "a" "a"
unfolding everything postgres_answer postgres_answers
one_open_run_per_key_example =
    one_open_run_per_key externals server retried (Fate.unanswered ∷ Fate.lost ∷ []) "a" "a" created
      created refl refl refl refl refl
