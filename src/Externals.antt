-- ===== src/Externals.antt =====
-- What the stores and the engine call and do not implement: the JSON codec, the hash of hashlib,
-- and the database's choice among rows that `ORDER BY created_at` does not separate.
use durable_agent_engine.Base.{Text, ℕ, String, ◌≡◌, Option, some, List}
use durable_agent_engine.Models.{RunStatus}

-- A row of `runs`. `payload` is the JSON text.
pub record RunRow : Type 0 where
  pub run_id : String
  pub idempotency_key : String
  pub plan_name : String
  pub payload : String
  pub status : RunStatus
  pub error : Option Text
  pub created_at : ℕ

pub record Externals (J : Type 0) : Type 0 where
  -- `none` is the TypeError of a value that has no JSON form
  pub dumps : J → Option String
  pub loads : String → J
  -- `{"error": reason}`
  pub error_object : Text → J
  -- `blake2b(text.encode(), digest_size=n).digest()`, on the code points of the text
  pub blake2b : ℕ → List ℕ → List ℕ
  -- `ORDER BY created_at DESC LIMIT 1`
  pub newest : List RunRow → Option RunRow

-- What json.dumps writes, json.loads reads back.
abbrev pub RoundTrips : {J : Type 0} → Externals J → Type 0
RoundTrips {J} x = (j : J) (t : String) → x.dumps j ≡ some t → x.loads t ≡ j
