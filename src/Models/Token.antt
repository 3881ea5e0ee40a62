-- ===== src/Models/Token.antt =====
-- models.py, `effect_token` and `advisory_lock_id`, over the hash of hashlib.
use durable_agent_engine.Base.{
  ℕ, ◌+◌, ◌-◌, ◌*◌, ◌/◌, ◌%◌, ◌^◌, String, Text, codes, decimal, List, [], ◌∷◌, ◌++◌, ltb,
  if◌then◌else◌,
}
use durable_agent_engine.Externals.{Externals}

unfoldable pub hex_digit : ℕ → ℕ
hex_digit d = if ltb d 10 then b'0' + d else b'a' + d - 10

-- `bytes.hex`
unfoldable pub hexdigest : Text → Text
unfolding hex_digit
hexdigest [] = []
hexdigest (b ∷ bs) = hex_digit (b / 16) ∷ hex_digit (b % 16) ∷ hexdigest bs

-- `f"{run_id}:{step_index}"`
unfoldable pub token_text : String → ℕ → Text
unfolding decimal
token_text run_id step_index = codes run_id ++ (b':' ∷ decimal step_index)

-- `int.from_bytes(digest, "big")`
unfoldable pub from_bytes : ℕ → List ℕ → ℕ
from_bytes acc [] = acc
from_bytes acc (b ∷ bs) = from_bytes (acc * 256 + b) bs

module _ {J : Type 0} (x : Externals J) where
  unfoldable pub effect_token : String → ℕ → Text
  unfolding token_text hexdigest
  effect_token run_id step_index = hexdigest (x.blake2b 16 (token_text run_id step_index))

  -- `& 0x7FFFFFFFFFFFFFFF` keeps the low 63 bits.
  unfoldable pub advisory_lock_id : String → ℕ
  unfolding from_bytes
  advisory_lock_id key = from_bytes 0 (x.blake2b 8 (codes key)) % 2 ^ 63
