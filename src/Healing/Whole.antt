-- ===== src/Healing/Whole.antt =====
-- healing.py, `parse_or_faults`: a response that is one JSON value.
use durable_agent_engine.Base.{List}
