-- ===== src/Audit/Event.antt =====
-- A row of the audit trail, of internal/audit/audit.go.
use nockguard.Base.{ℕ, Bool, Option, none, [], Text, ℤ, pos}

-- The counters `run_seq` and `run_count` are uint64; the IDs and the version are Go ints.
pub record Event : Type 0 where
  pub time : Text
  pub agent : Text
  pub tool : Text
  pub decision : Text
  pub reason : Text
  pub approval_actor : Text
  pub nock_id : ℤ
  pub pr : Text
  pub review_id : Text
  pub parent_audit_seq : ℤ
  pub session_id : Text
  pub key_id : Text
  pub schema_version : ℤ
  pub record_type : Text
  pub run_id : Text
  pub run_seq : ℕ
  pub run_event : Text
  pub run_count : ℕ
  pub run_head : Text
  pub action_id : Text
  pub observation : Text
  pub cause : Text
  pub response_class : Text
  pub mcp_is_error : Option Bool
  pub tool_hash_version : Text
  pub tool_definition_hash : Text
  pub tool_pin_hash : Text
  pub tool_pin_status : Text
  pub sig : Text

-- The zero `Event`.
abbrev pub blank_event : Event
blank_event = record {
  time = [];
  agent = [];
  tool = [];
  decision = [];
  reason = [];
  approval_actor = [];
  nock_id = pos 0;
  pr = [];
  review_id = [];
  parent_audit_seq = pos 0;
  session_id = [];
  key_id = [];
  schema_version = pos 0;
  record_type = [];
  run_id = [];
  run_seq = 0;
  run_event = [];
  run_count = 0;
  run_head = [];
  action_id = [];
  observation = [];
  cause = [];
  response_class = [];
  mcp_is_error = none;
  tool_hash_version = [];
  tool_definition_hash = [];
  tool_pin_hash = [];
  tool_pin_status = [];
  sig = [];
}
