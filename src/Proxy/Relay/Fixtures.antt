-- ===== src/Proxy/Relay/Fixtures.antt =====
-- A gate, a setting and a relay for the tests of the stdio proxy.
use nockguard.Base.{ℕ, true, false, none, some, [], ◌∷◌, refl, codes, pos, ok}
use nockguard.Policy.Types.{AgentPolicy, empty_policy, Engine}
use nockguard.Proxy.Json.{text, obj, Fields, end, field}
use nockguard.Proxy.Catalog.{empty_catalog}
use nockguard.Proxy.Queue.{new_queue}
use nockguard.Proxy.Gate.State.{Gate}
use nockguard.Proxy.Gate.Types.{World, Message}
use nockguard.Proxy.Relay.State.{Relay, Line, Setting}
use nockguard.Proxy.Relay.Exact.{Faithful}

abbrev pub reader : AgentPolicy
reader = record empty_policy { allow = codes "read" ∷ [] }

abbrev pub engine : Engine
engine = record {
  config = record { agents = (codes "coder", reader) ∷ []; audit = none };
  warnings = [];
}

abbrev pub gate : Gate
gate = record {
  engine = engine;
  agent = codes "coder";
  upstream_id = [];
  limiter = none;
  approver = false;
  action_run_id = codes "run";
  catalog = empty_catalog;
  action_observed = [];
  queue = new_queue true;
  trusting = false;
  outcomes = [];
  forwarding = false;
  notices = [];
  method_rows = [];
}

-- The bytes of a message are a number, all with one ID.
abbrev pub world : World ℕ
world = record {
  quote = λ t. t;
  oversize_reason = λ kind t. t;
  valid_prefix = λ t. t;
  now = 0;
  max_calls = λ n. n;
  approve = λ tool reason. record { approved = false; reason = []; actor = []; rejected_taps = [] };
  validator = none;
  resolver = λ ref. none;
  encode = λ fs. some 1;
  writer_refuses = λ n. false;
}

abbrev pub setting : Setting ℕ
setting = record {
  world = world;
  decode_id = some;
  id_of = λ b. some (codes "1");
  method_of = λ b. codes "tools/call";
  cancelled_id = λ b. [];
  required = true;
  latched = λ n. false;
  stopping = false;
  server_fails = false;
  agent_fails = false;
}

abbrev pub read_params : Fields
read_params = field (codes "name") (text (codes "read")) end

abbrev pub read : Message
read = record {
  method = codes "tools/call";
  id = some (codes "1");
  params = some read_params;
  members = field (codes "params") (obj read_params) end;
}

abbrev pub line : Line ℕ
line = record {
  listing = false;
  params = none;
  raw_id = some (codes "1");
  canonical = ok (read, 0);
}

abbrev pub relay : Relay ℕ
relay = record {
  gate = gate;
  pending = [];
  active = [];
  counter = 0;
  current_card = pos 0;
  to_server = [];
  to_agent = [];
}

abbrev pub read_faithful : Faithful setting read 0
read_faithful = record { line_id = refl; encoded_id = λ params b h. refl }
