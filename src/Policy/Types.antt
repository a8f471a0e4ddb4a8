-- ===== src/Policy/Types.antt =====
-- The policy file's structs and the engine that holds them, of internal/policy/policy.go.
use nockguard.Base.{ℕ, Bool, false, Option, none, List, [], Text, Map, ℤ}

pub record ToolPin : Type 0 where
  pub hash_version : Text
  pub sha256 : Text

pub record RateLimitPolicy : Type 0 where
  pub max_calls : ℤ
  pub window : Text

pub record SpendCapPolicy : Type 0 where
  pub max_calls : ℤ

pub record InjectRule : Type 0 where
  pub tools : List Text
  pub ref : Text
  pub arg : Text
  pub template : Text

pub record TrustPolicy : Type 0 where
  pub enabled : Bool
  pub path : Text

pub record AgentPolicy : Type 0 where
  pub tool_pins : Map (Map ToolPin)
  pub strict_tool_pins : Bool
  pub deny_methods : List Text
  pub allow : List Text
  pub deny : List Text
  pub shadow : List Text
  pub ask : List Text
  pub fail_mode : Text
  pub mode : Text
  pub validate_input : List Text
  pub block_params : List Text
  pub rate_limit : Option RateLimitPolicy
  pub spend_cap : Option SpendCapPolicy
  pub trust : Option TrustPolicy
  pub require_approval : List Text
  pub inject : List InjectRule

-- The zero `AgentPolicy`.
abbrev pub empty_policy : AgentPolicy
empty_policy = record {
  tool_pins = [];
  strict_tool_pins = false;
  deny_methods = [];
  allow = [];
  deny = [];
  shadow = [];
  ask = [];
  fail_mode = [];
  mode = [];
  validate_input = [];
  block_params = [];
  rate_limit = none;
  spend_cap = none;
  trust = none;
  require_approval = [];
  inject = [];
}

pub record ForwardPolicy : Type 0 where
  pub enabled : Bool
  pub url : Text
  pub api_key_env : Text

pub record AuditPolicy : Type 0 where
  pub enabled : Bool
  pub path : Text
  pub action_pairing : Bool
  pub sign_key_env : Text
  pub sign_ed25519_key_env : Text
  pub forward : Option ForwardPolicy

pub record Config : Type 0 where
  pub agents : Map AgentPolicy
  pub audit : Option AuditPolicy

-- An agent, a tool glob and the number of inject rules that it appears in.
pub record Warning : Type 0 where
  pub agent : Text
  pub tool : Text
  pub count : ℕ

pub record Engine : Type 0 where
  pub config : Config
  pub warnings : List Warning

pub data Verdict : Type 0 where
  allow deny ask : Verdict

-- The phrases of `Decision.Reason`, each with the pattern that it quotes. `given` is the reason that
-- a caller hands over, and `shadowed` the suffix of a shadow miss.
pub data Reason : Type 0 where
  no_policy : Reason
  deny_malformed : Text → Reason
  deny_rule : Text → Reason
  ask_rule : Text → Reason
  allow_rule : Text → Reason
  no_allow_rule : Reason
  mode_deny : Reason
  default_allow : Reason
  default_deny : Reason
  given : Text → Reason
  shadowed : Reason → Reason

pub record Decision : Type 0 where
  pub verdict : Verdict
  pub reason : Reason
  pub shadow_would_deny : Bool
