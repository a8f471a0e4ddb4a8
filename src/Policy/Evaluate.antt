-- ===== src/Policy/Evaluate.antt =====
-- `Evaluate`, `Check` and the other questions that the proxy asks of a policy, of
-- internal/policy/policy.go.
use nockguard.Base.{
  Bool, true, false, not, ◌&&◌, Option, none, some, List, [], ◌∷◌, if◌then◌else◌, Text, codes,
  text_eq, lookup, is_nonempty,
}
use nockguard.Policy.Types.{
  AgentPolicy, Engine, InjectRule, ToolPin, Verdict, allow, deny, ask, Reason, no_policy,
  deny_malformed, deny_rule, ask_rule, allow_rule, no_allow_rule, mode_deny, default_allow,
  default_deny, given, shadowed, Decision,
}
use nockguard.Policy.Patterns.{match_pattern_err, match_pattern, matches_any}

abbrev pub plain_decision : Verdict → Reason → Decision
plain_decision v r = record { verdict = v; reason = r; shadow_would_deny = false }

-- A named policy, or the one of "default".
unfoldable pub agent_policy : Engine → Text → Option AgentPolicy
agent_policy e agent = elim (lookup agent e.config.agents) [
  | some pol ↦ some pol
  | none ↦ lookup (codes "default") e.config.agents
]

-- The closure `withShadow`.
unfoldable pub with_shadow : Bool → Decision → Decision
with_shadow shadow_miss dec = elim dec.verdict [
  | allow ↦
      if shadow_miss
      then record dec { reason = shadowed dec.reason; shadow_would_deny = true }
      else dec
  | _ ↦ dec
]

-- The loop over the deny list: a malformed pattern denies.
unfoldable pub scan_deny : List Text → Text → Option Decision
scan_deny [] tool = none
scan_deny (p ∷ ps) tool = elim (match_pattern_err p tool) [
  | none ↦ some (plain_decision deny (deny_malformed p))
  | some true ↦ some (plain_decision deny (deny_rule p))
  | some false ↦ scan_deny ps tool
]

-- The first pattern of a list that matches.
unfoldable pub first_match : List Text → Text → Option Text
first_match [] tool = none
first_match (p ∷ ps) tool = if match_pattern p tool then some p else first_match ps tool

-- The part of `Evaluate` below the ask list.
unfoldable pub evaluate_allow : AgentPolicy → Bool → Text → Decision
evaluate_allow pol shadow_miss tool =
    if is_nonempty pol.allow
    then elim (first_match pol.allow tool) [
      | some p ↦ with_shadow shadow_miss (plain_decision allow (allow_rule p))
      | none ↦ plain_decision deny no_allow_rule
    ]
    else if text_eq pol.mode (codes "deny")
    then with_shadow shadow_miss (plain_decision deny mode_deny)
    else if text_eq pol.mode (codes "allow")
    then with_shadow shadow_miss (plain_decision allow default_allow)
    else with_shadow shadow_miss (plain_decision deny default_deny)

unfoldable pub evaluate_policy : AgentPolicy → Text → Decision
evaluate_policy pol tool =
    let shadow_miss = is_nonempty pol.shadow && not (matches_any pol.shadow tool) in
    elim (scan_deny pol.deny tool) [
      | some dec ↦ dec
      | none ↦ elim (first_match pol.ask tool) [
        | some p ↦ plain_decision ask (ask_rule p)
        | none ↦ evaluate_allow pol shadow_miss tool
      ]
    ]

unfoldable pub evaluate : Engine → Text → Text → Decision
evaluate e agent tool = elim (agent_policy e agent) [
  | none ↦ plain_decision deny no_policy
  | some pol ↦ evaluate_policy pol tool
]

abbrev pub allowed : Decision → Bool
allowed d = elim d.verdict [ allow ↦ true | _ ↦ false ]

unfoldable pub check : Engine → Text → Text → Bool
check e agent tool = allowed (evaluate e agent tool)

unfoldable pub requires_approval : Engine → Text → Text → Bool
requires_approval e agent tool = elim (agent_policy e agent) [
  | none ↦ false
  | some pol ↦ matches_any pol.require_approval tool
]

-- The rules that name the tool, in the policy's order.
unfoldable pub matching_rules : List InjectRule → Text → List InjectRule
matching_rules [] tool = []
matching_rules (r ∷ rs) tool =
    let rest = matching_rules rs tool in if matches_any r.tools tool then r ∷ rest else rest

unfoldable pub inject_rules_for : Engine → Text → Text → List InjectRule
inject_rules_for e agent tool = elim (agent_policy e agent) [
  | none ↦ []
  | some pol ↦ matching_rules pol.inject tool
]

unfoldable pub fail_mode_verdict : Engine → Text → Text → Decision
fail_mode_verdict e agent reason = elim (agent_policy e agent) [
  | none ↦ plain_decision deny (given reason)
  | some pol ↦
      plain_decision (if text_eq pol.fail_mode (codes "ask") then ask else deny) (given reason)
]

abbrev pub contains_text : List Text → Text → Bool
contains_text [] t = false
contains_text (x ∷ xs) t = if text_eq t x then true else contains_text xs t

-- A missing policy is the zero `AgentPolicy`, whose lists are empty.
unfoldable pub denies_method : Engine → Text → Text → Bool
denies_method e agent method = elim (agent_policy e agent) [
  | none ↦ false
  | some pol ↦ contains_text pol.deny_methods method
]

unfoldable pub has_policy_for : Engine → Text → Bool
has_policy_for e agent = elim (agent_policy e agent) [ none ↦ false | some pol ↦ true ]

unfoldable pub tool_pin : Engine → Text → Text → Text → Option ToolPin
tool_pin e agent upstream_id tool = elim (agent_policy e agent) [
  | none ↦ none
  | some pol ↦ elim (lookup upstream_id pol.tool_pins) [
    | none ↦ none
    | some pins ↦ lookup tool pins
  ]
]

unfoldable pub has_tool_pin_constraints : Engine → Text → Bool
has_tool_pin_constraints e agent = elim (agent_policy e agent) [
  | none ↦ false
  | some pol ↦ if pol.strict_tool_pins then true else is_nonempty pol.tool_pins
]

unfoldable pub strict_tool_pins : Engine → Text → Bool
strict_tool_pins e agent = elim (agent_policy e agent) [
  | none ↦ false
  | some pol ↦ pol.strict_tool_pins
]
