-- ===== src/Policy/Tests.antt =====
-- Policies of the README at work, and the theorems at them.
use nockguard.Base.{
  true, Option, none, some, [], ◌∷◌, ◌≡◌, ◌≢◌, ◌↔◌, refl, Text, codes, lookup, text_eq, ℤ, ok, each,
  all_of, contains_any, has_prefix, has_suffix,
}
use nockguard.Glob.Match.{path_match}
use nockguard.Policy.Types.{
  AgentPolicy, empty_policy, Config, Engine, InjectRule, deny, allow_rule, deny_rule,
  deny_malformed, shadowed,
}
use nockguard.Policy.Patterns.{
  match_pattern_err, match_pattern, matches_any, is_glob_pattern, validate_glob,
  is_glob_pattern_disjoint,
}
use nockguard.Policy.Evaluate.{
  agent_policy, with_shadow, scan_deny, first_match, evaluate_allow, evaluate_policy, evaluate,
  check, plain_decision, allowed, inject_rules_for,
}
use nockguard.Policy.Verdicts.{
  Basis, Permits, NoneMatches, evaluate-Basis, check_iff, shadow_dry_run,
}
use nockguard.Policy.Load.{
  load_from, load_checks, agent_checks, check_agent, check_globs, check_rate_limit, check_overlap,
  check_overlaps,
}
use nockguard.Policy.Loaded.{loaded_never_malformed}
use nockguard.Policy.Injection.{DistinctArgs, inject_rules-DistinctArgs}

abbrev token_rule : Text → Text → InjectRule
token_rule tool arg = record {
  tools = tool ∷ [];
  ref = codes "env:TOKEN";
  arg = arg;
  template = [];
}

abbrev coder : AgentPolicy
coder = record empty_policy {
  allow = codes "read_*" ∷ codes "github_*" ∷ [];
  deny = codes "github_delete_*" ∷ [];
  shadow = codes "read_*" ∷ [];
  inject =
      token_rule (codes "github_*") (codes "token")
      ∷ token_rule (codes "read_file") (codes "token")
      ∷ token_rule (codes "read_*") (codes "header")
      ∷ [];
}

abbrev readme : Config
readme = record { agents = (codes "coder", coder) ∷ []; audit = none }

abbrev readme_engine : Engine
readme_engine = record { config = readme; warnings = [] }

abbrev no_duration : Text → Option ℤ
no_duration t = none

deny_wins :
    evaluate readme_engine (codes "coder") (codes "github_delete_repo")
    ≡ plain_decision deny (deny_rule (codes "github_delete_*"))
unfolding evaluate agent_policy lookup text_eq evaluate_policy scan_deny match_pattern_err
    is_glob_pattern contains_any path_match
deny_wins = refl

shadow_marks :
    (evaluate readme_engine (codes "coder") (codes "github_search")).reason
    ≡ shadowed (allow_rule (codes "github_*"))
unfolding evaluate agent_policy lookup text_eq evaluate_policy scan_deny match_pattern_err
    match_pattern is_glob_pattern contains_any path_match first_match evaluate_allow with_shadow
    matches_any
shadow_marks = refl

readme_loads : load_from no_duration readme ≡ ok readme_engine
unfolding load_from load_checks check_agent agent_checks check_globs check_rate_limit check_overlaps
    check_overlap is_glob_pattern_disjoint validate_glob is_glob_pattern contains_any text_eq
    path_match each all_of has_prefix has_suffix
readme_loads = refl

evaluate-Basis_example :
    Basis coder (codes "read_file") (evaluate readme_engine (codes "coder") (codes "read_file"))
unfolding agent_policy lookup text_eq
evaluate-Basis_example = evaluate-Basis readme_engine (codes "coder") (codes "read_file") coder refl

check_iff_example : (check readme_engine (codes "coder") (codes "read_file") ≡ true) ↔ (
    (pol : AgentPolicy) × (agent_policy readme_engine (codes "coder") ≡ some pol)
    × Permits pol (codes "read_file"))
check_iff_example = check_iff readme_engine (codes "coder") (codes "read_file")

shadow_dry_run_example :
    ((evaluate_policy (record coder { shadow = [] }) (codes "github_search")).verdict
      ≡ (evaluate_policy coder (codes "github_search")).verdict)
    × (((evaluate_policy coder (codes "github_search")).shadow_would_deny ≡ true) ↔ (
        (allowed (evaluate_policy coder (codes "github_search")) ≡ true)
        × (coder.shadow ≢ [])
        × NoneMatches coder.shadow (codes "github_search")))
shadow_dry_run_example = shadow_dry_run coder [] (codes "github_search")

loaded_never_malformed_example :
    (evaluate readme_engine (codes "coder") (codes "x")).reason
    ≢ deny_malformed (codes "github_delete_*")
loaded_never_malformed_example =
    loaded_never_malformed no_duration readme readme_engine (codes "coder") (codes "x")
      (codes "github_delete_*") readme_loads

inject_rules-DistinctArgs_example :
    DistinctArgs (inject_rules_for readme_engine (codes "coder") (codes "read_file"))
inject_rules-DistinctArgs_example =
    inject_rules-DistinctArgs no_duration readme readme_engine (codes "coder") (codes "read_file")
      readme_loads
