-- ===== src/Policy/Load.antt =====
-- `loadFrom`: the checks of a decoded policy, in internal/policy/policy.go. The YAML decoder is not
-- modelled, so a run starts at the decoded `Config`. Go visits its maps in no fixed order; here the
-- order is that of the association list, which decides only which of several errors is returned.
use nockguard.Base.{
  ℕ, suc, Bool, false, not, ◌&&◌, ◌||◌, Option, none, some, List, [], ◌∷◌, ◌++◌, ltb, ◌==◌,
  if◌then◌else◌, Text, codes, text_eq, contains_any, has_prefix, has_suffix, count_text,
  byte_length, is_hex, lower_char, is_space, is_control, trim_space, Map, ℤ, is_positive, Result,
  ok, err, ◌>>=◌, ◌>>◌, fail_if, each, all_of, is_nonempty, any, map,
}
use nockguard.Policy.Types.{
  ToolPin, RateLimitPolicy, InjectRule, AgentPolicy, AuditPolicy, Config, Warning, Engine,
}
use nockguard.Policy.Patterns.{validate_glob, is_glob_pattern_disjoint}

-- One constructor for each error that `loadFrom` returns, with what its message quotes.
pub data LoadError : Type 0 where
  pairing_without_audit : LoadError
  pins_without_pairing : Text → LoadError
  bad_upstream_id : Text → Text → LoadError
  empty_pin_set : Text → Text → LoadError
  invalid_pin : Text → Text → Text → LoadError
  bad_deny_method : Text → Text → LoadError
  bad_rate_limit : Text → LoadError
  malformed_glob : Text → Text → Text → LoadError
  unknown_category : Text → Text → LoadError
  inject_no_tools inject_no_ref inject_no_arg : Text → LoadError
  inject_bad_arg : Text → Text → LoadError
  inject_bare_glob inject_malformed_glob : Text → Text → LoadError
  inject_bad_scheme inject_bad_template : Text → Text → LoadError
  inject_overlap : Text → Text → Text → Text → LoadError
  inject_duplicate : Text → Text → Text → LoadError

abbrev pub Check : Type 0
Check = Result LoadError (Unit {0})

-- `ValidateUpstreamID`: whether the ID is accepted.
unfoldable pub validate_upstream_id : Text → Bool
unfolding byte_length is_space is_control
validate_upstream_id id =
    not (not (is_nonempty id) || ltb 128 (byte_length id))
    && not (any (λ r. is_space r || is_control r) id)

unfoldable pub is_valid_pin : Text → ToolPin → Bool
unfolding text_eq byte_length is_hex
is_valid_pin tool pin =
    is_nonempty tool
    && text_eq pin.hash_version (codes "jcs-rfc8785-v1")
    && byte_length pin.sha256 == 64
    && text_eq (map lower_char pin.sha256) pin.sha256
    && is_hex pin.sha256

check_pin_set : Text → Text × Map ToolPin → Check
unfolding validate_upstream_id is_valid_pin each all_of
check_pin_set agent (upstream, tools) = all_of (
    (fail_if (not (validate_upstream_id upstream)) (bad_upstream_id agent upstream))
    ∷ (fail_if (not (is_nonempty tools)) (empty_pin_set agent upstream))
    ∷ (each (λ (tool, pin). fail_if (not (is_valid_pin tool pin)) (invalid_pin agent upstream tool))
        tools)
    ∷ [])

abbrev pairing_on : Option AuditPolicy → Bool
pairing_on none = false
pairing_on (some a) = a.action_pairing

check_agent_pins : Config → Text × AgentPolicy → Check
unfolding check_pin_set each
check_agent_pins cfg (agent, pol) =
    if not (is_nonempty pol.tool_pins) && not pol.strict_tool_pins
    then ok tt
    else (fail_if (not (pairing_on cfg.audit)) (pins_without_pairing agent)
        >> each (check_pin_set agent) pol.tool_pins)

unfoldable pub is_exact_method : Text → Bool
unfolding text_eq trim_space contains_any
is_exact_method method = not (
    not (text_eq (trim_space method) method)
    || not (is_nonempty method)
    || contains_any method (b'*' ∷ b'?' ∷ b'[' ∷ 92 ∷ 32 ∷ 9 ∷ 13 ∷ 10 ∷ [])
    || text_eq method (codes "tools/call"))

-- `validate.KnownCategory`, of internal/validate/validate.go.
unfoldable pub known_category : Text → Bool
unfolding text_eq
known_category c =
    text_eq c (codes "sqli") || text_eq c (codes "path_traversal") || text_eq c (codes "secrets")

-- `secrets.KnownScheme`, of internal/secrets/secrets.go.
unfoldable pub known_scheme : Text → Bool
unfolding has_prefix
known_scheme ref =
    has_prefix ref (codes "env:")
    || has_prefix ref (codes "file:")
    || has_prefix ref (codes "nockcc:")

unfoldable pub check_globs : Text → Text → List Text → Check
unfolding validate_glob each
check_globs agent field patterns =
    each (λ p. fail_if (not (validate_glob p)) (malformed_glob agent field p)) patterns

check_inject_tool : Text → Text → Check
unfolding text_eq validate_glob all_of
check_inject_tool agent tool = all_of (
    (fail_if (text_eq tool (codes "*") || text_eq tool (codes "**")) (inject_bare_glob agent tool))
    ∷ (fail_if (not (validate_glob tool)) (inject_malformed_glob agent tool))
    ∷ [])

check_inject_rule : Text → InjectRule → Check
unfolding check_inject_tool each text_eq has_prefix has_suffix known_scheme count_text
check_inject_rule agent rule = all_of (
    (fail_if (not (is_nonempty rule.tools)) (inject_no_tools agent))
    ∷ (fail_if (not (is_nonempty rule.ref)) (inject_no_ref agent))
    ∷ (fail_if (not (is_nonempty rule.arg)) (inject_no_arg agent))
    ∷ (fail_if
        (text_eq rule.arg (codes ".")
          || has_prefix rule.arg (codes ".")
          || has_suffix rule.arg (codes "."))
        (inject_bad_arg agent rule.arg))
    ∷ (each (check_inject_tool agent) rule.tools)
    ∷ (fail_if (not (known_scheme rule.ref)) (inject_bad_scheme agent rule.ref))
    ∷ (fail_if (is_nonempty rule.template && not (count_text rule.template (codes "{secret}") == 1))
        (inject_bad_template agent rule.template))
    ∷ [])

-- Two rules for one argument, each pair of whose patterns has to be proved disjoint.
unfoldable pub check_overlap : Text → InjectRule → InjectRule → Check
unfolding each text_eq is_glob_pattern_disjoint
check_overlap agent rule1 rule2 =
    if not (text_eq rule1.arg rule2.arg)
    then ok tt
    else each
        (λ tool1.
          each
            (λ tool2.
              fail_if (not (is_glob_pattern_disjoint tool1 tool2))
                (inject_overlap agent rule1.arg tool1 tool2))
            rule2.tools)
        rule1.tools

unfoldable pub check_overlaps : Text → List InjectRule → Check
unfolding check_overlap each
check_overlaps agent [] = ok tt
check_overlaps agent (rule ∷ rules) =
    let rest = check_overlaps agent rules in each (check_overlap agent rule) rules >> rest

abbrev inject_keys : List InjectRule → List (Text × Text)
inject_keys [] = []
inject_keys (rule ∷ rules) = map (λ tool. (tool, rule.arg)) rule.tools ++ inject_keys rules

abbrev same_key : Text → Text → Text × Text → Bool
same_key tool arg (t, a) = text_eq t tool && text_eq a arg

-- The loop over `seenInjectRules`.
check_duplicates : Text → List (Text × Text) → List (Text × Text) → Check
check_duplicates agent seen [] = ok tt
check_duplicates agent seen ((tool, arg) ∷ keys) =
    let rest = check_duplicates agent ((tool, arg) ∷ seen) keys in
    fail_if (any (same_key tool arg) seen) (inject_duplicate agent tool arg) >> rest

abbrev bump_count : Text → Map ℕ → Map ℕ
bump_count tool [] = (tool, 1) ∷ []
bump_count tool ((t, n) ∷ m) = if text_eq t tool then (t, suc n) ∷ m else (t, n) ∷ bump_count tool m

abbrev tool_counts : List (Text × Text) → Map ℕ
tool_counts [] = []
tool_counts ((tool, arg) ∷ keys) = bump_count tool (tool_counts keys)

abbrev repeated : Text → Map ℕ → List Warning
repeated agent [] = []
repeated agent ((tool, n) ∷ m) =
    let rest = repeated agent m in
    if ltb 1 n then record { agent = agent; tool = tool; count = n } ∷ rest else rest

abbrev collect_warnings : Map AgentPolicy → List Warning
collect_warnings [] = []
collect_warnings ((agent, pol) ∷ agents) =
    repeated agent (tool_counts (inject_keys pol.inject)) ++ collect_warnings agents

-- `time.ParseDuration`, in nanoseconds, is the parameter: `none` is its error.
module _ (parse_duration : Text → Option ℤ) where
  -- `rateLimitWindow`: a window that is present, parses and is positive.
  unfoldable pub rate_limit_window : Text → RateLimitPolicy → Result LoadError ℤ
  rate_limit_window agent pol =
      if not (is_nonempty pol.window)
      then err (bad_rate_limit agent)
      else elim (parse_duration pol.window) [
        | none ↦ err (bad_rate_limit agent)
        | some w ↦ if is_positive w then ok w else err (bad_rate_limit agent)
      ]

  unfoldable pub check_rate_limit : Text → Option RateLimitPolicy → Check
  unfolding rate_limit_window
  check_rate_limit agent none = ok tt
  check_rate_limit agent (some rl) = do w ← rate_limit_window agent rl; ok tt

  -- The second loop of `loadFrom`, for one agent.
  unfoldable pub agent_checks : Text × AgentPolicy → List Check
  unfolding check_inject_rule check_duplicates
  agent_checks (agent, pol) =
      (each (λ m. fail_if (not (is_exact_method m)) (bad_deny_method agent m)) pol.deny_methods)
      ∷ (check_rate_limit agent pol.rate_limit)
      ∷ (check_globs agent (codes "allow") pol.allow)
      ∷ (check_globs agent (codes "deny") pol.deny)
      ∷ (check_globs agent (codes "ask") pol.ask)
      ∷ (check_globs agent (codes "shadow") pol.shadow)
      ∷ (check_globs agent (codes "require_approval") pol.require_approval)
      ∷ (each (λ c. fail_if (not (known_category c)) (unknown_category agent c)) pol.validate_input)
      ∷ (each (check_inject_rule agent) pol.inject)
      ∷ (check_overlaps agent pol.inject)
      ∷ (check_duplicates agent [] (inject_keys pol.inject))
      ∷ []

  unfoldable pub check_agent : Text × AgentPolicy → Check
  unfolding agent_checks
  check_agent a = all_of (agent_checks a)

  abbrev pairing_unaudited : Option AuditPolicy → Bool
  pairing_unaudited none = false
  pairing_unaudited (some a) = a.action_pairing && not a.enabled

  unfoldable pub load_checks : Config → List Check
  unfolding check_agent_pins
  load_checks cfg =
      fail_if (pairing_unaudited cfg.audit) pairing_without_audit
      ∷ each (check_agent_pins cfg) cfg.agents
      ∷ each check_agent cfg.agents
      ∷ []

  unfoldable pub load_from : Config → Result LoadError Engine
  load_from cfg =
      all_of (load_checks cfg)
      >> ok (record { config = cfg; warnings = collect_warnings cfg.agents })
