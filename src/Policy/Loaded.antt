-- ===== src/Policy/Loaded.antt =====
-- What a policy that `loadFrom` accepts can be relied on for while it is evaluated.
use mathlib.Core.List.{Memᴰ}
use mathlib.Core.Path.{subst}
use nockguard.Base.{
  false, not, Option, none, some, List, [], ◌∷◌, ◌≡◌, ◌≢◌, inl, inr, sym, ap, arith, Text, codes,
  text_eq, All, Bool-cases, Option-cases, Map, lookup, ℤ, ok, IsOk, each-IsOk, all_of, all_of-IsOk,
  each_fail-IsOk, >>-eq-ok,
}
use nockguard.Glob.Syntax.{path_match_total}
use nockguard.Policy.Types.{AgentPolicy, Engine, Config, deny_malformed, Decision}
use nockguard.Policy.Patterns.{match_pattern_err, validate_glob}
use nockguard.Policy.Evaluate.{agent_policy, evaluate, with_shadow}
use nockguard.Policy.Verdicts.{
  Basis, evaluate-Basis, by_deny, by_malformed, by_ask, by_allow, by_no_allow, by_mode_allow,
  by_mode_deny, by_default,
}
use nockguard.Policy.Load.{
  malformed_glob, check_globs, check_overlaps, agent_checks, check_agent, load_checks, load_from,
}

All-mem {ℓ} : {A : Type ℓ} (P : A → Type 0) {x : A} (xs : List A) → All P xs → Memᴰ x xs → P x
All-mem P [] h m = elim m [ ]
All-mem P (y ∷ ys) (a, h) (Memᴰ.head e) = subst P (sym e) a
All-mem P (y ∷ ys) (a, h) (Memᴰ.tail m) = All-mem P ys h m

lookup-mem {ℓ} :
    {V : Type ℓ} (k : Text) (v : V) (m : Map V) → lookup k m ≡ some v → (j : Text) × Memᴰ (j, v) m
unfolding lookup
lookup-mem k v [] h = cc
lookup-mem k v ((j, w) ∷ m) h = elim (Bool-cases (text_eq j k)) [
  | inl e ↦ (j, Memᴰ.head (ap (λ x. (j, x)) (ground arith)))
  | inr e ↦ let (i, t) = lookup-mem k v m (ground arith) in (i, Memᴰ.tail t)
]

agent_policy-mem :
    (e : Engine) (agent : Text) (pol : AgentPolicy)
    → agent_policy e agent ≡ some pol
    → (j : Text) × Memᴰ (j, pol) e.config.agents
unfolding agent_policy
agent_policy-mem e agent pol h = elim (Option-cases (lookup agent e.config.agents)) [
  | inr (p, f) ↦ lookup-mem agent pol e.config.agents (ground arith)
  | inl f ↦ lookup-mem (codes "default") pol e.config.agents (ground arith)
]

-- A pattern that `validateGlob` accepts never makes a match fail with an error.
pub validate_glob_total :
    (p tool : Text) → not (validate_glob p) ≡ false → match_pattern_err p tool ≢ none
unfolding validate_glob match_pattern_err
validate_glob_total p tool h = ground (arith, path_match_total p [] tool)

-- Every pattern of the list is usable.
abbrev pub AllUsable : List Text → Type 0
AllUsable ps = All (λ p. not (validate_glob p) ≡ false) ps

check_globs-IsOk :
    (agent field : Text) (ps : List Text) → IsOk (check_globs agent field ps) → AllUsable ps
unfolding check_globs
check_globs-IsOk agent field ps h =
    each_fail-IsOk (λ p. not (validate_glob p)) (malformed_glob agent field) ps h

module _ (parse_duration : Text → Option ℤ) where
  -- What `check_agent` leaves of an agent's policy.
  pub record Checked (agent : Text) (pol : AgentPolicy) : Type 0 where
    pub denies : AllUsable pol.deny
    pub overlaps : IsOk (check_overlaps agent pol.inject)

  check_agent-Checked :
      (agent : Text) (pol : AgentPolicy)
      → IsOk (check_agent parse_duration (agent, pol))
      → Checked agent pol
  unfolding check_agent agent_checks
  check_agent-Checked agent pol h =
      let rows = all_of-IsOk (agent_checks parse_duration (agent, pol)) h in
      record {
        denies = check_globs-IsOk agent (codes "deny") pol.deny rows.1.1.1.0;
        overlaps = rows.1.1.1.1.1.1.1.1.1.0;
      }

  load_from-ok :
      (cfg : Config) (e : Engine)
      → load_from parse_duration cfg ≡ ok e
      → (e.config ≡ cfg) × All (λ a. IsOk (check_agent parse_duration a)) cfg.agents
  unfolding load_from load_checks
  load_from-ok cfg e h =
      let (done, same) = >>-eq-ok (all_of (load_checks parse_duration cfg)) _ e h in
      let rows = all_of-IsOk (load_checks parse_duration cfg) done in
      (
        ap (λ (x : Engine). x.config) (sym same),
        each-IsOk (check_agent parse_duration) cfg.agents rows.1.1.0,
      )

  -- Each policy that governs an agent was checked.
  pub governing-Checked :
      (cfg : Config) (e : Engine) (agent : Text) (pol : AgentPolicy)
      → load_from parse_duration cfg ≡ ok e
      → agent_policy e agent ≡ some pol
      → (j : Text) × Checked j pol
  governing-Checked cfg e agent pol h g =
      let (same, checked) = load_from-ok cfg e h in
      let (j, m) = agent_policy-mem e agent pol g in
      (
        j,
        check_agent-Checked j pol (
            All-mem (λ a. IsOk (check_agent parse_duration a)) cfg.agents checked
              (subst (λ (c : Config). Memᴰ (j, pol) c.agents) same m)),
      )

  no_malformed :
      {pol : AgentPolicy} {tool : Text} {d : Decision}
      → AllUsable pol.deny
      → Basis pol tool d
      → (p : Text) → d.reason ≢ deny_malformed p
  unfolding with_shadow
  no_malformed u (by_deny p m e) q h = cc
  no_malformed {pol} {tool} u (by_malformed p m e) q h =
      validate_glob_total p tool (All-mem (λ p. not (validate_glob p) ≡ false) pol.deny u m) e
  no_malformed u (by_ask p n m e) q h = cc
  no_malformed u (by_allow p n m e) q h = ground arith
  no_malformed u (by_no_allow n m a) q h = cc
  no_malformed u (by_mode_allow n m a) q h = ground arith
  no_malformed u (by_mode_deny n m a) q h = cc
  no_malformed u (by_default n m a k) q h = cc

  -- With a loaded policy no decision falls back on a malformed deny pattern: what `loadFrom` checks
  -- at the empty name covers every tool name.
  pub loaded_never_malformed :
      (cfg : Config) (e : Engine) (agent tool p : Text)
      → load_from parse_duration cfg ≡ ok e
      → (evaluate e agent tool).reason ≢ deny_malformed p
  loaded_never_malformed cfg e agent tool p h = elim (Option-cases (agent_policy e agent)) [
    | inl n ↦ λ q. unfold evaluate in ground arith
    | inr (pol, g) ↦
        let (j, c) = governing-Checked cfg e agent pol h g in
        no_malformed c.denies (evaluate-Basis e agent tool pol g) p
  ]
