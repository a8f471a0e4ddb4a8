-- ===== src/Policy/Verdicts.antt =====
-- What `Evaluate` and `Check` answer: the precedence of the rules, the reason that is given, and the
-- dry run of the shadow list.
use mathlib.Core.List.{Memᴰ}
use mathlib.Core.Path.{subst}
use nockguard.Base.{
  lookup, ◌∙◌, Bool, true, false, not, ◌&&◌, Option, none, some, List, [], ◌∷◌, ◌≡◌, ◌≢◌, ◌↔◌, ◌⊎◌,
  inl, inr, refl, sym, arith, Text, codes, text_eq, text_eq_refl, eq_of_text_eq, All, Any,
  Bool-cases, Option-cases, is_nonempty,
}
use nockguard.Policy.Types.{
  AgentPolicy, Engine, allow, deny, ask, no_policy, deny_malformed, deny_rule, ask_rule, allow_rule,
  no_allow_rule, mode_deny, default_allow, default_deny, Decision,
}
use nockguard.Policy.Patterns.{match_pattern_err, match_pattern, matches_any}
use nockguard.Policy.Evaluate.{
  requires_approval, inject_rules_for, has_policy_for, agent_policy, with_shadow, scan_deny,
  first_match, evaluate_allow, evaluate_policy, evaluate, check, plain_decision, allowed,
}

-- No deny rule matches or is malformed.
abbrev pub Undenied : AgentPolicy → Text → Type 0
Undenied pol tool = All (λ p. match_pattern_err p tool ≡ some false) pol.deny

abbrev pub NoneMatches : List Text → Text → Type 0
NoneMatches ps tool = All (λ p. match_pattern p tool ≡ false) ps

abbrev pub SomeMatches : List Text → Text → Type 0
SomeMatches ps tool = Any (λ p. match_pattern p tool ≡ true) ps

-- What the policy file says of a tool that may be called without a human.
pub record Permits (pol : AgentPolicy) (tool : Text) : Type 0 where
  pub undenied : Undenied pol tool
  pub unasked : NoneMatches pol.ask tool
  pub granted : SomeMatches pol.allow tool ⊎ ((pol.allow ≡ []) × (pol.mode ≡ codes "allow"))

scan_deny-none :
    (ps : List Text) (tool : Text)
    → scan_deny ps tool ≡ none
    → All (λ p. match_pattern_err p tool ≡ some false) ps
unfolding scan_deny
scan_deny-none [] tool h = tt
scan_deny-none (p ∷ ps) tool h = ground (arith, scan_deny-none ps tool)

first_match-none : (ps : List Text) (tool : Text) → first_match ps tool ≡ none → NoneMatches ps tool
unfolding first_match
first_match-none [] tool h = tt
first_match-none (p ∷ ps) tool h = ground (arith, first_match-none ps tool)

first_match-some :
    (ps : List Text) (tool p : Text)
    → first_match ps tool ≡ some p
    → Memᴰ p ps × (match_pattern p tool ≡ true)
unfolding first_match
first_match-some [] tool p h = cc
first_match-some (q ∷ ps) tool p h = elim (Bool-cases (match_pattern q tool)) [
  | inl e ↦ (Memᴰ.head (ground arith), ground arith)
  | inr e ↦ let (m, t) = first_match-some ps tool p (ground arith) in (Memᴰ.tail m, t)
]

nonempty_of_false : (ps : List Text) → is_nonempty ps ≡ false → ps ≡ []
nonempty_of_false [] h = refl
nonempty_of_false (p ∷ ps) h = cc

abbrev shadow_missed : AgentPolicy → Text → Bool
shadow_missed pol tool = is_nonempty pol.shadow && not (matches_any pol.shadow tool)

abbrev Unasked : AgentPolicy → Text → Type 0
Unasked pol tool = Undenied pol tool × NoneMatches pol.ask tool

-- The rules of a policy file in their order of precedence: each constructor is a rule, with what it
-- needs and the decision that it gives.
pub data Basis (pol : AgentPolicy) (tool : Text) : Decision → Type 0 where
  by_deny :
      (p : Text)
      → Memᴰ p pol.deny
      → match_pattern_err p tool ≡ some true
      → Basis pol tool (plain_decision deny (deny_rule p))
  by_malformed :
      (p : Text)
      → Memᴰ p pol.deny
      → match_pattern_err p tool ≡ none
      → Basis pol tool (plain_decision deny (deny_malformed p))
  by_ask :
      (p : Text)
      → Undenied pol tool
      → Memᴰ p pol.ask
      → match_pattern p tool ≡ true
      → Basis pol tool (plain_decision ask (ask_rule p))
  by_allow :
      (p : Text)
      → Unasked pol tool
      → Memᴰ p pol.allow
      → match_pattern p tool ≡ true
      → Basis pol tool (with_shadow (shadow_missed pol tool) (plain_decision allow (allow_rule p)))
  by_no_allow :
      Unasked pol tool
      → pol.allow ≢ []
      → NoneMatches pol.allow tool
      → Basis pol tool (plain_decision deny no_allow_rule)
  by_mode_allow :
      Unasked pol tool
      → pol.allow ≡ []
      → pol.mode ≡ codes "allow"
      → Basis pol tool (with_shadow (shadow_missed pol tool) (plain_decision allow default_allow))
  by_mode_deny :
      Unasked pol tool
      → pol.allow ≡ []
      → pol.mode ≡ codes "deny"
      → Basis pol tool (plain_decision deny mode_deny)
  by_default :
      Unasked pol tool
      → pol.allow ≡ []
      → pol.mode ≢ codes "allow"
      → pol.mode ≢ codes "deny"
      → Basis pol tool (plain_decision deny default_deny)

module _ (pol : AgentPolicy) (tool : Text) where
  based : {d e : Decision} → d ≡ e → Basis pol tool e → Basis pol tool d
  based h b = subst (Basis pol tool) (sym h) b

  abbrev deny_branch : List Text → Text → Option Bool → Option Decision
  deny_branch ps p m = elim m [
    | none ↦ some (plain_decision deny (deny_malformed p))
    | some true ↦ some (plain_decision deny (deny_rule p))
    | some false ↦ scan_deny ps tool
  ]

  -- What the deny loop returns is based on one of its patterns.
  scan_deny-some :
      (ps : List Text) (d : Decision)
      → ((q : Text) → Memᴰ q ps → Memᴰ q pol.deny)
      → scan_deny ps tool ≡ some d
      → Basis pol tool d
  unfolding scan_deny
  scan_deny-some [] d sub h = cc
  scan_deny-some (p ∷ ps) d sub h =
      go (match_pattern_err p tool) refl h (scan_deny-some ps d (λ q m. sub q (Memᴰ.tail m)))
    where
      go :
          (m : Option Bool)
          → match_pattern_err p tool ≡ m
          → deny_branch ps p m ≡ some d
          → (scan_deny ps tool ≡ some d → Basis pol tool d)
          → Basis pol tool d
      go none e k ih = based (ground arith) (by_malformed p (sub p (Memᴰ.head refl)) e)
      go (some true) e k ih = based (ground arith) (by_deny p (sub p (Memᴰ.head refl)) e)
      go (some false) e k ih = ih k

  evaluate_mode-Basis :
      Unasked pol tool
      → pol.allow ≡ []
      → Basis pol tool (evaluate_allow pol (shadow_missed pol tool) tool)
  unfolding evaluate_allow with_shadow
  evaluate_mode-Basis u e = elim (Bool-cases (text_eq pol.mode (codes "deny"))) [
    | inl d ↦ based (ground arith) (by_mode_deny u e (eq_of_text_eq _ _ d))
    | inr nd ↦ elim (Bool-cases (text_eq pol.mode (codes "allow"))) [
      | inl a ↦ based (ground arith) (by_mode_allow u e (eq_of_text_eq _ _ a))
      | inr na ↦ based (ground arith) (
          by_default u e (λ q. ground (arith, text_eq_refl (codes "allow")))
            (λ q. ground (arith, text_eq_refl (codes "deny"))))
    ]
  ]

  evaluate_allow-Basis :
      Unasked pol tool → Basis pol tool (evaluate_allow pol (shadow_missed pol tool) tool)
  unfolding evaluate_allow
  evaluate_allow-Basis u = elim (Bool-cases (is_nonempty pol.allow)) [
    | inr e ↦ evaluate_mode-Basis u (nonempty_of_false pol.allow e)
    | inl n ↦ elim (Option-cases (first_match pol.allow tool)) [
      | inl e ↦
          based (ground arith)
            (by_no_allow u (λ q. ground arith) (first_match-none pol.allow tool e))
      | inr (p, e) ↦
          let (m, t) = first_match-some pol.allow tool p e in
          based (ground arith) (by_allow p u m t)
    ]
  ]

  evaluate_policy-Basis : Basis pol tool (evaluate_policy pol tool)
  unfolding evaluate_policy
  evaluate_policy-Basis = elim (Option-cases (scan_deny pol.deny tool)) [
    | inr (d, e) ↦ based (ground arith) (scan_deny-some pol.deny d (λ q m. m) e)
    | inl e ↦ elim (Option-cases (first_match pol.ask tool)) [
      | inr (p, f) ↦
          let (m, t) = first_match-some pol.ask tool p f in
          based (ground arith) (by_ask p (scan_deny-none pol.deny tool e) m t)
      | inl f ↦
          based (ground arith)
            (evaluate_allow-Basis (scan_deny-none pol.deny tool e, first_match-none pol.ask tool f))
    ]
  ]

-- Where a policy governs the agent, the decision follows the order of the rules and names its rule.
pub evaluate-Basis :
    (e : Engine) (agent tool : Text) (pol : AgentPolicy)
    → agent_policy e agent ≡ some pol
    → Basis pol tool (evaluate e agent tool)
unfolding evaluate
evaluate-Basis e agent tool pol h = based pol tool (ground arith) (evaluate_policy-Basis pol tool)

All-mem : (P : Text → Type 0) {p : Text} (ps : List Text) → All P ps → Memᴰ p ps → P p
All-mem P [] h m = elim m [ ]
All-mem P (q ∷ ps) (a, h) (Memᴰ.head e) = subst P (sym e) a
All-mem P (q ∷ ps) (a, h) (Memᴰ.tail m) = All-mem P ps h m

SomeMatches-of_mem :
    (ps : List Text) (tool p : Text) → Memᴰ p ps → match_pattern p tool ≡ true → SomeMatches ps tool
SomeMatches-of_mem [] tool p m t = elim m [ ]
SomeMatches-of_mem (q ∷ ps) tool p (Memᴰ.head e) t =
    inl (subst (λ x. match_pattern x tool ≡ true) e t)
SomeMatches-of_mem (q ∷ ps) tool p (Memᴰ.tail m) t = inr (SomeMatches-of_mem ps tool p m t)

none_of_nil : {ps : List Text} (tool : Text) → ps ≡ [] → SomeMatches ps tool → ⊥
none_of_nil tool e s = subst (λ l. SomeMatches l tool) e s

not_both : (ps : List Text) (tool : Text) → SomeMatches ps tool → NoneMatches ps tool → ⊥
not_both [] tool h k = h
not_both (p ∷ ps) tool (inl e) (f, k) = cc
not_both (p ∷ ps) tool (inr h) (f, k) = not_both ps tool h k

allow≢deny : codes "allow" ≢ codes "deny"
allow≢deny h = cc

module _ (pol : AgentPolicy) (tool : Text) where
  Permits-of_Basis : {d : Decision} → Basis pol tool d → allowed d ≡ true → Permits pol tool
  Permits-of_Basis (by_deny p m e) h = cc
  Permits-of_Basis (by_malformed p m e) h = cc
  Permits-of_Basis (by_ask p u m e) h = cc
  Permits-of_Basis (by_allow p (u, a) m e) h = record {
    undenied = u;
    unasked = a;
    granted = inl (SomeMatches-of_mem pol.allow tool p m e);
  }
  Permits-of_Basis (by_no_allow u n a) h = cc
  Permits-of_Basis (by_mode_allow (u, a) n m) h = record {
    undenied = u;
    unasked = a;
    granted = inr (n, m);
  }
  Permits-of_Basis (by_mode_deny u n m) h = cc
  Permits-of_Basis (by_default u n m k) h = cc

  allowed_of_Permits : {d : Decision} → Basis pol tool d → Permits pol tool → allowed d ≡ true
  unfolding with_shadow
  allowed_of_Permits (by_deny p m e) h =
      absurd
        (ground (arith, All-mem (λ p. match_pattern_err p tool ≡ some false) pol.deny h.undenied m))
  allowed_of_Permits (by_malformed p m e) h =
      absurd
        (ground (arith, All-mem (λ p. match_pattern_err p tool ≡ some false) pol.deny h.undenied m))
  allowed_of_Permits (by_ask p u m e) h =
      absurd (ground (arith, All-mem (λ p. match_pattern p tool ≡ false) pol.ask h.unasked m))
  allowed_of_Permits (by_allow p u m e) h = ground arith
  allowed_of_Permits (by_no_allow u n a) h = elim h.granted [
    | inl s ↦ absurd (not_both pol.allow tool s a)
    | inr (e, m) ↦ absurd (n e)
  ]
  allowed_of_Permits (by_mode_allow u n m) h = ground arith
  allowed_of_Permits (by_mode_deny u n m) h = elim h.granted [
    | inl s ↦ absurd (none_of_nil tool n s)
    | inr (e, k) ↦ absurd (allow≢deny (sym k ∙ m))
  ]
  allowed_of_Permits (by_default u n m k) h = elim h.granted [
    | inl s ↦ absurd (none_of_nil tool n s)
    | inr (e, q) ↦ absurd (m q)
  ]

-- `Check` answers true exactly if a policy governs the agent and permits the tool: no deny rule
-- matches or is malformed, no ask rule matches, and an allow rule matches or, with no allow list,
-- the mode is "allow".
pub check_iff :
    (e : Engine) (agent tool : Text)
    → (check e agent tool ≡ true)
      ↔ ((pol : AgentPolicy) × (agent_policy e agent ≡ some pol) × Permits pol tool)
unfolding check
check_iff e agent tool = (
  λ h. elim (Option-cases (agent_policy e agent)) [
    | inl n ↦ absurd (unfold evaluate in ground arith)
    | inr (pol, f) ↦ (pol, f, Permits-of_Basis pol tool (evaluate-Basis e agent tool pol f) h)
  ],
  λ (pol, f, p). allowed_of_Permits pol tool (evaluate-Basis e agent tool pol f) p,
)

-- An agent that neither a named policy nor "default" governs gets nothing: every tool is denied for
-- that reason, none asks for approval, and no credential is injected.
pub evaluate_ungoverned :
    (e : Engine) (agent tool : Text)
    → lookup agent e.config.agents ≡ none
    → lookup (codes "default") e.config.agents ≡ none
    → (evaluate e agent tool ≡ plain_decision deny no_policy)
      × (requires_approval e agent tool ≡ false)
      × (inject_rules_for e agent tool ≡ [])
      × (has_policy_for e agent ≡ false)
unfolding evaluate requires_approval inject_rules_for has_policy_for agent_policy
evaluate_ungoverned e agent tool h k = ground arith

module _ (pol : AgentPolicy) (tool : Text) where
  marked_of_Basis :
      {d : Decision}
      → Basis pol tool d
      → (d.shadow_would_deny ≡ true) ↔ ((allowed d ≡ true) × (shadow_missed pol tool ≡ true))
  unfolding with_shadow
  marked_of_Basis (by_deny p m e) = ground arith
  marked_of_Basis (by_malformed p m e) = ground arith
  marked_of_Basis (by_ask p u m e) = ground arith
  marked_of_Basis (by_allow p u m e) = ground arith
  marked_of_Basis (by_no_allow u n a) = ground arith
  marked_of_Basis (by_mode_allow u n m) = ground arith
  marked_of_Basis (by_mode_deny u n m) = ground arith
  marked_of_Basis (by_default u n m k) = ground arith

matches_any-false :
    (ps : List Text) (tool : Text) → (matches_any ps tool ≡ false) ↔ NoneMatches ps tool
unfolding matches_any
matches_any-false [] tool = (λ h. tt, λ h. refl)
matches_any-false (p ∷ ps) tool = (
  λ h. ground (arith, (matches_any-false ps tool).0),
  λ h. ground (arith, (matches_any-false ps tool).1 h.1),
)

is_nonempty-true : (ps : List Text) → (is_nonempty ps ≡ true) ↔ (ps ≢ [])
is_nonempty-true [] = (λ h. cc, λ h. absurd (h refl))
is_nonempty-true (p ∷ ps) = (λ h e. cc, λ h. refl)

shadow_missed_iff :
    (pol : AgentPolicy) (tool : Text)
    → (shadow_missed pol tool ≡ true) ↔ ((pol.shadow ≢ []) × NoneMatches pol.shadow tool)
shadow_missed_iff pol tool =
    let (a, b) = is_nonempty-true pol.shadow in
    let (c, d) = matches_any-false pol.shadow tool in
    (λ h. (a (ground arith), c (ground arith)), λ (n, m). ground (arith, b n, d m))

shadow-verdict :
    (pol : AgentPolicy) (other : List Text) (tool : Text)
    → (evaluate_policy (record pol { shadow = other }) tool).verdict
      ≡ (evaluate_policy pol tool).verdict
unfolding evaluate_policy evaluate_allow with_shadow
shadow-verdict pol other tool = ground arith

-- The verdict of a policy is the one that it gives with any other shadow list, and the decision is
-- marked as a would-deny exactly if it allows a tool that a shadow list is given for and misses.
pub shadow_dry_run :
    (pol : AgentPolicy) (other : List Text) (tool : Text)
    → ((evaluate_policy (record pol { shadow = other }) tool).verdict
        ≡ (evaluate_policy pol tool).verdict)
      × (((evaluate_policy pol tool).shadow_would_deny ≡ true) ↔ (
          (allowed (evaluate_policy pol tool) ≡ true)
          × (pol.shadow ≢ [])
          × NoneMatches pol.shadow tool))
shadow_dry_run pol other tool =
    let (a, b) = marked_of_Basis pol tool (evaluate_policy-Basis pol tool) in
    let (c, d) = shadow_missed_iff pol tool in
    (
      shadow-verdict pol other tool,
      (λ h. let (x, y) = a h in let (n, m) = c y in (x, n, m), λ (x, n, m). b (x, d (n, m))),
    )
