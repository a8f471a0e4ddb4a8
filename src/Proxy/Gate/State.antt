-- ===== src/Proxy/Gate/State.antt =====
-- The gate's state and its audit rows, of internal/proxy/stdio.go.
use nockguard.Base.{
  ℕ, Bool, not, ◌&&◌, Option, none, some, List, [], ◌∷◌, ◌++◌, if◌then◌else◌, Text, codes, text_eq,
  has_prefix, Map, lookup, insert, at, pos, is_nonempty, any,
}
use nockguard.Audit.Event.{Event, blank_event}
use nockguard.Policy.Types.{
  Engine, Reason, no_policy, deny_malformed, deny_rule, ask_rule, allow_rule, no_allow_rule,
  mode_deny, default_allow, default_deny, given, shadowed,
}
use nockguard.RateLimit.Limiter.{Limiter}
use nockguard.Proxy.Calls.{References, set_references}
use nockguard.Proxy.Catalog.{ToolCatalog, ToolObservation, observe}
use nockguard.Proxy.Pins.{pin_observation, set_tool_observation_fields}
use nockguard.Proxy.Queue.{AuditQueue, queue_row}

-- The outcomes that trust is scored by, `DecisionToOutcome` of internal/trust/trust.go.
pub data Outcome : Type 0 where
  allow_outcome warn_outcome deny_outcome : Outcome

unfoldable pub decision_to_outcome : Text → Option Outcome
unfolding text_eq
decision_to_outcome d =
    if any (text_eq d) (codes "allow" ∷ codes "approval-granted" ∷ [])
    then some allow_outcome
    else if any (text_eq d)
        (codes "warn" ∷ codes "ratelimit" ∷ codes "block" ∷ codes "approval-denied" ∷ [])
    then some warn_outcome
    else if text_eq d (codes "deny")
    then some deny_outcome
    else none

unfoldable pub is_enforcement : Text → Bool
unfolding text_eq
is_enforcement d = any (text_eq d) (
    codes "deny"
    ∷ codes "method-deny"
    ∷ codes "block"
    ∷ codes "ratelimit"
    ∷ codes "approval-granted"
    ∷ codes "approval-denied"
    ∷ codes "would-deny"
    ∷ [])

-- A row for the collector: tool, decision and reason.
abbrev pub Notice : Type 0
Notice = Text × Text × Text

-- `outcomes` are those that trust was given, `notices` those that the forwarder was given, and
-- `method_rows` the rows that are written at once and not through the queue.
pub record Gate : Type 0 where
  pub engine : Engine
  pub agent : Text
  pub upstream_id : Text
  pub limiter : Option Limiter
  pub approver : Bool
  pub action_run_id : Text
  pub catalog : ToolCatalog
  pub action_observed : Map ToolObservation
  pub queue : AuditQueue
  pub trusting : Bool
  pub outcomes : List Outcome
  pub forwarding : Bool
  pub notices : List Notice
  pub method_rows : List Event

-- `%q` is a function of the standard library that is given here.
unfoldable pub reason_text : (Text → Text) → Reason → Text
reason_text quote no_policy = codes "no policy for agent (fail-closed)"
reason_text quote (deny_malformed p) =
    codes "deny-rule " ++ (quote p ++ codes " malformed (fail-closed): syntax error in pattern")
reason_text quote (deny_rule p) = codes "deny-rule " ++ quote p
reason_text quote (ask_rule p) = codes "ask-rule " ++ quote p
reason_text quote (allow_rule p) = codes "allow-rule " ++ quote p
reason_text quote no_allow_rule = codes "no allow-rule matched"
reason_text quote mode_deny = codes "mode \"deny\", no allow list"
reason_text quote default_allow = codes "default-allow (no allow list)"
reason_text quote default_deny = codes "default-deny (no allow list)"
reason_text quote (given r) = r
reason_text quote (shadowed r) =
    reason_text quote r ++ codes "; would-deny shadow (no shadow-rule matched)"

unfoldable pub set_action_fields : Gate → Text → Event → Event
set_action_fields g action_id ev = record ev {
  schema_version = pos 2;
  record_type = codes "decision";
  run_id = g.action_run_id;
  action_id = action_id;
}

-- `applyToolObservation` of a row with an action: the first observation of an action stays.
unfoldable pub action_observation : Gate → Text → Text → ToolObservation
action_observation g action_id tool = elim (lookup action_id g.action_observed) [
  | some o ↦ o
  | none ↦ (pin_observation g.engine g.agent g.upstream_id tool (observe tool g.catalog)).0
]

abbrev pub note_outcome : Text → Text → Gate → Gate
note_outcome decision reason g =
    if g.trusting
      && not (text_eq decision (codes "block") && has_prefix reason (codes "telegram-callback-"))
    then elim (decision_to_outcome decision) [
      | none ↦ g
      | some o ↦ record g { outcomes = g.outcomes ++ o ∷ [] }
    ]
    else g

abbrev pub notify : Text → Text → Text → Gate → Gate
notify tool decision reason g =
    if g.forwarding && is_enforcement decision
    then record g { notices = g.notices ++ (tool, decision, reason) ∷ [] }
    else g

abbrev pub row_of : Gate → Text → Text → Text → Text → Event
row_of g tool decision reason actor = record blank_event {
  agent = g.agent;
  tool = tool;
  decision = decision;
  reason = reason;
  approval_actor = actor;
}

-- A row with its action's fields, and the observations after it.
abbrev pub action_row : Gate → Option Text → Text → Event → Event × Map ToolObservation
action_row g none tool ev = (ev, g.action_observed)
action_row g (some action_id) tool ev =
    let o = action_observation g action_id tool in
    if not (is_nonempty action_id)
    then (ev, g.action_observed)
    else if not (is_nonempty tool)
    then (set_action_fields g action_id ev, g.action_observed)
    else (
      set_tool_observation_fields o (set_action_fields g action_id ev),
      insert action_id o g.action_observed,
    )

abbrev pub with_references : Option References → Event → Event
with_references none ev = ev
with_references (some refs) ev = set_references refs ev

unfoldable pub append_audit_by : ℕ → Text → Text → Text → Option References → Text → Gate → Gate
append_audit_by seq tool decision reason refs actor g =
    let (ev, seen) =
      action_row g (at seq g.queue.action_ids) tool (row_of g tool decision reason actor) in
    let queued = record g {
      action_observed = seen;
      queue = queue_row seq (with_references refs ev) g.queue;
    } in
    notify tool decision reason (note_outcome decision reason queued)

unfoldable pub append_audit : ℕ → Text → Text → Text → Option References → Gate → Gate
unfolding append_audit_by
append_audit seq tool decision reason refs g = append_audit_by seq tool decision reason refs [] g

-- `auditMethod`
unfoldable pub audit_method : Text → Text → Text → Gate → Gate
audit_method method decision reason g =
    notify method decision reason
      (record g { method_rows = g.method_rows ++ row_of g method decision reason [] ∷ [] })
