-- ===== src/Proxy/Gate/Tests.antt =====
-- A gate that asks before a push, and the theorems at it.
use nockguard.Audit.Event.{Event}
use nockguard.Base.{
  inl, arith, put, ◌++◌, map, at, true, false, none, some, [], ◌∷◌, ◌≡◌, ◌⊎◌, refl, codes, text_eq,
  byte_length, lookup,
}
use nockguard.Policy.Types.{AgentPolicy, empty_policy, Engine, ToolPin}
use nockguard.Policy.Patterns.{match_pattern_err, match_pattern, matches_any, is_glob_pattern}
use nockguard.Policy.Evaluate.{
  agent_policy, scan_deny, first_match, evaluate_policy, evaluate, requires_approval,
  inject_rules_for, matching_rules, tool_pin, strict_tool_pins, has_tool_pin_constraints,
}
use nockguard.RateLimit.Limiter.{enabled}
use nockguard.Proxy.Json.{text, obj, Fields, end, field, member, set_member}
use nockguard.Proxy.Calls.{canonical_tool_call, drop_aliases}
use nockguard.Proxy.Catalog.{empty_catalog, observe, equal_fold}
use nockguard.Proxy.Pins.{pin_observation, pin_observation-none, refuses_unpinned}
use nockguard.Proxy.Queue.{new_queue}
use nockguard.Proxy.Gate.State.{Gate, append_audit_by}
use nockguard.Proxy.Gate.Types.{World, Message}
use nockguard.Proxy.Gate.Decide.{
  decide_tool_call, decide_named, decide_pin, decide_validation, decide_limit, decide_approval,
  decide_injection, decide_forward, promoted, approve_ask,
}
use nockguard.Proxy.Gate.Cleared.{NamedCleared, IsUnnamedApproved, decide_tool_call-Cleared}
use nockguard.Base.{All, count_if, List, Text}
use nockguard.Audit.Completeness.{ActionState}
use nockguard.Proxy.Actions.{
  Observation, response_observed, outcome_unknown, PendingCard, Waiting, listing, waiting_card,
  action_card,
}
use nockguard.Proxy.Queue.{queue_action_id}
use nockguard.Proxy.Rows.{rows_of}
use nockguard.Proxy.Ranges.{is_resolved}
use nockguard.Proxy.Written.{IsLive}
use nockguard.Proxy.Observing.{
  Call, AcceptedRows, is_final_row, observe_all, observe_all-AcceptedRows, observe_all_one_final,
}
use nockguard.Proxy.Pending.{Requests, finish_pending_actions}
use nockguard.Proxy.Settled.{IsObserved, finish_pending_actions-IsObserved}

abbrev coder : AgentPolicy
coder = record empty_policy { allow = codes "read" ∷ []; ask = codes "push" ∷ [] }

abbrev engine : Engine
engine = record {
  config = record { agents = (codes "coder", coder) ∷ []; audit = none };
  warnings = [];
}

abbrev gate : Gate
gate = record {
  engine = engine;
  agent = codes "coder";
  upstream_id = [];
  limiter = none;
  approver = true;
  action_run_id = [];
  catalog = empty_catalog;
  action_observed = [];
  queue = new_queue false;
  trusting = false;
  outcomes = [];
  forwarding = false;
  notices = [];
  method_rows = [];
}

-- A human who agrees; the bytes of a message are its members.
abbrev world : World Fields
world = record {
  quote = λ t. t;
  oversize_reason = λ kind t. t;
  valid_prefix = λ t. t;
  now = 0;
  max_calls = λ n. n;
  approve = λ tool reason. record {
    approved = true;
    reason = codes "approved";
    actor = [];
    rejected_taps = [];
  };
  validator = none;
  resolver = λ ref. none;
  encode = λ fs. some fs;
  writer_refuses = λ n. false;
}

abbrev push_params : Fields
push_params = field (codes "name") (text (codes "push")) end

abbrev push : Message
push = record {
  method = codes "tools/call";
  id = some (codes "1");
  params = some push_params;
  members = field (codes "params") (obj push_params) end;
}

push_is_sent :
    (decide_tool_call world push 0 end gate).1.forward
    ≡ some (field (codes "params") (obj push_params) end)
unfolding decide_tool_call canonical_tool_call drop_aliases equal_fold member set_member text_eq
    byte_length decide_named evaluate agent_policy lookup evaluate_policy scan_deny first_match
    match_pattern match_pattern_err is_glob_pattern matches_any decide_pin pin_observation tool_pin
    strict_tool_pins has_tool_pin_constraints decide_validation promoted requires_approval
    decide_limit enabled decide_approval approve_ask append_audit_by decide_injection
    inject_rules_for matching_rules decide_forward
push_is_sent = refl

decide_tool_call-Cleared_example : NamedCleared world push gate ⊎ IsUnnamedApproved world gate
decide_tool_call-Cleared_example =
    decide_tool_call-Cleared world push 0 end gate (field (codes "params") (obj push_params) end)
      push_is_sent

unpinned_passes :
    (pin_observation engine
      (codes "coder")
      []
      (codes "push")
      (observe (codes "push") empty_catalog)).1
    ≡ none
unfolding pin_observation tool_pin agent_policy lookup text_eq strict_tool_pins
    has_tool_pin_constraints
unpinned_passes = refl

pin_observation-none_example :
    ((tool_pin engine (codes "coder") [] (codes "push") ≡ none)
      × (refuses_unpinned engine (codes "coder") [] ≡ false))
    ⊎ ((pin : ToolPin) × (tool_pin engine (codes "coder") [] (codes "push") ≡ some pin)
        × ((observe (codes "push") empty_catalog).hash ≡ pin.sha256))
pin_observation-none_example =
    pin_observation-none engine (codes "coder") [] (codes "push")
      (observe (codes "push") empty_catalog) unpinned_passes

abbrev push_card : PendingCard
push_card = action_card (codes "push") none 0 (codes "r.1")

abbrev dispatched_once : ActionState
dispatched_once = record {
  dispatch = true;
  terminal = false;
  unknown = false;
  decisions = 1;
  late = false;
}

-- A cancellation, then the response, which comes late, and once more.
abbrev cancelled_then_answered : List Observation
cancelled_then_answered = outcome_unknown ∷ response_observed ∷ response_observed ∷ []

abbrev call_of : Observation → Call
call_of o = record { observation = o; cause = []; response_class = []; mcp_is_error = none }

abbrev calls : List Call
calls = map call_of cancelled_then_answered

-- The action of the card has its ID queued, and its sequence waits.
abbrev paired_gate : Gate
paired_gate = record gate {
  queue = queue_action_id 0 (codes "r.1") (record (new_queue true) { seq = 1 });
}

paired_gate-IsLive : IsLive (λ n. false) push_card.audit_seq paired_gate.queue
unfolding action_card queue_action_id new_queue is_resolved at put
paired_gate-IsLive = record {
  inv = record { spaced = tt; below = omega arith; unended = refl };
  below = omega arith;
  stage = inl (refl, refl);
}

observe_all-AcceptedRows_example :
    (rows : List Event) × (rows_of
        (observe_all (λ n. false) true (λ n. false) calls push_card paired_gate).0.queue
        push_card.audit_seq
      ≡ rows_of paired_gate.queue push_card.audit_seq ++ rows)
    × AcceptedRows dispatched_once rows
unfolding action_card
observe_all-AcceptedRows_example =
    observe_all-AcceptedRows (λ n. false) true (λ n. false) calls push_card dispatched_once
      paired_gate refl paired_gate-IsLive refl refl refl refl refl refl refl

observe_all_one_final_example :
    (rows : List Event) × (rows_of
        (observe_all (λ n. false) true (λ n. false) calls push_card paired_gate).0.queue
        push_card.audit_seq
      ≡ rows_of paired_gate.queue push_card.audit_seq ++ rows)
    × (count_if is_final_row rows ≡ 1)
unfolding action_card
observe_all_one_final_example =
    observe_all_one_final (λ n. false) true (λ n. false) (call_of outcome_unknown)
      (map call_of (response_observed ∷ response_observed ∷ [])) push_card paired_gate refl
      paired_gate-IsLive refl refl

abbrev waiting : Requests
waiting = (codes "1", waiting_card push_card) ∷ (codes "2", listing 1 1) ∷ []

finish_pending_actions-IsObserved_example :
    All
      (λ (r : Text × Waiting). IsObserved r.1)
      (finish_pending_actions some (λ n. false) true (λ n. false) (codes "shutdown") waiting gate).1
finish_pending_actions-IsObserved_example =
    finish_pending_actions-IsObserved some (λ n. false) true (λ n. false) (codes "shutdown") waiting
      gate
