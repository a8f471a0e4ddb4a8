-- ===== src/Proxy/Relay/Tests.antt =====
-- A call and a listing through the agent's side, and the theorems at them.
use nockguard.Policy.Patterns.{match_pattern_err, match_pattern, matches_any, is_glob_pattern}
use nockguard.Policy.Evaluate.{
  evaluate_allow, with_shadow, agent_policy, scan_deny, first_match, evaluate_policy, evaluate,
  requires_approval, inject_rules_for, matching_rules, tool_pin, strict_tool_pins,
  has_tool_pin_constraints,
}
use nockguard.RateLimit.Limiter.{enabled}
use nockguard.Proxy.Calls.{canonical_tool_call, drop_aliases, from_tool_call}
use nockguard.Proxy.Pins.{pin_observation}
use nockguard.Proxy.Actions.{new_action_id}
use nockguard.Proxy.Pending.{request_id_in_use, pending_id_in_use, first_same}
use nockguard.Proxy.Gate.Decide.{
  decide_canonical, decide_tool_call, decide_named, decide_pin, decide_validation, decide_limit,
  decide_approval, decide_injection, decide_forward, promoted, approve_ask,
}
use nockguard.Proxy.Relay.Send.{
  send, authorize, authorize_audit, note_cancellation, transmit, register, note_sent,
}
use nockguard.Proxy.Gate.AtOnce.{dispatches}
use nockguard.Base.{suc, true, [], ◌∷◌, ◌≡◌, refl, codes, byte_length, text_eq, lookup, insert, put}
use nockguard.Proxy.Json.{member, set_member}
use nockguard.Proxy.Catalog.{equal_fold}
use nockguard.Proxy.Queue.{reserve_audit_sequence}
use nockguard.Proxy.Gate.State.{append_audit_by, append_audit}
use nockguard.Proxy.Relay.State.{required_error, audit}
use nockguard.Proxy.Relay.Line.{
  relay_line, admit, name_action, check_id, judge, carry_listing, carry_out,
}
use nockguard.Proxy.Relay.Outcomes.{Authorized, must_dispatch}
use nockguard.Proxy.Relay.Delivered.{HasOneFate, relay_line-HasOneFate, relay_line-IsDispatched}
use nockguard.Proxy.Relay.Fixtures.{setting, read, line, relay, read_faithful}

relay_line-HasOneFate_example :
    HasOneFate setting (codes "1") relay (relay_line setting line relay).0
relay_line-HasOneFate_example =
    relay_line-HasOneFate setting line read 0 (codes "1") relay refl read_faithful refl refl refl
      refl

-- The call is allowed, has its dispatch row and is sent.
call_is_sent : (relay_line setting line relay).0.to_server ≡ 1 ∷ []
unfolding relay_line evaluate_allow with_shadow byte_length text_eq lookup insert put
    match_pattern_err match_pattern matches_any is_glob_pattern agent_policy scan_deny first_match
    evaluate_policy evaluate requires_approval inject_rules_for matching_rules tool_pin
    strict_tool_pins has_tool_pin_constraints enabled member set_member canonical_tool_call
    drop_aliases from_tool_call equal_fold pin_observation reserve_audit_sequence new_action_id
    request_id_in_use pending_id_in_use first_same append_audit_by append_audit decide_canonical
    decide_tool_call decide_named decide_pin decide_validation decide_limit decide_approval
    decide_injection decide_forward promoted approve_ask required_error audit send authorize
    authorize_audit note_cancellation transmit register note_sent admit name_action check_id judge
    carry_listing carry_out
call_is_sent = refl

call_is_due : must_dispatch setting 1 ≡ true
unfolding text_eq
call_is_due = refl

relay_line-IsDispatched_example :
    Authorized setting 1 (relay_line setting line relay).0
    × (dispatches (relay_line setting line relay).0.gate ≡ suc (dispatches relay.gate))
relay_line-IsDispatched_example =
    relay_line-IsDispatched setting line 1 relay read_faithful call_is_due call_is_sent
