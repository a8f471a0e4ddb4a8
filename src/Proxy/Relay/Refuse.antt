-- ===== src/Proxy/Relay/Refuse.antt =====
-- The lines that are answered with an error, of `agentToUpstream` in internal/proxy/stdio.go.
use nockguard.Base.{
  ℕ, Bool, true, false, Option, none, some, [], if◌then◌else◌, Text, codes, delete, is_nonempty,
}
use nockguard.Proxy.Calls.{References, canonical_tool_call, from_tool_call}
use nockguard.Proxy.Pins.{PinCause, cause_text}
use nockguard.Proxy.Catalog.{ToolObservation}
use nockguard.Base.{insert}
use nockguard.Proxy.Json.{Fields}
use nockguard.Proxy.Actions.{action_card, not_forwarded}
use nockguard.Proxy.Gate.Types.{
  Message, Cause, no_cause, policy_denied, validation_blocked, limit_reached, approval_denied, pin,
  RejectCode, invalid_request, internal_error, McpDecision,
}
use nockguard.Proxy.Gate.State.{Gate, append_audit}
use nockguard.Proxy.Gate.Decide.{resolve, reject_oversized}
use nockguard.Proxy.Relay.State.{
  ReplyReason, decided, audit_unavailable, duplicate_id, refresh_required, not_approved, Relay,
  Line, Setting, audit, with_gate, drop_listing, required_error, settled, observed, reply,
}

unfoldable pub not_forwarded_cause : Cause → Text
not_forwarded_cause no_cause = []
not_forwarded_cause policy_denied = codes "policy_denied"
not_forwarded_cause validation_blocked = codes "validation_blocked"
not_forwarded_cause limit_reached = codes "limit_reached"
not_forwarded_cause approval_denied = codes "approval_denied"
not_forwarded_cause (pin c) = cause_text c

abbrev pub name_seen : Option (Text × Fields) → Text
name_seen none = []
name_seen (some (tool, params)) = tool

abbrev pub params_seen : Option (Text × Fields) → Option Fields
params_seen none = none
params_seen (some (tool, params)) = some params

module _ {Bytes : Type 0} (s : Setting Bytes) where
  -- The proxy's own error, or the audit's where that is set.
  abbrev pub reason_now : ReplyReason → Gate → ReplyReason
  reason_now reason g = if required_error s g then audit_unavailable else reason

  -- The row of an action that is not forwarded, where there is an action.
  abbrev pub note_not_forwarded : Text → Option References → ℕ → Text → Text → Gate → Gate × Bool
  note_not_forwarded tool refs seq action_id cause g =
      if is_nonempty action_id
      then observed s not_forwarded cause (action_card tool refs seq action_id) g
      else (g, false)

  unfoldable pub refuse_oversized :
      Line Bytes → Text → Text → Option Text → ℕ → Relay Bytes → Relay Bytes × Bool
  refuse_oversized l kind name id seq r =
      let noted = with_gate (λ g. (reject_oversized s.world kind id name g).0) r in
      let r' = settled s seq (drop_listing l noted) in
      reply s id (if required_error s r'.gate then internal_error else invalid_request)
        (reason_now decided r'.gate) r'

  -- The rows of a call with an ID that is in use.
  unfoldable pub note_duplicate : Message → ℕ → Text → Gate → Gate
  note_duplicate msg seq action_id g =
      let seen = canonical_tool_call msg.params in
      let refs = some (from_tool_call (name_seen seen) (params_seen seen)) in
      let blocked = resolve s.world seq (
        append_audit seq (name_seen seen) (codes "block") (codes "duplicate-active-request-id") refs
          g) in
      if is_nonempty action_id
      then (note_not_forwarded (name_seen seen) refs seq action_id [] blocked).0
      else g

  unfoldable pub refuse_duplicate :
      Line Bytes → Message → ℕ → Text → Relay Bytes → Relay Bytes × Bool
  refuse_duplicate l msg seq action_id r =
      let r' = settled s seq (with_gate (note_duplicate msg seq action_id) (drop_listing l r)) in
      reply s msg.id invalid_request (reason_now duplicate_id r'.gate) r'

  -- The audit failed while the gate decided.
  unfoldable pub refuse_unaudited : McpDecision Bytes → ℕ → Text → Relay Bytes → Relay Bytes × Bool
  refuse_unaudited d seq action_id r =
      let forget : Gate → Gate =
        λ g. record g { action_observed = delete action_id g.action_observed } in
      reply s (elim d.forward [ none ↦ d.reject_id | some bytes ↦ s.id_of bytes ]) internal_error
        audit_unavailable (with_gate forget (settled s seq r))

  -- `d.reject`
  unfoldable pub refuse_decided :
      Line Bytes → McpDecision Bytes → RejectCode → ℕ → Text → Relay Bytes → Relay Bytes × Bool
  unfolding not_forwarded_cause
  refuse_decided l d code seq action_id r =
      let r' = settled s seq (drop_listing l r) in
      let (g, failed) =
        note_not_forwarded d.tool d.refs seq action_id (not_forwarded_cause d.cause) r'.gate in
      let failing = if failed then true else required_error s g in
      reply s d.reject_id (if failing then internal_error else code)
        (if failing then audit_unavailable else decided) (record r' { gate = g })

  -- A listing whose pages could not be told apart.
  unfoldable pub refuse_listing : Text → ℕ → Relay Bytes → Relay Bytes × Bool
  refuse_listing id seq r = reply s (some id) internal_error refresh_required (
      settled s seq (
        with_gate
          (append_audit seq (codes "tools/list") (codes "method-deny")
            (codes "tool_catalog_refresh_required") none)
          r))

  -- The last pin check fails.
  unfoldable pub refuse_pin :
      McpDecision Bytes
      → ToolObservation
      → PinCause
      → Option Text
      → ℕ
      → Text
      → Relay Bytes
      → Relay Bytes × Bool
  refuse_pin d current cause id seq action_id r =
      let seen : Gate → Gate = λ g.
        if is_nonempty action_id
        then record g { action_observed = insert action_id current g.action_observed }
        else g in
      let blocked =
        with_gate (audit r.current_card d.tool (codes "block") (cause_text cause) d.refs action_id)
          (settled s seq (with_gate seen r)) in
      let noted =
        with_gate
          (λ g.
            if is_nonempty action_id
            then (observed s not_forwarded (cause_text cause)
                (record (action_card d.tool d.refs seq action_id) { observed = current }) g).0
            else g)
          blocked in
      reply s id (if required_error s noted.gate then internal_error else invalid_request)
        (reason_now not_approved noted.gate) noted
