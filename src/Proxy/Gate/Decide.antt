-- ===== src/Proxy/Gate/Decide.antt =====
-- The gate's decisions, of internal/proxy/stdio.go. Each stage ends the call or hands it on.
use nockguard.Base.{
  ℕ, Bool, true, false, not, ◌&&◌, ◌||◌, Option, none, some, List, [], ◌∷◌, ◌++◌, ltb,
  if◌then◌else◌, Text, codes, text_eq, byte_length, is_nonempty, Result, ok, err,
}
use nockguard.Policy.Types.{Verdict, allow, deny, ask, Decision}
use nockguard.Policy.Evaluate.{
  evaluate, fail_mode_verdict, requires_approval, inject_rules_for, denies_method,
}
use nockguard.RateLimit.Limiter.{allowed, spend_capped, rate_limited, enabled, allow_nil}
use nockguard.Proxy.Json.{obj, Fields, set_member}
use nockguard.Proxy.Calls.{References, canonical_tool_call, from_tool_call}
use nockguard.Proxy.Inject.{
  InjectError, unresolved, too_short, conflict, unsettable, ResolvedRule, apply_inject,
}
use nockguard.Proxy.Catalog.{observe}
use nockguard.Proxy.Pins.{pin_observation, cause_text}
use nockguard.Proxy.Queue.{resolve_audit}
use nockguard.Proxy.Gate.Types.{
  World, Message, Cause, no_cause, policy_denied, validation_blocked, limit_reached,
  approval_denied, pin, RejectCode, parse_error, invalid_request, method_not_found, internal_error,
  McpDecision, MessageFailure, undecodable, ambiguous_key, marshal_failed, decode_failed,
}
use nockguard.Proxy.Gate.State.{Gate, reason_text, append_audit_by, append_audit, audit_method}

module _ {Bytes : Type 0} (w : World Bytes) where
  abbrev pub rejected : RejectCode → Option Text → Text → Cause → McpDecision Bytes
  rejected code id tool cause = record {
    forward = none;
    reject = some code;
    reject_id = id;
    tools_list_id = none;
    tool = tool;
    forward_id = none;
    tool_for_state = [];
    refs = none;
    deferred = [];
    cause = cause;
  }

  abbrev pub forwarded : Bytes → McpDecision Bytes
  forwarded bytes = record {
    forward = some bytes;
    reject = none;
    reject_id = none;
    tools_list_id = none;
    tool = [];
    forward_id = none;
    tool_for_state = [];
    refs = none;
    deferred = [];
    cause = no_cause;
  }

  abbrev pub resolve : ℕ → Gate → Gate
  resolve seq g = record g { queue = resolve_audit w.writer_refuses seq g.queue }

  -- A row, and its request settled.
  abbrev pub settle_with : ℕ → Text → Text → Text → Option References → Gate → Gate
  settle_with seq tool decision reason refs g =
      resolve seq (append_audit seq tool decision reason refs g)

  abbrev note_taps : ℕ → Text → Option References → List Text → Gate → Gate
  note_taps seq tool refs [] g = g
  note_taps seq tool refs (reason ∷ more) g = append_audit seq tool (codes "block") reason refs g

  -- `approveAsk`: without an approver the call is denied.
  unfoldable pub approve_ask : ℕ → Text → Option References → Text → Gate → Gate × Bool
  approve_ask seq tool refs reason g =
      let v = w.approve tool reason in
      let tapped = note_taps seq tool refs v.rejected_taps g in
      if not g.approver
      then (
        settle_with seq tool (codes "approval-denied") (codes "no-approver-configured") refs g,
        false,
      )
      else if not v.approved
      then (
        resolve seq
            (append_audit_by seq tool (codes "approval-denied") v.reason refs v.actor tapped),
        false,
      )
      else (append_audit_by seq tool (codes "approval-granted") v.reason refs v.actor tapped, true)

  abbrev pub is_ask : Verdict → Bool
  is_ask ask = true
  is_ask _ = false

  unfoldable pub handle_fail_mode_ask : ℕ → Text → Text → Gate → Gate × Bool
  handle_fail_mode_ask seq tool reason g =
      let dec = fail_mode_verdict g.engine g.agent reason in
      let asked = approve_ask seq tool none (reason_text w.quote dec.reason) g in
      if is_ask dec.verdict then asked else (g, false)

  -- `rejectOversizedName`
  abbrev pub max_request_name_bytes : ℕ
  max_request_name_bytes = 256

  abbrev pub is_oversized : Text → Bool
  is_oversized name = ltb max_request_name_bytes (byte_length name)

  -- The diagnostic is left to the formatter.
  abbrev pub reject_oversized : Text → Option Text → Text → Gate → Gate × McpDecision Bytes
  reject_oversized kind id name g = (
    audit_method (w.valid_prefix name) (codes "method-deny") (w.oversize_reason kind name) g,
    rejected invalid_request id [] no_cause,
  )

  -- A call with no tool name that the gate can see.
  unfoldable pub decide_unnamed : Message → ℕ → Bytes → Gate → Gate × McpDecision Bytes
  decide_unnamed msg seq line g =
      let dec = fail_mode_verdict g.engine g.agent (codes "unextractable-name") in
      let (asked, granted) = approve_ask seq [] none (reason_text w.quote dec.reason) g in
      let refuse : Gate → Gate × McpDecision Bytes = λ k. (
        settle_with seq [] (codes "deny") (codes "unextractable-name") none k,
        rejected invalid_request msg.id [] policy_denied,
      ) in
      if not g.queue.action_pairing && is_ask dec.verdict
      then if granted then (resolve seq asked, forwarded line) else refuse asked
      else refuse g

  unfoldable pub inject_text : InjectError → Text
  inject_text (unresolved ref) = codes "inject-unresolved ref=" ++ ref
  inject_text (too_short ref) = codes "inject-too-short ref=" ++ ref
  inject_text (conflict arg) = codes "inject-conflict arg=" ++ arg
  inject_text (unsettable arg) = codes "inject-unsettable arg=" ++ arg

  unfoldable pub note_injected : ℕ → Text → List ResolvedRule → Gate → Gate
  note_injected seq tool [] g = g
  note_injected seq tool (rr ∷ rest) g = note_injected seq tool rest (
      append_audit seq tool (codes "inject")
        (codes "ref=" ++ (rr.rule.ref ++ (codes " arg=" ++ rr.rule.arg))) none g)

  abbrev updates_card : Text → Bool
  updates_card tool =
      text_eq tool (codes "nockcc_nock_claim") || text_eq tool (codes "nockcc_nock_release")

  -- Every gate is passed: the call is encoded and its rows are queued.
  unfoldable pub decide_forward :
      Message → ℕ → Text → References → Decision → Fields → Gate → Gate × McpDecision Bytes
  decide_forward msg seq tool refs dec params g =
      let reason = reason_text w.quote dec.reason in
      let shadowed =
        if dec.shadow_would_deny
        then append_audit seq tool (codes "would-deny") reason (some refs) g
        else g in
      let allowed = append_audit seq tool (codes "allow") reason (some refs) shadowed in
      let asked = (handle_fail_mode_ask seq tool (codes "canonical-marshal-failed") g).0 in
      elim (w.encode (set_member (codes "params") (obj params) msg.members)) [
        | none ↦ (
          settle_with seq tool (codes "deny") (codes "canonical-marshal-failed") (some refs) asked,
          rejected internal_error msg.id tool policy_denied,
        )
        | some out ↦ (
          if is_ask dec.verdict then resolve seq allowed else allowed,
          record (forwarded out) {
            tool = tool;
            forward_id = msg.id;
            tool_for_state = if updates_card tool then tool else [];
            refs = some refs;
            deferred =
                if dec.shadow_would_deny
                then (codes "would-deny", reason) ∷ (codes "allow", reason) ∷ []
                else (codes "allow", reason) ∷ [];
          },
        )
      ]

  unfoldable pub decide_injection :
      Message → ℕ → Text → References → Decision → Fields → Gate → Gate × McpDecision Bytes
  decide_injection msg seq tool refs dec params g = elim (inject_rules_for g.engine g.agent tool) [
    | [] ↦ decide_forward msg seq tool refs dec params g
    | rule ∷ rules ↦ elim (apply_inject w.resolver params (rule ∷ rules)) [
      | err e ↦ (
        settle_with seq tool (codes "block") (inject_text e) none g,
        rejected invalid_request msg.id tool policy_denied,
      )
      | ok (injected, resolved) ↦
          decide_forward msg seq tool refs dec injected (note_injected seq tool resolved g)
    ]
  ]

  unfoldable pub decide_approval :
      Message → ℕ → Text → References → Decision → Fields → Gate → Gate × McpDecision Bytes
  decide_approval msg seq tool refs dec params g =
      let (asked, granted) = approve_ask seq tool (some refs) (reason_text w.quote dec.reason) g in
      if not (is_ask dec.verdict)
      then decide_injection msg seq tool refs dec params g
      else if not granted
      then (asked, rejected invalid_request msg.id tool approval_denied)
      else decide_injection msg seq tool refs dec params asked

  unfoldable pub decide_limit :
      Message → ℕ → Text → References → Decision → Fields → Gate → Gate × McpDecision Bytes
  decide_limit msg seq tool refs dec params g =
      let (limiter, answer) = allow_nil g.limiter w.now w.max_calls in
      let counted = record g { limiter = limiter } in
      let refuse : Text → Gate × McpDecision Bytes = λ reason. (
        settle_with seq tool (codes "ratelimit") reason (some refs) counted,
        rejected invalid_request msg.id tool limit_reached,
      ) in
      if not (enabled g.limiter)
      then decide_approval msg seq tool refs dec params g
      else elim answer [
        | allowed ↦ decide_approval msg seq tool refs dec params counted
        | spend_capped ↦ refuse (codes "spend-cap")
        | rate_limited ↦ refuse (codes "rate")
      ]

  abbrev pub validator_hit : Fields → Option Text
  validator_hit params = elim w.validator [ none ↦ none | some v ↦ v params ]

  unfoldable pub decide_validation :
      Message → ℕ → Text → References → Decision → Fields → Gate → Gate × McpDecision Bytes
  decide_validation msg seq tool refs dec params g = elim (validator_hit params) [
    | none ↦ decide_limit msg seq tool refs dec params g
    | some hit ↦ (
      settle_with seq tool (codes "block") hit (some refs) g,
      rejected invalid_request msg.id tool validation_blocked,
    )
  ]

  -- `require_approval` turns an allow into an ask.
  unfoldable pub promoted : Gate → Text → Decision → Decision
  promoted g tool dec = elim dec.verdict [
    | allow ↦ if requires_approval g.engine g.agent tool then record dec { verdict = ask } else dec
    | _ ↦ dec
  ]

  unfoldable pub decide_pin :
      Message → ℕ → Text → References → Decision → Fields → Gate → Gate × McpDecision Bytes
  decide_pin msg seq tool refs dec params g =
      elim (pin_observation g.engine g.agent g.upstream_id tool (observe tool g.catalog)).1 [
        | some c ↦ (
          settle_with seq tool (codes "block") (cause_text c) (some refs) g,
          rejected invalid_request msg.id tool (pin c),
        )
        | none ↦ decide_validation msg seq tool refs (promoted g tool dec) params g
      ]

  unfoldable pub decide_named : Message → ℕ → Text → Fields → Gate → Gate × McpDecision Bytes
  decide_named msg seq tool params g =
      let refs = from_tool_call tool (some params) in
      let dec = evaluate g.engine g.agent tool in
      elim dec.verdict [
        | deny ↦ (
          settle_with seq tool (codes "deny") (reason_text w.quote dec.reason) (some refs) g,
          rejected invalid_request msg.id tool policy_denied,
        )
        | _ ↦ decide_pin msg seq tool refs dec params g
      ]

  unfoldable pub decide_tool_call : Message → ℕ → Bytes → Gate → Gate × McpDecision Bytes
  decide_tool_call msg seq line g = elim (canonical_tool_call msg.params) [
    | none ↦ decide_unnamed msg seq line g
    | some (tool, params) ↦
        if is_oversized tool
        then reject_oversized (codes "tool") msg.id tool g
        else if not (is_nonempty tool)
        then decide_unnamed msg seq line g
        else decide_named msg seq tool params g
  ]

  unfoldable pub decide_failure : MessageFailure → ℕ → Gate → Gate × McpDecision Bytes
  decide_failure undecodable seq g = (g, rejected parse_error (some (codes "null")) [] no_cause)
  decide_failure ambiguous_key seq g =
      (g, rejected invalid_request (some (codes "null")) [] no_cause)
  decide_failure marshal_failed seq g = (
    (handle_fail_mode_ask seq [] (codes "canonical-marshal-failed") g).0,
    rejected internal_error (some (codes "null")) [] no_cause,
  )
  decide_failure decode_failed seq g = (g, rejected parse_error (some (codes "null")) [] no_cause)

  -- A message that is no tools/call; one without a method is a response.
  unfoldable pub decide_other : Message → Bytes → Gate → Gate × McpDecision Bytes
  decide_other msg line g =
      let pass =
        if text_eq msg.method (codes "tools/list")
        then record (forwarded line) { tools_list_id = msg.id }
        else record (forwarded line) { forward_id = msg.id } in
      if not (is_nonempty msg.method)
      then (g, forwarded line)
      else if denies_method g.engine g.agent msg.method
      then (
        audit_method msg.method (codes "method-deny") (codes "deny-method") g,
        rejected method_not_found msg.id [] no_cause,
      )
      else (audit_method msg.method (codes "method-allow") (codes "method-pass-through") g, pass)

  -- `decideCanonical` of a message with its canonical bytes.
  unfoldable pub decide_canonical :
      Result MessageFailure (Message × Bytes) → ℕ → Gate → Gate × McpDecision Bytes
  decide_canonical (err failure) seq g = decide_failure failure seq g
  decide_canonical (ok (msg, line)) seq g =
      if is_oversized msg.method
      then reject_oversized (codes "method") msg.id msg.method g
      else if text_eq msg.method (codes "tools/call")
      then decide_tool_call msg seq line g
      else decide_other msg line g
