-- ===== src/Proxy/Relay/Line.antt =====
-- One line of the agent through the proxy, `agentToUpstream` of internal/proxy/stdio.go with paired
-- actions. The lock on the line and the locks of the parts make it one step.
use nockguard.Base.{
  ℕ, Bool, true, false, not, ◌&&◌, ◌||◌, Option, none, some, List, [], ◌∷◌, if◌then◌else◌, Text,
  codes, text_eq, insert, ◌==◌, is_nonempty, ok, err,
}
use nockguard.Policy.Evaluate.{has_tool_pin_constraints}
use nockguard.Proxy.Calls.{canonical_tool_call}
use nockguard.Proxy.Catalog.{ToolCatalog, ListParams, invalidate, begin_list}
use nockguard.Proxy.Queue.{reserve_audit_sequence, queue_action_id}
use nockguard.Proxy.Actions.{new_action_id, listing}
use nockguard.Proxy.Pending.{request_id_in_use, track_request_id}
use nockguard.Proxy.Gate.Types.{Message, McpDecision, internal_error}
use nockguard.Proxy.Gate.Decide.{decide_canonical, is_oversized}
use nockguard.Proxy.Relay.State.{
  Relay, Line, Setting, audit_unavailable, with_gate, drop_catalog, drop_listing, required_error,
  reply,
}
use nockguard.Proxy.Relay.Refuse.{
  name_seen, refuse_oversized, refuse_duplicate, refuse_unaudited, refuse_decided, refuse_listing,
}
use nockguard.Proxy.Relay.Send.{finish, send}

-- The name that is checked: of the tool for a call, of the method otherwise.
abbrev pub is_call_message : Message → Bool
is_call_message msg = text_eq msg.method (codes "tools/call")

abbrev pub checked_name : Message → Text
checked_name msg =
    if is_call_message msg then name_seen (canonical_tool_call msg.params) else msg.method

abbrev pub checked_kind : Message → Text
checked_kind msg = if is_call_message msg then codes "tool" else codes "method"

-- `IsRequest`, with the ID.
abbrev pub request_id : Message → Option Text
request_id msg = if is_nonempty msg.method then msg.id else none

-- The page number of a listing, 0 for none.
abbrev pub begin_listing : Option ListParams → ToolCatalog → ToolCatalog × ℕ
begin_listing none c = (invalidate c, 0)
begin_listing (some params) c = begin_list params c

module _ {Bytes : Type 0} (s : Setting Bytes) where
  abbrev pub is_waiting : Option Text → Bool
  is_waiting none = false
  is_waiting (some id) = true

  -- The decision is carried out; `deferred` is whether a listing waits for its response.
  unfoldable pub carry_out :
      Line Bytes → McpDecision Bytes → Bool → ℕ → Text → Relay Bytes → Relay Bytes × Bool
  carry_out l d deferred seq action_id r = elim d.reject [
    | some code ↦ finish s deferred seq (refuse_decided s l d code seq action_id r)
    | none ↦ elim d.forward [
      | none ↦ finish s deferred seq (r, false)
      | some bytes ↦ send s d bytes (deferred || is_waiting d.forward_id) seq action_id r
    ]
  ]

  -- A listing gets its page before it is sent.
  unfoldable pub carry_listing :
      Line Bytes → McpDecision Bytes → ℕ → Text → Relay Bytes → Relay Bytes × Bool
  carry_listing l d seq action_id r = elim d.tools_list_id [
    | none ↦ carry_out l d false seq action_id r
    | some id ↦
        let (catalog, page) = begin_listing l.params r.gate.catalog in
        let begun = with_gate (λ g. record g { catalog = catalog }) r in
        let tracked = record begun {
          pending = insert id (listing seq page) begun.pending;
          active = track_request_id seq id begun.active;
        } in
        if page == 0 && has_tool_pin_constraints r.gate.engine r.gate.agent
        then refuse_listing s id seq begun
        else carry_out l d true seq action_id tracked
  ]

  unfoldable pub judge : Line Bytes → ℕ → Text → Relay Bytes → Relay Bytes × Bool
  judge l seq action_id r =
      let (g, d) = decide_canonical s.world l.canonical seq r.gate in
      let decided = record r { gate = g } in
      if required_error s g
      then refuse_unaudited s d seq action_id decided
      else carry_listing l d seq action_id decided

  abbrev pub is_in_use : Message → Relay Bytes → Bool
  is_in_use msg r = elim (request_id msg) [
    | none ↦ false
    | some id ↦ request_id_in_use s.decode_id r.pending r.active id
  ]

  -- A request whose ID waits for a response or is held is refused.
  unfoldable pub check_id : Line Bytes → Message → ℕ → Text → Relay Bytes → Relay Bytes × Bool
  check_id l msg seq action_id r =
      if is_in_use msg r then refuse_duplicate s l msg seq action_id r else judge l seq action_id r

  -- A call gets its action's ID.
  unfoldable pub name_action : Line Bytes → Message → ℕ → Relay Bytes → Relay Bytes × Bool
  name_action l msg seq r =
      if not (is_call_message msg)
      then check_id l msg seq [] r
      else elim (new_action_id r.gate.action_run_id r.counter) [
        | none ↦ ((reply s msg.id internal_error audit_unavailable r).0, true)
        | some (counter, action_id) ↦
            let named =
              with_gate (λ g. record g { queue = queue_action_id seq action_id g.queue })
                (record r { counter = counter }) in
            check_id l msg seq action_id named
      ]

  unfoldable pub admit : Line Bytes → Relay Bytes → Relay Bytes × Bool
  admit l r =
      let (queue, seq) = reserve_audit_sequence r.gate.queue in
      let reserved = with_gate (λ g. record g { queue = queue }) r in
      elim l.canonical [
        | err failure ↦ judge l seq [] reserved
        | ok (msg, bytes) ↦
            if is_oversized s.world (checked_name msg)
            then refuse_oversized s l (checked_kind msg) (checked_name msg) msg.id seq reserved
            else name_action l msg seq reserved
      ]

  abbrev pub is_exact : Option ListParams → Bool
  is_exact none = false
  is_exact (some exact) = true

  -- A listing without exact parameters empties the catalog.
  abbrev pub checked : Line Bytes → Relay Bytes → Relay Bytes
  checked l r = if l.listing && not (is_exact l.params) then drop_catalog r else r

  -- The whole line; the Boolean is whether the loop ends.
  unfoldable pub relay_line : Line Bytes → Relay Bytes → Relay Bytes × Bool
  relay_line l r =
      if s.stopping
      then (r, true)
      else if required_error s (checked l r).gate
      then reply s l.raw_id internal_error audit_unavailable (drop_listing l (checked l r))
      else admit l (checked l r)

-- The lines of a session up to the one that ends the loop, each with what surrounds it.
unfoldable pub relay_lines :
    {Bytes : Type 0} → List (Setting Bytes × Line Bytes) → Relay Bytes → Relay Bytes
relay_lines [] r = r
relay_lines ((s, l) ∷ rest) r =
    let (r', stop) = relay_line s l r in
    let further = relay_lines rest r' in if stop then r' else further
