-- ===== src/Proxy/Relay/Send.antt =====
-- The lines that go to the server, of `agentToUpstream` in internal/proxy/stdio.go: the last pin check,
-- the dispatch row of required audit, and the write.
use nockguard.Base.{
  ℕ, Bool, true, false, ◌&&◌, ◌||◌, Option, none, some, [], ◌∷◌, ◌++◌, if◌then◌else◌, Text, codes,
  text_eq, lookup, insert, delete, is_nonempty,
}
use nockguard.Policy.Evaluate.{has_tool_pin_constraints}
use nockguard.Proxy.Calls.{no_references}
use nockguard.Proxy.Catalog.{observe}
use nockguard.Proxy.Pins.{pin_observation}
use nockguard.Proxy.Actions.{
  PendingCard, Waiting, waiting_card, listing, action_card, outcome_unknown,
}
use nockguard.Proxy.Pending.{mark_cancelled_action, track_request_id, release_request_id}
use nockguard.Proxy.Gate.Types.{McpDecision, internal_error}
use nockguard.Proxy.Gate.State.{Gate}
use nockguard.Base.{length, ◌+◌}
use nockguard.Proxy.Relay.State.{
  audit_unavailable, Relay, Setting, audit, with_gate, drop_catalog, required_error, settled,
  observed, reply,
}
use nockguard.Proxy.Relay.Refuse.{refuse_pin}

module _ {Bytes : Type 0} (s : Setting Bytes) where
  abbrev pub is_call : Bytes → Bool
  is_call bytes = text_eq (s.method_of bytes) (codes "tools/call")

  -- A cancellation ends the wait of the call that it names.
  unfoldable pub note_cancellation : Bytes → Relay Bytes → Relay Bytes
  note_cancellation bytes r =
      let (g, pending) =
        mark_cancelled_action s.decode_id s.world.writer_refuses s.required
          (λ n. s.latched (n + length r.gate.method_rows)) (s.cancelled_id bytes) r.pending
          r.gate in
      if text_eq (s.method_of bytes) (codes "notifications/cancelled")
      then record r { gate = g; pending = pending }
      else r

  -- The card that waits for the response.
  abbrev pub card_of : McpDecision Bytes → Text → ℕ → Text → PendingCard
  card_of d id seq action_id = record (action_card d.tool d.refs seq action_id) {
    state_tool = d.tool_for_state;
    state_refs =
        if is_nonempty d.tool_for_state
        then elim d.refs [ none ↦ no_references | some refs ↦ refs ]
        else no_references;
    request_id = id;
  }

  unfoldable pub register : McpDecision Bytes → ℕ → Text → Relay Bytes → Relay Bytes
  register d seq action_id r = elim d.forward_id [
    | none ↦ r
    | some id ↦ record r {
      active = track_request_id seq id r.active;
      pending = insert id (waiting_card (card_of d id seq action_id)) r.pending;
    }
  ]

  -- A card that was taken out of the map after a failed write.
  abbrev pub lose : Option Waiting → Gate → Gate
  lose none g = g
  lose (some (listing seq build)) g = g
  lose (some (waiting_card card)) g =
      if is_nonempty card.action_id
      then (observed s outcome_unknown (codes "transport_lost") card g).0
      else g

  abbrev pub is_loaded : Option Waiting → Bool
  is_loaded none = false
  is_loaded (some w) = true

  abbrev pub first_of : Option Text → Option Text → Option Text
  first_of none other = other
  first_of (some id) other = some id

  -- A tools/call notification: its outcome cannot be observed.
  abbrev pub lose_call : McpDecision Bytes → Bytes → ℕ → Text → Text → Gate → Gate
  lose_call d bytes seq action_id cause g =
      if is_nonempty action_id && is_call bytes
      then elim d.forward_id [
        | some id ↦ g
        | none ↦ (observed s outcome_unknown cause (action_card d.tool d.refs seq action_id) g).0
      ]
      else g

  -- The write has failed: what waited is taken out, and the loop ends.
  unfoldable pub lose_line : McpDecision Bytes → Bytes → ℕ → Text → Relay Bytes → Relay Bytes
  lose_line d bytes seq action_id r =
      let dropped =
        if text_eq (s.method_of bytes) (codes "tools/list") then drop_catalog r else r in
      elim (first_of d.forward_id d.tools_list_id) [
        | none ↦
            settled s seq
              (with_gate (lose_call d bytes seq action_id (codes "transport_lost")) dropped)
        | some id ↦
            let found = lookup id dropped.pending in
            let taken =
              with_gate
                (λ g. lose_call d bytes seq action_id (codes "transport_lost") (lose found g))
                (record dropped { pending = delete id dropped.pending }) in
            if is_loaded found
            then settled s seq (record taken { active = release_request_id seq taken.active })
            else taken
      ]

  -- A call without an ID is settled, and its outcome is unknown from the start.
  unfoldable pub note_sent : McpDecision Bytes → Bytes → ℕ → Text → Relay Bytes → Relay Bytes
  note_sent d bytes seq action_id r =
      if is_nonempty action_id && is_call bytes
      then elim d.forward_id [
        | some id ↦ r
        | none ↦ with_gate (lose_call d bytes seq action_id []) (settled s seq r)
      ]
      else r

  -- The write itself; the Boolean is whether the loop ends.
  unfoldable pub transmit : McpDecision Bytes → Bytes → ℕ → Text → Relay Bytes → Relay Bytes × Bool
  transmit d bytes seq action_id r =
      let registered = register d seq action_id r in
      let lost = lose_line d bytes seq action_id registered in
      let sent =
        note_sent d bytes seq action_id
          (record registered { to_server = registered.to_server ++ bytes ∷ [] }) in
      if s.server_fails then (lost, true) else (sent, false)

  -- What the dispatch row is.
  abbrev pub dispatch : McpDecision Bytes → Text → Relay Bytes → Relay Bytes
  dispatch d action_id r =
      with_gate
        (audit r.current_card d.tool (codes "dispatch") (codes "required-audit-before-forward")
          d.refs action_id)
        r

  -- The relay that may write, or the end of the line.
  pub data Clearance : Type 0 where
    clear : Relay Bytes → Clearance
    refused : Relay Bytes × Bool → Clearance

  unfoldable pub authorize_audit : McpDecision Bytes → Bytes → ℕ → Text → Relay Bytes → Clearance
  authorize_audit d bytes seq action_id r =
      let written = dispatch d action_id r in
      let forget : Gate → Gate =
        λ g. record g { action_observed = delete action_id g.action_observed } in
      if s.required && is_call bytes
      then if required_error s written.gate
        then refused (
            reply s (s.id_of bytes) internal_error audit_unavailable
              (with_gate forget (settled s seq written)))
        else clear written
      else clear r

  -- The last pin check, with the catalog locked until the dispatch row is written.
  unfoldable pub authorize : McpDecision Bytes → Bytes → ℕ → Text → Relay Bytes → Clearance
  authorize d bytes seq action_id r =
      let g = r.gate in
      let (current, cause) =
        pin_observation g.engine g.agent g.upstream_id d.tool (observe d.tool g.catalog) in
      let seen =
        if is_nonempty action_id
        then with_gate
            (λ g. record g { action_observed = insert action_id current g.action_observed }) r
        else r in
      if is_call bytes && has_tool_pin_constraints g.engine g.agent
      then elim cause [
        | some c ↦ refused (refuse_pin s d current c (s.id_of bytes) seq action_id r)
        | none ↦ authorize_audit d bytes seq action_id seen
      ]
      else authorize_audit d bytes seq action_id r

  -- The end of a line whose sequence no response will settle.
  abbrev pub finish : Bool → ℕ → Relay Bytes × Bool → Relay Bytes × Bool
  finish waits seq (r, stop) = if waits || stop then (r, stop) else (settled s seq r, stop)

  unfoldable pub send :
      McpDecision Bytes → Bytes → Bool → ℕ → Text → Relay Bytes → Relay Bytes × Bool
  send d bytes waits seq action_id r =
      elim (authorize d bytes seq action_id (note_cancellation bytes r)) [
        | clear r' ↦ finish waits seq (transmit d bytes seq action_id r')
        | refused end ↦ end
      ]
