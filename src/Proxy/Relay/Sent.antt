-- ===== src/Proxy/Relay/Sent.antt =====
-- What a line that goes to the server leaves behind, of `agentToUpstream` in internal/proxy/stdio.go.
use nockguard.Base.{
  ℕ, Bool, true, false, Option, none, some, ◌≡◌, inl, inr, refl, ap, ◌∙◌, arith, count_if,
  if◌then◌else◌, Text, codes, text_eq, Bool-cases, Option-cases, is_nonempty, insert, lookup,
}
use nockguard.Proxy.Catalog.{ToolObservation}
use nockguard.Proxy.Pins.{PinCause, cause_text}
use nockguard.Proxy.Actions.{
  Observation, PendingCard, Waiting, listing, waiting_card, not_forwarded, action_card,
}
use nockguard.Proxy.Pending.{mark_cancelled_action}
use nockguard.Proxy.Gate.Types.{McpDecision}
use nockguard.Proxy.Gate.State.{Gate}
use nockguard.Proxy.Gate.AtOnce.{dispatches, is_dispatch}
use nockguard.Proxy.Relay.State.{Relay, Setting, audit, observed, with_gate, settled, drop_catalog}
use nockguard.Proxy.Relay.Refuse.{refuse_pin}
use nockguard.Proxy.Relay.Send.{
  note_cancellation, register, lose_line, note_sent, lose, lose_call, first_of, is_loaded,
}
use nockguard.Proxy.Relay.Kept.{
  observe_action-method_rows, mark_cancelled-method_rows, audit-dispatches,
}
use nockguard.Proxy.Relay.Answered.{Answered, reply-Answered_same, settled-dispatches}

module _ {Bytes : Type 0} (s : Setting Bytes) where
  -- Nothing goes to either side.
  pub record Silent (r r' : Relay Bytes) : Type 0 where
    pub server : r'.to_server ≡ r.to_server
    pub agent : r'.to_agent ≡ r.to_agent
    pub rows : dispatches r'.gate ≡ dispatches r.gate

  pub note_cancellation-Silent :
      (bytes : Bytes) (r : Relay Bytes) → Silent r (note_cancellation s bytes r)
  unfolding note_cancellation mark_cancelled_action dispatches
  note_cancellation-Silent bytes r = record {
    server = ground arith;
    agent = ground arith;
    rows = grind (arith, mark_cancelled-method_rows);
  }

  pub register-Silent :
      (d : McpDecision Bytes) (seq : ℕ) (action_id : Text) (r : Relay Bytes)
      → Silent r (register s d seq action_id r)
  unfolding register dispatches
  register-Silent d seq action_id r = record {
    server = ground arith;
    agent = ground arith;
    rows = ground arith;
  }

  pub note_sent-Silent :
      (d : McpDecision Bytes) (bytes : Bytes) (seq : ℕ) (action_id : Text) (r : Relay Bytes)
      → Silent r (note_sent s d bytes seq action_id r)
  unfolding note_sent dispatches
  note_sent-Silent d bytes seq action_id r = record {
    server = ground arith;
    agent = ground arith;
    rows = grind (arith, observe_action-method_rows);
  }

  lose-method_rows : (w : Option Waiting) (g : Gate) → (lose s w g).method_rows ≡ g.method_rows
  lose-method_rows none g = refl
  lose-method_rows (some (listing seq build)) g = refl
  lose-method_rows (some (waiting_card card)) g = grind (arith, observe_action-method_rows)

  lose_call-method_rows :
      (d : McpDecision Bytes) (bytes : Bytes) (seq : ℕ) (action_id cause : Text) (g : Gate)
      → (lose_call s d bytes seq action_id cause g).method_rows ≡ g.method_rows
  lose_call-method_rows d bytes seq action_id cause g = grind (arith, observe_action-method_rows)

  pub lose_line-Silent :
      (d : McpDecision Bytes) (bytes : Bytes) (seq : ℕ) (action_id : Text) (r : Relay Bytes)
      → Silent r (lose_line s d bytes seq action_id r)
  unfolding lose_line dispatches
  lose_line-Silent d bytes seq action_id r = record {
    server = grind arith;
    agent = grind arith;
    rows = ap (count_if is_dispatch) rows;
  }
    where
      lost : Text
      lost = codes "transport_lost"

      waiting :
          (id : Text) (dropped : Relay Bytes)
          → (lose_call s d bytes seq action_id lost
              (lose s (lookup id dropped.pending) dropped.gate)).method_rows
            ≡ dropped.gate.method_rows
      waiting id dropped =
          lose_call-method_rows d bytes seq action_id lost
            (lose s (lookup id dropped.pending) dropped.gate)
          ∙ lose-method_rows (lookup id dropped.pending) dropped.gate

      dropped : Relay Bytes
      dropped = if text_eq (s.method_of bytes) (codes "tools/list") then drop_catalog r else r

      kept : dropped.gate.method_rows ≡ r.gate.method_rows
      kept = ground arith

      rows : (lose_line s d bytes seq action_id r).gate.method_rows ≡ r.gate.method_rows
      rows = elim (Option-cases (first_of s d.forward_id d.tools_list_id)) [
        | inl none_waits ↦
            rw (none_waits, lose_line)
              (lose_call-method_rows d bytes seq action_id lost dropped.gate ∙ kept)
        | inr (id, waits) ↦
            rw (waits, lose_line)
              (elim (Bool-cases (is_loaded s (lookup id dropped.pending))) [
                | inl found ↦ rw found (waiting id dropped ∙ kept)
                | inr gone ↦ rw gone (waiting id dropped ∙ kept)
              ])
      ]

  observed-dispatches :
      (o : Observation) (cause : Text) (card : PendingCard) (g : Gate)
      → dispatches (observed s o cause card g).0 ≡ dispatches g
  unfolding dispatches
  observed-dispatches o cause card g = grind (arith, observe_action-method_rows)

  if-dispatches :
      (b : Bool) (g h : Gate) (n : ℕ)
      → dispatches g ≡ n
      → dispatches h ≡ n
      → dispatches (if b then g else h) ≡ n
  if-dispatches true g h n p q = p
  if-dispatches false g h n p q = q

  -- What was seen of the tool's pin is kept for the action.
  abbrev pub seen : Text → ToolObservation → Gate → Gate
  seen action_id current g =
      if is_nonempty action_id
      then record g { action_observed = insert action_id current g.action_observed }
      else g

  pub seen-dispatches :
      (action_id : Text) (current : ToolObservation) (g : Gate)
      → dispatches (seen action_id current g) ≡ dispatches g
  unfolding dispatches
  seen-dispatches action_id current g = ground arith

  pub refuse_pin-Answered :
      (d : McpDecision Bytes) (current : ToolObservation) (cause : PinCause) (id : Option Text)
      (seq : ℕ) (action_id : Text) (r : Relay Bytes)
      → Answered id r (refuse_pin s d current cause id seq action_id r).0
  unfolding refuse_pin text_eq
  refuse_pin-Answered d current cause id seq action_id r =
      let looked = settled s seq (with_gate (seen action_id current) r) in
      let blocked =
        with_gate (audit r.current_card d.tool (codes "block") (cause_text cause) d.refs action_id)
          looked in
      let card = record (action_card d.tool d.refs seq action_id) { observed = current } in
      let observe_it : Gate → Gate = λ g.
        if is_nonempty action_id
        then (observed s not_forwarded (cause_text cause) card g).0
        else g in
      let counted : dispatches blocked.gate ≡ dispatches r.gate =
        audit-dispatches r.current_card d.tool (codes "block") (cause_text cause) d.refs action_id
          looked.gate
        ∙ settled-dispatches s seq (with_gate (seen action_id current) r)
        ∙ seen-dispatches action_id current r.gate in
      reply-Answered_same s id _ _ r (with_gate observe_it blocked) refl refl (
        if-dispatches (is_nonempty action_id) _ blocked.gate _
          (observed-dispatches not_forwarded (cause_text cause) card blocked.gate ∙ counted)
          counted)
