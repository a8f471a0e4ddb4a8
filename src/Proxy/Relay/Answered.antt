-- ===== src/Proxy/Relay/Answered.antt =====
-- The refusals of `agentToUpstream`, internal/proxy/stdio.go: each answers with one error and sends
-- nothing to the server.
use nockguard.Base.{
  ℕ, ◌≤◌, Option, none, some, List, [], ◌∷◌, ◌++◌, ◌≡◌, refl, ap, sym, ◌∙◌, arith, count_if, Text,
  codes, map, delete,
}
use mathlib.Core.List.{map-append, append-nil}
use nockguard.Proxy.Calls.{References}
use nockguard.Proxy.Gate.Types.{Message, McpDecision, RejectCode}
use nockguard.Proxy.Gate.State.{Gate, append_audit}
use nockguard.Proxy.Gate.Decide.{reject_oversized}
use nockguard.Proxy.Gate.AtOnce.{
  dispatches, is_dispatch, append_audit-method_rows, reject_oversized-dispatches,
}
use nockguard.Proxy.Relay.State.{
  Reply, ReplyReason, Relay, Line, Setting, reply, with_gate, drop_listing, settled,
}
use nockguard.Proxy.Relay.Refuse.{
  note_not_forwarded, not_forwarded_cause, note_duplicate, refuse_oversized, refuse_duplicate,
  refuse_unaudited, refuse_decided, refuse_listing,
}
use nockguard.Proxy.Relay.Kept.{observe_action-method_rows}

abbrev pub ids : List Reply → List Text
ids replies = map (λ a. a.id) replies

abbrev pub listed : Option Text → List Text
listed none = []
listed (some id) = id ∷ []

module _ {Bytes : Type 0} where
  -- From one relay to the next one error goes to the agent, where there is an ID, and nothing to the
  -- server; no dispatch row is lost.
  abbrev pub Answered : Option Text → Relay Bytes → Relay Bytes → Type 0
  Answered id r r' =
      (r'.to_server ≡ r.to_server)
      × (ids r'.to_agent ≡ ids r.to_agent ++ listed id)
      × (dispatches r.gate ≤ dispatches r'.gate)

  pub drop_listing-to_server :
      (l : Line Bytes) (r : Relay Bytes) → (drop_listing l r).to_server ≡ r.to_server
  drop_listing-to_server l r = ground arith

  pub drop_listing-to_agent :
      (l : Line Bytes) (r : Relay Bytes) → (drop_listing l r).to_agent ≡ r.to_agent
  drop_listing-to_agent l r = ground arith

  pub drop_listing-dispatches :
      (l : Line Bytes) (r : Relay Bytes) → dispatches (drop_listing l r).gate ≡ dispatches r.gate
  unfolding dispatches
  drop_listing-dispatches l r = ground arith

  module _ (s : Setting Bytes) where
    pub reply-Answered :
        (id : Option Text) (code : RejectCode) (reason : ReplyReason) (before r : Relay Bytes)
        → r.to_server ≡ before.to_server
        → r.to_agent ≡ before.to_agent
        → dispatches before.gate ≤ dispatches r.gate
        → Answered id before (reply s id code reason r).0
    unfolding reply
    reply-Answered none code reason before r a b c = (a, ap ids b ∙ sym (append-nil _), c)
    reply-Answered (some id) code reason before r a b c =
        (a, map-append (λ a. a.id) r.to_agent _ ∙ ap (λ l. ids l ++ id ∷ []) b, c)

    -- The same for a refusal that writes no dispatch row.
    pub reply-Answered_same :
        (id : Option Text) (code : RejectCode) (reason : ReplyReason) (before r : Relay Bytes)
        → r.to_server ≡ before.to_server
        → r.to_agent ≡ before.to_agent
        → dispatches r.gate ≡ dispatches before.gate
        → Answered id before (reply s id code reason r).0
    reply-Answered_same id code reason before r a b c =
        reply-Answered id code reason before r a b (omega arith)

    note_not_forwarded-dispatches :
        (tool : Text) (refs : Option References) (seq : ℕ) (action_id cause : Text) (g : Gate)
        → dispatches (note_not_forwarded s tool refs seq action_id cause g).0 ≡ dispatches g
    unfolding dispatches
    note_not_forwarded-dispatches tool refs seq action_id cause g =
        grind (arith, observe_action-method_rows)

    note_duplicate-dispatches :
        (msg : Message) (seq : ℕ) (action_id : Text) (g : Gate)
        → dispatches (note_duplicate s msg seq action_id g) ≡ dispatches g
    unfolding note_duplicate dispatches
    note_duplicate-dispatches msg seq action_id g =
        grind (arith, observe_action-method_rows, append_audit-method_rows)

    pub settled-dispatches :
        (seq : ℕ) (r : Relay Bytes) → dispatches (settled s seq r).gate ≡ dispatches r.gate
    unfolding dispatches
    settled-dispatches seq r = refl

    pub refuse_oversized-Answered :
        (l : Line Bytes) (kind name : Text) (id : Option Text) (seq : ℕ) (r : Relay Bytes)
        → Answered id r (refuse_oversized s l kind name id seq r).0
    unfolding refuse_oversized
    refuse_oversized-Answered l kind name id seq r =
        let noted = with_gate (λ g. (reject_oversized s.world kind id name g).0) r in
        let r' = settled s seq (drop_listing l noted) in
        reply-Answered_same id _ _ r r' (drop_listing-to_server l noted)
          (drop_listing-to_agent l noted)
          (settled-dispatches seq (drop_listing l noted)
            ∙ drop_listing-dispatches l noted
            ∙ reject_oversized-dispatches s.world kind id name r.gate)

    pub refuse_duplicate-Answered :
        (l : Line Bytes) (msg : Message) (seq : ℕ) (action_id : Text) (r : Relay Bytes)
        → Answered msg.id r (refuse_duplicate s l msg seq action_id r).0
    unfolding refuse_duplicate
    refuse_duplicate-Answered l msg seq action_id r =
        let noted = with_gate (note_duplicate s msg seq action_id) (drop_listing l r) in
        let r' = settled s seq noted in
        reply-Answered_same msg.id _ _ r r' (drop_listing-to_server l r) (drop_listing-to_agent l r)
          (settled-dispatches seq noted
            ∙ note_duplicate-dispatches msg seq action_id (drop_listing l r).gate
            ∙ drop_listing-dispatches l r)

    -- The ID that an undecided line is refused under.
    abbrev pub refused_id : McpDecision Bytes → Option Text
    refused_id d = elim d.forward [ none ↦ d.reject_id | some bytes ↦ s.id_of bytes ]

    pub forget-dispatches :
        (action_id : Text) (g : Gate)
        → dispatches (record g { action_observed = delete action_id g.action_observed })
          ≡ dispatches g
    unfolding dispatches
    forget-dispatches action_id g = refl

    pub refuse_unaudited-Answered :
        (d : McpDecision Bytes) (seq : ℕ) (action_id : Text) (r : Relay Bytes)
        → Answered (refused_id d) r (refuse_unaudited s d seq action_id r).0
    unfolding refuse_unaudited
    refuse_unaudited-Answered d seq action_id r =
        let r' =
          with_gate (λ g. record g { action_observed = delete action_id g.action_observed })
            (settled s seq r) in
        reply-Answered_same (refused_id d) _ _ r r' refl refl
          (forget-dispatches action_id (settled s seq r).gate ∙ settled-dispatches seq r)

    pub refuse_decided-Answered :
        (l : Line Bytes) (d : McpDecision Bytes) (code : RejectCode) (seq : ℕ) (action_id : Text)
        (r : Relay Bytes)
        → Answered d.reject_id r (refuse_decided s l d code seq action_id r).0
    unfolding refuse_decided
    refuse_decided-Answered l d code seq action_id r =
        let r' = settled s seq (drop_listing l r) in
        let cause = not_forwarded_cause d.cause in
        let noted = record r' {
          gate = (note_not_forwarded s d.tool d.refs seq action_id cause r'.gate).0;
        } in
        reply-Answered_same d.reject_id _ _ r noted (drop_listing-to_server l r)
          (drop_listing-to_agent l r)
          (note_not_forwarded-dispatches d.tool d.refs seq action_id cause r'.gate
            ∙ settled-dispatches seq (drop_listing l r)
            ∙ drop_listing-dispatches l r)

    append_audit-dispatches :
        (seq : ℕ) (tool decision reason : Text) (refs : Option References) (g : Gate)
        → dispatches (append_audit seq tool decision reason refs g) ≡ dispatches g
    unfolding dispatches
    append_audit-dispatches seq tool decision reason refs g =
        ap (count_if is_dispatch) (append_audit-method_rows seq tool decision reason refs g)

    pub refuse_listing-Answered :
        (id : Text) (seq : ℕ) (r : Relay Bytes) → Answered (some id) r (refuse_listing s id seq r).0
    unfolding refuse_listing
    refuse_listing-Answered id seq r =
        let noted =
          with_gate
            (append_audit seq (codes "tools/list") (codes "method-deny")
              (codes "tool_catalog_refresh_required") none)
            r in
        reply-Answered_same (some id) _ _ r (settled s seq noted) refl refl (
          settled-dispatches seq noted
          ∙ append_audit-dispatches seq (codes "tools/list") (codes "method-deny")
              (codes "tool_catalog_refresh_required") none r.gate)
