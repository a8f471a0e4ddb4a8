-- ===== src/Proxy/Gate/Cleared.antt =====
-- What a forwarded tools/call has passed.
use nockguard.Base.{
  ℕ, true, false, Option, none, some, [], ◌≡◌, ◌≢◌, ◌⊎◌, inl, inr, refl, arith, Text, codes,
  is_nonempty, Bool-cases, Option-cases,
}
use nockguard.Policy.Types.{Verdict, allow, deny, ask, Decision}
use nockguard.Policy.Evaluate.{evaluate, fail_mode_verdict}
use nockguard.RateLimit.Limiter.{allowed, enabled, allow_nil}
use nockguard.Proxy.Json.{Fields}
use nockguard.Proxy.Calls.{References, canonical_tool_call, from_tool_call}
use nockguard.Proxy.Catalog.{observe}
use nockguard.Proxy.Pins.{pin_observation}
use nockguard.Policy.Evaluate.{requires_approval}
use nockguard.Base.{sym, ap, ◌∙◌}
use nockguard.Proxy.Gate.State.{Gate, reason_text}
use nockguard.Proxy.Gate.Types.{World, Message}
use nockguard.Proxy.Gate.Decide.{
  approve_ask, decide_approval, decide_limit, validator_hit, decide_validation, promoted,
  decide_pin, decide_named, decide_tool_call, decide_unnamed,
}

module _ {Bytes : Type 0} (w : World Bytes) where
  -- A human has agreed, where one is asked.
  abbrev pub IsApproved : Gate → Text → Decision → Type 0
  IsApproved g tool dec =
      dec.verdict ≡ ask
      → (g.approver ≡ true) × ((w.approve tool (reason_text w.quote dec.reason)).approved ≡ true)

  approve_ask-true :
      (seq : ℕ) (tool : Text) (refs : Option References) (reason : Text) (g : Gate)
      → (approve_ask w seq tool refs reason g).1 ≡ true
      → (g.approver ≡ true) × ((w.approve tool reason).approved ≡ true)
  unfolding approve_ask
  approve_ask-true seq tool refs reason g h = ground arith

  decide_approval-forward :
      (msg : Message) (seq : ℕ) (tool : Text) (refs : References) (dec : Decision) (params : Fields)
      (g : Gate) (b : Bytes)
      → (decide_approval w msg seq tool refs dec params g).1.forward ≡ some b
      → IsApproved g tool dec
  unfolding decide_approval
  decide_approval-forward msg seq tool refs dec params g b h is_ask =
      ground (arith, approve_ask-true seq tool (some refs) (reason_text w.quote dec.reason) g)

  abbrev pub IsCounted : Gate → Type 0
  IsCounted g = (enabled g.limiter ≡ false) ⊎ ((allow_nil g.limiter w.now w.max_calls).1 ≡ allowed)

  decide_limit-forward :
      (msg : Message) (seq : ℕ) (tool : Text) (refs : References) (dec : Decision) (params : Fields)
      (g : Gate) (b : Bytes)
      → (decide_limit w msg seq tool refs dec params g).1.forward ≡ some b
      → IsCounted g × IsApproved g tool dec
  unfolding decide_limit
  decide_limit-forward msg seq tool refs dec params g b h =
      let counted = record g { limiter = (allow_nil g.limiter w.now w.max_calls).0 } in
      ground (
        arith,
        decide_approval-forward msg seq tool refs dec params g b,
        decide_approval-forward msg seq tool refs dec params counted b,
      )

  decide_validation-forward :
      (msg : Message) (seq : ℕ) (tool : Text) (refs : References) (dec : Decision) (params : Fields)
      (g : Gate) (b : Bytes)
      → (decide_validation w msg seq tool refs dec params g).1.forward ≡ some b
      → (validator_hit w params ≡ none) × IsCounted g × IsApproved g tool dec
  unfolding decide_validation
  decide_validation-forward msg seq tool refs dec params g b h =
      ground (arith, decide_limit-forward msg seq tool refs dec params g b)

  decide_pin-forward :
      (msg : Message) (seq : ℕ) (tool : Text) (refs : References) (dec : Decision) (params : Fields)
      (g : Gate) (b : Bytes)
      → (decide_pin w msg seq tool refs dec params g).1.forward ≡ some b
      → ((pin_observation g.engine g.agent g.upstream_id tool (observe tool g.catalog)).1 ≡ none)
        × (validator_hit w params ≡ none)
        × IsCounted g
        × IsApproved g tool (promoted w g tool dec)
  unfolding decide_pin
  decide_pin-forward msg seq tool refs dec params g b h =
      ground (arith, decide_validation-forward msg seq tool refs (promoted w g tool dec) params g b)

  -- Where the policy asks, or requires approval.
  abbrev pub NeedsHuman : Gate → Text → Type 0
  NeedsHuman g tool =
      ((evaluate g.engine g.agent tool).verdict ≡ ask)
      ⊎ (requires_approval g.engine g.agent tool ≡ true)

  abbrev pub IsHumanApproved : Gate → Text → Type 0
  IsHumanApproved g tool =
      (g.approver ≡ true)
      × ((w.approve tool (reason_text w.quote (evaluate g.engine g.agent tool).reason)).approved
          ≡ true)

  promoted-ask :
      (g : Gate) (tool : Text) (v : Verdict)
      → (evaluate g.engine g.agent tool).verdict ≡ v
      → (evaluate g.engine g.agent tool).verdict ≢ deny
      → NeedsHuman g tool
      → ((promoted w g tool (evaluate g.engine g.agent tool)).verdict ≡ ask)
        × ((promoted w g tool (evaluate g.engine g.agent tool)).reason
            ≡ (evaluate g.engine g.agent tool).reason)
  unfolding promoted
  promoted-ask g tool allow e d (inl asks) = absurd cc
  promoted-ask g tool allow e d (inr required) =
      (ground (arith, e, required), ground (arith, e, required))
  promoted-ask g tool ask e d n = (ground (arith, e), ground (arith, e))
  promoted-ask g tool deny e d n = absurd (d e)

  human :
      (g : Gate) (tool : Text)
      → (evaluate g.engine g.agent tool).verdict ≢ deny
      → IsApproved g tool (promoted w g tool (evaluate g.engine g.agent tool))
      → NeedsHuman g tool
      → IsHumanApproved g tool
  human g tool d approved n =
      let (asks, same) = promoted-ask g tool _ refl d n in
      let (there, agreed) = approved asks in
      (there, sym (ap (λ r. (w.approve tool (reason_text w.quote r)).approved) same) ∙ agreed)

  -- What a named call has passed.
  pub record Cleared (g : Gate) (tool : Text) (params : Fields) : Type 0 where
    pub permitted : (evaluate g.engine g.agent tool).verdict ≢ deny
    pub pinned :
        (pin_observation g.engine g.agent g.upstream_id tool (observe tool g.catalog)).1 ≡ none
    pub valid : validator_hit w params ≡ none
    pub counted : IsCounted g
    pub approved : NeedsHuman g tool → IsHumanApproved g tool

  decide_named-forward :
      (msg : Message) (seq : ℕ) (tool : Text) (params : Fields) (g : Gate) (b : Bytes)
      → (decide_named w msg seq tool params g).1.forward ≡ some b
      → Cleared g tool params
  unfolding decide_named
  decide_named-forward msg seq tool params g b h =
      let dec = evaluate g.engine g.agent tool in
      let refs = from_tool_call tool (some params) in
      let past = decide_pin-forward msg seq tool refs dec params g b in
      let all = reaches dec.verdict refl in
      record {
        permitted = all.0;
        pinned = (past all.1).0;
        valid = (past all.1).1;
        counted = (past all.1).2;
        approved = human g tool all.0 (past all.1).3;
      }
    where
      reaches :
          (v : Verdict)
          → (evaluate g.engine g.agent tool).verdict ≡ v
          → ((evaluate g.engine g.agent tool).verdict ≢ deny)
            × ((decide_pin w msg seq tool
                  (from_tool_call tool (some params))
                  (evaluate g.engine g.agent tool)
                  params
                  g).1.forward
                ≡ some b)
      reaches allow e = (λ d. cc, ground arith)
      reaches ask e = (λ d. cc, ground arith)
      reaches deny e = absurd (ground arith)

  -- Where the gate sees no tool name, a human has agreed.
  abbrev pub IsUnnamedApproved : Gate → Type 0
  IsUnnamedApproved g =
      (g.approver ≡ true)
      × ((w.approve [] (
            reason_text w.quote
              (fail_mode_verdict g.engine g.agent (codes "unextractable-name")).reason)).approved
          ≡ true)

  decide_unnamed-forward :
      (msg : Message) (seq : ℕ) (line : Bytes) (g : Gate) (b : Bytes)
      → (decide_unnamed w msg seq line g).1.forward ≡ some b
      → IsUnnamedApproved g
  unfolding decide_unnamed
  decide_unnamed-forward msg seq line g b h =
      let dec = fail_mode_verdict g.engine g.agent (codes "unextractable-name") in
      ground (arith, approve_ask-true seq [] none (reason_text w.quote dec.reason) g)

  abbrev pub NamedCleared : Message → Gate → Type 0
  NamedCleared msg g =
      (tool : Text) × (params : Fields) × (canonical_tool_call msg.params ≡ some (tool, params))
      × (is_nonempty tool ≡ true)
      × Cleared g tool params

  -- A tools/call that is forwarded has passed every gate: its policy does not deny it, its pin
  -- matches, its arguments pass validation, the limiter has counted it, and a human has agreed where
  -- the policy asks or requires approval. A call whose name the gate cannot see is forwarded only if a
  -- human has agreed.
  pub decide_tool_call-Cleared :
      (msg : Message) (seq : ℕ) (line : Bytes) (g : Gate) (b : Bytes)
      → (decide_tool_call w msg seq line g).1.forward ≡ some b
      → NamedCleared msg g ⊎ IsUnnamedApproved g
  unfolding decide_tool_call
  decide_tool_call-Cleared msg seq line g b h =
      elim (Option-cases (canonical_tool_call msg.params)) [
        | inl unseen ↦ inr (decide_unnamed-forward msg seq line g b (ground (arith, unseen)))
        | inr ((tool, params), seen) ↦ elim (Bool-cases (is_nonempty tool)) [
          | inl named ↦ inl (
            tool,
            params,
            seen,
            named,
            decide_named-forward msg seq tool params g b (ground (arith, seen, named)),
          )
          | inr empty ↦ inr (decide_unnamed-forward msg seq line g b (ground (arith, seen, empty)))
        ]
      ]
