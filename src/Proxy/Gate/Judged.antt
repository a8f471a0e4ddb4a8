-- ===== src/Proxy/Gate/Judged.antt =====
-- What the gate decides of a message: it is forwarded, or it is rejected under its own ID.
use nockguard.Base.{
  ℕ, true, Option, none, some, List, [], ◌∷◌, ◌≡◌, inl, inr, refl, Text, codes, is_nonempty,
  text_eq, ◌&&◌, Result, ok, err, not, Option-cases, Bool-cases,
}
use nockguard.Policy.Types.{Verdict, allow, deny, ask, Decision, InjectRule}
use nockguard.Policy.Evaluate.{evaluate, inject_rules_for, fail_mode_verdict, denies_method}
use nockguard.RateLimit.Limiter.{Answer, allowed, spend_capped, rate_limited, enabled, allow_nil}
use nockguard.Proxy.Json.{obj, Fields, set_member}
use nockguard.Proxy.Calls.{References, canonical_tool_call, from_tool_call}
use nockguard.Proxy.Inject.{InjectError, ResolvedRule, apply_inject}
use nockguard.Proxy.Catalog.{observe}
use nockguard.Proxy.Pins.{pin_observation}
use nockguard.Proxy.Gate.State.{Gate, reason_text}
use nockguard.Proxy.Gate.Types.{
  World, Message, RejectCode, McpDecision, MessageFailure, undecodable, ambiguous_key,
  marshal_failed, decode_failed,
}
use nockguard.Proxy.Gate.Decide.{
  approve_ask, decide_approval, decide_limit, validator_hit, decide_validation, promoted,
  decide_pin, decide_named, decide_tool_call, decide_unnamed, decide_forward, decide_injection,
  decide_other, decide_failure, decide_canonical, note_injected, is_ask, is_oversized,
}

module _ {Bytes : Type 0} (Good : Bytes → Type 0) (id : Option Text) where
  abbrev pub IsGood : Option Bytes → Type 0
  IsGood none = ⊥
  IsGood (some b) = Good b

  abbrev pub IsRejected : Option RejectCode → Option Bytes → Option Text → Type 0
  IsRejected none forward reject_id = IsGood forward
  IsRejected (some code) forward reject_id = (forward ≡ none) × (reject_id ≡ id)

  -- A listing waits under the message's own ID.
  abbrev pub IsOwn : Option Text → Type 0
  IsOwn none = Unit
  IsOwn (some waiting) = id ≡ some waiting

  -- Rejected under the message's ID and not forwarded, or forwarded with good bytes.
  abbrev pub Judged : McpDecision Bytes → Type 0
  Judged d = IsRejected d.reject d.forward d.reject_id × IsOwn d.tools_list_id

  own : (waiting : Option Text) → id ≡ waiting → IsOwn waiting
  own none e = tt
  own (some waiting) e = e

module _ {Bytes : Type 0} (w : World Bytes) (msg : Message) (Good : Bytes → Type 0) where
  abbrev Both : Gate × McpDecision Bytes → Type 0
  Both x = Judged Good msg.id x.1

  module _
      (encoded : (params : Fields) (b : Bytes)
        → w.encode (set_member (codes "params") (obj params) msg.members) ≡ some b
        → Good b) where
    decide_forward-Judged :
        (seq : ℕ) (tool : Text) (refs : References) (dec : Decision) (params : Fields) (g : Gate)
        → Both (decide_forward w msg seq tool refs dec params g)
    unfolding decide_forward
    decide_forward-Judged seq tool refs dec params g =
        elim (Option-cases (w.encode (set_member (codes "params") (obj params) msg.members))) [
          | inl e ↦ rw (e, decide_forward) ((refl, refl), tt)
          | inr (b, e) ↦ rw (e, decide_forward) (encoded params b e, tt)
        ]

    decide_injection-Judged :
        (seq : ℕ) (tool : Text) (refs : References) (dec : Decision) (params : Fields) (g : Gate)
        → Both (decide_injection w msg seq tool refs dec params g)
    unfolding decide_injection
    decide_injection-Judged seq tool refs dec params g =
        rules (inject_rules_for g.engine g.agent tool) refl
      where
        injected :
            (rule : InjectRule) (more : List InjectRule)
            (r : Result InjectError (Fields × List ResolvedRule))
            → inject_rules_for g.engine g.agent tool ≡ rule ∷ more
            → apply_inject w.resolver params (rule ∷ more) ≡ r
            → Both (decide_injection w msg seq tool refs dec params g)
        injected rule more (ok (fs, resolved)) e h =
            rw (e, decide_injection)
              (rw h
                (decide_forward-Judged seq tool refs dec fs (note_injected w seq tool resolved g)))
        injected rule more (err error) e h = rw (e, decide_injection) (rw h ((refl, refl), tt))

        rules :
            (rs : List InjectRule)
            → inject_rules_for g.engine g.agent tool ≡ rs
            → Both (decide_injection w msg seq tool refs dec params g)
        rules [] e = rw (e, decide_injection) (decide_forward-Judged seq tool refs dec params g)
        rules (rule ∷ more) e =
            injected rule more (apply_inject w.resolver params (rule ∷ more)) e refl

    decide_approval-Judged :
        (seq : ℕ) (tool : Text) (refs : References) (dec : Decision) (params : Fields) (g : Gate)
        → Both (decide_approval w msg seq tool refs dec params g)
    unfolding decide_approval
    decide_approval-Judged seq tool refs dec params g =
        let asked = approve_ask w seq tool (some refs) (reason_text w.quote dec.reason) g in
        elim (Bool-cases (is_ask w dec.verdict)) [
          | inr plain ↦
              rw (plain, decide_approval) (decide_injection-Judged seq tool refs dec params g)
          | inl asks ↦ elim (Bool-cases asked.1) [
            | inl granted ↦
                rw (asks, decide_approval)
                  (rw granted (decide_injection-Judged seq tool refs dec params asked.0))
            | inr denied ↦ rw (asks, decide_approval) (rw denied ((refl, refl), tt))
          ]
        ]

    decide_limit-Judged :
        (seq : ℕ) (tool : Text) (refs : References) (dec : Decision) (params : Fields) (g : Gate)
        → Both (decide_limit w msg seq tool refs dec params g)
    unfolding decide_limit
    decide_limit-Judged seq tool refs dec params g = elim (Bool-cases (enabled g.limiter)) [
      | inr off ↦ rw (off, decide_limit) (decide_approval-Judged seq tool refs dec params g)
      | inl on ↦ answers on (allow_nil g.limiter w.now w.max_calls).1 refl
    ]
      where
        answers :
            enabled g.limiter ≡ true
            → (a : Answer) → (allow_nil g.limiter w.now w.max_calls).1 ≡ a
            → Both (decide_limit w msg seq tool refs dec params g)
        answers on allowed h =
            rw (on, decide_limit)
              (rw h (
                decide_approval-Judged seq tool refs dec params
                  (record g { limiter = (allow_nil g.limiter w.now w.max_calls).0 })))
        answers on spend_capped h = rw (on, decide_limit) (rw h ((refl, refl), tt))
        answers on rate_limited h = rw (on, decide_limit) (rw h ((refl, refl), tt))

    decide_validation-Judged :
        (seq : ℕ) (tool : Text) (refs : References) (dec : Decision) (params : Fields) (g : Gate)
        → Both (decide_validation w msg seq tool refs dec params g)
    unfolding decide_validation
    decide_validation-Judged seq tool refs dec params g =
        elim (Option-cases (validator_hit w params)) [
          | inl clean ↦
              rw (clean, decide_validation) (decide_limit-Judged seq tool refs dec params g)
          | inr (hit, found) ↦ rw (found, decide_validation) ((refl, refl), tt)
        ]

    decide_pin-Judged :
        (seq : ℕ) (tool : Text) (refs : References) (dec : Decision) (params : Fields) (g : Gate)
        → Both (decide_pin w msg seq tool refs dec params g)
    unfolding decide_pin
    decide_pin-Judged seq tool refs dec params g =
        elim (Option-cases
          (pin_observation g.engine g.agent g.upstream_id tool (observe tool g.catalog)).1) [
            | inl passed ↦
                rw (passed, decide_pin)
                  (decide_validation-Judged seq tool refs (promoted w g tool dec) params g)
            | inr (cause, found) ↦ rw (found, decide_pin) ((refl, refl), tt)
          ]

    decide_named-Judged :
        (seq : ℕ) (tool : Text) (params : Fields) (g : Gate)
        → Both (decide_named w msg seq tool params g)
    unfolding decide_named
    decide_named-Judged seq tool params g = go (evaluate g.engine g.agent tool).verdict refl
      where
        refs : References
        refs = from_tool_call tool (some params)

        go :
            (v : Verdict)
            → (evaluate g.engine g.agent tool).verdict ≡ v
            → Both (decide_named w msg seq tool params g)
        go allow e =
            rw (e, decide_named)
              (decide_pin-Judged seq tool refs (evaluate g.engine g.agent tool) params g)
        go ask e =
            rw (e, decide_named)
              (decide_pin-Judged seq tool refs (evaluate g.engine g.agent tool) params g)
        go deny e = rw (e, decide_named) ((refl, refl), tt)

    module _ (line : Bytes) (good : Good line) where
      decide_unnamed-Judged : (seq : ℕ) (g : Gate) → Both (decide_unnamed w msg seq line g)
      unfolding decide_unnamed
      decide_unnamed-Judged seq g =
          let dec = fail_mode_verdict g.engine g.agent (codes "unextractable-name") in
          let asked = approve_ask w seq [] none (reason_text w.quote dec.reason) g in
          elim (Bool-cases (not g.queue.action_pairing && is_ask w dec.verdict)) [
            | inr plain ↦ rw (plain, decide_unnamed) ((refl, refl), tt)
            | inl asks ↦ elim (Bool-cases asked.1) [
              | inl granted ↦ rw (asks, decide_unnamed) (rw granted (good, tt))
              | inr denied ↦ rw (asks, decide_unnamed) (rw denied ((refl, refl), tt))
            ]
          ]

      decide_tool_call-Judged : (seq : ℕ) (g : Gate) → Both (decide_tool_call w msg seq line g)
      unfolding decide_tool_call
      decide_tool_call-Judged seq g = elim (Option-cases (canonical_tool_call msg.params)) [
        | inl unseen ↦ rw (unseen, decide_tool_call) (decide_unnamed-Judged seq g)
        | inr ((tool, params), seen) ↦
            rw (seen, decide_tool_call)
              (elim (Bool-cases (is_oversized w tool)) [
                | inl long ↦ rw long ((refl, refl), tt)
                | inr short ↦ rw short (elim (Bool-cases (is_nonempty tool)) [
                  | inl named ↦ rw named (decide_named-Judged seq tool params g)
                  | inr empty ↦ rw empty (decide_unnamed-Judged seq g)
                ])
              ])
      ]

      decide_other-Judged : (g : Gate) → Both (decide_other w msg line g)
      unfolding decide_other
      decide_other-Judged g = elim (Bool-cases (is_nonempty msg.method)) [
        | inr empty ↦ rw (empty, decide_other) (good, tt)
        | inl named ↦ elim (Bool-cases (denies_method g.engine g.agent msg.method)) [
          | inl denied ↦ rw (named, decide_other) (rw denied ((refl, refl), tt))
          | inr passed ↦
              rw (named, decide_other)
                (rw passed (elim (Bool-cases (text_eq msg.method (codes "tools/list"))) [
                  | inl list ↦ rw list (good, own Good msg.id msg.id refl)
                  | inr other ↦ rw other (good, tt)
                ]))
        ]
      ]

      pub decide_canonical-Judged :
          (seq : ℕ) (g : Gate) → Judged Good msg.id (decide_canonical w (ok (msg, line)) seq g).1
      unfolding decide_canonical
      decide_canonical-Judged seq g = elim (Bool-cases (is_oversized w msg.method)) [
        | inl long ↦ rw (long, decide_canonical) ((refl, refl), tt)
        | inr short ↦
            rw (short, decide_canonical)
              (elim (Bool-cases (text_eq msg.method (codes "tools/call"))) [
                | inl call ↦ rw call (decide_tool_call-Judged seq g)
                | inr other ↦ rw other (decide_other-Judged g)
              ])
      ]

-- A line that is no message is rejected under a null ID.
pub decide_failure-Judged :
    {Bytes : Type 0} (w : World Bytes) (Good : Bytes → Type 0) (failure : MessageFailure) (seq : ℕ)
    (g : Gate)
    → Judged Good (some (codes "null")) (decide_canonical w (err failure) seq g).1
unfolding decide_canonical decide_failure
decide_failure-Judged w Good undecodable seq g = ((refl, refl), tt)
decide_failure-Judged w Good ambiguous_key seq g = ((refl, refl), tt)
decide_failure-Judged w Good marshal_failed seq g = ((refl, refl), tt)
decide_failure-Judged w Good decode_failed seq g = ((refl, refl), tt)
