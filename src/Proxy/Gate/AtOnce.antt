-- ===== src/Proxy/Gate/AtOnce.antt =====
-- The rows that are written at once: a decision on a call adds none, and none is taken back.
use nockguard.Base.{
  ℕ, Bool, false, Option, none, List, [], ◌∷◌, ◌++◌, ◌≡◌, inl, inr, refl, ap, ◌∙◌, arith,
  Option-cases, Text, codes, text_eq, suc, count_if, if◌then◌else◌, Result, ok, err,
}
use nockguard.Policy.Types.{Decision}
use nockguard.Audit.Event.{Event}
use nockguard.Proxy.Json.{Fields}
use nockguard.Proxy.Calls.{References, canonical_tool_call}
use nockguard.Proxy.Inject.{ResolvedRule}
use nockguard.Proxy.Gate.State.{Gate, row_of, append_audit_by, append_audit, audit_method}
use nockguard.Proxy.Gate.Types.{
  World, Message, MessageFailure, undecodable, ambiguous_key, marshal_failed, decode_failed,
}
use nockguard.Proxy.Gate.Decide.{
  approve_ask, decide_approval, decide_limit, decide_validation, decide_pin, decide_named,
  decide_tool_call, decide_unnamed, decide_forward, decide_injection, decide_other,
  decide_canonical, note_injected, handle_fail_mode_ask, reject_oversized, decide_failure,
}

append_audit_by-method_rows :
    (seq : ℕ) (tool decision reason : Text) (refs : Option References) (actor : Text) (g : Gate)
    → (append_audit_by seq tool decision reason refs actor g).method_rows ≡ g.method_rows
unfolding append_audit_by
append_audit_by-method_rows seq tool decision reason refs actor g = ground arith

pub append_audit-method_rows :
    (seq : ℕ) (tool decision reason : Text) (refs : Option References) (g : Gate)
    → (append_audit seq tool decision reason refs g).method_rows ≡ g.method_rows
unfolding append_audit
append_audit-method_rows seq tool decision reason refs g =
    append_audit_by-method_rows seq tool decision reason refs [] g

-- How many dispatch rows are among them.
abbrev pub is_dispatch : Event → Bool
is_dispatch ev = text_eq ev.decision (codes "dispatch")

unfoldable pub dispatches : Gate → ℕ
unfolding text_eq
dispatches g = count_if is_dispatch g.method_rows

pub count_if-append_one {ℓ} :
    {A : Type ℓ} (p : A → Bool) (xs : List A) (x : A)
    → count_if p (xs ++ x ∷ []) ≡ (if p x then suc (count_if p xs) else count_if p xs)
count_if-append_one p [] x = ground arith
count_if-append_one p (y ∷ xs) x = ground (arith, count_if-append_one p xs x)

audit_method-dispatches :
    (method decision reason : Text) (g : Gate)
    → text_eq decision (codes "dispatch") ≡ false
    → dispatches (audit_method method decision reason g) ≡ dispatches g
unfolding audit_method dispatches
audit_method-dispatches method decision reason g h =
    ground
      (arith, count_if-append_one is_dispatch g.method_rows (row_of g method decision reason []))

module _ {Bytes : Type 0} (w : World Bytes) where
  approve_ask-method_rows :
      (seq : ℕ) (tool : Text) (refs : Option References) (reason : Text) (g : Gate)
      → (approve_ask w seq tool refs reason g).0.method_rows ≡ g.method_rows
  unfolding approve_ask
  approve_ask-method_rows seq tool refs reason g =
      grind (arith, append_audit_by-method_rows, append_audit-method_rows)

  note_injected-method_rows :
      (seq : ℕ) (tool : Text) (rules : List ResolvedRule) (g : Gate)
      → (note_injected w seq tool rules g).method_rows ≡ g.method_rows
  unfolding note_injected
  note_injected-method_rows seq tool [] g = refl
  note_injected-method_rows seq tool (rr ∷ rest) g =
      let reason = codes "ref=" ++ (rr.rule.ref ++ (codes " arg=" ++ rr.rule.arg)) in
      note_injected-method_rows seq tool rest (append_audit seq tool (codes "inject") reason none g)
      ∙ append_audit-method_rows seq tool (codes "inject") reason none g

  handle_fail_mode_ask-method_rows :
      (seq : ℕ) (tool reason : Text) (g : Gate)
      → (handle_fail_mode_ask w seq tool reason g).0.method_rows ≡ g.method_rows
  unfolding handle_fail_mode_ask
  handle_fail_mode_ask-method_rows seq tool reason g = grind (arith, approve_ask-method_rows)

  decide_forward-method_rows :
      (msg : Message) (seq : ℕ) (tool : Text) (refs : References) (dec : Decision) (params : Fields)
      (g : Gate)
      → (decide_forward w msg seq tool refs dec params g).0.method_rows ≡ g.method_rows
  unfolding decide_forward
  decide_forward-method_rows msg seq tool refs dec params g = grind (
    arith, append_audit_by-method_rows, append_audit-method_rows, handle_fail_mode_ask-method_rows,
  )

  decide_injection-method_rows :
      (msg : Message) (seq : ℕ) (tool : Text) (refs : References) (dec : Decision) (params : Fields)
      (g : Gate)
      → (decide_injection w msg seq tool refs dec params g).0.method_rows ≡ g.method_rows
  unfolding decide_injection
  decide_injection-method_rows msg seq tool refs dec params g = grind (
    arith, append_audit_by-method_rows, append_audit-method_rows, note_injected-method_rows,
    decide_forward-method_rows,
  )

  decide_approval-method_rows :
      (msg : Message) (seq : ℕ) (tool : Text) (refs : References) (dec : Decision) (params : Fields)
      (g : Gate)
      → (decide_approval w msg seq tool refs dec params g).0.method_rows ≡ g.method_rows
  unfolding decide_approval
  decide_approval-method_rows msg seq tool refs dec params g =
      grind (arith, approve_ask-method_rows, decide_injection-method_rows)

  decide_limit-method_rows :
      (msg : Message) (seq : ℕ) (tool : Text) (refs : References) (dec : Decision) (params : Fields)
      (g : Gate)
      → (decide_limit w msg seq tool refs dec params g).0.method_rows ≡ g.method_rows
  unfolding decide_limit
  decide_limit-method_rows msg seq tool refs dec params g =
      grind
        (arith, append_audit_by-method_rows, append_audit-method_rows, decide_approval-method_rows)

  decide_validation-method_rows :
      (msg : Message) (seq : ℕ) (tool : Text) (refs : References) (dec : Decision) (params : Fields)
      (g : Gate)
      → (decide_validation w msg seq tool refs dec params g).0.method_rows ≡ g.method_rows
  unfolding decide_validation
  decide_validation-method_rows msg seq tool refs dec params g =
      grind (arith, append_audit_by-method_rows, append_audit-method_rows, decide_limit-method_rows)

  decide_pin-method_rows :
      (msg : Message) (seq : ℕ) (tool : Text) (refs : References) (dec : Decision) (params : Fields)
      (g : Gate)
      → (decide_pin w msg seq tool refs dec params g).0.method_rows ≡ g.method_rows
  unfolding decide_pin
  decide_pin-method_rows msg seq tool refs dec params g =
      grind (
        arith, append_audit_by-method_rows, append_audit-method_rows, decide_validation-method_rows,
      )

  decide_named-method_rows :
      (msg : Message) (seq : ℕ) (tool : Text) (params : Fields) (g : Gate)
      → (decide_named w msg seq tool params g).0.method_rows ≡ g.method_rows
  unfolding decide_named
  decide_named-method_rows msg seq tool params g =
      grind (arith, append_audit_by-method_rows, append_audit-method_rows, decide_pin-method_rows)

  decide_unnamed-method_rows :
      (msg : Message) (seq : ℕ) (line : Bytes) (g : Gate)
      → (decide_unnamed w msg seq line g).0.method_rows ≡ g.method_rows
  unfolding decide_unnamed
  decide_unnamed-method_rows msg seq line g =
      grind (arith, append_audit_by-method_rows, append_audit-method_rows, approve_ask-method_rows)

  pub reject_oversized-dispatches :
      (kind : Text) (id : Option Text) (name : Text) (g : Gate)
      → dispatches (reject_oversized w kind id name g).0 ≡ dispatches g
  unfolding text_eq
  reject_oversized-dispatches kind id name g =
      audit_method-dispatches (w.valid_prefix name) (codes "method-deny")
        (w.oversize_reason kind name) g refl

  decide_unnamed-dispatches :
      (msg : Message) (seq : ℕ) (line : Bytes) (g : Gate)
      → dispatches (decide_unnamed w msg seq line g).0 ≡ dispatches g
  unfolding dispatches
  decide_unnamed-dispatches msg seq line g =
      ap (count_if is_dispatch) (decide_unnamed-method_rows msg seq line g)

  decide_named-dispatches :
      (msg : Message) (seq : ℕ) (tool : Text) (params : Fields) (g : Gate)
      → dispatches (decide_named w msg seq tool params g).0 ≡ dispatches g
  unfolding dispatches
  decide_named-dispatches msg seq tool params g =
      ap (count_if is_dispatch) (decide_named-method_rows msg seq tool params g)

  decide_tool_call-dispatches :
      (msg : Message) (seq : ℕ) (line : Bytes) (g : Gate)
      → dispatches (decide_tool_call w msg seq line g).0 ≡ dispatches g
  unfolding decide_tool_call
  decide_tool_call-dispatches msg seq line g =
      elim (Option-cases (canonical_tool_call msg.params)) [
        | inl unseen ↦ rw (unseen, decide_tool_call) (decide_unnamed-dispatches msg seq line g)
        | inr ((tool, params), seen) ↦
            rw (seen, decide_tool_call)
              (ground (
                arith,
                decide_unnamed-dispatches msg seq line g,
                decide_named-dispatches msg seq tool params g,
                reject_oversized-dispatches (codes "tool") msg.id tool g,
              ))
      ]

  decide_other-dispatches :
      (msg : Message) (line : Bytes) (g : Gate)
      → dispatches (decide_other w msg line g).0 ≡ dispatches g
  unfolding decide_other text_eq
  decide_other-dispatches msg line g = ground (
    arith,
    audit_method-dispatches msg.method (codes "method-deny") (codes "deny-method") g refl,
    audit_method-dispatches msg.method (codes "method-allow") (codes "method-pass-through") g refl,
  )

  decide_failure-dispatches :
      (failure : MessageFailure) (seq : ℕ) (g : Gate)
      → dispatches (decide_failure w failure seq g).0 ≡ dispatches g
  unfolding decide_failure dispatches
  decide_failure-dispatches undecodable seq g = refl
  decide_failure-dispatches ambiguous_key seq g = refl
  decide_failure-dispatches marshal_failed seq g =
      ap (count_if is_dispatch)
        (handle_fail_mode_ask-method_rows seq [] (codes "canonical-marshal-failed") g)
  decide_failure-dispatches decode_failed seq g = refl

  pub decide_canonical-dispatches :
      (m : Result MessageFailure (Message × Bytes)) (seq : ℕ) (g : Gate)
      → dispatches (decide_canonical w m seq g).0 ≡ dispatches g
  unfolding decide_canonical
  decide_canonical-dispatches (err failure) seq g = decide_failure-dispatches failure seq g
  decide_canonical-dispatches (ok (msg, line)) seq g = ground (
    arith,
    decide_tool_call-dispatches msg seq line g,
    decide_other-dispatches msg line g,
    reject_oversized-dispatches (codes "method") msg.id msg.method g,
  )
