-- ===== src/Proxy/Grown.antt =====
-- No operation takes a row back that the writer was called with, of internal/proxy/stdio.go.
use nockguard.Base.{
  ℕ, zero, suc, ◌≤◌, Bool, true, false, Option, List, [], ◌∷◌, inl, inr, sym, ap, ◌∙◌, arith,
  length, length-append, Text, at, if◌then◌else◌, Option-cases, Bool-cases, drop_key, ltb, put,
  ◌++◌,
}
use mathlib.Core.Path.{subst}
use nockguard.Audit.Event.{Event}
use nockguard.Proxy.Ranges.{is_resolved, mark_resolved}
use nockguard.Proxy.Cards.{stamped}
use nockguard.Proxy.Queue.{
  AuditQueue, todo_at, mark_audit_failure, emit_row, emit_rows, flush_sequence, advance_frontier,
  flush_audits, flush_all, flush_action, is_queued_action, settle, resolve_audit,
}
use nockguard.Proxy.Actions.{
  Observation, PendingCard, write_row, append_action_observation, observe_action,
}
use nockguard.Proxy.Rows.{emit_row-log, flush_none, flush_some}
use nockguard.Proxy.Frontier.{round, resolve_late, resolve_due}
use nockguard.Proxy.Gate.State.{Gate}

abbrev pub logged : AuditQueue → ℕ
logged q = length q.log

grown_if :
    (b : Bool) (n : ℕ) (q q' : AuditQueue)
    → n ≤ logged q
    → n ≤ logged q'
    → n ≤ logged (if b then q else q')
grown_if true n q q' h k = h
grown_if false n q q' h k = k

module _ (refused : ℕ → Bool) where
  emit_row-grows :
      (seq : ℕ) (ev : Event) (q : AuditQueue) → logged q ≤ logged (emit_row refused seq ev q)
  emit_row-grows seq ev q =
      let n = ap length (emit_row-log refused seq ev q) ∙ length-append q.log ((seq, ev) ∷ []) in
      omega (arith, n)

  emit_rows-grows :
      (seq : ℕ) (rows : List Event) (q : AuditQueue)
      → logged q ≤ logged (emit_rows refused seq rows q)
  unfolding emit_rows
  emit_rows-grows seq [] q = omega arith
  emit_rows-grows seq (ev ∷ rows) q =
      let row = stamped q.cards seq ev in
      omega (arith, emit_row-grows seq row q, emit_rows-grows seq rows (emit_row refused seq row q))

  flush_sequence-grows :
      (seq : ℕ) (q : AuditQueue) → logged q ≤ logged (flush_sequence refused seq q)
  flush_sequence-grows seq q = elim (Option-cases (at seq q.todo)) [
    | inl absent ↦
        subst (λ k. logged q ≤ logged k) (sym (flush_none refused seq q absent)) (omega arith)
    | inr (rows, there) ↦
        subst (λ k. logged q ≤ logged k) (sym (flush_some refused seq rows q there))
          (emit_rows-grows seq rows q)
  ]

  round-grows : (q : AuditQueue) → logged q ≤ logged (round refused q)
  unfolding advance_frontier
  round-grows q = flush_sequence-grows q.next q

  flush_audits-grows : (fuel : ℕ) (q : AuditQueue) → logged q ≤ logged (flush_audits refused fuel q)
  unfolding flush_audits
  flush_audits-grows zero q = omega arith
  flush_audits-grows (suc fuel) q =
      grown_if (is_resolved q.next q.resolved) (logged q)
        (flush_audits refused fuel (round refused q)) q
        (omega (arith, round-grows q, flush_audits-grows fuel (round refused q))) (omega arith)

  flush_all-grows : (q : AuditQueue) → logged q ≤ logged (flush_all refused q)
  unfolding flush_all
  flush_all-grows q = flush_audits-grows _ q

  settle-grows : (seq : ℕ) (q : AuditQueue) → logged q ≤ logged (settle refused seq q)
  unfolding flush_action
  settle-grows seq q =
      let marked = record q { resolved = mark_resolved seq q.resolved } in
      let flushed = flush_sequence refused seq marked in
      grown_if (is_queued_action refused marked seq) (logged q)
        (record flushed { action_ids = drop_key seq flushed.action_ids }) marked
        (flush_sequence-grows seq marked) (omega arith)

  pub resolve_audit-grows :
      (seq : ℕ) (q : AuditQueue) → logged q ≤ logged (resolve_audit refused seq q)
  resolve_audit-grows seq q = elim (Bool-cases (ltb seq q.next)) [
    | inl late ↦
        subst (λ k. logged q ≤ logged k) (sym (resolve_late refused seq q late)) (omega arith)
    | inr due ↦
        subst (λ k. logged q ≤ logged k) (sym (resolve_due refused seq q due))
          (omega (arith, settle-grows seq q, flush_all-grows (settle refused seq q)))
  ]

  module _ (required : Bool) (latched : ℕ → Bool) where
    write_row-grows :
        (seq : ℕ) (ev : Event) (q : AuditQueue)
        → logged q ≤ logged (write_row refused required latched seq ev q).0
    unfolding write_row mark_audit_failure
    write_row-grows seq ev q =
        let n = length-append q.log ((seq, ev) ∷ []) in
        let queued = record q { todo = put seq (todo_at q seq ++ ev ∷ []) q.todo } in
        ground (arith, n, resolve_audit-grows seq queued)

    pub observe_action-grows :
        (o : Observation) (cause class : Text) (flag : Option Bool) (card : PendingCard) (g : Gate)
        → logged g.queue
          ≤ logged (observe_action refused required latched o cause class flag card g).0.queue
    unfolding observe_action append_action_observation
    observe_action-grows o cause class flag card g = grind (arith, write_row-grows)
