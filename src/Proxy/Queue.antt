-- ===== src/Proxy/Queue.antt =====
-- The queue that puts audit rows into request order, of internal/proxy/stdio.go. `auditMutex` makes
-- each operation one step. The log is what `recordAudit` was called with, each row with its request
-- sequence; whether the writer refuses the n-th row is a function given by the environment.
use nockguard.Base.{
  zero, ℕ, suc, Bool, true, false, ◌&&◌, ◌||◌, none, some, List, [], ◌∷◌, ◌++◌, length, ltb,
  if◌then◌else◌, Text, Table, at, put, drop_key, is_nonempty,
}
use nockguard.Audit.Event.{Event}
use nockguard.Proxy.Ranges.{SeqRange, size, next_seq, mark_resolved, is_resolved, consume}
use nockguard.Proxy.Cards.{Cards, stamped, prune}

pub record AuditQueue : Type 0 where
  pub seq : ℕ
  pub next : ℕ
  pub todo : Table (List Event)
  pub resolved : List SeqRange
  pub pending : Table (Unit {0})
  pub failed : Table (Unit {0})
  pub action_ids : Table Text
  pub cards : Cards
  pub action_pairing : Bool
  pub log : List (ℕ × Event)

unfoldable pub new_queue : Bool → AuditQueue
new_queue action_pairing = record {
  seq = 0;
  next = 0;
  todo = [];
  resolved = [];
  pending = [];
  failed = [];
  action_ids = [];
  cards = [];
  action_pairing = action_pairing;
  log = [];
}

abbrev pub keys {ℓ} : {V : Type ℓ} → Table V → List ℕ
keys [] = []
keys ((k, v) ∷ t) = k ∷ keys t

abbrev pub todo_at : AuditQueue → ℕ → List Event
todo_at q seq = elim (at seq q.todo) [ none ↦ [] | some rows ↦ rows ]

unfoldable pub reserve_audit_sequence : AuditQueue → AuditQueue × ℕ
reserve_audit_sequence q =
    (record q { seq = next_seq q.seq; pending = put q.seq tt q.pending }, q.seq)

unfoldable pub queue_action_id : ℕ → Text → AuditQueue → AuditQueue
queue_action_id seq action_id q = record q { action_ids = put seq action_id q.action_ids }

-- The queue's part of `appendAuditWithApprovalActor`.
unfoldable pub queue_row : ℕ → Event → AuditQueue → AuditQueue
queue_row seq ev q = record q { todo = put seq (todo_at q seq ++ ev ∷ []) q.todo }

unfoldable pub mark_audit_failure : ℕ → AuditQueue → AuditQueue
mark_audit_failure seq q = record q { failed = put seq tt q.failed }

unfoldable pub clear_audit_failure : ℕ → AuditQueue → AuditQueue
clear_audit_failure seq q = record q { failed = drop_key seq q.failed }

-- The operations that requests interleave.
pub data QueueOp : Type 0 where
  reserve : QueueOp
  name_action : ℕ → Text → QueueOp
  queue : ℕ → Event → QueueOp
  resolve : ℕ → QueueOp
  drain : QueueOp

module _ (refused : ℕ → Bool) where
  -- `recordAudit` of one row, and the mark of a failed action row.
  unfoldable pub emit_row : ℕ → Event → AuditQueue → AuditQueue
  unfolding mark_audit_failure
  emit_row seq ev q =
      let q' = record q { log = q.log ++ (seq, ev) ∷ [] } in
      if refused (length q.log) && is_nonempty ev.action_id then mark_audit_failure seq q' else q'

  unfoldable pub emit_rows : ℕ → List Event → AuditQueue → AuditQueue
  emit_rows seq [] q = q
  emit_rows seq (ev ∷ rows) q = emit_rows seq rows (emit_row seq (stamped q.cards seq ev) q)

  unfoldable pub flush_sequence : ℕ → AuditQueue → AuditQueue
  flush_sequence seq q = elim (at seq q.todo) [
    | none ↦ q
    | some rows ↦ let q' = emit_rows seq rows q in record q' { todo = drop_key seq q'.todo }
  ]

  abbrev pub prune_cards : AuditQueue → AuditQueue
  prune_cards q = record q { cards = prune (keys q.pending ++ keys q.todo) q.cards }

  unfoldable pub advance_frontier : AuditQueue → AuditQueue
  advance_frontier q = prune_cards (record q {
    resolved = consume q.next q.resolved;
    pending = drop_key q.next q.pending;
    action_ids = drop_key q.next q.action_ids;
    next = next_seq q.next;
  })

  -- The loop of `flushAuditsLocked`, on fuel.
  unfoldable pub flush_audits : ℕ → AuditQueue → AuditQueue
  flush_audits zero q = q
  flush_audits (suc fuel) q =
      let rest = flush_audits fuel (advance_frontier (flush_sequence q.next q)) in
      if is_resolved q.next q.resolved then rest else q

  -- As many rounds as sequences are resolved.
  unfoldable pub flush_all : AuditQueue → AuditQueue
  flush_all q = flush_audits (size q.resolved) q

  abbrev pub is_queued_action : AuditQueue → ℕ → Bool
  is_queued_action q seq =
      q.action_pairing && elim (at seq q.action_ids) [ none ↦ false | some t ↦ is_nonempty t ]

  -- An action's rows do not wait for earlier requests.
  unfoldable pub flush_action : ℕ → AuditQueue → AuditQueue
  flush_action seq q =
      let flushed = flush_sequence seq q in
      if is_queued_action q seq
      then record flushed { action_ids = drop_key seq flushed.action_ids }
      else q

  -- What `resolveAudit` does before the flush.
  abbrev pub settle : ℕ → AuditQueue → AuditQueue
  settle seq q =
      let acted = flush_action seq (record q { resolved = mark_resolved seq q.resolved }) in
      prune_cards (record acted { pending = drop_key seq acted.pending })

  unfoldable pub resolve_audit : ℕ → AuditQueue → AuditQueue
  resolve_audit seq q = if ltb seq q.next then q else flush_all (settle seq q)

  -- The two loops of `drainAudits`.
  unfoldable pub mark_all : List ℕ → List SeqRange → List SeqRange
  mark_all [] ranges = ranges
  mark_all (seq ∷ seqs) ranges =
      mark_all seqs (if is_resolved seq ranges then ranges else mark_resolved seq ranges)

  unfoldable pub drain_audits : AuditQueue → AuditQueue
  drain_audits q =
      flush_all
        (record q { resolved = mark_all (keys q.pending) (mark_all (keys q.todo) q.resolved) })

  unfoldable pub queue_step : QueueOp → AuditQueue → AuditQueue
  queue_step reserve q = (reserve_audit_sequence q).0
  queue_step (name_action seq action_id) q = queue_action_id seq action_id q
  queue_step (queue seq ev) q = queue_row seq ev q
  queue_step (resolve seq) q = resolve_audit seq q
  queue_step drain q = drain_audits q

  unfoldable pub run_queue : List QueueOp → AuditQueue → AuditQueue
  run_queue [] q = q
  run_queue (op ∷ ops) q = run_queue ops (queue_step op q)

-- `auditSequenceDurable`, for a writer that has not failed.
unfoldable pub is_durable : ℕ → Bool → AuditQueue → Bool
is_durable seq writer_ok q =
    let flushed =
      ltb seq q.next
      || (is_resolved seq q.resolved && elim (at seq q.todo) [ none ↦ true | some rows ↦ false ]) in
    elim (at seq q.failed) [ none ↦ flushed && writer_ok | some u ↦ false ]
