-- ===== src/Proxy/Rows.antt =====
-- The queue loses, repeats and reorders no row of a request.
use mathlib.Core.List.{append-nil, append_assoc}
use nockguard.Base.{
  ℕ, zero, suc, Bool, true, false, ◌&&◌, none, some, List, [], ◌∷◌, ◌++◌, ◌≡◌, inl, inr, refl, sym,
  ap, ◌∙◌, arith, map, ltb, ◌==◌, if◌then◌else◌, Table, at, drop_key, at-put, at-drop_key, pos,
  is_positive, Bool-cases, Option-cases,
}
use nockguard.Audit.Event.{Event}
use nockguard.Proxy.Ranges.{is_resolved, mark_resolved}
use nockguard.Proxy.Cards.{Cards, stamped, latest_card, is_zero}
use nockguard.Proxy.Queue.{
  AuditQueue, todo_at, reserve_audit_sequence, queue_action_id, queue_row, mark_audit_failure,
  emit_row, emit_rows, flush_sequence, advance_frontier, flush_audits, flush_all, resolve_audit,
  drain_audits, is_queued_action, flush_action, settle, QueueOp, reserve, name_action, queue,
  resolve, drain, queue_step, run_queue,
}

-- A row before its card is stamped.
abbrev pub bare : Event → Event
bare ev = record ev { nock_id = pos 0 }

-- The rows of one request in the log.
abbrev pub entries_of : ℕ → List (ℕ × Event) → List Event
entries_of x [] = []
entries_of x ((seq, ev) ∷ log) =
    let rest = entries_of x log in if x == seq then bare ev ∷ rest else rest

-- The rows of one request, written and waiting.
abbrev pub rows_of : AuditQueue → ℕ → List Event
rows_of q x = entries_of x q.log ++ map bare (todo_at q x)

pub entries_of-append :
    (x : ℕ) (log log' : List (ℕ × Event))
    → entries_of x (log ++ log') ≡ entries_of x log ++ entries_of x log'
entries_of-append x [] log' = refl
entries_of-append x ((seq, ev) ∷ log) log' = ground (arith, entries_of-append x log log')

bare-stamped : (cards : Cards) (seq : ℕ) (ev : Event) → bare (stamped cards seq ev) ≡ bare ev
unfolding stamped
bare-stamped cards seq ev =
    elim (Bool-cases (is_zero ev.nock_id && is_positive (latest_card seq cards))) [
      | inl yes_stamp ↦ rw yes_stamp
      | inr no_stamp ↦ rw no_stamp
    ]

-- The rows of one request out of a flushed sequence.
abbrev share : ℕ → ℕ → List Event → List Event
share x seq rows = if x == seq then map bare rows else []

-- The rows that operations queue for a request.
abbrev pub queued : ℕ → List QueueOp → List Event
queued x [] = []
queued x (queue seq ev ∷ ops) = let rest = queued x ops in if x == seq then bare ev ∷ rest else rest
queued x (_ ∷ ops) = queued x ops

bare-append :
    (x seq : ℕ) (ev : Event) (rows : List Event)
    → map bare (if x == seq then rows ++ ev ∷ [] else rows)
      ≡ map bare rows ++ queued x (queue seq ev ∷ [])
bare-append x seq ev [] = ground arith
bare-append x seq ev (row ∷ rows) = ground (arith, bare-append x seq ev rows)

todo_at-queue_row :
    (x seq : ℕ) (ev : Event) (q : AuditQueue)
    → todo_at (queue_row seq ev q) x ≡ (if x == seq then todo_at q x ++ ev ∷ [] else todo_at q x)
unfolding queue_row
todo_at-queue_row x seq ev q = elim (Bool-cases (x == seq)) [
  | inl same ↦
      let eq : x ≡ seq = ground (arith, same) in
      let new = todo_at q seq ++ ev ∷ [] in
      ap (λ o. elim o [ none ↦ [] | some r ↦ r ])
        (at-put x seq new q.todo ∙ ap (λ b. if b then some new else at x q.todo) same)
      ∙ ap (λ k. todo_at q k ++ ev ∷ []) (sym eq)
      ∙ ap (λ b. if b then todo_at q x ++ ev ∷ [] else todo_at q x) (sym same)
  | inr other ↦
      let new = todo_at q seq ++ ev ∷ [] in
      ap (λ o. elim o [ none ↦ [] | some r ↦ r ])
        (at-put x seq new q.todo ∙ ap (λ b. if b then some new else at x q.todo) other)
      ∙ ap (λ b. if b then todo_at q x ++ ev ∷ [] else todo_at q x) (sym other)
]

share-nil : (x seq : ℕ) → share x seq [] ≡ []
share-nil x seq = ground arith

share-cons :
    (x seq : ℕ) (ev : Event) (rows : List Event)
    → share x seq (ev ∷ []) ++ share x seq rows ≡ share x seq (ev ∷ rows)
share-cons x seq ev rows = ground arith

either-rows :
    (b : Bool) (q q' : AuditQueue) (x : ℕ)
    → rows_of q x ≡ rows_of q' x
    → rows_of (if b then q else q') x ≡ rows_of q' x
either-rows true q q' x h = h
either-rows false q q' x h = refl

module _ (refused : ℕ → Bool) where
  pub emit_row-log :
      (seq : ℕ) (ev : Event) (q : AuditQueue)
      → (emit_row refused seq ev q).log ≡ q.log ++ (seq, ev) ∷ []
  unfolding emit_row mark_audit_failure
  emit_row-log seq ev q = ground arith

  emit_row-todo :
      (seq : ℕ) (ev : Event) (q : AuditQueue) → (emit_row refused seq ev q).todo ≡ q.todo
  unfolding emit_row mark_audit_failure
  emit_row-todo seq ev q = ground arith

  pub emit_rows-todo :
      (seq : ℕ) (rows : List Event) (q : AuditQueue) → (emit_rows refused seq rows q).todo ≡ q.todo
  unfolding emit_rows
  emit_rows-todo seq [] q = refl
  emit_rows-todo seq (ev ∷ rows) q =
      emit_rows-todo seq rows (emit_row refused seq (stamped q.cards seq ev) q)
      ∙ emit_row-todo seq (stamped q.cards seq ev) q

  emit_row-entries :
      (x seq : ℕ) (ev : Event) (q : AuditQueue)
      → entries_of x (emit_row refused seq (stamped q.cards seq ev) q).log
        ≡ entries_of x q.log ++ share x seq (ev ∷ [])
  emit_row-entries x seq ev q =
      ap (entries_of x) (emit_row-log seq (stamped q.cards seq ev) q)
      ∙ entries_of-append x q.log ((seq, stamped q.cards seq ev) ∷ [])
      ∙ ap (λ t. entries_of x q.log ++ (if x == seq then t ∷ [] else []))
          (bare-stamped q.cards seq ev)

  pub emit_rows-entries :
      (x seq : ℕ) (rows : List Event) (q : AuditQueue)
      → entries_of x (emit_rows refused seq rows q).log ≡ entries_of x q.log ++ share x seq rows
  unfolding emit_rows
  emit_rows-entries x seq [] q =
      sym (ap (λ t. entries_of x q.log ++ t) (share-nil x seq) ∙ append-nil (entries_of x q.log))
  emit_rows-entries x seq (ev ∷ rows) q =
      let q' = emit_row refused seq (stamped q.cards seq ev) q in
      emit_rows-entries x seq rows q'
      ∙ ap (λ t. t ++ share x seq rows) (emit_row-entries x seq ev q)
      ∙ append_assoc (entries_of x q.log) (share x seq (ev ∷ [])) (share x seq rows)
      ∙ ap (λ t. entries_of x q.log ++ t) (share-cons x seq ev rows)

  pub flush_none :
      (seq : ℕ) (q : AuditQueue) → at seq q.todo ≡ none → flush_sequence refused seq q ≡ q
  unfolding flush_sequence
  flush_none seq q h = rw (h, flush_sequence)

  pub flush_some :
      (seq : ℕ) (rows : List Event) (q : AuditQueue)
      → at seq q.todo ≡ some rows
      → flush_sequence refused seq q
        ≡ (let q' = emit_rows refused seq rows q in record q' { todo = drop_key seq q'.todo })
  unfolding flush_sequence
  flush_some seq rows q h = rw (h, flush_sequence)

  todo_at-drop_key :
      (x seq : ℕ) (t : Table (List Event)) (rows : List Event)
      → at seq t ≡ some rows
      → share x seq rows ++ map bare (elim (at x (drop_key seq t)) [ none ↦ [] | some r ↦ r ])
        ≡ map bare (elim (at x t) [ none ↦ [] | some r ↦ r ])
  todo_at-drop_key x seq t rows h = elim (Bool-cases (x == seq)) [
    | inl same ↦
        let eq : x ≡ seq = ground (arith, same) in
        let here : at x t ≡ some rows = ap (λ k. at k t) eq ∙ h in
        let gone : at x (drop_key seq t) ≡ none =
          at-drop_key x seq t ∙ ap (λ b. if b then none else at x t) same in
        rw (same, here, gone) (append-nil (map bare rows))
    | inr other ↦
        let kept : at x (drop_key seq t) ≡ at x t =
          at-drop_key x seq t ∙ ap (λ b. if b then none else at x t) other in
        rw (other, kept) refl
  ]

  flush_sequence-rows :
      (x seq : ℕ) (q : AuditQueue) → rows_of (flush_sequence refused seq q) x ≡ rows_of q x
  flush_sequence-rows x seq q = elim (Option-cases (at seq q.todo)) [
    | inl absent ↦ ap (λ k. rows_of k x) (flush_none seq q absent)
    | inr (rows, there) ↦
        let q' = emit_rows refused seq rows q in
        let left = entries_of x q.log in
        ap (λ k. rows_of k x) (flush_some seq rows q there)
        ∙ ap
            (λ t.
              entries_of x q'.log
              ++ map bare (elim (at x (drop_key seq t)) [ none ↦ [] | some r ↦ r ]))
            (emit_rows-todo seq rows q)
        ∙ ap (λ t. t ++ map bare (elim (at x (drop_key seq q.todo)) [ none ↦ [] | some r ↦ r ]))
            (emit_rows-entries x seq rows q)
        ∙ append_assoc left (share x seq rows)
            (map bare (elim (at x (drop_key seq q.todo)) [ none ↦ [] | some r ↦ r ]))
        ∙ ap (λ t. left ++ t) (todo_at-drop_key x seq q.todo rows there)
  ]

  advance_frontier-rows :
      (x : ℕ) (q : AuditQueue) → rows_of (advance_frontier refused q) x ≡ rows_of q x
  unfolding advance_frontier
  advance_frontier-rows x q = refl

  flush_audits-rows :
      (fuel x : ℕ) (q : AuditQueue) → rows_of (flush_audits refused fuel q) x ≡ rows_of q x
  unfolding flush_audits
  flush_audits-rows zero x q = refl
  flush_audits-rows (suc fuel) x q =
      let q' = flush_sequence refused q.next q in
      let rest =
        flush_audits-rows fuel x (advance_frontier refused q')
        ∙ advance_frontier-rows x q'
        ∙ flush_sequence-rows x q.next q in
      either-rows (is_resolved q.next q.resolved)
        (flush_audits refused fuel (advance_frontier refused q')) q x rest

  flush_all-rows : (x : ℕ) (q : AuditQueue) → rows_of (flush_all refused q) x ≡ rows_of q x
  unfolding flush_all
  flush_all-rows x q = flush_audits-rows _ x q

  flush_action-rows :
      (x seq : ℕ) (q : AuditQueue) → rows_of (flush_action refused seq q) x ≡ rows_of q x
  unfolding flush_action
  flush_action-rows x seq q =
      let flushed = flush_sequence refused seq q in
      either-rows (is_queued_action refused q seq)
        (record flushed { action_ids = drop_key seq flushed.action_ids }) q x
        (flush_sequence-rows x seq q)

  pub resolve_audit-rows :
      (x seq : ℕ) (q : AuditQueue) → rows_of (resolve_audit refused seq q) x ≡ rows_of q x
  unfolding resolve_audit
  resolve_audit-rows x seq q =
      let marked = record q { resolved = mark_resolved seq q.resolved } in
      skipped (ltb seq q.next) q (flush_all refused (settle refused seq q))
        (flush_all-rows x (settle refused seq q) ∙ flush_action-rows x seq marked)
    where
      skipped :
          (b : Bool) (q q' : AuditQueue)
          → rows_of q' x ≡ rows_of q x
          → rows_of (if b then q else q') x ≡ rows_of q x
      skipped true q q' h = refl
      skipped false q q' h = h

  drain_audits-rows : (x : ℕ) (q : AuditQueue) → rows_of (drain_audits refused q) x ≡ rows_of q x
  unfolding drain_audits
  drain_audits-rows x q = flush_all-rows x _

  pub queue_step-rows :
      (x : ℕ) (op : QueueOp) (q : AuditQueue)
      → rows_of (queue_step refused op q) x ≡ rows_of q x ++ queued x (op ∷ [])
  unfolding queue_step reserve_audit_sequence queue_action_id queue_row
  queue_step-rows x reserve q = sym (append-nil (rows_of q x))
  queue_step-rows x (name_action seq action_id) q = sym (append-nil (rows_of q x))
  queue_step-rows x (queue seq ev) q =
      ap (λ t. entries_of x q.log ++ map bare t) (todo_at-queue_row x seq ev q)
      ∙ ap (λ t. entries_of x q.log ++ t) (bare-append x seq ev (todo_at q x))
      ∙ sym (
          append_assoc (entries_of x q.log) (map bare (todo_at q x)) (queued x (queue seq ev ∷ [])))
  queue_step-rows x (resolve seq) q = resolve_audit-rows x seq q ∙ sym (append-nil (rows_of q x))
  queue_step-rows x drain q = drain_audits-rows x q ∙ sym (append-nil (rows_of q x))

  queued-cons :
      (x : ℕ) (op : QueueOp) (ops : List QueueOp)
      → queued x (op ∷ ops) ≡ queued x (op ∷ []) ++ queued x ops
  queued-cons x reserve ops = refl
  queued-cons x (name_action seq action_id) ops = refl
  queued-cons x (queue seq ev) ops = ground arith
  queued-cons x (resolve seq) ops = refl
  queued-cons x drain ops = refl

  -- Whatever order requests reserve, queue, resolve and drain in, and whether or not the writer
  -- refuses rows: what was queued for a request is what was handed to the writer for it and then what
  -- still waits, in the order of queueing. Rows are compared without the card that is stamped.
  pub run_queue_rows :
      (x : ℕ) (ops : List QueueOp) (q : AuditQueue)
      → rows_of (run_queue refused ops q) x ≡ rows_of q x ++ queued x ops
  unfolding run_queue
  run_queue_rows x [] q = sym (append-nil (rows_of q x))
  run_queue_rows x (op ∷ ops) q =
      run_queue_rows x ops (queue_step refused op q)
      ∙ ap (λ t. t ++ queued x ops) (queue_step-rows x op q)
      ∙ append_assoc (rows_of q x) (queued x (op ∷ [])) (queued x ops)
      ∙ ap (λ t. rows_of q x ++ t) (sym (queued-cons x op ops))
