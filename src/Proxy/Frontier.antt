-- ===== src/Proxy/Frontier.antt =====
-- The frontier of the queue: it only moves on, stops at the first unresolved sequence, and what is
-- queued behind it stays there.
use mathlib.Core.Path.{subst}
use mathlib.Core.List.{append-nil}
use nockguard.Base.{
  ℕ, zero, suc, ◌≤◌, ◌<◌, Bool, true, false, List, [], ◌∷◌, ◌++◌, ◌≡◌, inl, inr, refl, sym, ap, ◌∙◌,
  arith, map, All, ltb, ◌==◌, if◌then◌else◌, at, drop_key, Bool-cases, Option-cases,
}
use nockguard.Audit.Event.{Event}
use nockguard.Proxy.Ranges.{size, max_seq, next_seq, is_resolved, mark_resolved, consume}
use nockguard.Proxy.Spaced.{
  IsSpaced, holds, mark_resolved-holds, is_resolved-holds, consume-holds, size-consume_lt,
  none_of_size,
}
use nockguard.Proxy.Cards.{stamped}
use nockguard.Proxy.Queue.{
  AuditQueue, reserve_audit_sequence, queue_action_id, queue_row, mark_audit_failure, emit_row,
  emit_rows, flush_sequence, advance_frontier, flush_audits, flush_all, resolve_audit, settle,
  new_queue, is_queued_action, flush_action, QueueOp, reserve, name_action, queue, resolve, drain,
  queue_step, run_queue,
}
use nockguard.Proxy.Rows.{entries_of, bare, emit_rows-entries, flush_none, flush_some}

-- The resolved sequences lie at the frontier or behind it, and the last number is not among them.
pub record Inv (q : AuditQueue) : Type 0 where
  pub spaced : IsSpaced q.next q.resolved
  pub below : q.next ≤ max_seq
  pub unended : holds q.resolved max_seq ≡ false

-- What a flushed sequence leaves alone.
pub record Frame (q q' : AuditQueue) : Type 0 where
  pub next : q'.next ≡ q.next
  pub resolved : q'.resolved ≡ q.resolved

Frame-Inv : (q q' : AuditQueue) → Frame q q' → Inv q → Inv q'
Frame-Inv q q' f i = record {
  spaced =
      subst (λ r. IsSpaced q'.next r) (sym f.resolved)
        (subst (λ n. IsSpaced n q.resolved) (sym f.next) i.spaced);
  below = subst (λ n. n ≤ max_seq) (sym f.next) i.below;
  unended = ap (λ r. holds r max_seq) f.resolved ∙ i.unended;
}

-- The operations that a run makes before it drains, on numbers below the last.
abbrev pub IsBounded : QueueOp → Type 0
IsBounded (resolve seq) = seq < max_seq
IsBounded drain = ⊥
IsBounded _ = Unit

module _ (refused : ℕ → Bool) where
  emit_row-Frame : (seq : ℕ) (ev : Event) (q : AuditQueue) → Frame q (emit_row refused seq ev q)
  unfolding emit_row mark_audit_failure
  emit_row-Frame seq ev q = record { next = ground arith; resolved = ground arith }

  emit_rows-Frame :
      (seq : ℕ) (rows : List Event) (q : AuditQueue) → Frame q (emit_rows refused seq rows q)
  unfolding emit_rows
  emit_rows-Frame seq [] q = record { next = refl; resolved = refl }
  emit_rows-Frame seq (ev ∷ rows) q =
      let q' = emit_row refused seq (stamped q.cards seq ev) q in
      let f = emit_row-Frame seq (stamped q.cards seq ev) q in
      let g = emit_rows-Frame seq rows q' in
      record { next = g.next ∙ f.next; resolved = g.resolved ∙ f.resolved }

  pub flush_sequence-Frame : (seq : ℕ) (q : AuditQueue) → Frame q (flush_sequence refused seq q)
  flush_sequence-Frame seq q = elim (Option-cases (at seq q.todo)) [
    | inl absent ↦
        subst (Frame q) (sym (flush_none refused seq q absent))
          (record { next = refl; resolved = refl })
    | inr (rows, there) ↦
        let f = emit_rows-Frame seq rows q in
        subst (Frame q) (sym (flush_some refused seq rows q there))
          (record { next = f.next; resolved = f.resolved })
  ]

  flush_sequence-entries :
      (x seq : ℕ) (q : AuditQueue)
      → (x == seq) ≡ false
      → entries_of x (flush_sequence refused seq q).log ≡ entries_of x q.log
  flush_sequence-entries x seq q other = elim (Option-cases (at seq q.todo)) [
    | inl absent ↦ ap (λ (k : AuditQueue). entries_of x k.log) (flush_none refused seq q absent)
    | inr (rows, there) ↦
        ap (λ (k : AuditQueue). entries_of x k.log) (flush_some refused seq rows q there)
        ∙ emit_rows-entries refused x seq rows q
        ∙ ap (λ b. entries_of x q.log ++ (if b then map bare rows else [])) other
        ∙ append-nil (entries_of x q.log)
  ]

  -- A resolved frontier is not the last number, and moves on by one.
  pub resolved_frontier :
      (q : AuditQueue)
      → Inv q
      → is_resolved q.next q.resolved ≡ true
      → (q.next < max_seq) × (holds q.resolved q.next ≡ true)
  resolved_frontier q i h =
      let member = sym (is_resolved-holds q.next q.next q.resolved i.spaced) ∙ h in
      (
        elim (Bool-cases (q.next == max_seq)) [
          | inl last ↦
              let here : holds q.resolved max_seq ≡ true =
                ap (holds q.resolved) (sym (eq_of_test q.next max_seq last)) ∙ member in
              let gone = i.unended in absurd cc
          | inr more ↦ ground (arith, more, i.below)
        ],
        member,
      )
    where
      eq_of_test : (a b : ℕ) → (a == b) ≡ true → a ≡ b
      eq_of_test a b h = ground arith

  pub advance_frontier-Inv :
      (q : AuditQueue)
      → Inv q
      → q.next < max_seq
      → Inv (advance_frontier refused q) × ((advance_frontier refused q).next ≡ suc q.next)
  unfolding advance_frontier
  advance_frontier-Inv q i lt =
      let (spaced, kept) = consume-holds q.next q.resolved max_seq i.spaced in
      let step : next_seq q.next ≡ suc q.next = omega arith in
      let gone = i.unended in
      (
        record {
          spaced = subst (λ n. IsSpaced n (consume q.next q.resolved)) (sym step) spaced;
          below = omega arith;
          unended = kept ∙ ground (arith, gone);
        },
        step,
      )

  -- One round of the flush.
  abbrev pub round : AuditQueue → AuditQueue
  round q = advance_frontier refused (flush_sequence refused q.next q)

  pub flush_ready :
      (fuel : ℕ) (q : AuditQueue)
      → is_resolved q.next q.resolved ≡ true
      → flush_audits refused (suc fuel) q ≡ flush_audits refused fuel (round q)
  unfolding flush_audits
  flush_ready fuel q h = rw (h, flush_audits)

  pub flush_stuck :
      (fuel : ℕ) (q : AuditQueue)
      → is_resolved q.next q.resolved ≡ false
      → flush_audits refused (suc fuel) q ≡ q
  unfolding flush_audits
  flush_stuck fuel q h = rw (h, flush_audits)

  pub record Advanced (q q' : AuditQueue) : Type 0 where
    pub inv : Inv q'
    pub later : q.next ≤ q'.next
    pub written : (x : ℕ) → x < q.next → entries_of x q'.log ≡ entries_of x q.log

  pub round-Advanced :
      (q : AuditQueue) → Inv q → is_resolved q.next q.resolved ≡ true → Advanced q (round q)
  unfolding advance_frontier
  round-Advanced q i h =
      let q' = flush_sequence refused q.next q in
      let f = flush_sequence-Frame q.next q in
      let (lt, here) = resolved_frontier q i h in
      let (inv, next) =
        advance_frontier-Inv q' (Frame-Inv q q' f i) (subst (λ n. n < max_seq) (sym f.next) lt) in
      let moved : (round q).next ≡ suc q.next = next ∙ ap suc f.next in
      record {
        inv = inv;
        later = omega (arith, moved);
        written = λ x below. flush_sequence-entries x q.next q (ground (arith, below));
      }

  flush_audits-Advanced :
      (fuel : ℕ) (q : AuditQueue) → Inv q → Advanced q (flush_audits refused fuel q)
  unfolding flush_audits
  flush_audits-Advanced zero q i = record {
    inv = i;
    later = omega arith;
    written = λ x below. refl;
  }
  flush_audits-Advanced (suc fuel) q i = elim (Bool-cases (is_resolved q.next q.resolved)) [
    | inl ready ↦
        let a = round-Advanced q i ready in
        let b = flush_audits-Advanced fuel (round q) a.inv in
        subst (Advanced q) (sym (flush_ready fuel q ready)) (record {
          inv = b.inv;
          later = omega (arith, a.later, b.later);
          written = λ x below. b.written x (omega (arith, below, a.later)) ∙ a.written x below;
        })
    | inr stuck ↦
        subst (Advanced q) (sym (flush_stuck fuel q stuck))
          (record { inv = i; later = omega arith; written = λ x below. refl })
  ]

  round-size :
      (q : AuditQueue)
      → Inv q
      → is_resolved q.next q.resolved ≡ true
      → size (round q).resolved < size q.resolved
  unfolding advance_frontier
  round-size q i h =
      let f = flush_sequence-Frame q.next q in
      subst (λ n. size (consume n (flush_sequence refused q.next q).resolved) < size q.resolved)
        (sym f.next)
        (subst (λ r. size (consume q.next r) < size q.resolved) (sym f.resolved)
          (size-consume_lt q.next q.resolved i.spaced h))

  -- The flush ends at a sequence that is not resolved, on the fuel that `flush_all` gives.
  flush_audits-stops :
      (fuel : ℕ) (q : AuditQueue)
      → Inv q
      → size q.resolved ≤ fuel
      → let q' = flush_audits refused fuel q in is_resolved q'.next q'.resolved ≡ false
  unfolding flush_audits
  flush_audits-stops zero q i h = none_of_size q.next q.next q.resolved i.spaced h
  flush_audits-stops (suc fuel) q i h = elim (Bool-cases (is_resolved q.next q.resolved)) [
    | inl ready ↦
        let a = round-Advanced q i ready in
        subst (λ (k : AuditQueue). is_resolved k.next k.resolved ≡ false)
          (sym (flush_ready fuel q ready))
          (flush_audits-stops fuel (round q) a.inv (omega (arith, h, round-size q i ready)))
    | inr stuck ↦
        subst (λ (k : AuditQueue). is_resolved k.next k.resolved ≡ false)
          (sym (flush_stuck fuel q stuck)) stuck
  ]

  mark-Inv :
      (seq : ℕ) (q : AuditQueue)
      → Inv q
      → q.next ≤ seq
      → seq < max_seq
      → Inv (record q { resolved = mark_resolved seq q.resolved })
  mark-Inv seq q i le lt =
      let (spaced, set) =
        mark_resolved-holds q.next seq q.resolved max_seq i.spaced le (omega arith) in
      let gone = i.unended in
      record { spaced = spaced; below = i.below; unended = set ∙ ground (arith, gone) }

  flush_action-Advanced :
      (seq : ℕ) (q : AuditQueue) → Inv q → q.next ≤ seq → Advanced q (flush_action refused seq q)
  unfolding flush_action
  flush_action-Advanced seq q i le =
      let q' = flush_sequence refused seq q in
      let f = flush_sequence-Frame seq q in
      let inv = Frame-Inv q q' f i in
      either (is_queued_action refused q seq)
        (record q' { action_ids = drop_key seq q'.action_ids }) q
        (record {
          inv = record { spaced = inv.spaced; below = inv.below; unended = inv.unended };
          later = omega (arith, f.next);
          written = λ x below. flush_sequence-entries x seq q (ground (arith, below, le));
        })
        (record { inv = i; later = omega arith; written = λ x below. refl })
    where
      either :
          (b : Bool) (q' q'' : AuditQueue)
          → Advanced q q'
          → Advanced q q''
          → Advanced q (if b then q' else q'')
      either true q' q'' h k = h
      either false q' q'' h k = k

  pub settle-Advanced :
      (seq : ℕ) (q : AuditQueue)
      → Inv q
      → q.next ≤ seq
      → seq < max_seq
      → Advanced q (settle refused seq q)
  settle-Advanced seq q i le lt =
      let marked = record q { resolved = mark_resolved seq q.resolved } in
      let a = flush_action-Advanced seq marked (mark-Inv seq q i le lt) le in
      record {
        inv = record { spaced = a.inv.spaced; below = a.inv.below; unended = a.inv.unended };
        later = a.later;
        written = a.written;
      }

  pub resolve_late :
      (seq : ℕ) (q : AuditQueue) → ltb seq q.next ≡ true → resolve_audit refused seq q ≡ q
  unfolding resolve_audit
  resolve_late seq q h = rw (h, resolve_audit)

  pub resolve_due :
      (seq : ℕ) (q : AuditQueue)
      → ltb seq q.next ≡ false
      → resolve_audit refused seq q ≡ flush_all refused (settle refused seq q)
  unfolding resolve_audit
  resolve_due seq q h = rw (h, resolve_audit)

  pub resolve_audit-Advanced :
      (seq : ℕ) (q : AuditQueue) → Inv q → seq < max_seq → Advanced q (resolve_audit refused seq q)
  unfolding flush_all
  resolve_audit-Advanced seq q i lt = elim (Bool-cases (ltb seq q.next)) [
    | inl late ↦
        subst (Advanced q) (sym (resolve_late seq q late))
          (record { inv = i; later = omega arith; written = λ x below. refl })
    | inr due ↦
        let a = settle-Advanced seq q i (ground (arith, due)) lt in
        let b = flush_audits-Advanced _ (settle refused seq q) a.inv in
        subst (Advanced q) (sym (resolve_due seq q due)) (record {
          inv = b.inv;
          later = omega (arith, a.later, b.later);
          written = λ x below. b.written x (omega (arith, below, a.later)) ∙ a.written x below;
        })
  ]

  -- The new frontier is not resolved.
  pub resolve_audit-stops :
      (seq : ℕ) (q : AuditQueue)
      → Inv q
      → q.next ≤ seq
      → seq < max_seq
      → let q' = resolve_audit refused seq q in is_resolved q'.next q'.resolved ≡ false
  unfolding flush_all
  resolve_audit-stops seq q i le lt =
      let a = settle-Advanced seq q i le lt in
      subst (λ (k : AuditQueue). is_resolved k.next k.resolved ≡ false)
        (sym (resolve_due seq q (ground (arith, le))))
        (flush_audits-stops (size (settle refused seq q).resolved) (settle refused seq q) a.inv
          (omega arith))

  pub queue_step-Advanced :
      (op : QueueOp) (q : AuditQueue) → Inv q → IsBounded op → Advanced q (queue_step refused op q)
  unfolding queue_step reserve_audit_sequence queue_action_id queue_row
  queue_step-Advanced reserve q i b = record {
    inv = record { spaced = i.spaced; below = i.below; unended = i.unended };
    later = omega arith;
    written = λ x below. refl;
  }
  queue_step-Advanced (name_action seq action_id) q i b = record {
    inv = record { spaced = i.spaced; below = i.below; unended = i.unended };
    later = omega arith;
    written = λ x below. refl;
  }
  queue_step-Advanced (queue seq ev) q i b = record {
    inv = record { spaced = i.spaced; below = i.below; unended = i.unended };
    later = omega arith;
    written = λ x below. refl;
  }
  queue_step-Advanced (resolve seq) q i b = resolve_audit-Advanced seq q i b
  queue_step-Advanced drain q i b = absurd b

  run_queue-Advanced :
      (ops : List QueueOp) (q : AuditQueue)
      → Inv q
      → All IsBounded ops
      → Advanced q (run_queue refused ops q)
  unfolding run_queue
  run_queue-Advanced [] q i b = record { inv = i; later = omega arith; written = λ x below. refl }
  run_queue-Advanced (op ∷ ops) q i (b, bs) =
      let a = queue_step-Advanced op q i b in
      let c = run_queue-Advanced ops (queue_step refused op q) a.inv bs in
      record {
        inv = c.inv;
        later = omega (arith, a.later, c.later);
        written = λ x below. c.written x (omega (arith, below, a.later)) ∙ a.written x below;
      }

  -- From the start and until it is drained, the ranges of resolved sequences are sorted, apart and not
  -- before the frontier, whatever order requests come in, for numbers below the last.
  pub run_queue-Inv :
      (ops : List QueueOp) (pairing : Bool)
      → All IsBounded ops
      → Inv (run_queue refused ops (new_queue pairing))
  unfolding new_queue
  run_queue-Inv ops pairing b =
      (run_queue-Advanced ops (new_queue pairing)
        (record { spaced = tt; below = omega arith; unended = refl }) b).inv

  -- Where the ranges are in order, a row that is queued for a sequence which the frontier has passed is
  -- not written by any further operations before a drain, on numbers below the last.
  pub behind_frontier_unwritten :
      (x : ℕ) (ev : Event) (ops : List QueueOp) (q : AuditQueue)
      → Inv q
      → x < q.next
      → All IsBounded ops
      → entries_of x (run_queue refused (queue x ev ∷ ops) q).log ≡ entries_of x q.log
  behind_frontier_unwritten x ev ops q i below b =
      (run_queue-Advanced (queue x ev ∷ ops) q i (tt, b)).written x below
