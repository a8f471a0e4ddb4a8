-- ===== src/Proxy/Order.antt =====
-- Without action pairing the rows are written in the order of the requests.
use mathlib.Core.Path.{subst}
use nockguard.Base.{
  ℕ, zero, suc, ◌≤◌, ◌<◌, Bool, true, false, List, [], ◌∷◌, ◌++◌, ◌≡◌, inl, inr, refl, sym, ap, ◌∙◌,
  arith, All, ltb, at, Bool-cases, Option-cases,
}
use nockguard.Audit.Event.{Event}
use nockguard.Proxy.Ranges.{max_seq, is_resolved, mark_resolved}
use nockguard.Proxy.Cards.{stamped}
use nockguard.Proxy.Queue.{
  AuditQueue, new_queue, reserve_audit_sequence, queue_action_id, queue_row, mark_audit_failure,
  emit_row, emit_rows, flush_sequence, advance_frontier, flush_audits, flush_all, settle,
  flush_action, QueueOp, reserve, name_action, queue, resolve, drain, queue_step, run_queue,
}
use nockguard.Proxy.Rows.{emit_row-log, flush_none, flush_some}
use nockguard.Proxy.Frontier.{
  Inv, round, round-Advanced, flush_ready, flush_stuck, resolve_late, resolve_due, settle-Advanced,
  queue_step-Advanced, IsBounded,
}

abbrev pub Log : Type 0
Log = List (ℕ × Event)

abbrev pub UpTo : ℕ → Log → Type 0
UpTo n log = All (λ (r : ℕ × Event). r.0 ≤ n) log

-- No row comes before one of an earlier request.
abbrev pub IsOrdered : Log → Type 0
IsOrdered [] = Unit
IsOrdered (r ∷ log) = All (λ (k : ℕ × Event). r.0 ≤ k.0) log × IsOrdered log

All-snoc {ℓ} :
    {A : Type ℓ} (P : A → Type 0) (xs : List A) (x : A) → All P xs → P x → All P (xs ++ x ∷ [])
All-snoc P [] x h p = (p, tt)
All-snoc P (y ∷ xs) x (h, hs) p = (h, All-snoc P xs x hs p)

IsOrdered-snoc :
    (log : Log) (n : ℕ) (ev : Event) → IsOrdered log → UpTo n log → IsOrdered (log ++ (n, ev) ∷ [])
IsOrdered-snoc [] n ev o u = (tt, tt)
IsOrdered-snoc (r ∷ log) n ev (o, os) (u, us) =
    (All-snoc (λ (k : ℕ × Event). r.0 ≤ k.0) log (n, ev) o u, IsOrdered-snoc log n ev os us)

UpTo-weaken : (m n : ℕ) (log : Log) → m ≤ n → UpTo m log → UpTo n log
UpTo-weaken m n [] h u = tt
UpTo-weaken m n (r ∷ log) h (u, us) = (omega arith, UpTo-weaken m n log h us)

-- The rows are in order, and none is of a request behind `n`.
abbrev Within : ℕ → Log → Type 0
Within n log = IsOrdered log × UpTo n log

module _ (refused : ℕ → Bool) where
  emit_rows-Within :
      (seq : ℕ) (rows : List Event) (q : AuditQueue)
      → Within seq q.log
      → Within seq (emit_rows refused seq rows q).log
  unfolding emit_rows
  emit_rows-Within seq [] q h = h
  emit_rows-Within seq (ev ∷ rows) q (o, u) =
      let row = stamped q.cards seq ev in
      emit_rows-Within seq rows (emit_row refused seq row q) (
        subst (Within seq) (sym (emit_row-log refused seq row q)) (
          IsOrdered-snoc q.log seq row o u,
          All-snoc (λ (r : ℕ × Event). r.0 ≤ seq) q.log (seq, row) u (omega arith),
        ))

  flush_sequence-Within :
      (seq : ℕ) (q : AuditQueue) → Within seq q.log → Within seq (flush_sequence refused seq q).log
  flush_sequence-Within seq q h = elim (Option-cases (at seq q.todo)) [
    | inl absent ↦
        subst (λ (k : AuditQueue). Within seq k.log) (sym (flush_none refused seq q absent)) h
    | inr (rows, there) ↦
        subst (λ (k : AuditQueue). Within seq k.log) (sym (flush_some refused seq rows q there))
          (emit_rows-Within seq rows q h)
  ]

  emit_rows-pairing :
      (seq : ℕ) (rows : List Event) (q : AuditQueue)
      → (emit_rows refused seq rows q).action_pairing ≡ q.action_pairing
  unfolding emit_rows emit_row mark_audit_failure
  emit_rows-pairing seq [] q = refl
  emit_rows-pairing seq (ev ∷ rows) q =
      let row = stamped q.cards seq ev in
      emit_rows-pairing seq rows (emit_row refused seq row q) ∙ ground arith

  flush_sequence-pairing :
      (seq : ℕ) (q : AuditQueue) → (flush_sequence refused seq q).action_pairing ≡ q.action_pairing
  flush_sequence-pairing seq q = elim (Option-cases (at seq q.todo)) [
    | inl absent ↦ ap (λ (k : AuditQueue). k.action_pairing) (flush_none refused seq q absent)
    | inr (rows, there) ↦
        ap (λ (k : AuditQueue). k.action_pairing) (flush_some refused seq rows q there)
        ∙ emit_rows-pairing seq rows q
  ]

  -- The invariant of the log, where no action jumps the queue.
  record InOrder (q : AuditQueue) : Type 0 where
    inv : Inv q
    unpaired : q.action_pairing ≡ false
    within : Within q.next q.log

  round-InOrder :
      (q : AuditQueue)
      → InOrder q
      → is_resolved q.next q.resolved ≡ true
      → InOrder (round refused q)
  unfolding advance_frontier
  round-InOrder q i h =
      let a = round-Advanced refused q i.inv h in
      let (o, u) = flush_sequence-Within q.next q i.within in
      record {
        inv = a.inv;
        unpaired = flush_sequence-pairing q.next q ∙ i.unpaired;
        within = (o, UpTo-weaken q.next (round refused q).next _ a.later u);
      }

  flush_audits-InOrder :
      (fuel : ℕ) (q : AuditQueue) → InOrder q → InOrder (flush_audits refused fuel q)
  unfolding flush_audits
  flush_audits-InOrder zero q i = i
  flush_audits-InOrder (suc fuel) q i = elim (Bool-cases (is_resolved q.next q.resolved)) [
    | inl ready ↦
        subst InOrder (sym (flush_ready refused fuel q ready))
          (flush_audits-InOrder fuel (round refused q) (round-InOrder q i ready))
    | inr stuck ↦ subst InOrder (sym (flush_stuck refused fuel q stuck)) i
  ]

  flush_action_unpaired :
      (seq : ℕ) (q : AuditQueue) → q.action_pairing ≡ false → flush_action refused seq q ≡ q
  unfolding flush_action
  flush_action_unpaired seq q h = rw (h, flush_action)

  settle-InOrder :
      (seq : ℕ) (q : AuditQueue)
      → InOrder q
      → q.next ≤ seq
      → seq < max_seq
      → InOrder (settle refused seq q)
  settle-InOrder seq q i le lt =
      let marked = record q { resolved = mark_resolved seq q.resolved } in
      let same = flush_action_unpaired seq marked i.unpaired in
      record {
        inv = (settle-Advanced refused seq q i.inv le lt).inv;
        unpaired = ap (λ (k : AuditQueue). k.action_pairing) same ∙ i.unpaired;
        within = subst (λ (k : AuditQueue). Within k.next k.log) (sym same) i.within;
      }

  queue_step-InOrder :
      (op : QueueOp) (q : AuditQueue) → InOrder q → IsBounded op → InOrder (queue_step refused op q)
  unfolding queue_step reserve_audit_sequence queue_action_id queue_row flush_all
  queue_step-InOrder reserve q i b = record {
    inv = (queue_step-Advanced refused reserve q i.inv b).inv;
    unpaired = i.unpaired;
    within = i.within;
  }
  queue_step-InOrder (name_action seq action_id) q i b = record {
    inv = (queue_step-Advanced refused (name_action seq action_id) q i.inv b).inv;
    unpaired = i.unpaired;
    within = i.within;
  }
  queue_step-InOrder (queue seq ev) q i b = record {
    inv = (queue_step-Advanced refused (queue seq ev) q i.inv b).inv;
    unpaired = i.unpaired;
    within = i.within;
  }
  queue_step-InOrder (resolve seq) q i b = elim (Bool-cases (ltb seq q.next)) [
    | inl late ↦ subst InOrder (sym (resolve_late refused seq q late)) i
    | inr due ↦ subst InOrder (sym (resolve_due refused seq q due)) (
        flush_audits-InOrder _ (settle refused seq q)
          (settle-InOrder seq q i (ground (arith, due)) b))
  ]
  queue_step-InOrder drain q i b = absurd b

  run_queue-InOrder :
      (ops : List QueueOp) (q : AuditQueue)
      → InOrder q
      → All IsBounded ops
      → InOrder (run_queue refused ops q)
  unfolding run_queue
  run_queue-InOrder [] q i b = i
  run_queue-InOrder (op ∷ ops) q i (b, bs) =
      run_queue-InOrder ops (queue_step refused op q) (queue_step-InOrder op q i b) bs

  -- Without action pairing and until a drain, the rows are written in request order, whatever order
  -- the requests are settled in, below the last number.
  pub run_queue-IsOrdered :
      (ops : List QueueOp)
      → All IsBounded ops
      → IsOrdered (run_queue refused ops (new_queue false)).log
  unfolding new_queue
  run_queue-IsOrdered ops b =
      (run_queue-InOrder ops (new_queue false)
        (record {
          inv = record { spaced = tt; below = omega arith; unended = refl };
          unpaired = refl;
          within = (tt, tt);
        })
        b).within.0
