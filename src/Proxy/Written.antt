-- ===== src/Proxy/Written.antt =====
-- The rows of an action that are written after its decision, `appendActionObservation` of
-- internal/proxy/stdio.go: queued until the sequence is settled, at once from then on.
use nockguard.Base.{
  ℕ, zero, suc, ◌≤◌, ◌<◌, Bool, true, false, ◌||◌, Option, none, some, List, [], ◌∷◌, ◌++◌, ◌≡◌,
  ◌⊎◌, inl, inr, sym, ap, ◌∙◌, arith, map, length, ltb, ◌==◌, if◌then◌else◌, at, Bool-cases,
}
use mathlib.Core.Path.{subst}
use mathlib.Core.List.{append-nil}
use nockguard.Audit.Event.{Event}
use nockguard.Proxy.Ranges.{max_seq, is_resolved, mark_resolved, consume}
use nockguard.Proxy.Spaced.{holds, mark_resolved-holds, is_resolved-holds, consume-holds}
use nockguard.Proxy.Queue.{
  AuditQueue, todo_at, queue_row, mark_audit_failure, flush_sequence, advance_frontier,
  flush_audits, flush_all, flush_action, is_queued_action, settle, resolve_audit, queue, queue_step,
}
use nockguard.Proxy.Actions.{write_row}
use nockguard.Proxy.Rows.{
  bare, entries_of, entries_of-append, rows_of, queue_step-rows, resolve_audit-rows,
}
use nockguard.Proxy.Frontier.{
  Inv, flush_sequence-Frame, round, round-Advanced, flush_ready, flush_stuck, settle-Advanced,
  resolve_due, resolve_audit-Advanced,
}
use nockguard.Proxy.Flushed.{round-next, flush_sequence-todo, flush_audits-absent}

-- The frontier has passed the sequence, or it is resolved.
abbrev pub is_settled : ℕ → AuditQueue → Bool
is_settled seq q = ltb seq q.next || is_resolved seq q.resolved

abbrev is_held : ℕ → AuditQueue → Bool
is_held seq q = ltb seq q.next || holds q.resolved seq

is_settled-is_held : (seq : ℕ) (q : AuditQueue) → Inv q → is_settled seq q ≡ is_held seq q
is_settled-is_held seq q i =
    ap (λ b. ltb seq q.next || b) (is_resolved-holds q.next seq q.resolved i.spaced)

module _ (refused : ℕ → Bool) where
  -- A sequence of an action that still waits and is not settled, or one that is settled and has nothing
  -- waiting.
  pub record IsLive (seq : ℕ) (q : AuditQueue) : Type 0 where
    pub inv : Inv q
    pub below : seq < max_seq
    pub stage :
        ((is_settled seq q ≡ false) × (is_queued_action refused q seq ≡ true))
        ⊎ ((is_settled seq q ≡ true) × (at seq q.todo ≡ none))

  round-is_held :
      (x : ℕ) (q : AuditQueue)
      → Inv q
      → is_resolved q.next q.resolved ≡ true
      → is_held x q ≡ true
      → is_held x (round refused q) ≡ true
  unfolding advance_frontier
  round-is_held x q i ready h =
      let f = flush_sequence-Frame refused q.next q in
      let moved = round-next refused q i ready in
      let (spaced, set) = consume-holds q.next q.resolved x i.spaced in
      let same : (round refused q).resolved ≡ consume q.next q.resolved =
        ap (λ n. consume n (flush_sequence refused q.next q).resolved) f.next
        ∙ ap (consume q.next) f.resolved in
      let kept = ap (λ r. holds r x) same ∙ set in ground (arith, moved, kept, h)

  flush_audits-is_held :
      (fuel x : ℕ) (q : AuditQueue)
      → Inv q
      → is_held x q ≡ true
      → is_held x (flush_audits refused fuel q) ≡ true
  unfolding flush_audits
  flush_audits-is_held zero x q i h = h
  flush_audits-is_held (suc fuel) x q i h = elim (Bool-cases (is_resolved q.next q.resolved)) [
    | inr stuck ↦
        subst (λ (k : AuditQueue). is_held x k ≡ true) (sym (flush_stuck refused fuel q stuck)) h
    | inl ready ↦
        subst (λ (k : AuditQueue). is_held x k ≡ true) (sym (flush_ready refused fuel q ready))
          (flush_audits-is_held fuel x (round refused q) (round-Advanced refused q i ready).inv
            (round-is_held x q i ready h))
  ]

  settle-is_held :
      (seq : ℕ) (q : AuditQueue)
      → Inv q
      → q.next ≤ seq
      → seq < max_seq
      → is_held seq (settle refused seq q) ≡ true
  unfolding flush_action
  settle-is_held seq q i le lt =
      let marked = record q { resolved = mark_resolved seq q.resolved } in
      let f = flush_sequence-Frame refused seq marked in
      let (spaced, set) = mark_resolved-holds q.next seq q.resolved seq i.spaced le (omega arith) in
      let kept = ap (λ r. holds r seq) f.resolved in ground (arith, set, kept)

  settle-absent :
      (seq : ℕ) (q : AuditQueue)
      → is_queued_action refused q seq ≡ true
      → at seq (settle refused seq q).todo ≡ none
  unfolding flush_action
  settle-absent seq q acts =
      let marked = record q { resolved = mark_resolved seq q.resolved } in
      rw (acts, flush_action) (flush_sequence-todo refused seq seq marked ∙ ground arith)

  flush_all-settled :
      (seq : ℕ) (q : AuditQueue)
      → Inv q
      → is_held seq q ≡ true
      → at seq q.todo ≡ none
      → (is_held seq (flush_all refused q) ≡ true) × (at seq (flush_all refused q).todo ≡ none)
  unfolding flush_all
  flush_all-settled seq q i held absent =
      (flush_audits-is_held _ seq q i held, flush_audits-absent refused _ seq q absent)

  -- Resolving the sequence of an action that waits settles it, and leaves nothing of it waiting.
  resolve_audit-IsLive :
      (seq : ℕ) (q : AuditQueue)
      → Inv q
      → seq < max_seq
      → is_settled seq q ≡ false
      → is_queued_action refused q seq ≡ true
      → IsLive seq (resolve_audit refused seq q)
  resolve_audit-IsLive seq q i lt waits acts =
      let ahead : q.next ≤ seq = ground (arith, waits) in
      let inv = (resolve_audit-Advanced refused seq q i lt).inv in
      let (held, absent) =
        flush_all-settled seq (settle refused seq q) (settle-Advanced refused seq q i ahead lt).inv
          (settle-is_held seq q i ahead lt) (settle-absent seq q acts) in
      let due = resolve_due refused seq q (ground (arith, ahead)) in
      record {
        inv = inv;
        below = lt;
        stage = inr (
          is_settled-is_held seq (resolve_audit refused seq q) inv ∙ ap (is_held seq) due ∙ held,
          ap (λ (k : AuditQueue). at seq k.todo) due ∙ absent,
        );
      }

  module _ (required : Bool) (latched : ℕ → Bool) where
    -- The sequence gets the one row after all its others, and stays in order for the next.
    pub record IsAppended (seq : ℕ) (ev : Event) (q q' : AuditQueue) : Type 0 where
      pub live : IsLive seq q'
      pub rows : rows_of q' seq ≡ rows_of q seq ++ bare ev ∷ []

    queued_row :
        (seq : ℕ) (ev : Event) (q : AuditQueue)
        → rows_of (resolve_audit refused seq (queue_row seq ev q)) seq
          ≡ rows_of q seq ++ bare ev ∷ []
    unfolding queue_step
    queued_row seq ev q =
        resolve_audit-rows refused seq seq (queue_row seq ev q)
        ∙ queue_step-rows refused seq (queue seq ev) q
        ∙ ap (λ b. rows_of q seq ++ (if b then bare ev ∷ [] else [])) (same seq)
      where
        same : (n : ℕ) → (n == n) ≡ true
        same n = ground arith

    logged_row :
        (seq : ℕ) (ev : Event) (q : AuditQueue)
        → at seq q.todo ≡ none
        → rows_of (record q { log = q.log ++ (seq, ev) ∷ [] }) seq ≡ rows_of q seq ++ bare ev ∷ []
    logged_row seq ev q absent =
        let waiting = map bare (todo_at q seq) in
        let nothing : waiting ≡ [] =
          ap (λ (o : Option (List Event)). map bare (elim o [ none ↦ [] | some rows ↦ rows ]))
            absent in
        ap (λ l. l ++ waiting)
          (entries_of-append seq q.log ((seq, ev) ∷ [])
            ∙ ap (λ b. entries_of seq q.log ++ (if b then bare ev ∷ [] else [])) (same seq))
        ∙ last_of (entries_of seq q.log) (bare ev) waiting nothing
      where
        same : (n : ℕ) → (n == n) ≡ true
        same n = ground arith

        last_of :
            (xs : List Event) (x : Event) (rest : List Event)
            → rest ≡ []
            → (xs ++ x ∷ []) ++ rest ≡ (xs ++ rest) ++ x ∷ []
        last_of xs x rest nothing =
            rw nothing (append-nil (xs ++ x ∷ []) ∙ ap (λ l. l ++ x ∷ []) (sym (append-nil xs)))

    logged-IsAppended :
        (seq : ℕ) (ev : Event) (q : AuditQueue)
        → Inv q
        → seq < max_seq
        → is_settled seq q ≡ true
        → at seq q.todo ≡ none
        → IsAppended seq ev q (record q { log = q.log ++ (seq, ev) ∷ [] })
    logged-IsAppended seq ev q i lt settled absent = record {
      live = record {
        inv = record { spaced = i.spaced; below = i.below; unended = i.unended };
        below = lt;
        stage = inr (settled, absent);
      };
      rows = logged_row seq ev q absent;
    }

    marked-IsAppended :
        (seq : ℕ) (ev : Event) (q q' : AuditQueue)
        → IsAppended seq ev q q'
        → IsAppended seq ev q (mark_audit_failure seq q')
    unfolding mark_audit_failure
    marked-IsAppended seq ev q q' a = record {
      live = record {
        inv = record {
          spaced = a.live.inv.spaced;
          below = a.live.inv.below;
          unended = a.live.inv.unended;
        };
        below = a.live.below;
        stage = a.live.stage;
      };
      rows = a.rows;
    }

    pub write_row-IsAppended :
        (seq : ℕ) (ev : Event) (q : AuditQueue)
        → IsLive seq q
        → IsAppended seq ev q (write_row refused required latched seq ev q).0
    unfolding write_row queue_row
    write_row-IsAppended seq ev q l = elim l.stage [
      | inl (waits, acts) ↦
          rw (waits, write_row)
            (record {
              live =
                  resolve_audit-IsLive seq (queue_row seq ev q)
                    (record { spaced = l.inv.spaced; below = l.inv.below; unended = l.inv.unended })
                    l.below waits acts;
              rows = queued_row seq ev q;
            })
      | inr (settled, absent) ↦
          let a = logged-IsAppended seq ev q l.inv l.below settled absent in
          elim (Bool-cases (refused (length q.log))) [
            | inl fails ↦ rw (settled, fails, write_row) (marked-IsAppended seq ev q _ a)
            | inr works ↦ rw (settled, works, write_row) a
          ]
    ]
