-- ===== src/Proxy/Flushed.antt =====
-- What the loop of `flushAuditsLocked` in internal/proxy/stdio.go writes as the frontier moves on.
use nockguard.Base.{
  ℕ, zero, suc, ◌≤◌, ◌<◌, Bool, true, false, Option, none, some, List, [], ◌++◌, ◌≡◌, ◌⊎◌, inl, inr,
  refl, sym, ap, ◌∙◌, arith, map, ◌==◌, if◌then◌else◌, at, drop_key, at-drop_key, Bool-cases,
  Option-cases,
}
use mathlib.Core.Path.{subst}
use mathlib.Core.List.{append-nil}
use nockguard.Audit.Event.{Event}
use nockguard.Proxy.Ranges.{max_seq, next_seq, is_resolved, mark_resolved}
use nockguard.Proxy.Queue.{
  AuditQueue, todo_at, flush_sequence, advance_frontier, flush_audits, flush_all, flush_action,
  settle, resolve_audit,
}
use nockguard.Proxy.Rows.{
  bare, entries_of, rows_of, emit_rows-todo, flush_none, flush_some, resolve_audit-rows,
}
use nockguard.Proxy.Frontier.{
  Inv, flush_sequence-Frame, resolved_frontier, round, round-Advanced, flush_ready, flush_stuck,
  settle-Advanced, resolve_due, resolve_audit-stops,
}

module _ (refused : ℕ → Bool) where
  pub flush_sequence-todo :
      (x seq : ℕ) (q : AuditQueue)
      → at x (flush_sequence refused seq q).todo ≡ (if x == seq then none else at x q.todo)
  flush_sequence-todo x seq q = elim (Option-cases (at seq q.todo)) [
    | inl absent ↦
        ap (λ (k : AuditQueue). at x k.todo) (flush_none refused seq q absent) ∙ nothing absent
    | inr (rows, there) ↦
        ap (λ (k : AuditQueue). at x k.todo) (flush_some refused seq rows q there)
        ∙ ap (λ t. at x (drop_key seq t)) (emit_rows-todo refused seq rows q)
        ∙ at-drop_key x seq q.todo
  ]
    where
      nothing : at seq q.todo ≡ none → at x q.todo ≡ (if x == seq then none else at x q.todo)
      nothing absent = elim (Bool-cases (x == seq)) [
        | inl same ↦
            let eq : x ≡ seq = ground (arith, same) in rw same (ap (λ k. at k q.todo) eq ∙ absent)
        | inr other ↦ rw other refl
      ]

  round-todo :
      (x : ℕ) (q : AuditQueue)
      → at x (round refused q).todo ≡ (if x == q.next then none else at x q.todo)
  unfolding advance_frontier
  round-todo x q = flush_sequence-todo x q.next q

  pub round-next :
      (q : AuditQueue)
      → Inv q
      → is_resolved q.next q.resolved ≡ true
      → (round refused q).next ≡ suc q.next
  unfolding advance_frontier
  round-next q i ready =
      let f = flush_sequence-Frame refused q.next q in
      let (lt, here) = resolved_frontier refused q i ready in
      let step : next_seq q.next ≡ suc q.next = omega arith in ap next_seq f.next ∙ step

  -- What does not wait is not made to wait.
  pub flush_audits-absent :
      (fuel x : ℕ) (q : AuditQueue)
      → at x q.todo ≡ none
      → at x (flush_audits refused fuel q).todo ≡ none
  unfolding flush_audits
  flush_audits-absent zero x q absent = absent
  flush_audits-absent (suc fuel) x q absent =
      go (is_resolved q.next q.resolved) (flush_audits refused fuel (round refused q))
        (flush_audits-absent fuel x (round refused q) (round-todo x q ∙ ground (arith, absent)))
    where
      go :
          (b : Bool) (q' : AuditQueue)
          → at x q'.todo ≡ none
          → at x (if b then q' else q).todo ≡ none
      go true q' h = h
      go false q' h = absent

  flush_audits-flushed :
      (fuel x : ℕ) (q : AuditQueue)
      → Inv q
      → q.next ≤ x
      → ((flush_audits refused fuel q).next ≤ x) ⊎ (at x (flush_audits refused fuel q).todo ≡ none)
  unfolding flush_audits
  flush_audits-flushed zero x q i le = inl le
  flush_audits-flushed (suc fuel) x q i le = elim (Bool-cases (is_resolved q.next q.resolved)) [
    | inr stuck ↦
        inl (subst (λ (k : AuditQueue). k.next ≤ x) (sym (flush_stuck refused fuel q stuck)) le)
    | inl ready ↦
        subst (λ (k : AuditQueue). (k.next ≤ x) ⊎ (at x k.todo ≡ none))
          (sym (flush_ready refused fuel q ready))
          (elim (Bool-cases (x == q.next)) [
            | inl here ↦ inr (
                flush_audits-absent fuel x (round refused q)
                  (round-todo x q ∙ ground (arith, here)))
            | inr other ↦
                flush_audits-flushed fuel x (round refused q) (round-Advanced refused q i ready).inv
                  (ground (arith, other, le, round-next q i ready))
          ])
  ]

  flush_all-flushed :
      (x : ℕ) (q : AuditQueue)
      → Inv q
      → q.next ≤ x
      → ((flush_all refused q).next ≤ x) ⊎ (at x (flush_all refused q).todo ≡ none)
  unfolding flush_all
  flush_all-flushed x q i le = flush_audits-flushed _ x q i le

  settle-next : (seq : ℕ) (q : AuditQueue) → (settle refused seq q).next ≡ q.next
  unfolding flush_action
  settle-next seq q =
      let marked = record q { resolved = mark_resolved seq q.resolved } in
      let f = flush_sequence-Frame refused seq marked in ground (arith, f.next)

  written :
      (x : ℕ) (q q' : AuditQueue)
      → at x q'.todo ≡ none
      → rows_of q' x ≡ rows_of q x
      → entries_of x q'.log ≡ entries_of x q.log ++ map bare (todo_at q x)
  written x q q' gone same =
      sym (append-nil (entries_of x q'.log))
      ∙ ap
          (λ (o : Option (List Event)).
            entries_of x q'.log ++ map bare (elim o [ none ↦ [] | some rows ↦ rows ]))
          (sym gone)
      ∙ same

  -- Where the ranges are in order, resolving a sequence that the frontier has not passed, below the last
  -- number, writes what has become ready and nothing is left ready: the new frontier is one that is not
  -- resolved, and every sequence from the old frontier on that it has passed has no row left waiting,
  -- while what waited of it has been handed to the writer, in order and after its earlier rows.
  pub resolve_audit-flushes :
      (seq x : ℕ) (q : AuditQueue)
      → Inv q
      → q.next ≤ seq
      → seq < max_seq
      → q.next ≤ x
      → let q' = resolve_audit refused seq q in
        (is_resolved q'.next q'.resolved ≡ false)
        × ((q'.next ≤ x)
            ⊎ ((at x q'.todo ≡ none)
                × (entries_of x q'.log ≡ entries_of x q.log ++ map bare (todo_at q x))))
  resolve_audit-flushes seq x q i le lt from =
      let settled = settle refused seq q in
      let start = settle-next seq q in
      let inv = (settle-Advanced refused seq q i le lt).inv in
      let due = resolve_due refused seq q (ground (arith, le)) in
      (
        resolve_audit-stops refused seq q i le lt,
        elim (flush_all-flushed x settled inv (omega (arith, start, from))) [
          | inl ahead ↦ inl (subst (λ (k : AuditQueue). k.next ≤ x) (sym due) ahead)
          | inr gone ↦
              let empty = ap (λ (k : AuditQueue). at x k.todo) due ∙ gone in
              inr (
                empty,
                written x q (resolve_audit refused seq q) empty
                    (resolve_audit-rows refused x seq q),
              )
        ],
      )
