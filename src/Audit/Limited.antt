-- ===== src/Audit/Limited.antt =====
-- What the verdict LIMITED of internal/audit/completeness.go vouches for.
use nockguard.Base.{
  ℕ, ◌+◌, ◌<◌, Bool, true, false, ◌&&◌, Option, none, some, List, [], ◌∷◌, ◌≡◌, inl, inr, refl, sym,
  ap, ◌∙◌, arith, Text, text_eq, eq_of_text_eq, Map, lookup, insert, lookup-insert, is_nonempty,
  Bool-cases, Option-cases, some_injective,
}
use nockguard.Audit.Event.{Event}
use nockguard.Audit.Validate.{validate_audit_event}
use nockguard.Audit.Chain.{Line}
use nockguard.Audit.Completeness.{
  limited, ActionState, RunState, new_run, RowKind, opening, heartbeat, closing, bad_event,
  other_row, decided, observed, unbound, row_kind, is_opening, break_if, action_at, action_or_new,
  next_count, apply_row, is_misplaced, run_step, all_terminal, scan_lines, assess_run, new_scan,
  is_unsigned,
}
use nockguard.Audit.Assessed.{
  is_true, refused, rows_of_run, is_dispatch, is_settling, is_refusal, rows_with, follow,
  follow-unbroken, beat-keeps, run_step-unbroken, follow-Tally, extend-some, lookup-scan_lines,
  extend,
}

-- A row in its place: signed, valid and with the next number.
abbrev pub IsPlaced : ℕ → Event → Type 0
IsPlaced count ev =
    (is_nonempty ev.sig ≡ true) × (validate_audit_event ev ≡ true) × (ev.run_seq ≡ next_count count)

-- Rows in their places, of which the last, and no other, closes the run over those before it.
abbrev pub IsSealed : ℕ → Text → List Event → Type 0
IsSealed count head [] = ⊥
IsSealed count head (ev ∷ []) =
    IsPlaced count ev × (row_kind ev ≡ closing) × (ev.run_count ≡ count) × (ev.run_head ≡ head)
IsSealed count head (ev ∷ next ∷ rows) =
    IsPlaced count ev × IsSealed (next_count count) ev.sig (next ∷ rows)

abbrev pub Opens : List Event → Type 0
Opens [] = ⊥
Opens (ev ∷ rows) = row_kind ev ≡ opening

abbrev pub is_bound : RowKind → Bool
is_bound (decided dispatch) = true
is_bound (observed o) = true
is_bound other_row = true
is_bound _ = false

-- A run whose record is complete.
pub record IsComplete (rows : List Event) : Type 0 where
  pub opens : Opens rows
  pub sealed : IsSealed 0 [] rows
  pub settled : (id : Text) → 0 < rows_with is_bound id rows → rows_with is_settling id rows ≡ 1
  pub answered :
      (id : Text)
      → 0 < rows_with is_bound id rows
      → rows_with is_dispatch id rows + rows_with is_refusal id rows ≡ 1

all_terminal-lookup :
    (id : Text) (actions : Map ActionState) (a : ActionState)
    → all_terminal actions ≡ true
    → lookup id actions ≡ some a
    → a.terminal ≡ true
unfolding lookup
all_terminal-lookup id [] a h e = cc
all_terminal-lookup id ((id', a') ∷ actions) a h e =
    ground (arith, some_injective a' a, all_terminal-lookup id actions a)

unset :
    (id id' : Text) (a : ActionState) (run : RunState)
    → lookup id (insert id' a run.actions) ≡ none
    → (lookup id run.actions ≡ none) × ((text_eq id' id && true) ≡ false)
unset id id' a run e = elim (Bool-cases (text_eq id' id)) [
  | inl own ↦
      let looked = lookup-insert id' id a run.actions in absurd (ground (arith, looked, own))
  | inr other ↦
      let looked = lookup-insert id' id a run.actions in
      (ground (arith, looked, other), ground (arith, other))
]

placed :
    (ev : Event) (run : RunState)
    → is_misplaced ev run ≡ false
    → IsPlaced run.count ev × (run.closed ≡ false)
placed ev run h = ((ground arith, ground arith, ground arith), ground arith)

first_opens : (ev : Event) → is_misplaced ev new_run ≡ false → row_kind ev ≡ opening
first_opens ev h = only (row_kind ev) (ground arith)
  where
    only : (k : RowKind) → is_opening k ≡ true → k ≡ opening
    only opening h = refl
    only heartbeat h = cc
    only closing h = cc
    only bad_event h = cc
    only other_row h = cc
    only (decided dispatch) h = cc
    only (observed o) h = cc
    only (unbound allowed) h = cc

module _ (parse_time : Text → Option ℕ) (now : ℕ) where
  apply_row-closes :
      (k : RowKind) (ev : Event) (run : RunState)
      → (apply_row parse_time now k ev run).broken ≡ false
      → (apply_row parse_time now k ev run).closed ≡ true
      → run.closed ≡ false
      → (k ≡ closing) × (ev.run_count ≡ run.count) × (ev.run_head ≡ run.head)
  unfolding apply_row
  apply_row-closes opening ev run h c o =
      let kept =
        (beat-keeps parse_time now ev.time (record (break_if run.opened run) { opened = true })
          h).2 in
      absurd cc
  apply_row-closes heartbeat ev run h c o =
      let kept = (beat-keeps parse_time now ev.time run h).2 in absurd cc
  apply_row-closes closing ev run h c o =
      (refl, ground arith, eq_of_text_eq ev.run_head run.head (ground arith))
  apply_row-closes bad_event ev run h c o = absurd cc
  apply_row-closes other_row ev run h c o = absurd cc
  apply_row-closes (decided dispatch) ev run h c o = absurd cc
  apply_row-closes (observed o') ev run h c o = absurd cc
  apply_row-closes (unbound allowed) ev run h c o = absurd cc

  follow-IsSealed :
      (rows : List Event) (run : RunState)
      → run.closed ≡ false
      → (follow parse_time now rows run).broken ≡ false
      → (follow parse_time now rows run).closed ≡ true
      → IsSealed run.count run.head rows
  unfolding run_step
  follow-IsSealed [] run o h c = absurd cc
  follow-IsSealed (ev ∷ []) run o h c =
      let (was, misplaced) = run_step-unbroken parse_time now ev run h in
      let (k, n, p) =
        apply_row-closes (row_kind ev) ev (break_if (is_misplaced ev run) run) h c o in
      ((placed ev run misplaced).0, k, n, p)
  follow-IsSealed (ev ∷ next ∷ rows) run o h c =
      let after = run_step parse_time now ev run in
      let further = follow-unbroken parse_time now rows (run_step parse_time now next after) h in
      let (was, misplaced) = run_step-unbroken parse_time now next after further in
      let (was', misplaced') = run_step-unbroken parse_time now ev run was in
      (
        (placed ev run misplaced').0,
        follow-IsSealed (next ∷ rows) after (placed next after misplaced).1 h c,
      )

  apply_row-unknown :
      (id : Text) (k : RowKind) (ev : Event) (run : RunState)
      → (apply_row parse_time now k ev run).broken ≡ false
      → lookup id (apply_row parse_time now k ev run).actions ≡ none
      → (lookup id run.actions ≡ none) × ((text_eq ev.action_id id && is_bound k) ≡ false)
  unfolding apply_row
  apply_row-unknown id opening ev run h e = (
    sym (
          ap (lookup id) (
            (beat-keeps parse_time now ev.time (record (break_if run.opened run) { opened = true })
              h).1))
        ∙ e,
    ground arith,
  )
  apply_row-unknown id heartbeat ev run h e =
      (sym (ap (lookup id) ((beat-keeps parse_time now ev.time run h).1)) ∙ e, ground arith)
  apply_row-unknown id closing ev run h e = (e, ground arith)
  apply_row-unknown id bad_event ev run h e = (e, ground arith)
  apply_row-unknown id other_row ev run h e = unset id ev.action_id _ run e
  apply_row-unknown id (decided dispatch) ev run h e = unset id ev.action_id _ run e
  apply_row-unknown id (observed o) ev run h e = unset id ev.action_id _ run e
  apply_row-unknown id (unbound allowed) ev run h e = (e, ground arith)

  run_step-unknown :
      (id : Text) (ev : Event) (run : RunState)
      → (run_step parse_time now ev run).broken ≡ false
      → lookup id (run_step parse_time now ev run).actions ≡ none
      → (lookup id run.actions ≡ none)
        × ((text_eq ev.action_id id && is_bound (row_kind ev)) ≡ false)
  unfolding run_step
  run_step-unknown id ev run h e =
      apply_row-unknown id (row_kind ev) ev (break_if (is_misplaced ev run) run) h e

  follow-unknown :
      (id : Text) (rows : List Event) (run : RunState)
      → (follow parse_time now rows run).broken ≡ false
      → lookup id (follow parse_time now rows run).actions ≡ none
      → (lookup id run.actions ≡ none) × (rows_with is_bound id rows ≡ 0)
  follow-unknown id [] run h e = (e, refl)
  follow-unknown id (ev ∷ rows) run h e =
      let next = run_step parse_time now ev run in
      let (k, n) = follow-unknown id rows next h e in
      let (k', b) = run_step-unknown id ev run (follow-unbroken parse_time now rows next h) k in
      (k', ground (arith, n, b))

  -- A settled action was dispatched or turned away.
  one_way : (a : ActionState) → a.terminal ≡ true → is_true a.dispatch + is_true (refused a) ≡ 1
  one_way a h = ground arith

  -- The action's state at the end: it has come to an end, by one way.
  ended :
      (id : Text) (rows : List Event)
      → (follow parse_time now rows new_run).broken ≡ false
      → all_terminal (follow parse_time now rows new_run).actions ≡ true
      → 0 < rows_with is_bound id rows
      → (rows_with is_settling id rows ≡ 1)
        × (rows_with is_dispatch id rows + rows_with is_refusal id rows ≡ 1)
  unfolding lookup
  ended id rows h all some_row =
      let run = follow parse_time now rows new_run in
      let t = follow-Tally parse_time now id rows new_run h in
      elim (Option-cases (lookup id run.actions)) [
        | inl gone ↦ absurd (omega (arith, some_row, (follow-unknown id rows new_run h gone).1))
        | inr (a, there) ↦
            let over : (action_at id run).terminal ≡ true =
              ap (λ o. (action_or_new o).terminal) there
              ∙ all_terminal-lookup id run.actions a all there in
            (
              omega (arith, t.settled, ap is_true over),
              omega (arith, t.dispatched, t.turned_away, one_way (action_at id run) over),
            )
      ]

  -- A run that is assessed as LIMITED is complete: its rows are signed, valid and numbered from 1 on
  -- without a gap, they open with the run's opening and end in the one close, which names their count
  -- and last signature, and every action in it has exactly one terminal observation, and was either
  -- dispatched once or not forwarded.
  pub limited-IsComplete :
      (lines : List Line) (checkpointed : Bool) (id : Text) (run : RunState)
      → lookup id (scan_lines parse_time now lines new_scan).runs ≡ some run
      → (assess_run parse_time now checkpointed
          (scan_lines parse_time now lines new_scan).legacy
          (is_unsigned (scan_lines parse_time now lines new_scan))
          id
          run).0
        ≡ limited
      → IsComplete (rows_of_run id lines)
  unfolding assess_run lookup
  limited-IsComplete lines checkpointed id run e h =
      reached (rows_of_run id lines) (sym (lookup-scan_lines parse_time now id lines new_scan) ∙ e)
    where
      good : (run.broken ≡ false) × (run.closed ≡ true) × (all_terminal run.actions ≡ true)
      good = (ground arith, ground arith, ground arith)

      complete :
          (ev : Event) (rows : List Event)
          → follow parse_time now (ev ∷ rows) new_run ≡ run
          → IsComplete (ev ∷ rows)
      complete ev rows e =
          let (b, c, a) = good in
          let b' = ap (λ (r : RunState). r.broken) e ∙ b in
          let a' = ap (λ (r : RunState). all_terminal r.actions) e ∙ a in
          record {
            opens =
                first_opens ev
                  (run_step-unbroken parse_time now ev new_run (
                    follow-unbroken parse_time now rows (run_step parse_time now ev new_run) b')).1;
            sealed =
                follow-IsSealed (ev ∷ rows) new_run refl b' (ap (λ (r : RunState). r.closed) e ∙ c);
            settled = λ id' k. (ended id' (ev ∷ rows) b' a' k).0;
            answered = λ id' k. (ended id' (ev ∷ rows) b' a' k).1;
          }

      reached : (rows : List Event) → extend parse_time now none rows ≡ some run → IsComplete rows
      reached [] e = absurd cc
      reached (ev ∷ rows) e = complete ev rows (
          some_injective (follow parse_time now (ev ∷ rows) new_run) run
            (sym (extend-some parse_time now rows (run_step parse_time now ev new_run)) ∙ e))
