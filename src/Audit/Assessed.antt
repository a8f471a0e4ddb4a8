-- ===== src/Audit/Assessed.antt =====
-- What an assessment of internal/audit/completeness.go vouches for.
use nockguard.Base.{
  ℕ, ◌+◌, Bool, true, false, not, ◌&&◌, Option, some, List, [], ◌∷◌, ◌≡◌, inl, inr, refl, sym, ap,
  ◌∙◌, arith, if◌then◌else◌, Text, text_eq, eq_of_text_eq, lookup, insert, lookup-insert,
  Bool-cases, count_if,
}
use nockguard.Audit.Event.{Event}
use nockguard.Audit.Validate.{is_version}
use nockguard.Audit.Chain.{Line, undecodable, row}
use nockguard.Audit.Completeness.{
  ActionState, RunState, Observed, late_response, not_forwarded, outcome_unknown, other_outcome,
  RowKind, opening, heartbeat, closing, bad_event, other_row, decided, observed, unbound, row_kind,
  break_if, action_at, action_or_new, note_decision, note_observation, beat, apply_row,
  is_misplaced, run_step, Scan, run_or_new, scan_line, scan_lines,
}

abbrev pub is_true : Bool → ℕ
is_true true = 1
is_true false = 0

-- The rows of a run, in the order of the trail.
abbrev pub rows_of_run : Text → List Line → List Event
rows_of_run id [] = []
rows_of_run id (undecodable ∷ lines) = rows_of_run id lines
rows_of_run id (row checked ev ∷ lines) =
    let rest = rows_of_run id lines in
    if is_version 2 ev.schema_version && text_eq ev.run_id id then ev ∷ rest else rest

abbrev pub is_dispatch : RowKind → Bool
is_dispatch (decided dispatch) = dispatch
is_dispatch _ = false

abbrev pub is_settling : RowKind → Bool
is_settling (observed late_response) = false
is_settling (observed _) = true
is_settling _ = false

abbrev pub is_refusal : RowKind → Bool
is_refusal (observed not_forwarded) = true
is_refusal _ = false

-- How many rows of an action are of a kind.
abbrev pub rows_with : (RowKind → Bool) → Text → List Event → ℕ
rows_with p id rows = count_if (λ (ev : Event). text_eq ev.action_id id && p (row_kind ev)) rows

abbrev pub refused : ActionState → Bool
refused a = a.terminal && not a.dispatch

-- An action's state after a row, by what the row adds.
pub record Tallied (id : Text) (k : RowKind) (ev : Event) (run run' : RunState) : Type 0 where
  pub dispatched :
      is_true (action_at id run').dispatch
      ≡ is_true (action_at id run).dispatch + is_true (text_eq ev.action_id id && is_dispatch k)
  pub settled :
      is_true (action_at id run').terminal
      ≡ is_true (action_at id run).terminal + is_true (text_eq ev.action_id id && is_settling k)
  pub turned_away :
      is_true (refused (action_at id run'))
      ≡ is_true (refused (action_at id run)) + is_true (text_eq ev.action_id id && is_refusal k)

note_decision-tally :
    (dispatch : Bool) (a : ActionState)
    → (note_decision dispatch a).1 ≡ false
    → (is_true (note_decision dispatch a).0.dispatch ≡ is_true a.dispatch + is_true dispatch)
      × (is_true (note_decision dispatch a).0.terminal ≡ is_true a.terminal + 0)
      × (is_true (refused (note_decision dispatch a).0) ≡ is_true (refused a) + 0)
unfolding note_decision
note_decision-tally dispatch a h = (ground arith, ground arith, ground arith)

note_observation-tally :
    (o : Observed) (a : ActionState)
    → (note_observation o a).1 ≡ false
    → (is_true (note_observation o a).0.dispatch ≡ is_true a.dispatch + 0)
      × (is_true (note_observation o a).0.terminal
          ≡ is_true a.terminal + is_true (is_settling (observed o)))
      × (is_true (refused (note_observation o a).0)
          ≡ is_true (refused a) + is_true (is_refusal (observed o)))
unfolding note_observation
note_observation-tally late_response a h = (ground arith, ground arith, ground arith)
note_observation-tally not_forwarded a h = (ground arith, ground arith, ground arith)
note_observation-tally outcome_unknown a h = (ground arith, ground arith, ground arith)
note_observation-tally other_outcome a h = (ground arith, ground arith, ground arith)

module _ (parse_time : Text → Option ℕ) (now : ℕ) where
  -- The state that a run's own rows lead to.
  abbrev pub follow : List Event → RunState → RunState
  follow [] run = run
  follow (ev ∷ rows) run = follow rows (run_step parse_time now ev run)

  abbrev pub extend : Option RunState → List Event → Option RunState
  extend o [] = o
  extend o (ev ∷ rows) = extend (some (run_step parse_time now ev (run_or_new o))) rows

  pub extend-some :
      (rows : List Event) (run : RunState) → extend (some run) rows ≡ some (follow rows run)
  extend-some [] run = refl
  extend-some (ev ∷ rows) run = extend-some rows (run_step parse_time now ev run)

  lookup-scan_line :
      (id : Text) (line : Line) (s : Scan)
      → lookup id (scan_line parse_time now line s).runs
        ≡ extend (lookup id s.runs) (rows_of_run id (line ∷ []))
  unfolding scan_line
  lookup-scan_line id undecodable s = refl
  lookup-scan_line id (row checked ev) s = elim (Bool-cases (is_version 2 ev.schema_version)) [
    | inl v2 ↦
        let step = run_step parse_time now ev (run_or_new (lookup ev.run_id s.runs)) in
        elim (Bool-cases (text_eq ev.run_id id)) [
          | inl own ↦
              let same = eq_of_text_eq ev.run_id id own in
              ground (arith, v2, own, same, lookup-insert ev.run_id id step s.runs)
          | inr other ↦ ground (arith, v2, other, lookup-insert ev.run_id id step s.runs)
        ]
    | inr v1 ↦ ground (arith, v1)
  ]

  -- The scan follows each run by its own rows alone, wherever they stand among the rows of others.
  pub lookup-scan_lines :
      (id : Text) (lines : List Line) (s : Scan)
      → lookup id (scan_lines parse_time now lines s).runs
        ≡ extend (lookup id s.runs) (rows_of_run id lines)
  unfolding scan_lines
  lookup-scan_lines id [] s = refl
  lookup-scan_lines id (line ∷ lines) s =
      lookup-scan_lines id lines (scan_line parse_time now line s)
      ∙ ap (λ o. extend o (rows_of_run id lines)) (lookup-scan_line id line s)
      ∙ extend_append id line lines (lookup id s.runs)
    where
      extend_append :
          (id : Text) (line : Line) (lines : List Line) (o : Option RunState)
          → extend (extend o (rows_of_run id (line ∷ []))) (rows_of_run id lines)
            ≡ extend o (rows_of_run id (line ∷ lines))
      extend_append id undecodable lines o = refl
      extend_append id (row checked ev) lines o = ground arith

  pub beat-keeps :
      (time : Text) (run : RunState)
      → (beat parse_time now time run).broken ≡ false
      → (run.broken ≡ false)
        × ((beat parse_time now time run).actions ≡ run.actions)
        × ((beat parse_time now time run).closed ≡ run.closed)
  unfolding beat
  beat-keeps time run h = (ground arith, ground arith, ground arith)

  apply_row-unbroken :
      (k : RowKind) (ev : Event) (run : RunState)
      → (apply_row parse_time now k ev run).broken ≡ false
      → run.broken ≡ false
  unfolding apply_row
  apply_row-unbroken opening ev run h =
      let was = (beat-keeps ev.time (record (break_if run.opened run) { opened = true }) h).0 in
      ground (arith, was)
  apply_row-unbroken heartbeat ev run h = (beat-keeps ev.time run h).0
  apply_row-unbroken closing ev run h = ground arith
  apply_row-unbroken bad_event ev run h = ground arith
  apply_row-unbroken other_row ev run h = h
  apply_row-unbroken (decided dispatch) ev run h = ground arith
  apply_row-unbroken (observed o) ev run h = ground arith
  apply_row-unbroken (unbound allowed) ev run h = ground arith

  pub run_step-unbroken :
      (ev : Event) (run : RunState)
      → (run_step parse_time now ev run).broken ≡ false
      → (run.broken ≡ false) × (is_misplaced ev run ≡ false)
  unfolding run_step
  run_step-unbroken ev run h =
      let was = apply_row-unbroken (row_kind ev) ev (break_if (is_misplaced ev run) run) h in
      (ground (arith, was), ground (arith, was))

  pub follow-unbroken :
      (rows : List Event) (run : RunState) → (follow rows run).broken ≡ false → run.broken ≡ false
  follow-unbroken [] run h = h
  follow-unbroken (ev ∷ rows) run h =
      (run_step-unbroken ev run (follow-unbroken rows (run_step parse_time now ev run) h)).0

  same_actions-Tallied :
      (id : Text) (k : RowKind) (ev : Event) (run run' : RunState)
      → run'.actions ≡ run.actions
      → is_dispatch k ≡ false
      → is_settling k ≡ false
      → is_refusal k ≡ false
      → Tallied id k ev run run'
  same_actions-Tallied id k ev run run' e a b c = record {
    dispatched = ground (arith, e, a);
    settled = ground (arith, e, b);
    turned_away = ground (arith, e, c);
  }

  -- The action of the row is set, the others stay.
  set-Tallied :
      (id : Text) (k : RowKind) (ev : Event) (run : RunState) (a : ActionState) (b : Bool)
      → is_true a.dispatch ≡ is_true (action_at ev.action_id run).dispatch + is_true (is_dispatch k)
      → is_true a.terminal ≡ is_true (action_at ev.action_id run).terminal + is_true (is_settling k)
      → is_true (refused a)
        ≡ is_true (refused (action_at ev.action_id run)) + is_true (is_refusal k)
      → Tallied id k ev run
          (record (break_if b run) { actions = insert ev.action_id a run.actions })
  set-Tallied id k ev run a b d t n = elim (Bool-cases (text_eq ev.action_id id)) [
    | inl own ↦
        let at_id : ev.action_id ≡ id = eq_of_text_eq ev.action_id id own in
        let now_a : action_or_new (lookup id (insert ev.action_id a run.actions)) ≡ a =
          ap action_or_new (looked ∙ ap (λ t. if t then some a else lookup id run.actions) own) in
        let was = ap (λ i. action_at i run) at_id in
        record {
          dispatched =
              from (action_at id run) (is_dispatch k) own (λ (x : ActionState). is_true x.dispatch)
                now_a was d;
          settled =
              from (action_at id run) (is_settling k) own (λ (x : ActionState). is_true x.terminal)
                now_a was t;
          turned_away =
              from (action_at id run) (is_refusal k) own (λ x. is_true (refused x)) now_a was n;
        }
    | inr other ↦
        let same : action_or_new (lookup id (insert ev.action_id a run.actions))
            ≡ action_at id run =
          ap action_or_new (looked ∙ ap (λ t. if t then some a else lookup id run.actions) other) in
        record {
          dispatched = omega (
            arith,
            ap (λ (x : ActionState). is_true x.dispatch) same,
            ap (λ t. is_true (t && is_dispatch k)) other,
          );
          settled = omega (
            arith,
            ap (λ (x : ActionState). is_true x.terminal) same,
            ap (λ t. is_true (t && is_settling k)) other,
          );
          turned_away = omega (
            arith,
            ap (λ x. is_true (refused x)) same,
            ap (λ t. is_true (t && is_refusal k)) other,
          );
        }
  ]
    where
      looked :
          lookup id (insert ev.action_id a run.actions)
          ≡ (if text_eq ev.action_id id then some a else lookup id run.actions)
      looked = lookup-insert ev.action_id id a run.actions

      from :
          {new old : ActionState} (there : ActionState) (p : Bool)
          → text_eq ev.action_id id ≡ true
          → (m : ActionState → ℕ) → new ≡ a
          → old ≡ there
          → m a ≡ m old + is_true p
          → m new ≡ m there + is_true (text_eq ev.action_id id && p)
      from there p own m e f g =
          ap m e ∙ g ∙ ap (λ x. m x + is_true p) f ∙ sym (ap (λ t. m there + is_true (t && p)) own)

  apply_row-Tallied :
      (id : Text) (k : RowKind) (ev : Event) (run : RunState)
      → (apply_row parse_time now k ev run).broken ≡ false
      → Tallied id k ev run (apply_row parse_time now k ev run)
  unfolding apply_row
  apply_row-Tallied id opening ev run h =
      same_actions-Tallied id opening ev run _
        ((beat-keeps ev.time (record (break_if run.opened run) { opened = true }) h).1) refl refl
        refl
  apply_row-Tallied id heartbeat ev run h =
      same_actions-Tallied id heartbeat ev run _ ((beat-keeps ev.time run h).1) refl refl refl
  apply_row-Tallied id closing ev run h =
      same_actions-Tallied id closing ev run _ refl refl refl refl
  apply_row-Tallied id bad_event ev run h =
      same_actions-Tallied id bad_event ev run _ refl refl refl refl
  apply_row-Tallied id other_row ev run h =
      let a = action_at ev.action_id run in
      let looked = lookup-insert ev.action_id id a run.actions in
      let same = eq_of_text_eq ev.action_id id in
      record {
        dispatched = ground (arith, looked, same);
        settled = ground (arith, looked, same);
        turned_away = ground (arith, looked, same);
      }
  apply_row-Tallied id (decided dispatch) ev run h =
      let (d, t, n) = note_decision-tally dispatch (action_at ev.action_id run) (ground arith) in
      set-Tallied id (decided dispatch) ev run _ _ d t n
  apply_row-Tallied id (observed o) ev run h =
      let (d, t, n) = note_observation-tally o (action_at ev.action_id run) (ground arith) in
      set-Tallied id (observed o) ev run _ _ d t n
  apply_row-Tallied id (unbound allowed) ev run h =
      same_actions-Tallied id (unbound allowed) ev run _ refl refl refl refl

  -- An action's state is the tally of its rows.
  pub record Tally (id : Text) (rows : List Event) (run run' : RunState) : Type 0 where
    pub dispatched :
        is_true (action_at id run').dispatch
        ≡ is_true (action_at id run).dispatch + rows_with is_dispatch id rows
    pub settled :
        is_true (action_at id run').terminal
        ≡ is_true (action_at id run).terminal + rows_with is_settling id rows
    pub turned_away :
        is_true (refused (action_at id run'))
        ≡ is_true (refused (action_at id run)) + rows_with is_refusal id rows

  run_step-Tallied :
      (id : Text) (ev : Event) (run : RunState)
      → (run_step parse_time now ev run).broken ≡ false
      → Tallied id (row_kind ev) ev run (run_step parse_time now ev run)
  unfolding run_step
  run_step-Tallied id ev run h =
      let t = apply_row-Tallied id (row_kind ev) ev (break_if (is_misplaced ev run) run) h in
      record { dispatched = t.dispatched; settled = t.settled; turned_away = t.turned_away }

  rows_with-cons :
      (p : RowKind → Bool) (id : Text) (ev : Event) (rows : List Event)
      → rows_with p id (ev ∷ rows)
        ≡ is_true (text_eq ev.action_id id && p (row_kind ev)) + rows_with p id rows
  rows_with-cons p id ev rows = ground arith

  pub follow-Tally :
      (id : Text) (rows : List Event) (run : RunState)
      → (follow rows run).broken ≡ false
      → Tally id rows run (follow rows run)
  follow-Tally id [] run h = record {
    dispatched = omega arith;
    settled = omega arith;
    turned_away = omega arith;
  }
  follow-Tally id (ev ∷ rows) run h =
      let next = run_step parse_time now ev run in
      let t = run_step-Tallied id ev run (follow-unbroken rows next h) in
      let u = follow-Tally id rows next h in
      record {
        dispatched =
            omega (arith, t.dispatched, u.dispatched, rows_with-cons is_dispatch id ev rows);
        settled = omega (arith, t.settled, u.settled, rows_with-cons is_settling id ev rows);
        turned_away =
            omega (arith, t.turned_away, u.turned_away, rows_with-cons is_refusal id ev rows);
      }
