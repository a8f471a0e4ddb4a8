-- ===== src/Audit/Completeness.antt =====
-- What a verified trail says of its runs, `AssessRuns` of internal/audit/completeness.go. `time.Parse`
-- is a parameter, and an instant counts nanoseconds since Go's zero time.
use nockguard.Base.{
  ℕ, ◌+◌, ◌%◌, Bool, true, false, not, ◌&&◌, ◌||◌, Option, none, some, List, [], ◌∷◌, ◌++◌, ltb,
  leb, ◌==◌, if◌then◌else◌, Text, codes, text_eq, Map, lookup, insert, is_nonempty,
}
use nockguard.Audit.Event.{Event}
use nockguard.Audit.Validate.{is_version, validate_audit_event}
use nockguard.Audit.Chain.{Line, undecodable, row}

pub data RunVerdict : Type 0 where
  unassessable unverified broken_run incomplete_run limited in_progress : RunVerdict

pub record RunAssessment : Type 0 where
  pub run_id : Text
  pub verdict : RunVerdict
  pub reason : Text

pub record ActionState : Type 0 where
  pub dispatch : Bool
  pub terminal : Bool
  pub unknown : Bool
  pub decisions : ℕ
  pub late : Bool

pub record RunState : Type 0 where
  pub count : ℕ
  pub head : Text
  pub opened : Bool
  pub closed : Bool
  pub latest : ℕ
  pub future : Bool
  pub broken : Bool
  pub actions : Map ActionState

abbrev pub new_action : ActionState
new_action = record {
  dispatch = false;
  terminal = false;
  unknown = false;
  decisions = 0;
  late = false;
}

abbrev pub new_run : RunState
new_run = record {
  count = 0;
  head = [];
  opened = false;
  closed = false;
  latest = 0;
  future = false;
  broken = false;
  actions = [];
}

pub data Observed : Type 0 where
  late_response not_forwarded outcome_unknown other_outcome : Observed

-- The branches of a row: the events of a run, a decision on an action (a dispatch or not), an
-- observation of it, another row with an action, and a row without (allowed or not).
pub data RowKind : Type 0 where
  opening heartbeat closing bad_event other_row : RowKind
  decided : Bool → RowKind
  observed : Observed → RowKind
  unbound : Bool → RowKind

abbrev pub observed_as : Text → Observed
observed_as o =
    if text_eq o (codes "late_response_observed")
    then late_response
    else if text_eq o (codes "not_forwarded")
    then not_forwarded
    else if text_eq o (codes "outcome_unknown")
    then outcome_unknown
    else other_outcome

unfoldable pub row_kind : Event → RowKind
unfolding text_eq
row_kind ev =
    if text_eq ev.record_type (codes "run")
    then if text_eq ev.run_event (codes "open")
      then opening
      else if text_eq ev.run_event (codes "heartbeat")
      then heartbeat
      else if text_eq ev.run_event (codes "close")
      then closing
      else bad_event
    else if is_nonempty ev.action_id
    then if text_eq ev.record_type (codes "decision")
      then decided (text_eq ev.decision (codes "dispatch"))
      else if text_eq ev.record_type (codes "action_observation")
      then observed (observed_as ev.observation)
      else other_row
    else unbound (
        text_eq ev.record_type (codes "decision")
        && (text_eq ev.decision (codes "method-allow")
            || text_eq ev.decision (codes "method-deny")
            || text_eq ev.decision (codes "hide")))

abbrev pub is_opening : RowKind → Bool
is_opening opening = true
is_opening _ = false

abbrev pub break_if : Bool → RunState → RunState
break_if b run = record run { broken = run.broken || b }

abbrev pub action_or_new : Option ActionState → ActionState
action_or_new none = new_action
action_or_new (some a) = a

abbrev pub action_at : Text → RunState → ActionState
action_at id run = action_or_new (lookup id run.actions)

abbrev set_action : Text → ActionState → RunState → RunState
set_action id a run = record run { actions = insert id a run.actions }

-- A row of an action: what becomes of the action, and whether the row is out of place.
unfoldable pub note_decision : Bool → ActionState → ActionState × Bool
note_decision dispatch a = (
  record a { decisions = a.decisions + 1; dispatch = a.dispatch || dispatch },
  a.terminal || dispatch && a.dispatch,
)

abbrev pub is_not_forwarded : Observed → Bool
is_not_forwarded not_forwarded = true
is_not_forwarded _ = false

abbrev pub is_unknown : Observed → Bool
is_unknown outcome_unknown = true
is_unknown _ = false

abbrev both_or_neither : Bool → Bool → Bool
both_or_neither true b = b
both_or_neither false b = not b

abbrev note_settled : Observed → ActionState → ActionState × Bool
note_settled o a = (
  record a { terminal = true; unknown = is_unknown o },
  a.decisions == 0 || a.terminal || both_or_neither (is_not_forwarded o) a.dispatch,
)

unfoldable pub note_observation : Observed → ActionState → ActionState × Bool
note_observation late_response a = (record a { late = true }, not a.unknown || a.late)
note_observation not_forwarded a = note_settled not_forwarded a
note_observation outcome_unknown a = note_settled outcome_unknown a
note_observation other_outcome a = note_settled other_outcome a

-- The counters are uint64.
abbrev pub next_count : ℕ → ℕ
next_count n = (n + 1) % 18446744073709551616

pub record Scan : Type 0 where
  pub runs : Map RunState
  pub legacy : Bool
  pub rows : ℕ
  pub signed : Bool

abbrev pub run_or_new : Option RunState → RunState
run_or_new none = new_run
run_or_new (some run) = run

abbrev pub all_terminal : Map ActionState → Bool
all_terminal [] = true
all_terminal ((id, a) ∷ actions) = a.terminal && all_terminal actions

-- `sort.Strings` of the run IDs.
abbrev text_leb : Text → Text → Bool
text_leb [] s = true
text_leb (c ∷ r) [] = false
text_leb (c ∷ r) (d ∷ s) = let rest = text_leb r s in if c == d then rest else ltb c d

abbrev insert_run : Text → RunState → Map RunState → Map RunState
insert_run id run [] = (id, run) ∷ []
insert_run id run ((id', run') ∷ runs) =
    let rest = insert_run id run runs in
    if text_leb id id' then (id, run) ∷ (id', run') ∷ runs else (id', run') ∷ rest

abbrev sort_runs : Map RunState → Map RunState
sort_runs [] = []
sort_runs ((id, run) ∷ runs) = insert_run id run (sort_runs runs)

abbrev pub new_scan : Scan
new_scan = record { runs = []; legacy = false; rows = 0; signed = false }

abbrev pub is_unsigned : Scan → Bool
is_unsigned s = ltb 0 s.rows && not s.signed

abbrev no_run : RunVerdict → Text → RunAssessment
no_run verdict reason = record { run_id = []; verdict = verdict; reason = reason }

-- The checks that every row meets.
abbrev pub is_misplaced : Event → RunState → Bool
is_misplaced ev run =
    not (is_nonempty ev.sig)
    || not (validate_audit_event ev)
    || run.closed
    || not (ev.run_seq == next_count run.count)
    || run.count == 0 && not (is_opening (row_kind ev))

module _ (parse_time : Text → Option ℕ) (now : ℕ) where
  unfoldable pub beat : Text → RunState → RunState
  beat time run = elim (parse_time time) [
    | none ↦ break_if true run
    | some stamp ↦ record (break_if (not run.opened || run.closed) run) {
      future = run.future || ltb (now + 30000000000) stamp;
      latest = stamp;
    }
  ]

  unfoldable pub apply_row : RowKind → Event → RunState → RunState
  apply_row opening ev run = beat ev.time (record (break_if run.opened run) { opened = true })
  apply_row heartbeat ev run = beat ev.time run
  apply_row closing ev run =
      record (break_if
        (not run.opened || not (ev.run_count == run.count) || not (text_eq ev.run_head run.head))
        run) { closed = true }
  apply_row bad_event ev run = break_if true run
  apply_row other_row ev run = set_action ev.action_id (action_at ev.action_id run) run
  apply_row (decided dispatch) ev run =
      let (a, bad) = note_decision dispatch (action_at ev.action_id run) in
      set_action ev.action_id a (break_if bad run)
  apply_row (observed o) ev run =
      let (a, bad) = note_observation o (action_at ev.action_id run) in
      set_action ev.action_id a (break_if bad run)
  apply_row (unbound allowed) ev run = break_if (not allowed) run

  unfoldable pub run_step : Event → RunState → RunState
  run_step ev run = record (apply_row (row_kind ev) ev (break_if (is_misplaced ev run) run)) {
    count = next_count run.count;
    head = ev.sig;
  }

  unfoldable pub scan_line : Line → Scan → Scan
  scan_line undecodable s = record s { rows = s.rows + 1; legacy = true }
  scan_line (row checked ev) s =
      let counted = record s { rows = s.rows + 1; signed = s.signed || is_nonempty ev.sig } in
      if is_version 2 ev.schema_version
      then record counted {
        runs = insert ev.run_id (run_step ev (run_or_new (lookup ev.run_id s.runs))) s.runs;
      }
      else record counted { legacy = true }

  unfoldable pub scan_lines : List Line → Scan → Scan
  scan_lines [] s = s
  scan_lines (line ∷ lines) s = scan_lines lines (scan_line line s)

  -- The verdict on one run.
  unfoldable pub assess_run : Bool → Bool → Bool → Text → RunState → RunVerdict × Text
  assess_run checkpointed legacy unsigned id run =
      if not checkpointed || legacy
      then (unassessable, codes "trail is not exclusively verified and checkpointed v2 rows")
      else if unsigned
      then (unassessable, codes "trail is unsigned")
      else if not run.opened
      then (broken_run, codes "run " ++ (id ++ codes " has no open"))
      else if run.broken
      then (broken_run, codes "run structure or action transitions are invalid")
      else if run.future
      then (unassessable, codes "open or heartbeat is more than 30 seconds in the future")
      else if run.closed && not (all_terminal run.actions)
      then (incomplete_run, codes "recorded action lacks a terminal observation")
      else if run.closed
      then (limited, codes "signed recorded observation stream is internally complete")
      else if leb (run.latest + 90000000000) now
      then (
        incomplete_run,
        codes
            "run has no close and its last heartbeat is stale; abnormal end or truncation is unknown",
      )
      else (in_progress, codes "run has no close and its last heartbeat is recent")

  unfoldable pub assess_all : Bool → Bool → Bool → Map RunState → List RunAssessment
  assess_all checkpointed legacy unsigned [] = []
  assess_all checkpointed legacy unsigned ((id, run) ∷ runs) =
      let (verdict, reason) = assess_run checkpointed legacy unsigned id run in
      record { run_id = id; verdict = verdict; reason = reason }
      ∷ assess_all checkpointed legacy unsigned runs

  -- `AssessRuns`, where the scanner may have failed after the lines.
  unfoldable pub assess_runs : List Line → Bool → Bool → List RunAssessment
  assess_runs lines scan_failed checkpointed =
      let s = scan_lines lines new_scan in
      let trusted = checkpointed && not scan_failed in
      elim s.runs [
        | [] ↦
            if is_unsigned s
            then no_run unassessable (codes "trail is unsigned") ∷ []
            else if not trusted
            then no_run unassessable (codes "trail is not verified and checkpointed") ∷ []
            else no_run unverified (codes "legacy or empty trail has no run lifecycle") ∷ []
        | run ∷ runs ↦ assess_all trusted s.legacy (is_unsigned s) (sort_runs (run ∷ runs))
      ]
