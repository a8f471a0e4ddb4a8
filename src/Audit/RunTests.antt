-- ===== src/Audit/RunTests.antt =====
-- A run with one dispatched action, and the theorem on complete runs at it.
use nockguard.Base.{
  ℕ, zero, suc, true, false, Option, some, List, [], ◌∷◌, ◌++◌, ◌≡◌, refl, Text, codes, text_eq,
  byte_length, lookup, insert, pos,
}
use nockguard.Audit.Event.{Event, blank_event}
use nockguard.Audit.Validate.{
  validate_audit_event, validate_v2_event, validate_record, validate_run_event, validate_fields,
  validate_action_id, validate_approval_actor, record_kind, run_event_kind, is_lower_hex,
  has_v2_field, split_dots, is_canonical_uint, digits_value,
}
use nockguard.Audit.Chain.{Line, row}
use nockguard.Audit.Completeness.{
  RunState, row_kind, note_decision, note_observation, beat, apply_row, run_step, scan_line,
  scan_lines, assess_run, new_scan,
}
use nockguard.Audit.Assessed.{rows_of_run}
use nockguard.Audit.Limited.{IsComplete, limited-IsComplete}

abbrev repeated : ℕ → ℕ → Text
repeated zero c = []
repeated (suc n) c = c ∷ repeated n c

abbrev run_id : Text
run_id = repeated 32 b'a'

abbrev a_sig : Text
a_sig = repeated 64 b'b'

abbrev run_row : ℕ → Event
run_row n = record blank_event {
  time = codes "12:00";
  agent = codes "coder";
  schema_version = pos 2;
  run_id = run_id;
  run_seq = n;
  sig = a_sig;
}

abbrev run_trail : List Line
run_trail =
    row true (record (run_row 1) { record_type = codes "run"; run_event = codes "open" })
    ∷ row true (record (run_row 2) {
      record_type = codes "decision";
      decision = codes "dispatch";
      tool = codes "push";
      action_id = run_id ++ codes ".1";
    })
    ∷ row true (record (run_row 3) {
      record_type = codes "action_observation";
      observation = codes "response_observed";
      response_class = codes "jsonrpc_result";
      action_id = run_id ++ codes ".1";
    })
    ∷ row true (record (run_row 4) {
      record_type = codes "run";
      run_event = codes "close";
      run_count = 3;
      run_head = a_sig;
    })
    ∷ []

abbrev noon : Text → Option ℕ
noon t = some 100

abbrev finished : RunState
finished = record {
  count = 4;
  head = a_sig;
  opened = true;
  closed = true;
  latest = 100;
  future = false;
  broken = false;
  actions =
      (
        run_id ++ codes ".1",
        record { dispatch = true; terminal = true; unknown = false; decisions = 1; late = false },
      )
      ∷ [];
}

run_trail-finished : lookup run_id (scan_lines noon 100 run_trail new_scan).runs ≡ some finished
unfolding lookup insert scan_lines scan_line run_step apply_row beat note_decision note_observation
    row_kind text_eq validate_audit_event validate_v2_event validate_record validate_run_event
    validate_fields validate_action_id validate_approval_actor record_kind run_event_kind
    is_lower_hex has_v2_field split_dots is_canonical_uint digits_value byte_length
run_trail-finished = refl

limited-IsComplete_example : IsComplete (rows_of_run run_id run_trail)
unfolding scan_lines scan_line assess_run
limited-IsComplete_example =
    limited-IsComplete noon 100 run_trail true run_id finished run_trail-finished refl
