-- ===== src/Audit/Writer.antt =====
-- The writer, `Auditor.record` of internal/audit/audit.go, on a signed or unsigned trail. What the
-- operating system does during a call is an argument: the clock, the lock, each read, write and sync.
use nockguard.Base.{
  ℕ, ◌+◌, Bool, true, false, not, ◌&&◌, Option, none, some, List, [], ◌∷◌, ◌++◌, ltb, ◌==◌,
  if◌then◌else◌, Text, text_eq, Map, lookup, insert, Result, ok, err, ◌>>=◌, ◌>>◌, fail_if,
  is_nonempty,
}
use nockguard.Audit.Event.{Event}
use nockguard.Audit.Validate.{
  validate_approval_actor, validate_audit_event, is_version, record_kind, run_record,
  run_event_kind, close_run,
}
use nockguard.Audit.Chain.{
  Scheme, Line, undecodable, row, HighWaterMark, hwm_signed_bytes, unsigned_bytes, verify_stream,
  sign_mark,
}

-- The errors of a record, in the order in which they can arise.
pub data WriteError : Type 0 where
  latched writer_closed unavailable bad_actor lock_failed run_is_closed not_durable : WriteError
  seq_assigned seq_exhausted bad_version bad_event lost_path unreadable_tail : WriteError
  bad_checkpoint write_failed sync_failed checkpoint_failed : WriteError

-- How far `writeAll` and the replacement of the checkpoint came. A torn write is cut inside the row,
-- which leaves a line that is no JSON; on an unsigned trail the program would join the next row to it.
pub data Written : Type 0 where
  complete nothing torn : Written

pub data Replaced : Type 0 where
  replaced kept replaced_unsynced : Replaced

pub record Os : Type 0 where
  pub clock : Text
  pub session : Text
  pub lock_ok : Bool
  pub path_ok : Bool
  pub tail_ok : Bool
  pub path_still_ok : Bool
  pub write : Written
  pub sync_ok : Bool
  pub checkpoint : Replaced

-- The auditor with its files: the lines of the trail, and the sidecar. `open_file` is false for a
-- disabled auditor.
pub record Auditor : Type 0 where
  pub signing : Bool
  pub key_id : Text
  pub lines : List Line
  pub hwm : Option HighWaterMark
  pub run_seqs : Map ℕ
  pub run_heads : Map Text
  pub run_closed : Map Bool
  pub open_file : Bool
  pub closed : Bool
  pub required_err : Option WriteError

abbrev pub count_of : Text → Map ℕ → ℕ
count_of k m = elim (lookup k m) [ none ↦ 0 | some n ↦ n ]

abbrev pub text_of : Text → Map Text → Text
text_of k m = elim (lookup k m) [ none ↦ [] | some t ↦ t ]

abbrev pub flag_of : Text → Map Bool → Bool
flag_of k m = elim (lookup k m) [ none ↦ false | some b ↦ b ]

unfoldable pub is_close : Event → Bool
is_close ev = elim (record_kind ev.record_type) [
  | run_record ↦ elim (run_event_kind ev.run_event) [ close_run ↦ true | _ ↦ false ]
  | _ ↦ false
]

abbrev max_u64 : ℕ
max_u64 = 18446744073709551615

abbrev pub is_latched : Option WriteError → Bool
is_latched none = false
is_latched (some e) = true

-- The run counters of a version 2 row.
unfoldable pub assign_run : Auditor → Bool → Event → Result WriteError Event
assign_run a required ev =
    if is_version 2 ev.schema_version
    then if flag_of ev.run_id a.run_closed
      then err run_is_closed
      else if not required
      then err not_durable
      else if not (ev.run_seq == 0)
      then err seq_assigned
      else if count_of ev.run_id a.run_seqs == max_u64
      then err seq_exhausted
      else ok (
          if is_close ev
          then record ev {
            run_seq = count_of ev.run_id a.run_seqs + 1;
            run_count = count_of ev.run_id a.run_seqs;
            run_head = text_of ev.run_id a.run_heads;
          }
          else record ev { run_seq = count_of ev.run_id a.run_seqs + 1 })
    else if is_version 0 ev.schema_version
    then ok ev
    else err bad_version

-- The correlation fields: a session that the caller set stays, a key ID never does.
abbrev pub stamp : Auditor → Os → Event → Event
stamp a os ev = record ev {
  session_id = if is_nonempty ev.session_id then ev.session_id else os.session;
  key_id = a.key_id;
}

-- Everything before the chain is read: the row as it will be signed.
unfoldable pub prepare : Auditor → Os → Bool → Event → Result WriteError Event
prepare a os required ev =
    fail_if (not (validate_approval_actor ev)) bad_actor
    >> fail_if (a.signing && not os.lock_ok) lock_failed
    >> (assign_run a required (record ev { time = os.clock; sig = [] }) >>= λ ev'.
        fail_if (not (validate_audit_event ev')) bad_event
        >> fail_if (required && not os.path_ok) lost_path
        >> ok (stamp a os ev'))

-- `lastSig`: the signature of the last line, or the error of a line that is no JSON.
unfoldable pub last_sig : List Line → Result WriteError Text
last_sig [] = ok []
last_sig (undecodable ∷ []) = err unreadable_tail
last_sig (row b ev ∷ []) = ok ev.sig
last_sig (l ∷ k ∷ ls) = last_sig (k ∷ ls)

abbrev tail_of : Os → Auditor → Result WriteError Text
tail_of os a = fail_if (not os.tail_ok) unreadable_tail >> last_sig a.lines

-- An error that comes before anything was written does not stop a required writer.
unfoldable pub latches : WriteError → Bool
latches bad_actor = false
latches run_is_closed = false
latches not_durable = false
latches seq_assigned = false
latches seq_exhausted = false
latches bad_version = false
latches bad_event = false
latches _ = true

abbrev latch : Bool → WriteError → Auditor → Auditor
latch required e a = elim a.required_err [
  | some old ↦ a
  | none ↦ if required && latches e then record a { required_err = some e } else a
]

-- The run counters after a durable version 2 row.
unfoldable pub commit_run : Event → Auditor → Auditor
commit_run ev a =
    if is_version 2 ev.schema_version
    then record a {
      run_seqs = insert ev.run_id ev.run_seq a.run_seqs;
      run_heads = insert ev.run_id ev.sig a.run_heads;
      run_closed = if is_close ev then insert ev.run_id true a.run_closed else a.run_closed;
    }
    else a

module _ (s : Scheme) where
  -- `checkpointCount`: the checkpoint's count where it names the tail, else that of a whole
  -- verification.
  unfoldable pub checkpoint_count : Auditor → Text → Result WriteError ℕ
  checkpoint_count a last =
      let whole : Result WriteError ℕ = elim (verify_stream s false a.lines a.hwm) [
        | ok n ↦ ok n
        | err e ↦ err bad_checkpoint
      ] in
      elim a.hwm [
        | none ↦ whole
        | some hwm ↦
            if ltb 0 hwm.count && text_eq hwm.last_sig last
            then if text_eq (s.sign (hwm_signed_bytes hwm.count hwm.last_sig) []) hwm.sig
              then ok hwm.count
              else err bad_checkpoint
            else whole
      ]

  -- Under the lock: the count and the signature of the row that is to be appended.
  unfoldable pub sign_row : Auditor → Os → Event → Result WriteError (ℕ × Event)
  sign_row a os ev =
      if a.signing
      then (tail_of os a >>= λ last. checkpoint_count a last >>= λ n.
          ok (n, record ev { sig = s.sign (unsigned_bytes s ev) last }))
      else ok (0, ev)

  -- `updateHighWaterMark` and the end of the call, after the row has been written.
  unfoldable pub advance_mark : Auditor → Os → ℕ → Event → Auditor × Option WriteError
  advance_mark a os n ev =
      let marked = record a { hwm = some (sign_mark s (n + 1) ev.sig) } in
      if a.signing
      then elim os.checkpoint [
        | replaced ↦ (commit_run ev marked, none)
        | kept ↦ (a, some checkpoint_failed)
        | replaced_unsynced ↦ (marked, some checkpoint_failed)
      ]
      else (commit_run ev a, none)

  -- From the second look at the path to the end.
  unfoldable pub append_row : Auditor → Os → Bool → ℕ × Event → Auditor × Option WriteError
  append_row a os required (n, ev) =
      let written = record a { lines = a.lines ++ row true ev ∷ [] } in
      if required && not os.path_still_ok then (a, some lost_path) else elim os.write [
        | nothing ↦ (a, some write_failed)
        | torn ↦ (record a { lines = a.lines ++ undecodable ∷ [] }, some write_failed)
        | complete ↦
            if required && not os.sync_ok
            then (written, some sync_failed)
            else advance_mark written os n ev
      ]

  unfoldable pub record_open : Auditor → Os → Bool → Event → Auditor × Option WriteError
  record_open a os required ev = elim (prepare a os required ev >>= sign_row a os) [
    | err e ↦ (a, some e)
    | ok signed ↦ append_row a os required signed
  ]

  abbrev refuse : Bool → WriteError → Option WriteError
  refuse required e = if required then some e else none

  -- The guards at the head of `record`; a best-effort writer that is closed or disabled does nothing.
  unfoldable pub guarded : Auditor → Os → Bool → Event → Auditor × Option WriteError
  guarded a os required ev =
      if required && is_latched a.required_err
      then (a, some latched)
      else if a.closed
      then (a, refuse required writer_closed)
      else if not a.open_file
      then (a, refuse required unavailable)
      else record_open a os required ev

  -- `Record` and `RecordRequired`, with the deferred latch.
  unfoldable pub write_record : Auditor → Os → Bool → Event → Auditor × Option WriteError
  write_record a os required ev =
      let (a', r) = guarded a os required ev in
      elim r [ none ↦ (a', none) | some e ↦ (latch required e a', some e) ]
