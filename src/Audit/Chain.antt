-- ===== src/Audit/Chain.antt =====
-- The hash chain and its high-water mark, of internal/audit/audit.go: how a row is checked against
-- the one before it, and how a whole trail is verified against its signed checkpoint.
use nockguard.Base.{
  ℕ, zero, suc, ◌+◌, ◌/◌, ◌%◌, Bool, true, not, ◌&&◌, Option, none, some, List, [], ◌∷◌, ◌++◌, ◌≡◌,
  ltb, ◌==◌, if◌then◌else◌, Text, codes, text_eq, Result, ok, err, ◌>>=◌, is_nonempty,
}
use nockguard.Audit.Event.{Event}
use nockguard.Audit.Validate.{validate_audit_event}

-- The signing mode of a trail, HMAC or Ed25519, and `json.Marshal` of a row: `sign canonical prev` is
-- the hex signature of the chained message, `decodes` whether a signature is hex (HMAC compares
-- texts and skips that), `checks` whether a signature verifies.
pub record Scheme : Type 0 where
  pub canonical : Event → Text
  pub sign : Text → Text → Text
  pub decodes : Text → Bool
  pub checks : Text → Text → Text → Bool

-- A non-blank line of the trail: one that is no JSON event, or a row, with whether its raw text
-- passes the envelope checks of `validateAuditLine` (no duplicate or unknown key, no value of the
-- wrong type).
pub data Line : Type 0 where
  undecodable : Line
  row : Bool → Event → Line

pub record HighWaterMark : Type 0 where
  pub count : ℕ
  pub last_sig : Text
  pub sig : Text

pub data TamperCause : Type 0 where
  invalid_json invalid_record not_signed not_hex mismatch : TamperCause

pub data BoundaryCause : Type 0 where
  no_checkpoint bad_checkpoint truncated altered : BoundaryCause

-- The number is that of the entries read, as the functions return it beside the error.
pub data VerifyError : Type 0 where
  tamper : ℕ → TamperCause → VerifyError
  boundary : ℕ → BoundaryCause → VerifyError
  unreadable : ℕ → VerifyError

-- `%d`: the digits of a number, with fuel above it.
unfoldable pub digits : ℕ → ℕ → Text → Text
digits zero n acc = acc
digits (suc f) n acc =
    let more = digits f (n / 10) ((b'0' + n % 10) ∷ acc) in
    if ltb n 10 then (b'0' + n) ∷ acc else more

unfoldable pub decimal : ℕ → Text
unfolding digits
decimal n = digits (suc n) n []

unfoldable pub hwm_signed_bytes : ℕ → Text → Text
unfolding decimal
hwm_signed_bytes count last_sig =
    codes "nockguard-hwm-v1" ++ (10 ∷ (decimal count ++ (10 ∷ last_sig)))

-- Where a walk over the trail has come to: the entries read, the last signature, and the signature
-- at the checkpoint's count.
pub record Walk : Type 0 where
  pub count : ℕ
  pub prev : Text
  pub sig_at_count : Text

abbrev pub start : Walk
start = record { count = 0; prev = []; sig_at_count = [] }

abbrev pub marked_count : Option HighWaterMark → ℕ
marked_count none = 0
marked_count (some hwm) = hwm.count

-- `validateAuditLine`: an explicit version other than 2 is refused with the envelope.
abbrev pub accepted : Bool → Event → Bool
accepted lossless ev = lossless && validate_audit_event ev

module _ (s : Scheme) where
  abbrev pub unsigned_bytes : Event → Text
  unsigned_bytes ev = s.canonical (record ev { sig = [] })

  -- One round of the loop in `verifyHMACStream` and `verifyEd25519Stream`, at entry `n`: the row's
  -- signature.
  unfoldable pub check_line : Text → ℕ → Line → Result VerifyError Text
  check_line prev n undecodable = err (tamper n invalid_json)
  check_line prev n (row lossless ev) =
      if not (accepted lossless ev)
      then err (tamper n invalid_record)
      else if not (is_nonempty ev.sig)
      then err (tamper n not_signed)
      else if not (s.decodes ev.sig)
      then err (tamper n not_hex)
      else if not (s.checks (unsigned_bytes ev) prev ev.sig)
      then err (tamper n mismatch)
      else ok ev.sig

  -- The count starts at 1, so a trail with no checkpoint has the mark 0.
  abbrev pub advance : ℕ → Walk → Text → Walk
  advance mark w sig = record {
    count = suc w.count;
    prev = sig;
    sig_at_count = if suc w.count == mark then sig else w.sig_at_count;
  }

  unfoldable pub walk : ℕ → Walk → List Line → Result VerifyError Walk
  walk mark w [] = ok w
  walk mark w (l ∷ ls) =
      check_line w.prev (suc w.count) l >>= λ sig. walk mark (advance mark w sig) ls

  -- `checkHighWaterMark`: `none` where the checkpoint agrees.
  unfoldable pub check_high_water_mark : Option HighWaterMark → ℕ → Text → Option BoundaryCause
  check_high_water_mark none n sig_at_count = if ltb 0 n then some no_checkpoint else none
  check_high_water_mark (some hwm) n sig_at_count =
      if not (s.decodes hwm.sig && s.checks (hwm_signed_bytes hwm.count hwm.last_sig) [] hwm.sig)
      then some bad_checkpoint
      else if ltb n hwm.count
      then some truncated
      else if not (text_eq sig_at_count hwm.last_sig)
      then some altered
      else none

  -- `scan_error` says that reading stopped before the end of the trail.
  unfoldable pub verify_stream : Bool → List Line → Option HighWaterMark → Result VerifyError ℕ
  verify_stream scan_error lines hwm = walk (marked_count hwm) start lines >>= λ w.
      if scan_error
      then err (unreadable w.count)
      else elim (check_high_water_mark hwm w.count w.sig_at_count) [
        | none ↦ ok w.count
        | some cause ↦ err (boundary w.count cause)
      ]

  unfoldable pub sign_mark : ℕ → Text → HighWaterMark
  sign_mark count last_sig = record {
    count = count;
    last_sig = last_sig;
    sig = s.sign (hwm_signed_bytes count last_sig) [];
  }

-- What the trail relies on of the signing mode: that what is signed verifies.
pub record IsSigning (s : Scheme) : Type 0 where
  pub nonempty : (c p : Text) → is_nonempty (s.sign c p) ≡ true
  pub decodable : (c p : Text) → s.decodes (s.sign c p) ≡ true
  pub verifies : (c p : Text) → s.checks c p (s.sign c p) ≡ true

-- The ideal of a signature that nobody forges, and of a faithful encoding of rows: a signature
-- verifies for one row, after one predecessor.
pub record IsBinding (s : Scheme) : Type 0 where
  pub one_row :
      (e f : Event) (p q sig : Text)
      → s.checks (s.canonical e) p sig ≡ true
      → s.checks (s.canonical f) q sig ≡ true
      → (e ≡ f) × (p ≡ q)
