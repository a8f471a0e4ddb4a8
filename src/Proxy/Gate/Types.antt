-- ===== src/Proxy/Gate/Types.antt =====
-- What the gate takes and gives: the world around a message, the message and the decision, of
-- internal/approval/approval.go, internal/jsonrpc/message.go and internal/proxy/stdio.go.
use nockguard.Base.{ℕ, Bool, Option, List, Text, ℤ}
use nockguard.Proxy.Json.{Fields}
use nockguard.Proxy.Calls.{References}
use nockguard.Proxy.Pins.{PinCause}

-- What an approver answers: the verdict, and the taps of others that it turned away meanwhile.
pub record Approval : Type 0 where
  pub approved : Bool
  pub reason : Text
  pub actor : Text
  pub rejected_taps : List Text

-- The world around one message: the clock, the dynamic limit, the human, the validator (`none` where
-- it is off), the secrets, and the encoder, whose bytes go to the server.
pub record World (Bytes : Type 0) : Type 0 where
  pub quote : Text → Text
  pub oversize_reason : Text → Text → Text
  pub valid_prefix : Text → Text
  pub now : ℕ
  pub max_calls : ℤ → ℤ
  pub approve : Text → Text → Approval
  pub validator : Option (Fields → Option Text)
  pub resolver : Text → Option Text
  pub encode : Fields → Option Bytes
  pub writer_refuses : ℕ → Bool

-- A message, decoded: its members, its parameters if they are an object, its raw ID if it has one.
pub record Message : Type 0 where
  pub method : Text
  pub id : Option Text
  pub params : Option Fields
  pub members : Fields

-- Why a call was not forwarded.
pub data Cause : Type 0 where
  no_cause policy_denied validation_blocked limit_reached approval_denied : Cause
  pin : PinCause → Cause

pub data RejectCode : Type 0 where
  parse_error invalid_request method_not_found internal_error : RejectCode

pub record McpDecision (Bytes : Type 0) : Type 0 where
  pub forward : Option Bytes
  pub reject : Option RejectCode
  pub reject_id : Option Text
  pub tools_list_id : Option Text
  pub tool : Text
  pub forward_id : Option Text
  pub tool_for_state : Text
  pub refs : Option References
  pub deferred : List (Text × Text)
  pub cause : Cause

-- The failures of `canonicalizeMessage`.
pub data MessageFailure : Type 0 where
  undecodable ambiguous_key marshal_failed decode_failed : MessageFailure
