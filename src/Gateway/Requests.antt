-- ===== src/Gateway/Requests.antt =====
-- The checks of the gateway's `ServeHTTP` before a request reaches its session, of
-- internal/gateway/gateway.go, on a decoded request.
use nockguard.Base.{
  ℕ, Bool, true, false, not, ◌&&◌, ◌||◌, Option, none, some, List, [], ◌∷◌, ltb, any, Text, codes,
  text_eq, is_nonempty, Result, ok, err, ◌>>=◌, ◌>>◌, fail_if,
}
use nockguard.Gateway.Sessions.{Gateway, Acquired, granted, acquire}

-- The resource's host and the origins of the configuration.
pub record Entry : Type 0 where
  pub host : Text
  pub allowed_origins : List Text

-- `odd_url` is whether the URL has a query or an escaped path; `size` is none where the body cannot be
-- read, and `decoded` its method and raw ID where it decodes.
pub record Request : Type 0 where
  pub host : Text
  pub origins : List Text
  pub odd_url : Bool
  pub path : Text
  pub method : Text
  pub size : Option ℕ
  pub decoded : Option (Text × Text)
  pub session_ids : List Text

-- What surrounds a request: whether a slot for the introspection and one for the request are free, and
-- what the introspection says.
pub record Surroundings : Type 0 where
  pub auth_slot : Bool
  pub authentic : Bool
  pub slot : Bool

-- `metadata` is the answer with the resource's metadata, for which no session is taken either.
pub data Refusal : Type 0 where
  invalid_host origin_forbidden unknown_path metadata method_not_allowed : Refusal
  gateway_busy authentication_required unreadable too_large invalid_request : Refusal
  invalid_session initialize_requires_new_session : Refusal

abbrev pub body_limit : ℕ
body_limit = 10485760

abbrev pub origin_allowed : Entry → List Text → Bool
origin_allowed c [] = true
origin_allowed c (origin ∷ []) = any (text_eq origin) c.allowed_origins
origin_allowed c (a ∷ b ∷ more) = false

abbrev pub is_metadata : Request → Bool
is_metadata r =
    text_eq r.path (codes "/.well-known/oauth-protected-resource/mcp")
    && text_eq r.method (codes "GET")

abbrev pub read_size : Option ℕ → Result Refusal ℕ
read_size none = err unreadable
read_size (some n) = fail_if (ltb body_limit n) too_large >> ok n

abbrev pub read_message : Option (Text × Text) → Result Refusal (Text × Text)
read_message none = err invalid_request
read_message (some m) = ok m

-- `Header.Get` of the session's ID.
abbrev pub session_id : List Text → Result Refusal Text
session_id [] = ok []
session_id (id ∷ []) = ok id
session_id (a ∷ b ∷ more) = err invalid_session

abbrev pub is_initialize : Text → Bool
is_initialize method = text_eq method (codes "initialize")

abbrev pub has_request_id : Text → Bool
has_request_id raw = is_nonempty raw && not (text_eq raw (codes "null"))

-- An initialize comes without a session and with an ID, any other message with a session.
unfoldable pub check_initialize : Text → Text × Text → Result Refusal (Unit {0})
check_initialize id (method, raw) =
    let bad =
      (not (is_nonempty id) && (not (is_initialize method) || not (has_request_id raw)))
      || (is_nonempty id && is_initialize method) in
    fail_if bad initialize_requires_new_session

-- The checks from the body on.
unfoldable pub read_body : Request → Result Refusal Text
read_body r = do
  n ← read_size r.size
  m ← read_message r.decoded
  id ← session_id r.session_ids
  check_initialize id m
  ok id

-- The session's ID, empty for an initialize, or the refusal.
unfoldable pub check_request : Entry → Surroundings → Request → Result Refusal Text
check_request c s r = do
  fail_if (not (text_eq r.host c.host)) invalid_host
  fail_if (not (origin_allowed c r.origins)) origin_forbidden
  fail_if r.odd_url unknown_path
  fail_if (is_metadata r) metadata
  fail_if (not (text_eq r.path (codes "/mcp"))) unknown_path
  fail_if (not (text_eq r.method (codes "POST"))) method_not_allowed
  fail_if (not s.auth_slot) gateway_busy
  fail_if (not s.authentic) authentication_required
  fail_if (not s.slot) gateway_busy
  read_body r

abbrev pub held_session : Acquired → Option Text
held_session (granted id s) = some id
held_session _ = none

unfoldable pub enter : ℕ → Option Text → Gateway → Result Refusal Text → Gateway × Option Text
enter now random g (err e) = (g, none)
enter now random g (ok id) = let (g', a) = acquire now random id g in (g', held_session a)

-- The checks, then the session: the ID of the session that the request holds, none if it is refused.
unfoldable pub serve :
    Entry → Surroundings → ℕ → Option Text → Request → Gateway → Gateway × Option Text
serve c s now random r g = enter now random g (check_request c s r)
