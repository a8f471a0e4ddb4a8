-- ===== src/Gateway/Sessions.antt =====
-- The gateway's table of sessions, `acquire` and the deferred release of `ServeHTTP` in
-- internal/gateway/gateway.go. The mutex makes each function one step. A session's number stands for its
-- pointer. The clock and the random ID are given with each call.
use nockguard.Base.{
  ℕ, ◌+◌, ◌-◌, Bool, true, false, not, ◌&&◌, Option, none, some, [], ◌∷◌, length, leb, ◌==◌,
  if◌then◌else◌, Text, Map, lookup, delete, is_nonempty, text_eq,
}

pub record Session : Type 0 where
  pub number : ℕ
  pub upstream_id : Text
  pub last_used : ℕ
  pub busy : Bool

pub record Gateway : Type 0 where
  pub sessions : Map Session
  pub made : ℕ

abbrev pub session_limit : ℕ
session_limit = 64

-- 30 minutes in nanoseconds.
abbrev pub session_ttl : ℕ
session_ttl = 1800000000000

-- `g.sessions[id] = s`: the order of a Go map is of no account.
abbrev pub store : Text → Session → Map Session → Map Session
store id s sessions = (id, s) ∷ delete id sessions

unfoldable pub expire : ℕ → Map Session → Map Session
expire now [] = []
expire now ((id, s) ∷ rest) =
    let left = expire now rest in
    if not s.busy && leb session_ttl (now - s.last_used) then left else (id, s) ∷ left

-- The session with its ID, or the status of the refusal.
pub data Acquired : Type 0 where
  granted : Text → Session → Acquired
  not_found too_many unavailable : Acquired

abbrev pub acquire_known : Text → Option Session → Gateway → Gateway × Acquired
acquire_known id none g = (g, not_found)
acquire_known id (some s) g =
    let taken = record s { busy = true } in
    if s.busy
    then (g, too_many)
    else (record g { sessions = store id taken g.sessions }, granted id taken)

abbrev pub acquire_new : ℕ → Option Text → Gateway → Gateway × Acquired
acquire_new now none g = (g, unavailable)
acquire_new now (some id) g =
    let s : Session = record { number = g.made; upstream_id = []; last_used = now; busy = true } in
    (record g { sessions = store id s g.sessions; made = g.made + 1 }, granted id s)

unfoldable pub acquire : ℕ → Option Text → Text → Gateway → Gateway × Acquired
unfolding expire
acquire now random id g =
    let swept = record g { sessions = expire now g.sessions } in
    if is_nonempty id
    then acquire_known id (lookup id swept.sessions) swept
    else if leb session_limit (length swept.sessions)
    then (swept, too_many)
    else acquire_new now random swept

abbrev pub changed : Text → ℕ → (Session → Session) → Text → Session → Session
changed id number change key s = if text_eq key id && s.number == number then change s else s

abbrev pub change_all : Text → ℕ → (Session → Session) → Map Session → Map Session
change_all id number change [] = []
change_all id number change ((key, s) ∷ rest) =
    (key, changed id number change key s) ∷ change_all id number change rest

-- What is done to the session that a request holds, if the table still has it.
unfoldable pub update : Text → ℕ → (Session → Session) → Gateway → Gateway
update id number change g = record g { sessions = change_all id number change g.sessions }

abbrev pub freed : ℕ → Session → Session
freed now s = record s { busy = false; last_used = now }

-- `onReady` of an initialize: the session is open to the next request.
unfoldable pub on_ready : Text → ℕ → Text → ℕ → Gateway → Gateway
unfolding update
on_ready id number upstream_id now g =
    update id number (λ s. record (freed now s) { upstream_id = upstream_id }) g

-- The deferred function of a request that was not released before.
unfoldable pub release : Text → ℕ → Bool → ℕ → Gateway → Gateway
unfolding update
release id number success now g =
    let done = update id number (freed now) g in
    if success then done else record done { sessions = delete id done.sessions }

-- The deferred function of a request that was released by `onReady`.
unfoldable pub refresh : Text → ℕ → ℕ → Gateway → Gateway
unfolding update
refresh id number now g =
    update id number (λ s. if s.busy then s else record s { last_used = now }) g
