-- ===== src/Gateway/Tests.antt =====
-- Requests for one session, and the theorem at them.
use nockguard.Base.{
  true, false, some, [], ◌∷◌, ◌≤◌, ◌≡◌, ◌⊎◌, refl, List, length, codes, Text, text_eq, ok,
}
use nockguard.Gateway.Sessions.{session_limit, acquire}
use nockguard.Gateway.Requests.{
  Entry, Request, Surroundings, check_request, serve, enter, read_body, check_initialize,
}
use nockguard.Gateway.Entered.{Entered, serve-Entered}
use nockguard.Gateway.Owners.{WasFree}
use nockguard.Gateway.Exclusive.{
  SessionEvent, arrive, ready, run_sessions, new_gateway, run_sessions-WasFree,
}

-- A session is made and answered, then taken by a second request.
abbrev requests : List SessionEvent
requests =
    arrive 1 (some (codes "s")) []
    ∷ ready (codes "s") 0 (codes "up") 2
    ∷ arrive 3 (some (codes "t")) (codes "s")
    ∷ []

run_sessions-WasFree_example :
    WasFree
      (run_sessions requests (new_gateway, [])).1
      (acquire 4 (some (codes "u")) (codes "s") (run_sessions requests (new_gateway, [])).0).1
    × (length
          (acquire 4
            (some (codes "u"))
            (codes "s")
            (run_sessions requests (new_gateway, [])).0).0.sessions
        ≤ session_limit)
run_sessions-WasFree_example = run_sessions-WasFree requests 4 (some (codes "u")) (codes "s")

abbrev entry : Entry
entry = record { host = codes "mcp.host"; allowed_origins = codes "https://a.host" ∷ [] }

abbrev surroundings : Surroundings
surroundings = record { auth_slot = true; authentic = true; slot = true }

abbrev initialize : Request
initialize = record {
  host = codes "mcp.host";
  origins = codes "https://a.host" ∷ [];
  odd_url = false;
  path = codes "/mcp";
  method = codes "POST";
  size = some 90;
  decoded = some (codes "initialize", codes "1");
  session_ids = [];
}

initialize_checked : check_request entry surroundings initialize ≡ ok []
unfolding check_request read_body check_initialize text_eq
initialize_checked = refl

initialize_served :
    (serve entry surroundings 1 (some (codes "s")) initialize new_gateway).1 ≡ some (codes "s")
unfolding serve enter check_request read_body check_initialize text_eq acquire
initialize_served = refl

serve-Entered_example :
    (id : Text) × Entered entry surroundings initialize id
    × (((id ≡ []) × (some (codes "s") ≡ some (codes "s"))) ⊎ (id ≡ codes "s"))
serve-Entered_example =
    serve-Entered entry surroundings 1 (some (codes "s")) initialize new_gateway (codes "s")
      initialize_served
