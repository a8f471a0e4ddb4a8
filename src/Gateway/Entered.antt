-- ===== src/Gateway/Entered.antt =====
-- What a request has passed that holds a session, of `ServeHTTP` in internal/gateway/gateway.go.
use nockguard.Base.{
  if◌then◌else◌, length, leb, lookup, ℕ, ◌≤◌, Bool, true, false, not, ◌||◌, Option, none, some,
  List, [], ◌∷◌, ◌≡◌, ◌⊎◌, inl, inr, refl, arith, ltb, Text, codes, text_eq, eq_of_text_eq,
  text_eq_refl, some_injective, is_nonempty, ok_injective, ap, >>-eq-ok, >>=-eq-ok, fail_if-IsOk,
  Result, ok, err, ◌>>◌, fail_if, IsOk,
}
use nockguard.Gateway.Sessions.{
  Session, Gateway, session_limit, expire, Acquired, too_many, acquire_new, acquire_known, acquire,
}
use nockguard.Gateway.Requests.{
  Refusal, Entry, Request, Surroundings, body_limit, origin_allowed, is_metadata, read_size,
  read_message, session_id, is_initialize, has_request_id, check_initialize, read_body,
  check_request, held_session, enter, serve, invalid_host, origin_forbidden, unknown_path, metadata,
  method_not_allowed, gateway_busy, authentication_required, too_large,
  initialize_requires_new_session,
}

-- An initialize with an ID and without a session, or another message with one.
abbrev pub Fits : Text → Text × Text → Type 0
Fits id (method, raw) =
    ((id ≡ []) × (method ≡ codes "initialize") × (has_request_id raw ≡ true))
    ⊎ ((is_nonempty id ≡ true) × (is_initialize method ≡ false))

-- What a request has passed that reaches the table of sessions with this ID.
pub record Entered (c : Entry) (s : Surroundings) (r : Request) (id : Text) : Type 0 where
  pub host : r.host ≡ c.host
  pub origin : origin_allowed c r.origins ≡ true
  pub plain : r.odd_url ≡ false
  pub path : r.path ≡ codes "/mcp"
  pub method : r.method ≡ codes "POST"
  pub asked : s.auth_slot ≡ true
  pub authentic : s.authentic ≡ true
  pub admitted : s.slot ≡ true
  pub body : (n : ℕ) × (r.size ≡ some n) × (n ≤ body_limit)
  pub session : session_id r.session_ids ≡ ok id
  pub message : (m : Text × Text) × (r.decoded ≡ some m) × Fits id m

fail_if-passed {ℓ} :
    {E : Type 0} {B : Type ℓ} (b : Bool) (e : E) (k : Result E B) {y : B}
    → (fail_if b e >> k) ≡ ok y
    → (b ≡ false) × (k ≡ ok y)
fail_if-passed true e k h = cc
fail_if-passed false e k h = (refl, h)

fail_if-not-passed {ℓ} :
    {E : Type 0} {B : Type ℓ} (b : Bool) (e : E) (k : Result E B) {y : B}
    → (fail_if (not b) e >> k) ≡ ok y
    → (b ≡ true) × (k ≡ ok y)
fail_if-not-passed true e k h = (refl, h)
fail_if-not-passed false e k h = cc

size-le : (m n : ℕ) → ltb body_limit m ≡ false → m ≡ n → n ≤ body_limit
size-le m n within same = ground (arith, within, same)

read_size-body :
    (size : Option ℕ) (n : ℕ) → read_size size ≡ ok n → (size ≡ some n) × (n ≤ body_limit)
read_size-body none n h = cc
read_size-body (some m) n h =
    let (within, same) = fail_if-passed (ltb body_limit m) too_large (ok m) h in
    (ap some (ok_injective m n same), size-le m n within (ok_injective m n same))

read_message-decoded :
    (decoded : Option (Text × Text)) (m : Text × Text)
    → read_message decoded ≡ ok m
    → decoded ≡ some m
read_message-decoded none m h = cc
read_message-decoded (some x) m h = ap some (ok_injective x m h)

both_pass : (a b : Bool) → (not a || not b) ≡ false → (a ≡ true) × (b ≡ true)
both_pass true true h = (refl, refl)
both_pass true false h = cc
both_pass false b h = cc

or_false : (a : Bool) → (a || false) ≡ false → a ≡ false
or_false true h = cc
or_false false h = refl

check_initialize-Fits : (id : Text) (m : Text × Text) → IsOk (check_initialize id m) → Fits id m
unfolding check_initialize
check_initialize-Fits [] (method, raw) h =
    let bad = not (is_initialize method) || not (has_request_id raw) in
    let fits = or_false bad (fail_if-IsOk (bad || false) initialize_requires_new_session h) in
    let (initial, named) = both_pass (is_initialize method) (has_request_id raw) fits in
    inl (refl, eq_of_text_eq method (codes "initialize") initial, named)
check_initialize-Fits (b ∷ id) (method, raw) h =
    inr (refl, fail_if-IsOk (is_initialize method) initialize_requires_new_session h)

named-Fits :
    (ids : List Text) (x id : Text) (m : Text × Text)
    → x ≡ id
    → session_id ids ≡ ok x
    → Fits x m
    → (session_id ids ≡ ok id) × Fits id m
named-Fits ids x id m same named fits = rw⁻¹ same (named, fits)

check_request-Entered :
    (c : Entry) (s : Surroundings) (r : Request) (id : Text)
    → check_request c s r ≡ ok id
    → Entered c s r id
unfolding check_request read_body
check_request-Entered c s r id h =
    let (host, h1) = fail_if-not-passed (text_eq r.host c.host) invalid_host _ h in
    let (origin, h2) = fail_if-not-passed (origin_allowed c r.origins) origin_forbidden _ h1 in
    let (plain, h3) = fail_if-passed r.odd_url unknown_path _ h2 in
    let (told, h4) = fail_if-passed (is_metadata r) metadata _ h3 in
    let (path, h5) = fail_if-not-passed (text_eq r.path (codes "/mcp")) unknown_path _ h4 in
    let (method, h6) =
      fail_if-not-passed (text_eq r.method (codes "POST")) method_not_allowed _ h5 in
    let (asked, h7) = fail_if-not-passed s.auth_slot gateway_busy _ h6 in
    let (authentic, h8) = fail_if-not-passed s.authentic authentication_required _ h7 in
    let (admitted, h9) = fail_if-not-passed s.slot gateway_busy _ h8 in
    let (n, sized, h10) = >>=-eq-ok (read_size r.size) _ h9 in
    let (m, read, h11) = >>=-eq-ok (read_message r.decoded) _ h10 in
    let (x, named, h12) = >>=-eq-ok (session_id r.session_ids) _ h11 in
    let (fits, same) = >>-eq-ok (check_initialize x m) x id h12 in
    let (size, bound) = read_size-body r.size n sized in
    let (session, fit) =
      named-Fits r.session_ids x id m same named (check_initialize-Fits x m fits) in
    record {
      host = eq_of_text_eq r.host c.host host;
      origin = origin;
      plain = plain;
      path = eq_of_text_eq r.path (codes "/mcp") path;
      method = eq_of_text_eq r.method (codes "POST") method;
      asked = asked;
      authentic = authentic;
      admitted = admitted;
      body = (n, size, bound);
      session = session;
      message = (m, read_message-decoded r.decoded m read, fit);
    }

Fits-check_initialize :
    (id : Text) (m : Text × Text) → Fits id m → (check_initialize id m >> ok id) ≡ ok id
unfolding check_initialize text_eq
Fits-check_initialize id (method, raw) (inl (new, initial, named)) =
    rw new (rw initial (rw named refl))
Fits-check_initialize id (method, raw) (inr (held, later)) = rw held (rw later refl)

ltb-over : (n : ℕ) → n ≤ body_limit → ltb body_limit n ≡ false
ltb-over n bound = ground (arith, bound)

read_all :
    (r : Request) (n : ℕ) (m : Text × Text) (id : Text)
    → r.size ≡ some n
    → n ≤ body_limit
    → r.decoded ≡ some m
    → session_id r.session_ids ≡ ok id
    → Fits id m
    → read_body r ≡ ok id
unfolding read_body
read_all r n m id size bound read named fits =
    rw size (rw (ltb-over n bound) (rw read (rw named (Fits-check_initialize id m fits))))

Entered-check_request :
    (c : Entry) (s : Surroundings) (r : Request) (id : Text)
    → Entered c s r id
    → check_request c s r ≡ ok id
unfolding check_request text_eq read_body
Entered-check_request c s r id e =
    let (n, size, bound) = e.body in
    let (m, read, fits) = e.message in
    rw e.host (
      rw (text_eq_refl c.host) (
        rw e.origin (
          rw e.plain (
            rw e.path (
              rw e.method (
                rw e.asked (
                  rw e.authentic
                    (rw e.admitted (read_all r n m id size bound read e.session fits)))))))))

held-if :
    (b : Bool) (x y : Gateway × Acquired) (held : Text)
    → held_session (if b then x else y).1 ≡ some held
    → (held_session x.1 ≡ some held) ⊎ (held_session y.1 ≡ some held)
held-if true x y held h = inl h
held-if false x y held h = inr h

known-held :
    (id held : Text) (found : Option Session) (g : Gateway)
    → held_session (acquire_known id found g).1 ≡ some held
    → id ≡ held
known-held id held none g h = cc
known-held id held (some s) g h = elim (held-if s.busy (g, too_many) _ held h) [
  | inl refused ↦ cc
  | inr given ↦ some_injective id held given
]

new-held :
    (now : ℕ) (random : Option Text) (held : Text) (g : Gateway)
    → held_session (acquire_new now random g).1 ≡ some held
    → random ≡ some held
new-held now none held g h = cc
new-held now (some id) held g h = h

acquire-held :
    (now : ℕ) (random : Option Text) (id held : Text) (g : Gateway)
    → held_session (acquire now random id g).1 ≡ some held
    → ((id ≡ []) × (random ≡ some held)) ⊎ (id ≡ held)
unfolding acquire
acquire-held now random [] held g h =
    let swept = record g { sessions = expire now g.sessions } in
    elim (held-if (leb session_limit (length swept.sessions)) (swept, too_many) _ held h) [
      | inl refused ↦ cc
      | inr given ↦ inl (refl, new-held now random held swept given)
    ]
acquire-held now random (b ∷ id) held g h =
    let swept = record g { sessions = expire now g.sessions } in
    inr (known-held (b ∷ id) held (lookup (b ∷ id) swept.sessions) swept h)

-- The checks of a request accept it with an ID just if it has passed each of them with this ID.
check_request-iff-Entered :
    (c : Entry) (s : Surroundings) (r : Request) (id : Text)
    → ((check_request c s r ≡ ok id) → Entered c s r id)
      × (Entered c s r id → check_request c s r ≡ ok id)
check_request-iff-Entered c s r id =
    (check_request-Entered c s r id, Entered-check_request c s r id)

-- A request holds a session only if it has passed every check: its host, origin, path and method, the
-- token, a free slot, a body within the limit, and either an initialize with an ID and no session, which
-- holds the session of the fresh random ID, or another message, which holds the session that it names.
pub serve-Entered :
    (c : Entry) (s : Surroundings) (now : ℕ) (random : Option Text) (r : Request) (g : Gateway)
    (held : Text)
    → (serve c s now random r g).1 ≡ some held
    → (id : Text) × Entered c s r id × (((id ≡ []) × (random ≡ some held)) ⊎ (id ≡ held))
unfolding serve enter
serve-Entered c s now random r g held h = go (check_request c s r) refl h
  where
    go :
        (checked : Result Refusal Text)
        → check_request c s r ≡ checked
        → (enter now random g checked).1 ≡ some held
        → (id : Text) × Entered c s r id × (((id ≡ []) × (random ≡ some held)) ⊎ (id ≡ held))
    go (err e) same h = cc
    go (ok id) same h =
        (id, check_request-Entered c s r id same, acquire-held now random id held g h)
