-- ===== src/Gateway/Exclusive.antt =====
-- No two requests hold one session of the gateway at a time, over any interleaving of
-- internal/gateway/gateway.go.
use nockguard.Base.{
  ℕ, suc, ◌≤◌, Bool, true, false, ◌&&◌, Option, List, [], ◌∷◌, ◌≡◌, inl, inr, refl, sym, ap, ◌∙◌,
  arith, length, leb, ◌==◌, All, if◌then◌else◌, Text, lookup, delete, is_nonempty, text_eq,
  text_eq_refl, eq_of_text_eq, Map, Bool-cases,
}
use nockguard.Gateway.Sessions.{
  Session, Gateway, session_limit, expire, acquire, update, change_all, changed, freed, on_ready,
  release, refresh,
}
use nockguard.Gateway.Owners.{
  Holder, is_holder, is_held, drop_holder, IsOwned, IsGiven, Exclusive, length-expire, All-expire,
  length-delete, All-delete, arrived, WasFree, acquire_new-Exclusive, acquire_known-Exclusive,
}

-- What requests do: one arrives with an ID, empty for none; one that holds a session is answered before
-- it ends, or ends; and one that was answered before notes the time.
pub data SessionEvent : Type 0 where
  arrive : ℕ → Option Text → Text → SessionEvent
  ready : Text → ℕ → Text → ℕ → SessionEvent
  finish : Text → ℕ → Bool → ℕ → SessionEvent
  touch : Text → ℕ → ℕ → SessionEvent

abbrev pub State : Type 0
State = Gateway × List Holder

-- Only a request that holds a session is answered or ends.
unfoldable pub session_step : SessionEvent → State → State
session_step (arrive now random id) (g, held) =
    let out = acquire now random id g in (out.0, arrived held out)
session_step (ready id number upstream_id now) (g, held) =
    if is_held held id number
    then (on_ready id number upstream_id now g, drop_holder id number held)
    else (g, held)
session_step (finish id number success now) (g, held) =
    if is_held held id number
    then (release id number success now g, drop_holder id number held)
    else (g, held)
session_step (touch id number now) (g, held) = (refresh id number now g, held)

unfoldable pub run_sessions : List SessionEvent → State → State
run_sessions [] st = st
run_sessions (e ∷ es) st = run_sessions es (session_step e st)

acquire-Exclusive :
    (now : ℕ) (random : Option Text) (id : Text) (held : List Holder) (g : Gateway)
    → Exclusive held g
    → Exclusive (arrived held (acquire now random id g)) (acquire now random id g).0
      × WasFree held (acquire now random id g).1
unfolding acquire
acquire-Exclusive now random id held g x = elim (Bool-cases (is_nonempty id)) [
  | inl known ↦
      rw (known, acquire)
        (acquire_known-Exclusive id (lookup id swept.sessions) held swept refl swept_x)
  | inr new ↦
      rw (new, acquire)
        (elim (Bool-cases (leb session_limit (length swept.sessions))) [
          | inl full ↦ rw full (swept_x, tt)
          | inr room ↦
              rw room (acquire_new-Exclusive now random held swept swept_x (ground (arith, room)))
        ])
]
  where
    swept : Gateway
    swept = record g { sessions = expire now g.sessions }

    swept_x : Exclusive held swept
    swept_x = record {
      bounded = omega (arith, x.bounded, length-expire now g.sessions);
      owned = All-expire g.made held now g.sessions x.owned;
      given = x.given;
    }

drop-IsGiven :
    (made : ℕ) (id : Text) (number : ℕ) (held : List Holder)
    → All (IsGiven made) held
    → All (IsGiven made) (drop_holder id number held)
drop-IsGiven made id number [] h = tt
drop-IsGiven made id number (q ∷ held) (p, h) = elim (Bool-cases (is_holder id number q)) [
  | inl gone ↦ rw gone (drop-IsGiven made id number held h)
  | inr stays ↦ rw stays (p, drop-IsGiven made id number held h)
]

dropped_unheld :
    (id : Text) (number : ℕ) (held : List Holder)
    → is_held (drop_holder id number held) id number ≡ false
dropped_unheld id number [] = refl
dropped_unheld id number (q ∷ held) = elim (Bool-cases (is_holder id number q)) [
  | inl gone ↦ rw gone (dropped_unheld id number held)
  | inr stays ↦ rw stays (rw stays (dropped_unheld id number held))
]

dropped_else :
    (id : Text) (number : ℕ) (held : List Holder) (key : Text) (n : ℕ)
    → (text_eq key id && n == number) ≡ false
    → is_held (drop_holder id number held) key n ≡ is_held held key n
dropped_else id number [] key n apart = refl
dropped_else id number ((other, k) ∷ held) key n apart = ground (
  arith,
  dropped_else id number held key n apart,
  eq_of_text_eq other key,
  eq_of_text_eq other id,
  text_eq_refl id,
)

length-change_all :
    (id : Text) (number : ℕ) (change : Session → Session) (m : Map Session)
    → length (change_all id number change m) ≡ length m
length-change_all id number change [] = refl
length-change_all id number change (b ∷ m) = ap suc (length-change_all id number change m)

module _ (made : ℕ) (id : Text) (number : ℕ) (held : List Holder) where
  -- A session that is freed is held no more.
  abbrev IsFreeing : (Session → Session) → Type 0
  IsFreeing change = (s : Session) → ((change s).busy ≡ false) × ((change s).number ≡ s.number)

  freed-IsOwned :
      (change : Session → Session) (key : Text) (s : Session)
      → IsFreeing change
      → IsOwned made held (key, s)
      → IsOwned made (drop_holder id number held) (key, changed id number change key s)
  freed-IsOwned change key s free (p, q) =
      elim (Bool-cases (text_eq key id && s.number == number)) [
        | inr apart ↦ rw apart (p ∙ sym (dropped_else id number held key s.number apart), q)
        | inl hit ↦
            let same : key ≡ id = ground (arith, eq_of_text_eq key id, hit) in
            let as_many : s.number ≡ number = ground (arith, hit) in
            let (idle, kept) = free s in
            rw hit (
              idle ∙ sym (rw kept (rw same (rw as_many (dropped_unheld id number held)))),
              rw kept q,
            )
      ]

  All-freed :
      (change : Session → Session) (m : Map Session)
      → IsFreeing change
      → All (IsOwned made held) m
      → All (IsOwned made (drop_holder id number held)) (change_all id number change m)
  All-freed change [] free h = tt
  All-freed change ((key, s) ∷ m) free (p, h) =
      (freed-IsOwned change key s free p, All-freed change m free h)

  kept-IsOwned :
      (change : Session → Session) (key : Text) (s : Session)
      → ((t : Session) → ((change t).busy ≡ t.busy) × ((change t).number ≡ t.number))
      → IsOwned made held (key, s)
      → IsOwned made held (key, changed id number change key s)
  kept-IsOwned change key s keep (p, q) = elim (Bool-cases (text_eq key id && s.number == number)) [
    | inr apart ↦ rw apart (p, q)
    | inl hit ↦
        let (same_mark, kept) = keep s in
        rw hit (same_mark ∙ p ∙ sym (ap (is_held held key) kept), rw kept q)
  ]

  -- A change that keeps the mark and the number.
  All-kept :
      (change : Session → Session) (m : Map Session)
      → ((s : Session) → ((change s).busy ≡ s.busy) × ((change s).number ≡ s.number))
      → All (IsOwned made held) m
      → All (IsOwned made held) (change_all id number change m)
  All-kept change [] keep h = tt
  All-kept change ((key, s) ∷ m) keep (p, h) =
      (kept-IsOwned change key s keep p, All-kept change m keep h)

freed-Exclusive :
    (id : Text) (number : ℕ) (held : List Holder) (change : Session → Session) (g : Gateway)
    → IsFreeing g.made id number held change
    → Exclusive held g
    → Exclusive (drop_holder id number held) (update id number change g)
unfolding update
freed-Exclusive id number held change g free x = record {
  bounded = omega (arith, x.bounded, length-change_all id number change g.sessions);
  owned = All-freed g.made id number held change g.sessions free x.owned;
  given = drop-IsGiven g.made id number held x.given;
}

deleted-Exclusive :
    (id : Text) (held : List Holder) (g : Gateway)
    → Exclusive held g
    → Exclusive held (record g { sessions = delete id g.sessions })
deleted-Exclusive id held g x = record {
  bounded = omega (arith, x.bounded, length-delete id g.sessions);
  owned =
      All-delete g.made g.made held held id g.sessions (omega arith) (λ other n apart. refl)
        x.owned;
  given = x.given;
}

release-Exclusive :
    (id : Text) (number : ℕ) (success : Bool) (now : ℕ) (held : List Holder) (g : Gateway)
    → Exclusive held g
    → Exclusive (drop_holder id number held) (release id number success now g)
unfolding release
release-Exclusive id number true now held g x =
    freed-Exclusive id number held (freed now) g (λ s. (refl, refl)) x
release-Exclusive id number false now held g x =
    deleted-Exclusive id (drop_holder id number held) (update id number (freed now) g)
      (freed-Exclusive id number held (freed now) g (λ s. (refl, refl)) x)

refresh-Exclusive :
    (id : Text) (number now : ℕ) (held : List Holder) (g : Gateway)
    → Exclusive held g
    → Exclusive held (refresh id number now g)
unfolding refresh update
refresh-Exclusive id number now held g x =
    let change : Session → Session = λ s. if s.busy then s else record s { last_used = now } in
    record {
      bounded = omega (arith, x.bounded, length-change_all id number change g.sessions);
      owned =
          All-kept g.made id number held change g.sessions (λ s. (ground arith, ground arith))
            x.owned;
      given = x.given;
    }

abbrev IsExclusive : State → Type 0
IsExclusive (g, held) = Exclusive held g

either_state :
    (b : Bool) (x y : State) → IsExclusive x → IsExclusive y → IsExclusive (if b then x else y)
either_state true x y p q = p
either_state false x y p q = q

session_step-Exclusive :
    (e : SessionEvent) (st : State) → IsExclusive st → IsExclusive (session_step e st)
unfolding session_step on_ready
session_step-Exclusive (arrive now random id) (g, held) x =
    (acquire-Exclusive now random id held g x).0
session_step-Exclusive (ready id number upstream_id now) (g, held) x =
    either_state (is_held held id number) _ (g, held)
      (freed-Exclusive id number held (λ s. record (freed now s) { upstream_id = upstream_id }) g
        (λ s. (refl, refl)) x)
      x
session_step-Exclusive (finish id number success now) (g, held) x =
    either_state (is_held held id number) _ (g, held)
      (release-Exclusive id number success now held g x) x
session_step-Exclusive (touch id number now) (g, held) x = refresh-Exclusive id number now held g x

run_sessions-Exclusive :
    (es : List SessionEvent) (st : State) → IsExclusive st → IsExclusive (run_sessions es st)
unfolding run_sessions
run_sessions-Exclusive [] st x = x
run_sessions-Exclusive (e ∷ es) st x =
    run_sessions-Exclusive es (session_step e st) (session_step-Exclusive e st x)

abbrev pub new_gateway : Gateway
new_gateway = record { sessions = []; made = 0 }

-- After any requests in any interleaving: the session that a new request is granted is held by no other
-- request, and the table has at most as many sessions as its limit.
pub run_sessions-WasFree :
    (es : List SessionEvent) (now : ℕ) (random : Option Text) (id : Text)
    → WasFree
        (run_sessions es (new_gateway, [])).1
        (acquire now random id (run_sessions es (new_gateway, [])).0).1
      × (length (acquire now random id (run_sessions es (new_gateway, [])).0).0.sessions
          ≤ session_limit)
run_sessions-WasFree es now random id =
    let st = run_sessions es (new_gateway, []) in
    let start : Exclusive [] new_gateway = record {
      bounded = omega arith;
      owned = tt;
      given = tt;
    } in
    let (x, free) =
      acquire-Exclusive now random id st.1 st.0
        (run_sessions-Exclusive es (new_gateway, []) start) in
    (free, x.bounded)
