-- ===== src/Gateway/Owners.antt =====
-- Who holds a session, over any interleaving of requests, of internal/gateway/gateway.go.
use nockguard.Base.{
  ℕ, suc, ◌+◌, ◌-◌, ◌≤◌, ◌<◌, some_injective, Bool, true, false, not, ◌&&◌, Option, none, some,
  List, [], ◌∷◌, ◌≡◌, inl, inr, refl, sym, ◌∙◌, arith, length, leb, ◌==◌, any, All, if◌then◌else◌,
  Text, Map, lookup, delete, text_eq, text_eq_refl, eq_of_text_eq, Bool-cases,
}
use mathlib.Core.Path.{subst}
use nockguard.Gateway.Sessions.{
  Session, Gateway, session_limit, session_ttl, expire, Acquired, granted, acquire_known,
  acquire_new,
}

-- The requests that hold a session now, by its ID and its number.
abbrev pub Holder : Type 0
Holder = Text × ℕ

abbrev pub is_holder : Text → ℕ → Holder → Bool
is_holder id number (other, n) = text_eq other id && n == number

abbrev pub is_held : List Holder → Text → ℕ → Bool
is_held held id number = any (is_holder id number) held

abbrev pub drop_holder : Text → ℕ → List Holder → List Holder
drop_holder id number [] = []
drop_holder id number (h ∷ held) =
    let rest = drop_holder id number held in if is_holder id number h then rest else h ∷ rest

-- A session is busy exactly if a request holds it; its number has been given out.
abbrev pub IsOwned : ℕ → List Holder → Text × Session → Type 0
IsOwned made held (id, s) = (s.busy ≡ is_held held id s.number) × (s.number < made)

abbrev pub IsGiven : ℕ → Holder → Type 0
IsGiven made (id, number) = number < made

-- The table's bound, and that busy sessions are the held ones.
pub record Exclusive (held : List Holder) (g : Gateway) : Type 0 where
  pub bounded : length g.sessions ≤ session_limit
  pub owned : All (IsOwned g.made held) g.sessions
  pub given : All (IsGiven g.made) held

pub length-expire : (now : ℕ) (m : Map Session) → length (expire now m) ≤ length m
unfolding expire
length-expire now [] = omega arith
length-expire now ((id, s) ∷ m) = ground (arith, length-expire now m)

pub All-expire :
    (made : ℕ) (held : List Holder) (now : ℕ) (m : Map Session)
    → All (IsOwned made held) m
    → All (IsOwned made held) (expire now m)
unfolding expire
All-expire made held now [] h = tt
All-expire made held now ((id, s) ∷ m) (p, h) =
    either (not s.busy && leb session_ttl (now - s.last_used)) (All-expire made held now m h)
      (p, All-expire made held now m h)
  where
    either :
        (b : Bool)
        → All (IsOwned made held) (expire now m)
        → All (IsOwned made held) ((id, s) ∷ expire now m)
        → All (IsOwned made held) (if b then expire now m else (id, s) ∷ expire now m)
    either true p q = p
    either false p q = q

IsOwned-at :
    (made : ℕ) (held : List Holder) (id : Text) (m : Map Session) (s : Session)
    → All (IsOwned made held) m
    → lookup id m ≡ some s
    → IsOwned made held (id, s)
unfolding lookup
IsOwned-at made held id [] s h found = cc
IsOwned-at made held id ((other, t) ∷ m) s (p, h) found = elim (Bool-cases (text_eq other id)) [
  | inl same ↦
      let e : t ≡ s = some_injective t s (ground (arith, found, same)) in
      let i : other ≡ id = eq_of_text_eq other id same in
      subst (λ (b : Text × Session). IsOwned made held b) (λ k. (i k, e k)) p
  | inr apart ↦ IsOwned-at made held id m s h (ground (arith, found, apart))
]

pub length-delete : (id : Text) (m : Map Session) → length (delete id m) ≤ length m
unfolding delete
length-delete id [] = omega arith
length-delete id ((other, s) ∷ m) = ground (arith, length-delete id m)

length-delete_found :
    (id : Text) (m : Map Session) (s : Session)
    → lookup id m ≡ some s
    → suc (length (delete id m)) ≤ length m
unfolding delete lookup
length-delete_found id [] s found = cc
length-delete_found id ((other, t) ∷ m) s found =
    ground (arith, length-delete id m, length-delete_found id m s)

-- Sessions of other IDs are held as before.
abbrev pub SameElse : Text → List Holder → List Holder → Type 0
SameElse id held held' =
    (other : Text) (n : ℕ) → text_eq other id ≡ false → is_held held' other n ≡ is_held held other n

pub All-delete :
    (made made' : ℕ) (held held' : List Holder) (id : Text) (m : Map Session)
    → made ≤ made'
    → SameElse id held held'
    → All (IsOwned made held) m
    → All (IsOwned made' held') (delete id m)
unfolding delete
All-delete made made' held held' id [] le same h = tt
All-delete made made' held held' id ((other, s) ∷ m) le same ((p, q), h) =
    elim (Bool-cases (text_eq other id)) [
      | inl gone ↦ rw gone (All-delete made made' held held' id m le same h)
      | inr stays ↦ rw stays (
        (p ∙ sym (same other s.number stays), omega arith),
        All-delete made made' held held' id m le same h,
      )
    ]

taken-SameElse :
    (id : Text) (number : ℕ) (held : List Holder) → SameElse id held ((id, number) ∷ held)
taken-SameElse id number held other n apart =
    ground (arith, eq_of_text_eq id other, text_eq_refl other)

unheld_number :
    (made : ℕ) (id : Text) (held : List Holder)
    → All (IsGiven made) held
    → is_held held id made ≡ false
unheld_number made id [] h = refl
unheld_number made id ((key, k) ∷ held) (p, h) = ground (arith, unheld_number made id held h)

-- What an arrival leaves: a session that was granted was held by no request.
abbrev pub arrived : List Holder → Gateway × Acquired → List Holder
arrived held (g, granted id s) = (id, s.number) ∷ held
arrived held (g, _) = held

abbrev pub WasFree : List Holder → Acquired → Type 0
WasFree held (granted id s) = is_held held id s.number ≡ false
WasFree held _ = Unit

pub acquire_new-Exclusive :
    (now : ℕ) (random : Option Text) (held : List Holder) (g : Gateway)
    → Exclusive held g
    → suc (length g.sessions) ≤ session_limit
    → Exclusive (arrived held (acquire_new now random g)) (acquire_new now random g).0
      × WasFree held (acquire_new now random g).1
acquire_new-Exclusive now none held g x room = (x, tt)
acquire_new-Exclusive now (some id) held g x room = (
  record {
    bounded = omega (arith, length-delete id g.sessions);
    owned = (
      (ground (arith, text_eq_refl id), omega arith),
      All-delete g.made (g.made + 1) held ((id, g.made) ∷ held) id g.sessions (omega arith)
          (taken-SameElse id g.made held) x.owned,
    );
    given = (omega arith, All-given g.made held x.given);
  },
  unheld_number g.made id held x.given,
)
  where
    All-given : (made : ℕ) (hs : List Holder) → All (IsGiven made) hs → All (IsGiven (made + 1)) hs
    All-given made [] h = tt
    All-given made ((key, k) ∷ hs) (p, h) = (omega arith, All-given made hs h)

pub acquire_known-Exclusive :
    (id : Text) (found : Option Session) (held : List Holder) (g : Gateway)
    → lookup id g.sessions ≡ found
    → Exclusive held g
    → Exclusive (arrived held (acquire_known id found g)) (acquire_known id found g).0
      × WasFree held (acquire_known id found g).1
acquire_known-Exclusive id none held g e x = (x, tt)
acquire_known-Exclusive id (some s) held g e x = go s.busy refl
  where
    own : IsOwned g.made held (id, s)
    own = IsOwned-at g.made held id g.sessions s x.owned e

    go :
        (b : Bool)
        → s.busy ≡ b
        → Exclusive
            (arrived held (acquire_known id (some (record s { busy = b })) g))
            (acquire_known id (some (record s { busy = b })) g).0
          × WasFree held (acquire_known id (some (record s { busy = b })) g).1
    go true f = (x, tt)
    go false f = (
      record {
        bounded = omega (arith, x.bounded, length-delete_found id g.sessions s e);
        owned = (
          (ground (arith, text_eq_refl id), own.1),
          All-delete g.made g.made held ((id, s.number) ∷ held) id g.sessions (omega arith)
              (taken-SameElse id s.number held) x.owned,
        );
        given = (own.1, x.given);
      },
      sym own.0 ∙ f,
    )
