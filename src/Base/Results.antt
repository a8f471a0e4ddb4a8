-- ===== src/Base/Results.antt =====
-- Go's `(value, error)` results, and a loop that returns the first error.
use mathlib.Core.Path.{◌≡◌, refl, ap}
use mathlib.Core.Bool.{Bool, true, false}
use mathlib.Core.List.{List, [], ◌∷◌}
use nockguard.Base.Lists.{All}

pub data Result {ℓ} (E : Type 0) (A : Type ℓ) : Type ℓ where
  ok : A → Result E A
  err : E → Result E A

infixl 5 ◌>>=◌ ◌>>◌
abbrev pub ◌>>=◌ {ℓ κ} :
    {E : Type 0} {A : Type ℓ} {B : Type κ} → Result E A → (A → Result E B) → Result E B
ok a >>= f = f a
err e >>= f = err e

abbrev pub ◌>>◌ {ℓ} : {E : Type 0} {B : Type ℓ} → Result E (Unit {0}) → Result E B → Result E B
ok u >> k = k
err e >> k = err e

-- `if bad { return err }`
abbrev pub fail_if : {E : Type 0} → Bool → E → Result E (Unit {0})
fail_if true e = err e
fail_if false e = ok tt

-- `for _, x := range xs { if err := f(x); err != nil { return err } }`
unfoldable pub each {ℓ} :
    {E : Type 0} {A : Type ℓ} → (A → Result E (Unit {0})) → List A → Result E (Unit {0})
each f [] = ok tt
each f (x ∷ xs) = f x >> each f xs

abbrev pub IsOk {ℓ} : {E : Type 0} {A : Type ℓ} → Result E A → Type 0
IsOk (ok a) = Unit
IsOk (err e) = ⊥

pub >>-IsOk {ℓ} :
    {E : Type 0} {B : Type ℓ} (m : Result E (Unit {0})) (k : Result E B)
    → IsOk (m >> k)
    → IsOk m × IsOk k
>>-IsOk (ok u) k h = (tt, h)
>>-IsOk (err e) k h = absurd h

pub each-IsOk {ℓ} :
    {E : Type 0} {A : Type ℓ} (f : A → Result E (Unit {0})) (xs : List A)
    → IsOk (each f xs)
    → All (λ x. IsOk (f x)) xs
unfolding each
each-IsOk f [] h = tt
each-IsOk f (x ∷ xs) h = let (a, b) = >>-IsOk (f x) (each f xs) h in (a, each-IsOk f xs b)

pub fail_if-IsOk : {E : Type 0} (b : Bool) (e : E) → IsOk (fail_if b e) → b ≡ false
fail_if-IsOk true e h = absurd h
fail_if-IsOk false e h = refl

-- A row of checks, each of which returns its error early.
unfoldable pub all_of : {E : Type 0} → List (Result E (Unit {0})) → Result E (Unit {0})
all_of [] = ok tt
all_of (c ∷ cs) = c >> all_of cs

pub all_of-IsOk : {E : Type 0} (cs : List (Result E (Unit {0}))) → IsOk (all_of cs) → All IsOk cs
unfolding all_of
all_of-IsOk [] h = tt
all_of-IsOk (c ∷ cs) h = let (a, b) = >>-IsOk c (all_of cs) h in (a, all_of-IsOk cs b)

-- A loop of plain tests passes if no member is bad.
pub each_fail-IsOk {ℓ} :
    {E : Type 0} {A : Type ℓ} (bad : A → Bool) (e : A → E) (xs : List A)
    → IsOk (each (λ x. fail_if (bad x) (e x)) xs)
    → All (λ x. bad x ≡ false) xs
unfolding each
each_fail-IsOk bad e [] h = tt
each_fail-IsOk bad e (x ∷ xs) h =
    let (a, b) = >>-IsOk (fail_if (bad x) (e x)) (each (λ y. fail_if (bad y) (e y)) xs) h in
    (fail_if-IsOk (bad x) (e x) a, each_fail-IsOk bad e xs b)

ok_value {ℓ} : {E : Type 0} {A : Type ℓ} → A → Result E A → A
ok_value d (ok a) = a
ok_value d (err e) = d

pub ok_injective {ℓ} :
    {E : Type 0} {A : Type ℓ} (a b : A) → ◌≡◌ {A = Result E A} (ok a) (ok b) → a ≡ b
unfolding ok_value
ok_injective a b h = ap (ok_value a) h

pub >>-eq-ok {ℓ} :
    {E : Type 0} {A : Type ℓ} (m : Result E (Unit {0})) (a b : A)
    → (m >> ok a) ≡ ok b
    → IsOk m × (a ≡ b)
unfolding ok_value
>>-eq-ok (ok u) a b h = (tt, ap (ok_value a) h)
>>-eq-ok (err e) a b h = cc

-- A chain that succeeds has a first part that succeeds.
pub >>=-eq-ok {ℓ κ} :
    {E : Type 0} {A : Type ℓ} {B : Type κ} (first : Result E A) (next : A → Result E B) {y : B}
    → (first >>= next) ≡ ok y
    → (x : A) × (first ≡ ok x) × (next x ≡ ok y)
>>=-eq-ok (ok x) next reached = (x, refl, reached)
>>=-eq-ok (err e) next reached = cc
