-- ===== src/Base/Strings.antt =====
-- Texts as lists of code points. The program's strings are valid UTF-8 wherever it reads characters.
use Prim.Native.Nat.{ℕ, suc, ◌+◌, ◌-◌}
use Prim.Native.Char.{code}
use Prim.Native.String.{String}
use mathlib.Core.Path.{◌≡◌, refl}
use mathlib.Core.Bool.{Bool, true, false, ◌&&◌, ◌||◌}
use mathlib.Core.List.{List, [], ◌∷◌, reverse}
use native.Mathlib.Omega.{arith}
use nockguard.Base.Tests.{◌==◌, ltb, leb, if◌then◌else◌}

abbrev pub Text : Type 0
Text = List ℕ

abbrev pub codes : String → Text
codes String.[] = []
codes (String.◌∷◌ c s) = code c ∷ codes s

unfoldable pub text_eq : Text → Text → Bool
text_eq [] [] = true
text_eq [] (y ∷ ys) = false
text_eq (x ∷ xs) [] = false
text_eq (x ∷ xs) (y ∷ ys) = x == y && text_eq xs ys

pub text_eq_refl : (s : Text) → text_eq s s ≡ true
unfolding text_eq
text_eq_refl [] = refl
text_eq_refl (x ∷ xs) = ground (arith, text_eq_refl xs)

pub eq_of_text_eq : (s t : Text) → text_eq s t ≡ true → s ≡ t
unfolding text_eq
eq_of_text_eq [] [] h = refl
eq_of_text_eq [] (y ∷ ys) h = cc
eq_of_text_eq (x ∷ xs) [] h = cc
eq_of_text_eq (x ∷ xs) (y ∷ ys) h = ground (arith, eq_of_text_eq xs ys)

-- `strings.ContainsRune`
unfoldable pub contains_char : ℕ → Text → Bool
contains_char c [] = false
contains_char c (x ∷ xs) = x == c || contains_char c xs

-- `strings.ContainsAny(s, chars)`
unfoldable pub contains_any : Text → Text → Bool
unfolding contains_char
contains_any [] chars = false
contains_any (x ∷ xs) chars = contains_char x chars || contains_any xs chars

-- `strings.HasPrefix(s, prefix)`
unfoldable pub has_prefix : Text → Text → Bool
has_prefix s [] = true
has_prefix [] (p ∷ ps) = false
has_prefix (c ∷ s) (p ∷ ps) = c == p && has_prefix s ps

-- `strings.HasSuffix(s, suffix)`
unfoldable pub has_suffix : Text → Text → Bool
unfolding text_eq
has_suffix [] suffix = text_eq [] suffix
has_suffix (c ∷ s) suffix = text_eq (c ∷ s) suffix || has_suffix s suffix

-- `strings.Count(s, sub)` for a text `sub` that does not overlap itself.
unfoldable pub count_text : Text → Text → ℕ
unfolding has_prefix
count_text [] sub = 0
count_text (c ∷ s) sub =
    let rest = count_text s sub in if has_prefix (c ∷ s) sub then suc rest else rest

-- `len(s)`: the bytes of the UTF-8 encoding.
unfoldable pub byte_length : Text → ℕ
byte_length [] = 0
byte_length (c ∷ s) =
    (if ltb c 128 then 1 else if ltb c 2048 then 2 else if ltb c 65536 then 3 else 4)
    + byte_length s

abbrev pub in_range : ℕ → ℕ → ℕ → Bool
in_range lo hi c = leb lo c && leb c hi

-- `hex.DecodeString` succeeds: digit pairs of either case.
abbrev pub is_hex_digit : ℕ → Bool
is_hex_digit c = in_range b'0' b'9' c || in_range b'a' b'f' c || in_range b'A' b'F' c

unfoldable pub is_hex : Text → Bool
is_hex [] = true
is_hex (a ∷ []) = false
is_hex (a ∷ b ∷ s) = is_hex_digit a && is_hex_digit b && is_hex s

-- `strings.ToLower` and `strings.ToUpper` on ASCII letters; other characters stay.
abbrev pub lower_char : ℕ → ℕ
lower_char c = if in_range b'A' b'Z' c then c + 32 else c

abbrev pub upper_char : ℕ → ℕ
upper_char c = if in_range b'a' b'z' c then c - 32 else c

-- `unicode.IsSpace`
unfoldable pub is_space : ℕ → Bool
is_space c =
    in_range 9 13 c
    || c == 32
    || c == 0x85
    || c == 0xa0
    || c == 0x1680
    || in_range 0x2000 0x200a c
    || c == 0x2028
    || c == 0x2029
    || c == 0x202f
    || c == 0x205f
    || c == 0x3000

-- `unicode.IsControl`
unfoldable pub is_control : ℕ → Bool
is_control c = ltb c 32 || in_range 127 159 c

-- `strings.TrimSpace(s)`
unfoldable pub trim_left : Text → Text
unfolding is_space
trim_left [] = []
trim_left (c ∷ s) = let rest = trim_left s in if is_space c then rest else c ∷ s

unfoldable pub trim_space : Text → Text
unfolding trim_left
trim_space s = reverse (trim_left (reverse (trim_left s)))
