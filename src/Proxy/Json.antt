-- ===== src/Proxy/Json.antt =====
-- Decoded JSON values, where an object is a Go map: one member for each key. Numbers, booleans and
-- arrays are kept as their raw text, as json.RawMessage does.
use nockguard.Base.{
  Option, none, some, List, [], ◌∷◌, ◌≡◌, refl, arith, if◌then◌else◌, and_then, Text, text_eq,
  text_eq_refl, eq_of_text_eq,
}

mutual
  pub data Json : Type 0 where
    null : Json
    raw : Text → Json
    text : Text → Json
    obj : Fields → Json

  pub data Fields : Type 0 where
    end : Fields
    field : Text → Json → Fields → Fields

unfoldable pub member : Text → Fields → Option Json
member key end = none
member key (field other v rest) = if text_eq other key then some v else member key rest

unfoldable pub set_member : Text → Json → Fields → Fields
set_member key new end = field key new end
set_member key new (field other v rest) =
    let tail = set_member key new rest in
    if text_eq other key then field key new rest else field other v tail

pub member-set_member :
    (key other : Text) (new : Json) (fs : Fields)
    → member other (set_member key new fs)
      ≡ (if text_eq key other then some new else member other fs)
unfolding member set_member
member-set_member key other new end = refl
member-set_member key other new (field k v rest) = ground (
  arith,
  member-set_member key other new rest,
  eq_of_text_eq k key,
  eq_of_text_eq k other,
  eq_of_text_eq key other,
  text_eq_refl k,
  text_eq_refl key,
)

abbrev pub as_object : Option Json → Option Fields
as_object (some (obj fs)) = some fs
as_object _ = none

-- A nested object read by its path.
unfoldable pub get_path : List Text → Fields → Option Json
get_path [] fs = none
get_path (key ∷ []) fs = member key fs
get_path (key ∷ next ∷ path) fs =
    and_then (as_object (member key fs)) (λ inside. get_path (next ∷ path) inside)
