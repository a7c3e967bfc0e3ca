-- ===== src/Json/Object.antt =====
-- JSON values. A number is a natural number, or any other number by its literal.
use soarcore.Common.{ℕ, String, Bool, Option, none, some, List, [], ◌∷◌, str_eq, if◌then◌else◌}

mutual
  pub data Json : Type 0 where
    null : Json
    bool : Bool → Json
    int : ℕ → Json
    real : String → Json
    str : String → Json
    arr : Items → Json
    obj : Fields → Json

  pub data Items : Type 0 where
    nil : Items
    item : Json → Items → Items

  pub data Fields : Type 0 where
    end : Fields
    field : String → Json → Fields → Fields

-- `m[key]` on a decoded object.
unfoldable pub get : String → Fields → Option Json
get key end = none
get key (field k v rest) = if str_eq k key then some v else get key rest

-- `[]string` as a JSON array.
abbrev pub strings : List String → Items
strings [] = nil
strings (s ∷ rest) = item (str s) (strings rest)
