-- ===== src/Json/Decode.antt =====
-- How encoding/json fills a Go value from a field of an object that it decodes.
use soarcore.Common.{ℕ, String, Bool, true, ◌&&◌, Option, none, some, List, [], ◌∷◌, contains}
use soarcore.Json.Object.{Json, null, int, str, arr, obj, Items, nil, item, Fields, end, field}

-- Decoding one field: a missing key or null leaves the zero value, another type is an error.
infixl 5 ◌>>=?◌
abbrev pub ◌>>=?◌ {ℓ κ} : {A : Type ℓ} {B : Type κ} → Option A → (A → Option B) → Option B
none >>=? f = none
some a >>=? f = f a

abbrev pub as_string : Option Json → Option String
as_string none = some ""
as_string (some null) = some ""
as_string (some (str s)) = some s
as_string _ = none

abbrev pub as_int : Option Json → Option ℕ
as_int none = some 0
as_int (some null) = some 0
as_int (some (int n)) = some n
as_int _ = none

abbrev pub as_fields : Option Json → Option Fields
as_fields none = some end
as_fields (some null) = some end
as_fields (some (obj fs)) = some fs
as_fields _ = none

-- A UUID or a time, by its parser.
abbrev pub as_parsed : (String → Option ℕ) → Option Json → Option ℕ
as_parsed parse none = some 0
as_parsed parse (some null) = some 0
as_parsed parse (some (str s)) = parse s
as_parsed parse _ = none

abbrev pub as_pointer : (String → Option ℕ) → Option Json → Option (Option ℕ)
as_pointer parse none = some none
as_pointer parse (some null) = some none
as_pointer parse (some (str s)) = parse s >>=? λ u. some (some u)
as_pointer parse _ = none

abbrev pub as_any : Option Json → Json
as_any none = null
as_any (some j) = j

abbrev pub as_string_pointer : Option Json → Option (Option String)
as_string_pointer none = some none
as_string_pointer (some null) = some none
as_string_pointer (some (str s)) = some (some s)
as_string_pointer _ = none

-- `map[string]any`: a nil map where there is none.
abbrev pub as_map : Option Json → Option (Option Fields)
as_map none = some none
as_map (some null) = some none
as_map (some (obj fs)) = some (some fs)
as_map _ = none

abbrev pub string_items : Items → Option (List String)
string_items nil = some []
string_items (item j rest) = as_string (some j) >>=? λ s. string_items rest >>=? λ ss. some (s ∷ ss)

-- `[]string`, and `*[]string` as well: nil where there is none.
abbrev pub as_strings : Option Json → Option (Option (List String))
as_strings none = some none
as_strings (some null) = some none
as_strings (some (arr items)) = string_items items >>=? λ ss. some (some ss)
as_strings _ = none

-- `DisallowUnknownFields`
abbrev pub known_fields : List String → Fields → Bool
known_fields names end = true
known_fields names (field k v rest) = contains names k && known_fields names rest
