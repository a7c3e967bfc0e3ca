-- ===== src/Api/Query.antt =====
-- The texts of a query: lists of statuses, numbers and times. `strings.Split`, `strings.TrimSpace`
-- and `strconv.Atoi`, as internal/api/incidents.go uses them.
use Prim.Native.Char.{Char, code}
use Prim.Native.String.{[], ◌∷◌}
use soarcore.Common
use soarcore.Common.{
  ℕ, ◌+◌, String, Bool, ◌||◌, ◌&&◌, not, Option, none, some, List, map, keep, ltb, leb, ◌==◌,
  str_eq, if◌then◌else◌,
}
use soarcore.Common.Int.{ℤ, pos}
use soarcore.Numbers.{digits, number, negative, max_int}
use soarcore.World.{Env, Time}

-- `unicode.IsSpace`
abbrev pub is_space : Char → Bool
is_space c =
    (leb 9 (code c) && leb (code c) 13)
    || (code c == 32)
    || (code c == 133)
    || (code c == 160)
    || (code c == 5760)
    || (leb 8192 (code c) && leb (code c) 8202)
    || (code c == 8232)
    || (code c == 8233)
    || (code c == 8239)
    || (code c == 8287)
    || (code c == 12288)

-- Cutting one text at its commas: there is always at least one part.
abbrev onto_first : Char → List String → List String
onto_first c Common.[] = Common.◌∷◌ (c ∷ []) Common.[]
onto_first c (Common.◌∷◌ s rest) = Common.◌∷◌ (c ∷ s) rest

unfoldable pub split_commas : String → List String
split_commas [] = Common.◌∷◌ [] Common.[]
split_commas (c ∷ s) =
    let rest = split_commas s in if code c == b',' then Common.◌∷◌ [] rest else onto_first c rest

unfoldable pub trim_left : String → String
trim_left [] = []
trim_left (c ∷ s) = let rest = trim_left s in if is_space c then rest else c ∷ s

unfoldable pub trim_right : String → String
trim_right [] = []
trim_right (c ∷ s) =
    let rest = trim_right s in if is_space c && str_eq rest [] then [] else c ∷ rest

-- `strings.TrimSpace`
abbrev pub trim_space : String → String
trim_space s = trim_left (trim_right s)

-- The statuses of a query: trimmed, and without the empty ones.
unfoldable pub statuses_of : String → List String
unfolding split_commas trim_left trim_right
statuses_of v =
    if str_eq v []
    then Common.[]
    else keep (λ p. not (str_eq p [])) (map trim_space (split_commas v))

-- A number out of range is cut, and Atoi's error is ignored.
abbrev cut : ℕ → ℕ → ℕ
cut bound n = if ltb bound n then bound else n

abbrev positive_or_zero : Option ℕ → ℤ
positive_or_zero none = pos 0
positive_or_zero (some n) = pos (cut max_int n)

abbrev negative_or_zero : Option ℕ → ℤ
negative_or_zero none = pos 0
negative_or_zero (some n) = negative (cut (max_int + 1) n)

-- `limit, _ := strconv.Atoi(…)`
unfoldable pub atoi : String → ℤ
unfolding digits
atoi [] = pos 0
atoi (c ∷ s) =
    if code c == b'-'
    then negative_or_zero (number s)
    else if code c == b'+'
    then positive_or_zero (number s)
    else positive_or_zero (number (c ∷ s))

-- `parseTime`: an empty text is the zero time.
abbrev pub parse_time : Env → String → Option Time
parse_time env raw = if str_eq raw [] then some 0 else env.time_parse raw
