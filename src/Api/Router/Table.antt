-- ===== src/Api/Router/Table.antt =====
-- What the search of the route table finds.
use soarcore.Common.{
  String, ◌≡◌, inl, inr, refl, sym, ap, ◌∙◌, Bool, true, false, some, List, [], ◌∷◌, arith, str_eq,
  eq_iff, Bool-cases, Option-cases, All,
}
use soarcore.Api.Router.{
  v1_routes, Chi, Route, create, list, get, patch, register, heartbeat, to, find,
}

-- The route table, read as the method and the pattern of each route.
abbrev pub method_of : Route → String
method_of create = "POST"
method_of list = "GET"
method_of get = "GET"
method_of patch = "PATCH"
method_of register = "POST"
method_of heartbeat = "POST"

abbrev pub pattern_of : Route → String
pattern_of create = "/v1/incidents/"
pattern_of list = "/v1/incidents/"
pattern_of get = "/v1/incidents/{id}"
pattern_of patch = "/v1/incidents/{id}"
pattern_of register = "/v1/connectors/"
pattern_of heartbeat = "/v1/connectors/{id}/heartbeat"

abbrev pub Agrees : String × String × Route → Type 0
Agrees row = (row.0 ≡ method_of row.2) × (row.1 ≡ pattern_of row.2)

pub rows_agree : All Agrees v1_routes
rows_agree = (
  (refl, refl),
  ((refl, refl), ((refl, refl), ((refl, refl), ((refl, refl), ((refl, refl), tt))))),
)

pub find_sound :
    (chi : Chi) (method path : String) (table : List (String × String × Route)) (known : Bool)
    {route : Route} {id : String}
    → All Agrees table
    → find chi method path table known ≡ to route id
    → (method ≡ method_of route) × (chi.match (pattern_of route) path ≡ some id)
unfolding find
find_sound chi method path [] true h e = absurd (ground arith)
find_sound chi method path [] false h e = absurd (ground arith)
find_sound chi method path ((m, pattern, x) ∷ rest) known ((hm, hp), h) e =
    elim (Option-cases (chi.match pattern path)) [
      | inl n ↦ find_sound chi method path rest known h (rw (n, find) at e)
      | inr (i, y) ↦ elim (Bool-cases (str_eq m method)) [
        | inl here ↦
            let same = (eq_iff m method).0 here in
            let found : to x i ≡ to _ _ = rw (y, here, find) at e in
            let route_is : x ≡ _ = cc in
            let id_is : i ≡ _ = cc in
            (
              sym same ∙ (hm ∙ ap method_of route_is),
              ap (λ q. chi.match q path) (sym (hp ∙ ap pattern_of route_is)) ∙ (y ∙ ap some id_is),
            )
        | inr other ↦ find_sound chi method path rest true h (rw (y, other, find) at e)
      ]
    ]
