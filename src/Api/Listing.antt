-- ===== src/Api/Listing.antt =====
-- internal/api/incidents.go: GET /v1/incidents.
use soarcore.Common.{String, Option, none, some, List, [], ◌∷◌}
use soarcore.Json.{arr, Items, nil, item}
use soarcore.Auth.{Context}
use soarcore.World.{Env, Uuid, Time}
use soarcore.Incident.{Incident}
use soarcore.Incident.Service.{list}
use soarcore.Api.{respond, value, message, Handler, finish, with_principal_and_tenant}
use soarcore.Api.Incidents.{to_response}
use soarcore.Api.Query.{statuses_of, atoi, parse_time}

module _ (env : Env) where
  abbrev pub responses : List Incident → Items
  responses [] = nil
  responses (inc ∷ incs) = item (to_response env inc) (responses incs)

  -- The call of the service, once the bounds are read.
  unfoldable pub answer_list : Uuid → (String → String) → Option Time → Option Time → Handler
  answer_list tenant query none until w = (respond 400 (message "invalid 'since'; want RFC3339"), w)
  answer_list tenant query (some since) none w =
      (respond 400 (message "invalid 'until'; want RFC3339"), w)
  answer_list tenant query (some since) (some until) w =
      finish (λ incs. respond 200 (value (arr (responses incs))))
        (list env tenant (statuses_of (query "status")) since until (atoi (query "limit"))
          (atoi (query "offset")) w)

  -- `handleListIncidents`; an absent key of the query reads as the empty text.
  unfoldable pub handle_list : Context → (String → String) → Handler
  unfolding answer_list
  handle_list c query = with_principal_and_tenant c λ p tenant.
      answer_list tenant query (parse_time env (query "since")) (parse_time env (query "until"))
