-- ===== src/ReferenceConnector/Core.antt =====
-- The core as the connector reaches it over HTTP, and what its answers to a patch of tags mean.
use soarcore.Common.{
  String, ◌≡◌, inl, inr, refl, sym, ◌∙◌, true, Option, none, some, some_inj, List, arith, ◌==◌,
  ==_iff, Bool-cases, if◌then◌else◌, str_eq,
}
use mathlib.Core.Path.{subst, subst₂}
use soarcore.Json.{Json, Fields}
use soarcore.Errors.{ok}
use soarcore.Auth.{Principal}
use soarcore.Schema.{Registry}
use soarcore.World.{Env, Uuid, World, Db}
use soarcore.Incident.{Incident}
use soarcore.Incident.Input.{PatchInput}
use soarcore.Incident.Service.Patched.{Patched}
use soarcore.Api.{Response}
use soarcore.Api.Incidents.{
  PatchRequest, decode_patch, correlation_or_nil, patch_input, patch_attributes,
}
use soarcore.Api.Outcomes.{IsFailure, PatchAnswer}
use soarcore.Api.Router.{Request, Chi, Server, router}
use soarcore.ReferenceConnector.Client.{Http, HttpRequest}
use soarcore.ReferenceConnector.Wire.{only_tags, correlation_of}

abbrev pub or_empty : Option String → String
or_empty none = ""
or_empty (some s) = s

-- The request as the core gets it; `path_of` is the path of a URL.
abbrev pub as_request : (String → String) → HttpRequest → Request
as_request path_of q = record {
  method = q.method;
  path = path_of q.url;
  header = λ name.
      if str_eq name "X-Principal-Id"
      then or_empty q.principal
      else if str_eq name "X-Tenant-Id"
      then or_empty q.tenant
      else "";
  query = λ key. "";
  body = q.body;
}

abbrev pub connector_principal : Principal
connector_principal = record { type = "connector"; id = "reference-connector" }

-- The patch that asks for tags only.
abbrev pub tags_input : List String → PatchInput
tags_input tags = record {
  title = none;
  description = none;
  severity = none;
  status = none;
  assignee_id = none;
  attributes = none;
  tags = some tags;
}

module _ (env : Env) where
  correlation_or_nil-correlation_of : (c : Uuid) → correlation_or_nil env (correlation_of c) ≡ c
  correlation_or_nil-correlation_of c = elim (Bool-cases (c == 0)) [
    | inl y ↦ rw y (sym ((==_iff c 0).0 y))
    | inr n ↦ rw n refl
  ]

  -- Patched along equal callers, ids and requests.
  same_patch :
      (registry : Registry) {p p' : Principal} {t t' i i' : Uuid} {r r' : PatchRequest}
      {a a' : Option Fields} (inc : Incident) (before after : Db)
      → p ≡ p'
      → t ≡ t'
      → i ≡ i'
      → r ≡ r'
      → a ≡ a'
      → Patched env registry
          (correlation_or_nil env r.correlation_id)
          t
          p
          i
          (patch_input env r a)
          inc
          before
          after
      → Patched env registry
          (correlation_or_nil env r'.correlation_id)
          t'
          p'
          i'
          (patch_input env r' a')
          inc
          before
          after
  same_patch registry {p} {p'} {t} {t'} {i} {i'} {r} {r'} {a} {a'} inc before after ep et ei er ea
        h =
      let K : Principal → Uuid → Uuid → PatchRequest → Option Fields → Type 0 = λ p t i r a.
        Patched env registry (correlation_or_nil env r.correlation_id) t p i (patch_input env r a)
          inc before after in
      subst₂ (λ x y. K p' t' i' x y) er ea
        (subst (λ x. K p' t' x r a) ei (subst₂ (λ x y. K x y i r a) ep et h))

module _ (env : Env) (chi : Chi) (s : Server) where
  -- The core over HTTP, where no exchange is lost.
  abbrev pub core_http : (String → String) → (Response → String) → Http World
  core_http path_of render = record {
    malformed = λ method url. none;
    exchange = λ q w.
        let (given, w') = router env chi s (as_request path_of q) w in
        (ok (record { status = given.status; body = render given }), w');
  }

  -- An answer of 200 to a patch of tags.
  pub PatchAnswer-ok :
      (p : Principal) (tenant id : Uuid) (tags : List String) (corr : Uuid) (body : Option Json)
      (w : World) (o : Response × World)
      → decode_patch env body ≡ some (only_tags tags (correlation_of corr))
      → (o.0.status == 200) ≡ true
      → PatchAnswer env s.service.registry (some p) (some tenant) (some id) body w o
      → (inc : Incident) × Patched env s.service.registry corr tenant p id
          (tags_input tags)
          inc
          w.db
          o.1.db
  unfolding IsFailure
  PatchAnswer-ok p tenant id tags corr body w _ decoded good
        (PatchAnswer.patched p' t' i' r a inc v who whose named body_is attributes done) =
      let same_request : r ≡ only_tags tags (correlation_of corr) =
        some_inj (sym body_is ∙ decoded) in
      let no_attributes : none ≡ a = some_inj (
        subst (λ (x : PatchRequest). patch_attributes env x.attributes ≡ some a) same_request
          attributes) in
      (
        inc,
        subst (λ c. Patched env s.service.registry c tenant p id (tags_input tags) inc w.db v.db)
            (correlation_or_nil-correlation_of env corr)
            (same_patch env s.service.registry inc w.db v.db (some_inj (sym who))
              (some_inj (sym whose)) (some_inj (sym named)) same_request (sym no_attributes) done),
      )
  PatchAnswer-ok p tenant id tags corr body w _ decoded good
        (PatchAnswer.unknown p' t' i' r a inc answer v _ _ _ _ _ bad _) =
      absurd (ground arith)
  PatchAnswer-ok p tenant id tags corr body w _ decoded good
        (PatchAnswer.refused p' t' i' c' a v _ _ bad _) =
      absurd (ground arith)
  PatchAnswer-ok p tenant id tags corr body w _ decoded good (PatchAnswer.failed a v bad _) =
      absurd (ground arith)
