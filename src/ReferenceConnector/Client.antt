-- ===== src/ReferenceConnector/Client.antt =====
-- cmd/reference-connector/main.go: the HTTP client of the core. net/http and the core behind it are
-- a parameter over a state of the outside. Marshalling the client's bodies does not fail.
pub mod Waiting
use Prim.Native.String.{◌++◌}
use soarcore.Common.{
  ℕ, zero, suc, String, Bool, true, false, Option, none, some, ◌==◌, str_eq, if◌then◌else◌,
}
use soarcore.Json.{Json, str, arr, obj, int, nil, item, field, end}
use soarcore.Errors.{Error, sentinel, canceled, plain, wrapped, Result, ok, err}
use soarcore.World.{Env}
use soarcore.ReferenceConnector.{PatchRequest, patch_json}

pub record HttpRequest : Type 0 where
  pub method : String
  pub url : String
  pub content_type : Option String
  pub principal : Option String
  pub tenant : Option String
  pub body : Option Json

pub record HttpReply : Type 0 where
  pub status : ℕ
  pub body : String

-- `malformed` is the error of `http.NewRequestWithContext`; `exchange` is `http.Client.Do` and the
-- reading of the body.
pub record Http {ℓ} (S : Type ℓ) : Type ℓ where
  pub malformed : String → String → Option Error
  pub exchange : HttpRequest → S → Result HttpReply × S

-- `coreClient`
pub record Client : Type 0 where
  pub base : String
  pub tenant : String
  pub principal : String

-- The body of a registration.
abbrev pub register_json : String → Json
register_json id = obj (
    field "id" (str id) (
      field "capabilities"
        (obj (
          field "produces" (arr nil) (
            field "consumes" (arr (item (str "incident") nil))
              (field "event_schema_versions" (arr (item (int 1) nil)) end))))
        end))

module _ {ℓ} {S : Type ℓ} (http : Http S) (c : Client) where
  -- The end of `do`: the status that was wanted, and the decoding of a body where one is wanted.
  unfoldable pub decode_reply : Option (String → Option Error) → String → Option Error
  decode_reply none text = none
  decode_reply (some decode) text = elim (str_eq text "") [
    | true ↦ none
    | false ↦ elim (decode text) [ none ↦ none | some e ↦ some (wrapped "decode response" e) ]
  ]

  unfoldable pub after_exchange :
      Option (String → Option Error) → ℕ → Result HttpReply × S → Option Error × S
  unfolding decode_reply
  after_exchange out want (err e, s) = (some (wrapped "do request" e), s)
  after_exchange out want (ok reply, s) =
      if reply.status == want
      then (decode_reply out reply.body, s)
      else (some (plain "unexpected status"), s)

  -- `do`
  unfoldable pub do_request :
      String → String → Option Json → Option (String → Option Error) → ℕ → S → Option Error × S
  unfolding after_exchange
  do_request method path body out want s = elim (http.malformed method (c.base ++ path)) [
    | some e ↦ (some (wrapped "new request" e), s)
    | none ↦ after_exchange out want (
        http.exchange
          (record {
            method = method;
            url = c.base ++ path;
            content_type = some "application/json";
            principal = some c.principal;
            tenant = some c.tenant;
            body = body;
          })
          s)
  ]

  -- `register`
  unfoldable pub register : String → S → Option Error × S
  register id = do_request "POST" "/v1/connectors" (some (register_json id)) none 201

  -- `heartbeat`
  unfoldable pub heartbeat : String → S → Option Error × S
  heartbeat id = do_request "POST" ("/v1/connectors/" ++ (id ++ "/heartbeat")) none none 200

  -- `patchIncidentTags`
  unfoldable pub patch_incident_tags : Env → PatchRequest → S → Option Error × S
  patch_incident_tags env r =
      do_request "PATCH" ("/v1/incidents/" ++ env.uuid_string r.id) (some (patch_json env r)) none
        200

  -- Whether a probe of /healthz found the core ready.
  pub ready : Result HttpReply × S → Bool
  ready (err e, s) = false
  ready (ok reply, s) = reply.status == 200

  abbrev pub probe : HttpRequest
  probe = record {
    method = "GET";
    url = c.base ++ "/healthz";
    content_type = none;
    principal = none;
    tenant = none;
    body = none;
  }

  -- `waitForCore`, from attempt `i` on with `n` left; `cancelled i` says that the context ends during
  -- the wait after that attempt.
  unfoldable pub wait_for_core : (ℕ → Bool) → ℕ → ℕ → S → Option Error × S
  unfolding ready
  wait_for_core cancelled i zero s = (some (plain "core /healthz did not become ready"), s)
  wait_for_core cancelled i (suc n) s = elim (http.malformed "GET" (c.base ++ "/healthz")) [
    | some e ↦ (some e, s)
    | none ↦
        let answered = http.exchange probe s in
        elim (ready answered) [
          | true ↦ (none, answered.1)
          | false ↦ elim (cancelled i) [
            | true ↦ (some (sentinel canceled), answered.1)
            | false ↦ wait_for_core cancelled (suc i) n answered.1
          ]
        ]
  ]
