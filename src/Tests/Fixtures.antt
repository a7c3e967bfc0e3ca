-- ===== src/Tests/Fixtures.antt =====
-- The environment, the service and the rows that the runs share.
use soarcore.Common.{
  List, ◌++◌, arith, ℕ, zero, suc, ◌+◌, String, ◌≡◌, refl, ap, true, false, Option, none, some, [],
  ◌∷◌,
}
use Prim.Native.String.{[] as ε, ◌∷◌ as ◌∷ˢ◌}
use soarcore.Json.{obj, end}
use soarcore.Events.Envelope.{Envelope}
use soarcore.Events.Bus.{Publisher}
use soarcore.Auth.{Principal, stub_authorizer}
use soarcore.Schema.{Registry}
use soarcore.World.{Env, World, IncidentRow, empty_db}
use soarcore.Incident.{Incident}
use soarcore.Incident.Input.{CreateInput, PatchInput}
use soarcore.Incident.Service.{Service}

-- Numbers in unary, which are read back.
abbrev pub show : ℕ → String
show zero = ε
show (suc n) = "1" ∷ˢ show n

abbrev pub successor : Option ℕ → Option ℕ
successor none = none
successor (some n) = some (suc n)

abbrev pub read : String → Option ℕ
read ε = some 0
read (c ∷ˢ s) = successor (read s)

pub read-show : (n : ℕ) → read (show n) ≡ some n
read-show zero = refl
read-show (suc n) = ap successor (read-show n)

-- No call fails; the n-th reading gives n + 1.
abbrev pub env : Env
env = record {
  uuid = λ n. n + 1;
  now = λ n. n + 1;
  fails = λ n. false;
  lands = λ n. false;
  stored = λ t. t;
  uuid_string = show;
  uuid_parse = read;
  time_string = show;
  time_parse = read;
}

abbrev pub world : World
world = record { db = empty_db; reads = 0 }

abbrev pub alice : Principal
alice = record { type = "user"; id = "alice" }

abbrev pub registry : Registry
registry = record { decimal = λ n. "1"; validators = ("incident:v1", λ j. true) ∷ [] }

abbrev pub service : Service
service = record { registry = registry; allow = stub_authorizer }

abbrev pub phish : CreateInput
phish = record {
  external_id = none;
  title = "phish";
  description = none;
  severity = "high";
  assignee_id = none;
  source_connector_id = none;
  attributes = none;
  tags = some ("mail" ∷ []);
}

abbrev pub untitled : CreateInput
untitled = record phish { title = "" }

abbrev pub no_patch : PatchInput
no_patch = record {
  title = none;
  description = none;
  severity = none;
  status = none;
  assignee_id = none;
  attributes = none;
  tags = none;
}

abbrev pub to_status : String → PatchInput
to_status s = record no_patch { status = some s }

-- An incident of tenant 7, as stored.
abbrev pub row : IncidentRow
row = record {
  id = 2;
  tenant_id = 7;
  schema_version = 1;
  external_id = none;
  title = "phish";
  description = none;
  severity = "high";
  status = "new";
  assignee_id = none;
  source_connector_id = none;
  attributes = some (obj end);
  tags = some ("mail" ∷ []);
  created_at = 1;
  updated_at = 1;
  closed_at = none;
}

abbrev pub world_with_row : World
world_with_row = record { db = record empty_db { incidents = row ∷ [] }; reads = 0 }

-- The incident that Create makes of the input, and the one that Patch makes of the row.
abbrev pub created : Incident
created = record {
  id = 2;
  tenant_id = 7;
  schema_version = 1;
  external_id = none;
  title = "phish";
  description = none;
  severity = "high";
  status = "new";
  assignee_id = none;
  source_connector_id = none;
  attributes = none;
  tags = some ("mail" ∷ []);
  created_at = 1;
  updated_at = 1;
  closed_at = none;
}

abbrev pub triaged : Incident
triaged = record created { attributes = some end; status = "triaged"; updated_at = 3 }

-- A publisher that never fails.
abbrev pub recorder : Publisher
recorder = record {
  State = List Envelope;
  publish = λ e s. (none, s ++ e ∷ []);
  sent = λ s. s;
  hands_over = λ e s. (1, refl, λ h. omega arith);
}
