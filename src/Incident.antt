-- ===== src/Incident.antt =====
-- internal/domain/incident/incident.go: the incident, and the status state machine. `Severity` and
-- `Status` are Go string types, which may hold any text.
pub mod Machine
pub mod Rows
pub mod Input
pub mod Service
pub mod Transitions
pub mod Planned
use soarcore.Common.{
  ℕ, String, Bool, Option, none, some, List, [], ◌∷◌, str_eq, if◌then◌else◌, contains,
}
use soarcore.Json.{Fields}
use soarcore.Errors.{Error, sentinel, invalid_transition}
use soarcore.World.{Uuid, Time}

abbrev pub schema_version : ℕ
schema_version = 1

abbrev pub valid_severities : List String
valid_severities = "low" ∷ "medium" ∷ "high" ∷ "critical" ∷ []

-- `Severity.IsValid`
abbrev pub is_valid_severity : String → Bool
is_valid_severity s = contains valid_severities s

abbrev pub valid_statuses : List String
valid_statuses = "new" ∷ "triaged" ∷ "in_progress" ∷ "contained" ∷ "resolved" ∷ "closed" ∷ []

-- `Status.IsValid`
abbrev pub is_valid_status : String → Bool
is_valid_status s = contains valid_statuses s

abbrev pub allowed_transitions : List (String × List String)
allowed_transitions =
    ("new", "triaged" ∷ [])
    ∷ ("triaged", "in_progress" ∷ [])
    ∷ ("in_progress", "contained" ∷ "resolved" ∷ [])
    ∷ ("contained", "resolved" ∷ [])
    ∷ ("resolved", "closed" ∷ "in_progress" ∷ [])
    ∷ ("closed", "in_progress" ∷ [])
    ∷ []

-- `allowedTransitions[from]`
unfoldable pub lookup_transitions : String → List (String × List String) → Option (List String)
lookup_transitions from [] = none
lookup_transitions from ((s, targets) ∷ rest) =
    if str_eq s from then some targets else lookup_transitions from rest

abbrev allow_target : Option (List String) → String → Option Error
allow_target none to = some (sentinel invalid_transition)
allow_target (some targets) to =
    if contains targets to then none else some (sentinel invalid_transition)

-- `CanTransition`; nil is `none`.
unfoldable pub can_transition : String → String → Option Error
unfolding lookup_transitions
can_transition from to =
    if str_eq from to then none else allow_target (lookup_transitions from allowed_transitions) to

pub record Incident : Type 0 where
  pub id : Uuid
  pub tenant_id : Uuid
  pub schema_version : ℕ
  pub external_id : Option String
  pub title : String
  pub description : Option String
  pub severity : String
  pub status : String
  pub assignee_id : Option Uuid
  pub source_connector_id : Option String
  pub attributes : Option Fields
  pub tags : Option (List String)
  pub created_at : Time
  pub updated_at : Time
  pub closed_at : Option Time
