-- ===== src/Incident/Rows/Laws.antt =====
-- What the table gives back of an incident.
use soarcore.Common.{◌≡◌, inl, inr, refl, Option, none, some, Option-cases}
use soarcore.Json.{Fields, end}
use mathlib.Core.Option
use soarcore.World.{Env}
use soarcore.Persistence.Incidents.{in_columns}
use soarcore.Incident.{Incident}
use soarcore.Incident.Rows.{to_row, from_row, marshal_attributes}

-- A nil map of attributes comes back as the empty one.
abbrev pub stored_attributes : Option Fields → Fields
stored_attributes none = end
stored_attributes (some fs) = fs

-- An incident that is written to a row and read back is the same, but that its times are as
-- the columns keep them and a nil map of attributes has become an empty one.
pub from_row-to_row :
    (env : Env) (inc : Incident)
    → from_row (in_columns env (to_row inc (some (marshal_attributes inc.attributes))))
      ≡ record inc {
        attributes = some (stored_attributes inc.attributes);
        created_at = env.stored inc.created_at;
        updated_at = env.stored inc.updated_at;
        closed_at = Option.map env.stored inc.closed_at;
      }
unfolding from_row to_row marshal_attributes
from_row-to_row env inc = elim (Option-cases inc.attributes) [
  | inl n ↦ rw (n, from_row, to_row, marshal_attributes) refl
  | inr (fs, y) ↦ rw (y, from_row, to_row, marshal_attributes) refl
]
