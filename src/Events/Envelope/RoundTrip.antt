-- ===== src/Events/Envelope/RoundTrip.antt =====
-- What the relay and the subscribers read back is what the service wrote.
use soarcore.Common.{◌≡◌, refl, Option, none, some}
use soarcore.Json.{get}
use soarcore.World.{Env, Uuid, Time}
use soarcore.Events.Envelope.{
  Envelope, encode, decode, decode_fields, decode_actor, decode_entity, prior_field,
}
use soarcore.Json.Decode.{as_pointer}

-- What an environment's printers and parsers promise: a UUID and a time are read back.
abbrev pub IsReadBack : Env → Type 0
IsReadBack env =
    ((u : Uuid) → env.uuid_parse (env.uuid_string u) ≡ some u)
    × ((t : Time) → env.time_parse (env.time_string t) ≡ some t)

prior-field :
    (env : Env)
    → ((u : Uuid) → env.uuid_parse (env.uuid_string u) ≡ some u)
    → (o : Option Uuid)
    → as_pointer env.uuid_parse (get "prior_event_id" (prior_field env o)) ≡ some o
unfolding get
prior-field env u none = refl
prior-field env u (some x) = rw (u x) refl

-- An envelope is decoded to what it was encoded from, when UUIDs and times are read back as they
-- were printed.
pub decode-encode :
    (env : Env) → IsReadBack env → (e : Envelope) → decode env (encode env e) ≡ some e
unfolding decode encode decode_fields decode_actor decode_entity get
decode-encode env (u, t) e =
    rw
      (
        u e.event_id,
        t e.occurred_at,
        u e.tenant_id,
        u e.entity.id,
        u e.correlation_id,
        prior-field env u e.prior_event_id,
        decode_fields,
        decode_entity,
        decode_actor,
      )
      refl
