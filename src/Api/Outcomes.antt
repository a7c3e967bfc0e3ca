-- ===== src/Api/Outcomes.antt =====
-- What the answer to a request says about the database.
use soarcore.Common.{ℕ, ◌≤◌, String, ◌≡◌, inl, inr, refl, Option, none, some, arith, Option-cases}
use soarcore.Json.{Json, Fields}
use soarcore.Errors.{Error, Result, ok, err}
use soarcore.Auth.{Principal, Context}
use soarcore.World.{Env, World, Uuid}
use soarcore.Schema.{Registry}
use soarcore.Incident.{Incident}
use soarcore.Incident.Service.{Service, create, patch, incident_target}
use soarcore.Incident.Service.Steps.{IsRefusal}
use soarcore.Incident.Service.CreateLaws.{Created, create-Created, create_failed}
use soarcore.Incident.Service.Patched.{Patched, patch-Patched, patch_failed}
use soarcore.Api.{Response, respond, value, write_error, finish, with_principal_and_tenant}
use soarcore.Api.Incidents.{
  with_id, CreateRequest, PatchRequest, decode_create, decode_patch, to_response,
  correlation_or_nil, handle_create, handle_patch, answer_patch, patch_input, patch_attributes,
}

-- An answer from the error table is a failure.
unfoldable pub IsFailure : ℕ → Type 0
IsFailure status = 400 ≤ status

write_error-IsFailure : (e : Error) → IsFailure (write_error e).status
unfolding IsFailure write_error
write_error-IsFailure e = ground arith

module _ (env : Env) where
  -- The ends of a request to create: an incident and its rows; a failure with an incident and its rows,
  -- where the commit took effect though its call failed; a refused caller; or a failure that has
  -- changed no table.
  pub data CreateAnswer (who : Option Principal) (whose : Option Uuid) (body : Option Json)
      (w : World) : Response × World → Type 0 where
    created :
        (p : Principal) (tenant : Uuid) (r : CreateRequest) (inc : Incident) (v : World)
        → who ≡ some p
        → whose ≡ some tenant
        → decode_create env body ≡ some r
        → Created env (correlation_or_nil env r.correlation_id) tenant p r.input inc w.db v.db
        → CreateAnswer who whose body w (respond 201 (value (to_response env inc)), v)
    unknown :
        (p : Principal) (tenant : Uuid) (r : CreateRequest) (inc : Incident) (answer : Response)
        (v : World)
        → who ≡ some p
        → whose ≡ some tenant
        → decode_create env body ≡ some r
        → IsFailure answer.status
        → Created env (correlation_or_nil env r.correlation_id) tenant p r.input inc w.db v.db
        → CreateAnswer who whose body w (answer, v)
    refused :
        (p : Principal) (tenant corr : Uuid) (answer : Response) (v : World)
        → who ≡ some p
        → whose ≡ some tenant
        → IsFailure answer.status
        → IsRefusal env tenant p corr "incident.create" none w.db v.db
        → CreateAnswer who whose body w (answer, v)
    failed :
        (answer : Response) (v : World)
        → IsFailure answer.status
        → v.db ≡ w.db
        → CreateAnswer who whose body w (answer, v)

  create_answer :
      (s : Service) (p : Principal) (tenant : Uuid) (body : Option Json) (r : CreateRequest)
      (w : World) (o : Result Incident × World)
      → decode_create env body ≡ some r
      → create env s p tenant r.input (correlation_or_nil env r.correlation_id) w ≡ o
      → CreateAnswer
          (some p)
          (some tenant)
          body
          w
          (finish (λ inc. respond 201 (value (to_response env inc))) o)
  create_answer s p tenant body r w (ok inc, v) hb h =
      created p tenant r inc v refl refl hb (create-Created env s p tenant r.input _ w h).3
  create_answer s p tenant body r w (err e, v) hb h =
      elim (create_failed env s p tenant r.input _ w h) [
        | inl (_, inl same) ↦ failed (write_error e) v (write_error-IsFailure e) same
        | inl (_, inr (inc, made)) ↦
            unknown p tenant r inc (write_error e) v refl refl hb (write_error-IsFailure e) made
        | inr (_, left) ↦
            refused p tenant _ (write_error e) v refl refl (write_error-IsFailure e) left
      ]

  pub handle_create-CreateAnswer :
      (s : Service) (c : Context) (body : Option Json) (w : World)
      → CreateAnswer c.principal c.tenant body w (handle_create env s c body w)
  unfolding handle_create with_principal_and_tenant IsFailure
  handle_create-CreateAnswer s c body w = elim (Option-cases c.principal) [
    | inl n ↦ rw (n, handle_create) (failed _ w (omega arith) refl)
    | inr (p, hp) ↦ elim (Option-cases c.tenant) [
      | inl n ↦ rw (hp, n, handle_create) (failed _ w (omega arith) refl)
      | inr (t, ht) ↦ elim (Option-cases (decode_create env body)) [
        | inl n ↦ rw (hp, ht, n, handle_create) (failed _ w (omega arith) refl)
        | inr (r, hb) ↦ rw (hp, ht, hb, handle_create) (create_answer s p t body r w _ hb refl)
      ]
    ]
  ]

  -- The ends of a request to patch.
  pub data PatchAnswer (registry : Registry) (who : Option Principal) (whose : Option Uuid)
      (named : Option Uuid) (body : Option Json) (w : World) : Response × World → Type 0 where
    patched :
        (p : Principal) (tenant id : Uuid) (r : PatchRequest) (attributes : Option Fields)
        (inc : Incident) (v : World)
        → who ≡ some p
        → whose ≡ some tenant
        → named ≡ some id
        → decode_patch env body ≡ some r
        → patch_attributes env r.attributes ≡ some attributes
        → Patched env registry
            (correlation_or_nil env r.correlation_id)
            tenant
            p
            id
            (patch_input env r attributes)
            inc
            w.db
            v.db
        → PatchAnswer registry who whose named body w (respond 200 (value (to_response env inc)), v)
    unknown :
        (p : Principal) (tenant id : Uuid) (r : PatchRequest) (attributes : Option Fields)
        (inc : Incident) (answer : Response) (v : World)
        → who ≡ some p
        → whose ≡ some tenant
        → named ≡ some id
        → decode_patch env body ≡ some r
        → patch_attributes env r.attributes ≡ some attributes
        → IsFailure answer.status
        → Patched env registry
            (correlation_or_nil env r.correlation_id)
            tenant
            p
            id
            (patch_input env r attributes)
            inc
            w.db
            v.db
        → PatchAnswer registry who whose named body w (answer, v)
    refused :
        (p : Principal) (tenant id corr : Uuid) (answer : Response) (v : World)
        → who ≡ some p
        → whose ≡ some tenant
        → IsFailure answer.status
        → IsRefusal env tenant p corr "incident.update" (incident_target id) w.db v.db
        → PatchAnswer registry who whose named body w (answer, v)
    failed :
        (answer : Response) (v : World)
        → IsFailure answer.status
        → v.db ≡ w.db
        → PatchAnswer registry who whose named body w (answer, v)

  patch_answer :
      (s : Service) (p : Principal) (tenant id : Uuid) (body : Option Json) (r : PatchRequest)
      (attributes : Option Fields) (w : World) (o : Result Incident × World)
      → decode_patch env body ≡ some r
      → patch_attributes env r.attributes ≡ some attributes
      → patch env s p tenant id
          (patch_input env r attributes)
          (correlation_or_nil env r.correlation_id)
          w
        ≡ o
      → PatchAnswer s.registry
          (some p)
          (some tenant)
          (some id)
          body
          w
          (finish (λ inc. respond 200 (value (to_response env inc))) o)
  patch_answer s p tenant id body r attributes w (ok inc, v) hb ha h =
      patched p tenant id r attributes inc v refl refl refl hb ha
        (patch-Patched env s p tenant id _ _ w h).1
  patch_answer s p tenant id body r attributes w (err e, v) hb ha h =
      elim (patch_failed env s p tenant id _ _ w h) [
        | inl (_, inl same) ↦ PatchAnswer.failed (write_error e) v (write_error-IsFailure e) same
        | inl (_, inr (inc, done)) ↦
            PatchAnswer.unknown p tenant id r attributes inc (write_error e) v refl refl refl hb ha
              (write_error-IsFailure e) done
        | inr (_, left) ↦
            PatchAnswer.refused p tenant id _ (write_error e) v refl refl (write_error-IsFailure e)
              left
      ]

  patch_decoded :
      (s : Service) (p : Principal) (tenant id : Uuid) (body : Option Json) (w : World)
      (o : Option PatchRequest)
      → decode_patch env body ≡ o
      → PatchAnswer s.registry
          (some p)
          (some tenant)
          (some id)
          body
          w
          (answer_patch env s p tenant id w o)
  unfolding answer_patch IsFailure
  patch_decoded s p tenant id body w none h = PatchAnswer.failed _ w (omega arith) refl
  patch_decoded s p tenant id body w (some r) h =
      elim (Option-cases (patch_attributes env r.attributes)) [
        | inl n ↦ rw (n, answer_patch) (PatchAnswer.failed _ w (omega arith) refl)
        | inr (attributes, ha) ↦
            rw (ha, answer_patch) (patch_answer s p tenant id body r attributes w _ h ha refl)
      ]

  patch_named :
      (s : Service) (p : Principal) (tenant : Uuid) (named : Option Uuid) (body : Option Json)
      (w : World)
      → PatchAnswer s.registry
          (some p)
          (some tenant)
          named
          body
          w
          (with_id env named (λ id w. answer_patch env s p tenant id w (decode_patch env body)) w)
  unfolding IsFailure
  patch_named s p tenant none body w = PatchAnswer.failed _ w (omega arith) refl
  patch_named s p tenant (some id) body w = patch_decoded s p tenant id body w _ refl

  pub handle_patch-PatchAnswer :
      (s : Service) (c : Context) (id_text : String) (body : Option Json) (w : World)
      → PatchAnswer s.registry c.principal c.tenant
          (env.uuid_parse id_text)
          body
          w
          (handle_patch env s c id_text body w)
  unfolding handle_patch with_principal_and_tenant IsFailure
  handle_patch-PatchAnswer s c id_text body w = elim (Option-cases c.principal) [
    | inl n ↦ rw (n, handle_patch) (PatchAnswer.failed _ w (omega arith) refl)
    | inr (p, hp) ↦ elim (Option-cases c.tenant) [
      | inl n ↦ rw (hp, n, handle_patch) (PatchAnswer.failed _ w (omega arith) refl)
      | inr (t, ht) ↦ rw (hp, ht, handle_patch) (patch_named s p t (env.uuid_parse id_text) body w)
    ]
  ]
