-- ===== src/Incident/Service/Live/Writes.antt =====
-- The writes of a patch, where nothing stands in their way.
use soarcore.Common.{
  ℕ, ◌+◌, ◌≤◌, ◌<◌, String, ◌≡◌, inl, inr, refl, ap, ◌∙◌, Bool, true, false, ◌&&◌, none, some, List,
  [], ◌∷◌, ◌++◌, arith, ◌==◌, ==_refl, Bool-cases, any, str_eq,
}
use mathlib.Core.Option
use soarcore.Json.{Json}
use soarcore.Errors.{ok}
use soarcore.Auth.{Principal}
use soarcore.World.{Env, Uuid, World, IncidentRow, tick, query-works}
use soarcore.Persistence.Incidents
use soarcore.Persistence.Incidents.{
  set_columns, IncidentUpdate, find_row, update_rows, apply_update, update_refuses, set_incident,
}
use soarcore.Persistence.Incidents.Keys.{find_row-update_rows}
use soarcore.Persistence.Outbox.{push_outbox}
use soarcore.Events.Envelope.{
  new_envelope, Envelope, incident_updated, incident_status_changed, incident_closed,
}
use soarcore.Incident.{Incident}
use soarcore.Incident.Rows.{from_row, actor_of}
use soarcore.Incident.Input.{Plan}
use soarcore.Incident.Service.{
  patch_rows, enqueue_event, closed_event, status_events, outbox_row, entity_of, updated_payload,
  status_payload, closed_payload, audit_action, incident_target,
}
use soarcore.Incident.Service.Live.{exec_done, audit_done, enqueue_done}

any-append_last :
    {A : Type 0} (p : A → Bool) (xs : List A) (x : A)
    → any p xs ≡ false
    → p x ≡ false
    → any p (xs ++ x ∷ []) ≡ false
any-append_last p [] x h k = rw k refl
any-append_last p (y ∷ ys) x h k = ground (arith, any-append_last p ys x)

module _ (env : Env) (works : (n : ℕ) → env.fails n ≡ false)
    (distinct : (m n : ℕ) → m < n → (env.uuid m == env.uuid n) ≡ false) where
  -- The UUIDs that are still to be drawn are in no event.
  abbrev pub HasNewEvents : World → Type 0
  HasNewEvents w = (n : ℕ) → w.reads ≤ n → any (λ r. r.event_id == env.uuid n) w.db.outbox ≡ false

  HasNewEvents-later :
      (w v : World)
      → v.db.outbox ≡ w.db.outbox
      → w.reads ≤ v.reads
      → HasNewEvents w
      → HasNewEvents v
  HasNewEvents-later w v same later h n le =
      ap (any (λ r. r.event_id == env.uuid n)) same ∙ h n (omega (arith, later, le))

  enqueue_event_done :
      (type : String) (tenant : Uuid) (p : Principal) (inc : Incident) (corr : Uuid)
      (payload : Json) (w : World)
      → HasNewEvents w
      → (v : World) × (enqueue_event env type tenant p inc corr payload w ≡ (ok tt, v))
        × HasNewEvents v
  unfolding enqueue_event new_envelope
  enqueue_event_done type tenant p inc corr payload w new =
      let e : Envelope = record {
        event_id = env.uuid w.reads;
        event_type = type;
        event_schema_version = 1;
        occurred_at = env.now (w.reads + 1);
        tenant_id = tenant;
        actor = actor_of p;
        entity = entity_of inc.id;
        payload = payload;
        correlation_id = corr;
        prior_event_id = none;
      } in
      let row = outbox_row env tenant e (env.now (w.reads + 1)) in
      (
        record (tick (tick (tick w))) { db = push_outbox row w.db },
        enqueue_done env works row (tick (tick w)) (new w.reads (omega arith)),
        λ n le.
            any-append_last (λ r. r.event_id == env.uuid n) w.db.outbox _
              (new n (omega (arith, le))) (distinct w.reads n (omega (arith, le))),
      )

  closed_event_done :
      (tenant : Uuid) (p : Principal) (d : Plan) (inc : Incident) (corr : Uuid) (w : World)
      → HasNewEvents w
      → (v : World) × (closed_event env tenant p d inc corr w ≡ (ok tt, v))
  unfolding closed_event
  closed_event_done tenant p d inc corr w new = elim (Bool-cases (str_eq d.to_status "closed")) [
    | inl y ↦
        let (v, done, _) =
          enqueue_event_done incident_closed tenant p inc corr (closed_payload env d.to_status inc)
            w new in
        (v, rw (y, closed_event) done)
    | inr n ↦ (w, rw (n, closed_event) refl)
  ]

  status_events_both :
      (tenant : Uuid) (p : Principal) (d : Plan) (inc : Incident) (corr : Uuid) (w v v' : World)
      → d.status_changed ≡ true
      → enqueue_event env incident_status_changed tenant p inc corr
          (status_payload env d.from_status d.to_status inc)
          w
        ≡ (ok tt, v)
      → closed_event env tenant p d inc corr v ≡ (ok tt, v')
      → status_events env tenant p d inc corr w ≡ (ok tt, v')
  unfolding status_events
  status_events_both tenant p d inc corr w v v' y one two = rw (y, one, status_events) two

  status_events_done :
      (tenant : Uuid) (p : Principal) (d : Plan) (inc : Incident) (corr : Uuid) (w : World)
      → HasNewEvents w
      → (v : World) × (status_events env tenant p d inc corr w ≡ (ok tt, v))
  unfolding status_events
  status_events_done tenant p d inc corr w new = elim (Bool-cases d.status_changed) [
    | inl y ↦
        let (v, one, new') =
          enqueue_event_done incident_status_changed tenant p inc corr
            (status_payload env d.from_status d.to_status inc) w new in
        let (v', two) = closed_event_done tenant p d inc corr v new' in
        (v', status_events_both tenant p d inc corr w v v' y one two)
    | inr n ↦ (w, rw (n, status_events) refl)
  ]

  -- What the writes of a patch need of the tables before them.
  pub record Ready (tenant id : Uuid) (d : Plan) (w : World) : Type 0 where
    pub row : IncidentRow
    pub found : find_row tenant id w.db.incidents ≡ some row
    pub fits : update_refuses d.upd w.db ≡ none
    pub audit_ids : (n : ℕ) → w.reads ≤ n → any (λ r. r.id == env.uuid n) w.db.audits ≡ false
    pub new : HasNewEvents w

  update_done :
      (tenant id : Uuid) (u : IncidentUpdate) (w : World) (row : IncidentRow)
      → find_row tenant id w.db.incidents ≡ some row
      → update_refuses u w.db ≡ none
      → Incidents.update env tenant id u w
        ≡ (ok tt, record (tick w) { db = set_incident tenant id (set_columns env u) w.db })
  unfolding Incidents.update
  update_done tenant id u w row found fits =
      rw
        (exec_done env works "update incident" (update_refuses u)
          (set_incident tenant id (set_columns env u)) w fits)
        (rw found refl)

  pub read_done :
      (tenant id : Uuid) (w : World) (row : IncidentRow)
      → find_row tenant id w.db.incidents ≡ some row
      → Incidents.get_by_id env tenant id w ≡ (ok row, tick w)
  unfolding Incidents.get_by_id
  read_done tenant id w row found =
      query-works env "get incident" _ w (works w.reads)
      ∙ ap (λ o. (Incidents.found env o, tick w)) found

  updated_row :
      (tenant id : Uuid) (u : IncidentUpdate) (rows : List IncidentRow) (row : IncidentRow)
      → find_row tenant id rows ≡ some row
      → find_row tenant id (update_rows tenant id u rows) ≡ some (apply_update u row)
  updated_row tenant id u rows row found =
      let here : (tenant == tenant && id == id) ≡ true =
        rw (==_refl tenant) (rw (==_refl id) refl) in
      find_row-update_rows tenant id tenant id u rows
      ∙ (rw here refl ∙ ap (Option.map (apply_update u)) found)

  pub patch_rows_done :
      (tenant : Uuid) (p : Principal) (id : Uuid) (d : Plan) (corr : Uuid) (w : World)
      → Ready tenant id d w
      → (inc : Incident) × (v : World) × (patch_rows env tenant p id d corr w ≡ (ok inc, v))
  unfolding patch_rows
  patch_rows_done tenant p id d corr w r =
      let w₁ : World = record (tick w) {
        db = set_incident tenant id (set_columns env d.upd) w.db;
      } in
      let after = apply_update (set_columns env d.upd) r.row in
      let (v₂, audited, same, reads) =
        audit_done env works tenant p (audit_action d.status_changed) (incident_target id) corr
          (tick w₁) (r.audit_ids (tick w₁).reads (omega arith)) in
      let (v₃, sent, new) =
        enqueue_event_done incident_updated tenant p (from_row after) corr
          (updated_payload env d.changed_fields (from_row after)) v₂
          (HasNewEvents-later w v₂ same (omega (arith, reads)) r.new) in
      let (v₄, told) = status_events_done tenant p d (from_row after) corr v₃ new in
      (
        from_row after,
        v₄,
        rw (update_done tenant id d.upd w r.row r.found r.fits) (
            rw
              (read_done tenant id w₁ after
                (updated_row tenant id (set_columns env d.upd) w.db.incidents r.row r.found))
              (rw audited (rw sent (rw told refl)))),
      )
