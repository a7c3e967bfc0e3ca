-- ===== src/Incident/Machine.antt =====
-- The status machine of internal/domain/incident/incident.go as a step relation, and what
-- `can_transition` decides.
use soarcore.Common.{
  String, true, ◌≡◌, refl, ◌↔◌, ◌⊎◌, inl, inr, none, some, List, [], ◌∷◌, str_eq, eq_iff, contains,
  arith, Bool-cases, Option-cases, OneOf, contains-OneOf,
}
use mathlib.Core.Path.{subst}
use soarcore.Incident.{allowed_transitions, lookup_transitions, can_transition}

-- The machine that context/data_model.md draws:
-- new → triaged → in_progress → contained → resolved → closed, and the two ways back to in_progress.
pub data Documented : String → String → Type 0 where
  triage : Documented "new" "triaged"
  start : Documented "triaged" "in_progress"
  contain : Documented "in_progress" "contained"
  resolve : Documented "contained" "resolved"
  finish : Documented "resolved" "closed"
  reopen_resolved : Documented "resolved" "in_progress"
  reopen_closed : Documented "closed" "in_progress"

-- The machine of the code: the documented edges, and in_progress → resolved, which only the table in
-- incident.go has.
pub data Edge : String → String → Type 0 where
  drawn : {s t : String} → Documented s t → Edge s t
  undrawn : Edge "in_progress" "resolved"

Documented-can_transition : {s t : String} → Documented s t → can_transition s t ≡ none
unfolding can_transition
Documented-can_transition triage = refl
Documented-can_transition start = refl
Documented-can_transition contain = refl
Documented-can_transition resolve = refl
Documented-can_transition finish = refl
Documented-can_transition reopen_resolved = refl
Documented-can_transition reopen_closed = refl

Edge-can_transition : {s t : String} → Edge s t → can_transition s t ≡ none
unfolding can_transition
Edge-can_transition (drawn edge) = Documented-can_transition edge
Edge-can_transition undrawn = refl

can_transition_refl : (s : String) → can_transition s s ≡ none
unfolding can_transition
can_transition_refl s = ground (arith, eq_iff s s)

lookup_transitions-OneOf :
    (s : String) (table : List (String × List String)) (targets : List String)
    → lookup_transitions s table ≡ some targets
    → OneOf (λ row. (row.0 ≡ s) × (row.1 ≡ targets)) table
unfolding lookup_transitions
lookup_transitions-OneOf s [] targets h = cc
lookup_transitions-OneOf s ((from, to) ∷ table) targets h = elim (Bool-cases (str_eq from s)) [
  | inl e ↦ inl ((eq_iff from s).0 e, ground arith)
  | inr e ↦ inr (lookup_transitions-OneOf s table targets (ground arith))
]

-- A row of the table: its edges, at texts equal to its own.
row_edges :
    {a s t : String} (targets row : List String)
    → ((b : String) → OneOf (λ x. x ≡ b) row → Edge a b)
    → (a ≡ s) × (row ≡ targets)
    → contains targets t ≡ true
    → Edge s t
row_edges {a} {s} {t} targets row edges (e, r) h =
    subst (λ x. Edge x t) e (edges t (contains-OneOf row t (rw r h)))

to : {a b c : String} → Edge a b → b ≡ c → Edge a c
to {a} edge e = subst (Edge a) e edge

table_edges :
    (s t : String) (targets : List String)
    → OneOf (λ row. (row.0 ≡ s) × (row.1 ≡ targets)) allowed_transitions
    → contains targets t ≡ true
    → Edge s t
table_edges s t targets (inl r) h =
    row_edges targets _ (λ b. elim [ inl e ↦ to (drawn triage) e | inr x ↦ absurd x ]) r h
table_edges s t targets (inr (inl r)) h =
    row_edges targets _ (λ b. elim [ inl e ↦ to (drawn start) e | inr x ↦ absurd x ]) r h
table_edges s t targets (inr (inr (inl r))) h =
    row_edges targets _
      (λ b. elim [
        | inl e ↦ to (drawn contain) e
        | inr (inl e) ↦ to undrawn e
        | inr (inr x) ↦ absurd x
      ])
      r h
table_edges s t targets (inr (inr (inr (inl r)))) h =
    row_edges targets _ (λ b. elim [ inl e ↦ to (drawn resolve) e | inr x ↦ absurd x ]) r h
table_edges s t targets (inr (inr (inr (inr (inl r))))) h =
    row_edges targets _
      (λ b. elim [
        | inl e ↦ to (drawn finish) e
        | inr (inl e) ↦ to (drawn reopen_resolved) e
        | inr (inr x) ↦ absurd x
      ])
      r h
table_edges s t targets (inr (inr (inr (inr (inr (inl r)))))) h =
    row_edges targets _ (λ b. elim [ inl e ↦ to (drawn reopen_closed) e | inr x ↦ absurd x ]) r h
table_edges s t targets (inr (inr (inr (inr (inr (inr x)))))) h = absurd x

pub can_transition-Edge : (s t : String) → can_transition s t ≡ none → (s ≡ t) ⊎ Edge s t
unfolding can_transition
can_transition-Edge s t h = elim (Bool-cases (str_eq s t)) [
  | inl e ↦ inl ((eq_iff s t).0 e)
  | inr e ↦ elim (Option-cases (lookup_transitions s allowed_transitions)) [
    | inl e' ↦ absurd (ground arith)
    | inr (targets, e') ↦ inr (
        table_edges s t targets (lookup_transitions-OneOf s allowed_transitions targets e')
          (ground arith))
  ]
]

-- For any two texts, `CanTransition` accepts exactly a status to itself, the edges that the
-- documentation draws, and one edge more, from in_progress to resolved.
pub can_transition_iff : (s t : String) → (can_transition s t ≡ none) ↔ ((s ≡ t) ⊎ Edge s t)
can_transition_iff s t = (
  can_transition-Edge s t,
  elim [ inl e ↦ rw e (can_transition_refl t) | inr edge ↦ Edge-can_transition edge ],
)
