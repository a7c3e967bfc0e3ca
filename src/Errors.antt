-- ===== src/Errors.antt =====
-- Go's error values: the sentinels of the packages, and what `fmt.Errorf` wraps round them.
use soarcore.Common.{String, Bool, true, false, ◌≡◌, ◌⊎◌, inl, inr, refl}

-- One for each `errors.New` that a package exports, and `context.Canceled`.
pub data Sentinel : Type 0 where
  invalid_input invalid_transition not_found denied : Sentinel
  unknown_entity_type unsupported_event_schema schema_not_found canceled : Sentinel

abbrev pub same : Sentinel → Sentinel → Bool
same invalid_input invalid_input = true
same invalid_transition invalid_transition = true
same not_found not_found = true
same denied denied = true
same unknown_entity_type unknown_entity_type = true
same unsupported_event_schema unsupported_event_schema = true
same schema_not_found schema_not_found = true
same canceled canceled = true
same _ _ = false

-- `plain` is an error that wraps nothing (`fmt.Errorf` with no `%w`, or an error of the driver);
-- `wrapped` is `fmt.Errorf` with one `%w`, and keeps the rest of the format.
pub data Error : Type 0 where
  sentinel : Sentinel → Error
  plain : String → Error
  wrapped : String → Error → Error

-- `errors.Is(err, target)`
unfoldable pub is : Error → Sentinel → Bool
is (sentinel s) t = same s t
is (plain text) t = false
is (wrapped text e) t = is e t

pub data Result {ℓ} (A : Type ℓ) : Type ℓ where
  ok : A → Result A
  err : Error → Result A

pub Result-cases {ℓ} :
    {A : Type ℓ} (r : Result A) → ((a : A) × (r ≡ ok a)) ⊎ ((e : Error) × (r ≡ err e))
Result-cases (ok a) = inl (a, refl)
Result-cases (err e) = inr (e, refl)
