-- ===== src/Auth/Principals.antt =====
-- The text form of a principal and its parser are inverse.
use Prim.Native.Char.{Char, code}
use Prim.Native.String.{[], ◌∷◌, ◌++◌}
use mathlib.Core.Path.{subst}
use text.Mathlib.TextEquality.{Char-path}
use text.Mathlib.TextLemmas.{nil-append, cons-append}
use soarcore.Common.{
  ◌↔◌, String, Bool, true, false, ◌≡◌, refl, ap, ◌∙◌, sym, inl, inr, some, ◌==◌, str_eq, eq_iff,
  if◌then◌else◌, contains, arith, Bool-cases, Option-cases,
}
use soarcore.Errors.{ok}
use soarcore.Auth.{Principal, principal_types, render, split_colon, parse_principal}

is_colon : (c : Char) → (code c == b':') ≡ true → c ≡ ":"
is_colon c h = Char-path c ":" (ground arith)

colon-append : (s : String) → ":" ++ s ≡ ":" ∷ s
colon-append s = cons-append ":" [] s ∙ ap (◌∷◌ ":") (nil-append s)

join_here : (c : Char) (s : String) → (code c == b':') ≡ true → [] ++ (":" ++ s) ≡ c ∷ s
join_here c s h = nil-append (":" ++ s) ∙ (colon-append s ∙ ap (λ ch. ch ∷ s) (sym (is_colon c h)))

split_colon-join : (s a b : String) → split_colon s ≡ some (a, b) → a ++ (":" ++ b) ≡ s
unfolding split_colon
split_colon-join [] a b h = cc
split_colon-join (c ∷ s) a b h = elim (Bool-cases (code c == b':')) [
  | inl e ↦ ground (arith, join_here c s e)
  | inr e ↦ elim (Option-cases (split_colon s)) [
    | inl e' ↦ ground arith
    | inr (parts, e') ↦
        ground (
          arith,
          cons-append c parts.0 (":" ++ parts.1),
          split_colon-join s parts.0 parts.1 (cc e'),
        )
  ]
]

-- What the parser accepts is the text form of what it returns, and that is well formed.
pub parse_principal_sound :
    (s : String) (p : Principal)
    → parse_principal s ≡ ok p
    → (render p ≡ s) × (contains principal_types p.type ≡ true) × (str_eq p.id "" ≡ false)
unfolding parse_principal render
parse_principal_sound s p h = elim (Option-cases (split_colon s)) [
  | inl e ↦ ground arith
  | inr (parts, e) ↦ ground (arith, split_colon-join s parts.0 parts.1 (cc e))
]

-- No colon among the characters.
no_colon : String → Bool
no_colon [] = true
no_colon (c ∷ s) = if code c == b':' then false else no_colon s

split_colon-append :
    (a b : String) → no_colon a ≡ true → split_colon (a ++ (":" ++ b)) ≡ some (a, b)
unfolding split_colon no_colon
split_colon-append [] b h = rw (nil-append (":" ++ b), colon-append b)
split_colon-append (c ∷ a) b h = rw cons-append (ground (arith, split_colon-append a b))

-- A property of the three types, at each type that the table holds.
principal_types_cases {ℓ} :
    (P : String → Type ℓ) (t : String)
    → P "user"
    → P "connector"
    → P "system"
    → contains principal_types t ≡ true
    → P t
principal_types_cases P t u c s h = elim (Bool-cases (str_eq "user" t)) [
  | inl e ↦ subst P ((eq_iff "user" t).0 e) u
  | inr n ↦ elim (Bool-cases (str_eq "connector" t)) [
    | inl e ↦ subst P ((eq_iff "connector" t).0 e) c
    | inr m ↦ elim (Bool-cases (str_eq "system" t)) [
      | inl e ↦ subst P ((eq_iff "system" t).0 e) s
      | inr l ↦ absurd (ground arith)
    ]
  ]
]

-- The text form of a well-formed principal parses to that principal.
pub parse_principal-render :
    (p : Principal)
    → contains principal_types p.type ≡ true
    → str_eq p.id "" ≡ false
    → parse_principal (render p) ≡ ok p
unfolding parse_principal render no_colon
parse_principal-render p h k =
    let split =
      split_colon-append p.type p.id
        (principal_types_cases (λ t. no_colon t ≡ true) p.type refl refl refl h) in
    let nonempty : str_eq p.type "" ≡ false =
      principal_types_cases (λ t. str_eq t "" ≡ false) p.type refl refl refl h in
    rw (split, nonempty, k, h) refl

-- The parser accepts a text with a principal exactly when the text is the principal's own text form,
-- its type is one of the three and its id is not empty.
pub parse_principal_iff :
    (s : String) (p : Principal)
    → (parse_principal s ≡ ok p)
      ↔ ((render p ≡ s) × (contains principal_types p.type ≡ true) × (str_eq p.id "" ≡ false))
parse_principal_iff s p = (
  parse_principal_sound s p,
  λ h.
      let (form, typed, named) = h in
      ap parse_principal (sym form) ∙ parse_principal-render p typed named,
)
