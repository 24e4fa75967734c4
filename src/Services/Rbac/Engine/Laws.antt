-- ===== src/Services/Rbac/Engine/Laws.antt =====
-- What the policy engine of backend/services/core/rbac.go decides.
use rems.Prelude.{
  ◌≡◌, refl, ◌↔◌, ◌⊎◌, inl, inr, Bool, true, false, ◌&&◌, List, [], ◌∷◌, arith, str_eq,
  if◌then◌else◌, In,
}
use rems.Fsm.Types.{Time}
use rems.Services.Rbac.Types.{Permission, AccessRequest}
use rems.Services.Rbac.Engine.{applies, evaluate_from, evaluate}

abbrev pub Grants : AccessRequest → Permission → Type 0
Grants req p = (applies req p ≡ true) × (str_eq p.effect "allow" ≡ true)

abbrev pub Denies : AccessRequest → Permission → Type 0
Denies req p = (applies req p ≡ true) × (str_eq p.effect "deny" ≡ true)

-- Some permission of the list grants the request, and none denies it.
abbrev pub SomeGrants : AccessRequest → List Permission → Type 0
SomeGrants req [] = ⊥
SomeGrants req (p ∷ ps) = Grants req p ⊎ SomeGrants req ps

abbrev pub NoneDenies : AccessRequest → List Permission → Type 0
NoneDenies req [] = Unit
NoneDenies req (p ∷ ps) = ¬ Denies req p × NoneDenies req ps

evaluate_from_allowed :
    (now : Time) (req : AccessRequest) (ps : List Permission) (allowed : Bool)
    → ((evaluate_from now req ps allowed).allowed ≡ true)
      ↔ (((allowed ≡ true) ⊎ SomeGrants req ps) × NoneDenies req ps)
unfolding evaluate_from
evaluate_from_allowed now req [] allowed = ground arith
evaluate_from_allowed now req (p ∷ ps) allowed = ground (
  arith,
  evaluate_from_allowed now req ps
      (if applies req p && str_eq p.effect "allow" then true else allowed),
)

-- Deny overrides allow, and the default is to deny: `Evaluate` allows a request exactly when some
-- permission applies to it with the effect allow, and none applies to it with the effect deny.
pub evaluate_lem :
    (now : Time) (req : AccessRequest) (ps : List Permission)
    → ((evaluate now req ps).allowed ≡ true) ↔ (SomeGrants req ps × NoneDenies req ps)
unfolding evaluate
evaluate_lem now req ps = ground (arith, evaluate_from_allowed now req ps false)

SomeGrants-In :
    (req : AccessRequest) (ps : List Permission)
    → SomeGrants req ps ↔ ((p : Permission) × In p ps × Grants req p)
SomeGrants-In req [] = (λ h. absurd h, λ h. absurd h.1)
SomeGrants-In req (p ∷ ps) =
    let ih = SomeGrants-In req ps in
    (
      (λ h. elim h [ inl g ↦ (p, inl refl, g) | inr s ↦ let (q, m, g) = ih.0 s in (q, inr m, g) ]),
      (λ h. elim (h.1) [ inl same ↦ inl (rw (← same) h.2) | inr m ↦ inr (ih.1 (h.0, m, h.2)) ]),
    )

NoneDenies-In :
    (req : AccessRequest) (ps : List Permission)
    → NoneDenies req ps ↔ ((p : Permission) → In p ps → ¬ Denies req p)
NoneDenies-In req [] = (λ h p m. absurd m, λ h. tt)
NoneDenies-In req (p ∷ ps) =
    let ih = NoneDenies-In req ps in
    (
      (λ h q m. elim m [ inl same ↦ rw same h.0 | inr later ↦ ih.0 h.1 q later ]),
      (λ h. (h p (inl refl), ih.1 (λ q m. h q (inr m)))),
    )

-- The decision depends on the set of permissions alone: two lists with the same permissions, in any
-- order and however often, give the same answer.
pub evaluate_same_set :
    (now : Time) (req : AccessRequest) (ps qs : List Permission)
    → ((p : Permission) → In p ps ↔ In p qs)
    → (evaluate now req ps).allowed ≡ (evaluate now req qs).allowed
evaluate_same_set now req ps qs same =
    let grants : SomeGrants req ps ↔ SomeGrants req qs = (
      (λ h.
          let (p, m, g) = (SomeGrants-In req ps).0 h in
          (SomeGrants-In req qs).1 (p, (same p).0 m, g)),
      (λ h.
          let (p, m, g) = (SomeGrants-In req qs).0 h in
          (SomeGrants-In req ps).1 (p, (same p).1 m, g)),
    ) in
    let denies : NoneDenies req ps ↔ NoneDenies req qs = (
      (λ h. (NoneDenies-In req qs).1 (λ p m. (NoneDenies-In req ps).0 h p ((same p).1 m))),
      (λ h. (NoneDenies-In req ps).1 (λ p m. (NoneDenies-In req qs).0 h p ((same p).0 m))),
    ) in
    ground (arith, evaluate_lem now req ps, evaluate_lem now req qs, grants, denies)
