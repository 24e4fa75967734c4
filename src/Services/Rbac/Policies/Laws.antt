-- ===== src/Services/Rbac/Policies/Laws.antt =====
-- What `detectPolicyConflicts` and `CreatePolicy` of backend/services/core/rbac.go promise.
use rems.Prelude.{◌≡◌, refl, sym, ap, ◌∙◌, ◌↔◌, inl, inr, false, List, [], ◌∷◌, arith, eq_iff, In}
use rems.Services.Exec.{ok}
use rems.Services.Rbac.Policies.{
  PermissionRequest, seen_effect, conflicts, detect_from, detect_policy_conflicts,
}

-- Two entries on the same resource and action have the same effect.
abbrev pub Agree : PermissionRequest → PermissionRequest → Type 0
Agree p q = p.resource ≡ q.resource → p.action ≡ q.action → p.effect ≡ q.effect

abbrev AgreesWith : PermissionRequest → List PermissionRequest → Type 0
AgreesWith p [] = Unit
AgreesWith p (q ∷ qs) = Agree q p × AgreesWith p qs

abbrev AllAgree : List PermissionRequest → Type 0
AllAgree [] = Unit
AllAgree (p ∷ ps) = AgreesWith p ps × AllAgree ps

-- What a scan of `ps` after `seen` succeeds on.
abbrev NoConflict : List PermissionRequest → List PermissionRequest → Type 0
NoConflict seen [] = Unit
NoConflict seen (p ∷ ps) = AgreesWith p seen × NoConflict (p ∷ seen) ps

AgreesWith-same :
    (p q : PermissionRequest) (seen : List PermissionRequest)
    → q.resource ≡ p.resource
    → q.action ≡ p.action
    → q.effect ≡ p.effect
    → AgreesWith q seen
    → AgreesWith p seen
AgreesWith-same p q [] sr sa se h = tt
AgreesWith-same p q (r ∷ seen) sr sa se h =
    (λ er ea. h.0 (er ∙ sym sr) (ea ∙ sym sa) ∙ se, AgreesWith-same p q seen sr sa se h.1)

conflicts-seen_effect :
    (seen : List PermissionRequest) (p : PermissionRequest)
    → AllAgree seen
    → (conflicts (seen_effect seen p) p.effect ≡ false) ↔ AgreesWith p seen
conflicts-seen_effect [] p agree = (λ h. tt, λ h. refl)
conflicts-seen_effect (q ∷ seen) p agree = ground (
  arith,
  AgreesWith-same p q seen,
  conflicts-seen_effect seen p agree.1,
  eq_iff q.resource p.resource,
  eq_iff q.action p.action,
  eq_iff q.effect p.effect,
)

detect_from-NoConflict :
    (seen ps : List PermissionRequest)
    → AllAgree seen
    → (detect_from seen ps ≡ ok tt) ↔ NoConflict seen ps
unfolding detect_from
detect_from-NoConflict seen [] agree = (λ h. tt, λ h. refl)
detect_from-NoConflict seen (p ∷ ps) agree =
    ground (arith, conflicts-seen_effect seen p agree, detect_from-NoConflict (p ∷ seen) ps)

AgreesWith-In :
    (p : PermissionRequest) (qs : List PermissionRequest)
    → AgreesWith p qs ↔ ((q : PermissionRequest) → In q qs → Agree q p)
AgreesWith-In p [] = (λ h q m. absurd m, λ h. tt)
AgreesWith-In p (r ∷ qs) =
    let ih = AgreesWith-In p qs in
    (
      (λ h q m. elim m [ inl same ↦ rw same h.0 | inr later ↦ ih.0 h.1 q later ]),
      (λ h. (h r (inl refl), ih.1 (λ q m. h q (inr m)))),
    )

Agree-sym : (p q : PermissionRequest) → Agree p q → Agree q p
Agree-sym p q h er ea = sym (h (sym er) (sym ea))

-- The entries of both lists agree with each other, and those of the second among themselves.
NoConflict-In :
    (seen ps : List PermissionRequest)
    → NoConflict seen ps ↔ (
        ((p q : PermissionRequest) → In p seen → In q ps → Agree p q)
        × ((p q : PermissionRequest) → In p ps → In q ps → Agree p q))
NoConflict-In seen [] = (λ h. (λ p q m n. absurd n, λ p q m n. absurd n), λ h. tt)
NoConflict-In seen (r ∷ ps) =
    let ih = NoConflict-In (r ∷ seen) ps in
    (
      (λ h.
          let first = (AgreesWith-In r seen).0 h.0 in
          let (before, among) = ih.0 h.1 in
          (
            (λ p q m n. elim n [
              | inl same ↦ rw same (first p m)
              | inr later ↦ before p q (inr m) later
            ]),
            (λ p q m n. elim m [
              | inl same ↦ elim n [
                | inl same' ↦ (λ er ea. ap (λ x. x.effect) (same ∙ sym same'))
                | inr n' ↦ before p q (inl same) n'
              ]
              | inr m' ↦ elim n [
                | inl same' ↦ Agree-sym q p (before q p (inl same') m')
                | inr n' ↦ among p q m' n'
              ]
            ]),
          )),
      (λ h. (
        (AgreesWith-In r seen).1 (λ q m. h.0 q r m (inl refl)),
        ih.1 (
          (λ p q m n. elim m [
            | inl same ↦ h.1 p q (inl same) (inr n)
            | inr m' ↦ h.0 p q m' (inr n)
          ]),
          (λ p q m n. h.1 p q (inr m) (inr n)),
        ),
      )),
    )

-- The permissions of a new policy are accepted exactly when any two of them that name the same
-- resource and action have the same effect.
pub detect_policy_conflicts_lem :
    (ps : List PermissionRequest)
    → (detect_policy_conflicts ps ≡ ok tt)
      ↔ ((p q : PermissionRequest) → In p ps → In q ps → Agree p q)
unfolding detect_policy_conflicts
detect_policy_conflicts_lem ps =
    let scan = detect_from-NoConflict [] ps tt in
    let members = NoConflict-In [] ps in
    ((λ h. (members.0 (scan.0 h)).1), (λ h. scan.1 (members.1 ((λ p q m n. absurd m), h))))
