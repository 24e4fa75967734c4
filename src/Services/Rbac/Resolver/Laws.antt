-- ===== src/Services/Rbac/Resolver/Laws.antt =====
-- What the role resolver of backend/services/core/rbac.go collects when it succeeds, and a hierarchy
-- that it refuses although it has no cycle.
use rems.Prelude.{
  ℕ, zero, suc, ◌≡◌, refl, sym, ap, ◌∙◌, ◌≢◌, inl, inr, false, Option, none, some, List, [], ◌∷◌,
  ◌++◌, arith, In, In-append_left, In-append_right, Bool-cases, Option-cases,
}
use mathlib.Core.Path.{subst}
use mathlib.Core.List.{append_assoc, append-nil}
use rems.Fsm.Types.{Uuid}
use rems.Services.Exec.{Result, ok, err}
use rems.Services.Rbac.Types.{Permission, RbacError, circular_inheritance}
use rems.Services.Rbac.Resolver.{
  Role, is_visited, role_permissions, unless_failed, unless_empty, resolve_recursive,
  resolve_permissions, max_inheritance_depth,
}

-- No role comes twice.
abbrev pub AllDifferent : List Uuid → Type 0
AllDifferent [] = Unit
AllDifferent (x ∷ xs) = (is_visited xs x ≡ false) × AllDifferent xs

-- The roles of the first list stand in the second.
abbrev pub AllIn : List Uuid → List Uuid → Type 0
AllIn [] ys = Unit
AllIn (x ∷ xs) ys = In x ys × AllIn xs ys

module _ (find : Uuid → Option Role) where
  abbrev pub permissions_of_row : Option Role → List Permission
  permissions_of_row none = []
  permissions_of_row (some role) = role_permissions role.policies

  -- The direct permissions of the roles, one role after the other.
  abbrev pub permissions_of : List Uuid → List Permission
  permissions_of [] = []
  permissions_of (id ∷ ids) = permissions_of_row (find id) ++ permissions_of ids

  -- Each role of the first list is found, and its parents stand in the second.
  abbrev pub ParentsIn : List Uuid → List Uuid → Type 0
  ParentsIn [] all = Unit
  ParentsIn (id ∷ ids) all =
      ((role : Role) × (find id ≡ some role) × AllIn role.parent_role_ids all) × ParentsIn ids all

  -- What a successful resolution of `ids` has done.
  pub record Resolution (ids visited : List Uuid) (perms : List Permission) (after : List Uuid)
      : Type 0 where
    pub reached : List Uuid
    pub marked : after ≡ visited ++ reached
    pub collected : perms ≡ permissions_of reached
    pub covers : AllIn ids reached
    pub closed : ParentsIn reached reached
    pub different : AllDifferent visited → AllDifferent after

is_visited-append :
    (visited : List Uuid) (id x : Uuid)
    → is_visited visited x ≡ false
    → x ≢ id
    → is_visited (visited ++ (id ∷ [])) x ≡ false
is_visited-append [] id x h ne = ground arith
is_visited-append (v ∷ visited) id x h ne = ground (arith, is_visited-append visited id x)

AllDifferent-append :
    (visited : List Uuid) (id : Uuid)
    → is_visited visited id ≡ false
    → AllDifferent visited
    → AllDifferent (visited ++ (id ∷ []))
AllDifferent-append [] id new d = (refl, tt)
AllDifferent-append (v ∷ visited) id new d = (
  is_visited-append visited id v d.0 (ground arith),
  AllDifferent-append visited id (ground arith) d.1,
)

ok_inj : {E A V : Type 0} {a b : A} {v w : V} → ◌≡◌ {A = Result E A × V} (ok a, v) (ok b, w) → a ≡ b
ok_inj h = cc h

after_eq :
    {E A V : Type 0} {a b : A} {v w : V} → ◌≡◌ {A = Result E A × V} (ok a, v) (ok b, w) → v ≡ w
after_eq h = cc h

AllIn-mono : (xs ys zs : List ℕ) → ((a : ℕ) → In a ys → In a zs) → AllIn xs ys → AllIn xs zs
AllIn-mono [] ys zs f h = tt
AllIn-mono (x ∷ xs) ys zs f h = (f x h.0, AllIn-mono xs ys zs f h.1)

unless_failed-eq-ok :
    {E A B V : Type 0} (r : Result E A × V) (k : A → V → Result E B × V) {b : B} {w : V}
    → unless_failed r k ≡ (ok b, w)
    → (a : A) × (v : V) × (r ≡ (ok a, v)) × (k a v ≡ (ok b, w))
unless_failed-eq-ok (ok a, v) k h = (a, v, refl, h)
unless_failed-eq-ok (err e, v) k h = absurd (ground arith)

module _ (find : Uuid → Option Role) where
  ParentsIn-mono :
      (ids ys zs : List Uuid)
      → ((a : ℕ) → In a ys → In a zs)
      → ParentsIn find ids ys
      → ParentsIn find ids zs
  ParentsIn-mono [] ys zs f h = tt
  ParentsIn-mono (id ∷ ids) ys zs f ((role, found, parents), h) =
      ((role, found, AllIn-mono role.parent_role_ids ys zs f parents), ParentsIn-mono ids ys zs f h)

  ParentsIn-append :
      (xs ys all : List Uuid)
      → ParentsIn find xs all
      → ParentsIn find ys all
      → ParentsIn find (xs ++ ys) all
  ParentsIn-append [] ys all h k = k
  ParentsIn-append (x ∷ xs) ys all h k = (h.0, ParentsIn-append xs ys all h.1 k)

  permissions_of-append :
      (xs ys : List Uuid)
      → permissions_of find (xs ++ ys) ≡ permissions_of find xs ++ permissions_of find ys
  permissions_of-append [] ys = refl
  permissions_of-append (x ∷ xs) ys =
      ap (λ l. permissions_of_row find (find x) ++ l) (permissions_of-append xs ys)
      ∙ sym (
          append_assoc (permissions_of_row find (find x)) (permissions_of find xs)
            (permissions_of find ys))

  -- A role, then what its parents reach, then what the rest of the list reaches.
  Resolution-cons :
      (id : Uuid) (ids visited : List Uuid) (role : Role) (pp rp : List Permission)
      (v w : List Uuid)
      → is_visited visited id ≡ false
      → find id ≡ some role
      → Resolution find role.parent_role_ids (visited ++ (id ∷ [])) pp v
      → Resolution find ids v rp w
      → Resolution find (id ∷ ids) visited (role_permissions role.policies ++ (pp ++ rp)) w
  Resolution-cons id ids visited role pp rp v w new found p r =
      let xs = p.reached in
      let ys = r.reached in
      let left : (a : ℕ) → In a xs → In a (id ∷ (xs ++ ys)) =
        λ a h. inr (In-append_left a xs ys h) in
      let right : (a : ℕ) → In a ys → In a (id ∷ (xs ++ ys)) =
        λ a h. inr (In-append_right a xs ys h) in
      record {
        reached = id ∷ (xs ++ ys);
        marked =
            r.marked
            ∙ ap (λ l. l ++ ys) (p.marked ∙ append_assoc visited (id ∷ []) xs)
            ∙ append_assoc visited (id ∷ xs) ys;
        collected =
            rw (found, p.collected, r.collected)
              (ap (λ l. role_permissions role.policies ++ l) (sym (permissions_of-append xs ys)));
        covers = (inl refl, AllIn-mono ids ys (id ∷ (xs ++ ys)) right r.covers);
        closed = (
          (role, found, AllIn-mono role.parent_role_ids xs (id ∷ (xs ++ ys)) left p.covers),
          ParentsIn-append xs ys (id ∷ (xs ++ ys))
              (ParentsIn-mono xs xs (id ∷ (xs ++ ys)) left p.closed)
              (ParentsIn-mono ys ys (id ∷ (xs ++ ys)) right r.closed),
        );
        different = λ d. r.different (p.different (AllDifferent-append visited id new d));
      }

  Resolution-nil :
      (visited : List Uuid) {perms : List Permission} {after : List Uuid}
      → ◌≡◌ {A = Result RbacError (List Permission) × List Uuid} (ok [], visited) (ok perms, after)
      → Resolution find [] visited perms after
  Resolution-nil visited {perms} {after} h = record {
    reached = [];
    marked =
        ap (λ (x : Result RbacError (List Permission) × List Uuid). x.1) (sym h)
        ∙ sym (append-nil visited);
    collected = ground arith;
    covers = tt;
    closed = tt;
    different = λ d.
        subst AllDifferent (ap (λ (x : Result RbacError (List Permission) × List Uuid). x.1) h) d;
  }

  -- The recursion into the parents, where there are any.
  Resolution-parents :
      (r : Result RbacError (List Permission) × List Uuid) (ids visited : List Uuid)
      {perms : List Permission} {after : List Uuid}
      → (r ≡ (ok perms, after) → Resolution find ids visited perms after)
      → unless_empty ids (ok [], visited) r ≡ (ok perms, after)
      → Resolution find ids visited perms after
  Resolution-parents r [] visited ih h = Resolution-nil visited h
  Resolution-parents r (id ∷ ids) visited ih h = ih h

  resolve_recursive_step :
      (levels : ℕ) (id : Uuid) (ids visited : List Uuid) (role : Role)
      → is_visited visited id ≡ false
      → find id ≡ some role
      → (let visited' = visited ++ (id ∷ []) in
          resolve_recursive find (suc levels) (id ∷ ids) visited
          ≡ unless_failed
              (unless_empty role.parent_role_ids
                (ok [], visited')
                (resolve_recursive find levels role.parent_role_ids visited'))
              (λ parent_perms v.
                unless_failed
                  (resolve_recursive find (suc levels) ids v)
                  (λ perms w. (ok (role_permissions role.policies ++ (parent_perms ++ perms)), w))))
  unfolding resolve_recursive
  resolve_recursive_step levels id ids visited role new found =
      rw (new, found, resolve_recursive) refl

  -- A call of the resolver that succeeds.
  resolve_recursive-Resolution :
      (levels : ℕ) (ids visited : List Uuid) {perms : List Permission} {after : List Uuid}
      → resolve_recursive find levels ids visited ≡ (ok perms, after)
      → Resolution find ids visited perms after
  unfolding resolve_recursive
  resolve_recursive-Resolution zero ids visited h = absurd (ground arith)
  resolve_recursive-Resolution (suc levels) [] visited h = Resolution-nil visited h
  resolve_recursive-Resolution (suc levels) (id ∷ ids) visited {perms} {after} h =
      elim (Bool-cases (is_visited visited id)) [
        | inl old ↦ absurd (ground arith)
        | inr new ↦ elim (Option-cases (find id)) [
          | inl missing ↦ absurd (ground arith)
          | inr (role, found) ↦
              let visited' = visited ++ (id ∷ []) in
              let (pp, v, parents, h') =
                unless_failed-eq-ok _ _
                  (sym (resolve_recursive_step levels id ids visited role new found) ∙ h) in
              let (rp, w, rest, h'') = unless_failed-eq-ok _ _ h' in
              let p =
                Resolution-parents (resolve_recursive find levels role.parent_role_ids visited')
                  role.parent_role_ids visited'
                  (resolve_recursive-Resolution levels role.parent_role_ids visited') parents in
              let r = resolve_recursive-Resolution (suc levels) ids v rest in
              rw (← ok_inj h'', ← after_eq h'')
                (Resolution-cons id ids visited role pp rp v w new found p r)
        ]
      ]

  -- When role resolution succeeds, it returns the direct permissions of the roles that it reached,
  -- role after role. No role is among them twice, the given roles are among them, and so is each
  -- parent of a role among them.
  pub resolve_permissions_lem :
      (ids : List Uuid) {perms : List Permission}
      → resolve_permissions find ids ≡ ok perms
      → (reached : List Uuid) × (perms ≡ permissions_of find reached)
        × AllDifferent reached
        × AllIn ids reached
        × ParentsIn find reached reached
  unfolding resolve_permissions
  resolve_permissions_lem ids {perms} h =
      let out = resolve_recursive find (suc max_inheritance_depth) ids [] in
      let done : out ≡ (ok perms, out.1) = λ i. (h i, out.1) in
      let r = resolve_recursive-Resolution (suc max_inheritance_depth) ids [] done in
      (r.reached, r.collected, subst AllDifferent r.marked (r.different tt), r.covers, r.closed)

  -- Two roles that share a parent cannot be resolved together: the resolver reports the shared parent
  -- as a circular inheritance, though it has no parents and no role is its own ancestor.
  pub resolve_permissions_shared_parent :
      (a b p : Uuid) (ra rb rp : Role)
      → a ≢ b
      → a ≢ p
      → b ≢ p
      → find a ≡ some ra
      → find b ≡ some rb
      → find p ≡ some rp
      → ra.parent_role_ids ≡ p ∷ []
      → rb.parent_role_ids ≡ p ∷ []
      → rp.parent_role_ids ≡ []
      → resolve_permissions find (a ∷ b ∷ []) ≡ err (circular_inheritance p)
  unfolding resolve_permissions
  resolve_permissions_shared_parent a b p ra rb rp ab ap' bp fa fb fp pa pb pp = ground arith
