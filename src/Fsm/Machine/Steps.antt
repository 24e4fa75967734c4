-- ===== src/Fsm/Machine/Steps.antt =====
-- The phases of `Send` before the commit as one sequence of callbacks: backend/utils/FSM.go.
use rems.Prelude.{
  ◌≡◌, refl, sym, ap, ◌∙◌, ◌↔◌, inl, inr, Option, none, some, List, [], ◌∷◌, Option-cases,
}
use rems.Fsm.Types.{HookError, TransitionPhase, Cause, Callback}
use rems.Fsm.Machine.{Phase, each, ◌>>◌}

-- A step of the pipeline: a callback with its argument.
abbrev pub Step : Type 0 → Type 0
Step O = O → Option HookError × O

-- Run one after the other, each on what the last one left, none of the steps fails.
abbrev pub AllPass : {O : Type 0} → List (Step O) → O → Type 0
AllPass [] o = Unit
AllPass (step ∷ steps) o = ((step o).0 ≡ none) × AllPass steps (step o).1

abbrev pub steps_of : {O A : Type 0} → List (Callback O A) → A → List (Step O) → List (Step O)
steps_of [] a rest = rest
steps_of (h ∷ hs) a rest = (λ o. h o a) ∷ steps_of hs a rest

-- A phase on what the last one left.
abbrev and_then :
    {O : Type 0}
    → Option (TransitionPhase × Cause) × O
    → Phase O
    → Option (TransitionPhase × Cause) × O
and_then out q = elim (out.0) [ some f ↦ (some f, out.1) | none ↦ q out.1 ]

module _ {O A : Type 0} (phase : TransitionPhase) (cause : HookError → Cause) (a : A) where
  pub each-AllPass :
      (hs : List (Callback O A)) (o : O)
      → ((each phase cause hs a o).0 ≡ none) ↔ AllPass (steps_of hs a []) o
  unfolding each
  each-AllPass [] o = (λ h. tt, λ h. refl)
  each-AllPass (h ∷ hs) o = elim (Option-cases (h o a).0) [
    | inl passed ↦
        let (there, back) = each-AllPass hs (h o a).1 in
        rw (passed, each) ((λ e. (refl, there e)), (λ e. back e.1))
    | inr (e, failed) ↦ rw (failed, each) ((λ h. absurd (cc h)), (λ h. absurd (cc (h.0))))
  ]

  pub seq-AllPass :
      (hs : List (Callback O A)) (q : Phase O) (rest : List (Step O)) (o : O)
      → ((o' : O) → ((q o').0 ≡ none) ↔ AllPass rest o')
      → (((each phase cause hs a >> q) o).0 ≡ none) ↔ AllPass (steps_of hs a rest) o
  unfolding each
  seq-AllPass [] q rest o next = next o
  seq-AllPass (h ∷ hs) q rest o next = elim (Option-cases (h o a).0) [
    | inl passed ↦
        let on : each phase cause (h ∷ hs) a o ≡ each phase cause hs a (h o a).1 =
          rw (passed, each) refl in
        let same = ap (λ out. (and_then out q).0) on in
        let (there, back) = seq-AllPass hs q rest (h o a).1 next in
        ((λ e. (passed, there (sym same ∙ e))), (λ (p, e). same ∙ back e))
    | inr (e, failed) ↦
        let stop : each phase cause (h ∷ hs) a o ≡ (some (phase, cause e), (h o a).1) =
          rw (failed, each) refl in
        let same = ap (λ out. (and_then out q).0) stop in
        ((λ k. absurd (cc k)), (λ (p, k). absurd (cc (failed, p))))
  ]
