-- ===== src/Fsm/Machine/Send.antt =====
-- `Send` of backend/utils/FSM.go on every branch, and its agreement with `Can`.
use rems.Prelude.{
  ℕ, ◌+◌, ◌≡◌, refl, ◌≢◌, ◌↔◌, ◌⊎◌, inl, inr, true, false, Option, none, some, List, [], ◌∷◌, arith,
  Option-cases, ◌&&◌,
}
use rems.Prelude.Int.{pos}
use rems.Prelude.Dict.{lookup}
use rems.Fsm.Types.{
  Signature, HookError, TransitionPhase, phase_guard, Cause, guard_rejected, Time, EventEnvelope,
  TransitionRecord, FsmError, concurrent_transition, terminal_state, invalid_transition,
  transition_error, Callback, TransitionDef, phase_before_exit, phase_before_enter, phase_effect,
  hook_failed,
}
use rems.Fsm.Machine.{
  Machine, u64, at_terminal, transition_for, Phase, each, all_pass, append_history, record_of,
  pre_commit, send, can, ◌>>◌, hooks_on_exit,
}
use rems.Fsm.Machine.Steps.{Step, AllPass, steps_of, each-AllPass, seq-AllPass}

module _ {σ : Signature} (started : Time) (elapsed : ℕ) (envelope : EventEnvelope σ)
    (m : Machine σ) where
  -- The transition that the pipeline records on success.
  abbrev pub completed : TransitionDef σ → TransitionRecord σ
  completed t = record {
    sequence_number = u64 (m.seq + 1);
    from = m.current;
    to = t.to;
    event = envelope;
    occurred_at = started;
    duration_ms = pos elapsed;
  }

  -- The steps before the commit, in order: all guards, the exit hooks, and the effects.
  abbrev pub steps_before : TransitionDef σ → List (Step σ.Obj)
  steps_before t =
      let r = record (completed t) { duration_ms = pos 0 } in
      let exit_hooks = hooks_on_exit (lookup σ.state_eq m.current m.def.states) in
      steps_of m.def.global_guards envelope (
        steps_of t.guards envelope (
          steps_of t.before_exit r (
            steps_of exit_hooks r (
              steps_of t.before_enter r
                (steps_of m.def.global_effects envelope (steps_of t.effects envelope []))))))

  pre_commit-AllPass :
      (t : TransitionDef σ)
      → ((pre_commit m t envelope (record_of m t envelope started) m.obj).0 ≡ none)
        ↔ AllPass (steps_before t) m.obj
  unfolding pre_commit record_of
  pre_commit-AllPass t =
      let r = record (completed t) { duration_ms = pos 0 } in
      let exit_hooks = hooks_on_exit (lookup σ.state_eq m.current m.def.states) in
      let q₇ : Phase σ.Obj = each phase_effect hook_failed t.effects envelope in
      let q₆ : Phase σ.Obj = each phase_effect hook_failed m.def.global_effects envelope >> q₇ in
      let q₅ : Phase σ.Obj = each phase_before_enter hook_failed t.before_enter r >> q₆ in
      let q₄ : Phase σ.Obj = each phase_before_exit hook_failed exit_hooks r >> q₅ in
      let q₃ : Phase σ.Obj = each phase_before_exit hook_failed t.before_exit r >> q₄ in
      let q₂ : Phase σ.Obj = each phase_guard guard_rejected t.guards envelope >> q₃ in
      let s₇ = steps_of t.effects envelope [] in
      let s₆ = steps_of m.def.global_effects envelope s₇ in
      let s₅ = steps_of t.before_enter r s₆ in
      let s₄ = steps_of exit_hooks r s₅ in
      let s₃ = steps_of t.before_exit r s₄ in
      let s₂ = steps_of t.guards envelope s₃ in
      seq-AllPass phase_guard guard_rejected envelope m.def.global_guards q₂ s₂ m.obj (λ o₁.
        seq-AllPass phase_guard guard_rejected envelope t.guards q₃ s₃ o₁ (λ o₂.
          seq-AllPass phase_before_exit hook_failed r t.before_exit q₄ s₄ o₂ (λ o₃.
            seq-AllPass phase_before_exit hook_failed r exit_hooks q₅ s₅ o₃ (λ o₄.
              seq-AllPass phase_before_enter hook_failed r t.before_enter q₆ s₆ o₄ (λ o₅.
                seq-AllPass phase_effect hook_failed envelope m.def.global_effects q₇ s₇ o₅
                  (each-AllPass phase_effect hook_failed envelope t.effects))))))

  -- `Send` that returns an error has changed nothing of the machine but, through the callbacks that
  -- ran before the failure, the domain object: the current state, the sequence number, the history,
  -- the definition and the flag are as before. So no transition happens by halves.
  pub send_error_keeps :
      {e : FsmError σ}
      → (send started elapsed envelope m).0 ≡ some e
      → (send started elapsed envelope m).1
        ≡ record m { obj = (send started elapsed envelope m).1.obj }
  unfolding send
  send_error_keeps h = ground arith

  passes : ((send started elapsed envelope m).0 ≡ none) ↔ (
      (m.in_flight ≡ false)
      × (at_terminal m ≡ false)
      × ((t : TransitionDef σ) × (transition_for m envelope.event ≡ some t)
          × ((pre_commit m t envelope (record_of m t envelope started) m.obj).0 ≡ none)))
  unfolding send
  passes = elim (Option-cases (transition_for m envelope.event)) [
    | inl missing ↦
        ((λ h. absurd (ground arith)), (λ (idle, live, (t, found, passed)). cc (missing, found)))
    | inr (t, found) ↦ (
      (λ h. (ground arith, ground arith, (t, found, ground arith))),
      (λ (idle, live, (t', found', passed)).
          let same : t' ≡ t = cc (found, found') in ground (arith, same, passed)),
    )
  ]

  -- `Send` succeeds exactly when the machine is not in flight, its state is not terminal, a
  -- transition is registered for the state and the event, and, run in this order, each on the object
  -- that the last one left, no global guard, guard, hook of leaving and entering, global effect or
  -- effect of it fails.
  pub send-eq-none : ((send started elapsed envelope m).0 ≡ none) ↔ (
      (m.in_flight ≡ false)
      × (at_terminal m ≡ false)
      × ((t : TransitionDef σ) × (transition_for m envelope.event ≡ some t)
          × AllPass (steps_before t) m.obj))
  send-eq-none = (
    (λ h.
        let (idle, live, (t, found, passed)) = passes.0 h in
        (idle, live, (t, found, (pre_commit-AllPass t).0 passed))),
    (λ (idle, live, (t, found, passed)).
        passes.1 (idle, live, (t, found, (pre_commit-AllPass t).1 passed))),
  )

  -- A successful `Send` moves to the target of the transition registered for the state and the
  -- event, raises the sequence number by one (modulo 2^64), appends the record of the move to the
  -- history, and leaves the machine out of flight under the same definition.
  pub send_ok_moves :
      (send started elapsed envelope m).0 ≡ none
      → (t : TransitionDef σ) × (transition_for m envelope.event ≡ some t)
        × ((send started elapsed envelope m).1.current ≡ t.to)
        × ((send started elapsed envelope m).1.seq ≡ u64 (m.seq + 1))
        × ((send started elapsed envelope m).1.history ≡ (append_history (completed t) m).history)
        × ((send started elapsed envelope m).1.in_flight ≡ false)
        × ((send started elapsed envelope m).1.def ≡ m.def)
  unfolding send
  send_ok_moves h = elim (Option-cases (transition_for m envelope.event)) [
    | inl missing ↦ absurd (ground arith)
    | inr (t, found) ↦
        (t, found, ground arith, ground arith, ground arith, ground arith, ground arith)
  ]

-- The outcomes of `Send` that come after the guards: success, or an abort in a later phase.
abbrev pub PastGuards : {σ : Signature} → Option (FsmError σ) → Type 0
PastGuards none = Unit
PastGuards (some (transition_error s t e phase cause)) = phase ≢ phase_guard
PastGuards (some concurrent_transition) = ⊥
PastGuards (some terminal_state) = ⊥
PastGuards (some (invalid_transition s e)) = ⊥

module _ {O A : Type 0} (phase : TransitionPhase) (cause : HookError → Cause) where
  -- The guard loops of `Send` and of `Can` run the same callbacks over the same objects.
  each-all_pass :
      (gs : List (Callback O A)) (a : A) (o : O)
      → ((all_pass gs a o).0 ≡ true) × (each phase cause gs a o ≡ (none, (all_pass gs a o).1))
        ⊎ ((all_pass gs a o).0 ≡ false)
          × ((c : Cause) × (each phase cause gs a o ≡ (some (phase, c), (all_pass gs a o).1)))
  unfolding each all_pass
  each-all_pass [] a o = inl (refl, refl)
  each-all_pass (g ∷ gs) a o = elim (Option-cases (g o a).0) [
    | inl passed ↦ rw (passed, all_pass, each) (each-all_pass gs a (g o a).1)
    | inr (e, failed) ↦ rw (failed, all_pass, each) (inr (refl, (cause e, refl)))
  ]

-- A phase that, if it fails, does not fail as a guard.
abbrev AfterGuards : Option (TransitionPhase × Cause) → Type 0
AfterGuards none = Unit
AfterGuards (some (phase, cause)) = phase ≢ phase_guard

module _ {O : Type 0} where
  each-AfterGuards :
      {A : Type 0} (phase : TransitionPhase) (cause : HookError → Cause)
      → phase ≢ phase_guard
      → (hs : List (Callback O A)) (a : A) (o : O) → AfterGuards (each phase cause hs a o).0
  unfolding each
  each-AfterGuards phase cause ne [] a o = tt
  each-AfterGuards phase cause ne (h ∷ hs) a o =
      ground (arith, each-AfterGuards phase cause ne hs a (h o a).1)

module _ {σ : Signature} (m : Machine σ) (t : TransitionDef σ) (envelope : EventEnvelope σ) where
  -- Steps 5 to 9.
  abbrev after_guards : TransitionRecord σ → Phase σ.Obj
  after_guards r = do
    each phase_before_exit hook_failed t.before_exit r
    each phase_before_exit hook_failed (hooks_on_exit (lookup σ.state_eq m.current m.def.states)) r
    each phase_before_enter hook_failed t.before_enter r
    each phase_effect hook_failed m.def.global_effects envelope
    each phase_effect hook_failed t.effects envelope

  after_guards-AfterGuards : (r : TransitionRecord σ) (o : σ.Obj) → AfterGuards (after_guards r o).0
  after_guards-AfterGuards r o =
      let exit_hooks = hooks_on_exit (lookup σ.state_eq m.current m.def.states) in
      let o₁ = (each phase_before_exit hook_failed t.before_exit r o).1 in
      let o₂ = (each phase_before_exit hook_failed exit_hooks r o₁).1 in
      let o₃ = (each phase_before_enter hook_failed t.before_enter r o₂).1 in
      let o₄ = (each phase_effect hook_failed m.def.global_effects envelope o₃).1 in
      ground (
        arith,
        each-AfterGuards phase_before_exit hook_failed (λ e. cc) t.before_exit r o,
        each-AfterGuards phase_before_exit hook_failed (λ e. cc) exit_hooks r o₁,
        each-AfterGuards phase_before_enter hook_failed (λ e. cc) t.before_enter r o₂,
        each-AfterGuards phase_effect hook_failed (λ e. cc) m.def.global_effects envelope o₃,
        each-AfterGuards phase_effect hook_failed (λ e. cc) t.effects envelope o₄,
      )

  -- `Can` answers true exactly when the guards let the pipeline through.
  guards_agree :
      (r : TransitionRecord σ)
      → let (passed, obj) = all_pass m.def.global_guards envelope m.obj in
        ((passed && (all_pass t.guards envelope obj).0) ≡ true)
        ↔ AfterGuards (pre_commit m t envelope r m.obj).0
  unfolding pre_commit
  guards_agree r =
      let obj₁ = (all_pass m.def.global_guards envelope m.obj).1 in
      let obj₂ = (all_pass t.guards envelope obj₁).1 in
      ground (
        arith,
        each-all_pass phase_guard guard_rejected m.def.global_guards envelope m.obj,
        each-all_pass phase_guard guard_rejected t.guards envelope obj₁,
        after_guards-AfterGuards r obj₂,
      )

module _ {σ : Signature} (started : Time) (elapsed : ℕ) (envelope : EventEnvelope σ)
    (m : Machine σ) where
  -- On a machine that is not in flight, `Can` answers true for the event of an envelope exactly when
  -- `Send` of that envelope gets past the terminal check, the lookup and all guards: it then
  -- succeeds, or is aborted by a hook or an effect.
  pub can-PastGuards :
      m.in_flight ≡ false
      → ((can envelope.event envelope m).0 ≡ true) ↔ PastGuards (send started elapsed envelope m).0
  unfolding can send
  can-PastGuards idle = elim (Option-cases (transition_for m envelope.event)) [
    | inl missing ↦ ground arith
    | inr (t, found) ↦ ground (arith, guards_agree m t envelope (record_of m t envelope started))
  ]
