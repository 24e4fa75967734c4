-- ===== src/Fsm/Machine.antt =====
-- A machine over one domain object: backend/utils/FSM.go, `New`, `Restore`, `Machine` and the
-- transition pipeline of `Send`. A method that writes through `*Machine` returns the new machine.
-- The clock is an argument: `started` is `time.Now()` at the entry of `Send`, and `elapsed` the
-- milliseconds that `time.Since(started)` gives at the commit.
-- `ctx` is passed on unread to every callback, so a callback here is one applied to it. The fields
-- of a machine are private to the package: a callback that keeps the machine can only call its
-- methods, and while it runs `in_flight` is set.
pub mod Steps
pub mod Send
pub mod History
pub mod Conforms
use rems.Prelude.{
  ℕ, ◌+◌, ◌-◌, ◌%◌, ◌^◌, Bool, true, false, not, ◌&&◌, Option, none, some, List, [], ◌∷◌, ◌++◌, leb,
  ◌==◌, if◌then◌else◌, length, get_last?, tail,
}
use rems.Prelude.Int.{pos}
use rems.Prelude.Dict.{lookup}
use rems.Fsm.Types.{
  Signature, HookError, TransitionPhase, phase_guard, phase_before_exit, phase_before_enter,
  phase_effect, Cause, guard_rejected, hook_failed, Time, EventEnvelope, TransitionRecord, FsmError,
  concurrent_transition, terminal_state, invalid_transition, transition_error, Callback, HookFunc,
  ObserverFunc, StateMeta, TransitionDef, key_eq,
}
use rems.Fsm.Builder.{FsmDefinition, is_terminal}

pub record Machine (σ : Signature) : Type 0 where
  pub def : FsmDefinition σ
  pub obj : σ.Obj
  pub current : σ.State
  pub history : List (TransitionRecord σ)
  pub seq : ℕ  -- uint64
  pub in_flight : Bool

abbrev pub u64 : ℕ → ℕ
u64 n = n % 2 ^ 64

module _ {σ : Signature} where
  unfoldable pub new : FsmDefinition σ → σ.Obj → σ.State → Machine σ
  new d obj initial_state = record {
    def = d;
    obj = obj;
    current = initial_state;
    history = [];
    seq = 0;
    in_flight = false;
  }

  unfoldable pub restore : FsmDefinition σ → σ.Obj → σ.State → Machine σ
  restore d obj current_state = record {
    def = d;
    obj = obj;
    current = current_state;
    history = [];
    seq = 0;
    in_flight = false;
  }

  -- `m.IsTerminal()`
  unfoldable pub at_terminal : Machine σ → Bool
  unfolding is_terminal
  at_terminal m = is_terminal m.def m.current

  unfoldable pub last_transition : Machine σ → Option (TransitionRecord σ)
  last_transition m = get_last? m.history

  -- `m.def.index[key]` for the current state and an event.
  abbrev pub transition_for : Machine σ → σ.Event → Option (TransitionDef σ)
  transition_for m event =
      lookup (key_eq σ) (record { from = m.current; event = event }) m.def.index

-- A phase of the pipeline that may abort: it stops with the phase and the cause, and keeps what the
-- callbacks have done to the object.
abbrev pub Phase : Type 0 → Type 0
Phase O = O → Option (TransitionPhase × Cause) × O

infixl 5 ◌>>◌
abbrev pub ◌>>◌ : {O : Type 0} → Phase O → Phase O → Phase O
◌>>◌ p q obj =
    let (failure, obj') = p obj in elim failure [ some f ↦ (some f, obj') | none ↦ q obj' ]

module _ {O A : Type 0} where
  -- `for _, h := range callbacks { if err := h(ctx, obj, arg); err != nil { return wrap(err) } }`
  unfoldable pub each : TransitionPhase → (HookError → Cause) → List (Callback O A) → A → Phase O
  each phase cause [] arg obj = (none, obj)
  each phase cause (h ∷ hs) arg obj =
      let (err, obj') = h obj arg in
      elim err [ some e ↦ (some (phase, cause e), obj') | none ↦ each phase cause hs arg obj' ]

  -- `for _, h := range callbacks { _ = h(ctx, obj, arg) }`
  unfoldable pub each_ignoring : List (Callback O A) → A → O → O
  each_ignoring [] arg obj = obj
  each_ignoring (h ∷ hs) arg obj = each_ignoring hs arg (h obj arg).1

  -- `for _, obs := range observers { obs(ctx, obj, arg) }`
  unfoldable pub notify : List (O → A → O) → A → O → O
  notify [] arg obj = obj
  notify (f ∷ fs) arg obj = notify fs arg (f obj arg)

  -- A loop of `Can`: it leaves at the first guard that fails.
  unfoldable pub all_pass : List (Callback O A) → A → O → Bool × O
  all_pass [] arg obj = (true, obj)
  all_pass (g ∷ gs) arg obj =
      let (err, obj') = g obj arg in
      elim err [ some e ↦ (false, obj') | none ↦ all_pass gs arg obj' ]

abbrev pub hooks_on_exit : {σ : Signature} → Option (StateMeta σ) → List (HookFunc σ)
hooks_on_exit (some meta) = meta.on_exit
hooks_on_exit none = []

abbrev pub hooks_on_entry : {σ : Signature} → Option (StateMeta σ) → List (HookFunc σ)
hooks_on_entry (some meta) = meta.on_entry
hooks_on_entry none = []

module _ {σ : Signature} where
  unfoldable pub append_history : TransitionRecord σ → Machine σ → Machine σ
  append_history r m =
      let cap = m.def.history_capacity in
      let kept =
        if not (cap == 0) && leb cap (length m.history) then tail m.history else m.history in
      record m { history = kept ++ (r ∷ []) }

  -- The record that the hooks see.
  unfoldable pub record_of :
      Machine σ → TransitionDef σ → EventEnvelope σ → Time → TransitionRecord σ
  record_of m t envelope started = record {
    sequence_number = u64 (m.seq + 1);
    from = m.current;
    to = t.to;
    event = envelope;
    occurred_at = started;
    duration_ms = pos 0;
  }

  -- Steps 3 to 9.
  unfoldable pub pre_commit :
      Machine σ → TransitionDef σ → EventEnvelope σ → TransitionRecord σ → Phase σ.Obj
  unfolding each
  pre_commit m t envelope r = do
    each phase_guard guard_rejected m.def.global_guards envelope
    each phase_guard guard_rejected t.guards envelope
    each phase_before_exit hook_failed t.before_exit r
    each phase_before_exit hook_failed (hooks_on_exit (lookup σ.state_eq m.current m.def.states)) r
    each phase_before_enter hook_failed t.before_enter r
    each phase_effect hook_failed m.def.global_effects envelope
    each phase_effect hook_failed t.effects envelope

  -- Steps 10 to 15.
  unfoldable pub commit : ℕ → TransitionDef σ → TransitionRecord σ → Machine σ → Machine σ
  unfolding each_ignoring notify append_history
  commit elapsed t r m =
      let r' = record r { duration_ms = pos elapsed } in
      let obj₁ = each_ignoring (hooks_on_entry (lookup σ.state_eq t.to m.def.states)) r' m.obj in
      let obj₂ = each_ignoring t.after_exit r' obj₁ in
      let obj₃ = each_ignoring t.after_enter r' obj₂ in
      let m' = append_history r' (record m { obj = obj₃; current = t.to; seq = u64 (m.seq + 1) }) in
      record m' { obj = notify m.def.observers r' obj₃ }

  -- `Send` from the transition lookup on, once a transition is found.
  unfoldable pub fire :
      Time → ℕ → EventEnvelope σ → TransitionDef σ → Machine σ → Option (FsmError σ) × Machine σ
  unfolding record_of pre_commit commit
  fire started elapsed envelope t m =
      let r = record_of m t envelope started in
      let (failure, obj) = pre_commit m t envelope r m.obj in
      let m' = record m { obj = obj } in
      elim failure [
        | some (phase, cause) ↦
            (some (transition_error m.current t.to envelope.event phase cause), m')
        | none ↦ (none, commit elapsed t r m')
      ]

  -- The body of `Send` between setting the flag and the deferred reset.
  unfoldable pub attempt : Time → ℕ → EventEnvelope σ → Machine σ → Option (FsmError σ) × Machine σ
  unfolding at_terminal fire
  attempt started elapsed envelope m =
      if at_terminal m then (some terminal_state, m) else elim (transition_for m envelope.event) [
        | none ↦ (some (invalid_transition m.current envelope.event), m)
        | some t ↦ fire started elapsed envelope t m
      ]

  unfoldable pub send : Time → ℕ → EventEnvelope σ → Machine σ → Option (FsmError σ) × Machine σ
  unfolding attempt
  send started elapsed envelope m =
      if m.in_flight
      then (some concurrent_transition, m)
      else (let (err, m') = attempt started elapsed envelope (record m { in_flight = true }) in
          (err, record m' { in_flight = false }))

  -- `Can`, with the object as the guards leave it.
  unfoldable pub can : σ.Event → EventEnvelope σ → Machine σ → Bool × Machine σ
  unfolding at_terminal all_pass
  can event envelope m = if at_terminal m then (false, m) else elim (transition_for m event) [
    | none ↦ (false, m)
    | some t ↦
        (let (passed, obj) = all_pass m.def.global_guards envelope m.obj in
          let (passed', obj') = all_pass t.guards envelope obj in
          elim passed [
            | false ↦ (false, record m { obj = obj })
            | true ↦ (passed', record m { obj = obj' })
          ])
  ]
