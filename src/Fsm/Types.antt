-- ===== src/Fsm/Types.antt =====
-- The data of the engine: backend/utils/FSM.go, from the errors to the transition definitions.
use rems.Prelude.{
  ℕ, String, ◌≡◌, ◌↔◌, Bool, true, false, ◌&&◌, Option, none, some, List, Eq, arith, str_eq,
  string_eq,
}
use rems.Prelude.Int.{ℤ}
use rems.Prelude.Dict.{Dict, lookup}

-- The type parameters `C`, `S` and `E` of the Go code (`comparable` is the test `Eq`), and the type
-- of the values that callers attach as `Payload any`.
pub record Signature : Type 1 where
  pub Obj : Type 0
  pub State : Type 0
  pub Event : Type 0
  pub Payload : Type 0
  pub state_eq : Eq State
  pub event_eq : Eq Event

-- `errors.New(message)`, and `fmt.Errorf(message, args...)` with the numbers that it would print.
pub data HookError : Type 0 where
  new_error : String → HookError
  errorf : String → List ℤ → HookError

pub data TransitionPhase : Type 0 where
  phase_guard phase_before_exit phase_before_enter : TransitionPhase
  phase_effect phase_after_exit phase_after_enter : TransitionPhase

-- The cause that a `TransitionError` wraps: `ErrGuardRejected` with the guard's error, or the error
-- of a hook or an effect.
pub data Cause : Type 0 where
  guard_rejected : HookError → Cause
  hook_failed : HookError → Cause

-- A `uuid.UUID` is stored and never inspected: its 128-bit value.
abbrev pub Uuid : Type 0
Uuid = ℕ

-- A `time.Time` is stored and never inspected by the engine: an instant as a number.
abbrev pub Time : Type 0
Time = ℕ

pub record EventEnvelope (σ : Signature) : Type 0 where
  pub id : String
  pub event : σ.Event
  pub payload : Option σ.Payload
  pub actor_id : Uuid
  pub tenant_id : Uuid
  pub occurred_at : Time
  pub metadata : Dict String String

pub record TransitionRecord (σ : Signature) : Type 0 where
  pub sequence_number : ℕ
  pub from : σ.State
  pub to : σ.State
  pub event : EventEnvelope σ
  pub occurred_at : Time
  pub duration_ms : ℤ

-- `ErrConcurrentTransition`, `ErrTerminalState`, `ErrInvalidTransition` with the state and event of
-- its message, and `TransitionError`.
pub data FsmError (σ : Signature) : Type 0 where
  concurrent_transition : FsmError σ
  terminal_state : FsmError σ
  invalid_transition : σ.State → σ.Event → FsmError σ
  transition_error : σ.State → σ.State → σ.Event → TransitionPhase → Cause → FsmError σ

-- A callback may change the object that `obj` refers to, so it returns the object with its error.
abbrev pub Callback : Type 0 → Type 0 → Type 0
Callback O A = O → A → Option HookError × O

abbrev pub GuardFunc : Signature → Type 0
GuardFunc σ = Callback σ.Obj (EventEnvelope σ)

abbrev pub EffectFunc : Signature → Type 0
EffectFunc σ = Callback σ.Obj (EventEnvelope σ)

abbrev pub HookFunc : Signature → Type 0
HookFunc σ = Callback σ.Obj (TransitionRecord σ)

abbrev pub ObserverFunc : Signature → Type 0
ObserverFunc σ = σ.Obj → TransitionRecord σ → σ.Obj

pub record StateMeta (σ : Signature) : Type 0 where
  pub name : σ.State
  pub is_terminal : Bool
  pub is_initial : Bool
  pub description : String
  pub on_entry : List (HookFunc σ)
  pub on_exit : List (HookFunc σ)

pub record TransitionDef (σ : Signature) : Type 0 where
  pub from : σ.State
  pub event : σ.Event
  pub to : σ.State
  pub guards : List (GuardFunc σ)
  pub effects : List (EffectFunc σ)
  pub before_exit : List (HookFunc σ)
  pub before_enter : List (HookFunc σ)
  pub after_exit : List (HookFunc σ)
  pub after_enter : List (HookFunc σ)
  pub description : String

pub record TransitionKey (σ : Signature) : Type 0 where
  pub from : σ.State
  pub event : σ.Event

-- The key of a transition in the index.
abbrev pub key_of : {σ : Signature} → TransitionDef σ → TransitionKey σ
key_of t = record { from = t.from; event = t.event }

module _ (σ : Signature) where
  key_beq : TransitionKey σ → TransitionKey σ → Bool
  key_beq k j = σ.state_eq.beq k.from j.from && σ.event_eq.beq k.event j.event

  key_beq_iff : (k j : TransitionKey σ) → (key_beq k j ≡ true) ↔ (k ≡ j)
  unfolding key_beq
  key_beq_iff k j =
      ground (arith, σ.state_eq.beq_iff k.from j.from, σ.event_eq.beq_iff k.event j.event)

-- `==` on keys, by which the index finds a transition.
unfoldable pub key_eq : (σ : Signature) → Eq (TransitionKey σ)
unfolding key_beq key_beq_iff
key_eq σ = record { beq = key_beq σ; beq_iff = key_beq_iff σ }

-- `v, ok := metadata[key]; ok && v == "true"`
abbrev pub metadata_true : String → Dict String String → Bool
metadata_true key metadata = elim (lookup string_eq key metadata) [
  | none ↦ false
  | some v ↦ str_eq v "true"
]
