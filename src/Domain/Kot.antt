-- ===== src/Domain/Kot.antt =====
-- The kitchen-order-ticket machine: backend/utils/FSM.go, `KOTState` to `KOTFSM`.
pub mod Graph
use rems.Prelude.{
  ℕ, String, ◌≡◌, Option, none, some, Bool, true, false, not, ◌&&◌, [], ◌∷◌, if◌then◌else◌, ◌▷◌, Eq,
  coded_eq, arith, str_eq, string_eq,
}
use rems.Fsm.Types.{
  Signature, HookError, new_error, errorf, Time, GuardFunc, EffectFunc, key_eq, metadata_true,
}
use rems.Fsm.Options.{guard, effect, terminal, initial, state_desc, describe}
use rems.Fsm.Builder.{
  DefinitionBuilder, FsmDefinition, define, state, transition, global_effect, assemble,
}

-- `unlisted` stands for any text that no constant names: a status read from the database may be one.
pub data KotState : Type 0 where
  sent in_progress completed cancelled : KotState
  unlisted : String → KotState

pub data KotEvent : Type 0 where
  start complete cancel : KotEvent

state_code : KotState → ℕ × String
state_code sent = (0, "")
state_code in_progress = (1, "")
state_code completed = (2, "")
state_code cancelled = (3, "")
state_code (unlisted s) = (4, s)

state_code-injective : (a b : KotState) → state_code a ≡ state_code b → a ≡ b
unfolding state_code
state_code-injective a b h = ground arith

event_code : KotEvent → ℕ × String
event_code start = (0, "")
event_code complete = (1, "")
event_code cancel = (2, "")

event_code-injective : (a b : KotEvent) → event_code a ≡ event_code b → a ≡ b
unfolding event_code
event_code-injective a b h = ground arith

unfoldable pub kot_state_eq : Eq KotState
unfolding coded_eq state_code state_code-injective
kot_state_eq = coded_eq state_code state_code-injective

unfoldable pub kot_event_eq : Eq KotEvent
unfolding coded_eq event_code event_code-injective
kot_event_eq = coded_eq event_code event_code-injective

-- What a `KOTContext` holds.
pub record Kot : Type 0 where
  pub kot_id : String
  pub priority : String
  pub status : KotState

abbrev pub kot_sig : Signature
kot_sig = record {
  Obj = Kot;
  State = KotState;
  Event = KotEvent;
  Payload = Unit;
  state_eq = kot_state_eq;
  event_eq = kot_event_eq;
}

-- An urgent ticket needs `force_cancel=true` to be cancelled in progress.
unfoldable pub urgent_override : GuardFunc kot_sig
urgent_override k e =
    if str_eq k.priority "urgent" && not (metadata_true "force_cancel" e.metadata)
    then (
      some (new_error "urgent KOT requires force_cancel=true metadata to cancel mid-preparation"),
      k,
    )
    else (none, k)

unfoldable pub set_status : KotState → EffectFunc kot_sig
set_status s o e = (none, record o { status = s })

unfoldable pub kot_builder : DefinitionBuilder kot_sig
unfolding define state transition global_effect guard effect terminal initial state_desc describe
kot_builder =
    define
    ▷ state sent (initial ∷ [])
    ▷ state in_progress []
    ▷ state completed (terminal ∷ [])
    ▷ state cancelled (terminal ∷ [])
    ▷ transition sent start in_progress (effect (set_status in_progress) ∷ [])
    ▷ transition in_progress complete completed (effect (set_status completed) ∷ [])
    ▷ transition sent cancel cancelled (effect (set_status cancelled) ∷ [])
    ▷ transition in_progress cancel cancelled
        (guard urgent_override ∷ effect (set_status cancelled) ∷ [])

-- `KOTFSM`, the definition that `MustCompile` returns.
unfoldable pub kot_fsm : FsmDefinition kot_sig
unfolding kot_builder assemble kot_state_eq kot_event_eq key_eq
kot_fsm = assemble kot_builder
