-- ===== src/Domain/Table.antt =====
-- The table machine: backend/utils/FSM.go, `TableState` to `TableFSM`.
pub mod Graph
pub mod Runs
use rems.Prelude.{
  ℕ, String, ◌≡◌, Option, none, some, Bool, true, false, not, ◌&&◌, [], ◌∷◌, if◌then◌else◌, ◌▷◌, Eq,
  coded_eq, arith, str_eq, string_eq,
}
use rems.Prelude.Int.{ℤ}
use rems.Fsm.Types.{
  Signature, HookError, new_error, errorf, Time, GuardFunc, EffectFunc, key_eq, metadata_true,
}
use rems.Fsm.Options.{guard, effect, terminal, initial, state_desc, describe}
use rems.Fsm.Builder.{
  DefinitionBuilder, FsmDefinition, define, state, transition, global_effect, assemble,
}

-- `unlisted` stands for any text that no constant names: a status read from the database may be one.
pub data TableState : Type 0 where
  available occupied reserved cleaning out_of_service : TableState
  unlisted : String → TableState

pub data TableEvent : Type 0 where
  seat reserve arrive release clean disable : TableEvent

state_code : TableState → ℕ × String
state_code available = (0, "")
state_code occupied = (1, "")
state_code reserved = (2, "")
state_code cleaning = (3, "")
state_code out_of_service = (4, "")
state_code (unlisted s) = (5, s)

state_code-injective : (a b : TableState) → state_code a ≡ state_code b → a ≡ b
unfolding state_code
state_code-injective a b h = ground arith

event_code : TableEvent → ℕ × String
event_code seat = (0, "")
event_code reserve = (1, "")
event_code arrive = (2, "")
event_code release = (3, "")
event_code clean = (4, "")
event_code disable = (5, "")

event_code-injective : (a b : TableEvent) → event_code a ≡ event_code b → a ≡ b
unfolding event_code
event_code-injective a b h = ground arith

unfoldable pub table_state_eq : Eq TableState
unfolding coded_eq state_code state_code-injective
table_state_eq = coded_eq state_code state_code-injective

unfoldable pub table_event_eq : Eq TableEvent
unfolding coded_eq event_code event_code-injective
table_event_eq = coded_eq event_code event_code-injective

-- What a `TableContext` holds.
pub record Table : Type 0 where
  pub table_id : ℤ
  pub capacity : ℤ
  pub status : TableState

abbrev pub table_sig : Signature
table_sig = record {
  Obj = Table;
  State = TableState;
  Event = TableEvent;
  Payload = Unit;
  state_eq = table_state_eq;
  event_eq = table_event_eq;
}

unfoldable pub set_status : TableState → EffectFunc table_sig
set_status s o e = (none, record o { status = s })

unfoldable pub table_builder : DefinitionBuilder table_sig
unfolding define state transition global_effect guard effect terminal initial state_desc describe
table_builder =
    define
    ▷ state available (initial ∷ [])
    ▷ state occupied []
    ▷ state reserved []
    ▷ state cleaning []
    ▷ state out_of_service (terminal ∷ [])
    ▷ transition available seat occupied (effect (set_status occupied) ∷ [])
    ▷ transition available reserve reserved (effect (set_status reserved) ∷ [])
    ▷ transition reserved arrive occupied (effect (set_status occupied) ∷ [])
    ▷ transition occupied release cleaning (effect (set_status cleaning) ∷ [])
    ▷ transition cleaning clean available (effect (set_status available) ∷ [])
    ▷ transition available disable out_of_service (effect (set_status out_of_service) ∷ [])
    ▷ transition occupied disable out_of_service (effect (set_status out_of_service) ∷ [])
    ▷ transition reserved disable out_of_service (effect (set_status out_of_service) ∷ [])
    ▷ transition cleaning disable out_of_service (effect (set_status out_of_service) ∷ [])

-- `TableFSM`, the definition that `MustCompile` returns.
unfoldable pub table_fsm : FsmDefinition table_sig
unfolding table_builder assemble table_state_eq table_event_eq key_eq
table_fsm = assemble table_builder
