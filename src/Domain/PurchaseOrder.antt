-- ===== src/Domain/PurchaseOrder.antt =====
-- The purchase order machine: backend/utils/FSM.go, `PurchaseOrderState` to `PurchaseOrderFSM`.
pub mod Graph
use rems.Prelude.{
  ℕ, String, ◌≡◌, Option, none, some, Bool, true, false, not, ◌&&◌, [], ◌∷◌, if◌then◌else◌, ◌▷◌, Eq,
  coded_eq, arith, str_eq, string_eq,
}
use rems.Prelude.Int.{ℤ, pos, leb_ℤ}
use rems.Fsm.Types.{
  Signature, HookError, new_error, errorf, Time, GuardFunc, EffectFunc, key_eq, metadata_true,
}
use rems.Fsm.Options.{guard, effect, terminal, initial, state_desc, describe}
use rems.Fsm.Builder.{
  DefinitionBuilder, FsmDefinition, define, state, transition, global_effect, assemble,
}

-- `unlisted` stands for any text that no constant names: a status read from the database may be one.
pub data PurchaseOrderState : Type 0 where
  draft submitted approved partially_received received cancelled : PurchaseOrderState
  unlisted : String → PurchaseOrderState

pub data PurchaseOrderEvent : Type 0 where
  submit approve receive_partial receive_full cancel : PurchaseOrderEvent

state_code : PurchaseOrderState → ℕ × String
state_code draft = (0, "")
state_code submitted = (1, "")
state_code approved = (2, "")
state_code partially_received = (3, "")
state_code received = (4, "")
state_code cancelled = (5, "")
state_code (unlisted s) = (6, s)

state_code-injective : (a b : PurchaseOrderState) → state_code a ≡ state_code b → a ≡ b
unfolding state_code
state_code-injective a b h = ground arith

event_code : PurchaseOrderEvent → ℕ × String
event_code submit = (0, "")
event_code approve = (1, "")
event_code receive_partial = (2, "")
event_code receive_full = (3, "")
event_code cancel = (4, "")

event_code-injective : (a b : PurchaseOrderEvent) → event_code a ≡ event_code b → a ≡ b
unfolding event_code
event_code-injective a b h = ground arith

unfoldable pub purchase_order_state_eq : Eq PurchaseOrderState
unfolding coded_eq state_code state_code-injective
purchase_order_state_eq = coded_eq state_code state_code-injective

unfoldable pub purchase_order_event_eq : Eq PurchaseOrderEvent
unfolding coded_eq event_code event_code-injective
purchase_order_event_eq = coded_eq event_code event_code-injective

-- What a `PurchaseOrderContext` holds: its total is a decimal(12,2) column, kept in cents.
pub record PurchaseOrder : Type 0 where
  pub po_id : String
  pub total_amount : ℤ
  pub status : PurchaseOrderState

abbrev pub purchase_order_sig : Signature
purchase_order_sig = record {
  Obj = PurchaseOrder;
  State = PurchaseOrderState;
  Event = PurchaseOrderEvent;
  Payload = Unit;
  state_eq = purchase_order_state_eq;
  event_eq = purchase_order_event_eq;
}

unfoldable pub nonzero_total : GuardFunc purchase_order_sig
nonzero_total po e =
    if leb_ℤ po.total_amount (pos 0)
    then (some (new_error "cannot submit purchase order with zero total"), po)
    else (none, po)

unfoldable pub set_status : PurchaseOrderState → EffectFunc purchase_order_sig
set_status s o e = (none, record o { status = s })

unfoldable pub purchase_order_builder : DefinitionBuilder purchase_order_sig
unfolding define state transition global_effect guard effect terminal initial state_desc describe
purchase_order_builder =
    define
    ▷ state draft (initial ∷ [])
    ▷ state submitted []
    ▷ state approved []
    ▷ state partially_received []
    ▷ state received (terminal ∷ [])
    ▷ state cancelled (terminal ∷ [])
    ▷ transition draft submit submitted (guard nonzero_total ∷ effect (set_status submitted) ∷ [])
    ▷ transition submitted approve approved (effect (set_status approved) ∷ [])
    ▷ transition approved receive_partial partially_received
        (effect (set_status partially_received) ∷ [])
    ▷ transition partially_received receive_full received (effect (set_status received) ∷ [])
    ▷ transition approved receive_full received (effect (set_status received) ∷ [])
    ▷ transition draft cancel cancelled (effect (set_status cancelled) ∷ [])
    ▷ transition submitted cancel cancelled (effect (set_status cancelled) ∷ [])

-- `PurchaseOrderFSM`, the definition that `MustCompile` returns.
unfoldable pub purchase_order_fsm : FsmDefinition purchase_order_sig
unfolding purchase_order_builder assemble purchase_order_state_eq purchase_order_event_eq key_eq
purchase_order_fsm = assemble purchase_order_builder
