-- ===== src/Domain/Order.antt =====
-- The order machine: backend/utils/FSM.go, `OrderState` to `OrderFSM`.
pub mod Graph
pub mod Runs
use rems.Prelude.{
  ℕ, String, ◌≡◌, Option, none, some, Bool, true, false, not, ◌&&◌, [], ◌∷◌, if◌then◌else◌, ◌▷◌, Eq,
  coded_eq, arith, str_eq, string_eq,
}
use rems.Prelude.Int.{ℤ, pos, leb_ℤ}
use rems.Fsm.Types.{
  Signature, HookError, new_error, errorf, Time, GuardFunc, EffectFunc, key_eq, metadata_true,
}
use rems.Fsm.Options.{guard, effect, terminal, initial, state_desc, describe}
use rems.Fsm.Builder.{
  DefinitionBuilder, FsmDefinition, define, state, transition, global_effect, assemble,
}

-- `unlisted` stands for any text that no constant names: a status read from the database may be one.
pub data OrderState : Type 0 where
  pending confirmed preparing ready served cancelled refunded : OrderState
  unlisted : String → OrderState

pub data OrderEvent : Type 0 where
  confirm prepare ready serve cancel refund : OrderEvent

state_code : OrderState → ℕ × String
state_code pending = (0, "")
state_code confirmed = (1, "")
state_code preparing = (2, "")
state_code OrderState.ready = (3, "")
state_code served = (4, "")
state_code cancelled = (5, "")
state_code refunded = (6, "")
state_code (unlisted s) = (7, s)

state_code-injective : (a b : OrderState) → state_code a ≡ state_code b → a ≡ b
unfolding state_code
state_code-injective a b h = ground arith

event_code : OrderEvent → ℕ × String
event_code confirm = (0, "")
event_code prepare = (1, "")
event_code OrderEvent.ready = (2, "")
event_code serve = (3, "")
event_code cancel = (4, "")
event_code refund = (5, "")

event_code-injective : (a b : OrderEvent) → event_code a ≡ event_code b → a ≡ b
unfolding event_code
event_code-injective a b h = ground arith

unfoldable pub order_state_eq : Eq OrderState
unfolding coded_eq state_code state_code-injective
order_state_eq = coded_eq state_code state_code-injective

unfoldable pub order_event_eq : Eq OrderEvent
unfolding coded_eq event_code event_code-injective
order_event_eq = coded_eq event_code event_code-injective

-- What an `OrderContext` holds: its total is a decimal(12,2) column, kept in cents.
pub record Order : Type 0 where
  pub order_id : String
  pub total_amount : ℤ
  pub status : OrderState

abbrev pub order_sig : Signature
order_sig = record {
  Obj = Order;
  State = OrderState;
  Event = OrderEvent;
  Payload = Unit;
  state_eq = order_state_eq;
  event_eq = order_event_eq;
}

unfoldable pub positive_total : GuardFunc order_sig
positive_total o e =
    if leb_ℤ o.total_amount (pos 0)
    then (some (new_error "cannot confirm order with zero or negative total"), o)
    else (none, o)

unfoldable pub set_status : OrderState → EffectFunc order_sig
set_status s o e = (none, record o { status = s })

unfoldable pub order_builder : DefinitionBuilder order_sig
unfolding define state transition global_effect guard effect terminal initial state_desc describe
order_builder =
    define
    ▷ state pending (initial ∷ state_desc "Order created, awaiting confirmation" ∷ [])
    ▷ state confirmed (state_desc "Order confirmed, awaiting kitchen" ∷ [])
    ▷ state preparing (state_desc "Kitchen is preparing the order" ∷ [])
    ▷ state OrderState.ready (state_desc "Order ready for service" ∷ [])
    ▷ state served (state_desc "Order delivered to customer" ∷ [])
    ▷ state cancelled (terminal ∷ state_desc "Order cancelled" ∷ [])
    ▷ state refunded (terminal ∷ state_desc "Order refunded" ∷ [])
    ▷ transition pending confirm confirmed
        (guard positive_total ∷ effect (set_status confirmed) ∷ describe "Payment validated" ∷ [])
    ▷ transition confirmed prepare preparing
        (effect (set_status preparing) ∷ describe "KOT sent to kitchen" ∷ [])
    ▷ transition preparing OrderEvent.ready OrderState.ready
        (effect (set_status OrderState.ready) ∷ describe "Kitchen marks complete" ∷ [])
    ▷ transition OrderState.ready serve served
        (effect (set_status served) ∷ describe "Waiter delivers to table" ∷ [])
    ▷ transition served refund refunded
        (effect (set_status refunded) ∷ describe "Payment reversed" ∷ [])
    ▷ transition pending cancel cancelled (effect (set_status cancelled) ∷ [])
    ▷ transition confirmed cancel cancelled (effect (set_status cancelled) ∷ [])
    ▷ transition preparing cancel cancelled
        (effect (set_status cancelled) ∷ describe "Requires manager approval" ∷ [])
    ▷ transition OrderState.ready cancel cancelled (effect (set_status cancelled) ∷ [])
    ▷ global_effect (λ o e. (none, o))

-- `OrderFSM`, the definition that `MustCompile` returns.
unfoldable pub order_fsm : FsmDefinition order_sig
unfolding order_builder assemble order_state_eq order_event_eq key_eq
order_fsm = assemble order_builder
