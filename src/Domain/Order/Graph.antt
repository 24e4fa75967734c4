-- ===== src/Domain/Order/Graph.antt =====
-- The order machine against its diagram, and what one `Send` does to it:
-- backend/utils/FSM.go, `OrderFSM`.
use rems.Prelude.{ℕ, List, ◌≡◌, refl, ◌↔◌, some, arith}
use rems.Prelude.Int.{pos, ◌<ℤ◌}
use rems.Fsm.Types.{Time, EventEnvelope, TransitionRecord}
use rems.Fsm.Builder.{must_compile, target}
use rems.Fsm.Machine.{send}
use rems.Fsm.Machine.Conforms.{Conforms, Edge, Conforms-Step, resting}
use rems.Domain.Order.{
  Order, OrderEvent, OrderState, cancel, cancelled, confirm, confirmed, order_builder, order_fsm,
  order_sig, pending, positive_total, prepare, preparing, refund, refunded, serve, served,
  set_status,
}

pub data IsCancellable : OrderState → Type 0 where
  pending_order : IsCancellable pending
  confirmed_order : IsCancellable confirmed
  preparing_order : IsCancellable preparing
  ready_order : IsCancellable OrderState.ready

-- The diagram: the transitions that the definition lists, as a relation.
pub data OrderStep : OrderState → OrderEvent → OrderState → Type 0 where
  confirming : OrderStep pending confirm confirmed
  sending_to_kitchen : OrderStep confirmed prepare preparing
  finishing : OrderStep preparing OrderEvent.ready OrderState.ready
  serving : OrderStep OrderState.ready serve served
  refunding : OrderStep served refund refunded
  cancelling : {s : OrderState} → IsCancellable s → OrderStep s cancel cancelled

ruleset edges = (
  confirming, sending_to_kitchen, finishing, serving, refunding, cancelling, pending_order,
  confirmed_order, preparing_order, ready_order,
)

target-OrderStep :
    (s : OrderState) (e : OrderEvent) (t : OrderState)
    → target order_fsm s e ≡ some t
    → OrderStep s e t
unfolding order_fsm
target-OrderStep s e t h = grind (arith, edges)

OrderStep-target :
    {s : OrderState} {e : OrderEvent} {t : OrderState}
    → OrderStep s e t
    → target order_fsm s e ≡ some t
unfolding order_fsm
OrderStep-target confirming = refl
OrderStep-target sending_to_kitchen = refl
OrderStep-target finishing = refl
OrderStep-target serving = refl
OrderStep-target refunding = refl
OrderStep-target (cancelling pending_order) = refl
OrderStep-target (cancelling confirmed_order) = refl
OrderStep-target (cancelling preparing_order) = refl
OrderStep-target (cancelling ready_order) = refl

order_compiles : must_compile order_builder ≡ some order_fsm
unfolding must_compile order_fsm
order_compiles = refl

-- `OrderFSM` compiles without a panic, and its transitions are exactly those of the diagram.
pub order_graph :
    (must_compile order_builder ≡ some order_fsm)
    × ((s : OrderState) (e : OrderEvent) (t : OrderState)
        → (target order_fsm s e ≡ some t) ↔ OrderStep s e t)
order_graph = (order_compiles, λ s e t. (target-OrderStep s e t, OrderStep-target))

-- What the guards ask for.
abbrev pub OrderGuard : OrderEvent → Order → Type 0
OrderGuard confirm o = pos 0 <ℤ o.total_amount
OrderGuard _ o = Unit

send-Edge :
    (started : Time) (elapsed : ℕ) (envelope : EventEnvelope order_sig) (o : Order)
    (st : OrderState) (history : List (TransitionRecord order_sig)) (seq : ℕ)
    → Conforms
        (Edge order_fsm)
        (OrderGuard envelope.event o)
        (λ t. record o { status = t })
        (resting order_fsm o st history seq)
        envelope.event
        (send started elapsed envelope (resting order_fsm o st history seq))
unfolding send order_fsm positive_total set_status
send-Edge started elapsed envelope o pending history seq = ground arith
send-Edge started elapsed envelope o _ history seq = ground arith

-- Sending any event to an order that is not in flight, in any state, takes the step of the diagram
-- and updates the object for it, and changes nothing else of it; or, where the diagram has no such
-- step or an order to be confirmed has no positive total, it changes nothing.
pub order_send :
    (started : Time) (elapsed : ℕ) (envelope : EventEnvelope order_sig) (o : Order)
    (st : OrderState) (history : List (TransitionRecord order_sig)) (seq : ℕ)
    → Conforms OrderStep
        (OrderGuard envelope.event o)
        (λ t. record o { status = t })
        (resting order_fsm o st history seq)
        envelope.event
        (send started elapsed envelope (resting order_fsm o st history seq))
order_send started elapsed envelope o st history seq =
    Conforms-Step _ order_fsm (order_graph).1 _ _ _ _
      (send-Edge started elapsed envelope o st history seq)
