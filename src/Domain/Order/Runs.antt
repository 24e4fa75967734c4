-- ===== src/Domain/Order/Runs.antt =====
-- What holds of an order through any sequence of events: backend/utils/FSM.go, `OrderFSM`.
use rems.Prelude.{List, ◌≡◌, ◌⊎◌, inl, inr, refl, arith}
use rems.Prelude.Int.{pos, ◌<ℤ◌}
use rems.Fsm.Types.{TransitionRecord}
use rems.Fsm.Machine.{Machine, restore}
use rems.Fsm.Machine.History.{Run}
use rems.Fsm.Machine.Conforms.{Run-keeps}
use rems.Domain.Order.{Order, OrderState, OrderEvent, pending, cancelled, order_sig, order_fsm}
use rems.Domain.Order.Graph.{
  OrderStep, confirming, sending_to_kitchen, finishing, serving, refunding, cancelling, OrderGuard,
  order_send,
}

-- What is true of order `o` once it has come from `pending` to a state.
abbrev pub IsPaid : Order → OrderState → Type 0
IsPaid o s = (s ≡ pending) ⊎ ((s ≡ cancelled) ⊎ pos 0 <ℤ o.total_amount)

OrderStep-IsPaid :
    (o o' : Order) {s t : OrderState} {e : OrderEvent}
    → o' ≡ record o { status = s }
    → OrderStep s e t
    → OrderGuard e o'
    → IsPaid o s
    → IsPaid o t
OrderStep-IsPaid o o' same confirming guard paid = inr (inr (rw same at guard))
OrderStep-IsPaid o o' same sending_to_kitchen guard paid = ground arith
OrderStep-IsPaid o o' same finishing guard paid = ground arith
OrderStep-IsPaid o o' same serving guard paid = ground arith
OrderStep-IsPaid o o' same refunding guard paid = ground arith
OrderStep-IsPaid o o' same (cancelling from) guard paid = inr (inl refl)

-- Whatever events are sent to a pending order whose status column says so, the column always says
-- the machine's state, the id and the total stay, and an order in any state but pending and
-- cancelled has a positive total.
pub Run-IsPaid :
    (o : Order) {m : Machine order_sig} {log : List (TransitionRecord order_sig)}
    → o.status ≡ pending
    → Run (restore order_fsm o pending) m log
    → (m.obj ≡ record o { status = m.current }) × IsPaid o m.current
Run-IsPaid o {m} {log} fresh run =
    Run-keeps order_fsm OrderStep (λ s envelope x. OrderGuard envelope.event x)
      (λ envelope x t. record x { status = t })
      (λ started elapsed envelope x s history seq.
        order_send started elapsed envelope x s history seq)
      (λ s x log. (x ≡ record o { status = s }) × IsPaid o s)
      (λ s t x log r step guard p. (rw p.0 refl, OrderStep-IsPaid o x p.0 step guard p.1)) pending o
      (ground arith) run
