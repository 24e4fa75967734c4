-- ===== src/Domain/PurchaseOrder/Graph.antt =====
-- The purchase order machine against its diagram, and what one `Send` does to it:
-- backend/utils/FSM.go, `PurchaseOrderFSM`.
use rems.Prelude.{ℕ, List, ◌≡◌, refl, ◌↔◌, some, arith}
use rems.Prelude.Int.{pos, ◌<ℤ◌}
use rems.Fsm.Types.{Time, EventEnvelope, TransitionRecord}
use rems.Fsm.Builder.{must_compile, target}
use rems.Fsm.Machine.{send}
use rems.Fsm.Machine.Conforms.{Conforms, Edge, Conforms-Step, resting}
use rems.Domain.PurchaseOrder.{
  PurchaseOrder, PurchaseOrderEvent, PurchaseOrderState, approve, approved, cancel, cancelled,
  draft, nonzero_total, partially_received, purchase_order_builder, purchase_order_fsm,
  purchase_order_sig, receive_full, receive_partial, received, set_status, submit, submitted,
}

-- The diagram: the transitions that the definition lists, as a relation.
pub data PurchaseOrderStep
    : PurchaseOrderState → PurchaseOrderEvent → PurchaseOrderState → Type 0 where
  submitting : PurchaseOrderStep draft submit submitted
  approving : PurchaseOrderStep submitted approve approved
  receiving_part : PurchaseOrderStep approved receive_partial partially_received
  receiving_rest : PurchaseOrderStep partially_received receive_full received
  receiving_all : PurchaseOrderStep approved receive_full received
  cancelling_draft : PurchaseOrderStep draft cancel cancelled
  cancelling_submitted : PurchaseOrderStep submitted cancel cancelled

ruleset edges = (
  submitting, approving, receiving_part, receiving_rest, receiving_all, cancelling_draft,
  cancelling_submitted,
)

target-PurchaseOrderStep :
    (s : PurchaseOrderState) (e : PurchaseOrderEvent) (t : PurchaseOrderState)
    → target purchase_order_fsm s e ≡ some t
    → PurchaseOrderStep s e t
unfolding purchase_order_fsm
target-PurchaseOrderStep s e t h = grind (arith, edges)

PurchaseOrderStep-target :
    {s : PurchaseOrderState} {e : PurchaseOrderEvent} {t : PurchaseOrderState}
    → PurchaseOrderStep s e t
    → target purchase_order_fsm s e ≡ some t
unfolding purchase_order_fsm
PurchaseOrderStep-target submitting = refl
PurchaseOrderStep-target approving = refl
PurchaseOrderStep-target receiving_part = refl
PurchaseOrderStep-target receiving_rest = refl
PurchaseOrderStep-target receiving_all = refl
PurchaseOrderStep-target cancelling_draft = refl
PurchaseOrderStep-target cancelling_submitted = refl

purchase_order_compiles : must_compile purchase_order_builder ≡ some purchase_order_fsm
unfolding must_compile purchase_order_fsm
purchase_order_compiles = refl

-- `PurchaseOrderFSM` compiles without a panic, and its transitions are exactly those of the diagram.
pub purchase_order_graph :
    (must_compile purchase_order_builder ≡ some purchase_order_fsm)
    × ((s : PurchaseOrderState) (e : PurchaseOrderEvent) (t : PurchaseOrderState)
        → (target purchase_order_fsm s e ≡ some t) ↔ PurchaseOrderStep s e t)
purchase_order_graph =
    (purchase_order_compiles, λ s e t. (target-PurchaseOrderStep s e t, PurchaseOrderStep-target))

-- What the guards ask for.
abbrev pub PurchaseOrderGuard : PurchaseOrderEvent → PurchaseOrder → Type 0
PurchaseOrderGuard submit o = pos 0 <ℤ o.total_amount
PurchaseOrderGuard _ o = Unit

send-Edge :
    (started : Time) (elapsed : ℕ) (envelope : EventEnvelope purchase_order_sig) (o : PurchaseOrder)
    (st : PurchaseOrderState) (history : List (TransitionRecord purchase_order_sig)) (seq : ℕ)
    → Conforms
        (Edge purchase_order_fsm)
        (PurchaseOrderGuard envelope.event o)
        (λ t. record o { status = t })
        (resting purchase_order_fsm o st history seq)
        envelope.event
        (send started elapsed envelope (resting purchase_order_fsm o st history seq))
unfolding send purchase_order_fsm nonzero_total set_status
send-Edge started elapsed envelope o draft history seq = ground arith
send-Edge started elapsed envelope o _ history seq = ground arith

-- Sending any event to a purchase order that is not in flight, in any state, takes the step of the
-- diagram and updates the object for it, and changes nothing else of it; or, where the diagram has
-- no such step or an order to be submitted has no positive total, it changes nothing.
pub purchase_order_send :
    (started : Time) (elapsed : ℕ) (envelope : EventEnvelope purchase_order_sig) (o : PurchaseOrder)
    (st : PurchaseOrderState) (history : List (TransitionRecord purchase_order_sig)) (seq : ℕ)
    → Conforms PurchaseOrderStep
        (PurchaseOrderGuard envelope.event o)
        (λ t. record o { status = t })
        (resting purchase_order_fsm o st history seq)
        envelope.event
        (send started elapsed envelope (resting purchase_order_fsm o st history seq))
purchase_order_send started elapsed envelope o st history seq =
    Conforms-Step _ purchase_order_fsm (purchase_order_graph).1 _ _ _ _
      (send-Edge started elapsed envelope o st history seq)
