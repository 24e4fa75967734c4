-- ===== src/Domain/Payment/Graph.antt =====
-- The payment machine against its diagram, and what one `Send` does to it:
-- backend/utils/FSM.go, `PaymentFSM`.
use rems.Prelude.{ℕ, String, List, ◌≡◌, refl, ◌↔◌, true, none, some, arith, string_eq}
use rems.Prelude.Dict.{Dict, lookup}
use rems.Fsm.Types.{Time, EventEnvelope, TransitionRecord, metadata_true}
use rems.Fsm.Builder.{must_compile, target}
use rems.Fsm.Machine.{send}
use rems.Fsm.Machine.Conforms.{Conforms, Edge, Conforms-Step, resting}
use rems.Domain.Payment.{
  Payment, PaymentEvent, PaymentState, awaiting_confirm, confirmed, expire, expire_qr, fail,
  fail_with_reason, failed, manager_approved, payment_builder, payment_fsm, payment_sig, pending_qr,
  qr_scanned, received, refund, refunded, set_status,
}

-- The diagram: the transitions that the definition lists, as a relation.
pub data PaymentStep : PaymentState → PaymentEvent → PaymentState → Type 0 where
  scanning : PaymentStep pending_qr qr_scanned awaiting_confirm
  verifying : PaymentStep awaiting_confirm received confirmed
  rejecting : PaymentStep awaiting_confirm fail failed
  expiring : PaymentStep pending_qr expire failed
  failing : PaymentStep pending_qr fail failed
  refunding : PaymentStep confirmed refund refunded

ruleset edges = (scanning, verifying, rejecting, expiring, failing, refunding)

target-PaymentStep :
    (s : PaymentState) (e : PaymentEvent) (t : PaymentState)
    → target payment_fsm s e ≡ some t
    → PaymentStep s e t
unfolding payment_fsm
target-PaymentStep s e t h = grind (arith, edges)

PaymentStep-target :
    {s : PaymentState} {e : PaymentEvent} {t : PaymentState}
    → PaymentStep s e t
    → target payment_fsm s e ≡ some t
unfolding payment_fsm
PaymentStep-target scanning = refl
PaymentStep-target verifying = refl
PaymentStep-target rejecting = refl
PaymentStep-target expiring = refl
PaymentStep-target failing = refl
PaymentStep-target refunding = refl

payment_compiles : must_compile payment_builder ≡ some payment_fsm
unfolding must_compile payment_fsm
payment_compiles = refl

-- `PaymentFSM` compiles without a panic, and its transitions are exactly those of the diagram.
pub payment_graph :
    (must_compile payment_builder ≡ some payment_fsm)
    × ((s : PaymentState) (e : PaymentEvent) (t : PaymentState)
        → (target payment_fsm s e ≡ some t) ↔ PaymentStep s e t)
payment_graph = (payment_compiles, λ s e t. (target-PaymentStep s e t, PaymentStep-target))

-- What the guards ask for.
abbrev pub PaymentGuard : PaymentEvent → Dict String String → Type 0
PaymentGuard refund metadata = metadata_true "manager_approved" metadata ≡ true
PaymentGuard _ metadata = Unit

-- The failure reason after an event: that of the metadata, where a failure gives one.
abbrev pub reason_after : PaymentEvent → Dict String String → Payment → String
reason_after fail metadata p = elim (lookup string_eq "failure_reason" metadata) [
  | some reason ↦ reason
  | none ↦ p.failure_reason
]
reason_after expire metadata p = "QR code expired"
reason_after _ metadata p = p.failure_reason

send-Edge :
    (started : Time) (elapsed : ℕ) (envelope : EventEnvelope payment_sig) (p : Payment)
    (st : PaymentState) (history : List (TransitionRecord payment_sig)) (seq : ℕ)
    → Conforms
        (Edge payment_fsm)
        (PaymentGuard envelope.event envelope.metadata)
        (λ t. record p {
          status = t;
          failure_reason = reason_after envelope.event envelope.metadata p;
        })
        (resting payment_fsm p st history seq)
        envelope.event
        (send started elapsed envelope (resting payment_fsm p st history seq))
unfolding send payment_fsm manager_approved set_status fail_with_reason expire_qr
send-Edge started elapsed envelope p pending_qr history seq = ground arith
send-Edge started elapsed envelope p _ history seq = ground arith

-- Sending any event to a payment that is not in flight, in any state, takes the step of the diagram
-- and updates the object for it, and changes nothing else of it; or, where the diagram has no such
-- step or a refund lacks `manager_approved=true`, it changes nothing.
pub payment_send :
    (started : Time) (elapsed : ℕ) (envelope : EventEnvelope payment_sig) (p : Payment)
    (st : PaymentState) (history : List (TransitionRecord payment_sig)) (seq : ℕ)
    → Conforms PaymentStep
        (PaymentGuard envelope.event envelope.metadata)
        (λ t. record p {
          status = t;
          failure_reason = reason_after envelope.event envelope.metadata p;
        })
        (resting payment_fsm p st history seq)
        envelope.event
        (send started elapsed envelope (resting payment_fsm p st history seq))
payment_send started elapsed envelope p st history seq =
    Conforms-Step _ payment_fsm (payment_graph).1 _ _ _ _
      (send-Edge started elapsed envelope p st history seq)
