-- ===== src/Domain/Payment/Runs.antt =====
-- What the log of a payment shows: backend/utils/FSM.go, `PaymentFSM`.
use rems.Prelude.{List, [], ◌∷◌, ◌++◌, ◌≡◌, ◌⊎◌, inl, inr, refl, true}
use rems.Fsm.Types.{TransitionRecord, metadata_true}
use rems.Fsm.Machine.{Machine, restore}
use rems.Fsm.Machine.History.{Run}
use rems.Fsm.Machine.Conforms.{Run-keeps}
use rems.Domain.Payment.{
  Payment, PaymentState, PaymentEvent, pending_qr, awaiting_confirm, confirmed, failed, refunded,
  qr_scanned, received, fail, expire, refund, payment_sig, payment_fsm,
}
use rems.Domain.Payment.Graph.{
  PaymentStep, scanning, verifying, rejecting, expiring, failing, refunding, PaymentGuard,
  reason_after, payment_send,
}

-- The log has a transition of this event.
abbrev pub Occurs : PaymentEvent → List (TransitionRecord payment_sig) → Type 0
Occurs e [] = ⊥
Occurs e (r ∷ log) = (r.event.event ≡ e) ⊎ Occurs e log

-- The log has a refund that a manager approved.
abbrev pub RefundApproved : List (TransitionRecord payment_sig) → Type 0
RefundApproved [] = ⊥
RefundApproved (r ∷ log) =
    (r.event.event ≡ refund) × (metadata_true "manager_approved" r.event.metadata ≡ true)
    ⊎ RefundApproved log

-- What a log has to show for a payment to be in a state.
abbrev pub Evidence : PaymentState → List (TransitionRecord payment_sig) → Type 0
Evidence confirmed log = Occurs qr_scanned log × Occurs received log
Evidence refunded log = Occurs qr_scanned log × Occurs received log × RefundApproved log
Evidence failed log = Occurs fail log ⊎ Occurs expire log
Evidence awaiting_confirm log = Occurs qr_scanned log
Evidence _ log = Unit

Occurs-append :
    (e : PaymentEvent) (log : List (TransitionRecord payment_sig))
    (r : TransitionRecord payment_sig)
    → Occurs e log ⊎ (r.event.event ≡ e)
    → Occurs e (log ++ (r ∷ []))
Occurs-append e [] r (inl h) = absurd h
Occurs-append e [] r (inr h) = inl h
Occurs-append e (x ∷ log) r (inl (inl h)) = inl h
Occurs-append e (x ∷ log) r (inl (inr h)) = inr (Occurs-append e log r (inl h))
Occurs-append e (x ∷ log) r (inr h) = inr (Occurs-append e log r (inr h))

RefundApproved-append :
    (log : List (TransitionRecord payment_sig)) (r : TransitionRecord payment_sig)
    → r.event.event ≡ refund
    → metadata_true "manager_approved" r.event.metadata ≡ true
    → RefundApproved (log ++ (r ∷ []))
RefundApproved-append [] r e h = inl (e, h)
RefundApproved-append (x ∷ log) r e h = inr (RefundApproved-append log r e h)

PaymentStep-Evidence :
    (log : List (TransitionRecord payment_sig)) (r : TransitionRecord payment_sig)
    {s t : PaymentState} {e : PaymentEvent}
    → r.event.event ≡ e
    → PaymentStep s e t
    → PaymentGuard e r.event.metadata
    → Evidence s log
    → Evidence t (log ++ (r ∷ []))
PaymentStep-Evidence log r at scanning guard p = Occurs-append qr_scanned log r (inr at)
PaymentStep-Evidence log r at verifying guard p =
    (Occurs-append qr_scanned log r (inl p), Occurs-append received log r (inr at))
PaymentStep-Evidence log r at rejecting guard p = inl (Occurs-append fail log r (inr at))
PaymentStep-Evidence log r at expiring guard p = inr (Occurs-append expire log r (inr at))
PaymentStep-Evidence log r at failing guard p = inl (Occurs-append fail log r (inr at))
PaymentStep-Evidence log r at refunding guard p = (
  Occurs-append qr_scanned log r (inl p.0),
  Occurs-append received log r (inl p.1),
  RefundApproved-append log r at guard,
)

-- Whatever events are sent to a new payment: where it is confirmed, its log has the scan of its code
-- and the receipt; where it is refunded, also a refund whose metadata say `manager_approved=true`;
-- where it awaits confirmation, the scan; where it failed, a failure or an expiry. Its id and its
-- amount stay.
pub Run-Evidence :
    (p : Payment) {m : Machine payment_sig} {log : List (TransitionRecord payment_sig)}
    → Run (restore payment_fsm p pending_qr) m log
    → (m.obj.payment_id ≡ p.payment_id) × (m.obj.amount ≡ p.amount) × Evidence m.current log
Run-Evidence p {m} {log} run =
    Run-keeps payment_fsm PaymentStep
      (λ s envelope x. PaymentGuard envelope.event envelope.metadata)
      (λ envelope x t. record x {
        status = t;
        failure_reason = reason_after envelope.event envelope.metadata x;
      })
      (λ started elapsed envelope x s history seq.
        payment_send started elapsed envelope x s history seq)
      (λ s x log. (x.payment_id ≡ p.payment_id) × (x.amount ≡ p.amount) × Evidence s log)
      (λ s t x log r step guard h. (h.0, h.1, PaymentStep-Evidence log r refl step guard h.2))
      pending_qr p (refl, refl, tt) run
