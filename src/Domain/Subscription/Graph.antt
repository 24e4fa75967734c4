-- ===== src/Domain/Subscription/Graph.antt =====
-- The subscription machine against its diagram, and what one `Send` does to it:
-- backend/utils/FSM.go, `SubscriptionFSM`.
use rems.Prelude.{ℕ, List, ◌≡◌, refl, ◌↔◌, false, some, arith}
use rems.Fsm.Types.{Time, EventEnvelope, TransitionRecord}
use rems.Fsm.Builder.{must_compile, target}
use rems.Fsm.Machine.{send}
use rems.Fsm.Machine.Conforms.{Conforms, Edge, Conforms-Step, resting}
use rems.Domain.Subscription.{
  Subscription, SubscriptionEvent, SubscriptionState, activate, active, cancel, cancelled, expire,
  expired, no_auto_renew, past_due, pay_fail, pay_ok, reactivate, set_status, subscription_builder,
  subscription_fsm, subscription_sig, suspend, suspended, trialing,
}

pub data IsRunning : SubscriptionState → Type 0 where
  trialing_subscription : IsRunning trialing
  active_subscription : IsRunning active
  past_due_subscription : IsRunning past_due
  suspended_subscription : IsRunning suspended

-- The diagram: the transitions that the definition lists, as a relation.
pub data SubscriptionStep : SubscriptionState → SubscriptionEvent → SubscriptionState → Type 0 where
  activating : SubscriptionStep trialing activate active
  failing : SubscriptionStep active pay_fail past_due
  paying : SubscriptionStep past_due pay_ok active
  suspending : SubscriptionStep past_due suspend suspended
  reactivating : SubscriptionStep suspended reactivate active
  expiring : SubscriptionStep active expire expired
  cancelling : {s : SubscriptionState} → IsRunning s → SubscriptionStep s cancel cancelled

ruleset edges = (
  activating, failing, paying, suspending, reactivating, expiring, cancelling,
  trialing_subscription, active_subscription, past_due_subscription, suspended_subscription,
)

target-SubscriptionStep :
    (s : SubscriptionState) (e : SubscriptionEvent) (t : SubscriptionState)
    → target subscription_fsm s e ≡ some t
    → SubscriptionStep s e t
unfolding subscription_fsm
target-SubscriptionStep s e t h = grind (arith, edges)

SubscriptionStep-target :
    {s : SubscriptionState} {e : SubscriptionEvent} {t : SubscriptionState}
    → SubscriptionStep s e t
    → target subscription_fsm s e ≡ some t
unfolding subscription_fsm
SubscriptionStep-target activating = refl
SubscriptionStep-target failing = refl
SubscriptionStep-target paying = refl
SubscriptionStep-target suspending = refl
SubscriptionStep-target reactivating = refl
SubscriptionStep-target expiring = refl
SubscriptionStep-target (cancelling trialing_subscription) = refl
SubscriptionStep-target (cancelling active_subscription) = refl
SubscriptionStep-target (cancelling past_due_subscription) = refl
SubscriptionStep-target (cancelling suspended_subscription) = refl

subscription_compiles : must_compile subscription_builder ≡ some subscription_fsm
unfolding must_compile subscription_fsm
subscription_compiles = refl

-- `SubscriptionFSM` compiles without a panic, and its transitions are exactly those of the diagram.
pub subscription_graph :
    (must_compile subscription_builder ≡ some subscription_fsm)
    × ((s : SubscriptionState) (e : SubscriptionEvent) (t : SubscriptionState)
        → (target subscription_fsm s e ≡ some t) ↔ SubscriptionStep s e t)
subscription_graph =
    (subscription_compiles, λ s e t. (target-SubscriptionStep s e t, SubscriptionStep-target))

-- What the guards ask for.
abbrev pub SubscriptionGuard : SubscriptionEvent → Subscription → Type 0
SubscriptionGuard expire u = u.auto_renew ≡ false
SubscriptionGuard _ u = Unit

send-Edge :
    (started : Time) (elapsed : ℕ) (envelope : EventEnvelope subscription_sig) (u : Subscription)
    (st : SubscriptionState) (history : List (TransitionRecord subscription_sig)) (seq : ℕ)
    → Conforms
        (Edge subscription_fsm)
        (SubscriptionGuard envelope.event u)
        (λ t. record u { status = t })
        (resting subscription_fsm u st history seq)
        envelope.event
        (send started elapsed envelope (resting subscription_fsm u st history seq))
unfolding send subscription_fsm no_auto_renew set_status
send-Edge started elapsed envelope u trialing history seq = ground arith
send-Edge started elapsed envelope u _ history seq = ground arith

-- Sending any event to a subscription that is not in flight, in any state, takes the step of the
-- diagram and updates the object for it, and changes nothing else of it; or, where the diagram has
-- no such step or a subscription that renews itself is to expire, it changes nothing.
pub subscription_send :
    (started : Time) (elapsed : ℕ) (envelope : EventEnvelope subscription_sig) (u : Subscription)
    (st : SubscriptionState) (history : List (TransitionRecord subscription_sig)) (seq : ℕ)
    → Conforms SubscriptionStep
        (SubscriptionGuard envelope.event u)
        (λ t. record u { status = t })
        (resting subscription_fsm u st history seq)
        envelope.event
        (send started elapsed envelope (resting subscription_fsm u st history seq))
subscription_send started elapsed envelope u st history seq =
    Conforms-Step _ subscription_fsm (subscription_graph).1 _ _ _ _
      (send-Edge started elapsed envelope u st history seq)
