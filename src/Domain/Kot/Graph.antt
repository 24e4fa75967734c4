-- ===== src/Domain/Kot/Graph.antt =====
-- The kitchen-order-ticket machine against its diagram, and what one `Send` does to it:
-- backend/utils/FSM.go, `KOTFSM`.
use rems.Prelude.{ℕ, String, List, ◌≡◌, refl, ◌↔◌, ◌⊎◌, true, false, some, arith, str_eq}
use rems.Prelude.Dict.{Dict}
use rems.Fsm.Types.{Time, EventEnvelope, TransitionRecord, metadata_true}
use rems.Fsm.Builder.{must_compile, target}
use rems.Fsm.Machine.{send}
use rems.Fsm.Machine.Conforms.{Conforms, Edge, Conforms-Step, resting}
use rems.Domain.Kot.{
  Kot, KotEvent, KotState, cancel, cancelled, complete, completed, in_progress, kot_builder,
  kot_fsm, kot_sig, sent, set_status, start, urgent_override,
}

-- The diagram: the transitions that the definition lists, as a relation.
pub data KotStep : KotState → KotEvent → KotState → Type 0 where
  starting : KotStep sent start in_progress
  completing : KotStep in_progress complete completed
  cancelling_sent : KotStep sent cancel cancelled
  cancelling_started : KotStep in_progress cancel cancelled

ruleset edges = (starting, completing, cancelling_sent, cancelling_started)

target-KotStep :
    (s : KotState) (e : KotEvent) (t : KotState) → target kot_fsm s e ≡ some t → KotStep s e t
unfolding kot_fsm
target-KotStep s e t h = grind (arith, edges)

KotStep-target :
    {s : KotState} {e : KotEvent} {t : KotState} → KotStep s e t → target kot_fsm s e ≡ some t
unfolding kot_fsm
KotStep-target starting = refl
KotStep-target completing = refl
KotStep-target cancelling_sent = refl
KotStep-target cancelling_started = refl

kot_compiles : must_compile kot_builder ≡ some kot_fsm
unfolding must_compile kot_fsm
kot_compiles = refl

-- `KOTFSM` compiles without a panic, and its transitions are exactly those of the diagram.
pub kot_graph :
    (must_compile kot_builder ≡ some kot_fsm)
    × ((s : KotState) (e : KotEvent) (t : KotState) → (target kot_fsm s e ≡ some t) ↔ KotStep s e t)
kot_graph = (kot_compiles, λ s e t. (target-KotStep s e t, KotStep-target))

-- What the guards ask for.
abbrev pub KotGuard : KotState → KotEvent → Kot → Dict String String → Type 0
KotGuard in_progress cancel k metadata =
    (str_eq k.priority "urgent" ≡ false) ⊎ (metadata_true "force_cancel" metadata ≡ true)
KotGuard _ _ k metadata = Unit

send-Edge :
    (started : Time) (elapsed : ℕ) (envelope : EventEnvelope kot_sig) (k : Kot) (st : KotState)
    (history : List (TransitionRecord kot_sig)) (seq : ℕ)
    → Conforms
        (Edge kot_fsm)
        (KotGuard st envelope.event k envelope.metadata)
        (λ t. record k { status = t })
        (resting kot_fsm k st history seq)
        envelope.event
        (send started elapsed envelope (resting kot_fsm k st history seq))
unfolding send kot_fsm urgent_override set_status
send-Edge started elapsed envelope k sent history seq = ground arith
send-Edge started elapsed envelope k _ history seq = ground arith

-- Sending any event to a ticket that is not in flight, in any state, takes the step of the diagram
-- and updates the object for it, and changes nothing else of it; or, where the diagram has no such
-- step or an urgent ticket in progress is to be cancelled without `force_cancel=true`, it changes
-- nothing.
pub kot_send :
    (started : Time) (elapsed : ℕ) (envelope : EventEnvelope kot_sig) (k : Kot) (st : KotState)
    (history : List (TransitionRecord kot_sig)) (seq : ℕ)
    → Conforms KotStep
        (KotGuard st envelope.event k envelope.metadata)
        (λ t. record k { status = t })
        (resting kot_fsm k st history seq)
        envelope.event
        (send started elapsed envelope (resting kot_fsm k st history seq))
kot_send started elapsed envelope k st history seq =
    Conforms-Step _ kot_fsm (kot_graph).1 _ _ _ _
      (send-Edge started elapsed envelope k st history seq)
