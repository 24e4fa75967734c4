-- ===== src/Domain/Analytics/Graph.antt =====
-- The analytics pipeline machine against its diagram, and what one `Send` does to it:
-- backend/utils/FSM.go, `AnalyticsPipelineFSM`.
use rems.Prelude.{ℕ, String, List, ◌≡◌, refl, ◌↔◌, ◌⊎◌, none, some, arith, string_eq}
use rems.Prelude.Int.{pos, ◌<ℤ◌}
use rems.Prelude.Dict.{Dict, lookup}
use rems.Fsm.Types.{Time, EventEnvelope, TransitionRecord}
use rems.Fsm.Builder.{must_compile, target}
use rems.Fsm.Machine.{send}
use rems.Fsm.Machine.Conforms.{Conforms, Edge, Conforms-Step, resting}
use rems.Domain.Analytics.{
  AnalyticsPipelineEvent, AnalyticsPipelineState, AnalyticsRun, aggregated, aggregating,
  analytics_builder, analytics_fsm, analytics_sig, collected, collected_guard, collecting,
  complete_run, completed, delivered, delivering, enriched, enriching, fail, fail_run, failed, idle,
  set_stage, start_collect, start_run,
}

pub data InFlight : AnalyticsPipelineState → Type 0 where
  in_collecting : InFlight collecting
  in_aggregating : InFlight aggregating
  in_enriching : InFlight enriching
  in_delivering : InFlight delivering

-- The diagram: the transitions that the definition lists, as a relation.
pub data AnalyticsRunStep
    : AnalyticsPipelineState → AnalyticsPipelineEvent → AnalyticsPipelineState → Type 0 where
  starting : AnalyticsRunStep idle start_collect collecting
  aggregating_step : AnalyticsRunStep collecting collected aggregating
  enriching_step : AnalyticsRunStep aggregating aggregated enriching
  delivering_step : AnalyticsRunStep enriching enriched delivering
  finishing : AnalyticsRunStep delivering delivered completed
  failing : {s : AnalyticsPipelineState} → InFlight s → AnalyticsRunStep s fail failed

ruleset edges = (
  starting, aggregating_step, enriching_step, delivering_step, finishing, failing, in_collecting,
  in_aggregating, in_enriching, in_delivering,
)

target-AnalyticsRunStep :
    (now : Time) (s : AnalyticsPipelineState) (e : AnalyticsPipelineEvent)
    (t : AnalyticsPipelineState)
    → target (analytics_fsm now) s e ≡ some t
    → AnalyticsRunStep s e t
unfolding analytics_fsm
target-AnalyticsRunStep now s e t h = grind (arith, edges)

AnalyticsRunStep-target :
    (now : Time) {s : AnalyticsPipelineState} {e : AnalyticsPipelineEvent}
    {t : AnalyticsPipelineState}
    → AnalyticsRunStep s e t
    → target (analytics_fsm now) s e ≡ some t
unfolding analytics_fsm
AnalyticsRunStep-target now starting = refl
AnalyticsRunStep-target now aggregating_step = refl
AnalyticsRunStep-target now enriching_step = refl
AnalyticsRunStep-target now delivering_step = refl
AnalyticsRunStep-target now finishing = refl
AnalyticsRunStep-target now (failing in_collecting) = refl
AnalyticsRunStep-target now (failing in_aggregating) = refl
AnalyticsRunStep-target now (failing in_enriching) = refl
AnalyticsRunStep-target now (failing in_delivering) = refl

analytics_compiles : (now : Time) → must_compile (analytics_builder now) ≡ some (analytics_fsm now)
unfolding must_compile analytics_fsm
analytics_compiles now = refl

-- `AnalyticsPipelineFSM` compiles without a panic, and its transitions are exactly those of the
-- diagram.
pub analytics_graph :
    (now : Time)
    → (must_compile (analytics_builder now) ≡ some (analytics_fsm now))
      × ((s : AnalyticsPipelineState) (e : AnalyticsPipelineEvent) (t : AnalyticsPipelineState)
          → (target (analytics_fsm now) s e ≡ some t) ↔ AnalyticsRunStep s e t)
analytics_graph now = (
  analytics_compiles now,
  λ s e t. (target-AnalyticsRunStep now s e t, AnalyticsRunStep-target now),
)

-- What the guards ask for.
abbrev pub AnalyticsRunGuard : AnalyticsPipelineEvent → AnalyticsRun → Type 0
AnalyticsRunGuard collected r = (r.record_count <ℤ pos 0) ⊎ (pos 0 <ℤ r.record_count)
AnalyticsRunGuard _ r = Unit

-- The run after a step into a stage: the start, the end and a failure are noted.
abbrev pub run_after :
    Time
    → AnalyticsPipelineState
    → AnalyticsPipelineEvent
    → Dict String String
    → AnalyticsRun
    → AnalyticsRun
run_after now t start_collect metadata r = record r { stage = t; started_at = now }
run_after now t delivered metadata r = record r { stage = t; completed_at = now }
run_after now t fail metadata r = elim (lookup string_eq "error" metadata) [
  | some reason ↦ record r { stage = t; error = reason }
  | none ↦ record r { stage = t }
]
run_after now t _ metadata r = record r { stage = t }

send-Edge :
    (now : Time) (started : Time) (elapsed : ℕ) (envelope : EventEnvelope analytics_sig)
    (r : AnalyticsRun) (st : AnalyticsPipelineState)
    (history : List (TransitionRecord analytics_sig)) (seq : ℕ)
    → Conforms
        (Edge (analytics_fsm now))
        (AnalyticsRunGuard envelope.event r)
        (λ t. run_after now t envelope.event envelope.metadata r)
        (resting (analytics_fsm now) r st history seq)
        envelope.event
        (send started elapsed envelope (resting (analytics_fsm now) r st history seq))
unfolding send analytics_fsm collected_guard set_stage start_run complete_run fail_run
send-Edge now started elapsed envelope r idle history seq = ground arith
send-Edge now started elapsed envelope r _ history seq = ground arith

-- Sending any event to a run that is not in flight, in any state, takes the step of the diagram and
-- updates the object for it, and changes nothing else of it; or, where the diagram has no such step
-- or a run without records is to be aggregated, it changes nothing.
pub analytics_send :
    (now : Time) (started : Time) (elapsed : ℕ) (envelope : EventEnvelope analytics_sig)
    (r : AnalyticsRun) (st : AnalyticsPipelineState)
    (history : List (TransitionRecord analytics_sig)) (seq : ℕ)
    → Conforms AnalyticsRunStep
        (AnalyticsRunGuard envelope.event r)
        (λ t. run_after now t envelope.event envelope.metadata r)
        (resting (analytics_fsm now) r st history seq)
        envelope.event
        (send started elapsed envelope (resting (analytics_fsm now) r st history seq))
analytics_send now started elapsed envelope r st history seq =
    Conforms-Step _ (analytics_fsm now) (analytics_graph now).1 _ _ _ _
      (send-Edge now started elapsed envelope r st history seq)
