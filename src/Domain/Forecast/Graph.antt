-- ===== src/Domain/Forecast/Graph.antt =====
-- The forecast pipeline machine against its diagram, and what one `Send` does to it:
-- backend/utils/FSM.go, `ForecastPipelineFSM`.
use rems.Prelude.{ℕ, String, List, ◌≡◌, refl, ◌↔◌, none, some, arith, string_eq}
use rems.Prelude.Int.{pos, ◌≤ℤ◌}
use rems.Prelude.Dict.{Dict, lookup}
use rems.Fsm.Types.{Time, EventEnvelope, TransitionRecord}
use rems.Fsm.Builder.{must_compile, target}
use rems.Fsm.Machine.{send}
use rems.Fsm.Machine.Conforms.{Conforms, Edge, Conforms-Step, resting}
use rems.Domain.Forecast.{
  ForecastPipelineEvent, ForecastPipelineState, ForecastRun, complete_run, completed, converged,
  enough_data, fail, fail_run, failed, feature_engineering, features_ready, forecast_builder,
  forecast_fsm, forecast_sig, idle, ingested, ingesting, model_trained, model_training,
  post_processed, post_processing, published, publishing, scored, scoring, set_stage, start_ingest,
  start_run,
}

pub data InFlight : ForecastPipelineState → Type 0 where
  in_ingesting : InFlight ingesting
  in_features : InFlight feature_engineering
  in_training : InFlight model_training
  in_scoring : InFlight scoring
  in_processing : InFlight post_processing
  in_publishing : InFlight publishing

-- The diagram: the transitions that the definition lists, as a relation.
pub data ForecastRunStep
    : ForecastPipelineState → ForecastPipelineEvent → ForecastPipelineState → Type 0 where
  starting : ForecastRunStep idle start_ingest ingesting
  ingesting_done : ForecastRunStep ingesting ingested feature_engineering
  features_done : ForecastRunStep feature_engineering features_ready model_training
  training_done : ForecastRunStep model_training model_trained scoring
  scoring_done : ForecastRunStep scoring scored post_processing
  processing_done : ForecastRunStep post_processing post_processed publishing
  finishing : ForecastRunStep publishing published completed
  failing : {s : ForecastPipelineState} → InFlight s → ForecastRunStep s fail failed

ruleset edges = (
  starting, ingesting_done, features_done, training_done, scoring_done, processing_done, finishing,
  failing, in_ingesting, in_features, in_training, in_scoring, in_processing, in_publishing,
)

target-ForecastRunStep :
    (now : Time) (s : ForecastPipelineState) (e : ForecastPipelineEvent) (t : ForecastPipelineState)
    → target (forecast_fsm now) s e ≡ some t
    → ForecastRunStep s e t
unfolding forecast_fsm
target-ForecastRunStep now s e t h = grind (arith, edges)

ForecastRunStep-target :
    (now : Time) {s : ForecastPipelineState} {e : ForecastPipelineEvent} {t : ForecastPipelineState}
    → ForecastRunStep s e t
    → target (forecast_fsm now) s e ≡ some t
unfolding forecast_fsm
ForecastRunStep-target now starting = refl
ForecastRunStep-target now ingesting_done = refl
ForecastRunStep-target now features_done = refl
ForecastRunStep-target now training_done = refl
ForecastRunStep-target now scoring_done = refl
ForecastRunStep-target now processing_done = refl
ForecastRunStep-target now finishing = refl
ForecastRunStep-target now (failing in_ingesting) = refl
ForecastRunStep-target now (failing in_features) = refl
ForecastRunStep-target now (failing in_training) = refl
ForecastRunStep-target now (failing in_scoring) = refl
ForecastRunStep-target now (failing in_processing) = refl
ForecastRunStep-target now (failing in_publishing) = refl

forecast_compiles : (now : Time) → must_compile (forecast_builder now) ≡ some (forecast_fsm now)
unfolding must_compile forecast_fsm
forecast_compiles now = refl

-- `ForecastPipelineFSM` compiles without a panic, and its transitions are exactly those of the
-- diagram.
pub forecast_graph :
    (now : Time)
    → (must_compile (forecast_builder now) ≡ some (forecast_fsm now))
      × ((s : ForecastPipelineState) (e : ForecastPipelineEvent) (t : ForecastPipelineState)
          → (target (forecast_fsm now) s e ≡ some t) ↔ ForecastRunStep s e t)
forecast_graph now =
    (forecast_compiles now, λ s e t. (target-ForecastRunStep now s e t, ForecastRunStep-target now))

-- What the guards ask for.
abbrev pub ForecastRunGuard : ForecastPipelineEvent → ForecastRun → Type 0
ForecastRunGuard ingested r = pos 7 ≤ℤ r.data_point_count
ForecastRunGuard model_trained r = pos 0 ≤ℤ r.model_accuracy
ForecastRunGuard _ r = Unit

-- The run after a step into a stage: the start, the end and a failure are noted.
abbrev pub run_after :
    Time
    → ForecastPipelineState
    → ForecastPipelineEvent
    → Dict String String
    → ForecastRun
    → ForecastRun
run_after now t start_ingest metadata r = record r { stage = t; started_at = now }
run_after now t published metadata r = record r { stage = t; completed_at = now }
run_after now t fail metadata r = elim (lookup string_eq "error" metadata) [
  | some reason ↦ record r { stage = t; error = reason }
  | none ↦ record r { stage = t }
]
run_after now t _ metadata r = record r { stage = t }

send-Edge :
    (now : Time) (started : Time) (elapsed : ℕ) (envelope : EventEnvelope forecast_sig)
    (r : ForecastRun) (st : ForecastPipelineState) (history : List (TransitionRecord forecast_sig))
    (seq : ℕ)
    → Conforms
        (Edge (forecast_fsm now))
        (ForecastRunGuard envelope.event r)
        (λ t. run_after now t envelope.event envelope.metadata r)
        (resting (forecast_fsm now) r st history seq)
        envelope.event
        (send started elapsed envelope (resting (forecast_fsm now) r st history seq))
unfolding send forecast_fsm enough_data converged set_stage start_run complete_run fail_run
send-Edge now started elapsed envelope r idle history seq = ground arith
send-Edge now started elapsed envelope r _ history seq = ground arith

-- Sending any event to a run that is not in flight, in any state, takes the step of the diagram and
-- updates the object for it, and changes nothing else of it; or, where the diagram has no such step
-- or there are fewer than 7 data points or the model diverged, it changes nothing.
pub forecast_send :
    (now : Time) (started : Time) (elapsed : ℕ) (envelope : EventEnvelope forecast_sig)
    (r : ForecastRun) (st : ForecastPipelineState) (history : List (TransitionRecord forecast_sig))
    (seq : ℕ)
    → Conforms ForecastRunStep
        (ForecastRunGuard envelope.event r)
        (λ t. run_after now t envelope.event envelope.metadata r)
        (resting (forecast_fsm now) r st history seq)
        envelope.event
        (send started elapsed envelope (resting (forecast_fsm now) r st history seq))
forecast_send now started elapsed envelope r st history seq =
    Conforms-Step _ (forecast_fsm now) (forecast_graph now).1 _ _ _ _
      (send-Edge now started elapsed envelope r st history seq)
