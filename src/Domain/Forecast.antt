-- ===== src/Domain/Forecast.antt =====
-- The forecast pipeline machine: backend/utils/FSM.go, `ForecastPipelineState` to
-- `ForecastPipelineFSM`.
pub mod Graph
use rems.Prelude.{
  ℕ, String, ◌≡◌, Option, none, some, Bool, true, false, not, ◌&&◌, [], ◌∷◌, if◌then◌else◌, ◌▷◌, Eq,
  coded_eq, arith, str_eq, string_eq,
}
use rems.Prelude.Int.{ℤ, pos, ltb_ℤ}
use rems.Prelude.Dict.{lookup}
use rems.Fsm.Types.{
  Signature, HookError, new_error, errorf, Time, GuardFunc, EffectFunc, key_eq, metadata_true,
}
use rems.Fsm.Options.{guard, effect, terminal, initial, state_desc, describe}
use rems.Fsm.Builder.{
  DefinitionBuilder, FsmDefinition, define, state, transition, global_effect, assemble,
}

pub data ForecastPipelineState : Type 0 where
  idle ingesting feature_engineering model_training scoring post_processing publishing completed
        failed :
      ForecastPipelineState

pub data ForecastPipelineEvent : Type 0 where
  start_ingest ingested features_ready model_trained scored post_processed published fail :
      ForecastPipelineEvent

state_code : ForecastPipelineState → ℕ × String
state_code idle = (0, "")
state_code ingesting = (1, "")
state_code feature_engineering = (2, "")
state_code model_training = (3, "")
state_code scoring = (4, "")
state_code post_processing = (5, "")
state_code publishing = (6, "")
state_code completed = (7, "")
state_code failed = (8, "")

state_code-injective : (a b : ForecastPipelineState) → state_code a ≡ state_code b → a ≡ b
unfolding state_code
state_code-injective a b h = ground arith

event_code : ForecastPipelineEvent → ℕ × String
event_code start_ingest = (0, "")
event_code ingested = (1, "")
event_code features_ready = (2, "")
event_code model_trained = (3, "")
event_code scored = (4, "")
event_code post_processed = (5, "")
event_code published = (6, "")
event_code fail = (7, "")

event_code-injective : (a b : ForecastPipelineEvent) → event_code a ≡ event_code b → a ≡ b
unfolding event_code
event_code-injective a b h = ground arith

unfoldable pub forecast_state_eq : Eq ForecastPipelineState
unfolding coded_eq state_code state_code-injective
forecast_state_eq = coded_eq state_code state_code-injective

unfoldable pub forecast_event_eq : Eq ForecastPipelineEvent
unfolding coded_eq event_code event_code-injective
forecast_event_eq = coded_eq event_code event_code-injective

-- What a run of the pipeline holds.
pub record ForecastRun : Type 0 where
  pub pipeline_id : String
  pub stage : ForecastPipelineState
  pub data_point_count : ℤ
  pub model_accuracy : ℤ
  pub started_at : Time
  pub completed_at : Time
  pub error : String

abbrev pub forecast_sig : Signature
forecast_sig = record {
  Obj = ForecastRun;
  State = ForecastPipelineState;
  Event = ForecastPipelineEvent;
  Payload = Unit;
  state_eq = forecast_state_eq;
  event_eq = forecast_event_eq;
}

unfoldable pub enough_data : GuardFunc forecast_sig
enough_data p e =
    if ltb_ℤ p.data_point_count (pos 7)
    then (
      some (
          errorf "insufficient data: need at least 7 data points, got %d"
            (p.data_point_count ∷ [])),
      p,
    )
    else (none, p)

-- The accuracy is a float64 of which only the sign is tested: a scaled integer.
unfoldable pub converged : GuardFunc forecast_sig
converged p e =
    if ltb_ℤ p.model_accuracy (pos 0)
    then (
      some (errorf "model accuracy %.4f is negative — training diverged" (p.model_accuracy ∷ [])),
      p,
    )
    else (none, p)

unfoldable pub set_stage : ForecastPipelineState → EffectFunc forecast_sig
set_stage s p e = (none, record p { stage = s })

unfoldable pub start_run : ForecastPipelineState → Time → EffectFunc forecast_sig
start_run s now p e = (none, record p { stage = s; started_at = now })

unfoldable pub complete_run : ForecastPipelineState → Time → EffectFunc forecast_sig
complete_run s now p e = (none, record p { stage = s; completed_at = now })

unfoldable pub fail_run : EffectFunc forecast_sig
fail_run p e = (
  none,
  elim (lookup string_eq "error" e.metadata) [
    | some reason ↦ record p { stage = failed; error = reason }
    | none ↦ record p { stage = failed }
  ],
)

-- `now` is what `time.Now()` gives in the effects.
unfoldable pub forecast_builder : Time → DefinitionBuilder forecast_sig
unfolding define state transition global_effect guard effect terminal initial state_desc describe
forecast_builder now =
    define
    ▷ state idle (initial ∷ [])
    ▷ state ingesting (state_desc "Loading historical data from orders and stock movements" ∷ [])
    ▷ state feature_engineering (
        state_desc "Computing features: seasonality indices, day-of-week weights, trend components"
        ∷ [])
    ▷ state model_training
        (state_desc "Fitting exponential smoothing model with seasonal decomposition" ∷ [])
    ▷ state scoring (state_desc "Generating point forecasts and confidence intervals" ∷ [])
    ▷ state post_processing
        (state_desc "Applying business rules, floor/ceiling constraints, rounding" ∷ [])
    ▷ state publishing (state_desc "Writing forecast results to cache and response" ∷ [])
    ▷ state completed (terminal ∷ state_desc "Forecast pipeline completed successfully" ∷ [])
    ▷ state failed (terminal ∷ state_desc "Forecast pipeline failed" ∷ [])
    ▷ transition idle start_ingest ingesting (effect (start_run ingesting now) ∷ [])
    ▷ transition ingesting ingested feature_engineering
        (guard enough_data ∷ effect (set_stage feature_engineering) ∷ [])
    ▷ transition feature_engineering features_ready model_training
        (effect (set_stage model_training) ∷ [])
    ▷ transition model_training model_trained scoring
        (guard converged ∷ effect (set_stage scoring) ∷ [])
    ▷ transition scoring scored post_processing (effect (set_stage post_processing) ∷ [])
    ▷ transition post_processing post_processed publishing (effect (set_stage publishing) ∷ [])
    ▷ transition publishing published completed (effect (complete_run completed now) ∷ [])
    ▷ transition ingesting fail failed (effect fail_run ∷ [])
    ▷ transition feature_engineering fail failed (effect fail_run ∷ [])
    ▷ transition model_training fail failed (effect fail_run ∷ [])
    ▷ transition scoring fail failed (effect fail_run ∷ [])
    ▷ transition post_processing fail failed (effect fail_run ∷ [])
    ▷ transition publishing fail failed (effect fail_run ∷ [])

-- `ForecastPipelineFSM`, the definition that `MustCompile` returns.
unfoldable pub forecast_fsm : Time → FsmDefinition forecast_sig
unfolding forecast_builder assemble forecast_state_eq forecast_event_eq key_eq
forecast_fsm now = assemble (forecast_builder now)
