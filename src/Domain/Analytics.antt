-- ===== src/Domain/Analytics.antt =====
-- The analytics pipeline machine: backend/utils/FSM.go, `AnalyticsPipelineState` to
-- `AnalyticsPipelineFSM`.
pub mod Graph
use rems.Prelude.{
  ℕ, String, ◌≡◌, Option, none, some, Bool, true, false, not, ◌&&◌, [], ◌∷◌, if◌then◌else◌, ◌▷◌, Eq,
  coded_eq, arith, str_eq, string_eq,
}
use rems.Prelude.Int.{ℤ, pos, beq_ℤ}
use rems.Prelude.Dict.{lookup}
use rems.Fsm.Types.{
  Signature, HookError, new_error, errorf, Time, GuardFunc, EffectFunc, key_eq, metadata_true,
}
use rems.Fsm.Options.{guard, effect, terminal, initial, state_desc, describe}
use rems.Fsm.Builder.{
  DefinitionBuilder, FsmDefinition, define, state, transition, global_effect, assemble,
}

pub data AnalyticsPipelineState : Type 0 where
  idle collecting aggregating enriching delivering completed failed : AnalyticsPipelineState

pub data AnalyticsPipelineEvent : Type 0 where
  start_collect collected aggregated enriched delivered fail : AnalyticsPipelineEvent

state_code : AnalyticsPipelineState → ℕ × String
state_code idle = (0, "")
state_code collecting = (1, "")
state_code aggregating = (2, "")
state_code enriching = (3, "")
state_code delivering = (4, "")
state_code completed = (5, "")
state_code failed = (6, "")

state_code-injective : (a b : AnalyticsPipelineState) → state_code a ≡ state_code b → a ≡ b
unfolding state_code
state_code-injective a b h = ground arith

event_code : AnalyticsPipelineEvent → ℕ × String
event_code start_collect = (0, "")
event_code collected = (1, "")
event_code aggregated = (2, "")
event_code enriched = (3, "")
event_code delivered = (4, "")
event_code fail = (5, "")

event_code-injective : (a b : AnalyticsPipelineEvent) → event_code a ≡ event_code b → a ≡ b
unfolding event_code
event_code-injective a b h = ground arith

unfoldable pub analytics_state_eq : Eq AnalyticsPipelineState
unfolding coded_eq state_code state_code-injective
analytics_state_eq = coded_eq state_code state_code-injective

unfoldable pub analytics_event_eq : Eq AnalyticsPipelineEvent
unfolding coded_eq event_code event_code-injective
analytics_event_eq = coded_eq event_code event_code-injective

-- What a run of the pipeline holds.
pub record AnalyticsRun : Type 0 where
  pub pipeline_id : String
  pub stage : AnalyticsPipelineState
  pub record_count : ℤ
  pub started_at : Time
  pub completed_at : Time
  pub error : String

abbrev pub analytics_sig : Signature
analytics_sig = record {
  Obj = AnalyticsRun;
  State = AnalyticsPipelineState;
  Event = AnalyticsPipelineEvent;
  Payload = Unit;
  state_eq = analytics_state_eq;
  event_eq = analytics_event_eq;
}

unfoldable pub collected_guard : GuardFunc analytics_sig
collected_guard p e =
    if beq_ℤ p.record_count (pos 0)
    then (some (new_error "cannot aggregate: no records were collected"), p)
    else (none, p)

unfoldable pub set_stage : AnalyticsPipelineState → EffectFunc analytics_sig
set_stage s p e = (none, record p { stage = s })

unfoldable pub start_run : AnalyticsPipelineState → Time → EffectFunc analytics_sig
start_run s now p e = (none, record p { stage = s; started_at = now })

unfoldable pub complete_run : AnalyticsPipelineState → Time → EffectFunc analytics_sig
complete_run s now p e = (none, record p { stage = s; completed_at = now })

unfoldable pub fail_run : EffectFunc analytics_sig
fail_run p e = (
  none,
  elim (lookup string_eq "error" e.metadata) [
    | some reason ↦ record p { stage = failed; error = reason }
    | none ↦ record p { stage = failed }
  ],
)

-- `now` is what `time.Now()` gives in the effects.
unfoldable pub analytics_builder : Time → DefinitionBuilder analytics_sig
unfolding define state transition global_effect guard effect terminal initial state_desc describe
analytics_builder now =
    define
    ▷ state idle (initial ∷ [])
    ▷ state collecting (state_desc "Fetching raw data from source tables" ∷ [])
    ▷ state aggregating (state_desc "Computing aggregations and rollups" ∷ [])
    ▷ state enriching (state_desc "Computing derived metrics and percentages" ∷ [])
    ▷ state delivering (state_desc "Writing results to cache or response" ∷ [])
    ▷ state completed (terminal ∷ state_desc "Pipeline run finished successfully" ∷ [])
    ▷ state failed (terminal ∷ state_desc "Pipeline run failed" ∷ [])
    ▷ transition idle start_collect collecting
        (effect (start_run collecting now) ∷ describe "Pipeline run initiated" ∷ [])
    ▷ transition collecting collected aggregating
        (guard collected_guard ∷ effect (set_stage aggregating) ∷ [])
    ▷ transition aggregating aggregated enriching (effect (set_stage enriching) ∷ [])
    ▷ transition enriching enriched delivering (effect (set_stage delivering) ∷ [])
    ▷ transition delivering delivered completed (effect (complete_run completed now) ∷ [])
    ▷ transition collecting fail failed (effect fail_run ∷ [])
    ▷ transition aggregating fail failed (effect fail_run ∷ [])
    ▷ transition enriching fail failed (effect fail_run ∷ [])
    ▷ transition delivering fail failed (effect fail_run ∷ [])

-- `AnalyticsPipelineFSM`, the definition that `MustCompile` returns.
unfoldable pub analytics_fsm : Time → FsmDefinition analytics_sig
unfolding analytics_builder assemble analytics_state_eq analytics_event_eq key_eq
analytics_fsm now = assemble (analytics_builder now)
