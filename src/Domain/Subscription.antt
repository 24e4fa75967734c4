-- ===== src/Domain/Subscription.antt =====
-- The subscription machine: backend/utils/FSM.go, `SubscriptionState` to `SubscriptionFSM`.
pub mod Graph
use rems.Prelude.{
  ℕ, String, ◌≡◌, Option, none, some, Bool, true, false, not, ◌&&◌, [], ◌∷◌, if◌then◌else◌, ◌▷◌, Eq,
  coded_eq, arith, str_eq, string_eq,
}
use rems.Fsm.Types.{
  Signature, HookError, new_error, errorf, Time, GuardFunc, EffectFunc, key_eq, metadata_true,
}
use rems.Fsm.Options.{guard, effect, terminal, initial, state_desc, describe}
use rems.Fsm.Builder.{
  DefinitionBuilder, FsmDefinition, define, state, transition, global_effect, assemble,
}

-- `unlisted` stands for any text that no constant names: a status read from the database may be one.
pub data SubscriptionState : Type 0 where
  trialing active past_due suspended cancelled expired : SubscriptionState
  unlisted : String → SubscriptionState

pub data SubscriptionEvent : Type 0 where
  activate pay_fail pay_ok suspend reactivate cancel expire : SubscriptionEvent

state_code : SubscriptionState → ℕ × String
state_code trialing = (0, "")
state_code active = (1, "")
state_code past_due = (2, "")
state_code suspended = (3, "")
state_code cancelled = (4, "")
state_code expired = (5, "")
state_code (unlisted s) = (6, s)

state_code-injective : (a b : SubscriptionState) → state_code a ≡ state_code b → a ≡ b
unfolding state_code
state_code-injective a b h = ground arith

event_code : SubscriptionEvent → ℕ × String
event_code activate = (0, "")
event_code pay_fail = (1, "")
event_code pay_ok = (2, "")
event_code suspend = (3, "")
event_code reactivate = (4, "")
event_code cancel = (5, "")
event_code expire = (6, "")

event_code-injective : (a b : SubscriptionEvent) → event_code a ≡ event_code b → a ≡ b
unfolding event_code
event_code-injective a b h = ground arith

unfoldable pub subscription_state_eq : Eq SubscriptionState
unfolding coded_eq state_code state_code-injective
subscription_state_eq = coded_eq state_code state_code-injective

unfoldable pub subscription_event_eq : Eq SubscriptionEvent
unfolding coded_eq event_code event_code-injective
subscription_event_eq = coded_eq event_code event_code-injective

-- What a `SubscriptionContext` holds.
pub record Subscription : Type 0 where
  pub subscription_id : String
  pub status : SubscriptionState
  pub auto_renew : Bool

abbrev pub subscription_sig : Signature
subscription_sig = record {
  Obj = Subscription;
  State = SubscriptionState;
  Event = SubscriptionEvent;
  Payload = Unit;
  state_eq = subscription_state_eq;
  event_eq = subscription_event_eq;
}

unfoldable pub no_auto_renew : GuardFunc subscription_sig
no_auto_renew s e =
    if s.auto_renew
    then (
      some (
          new_error
            "cannot expire subscription with auto-renew enabled — disable auto-renew first"),
      s,
    )
    else (none, s)

unfoldable pub set_status : SubscriptionState → EffectFunc subscription_sig
set_status s o e = (none, record o { status = s })

unfoldable pub subscription_builder : DefinitionBuilder subscription_sig
unfolding define state transition global_effect guard effect terminal initial state_desc describe
subscription_builder =
    define
    ▷ state trialing (initial ∷ [])
    ▷ state active []
    ▷ state past_due []
    ▷ state suspended []
    ▷ state cancelled (terminal ∷ [])
    ▷ state expired (terminal ∷ [])
    ▷ transition trialing activate active (effect (set_status active) ∷ [])
    ▷ transition active pay_fail past_due (effect (set_status past_due) ∷ [])
    ▷ transition past_due pay_ok active (effect (set_status active) ∷ [])
    ▷ transition past_due suspend suspended (effect (set_status suspended) ∷ [])
    ▷ transition suspended reactivate active (effect (set_status active) ∷ [])
    ▷ transition active expire expired (guard no_auto_renew ∷ effect (set_status expired) ∷ [])
    ▷ transition trialing cancel cancelled (effect (set_status cancelled) ∷ [])
    ▷ transition active cancel cancelled (effect (set_status cancelled) ∷ [])
    ▷ transition past_due cancel cancelled (effect (set_status cancelled) ∷ [])
    ▷ transition suspended cancel cancelled (effect (set_status cancelled) ∷ [])

-- `SubscriptionFSM`, the definition that `MustCompile` returns.
unfoldable pub subscription_fsm : FsmDefinition subscription_sig
unfolding subscription_builder assemble subscription_state_eq subscription_event_eq key_eq
subscription_fsm = assemble subscription_builder
