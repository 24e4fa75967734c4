-- ===== src/Domain/Payment.antt =====
-- The payment machine: backend/utils/FSM.go, `PaymentState` to `PaymentFSM`.
pub mod Graph
pub mod Runs
use rems.Prelude.{
  ℕ, String, ◌≡◌, Option, none, some, Bool, true, false, not, ◌&&◌, [], ◌∷◌, if◌then◌else◌, ◌▷◌, Eq,
  coded_eq, arith, str_eq, string_eq,
}
use rems.Prelude.Int.{ℤ}
use rems.Prelude.Dict.{lookup}
use rems.Fsm.Types.{
  Signature, HookError, new_error, errorf, Time, GuardFunc, EffectFunc, key_eq, metadata_true,
}
use rems.Fsm.Options.{guard, effect, terminal, initial, state_desc, describe}
use rems.Fsm.Builder.{
  DefinitionBuilder, FsmDefinition, define, state, transition, global_effect, assemble,
}

-- `unlisted` stands for any text that no constant names: a status read from the database may be one.
pub data PaymentState : Type 0 where
  pending_qr awaiting_confirm confirmed failed refunded : PaymentState
  unlisted : String → PaymentState

pub data PaymentEvent : Type 0 where
  qr_scanned received fail expire refund : PaymentEvent

state_code : PaymentState → ℕ × String
state_code pending_qr = (0, "")
state_code awaiting_confirm = (1, "")
state_code confirmed = (2, "")
state_code failed = (3, "")
state_code refunded = (4, "")
state_code (unlisted s) = (5, s)

state_code-injective : (a b : PaymentState) → state_code a ≡ state_code b → a ≡ b
unfolding state_code
state_code-injective a b h = ground arith

event_code : PaymentEvent → ℕ × String
event_code qr_scanned = (0, "")
event_code received = (1, "")
event_code fail = (2, "")
event_code expire = (3, "")
event_code refund = (4, "")

event_code-injective : (a b : PaymentEvent) → event_code a ≡ event_code b → a ≡ b
unfolding event_code
event_code-injective a b h = ground arith

unfoldable pub payment_state_eq : Eq PaymentState
unfolding coded_eq state_code state_code-injective
payment_state_eq = coded_eq state_code state_code-injective

unfoldable pub payment_event_eq : Eq PaymentEvent
unfolding coded_eq event_code event_code-injective
payment_event_eq = coded_eq event_code event_code-injective

-- What a `PaymentContext` holds: the amount is a decimal(12,2) column, kept in cents.
pub record Payment : Type 0 where
  pub payment_id : String
  pub status : PaymentState
  pub amount : ℤ
  pub failure_reason : String

abbrev pub payment_sig : Signature
payment_sig = record {
  Obj = Payment;
  State = PaymentState;
  Event = PaymentEvent;
  Payload = Unit;
  state_eq = payment_state_eq;
  event_eq = payment_event_eq;
}

unfoldable pub manager_approved : GuardFunc payment_sig
manager_approved p e =
    if metadata_true "manager_approved" e.metadata
    then (none, p)
    else (some (new_error "refund requires manager_approved=true in envelope metadata"), p)

unfoldable pub set_status : PaymentState → EffectFunc payment_sig
set_status s o e = (none, record o { status = s })

unfoldable pub fail_with_reason : EffectFunc payment_sig
fail_with_reason p e = (
  none,
  elim (lookup string_eq "failure_reason" e.metadata) [
    | some reason ↦ record p { status = failed; failure_reason = reason }
    | none ↦ record p { status = failed }
  ],
)

unfoldable pub expire_qr : EffectFunc payment_sig
expire_qr p e = (none, record p { status = failed; failure_reason = "QR code expired" })

unfoldable pub payment_builder : DefinitionBuilder payment_sig
unfolding define state transition global_effect guard effect terminal initial state_desc describe
payment_builder =
    define
    ▷ state pending_qr (initial ∷ [])
    ▷ state awaiting_confirm []
    ▷ state confirmed []
    ▷ state failed (terminal ∷ [])
    ▷ state refunded (terminal ∷ [])
    ▷ transition pending_qr qr_scanned awaiting_confirm (
        describe "Fonepay callback received — verifying"
        ∷ effect (set_status awaiting_confirm)
        ∷ [])
    ▷ transition awaiting_confirm received confirmed
        (describe "Payment verified by Fonepay" ∷ effect (set_status confirmed) ∷ [])
    ▷ transition awaiting_confirm fail failed
        (describe "Fonepay verification returned failure" ∷ effect fail_with_reason ∷ [])
    ▷ transition pending_qr expire failed
        (describe "QR expired without scan" ∷ effect expire_qr ∷ [])
    ▷ transition pending_qr fail failed
        (describe "Payment explicitly failed or cancelled" ∷ effect fail_with_reason ∷ [])
    ▷ transition confirmed refund refunded (
        describe "Confirmed payment refunded"
        ∷ guard manager_approved
        ∷ effect (set_status refunded)
        ∷ [])

-- `PaymentFSM`, the definition that `MustCompile` returns.
unfoldable pub payment_fsm : FsmDefinition payment_sig
unfolding payment_builder assemble payment_state_eq payment_event_eq key_eq
payment_fsm = assemble payment_builder
