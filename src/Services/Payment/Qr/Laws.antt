-- ===== src/Services/Payment/Qr/Laws.antt =====
-- What `InitiateQRPayment` and `RegenerateQR` of backend/services/business/Payment.go promise.
use rems.Prelude.{String, Bool, true, false, ◌≡◌, ◌≢◌, Option, none, some, List, [], ◌∷◌, ◌++◌}
use rems.Fsm.Types.{Uuid}
use rems.Domain.Payment.{PaymentState}
use rems.Services.Payment.Types.{PaymentRecord, Gateway, Draws}
use rems.Services.Payment.Qr.{InitiateQrInput, QrPaymentResult, has_active}

-- A payment that is not pending and does not await confirmation.
abbrev pub IsSettled : PaymentRecord → Type 0
IsSettled r = (r.status ≢ PaymentState.pending_qr) × (r.status ≢ PaymentState.awaiting_confirm)

-- Every payment of the order, in its restaurant and tenant, is settled.
abbrev pub AllSettled : Uuid → Uuid → Uuid → List PaymentRecord → Type 0
AllSettled order_id restaurant_id tenant_id [] = Unit
AllSettled order_id restaurant_id tenant_id (r ∷ records) =
    (r.order_id ≡ some order_id
      → r.restaurant_id ≡ restaurant_id
      → r.tenant_id ≡ tenant_id
      → IsSettled r)
    × AllSettled order_id restaurant_id tenant_id records

-- No payment of the given order, if one is given, is pending or awaits confirmation.
abbrev pub NoneActive : InitiateQrInput → Option Uuid → List PaymentRecord → Type 0
NoneActive input none records = Unit
NoneActive input (some order_id) records =
    AllSettled order_id input.request.restaurant_id input.request.tenant_id records

-- What the query answers, against what it means.
abbrev Unanswered : InitiateQrInput → Option Uuid → List PaymentRecord → Type 0
Unanswered input none records = Unit
Unanswered input (some order_id) records =
    has_active order_id input.request.restaurant_id input.request.tenant_id records ≡ false

module _ (G : Gateway) (draws : Draws) (has_provider : Bool)
    (may : Uuid → Uuid → String → Bool) where
  abbrev pub Issued :
      InitiateQrInput → List PaymentRecord → List PaymentRecord → QrPaymentResult → Type 0
  Issued input before after result =
      (r : PaymentRecord) × (after ≡ before ++ (r ∷ []))
      × NoneActive input input.order_id before
      × (may input.request.actor_id input.request.tenant_id "create" ≡ true)
      × (r.payment_record_id ≡ result.payment_record_id)
      × (some r.verify_token ≡ draws.token)
      × (r.verify_token ≡ result.verify_token)
      × (r.qr_expires_at ≡ some result.expires_at)
      × (r.order_id ≡ input.order_id)
      × (r.amount ≡ input.amount)
      × (r.status ≡ PaymentState.pending_qr)
