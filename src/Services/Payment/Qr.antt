-- ===== src/Services/Payment/Qr.antt =====
-- Issuing QR codes: backend/services/business/Payment.go, `InitiateQRPayment`, `RegenerateQR` and
-- `getPaymentForWrite`. Whether the service has a provider, and what the authorizer answers for a
-- request, are arguments.
pub mod Laws
use rems.Prelude.{
  ℕ, zero, suc, String, Bool, true, false, not, ◌&&◌, ◌||◌, ◌/◌, Option, none, some, List, [], ◌∷◌,
  ◌++◌, ◌==◌, ◌+◌, if◌then◌else◌, str_eq,
}
use rems.Prelude.Int.{ℤ, pos, negsuc}
use rems.Fsm.Types.{Uuid, Time}
use rems.Domain.Payment.{PaymentState, pending_qr, awaiting_confirm, failed, payment_state_eq}
use rems.Services.Exec.{
  Result, ok, err, Exec, ◌>>=◌, ◌>>◌, pure, raise, modify, query, first_of, found_or, unless, write,
}
use rems.Services.Payment.Types.{
  PaymentRecord, PaymentError, payment_not_found, qr_already_pending, not_fonepay,
  cannot_regenerate, access_denied, token_failed, provider_failed, database_failed, PaymentRows,
  PaymentExec, PaymentServiceRequest, QrResponse, Gateway, Draws, write_audit, user_of,
}

-- 30 minutes.
abbrev pub fonepay_qr_ttl : ℕ
fonepay_qr_ttl = 1800000

abbrev negate : ℕ → ℤ
negate zero = pos zero
negate (suc n) = negsuc n

-- `int64(amount)` of an amount in cents: towards zero.
abbrev pub whole_rupees : ℤ → ℤ
whole_rupees (pos n) = pos (n / 100)
whole_rupees (negsuc n) = negate (suc n / 100)

pub record InitiateQrInput : Type 0 where
  pub request : PaymentServiceRequest
  pub order_id : Option Uuid
  pub amount : ℤ
  pub description : String
  pub remarks2 : String

pub record QrPaymentResult : Type 0 where
  pub payment_record_id : Uuid
  pub qr_image_base64 : String
  pub fonepay_transaction_id : String
  pub expires_at : Time
  pub verify_token : String
  pub amount : ℤ

abbrev pub is_order : Uuid → Option Uuid → Bool
is_order id none = false
is_order id (some order_id) = order_id == id

-- `WHERE order_id = ? AND restaurant_id = ? AND tenant_id = ? AND status IN (?,?)`
abbrev pub is_active_for : Uuid → Uuid → Uuid → PaymentRecord → Bool
is_active_for order_id restaurant_id tenant_id r =
    is_order order_id r.order_id
    && r.restaurant_id == restaurant_id
    && r.tenant_id == tenant_id
    && (payment_state_eq.beq r.status pending_qr || payment_state_eq.beq r.status awaiting_confirm)

abbrev pub has_active : Uuid → Uuid → Uuid → List PaymentRecord → Bool
has_active order_id restaurant_id tenant_id [] = false
has_active order_id restaurant_id tenant_id (r ∷ records) =
    is_active_for order_id restaurant_id tenant_id r
    || has_active order_id restaurant_id tenant_id records

-- `WHERE payment_record_id = ? AND tenant_id = ?`
abbrev pub find_payment : Uuid → Uuid → List PaymentRecord → Option PaymentRecord
find_payment id tenant_id [] = none
find_payment id tenant_id (r ∷ records) =
    if r.payment_record_id == id && r.tenant_id == tenant_id
    then some r
    else find_payment id tenant_id records

unfoldable pub get_payment_for_write : Uuid → Uuid → PaymentExec PaymentRecord
get_payment_for_write tenant_id id =
    first_of payment_not_found database_failed (λ rows. find_payment id tenant_id rows.payments)

-- `rbac.Require`, with the authorizer's answer for the user, the tenant and the action on payments.
abbrev pub authorized :
    (Uuid → Uuid → String → Bool) → PaymentServiceRequest → String → PaymentExec (Unit {0})
authorized may input action = unless (may input.actor_id input.tenant_id action) access_denied

module _ (G : Gateway) (draws : Draws) (has_provider : Bool)
    (may : Uuid → Uuid → String → Bool) where
  abbrev pub check_idempotent : InitiateQrInput → Option Uuid → PaymentExec (Unit {0})
  check_idempotent input none = pure tt
  check_idempotent input (some order_id) = do
    active ← query database_failed (λ rows.
        has_active order_id input.request.restaurant_id input.request.tenant_id rows.payments)
    unless (not active) qr_already_pending

  abbrev pub new_record : InitiateQrInput → String → QrResponse → PaymentRecord
  new_record input verify_token response = record {
    payment_record_id = draws.new_id;
    tenant_id = input.request.tenant_id;
    restaurant_id = input.request.restaurant_id;
    order_id = input.order_id;
    amount = input.amount;
    payment_method = "fonepay";
    status = pending_qr;
    transaction_id = "";
    payment_date = draws.now;
    qr_image_data = G.base64 response.qr_image_data;
    qr_expires_at = some (draws.now + fonepay_qr_ttl);
    fonepay_transaction_id = response.transaction_id;
    verify_token = verify_token;
    encoded_params = "";
    failure_reason = "";
  }

  unfoldable pub initiate_qr_payment : InitiateQrInput → PaymentExec QrPaymentResult
  initiate_qr_payment input = do
    unless has_provider not_fonepay
    authorized may input.request "create"
    check_idempotent input input.order_id
    verify_token ← (λ db. (found_or token_failed draws.token, db))
    response ← (λ db. (
      found_or provider_failed (
          G.generate_qr (whole_rupees input.amount) draws.correlation_id input.description
            input.remarks2),
      db,
    ))
    let r = new_record input verify_token response
    write database_failed (λ rows. record rows { payments = rows.payments ++ (r ∷ []) })
    write_audit r.payment_record_id (user_of input.request.actor_id) none r.status
    pure (record {
      payment_record_id = r.payment_record_id;
      qr_image_base64 = r.qr_image_data;
      fonepay_transaction_id = response.transaction_id;
      expires_at = draws.now + fonepay_qr_ttl;
      verify_token = verify_token;
      amount = input.amount;
    })

  abbrev pub is_fonepay_qr : PaymentRecord → Bool
  is_fonepay_qr r = str_eq r.payment_method "fonepay"

  unfoldable pub regenerate_qr : PaymentServiceRequest → Uuid → PaymentExec QrPaymentResult
  unfolding get_payment_for_write initiate_qr_payment
  regenerate_qr input payment_record_id = do
    unless has_provider not_fonepay
    authorized may input "create"
    old ← get_payment_for_write input.tenant_id payment_record_id
    unless (is_fonepay_qr old) not_fonepay
    unless (payment_state_eq.beq old.status failed) (cannot_regenerate old.status)
    initiate_qr_payment (record {
      request = input;
      order_id = old.order_id;
      amount = old.amount;
      description = "";
      remarks2 = "";
    })
