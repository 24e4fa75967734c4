-- ===== src/Services/Payment/Settle.antt =====
-- Refunds, payments in cash or by card, and reading a payment:
-- backend/services/business/Payment.go, `RefundPayment`, `RecordCashOrCard` and `GetPayment`.
pub mod Laws
use rems.Prelude.{String, Bool, true, false, Option, none, some, List, [], ◌∷◌, ◌++◌, ◌==◌}
use rems.Prelude.Int.{ℤ}
use rems.Fsm.Types.{Uuid, Time}
use rems.Domain.Payment.{refund, confirmed}
use rems.Services.Exec.{Exec, ◌>>=◌, ◌>>◌, pure, unless, write}
use rems.Services.Payment.Types.{
  PaymentRecord, tenant_mismatch, refund_not_approved, database_failed, PaymentRows, PaymentExec,
  PaymentServiceRequest, Gateway, Draws, update_payment, write_audit, user_of,
}
use rems.Services.Payment.Fire.{fire_payment_fsm}
use rems.Services.Payment.Qr.{get_payment_for_write, authorized}

pub record RefundInput : Type 0 where
  pub request : PaymentServiceRequest
  pub payment_record_id : Uuid
  pub manager_approved : Bool

pub record CreateCashCardInput : Type 0 where
  pub request : PaymentServiceRequest
  pub order_id : Option Uuid
  pub amount : ℤ
  pub payment_method : String
  pub transaction_id : String
  pub payment_date : Time

module _ (G : Gateway) (draws : Draws) (may : Uuid → Uuid → String → Bool) where
  -- The write of the refunded record, and what comes after it.
  abbrev pub persist_refund : RefundInput → PaymentRecord → PaymentExec PaymentRecord
  persist_refund input fired = do
    write database_failed (λ rows. record rows {
      payments =
          update_payment fired.payment_record_id (λ row. record row { status = fired.status })
            rows.payments;
    })
    write_audit fired.payment_record_id (user_of input.request.actor_id) (some confirmed)
        fired.status
    pure fired

  -- From the restaurant check on.
  unfoldable pub refund_loaded : RefundInput → PaymentRecord → PaymentExec PaymentRecord
  unfolding fire_payment_fsm
  refund_loaded input r = do
    unless (r.restaurant_id == input.request.restaurant_id) tenant_mismatch
    fired ← (λ db. (fire_payment_fsm G draws refund (("manager_approved", "true") ∷ []) r, db))
    persist_refund input fired

  unfoldable pub refund_payment : RefundInput → PaymentExec PaymentRecord
  unfolding get_payment_for_write refund_loaded
  refund_payment input = do
    authorized may input.request "update"
    unless input.manager_approved refund_not_approved
    r ← get_payment_for_write input.request.tenant_id input.payment_record_id
    refund_loaded input r

  unfoldable pub record_cash_or_card : CreateCashCardInput → PaymentExec PaymentRecord
  record_cash_or_card input = do
    authorized may input.request "create"
    let r : PaymentRecord = record {
      payment_record_id = draws.new_id;
      tenant_id = input.request.tenant_id;
      restaurant_id = input.request.restaurant_id;
      order_id = input.order_id;
      amount = input.amount;
      payment_method = input.payment_method;
      status = confirmed;
      transaction_id = input.transaction_id;
      payment_date = input.payment_date;
      qr_image_data = "";
      qr_expires_at = none;
      fonepay_transaction_id = "";
      verify_token = "";
      encoded_params = "";
      failure_reason = "";
    }
    write database_failed (λ rows. record rows { payments = rows.payments ++ (r ∷ []) })
    write_audit r.payment_record_id (user_of input.request.actor_id) none r.status
    pure r

  unfoldable pub get_payment : PaymentServiceRequest → Uuid → PaymentExec PaymentRecord
  unfolding get_payment_for_write
  get_payment input payment_record_id = do
    authorized may input "read"
    get_payment_for_write input.tenant_id payment_record_id
