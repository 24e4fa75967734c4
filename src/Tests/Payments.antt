-- ===== src/Tests/Payments.antt =====
-- A dinner paid by QR code and refunded: backend/services/business/Payment.go.
use rems.Prelude.{
  ◌≡◌, refl, ℕ, ◌==◌, if◌then◌else◌, Option, none, String, Bool, true, false, some, [], ◌∷◌, inl,
  ◌⊎◌,
}
use rems.Prelude.Int.{pos}
use rems.Fsm.Types.{Uuid}
use rems.Fsm.Envelope.{with_meta}
use rems.Domain.Payment.{PaymentState, pending_qr, confirmed, failed, set_status, manager_approved}
use rems.Services.Exec.{ok, err, Db, Result}
use rems.Services.Payment.Types.{
  PaymentRecord, PaymentError, PaymentRows, PaymentServiceRequest, Gateway, Draws, Invoice,
  database_failed,
}
use rems.Services.Payment.Invoice.{InvoiceTexts, CreateInvoiceInput, create_invoice}
use rems.Services.Payment.Fire.{fail_payment}
use rems.Services.Payment.Fire.Laws.{AllHave, fail_payment-AllHave}
use rems.Services.Payment.Callback.{
  find_by_token, is_qr_expired, handle_fonepay_callback, expire_stale_qrs,
}
use rems.Services.Payment.Callback.Laws.{Verified, handle_fonepay_callback-Verified}
use rems.Services.Payment.Callback.Sweep.{NoneExpired, expire_stale_qrs-NoneExpired}
use rems.Services.Payment.Qr.{InitiateQrInput, find_payment}
use rems.Services.Payment.Settle.{RefundInput, refund_payment}
use rems.Services.Payment.Settle.Laws.{Refunded, refund_payment-Refunded}

abbrev sandbox : Gateway
sandbox = record {
  generate_qr =
      λ amount id description remarks. some (record { transaction_id = "f-1"; qr_image_data = [] });
  verify_payment =
      λ params. ok (record { success = true; status = "done"; transaction_id = "t-1" });
  parse_query = λ text. ok (("PRN", text ∷ []) ∷ []);
  base64 = λ bytes. "";
  uuid_text = λ id. "p";
}

abbrev at_noon : Draws
at_noon = record {
  now = 1000;
  new_id = 31;
  correlation_id = "c-1";
  token = some "secret";
  elapsed = 2;
  envelope_id = "e-1";
}

abbrev paid_by_qr : PaymentState → PaymentRecord
paid_by_qr s = record {
  payment_record_id = 30;
  tenant_id = 9;
  restaurant_id = 4;
  order_id = some 12;
  amount = pos 45000;
  payment_method = "fonepay";
  status = s;
  transaction_id = "";
  payment_date = 900;
  qr_image_data = "";
  qr_expires_at = some 1800900;
  fonepay_transaction_id = "f-0";
  verify_token = "tok";
  encoded_params = "";
  failure_reason = "";
}

abbrev ledger : PaymentState → Db PaymentRows
ledger s = record {
  faults = [];
  rows = record {
    payments = paid_by_qr s ∷ [];
    orders = [];
    invoices = [];
    audit = [];
    spawned = [];
  };
}

abbrev cashier : PaymentServiceRequest
cashier = record { tenant_id = 9; restaurant_id = 4; actor_id = 7 }

abbrev anyone : Uuid → Uuid → String → Bool
anyone user tenant action = true

abbrev takeaway : InitiateQrInput
takeaway = record {
  request = cashier;
  order_id = some 13;
  amount = pos 2050;
  description = "takeaway";
  remarks2 = "";
}

abbrev paid : PaymentRecord
paid = record (paid_by_qr confirmed) { encoded_params = "x"; transaction_id = "t-1" }

called_back :
    (handle_fonepay_callback sandbox at_noon true "tok" "x" (ledger pending_qr)).0 ≡ ok paid
unfolding handle_fonepay_callback set_status
called_back = refl

handle_fonepay_callback-Verified_example :
    (r : PaymentRecord) × (find_by_token "tok" (paid_by_qr pending_qr ∷ []) ≡ some r)
    × ((paid ≡ r)
        ⊎ ((r.status ≡ pending_qr)
            × (is_qr_expired 1000 r ≡ false)
            × Verified sandbox at_noon "x" paid))
handle_fonepay_callback-Verified_example =
    handle_fonepay_callback-Verified sandbox at_noon true "tok" "x" (ledger pending_qr) paid
      called_back refl

-- The record was read as pending, and is confirmed by the time of the write.
fail_payment-AllHave_example :
    ((fail_payment sandbox at_noon "QR code expired" (paid_by_qr pending_qr) (ledger confirmed)).0
      ≡ ok (record (paid_by_qr failed) { failure_reason = "QR code expired" }))
    × AllHave 30 failed
        (fail_payment sandbox at_noon "QR code expired"
          (paid_by_qr pending_qr)
          (ledger confirmed)).1.rows.payments
fail_payment-AllHave_example =
    fail_payment-AllHave sandbox at_noon "QR code expired" (paid_by_qr pending_qr)
      (ledger confirmed) (inl refl) refl

abbrev refund_request : RefundInput
refund_request = record { request = cashier; payment_record_id = 30; manager_approved = true }

refunded_it :
    (refund_payment sandbox at_noon anyone refund_request (ledger confirmed)).0
    ≡ ok (paid_by_qr PaymentState.refunded)
unfolding refund_payment with_meta manager_approved set_status
refunded_it = refl

refund_payment-Refunded_example :
    (true ≡ true)
    × (true ≡ true)
    × ((r : PaymentRecord) × (find_payment 30 9 (paid_by_qr confirmed ∷ []) ≡ some r)
        × Refunded sandbox at_noon anyone refund_request r
            (paid_by_qr confirmed ∷ [])
            (refund_payment sandbox at_noon anyone refund_request
              (ledger confirmed)).1.rows.payments
            (paid_by_qr PaymentState.refunded))
refund_payment-Refunded_example =
    refund_payment-Refunded sandbox at_noon anyone refund_request (ledger confirmed)
      (paid_by_qr PaymentState.refunded) refunded_it

abbrev long_after : Draws
long_after = record at_noon { now = 9000000 }

expire_stale_qrs-NoneExpired_example :
    NoneExpired 9000000 (expire_stale_qrs sandbox long_after (ledger pending_qr)).1.rows.payments
expire_stale_qrs-NoneExpired_example =
    expire_stale_qrs-NoneExpired sandbox long_after (ledger pending_qr) refl

abbrev invoice_texts : InvoiceTexts
invoice_texts = record {
  month_start = λ t. 0;
  invoice_number = λ t n. if n == 1 then "INV-1" else "INV-2";
}

abbrev lunch_bill : CreateInvoiceInput
lunch_bill = record {
  request = cashier;
  order_id = none;
  subtotal = pos 1000;
  tax_amount = pos 130;
  discount_amount = pos 0;
  invoice_date = 50;
  due_date = none;
}

abbrev issue : Uuid → Option ℕ → Db PaymentRows → Result PaymentError Invoice × Db PaymentRows
issue id counted = create_invoice invoice_texts anyone id counted lunch_bill

-- An invoice that was numbered while Redis was down takes the number that Redis gives next.
number_given_twice :
    (issue 81 (some 1) (issue 80 none (ledger confirmed)).1).0 ≡ err database_failed
unfolding create_invoice
number_given_twice = refl
