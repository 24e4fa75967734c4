-- ===== src/Services/Payment/Types.antt =====
-- The data of the payment service: backend/services/business/Payment.go and the rows of
-- backend/models/Payment.go. Amounts are decimal(12,2) columns, kept in cents; times are in
-- milliseconds. A status is one of the machine's states or any other text.
use rems.Prelude.{
  ℕ, String, Bool, Option, none, some, if◌then◌else◌, List, [], ◌∷◌, ◌++◌, ◌==◌, true, false,
}
use rems.Prelude.Int.{ℤ}
use rems.Prelude.Dict.{Dict}
use rems.Fsm.Types.{Uuid, Time}
use rems.Domain.Payment.{PaymentState}
use rems.Domain.Order.{Order}
use rems.Services.Exec.{Result, Exec, ok, next_fails, later}

pub record PaymentRecord : Type 0 where
  pub payment_record_id : Uuid
  pub tenant_id : Uuid
  pub restaurant_id : Uuid
  pub order_id : Option Uuid
  pub amount : ℤ
  pub payment_method : String
  pub status : PaymentState
  pub transaction_id : String
  pub payment_date : Time
  pub qr_image_data : String
  pub qr_expires_at : Option Time
  pub fonepay_transaction_id : String
  pub verify_token : String
  pub encoded_params : String
  pub failure_reason : String

-- The errors; the service's own text for an error of another party is left out.
pub data PaymentError : Type 0 where
  payment_not_found tenant_mismatch qr_already_pending invalid_verify_token : PaymentError
  not_fonepay invalid_fsm_event refund_not_approved : PaymentError
  cannot_regenerate : PaymentState → PaymentError
  access_denied token_failed provider_failed database_failed : PaymentError

-- A row of the orders table, with what its machine sees of it.
pub record OrderRow : Type 0 where
  pub order_id : Uuid
  pub tenant_id : Uuid
  pub order : Order

-- An audit row: the payment, the user, and the states before and after.
pub record AuditEntry : Type 0 where
  pub entity : Uuid
  pub user : Option Uuid
  pub old_status : Option PaymentState
  pub new_status : PaymentState

pub record Invoice : Type 0 where
  pub invoice_id : Uuid
  pub tenant_id : Uuid
  pub restaurant_id : Uuid
  pub order_id : Option Uuid
  pub invoice_number : String
  pub invoice_date : Time
  pub due_date : Option Time
  pub subtotal : ℤ
  pub tax_amount : ℤ
  pub discount_amount : ℤ
  pub total_amount : ℤ
  pub status : String

-- The tables, and the orders that a started goroutine is to advance: tenant and order.
pub record PaymentRows : Type 0 where
  pub payments : List PaymentRecord
  pub orders : List OrderRow
  pub invoices : List Invoice
  pub audit : List AuditEntry
  pub spawned : List (Uuid × Uuid)

abbrev pub PaymentExec : Type 0 → Type 0
PaymentExec A = Exec PaymentError PaymentRows A

pub record PaymentServiceRequest : Type 0 where
  pub tenant_id : Uuid
  pub restaurant_id : Uuid
  pub actor_id : Uuid

pub record QrResponse : Type 0 where
  pub transaction_id : String
  pub qr_image_data : List ℕ

pub record VerifyResponse : Type 0 where
  pub success : Bool
  pub status : String
  pub transaction_id : String

-- What the payment provider and the libraries answer in a call; `none` is an error, and
-- so is `err` with its text. `generate_qr` has the whole rupees, the order's identifier, the description and the remarks.
pub record Gateway : Type 0 where
  pub generate_qr : ℤ → String → String → String → Option QrResponse
  pub verify_payment : Dict String String → Result String VerifyResponse
  pub parse_query : String → Result String (Dict String (List String))
  pub base64 : List ℕ → String
  pub uuid_text : Uuid → String

-- What a call draws: the clock, read once; the identifiers; the random token, `none` an error of its
-- source; and the machine's own readings, with the events' identifier.
pub record Draws : Type 0 where
  pub now : Time
  pub new_id : Uuid
  pub correlation_id : String
  pub token : Option String
  pub elapsed : ℕ
  pub envelope_id : String

-- `uuid.Nil` is no user.
abbrev pub user_of : Uuid → Option Uuid
user_of actor_id = if actor_id == 0 then none else some actor_id

-- Errors of the audit log are silenced.
abbrev pub write_audit :
    Uuid → Option Uuid → Option PaymentState → PaymentState → PaymentExec (Unit {0})
write_audit entity user old_status new_status db = elim (next_fails db.faults) [
  | true ↦ (ok tt, record db { faults = later db.faults })
  | false ↦ (
    ok tt,
    record {
      faults = later db.faults;
      rows = record db.rows {
        audit =
            db.rows.audit
            ++ (record {
              entity = entity;
              user = user;
              old_status = old_status;
              new_status = new_status;
            }
                ∷ []);
      };
    },
  )
]

-- `UPDATE … WHERE payment_record_id = ?`
abbrev pub update_payment :
    Uuid → (PaymentRecord → PaymentRecord) → List PaymentRecord → List PaymentRecord
update_payment id f [] = []
update_payment id f (r ∷ records) = elim (r.payment_record_id == id) [
  | true ↦ f r ∷ update_payment id f records
  | false ↦ r ∷ update_payment id f records
]
