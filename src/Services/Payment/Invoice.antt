-- ===== src/Services/Payment/Invoice.antt =====
-- Invoices: backend/services/business/Payment.go, `CreateInvoice` and `generateInvoiceNumber`, with
-- the unique index on the number of backend/models/Payment.go. The time to live of the counter is
-- left out.
use rems.Prelude.{
  ℕ, suc, ◌+◌, String, Bool, false, not, ◌&&◌, ◌||◌, Option, none, some, List, [], ◌∷◌, ◌++◌, ◌==◌,
  leb, str_eq, if◌then◌else◌,
}
use rems.Prelude.Int.{ℤ, ◌+ℤ◌, ◌-ℤ◌}
use rems.Fsm.Types.{Uuid, Time}
use rems.Services.Exec.{◌>>=◌, ◌>>◌, pure, query?, unless, write}
use rems.Services.Payment.Types.{
  access_denied, database_failed, Invoice, PaymentExec, PaymentServiceRequest,
}

-- The calendar, and the text of a number in a month.
pub record InvoiceTexts : Type 0 where
  pub month_start : Time → Time
  pub invoice_number : Time → ℕ → String

pub record CreateInvoiceInput : Type 0 where
  pub request : PaymentServiceRequest
  pub order_id : Option Uuid
  pub subtotal : ℤ
  pub tax_amount : ℤ
  pub discount_amount : ℤ
  pub invoice_date : Time
  pub due_date : Option Time

-- `WHERE tenant_id = ? AND invoice_date >= ?`
abbrev pub invoice_count : Uuid → Time → List Invoice → ℕ
invoice_count tenant_id from [] = 0
invoice_count tenant_id from (inv ∷ invoices) =
    if inv.tenant_id == tenant_id && leb from inv.invoice_date
    then suc (invoice_count tenant_id from invoices)
    else invoice_count tenant_id from invoices

-- The unique index on the tenant and the number.
abbrev pub is_number_taken : Uuid → String → List Invoice → Bool
is_number_taken tenant_id number [] = false
is_number_taken tenant_id number (inv ∷ invoices) =
    (inv.tenant_id == tenant_id && str_eq inv.invoice_number number)
    || is_number_taken tenant_id number invoices

abbrev pub after_count : Option ℕ → ℕ
after_count none = 1
after_count (some n) = n + 1

module _ (T : InvoiceTexts) where
  -- `counted` is what `INCR` answered, `none` an error: then the invoices of the month are counted.
  abbrev pub generate_invoice_number : Option ℕ → Uuid → Time → PaymentExec String
  generate_invoice_number none tenant_id t = do
    count ← query? (λ rows. invoice_count tenant_id (T.month_start t) rows.invoices)
    pure (T.invoice_number t (after_count count))
  generate_invoice_number (some seq) tenant_id t = pure (T.invoice_number t seq)

  abbrev pub new_invoice : Uuid → CreateInvoiceInput → String → Invoice
  new_invoice id input number = record {
    invoice_id = id;
    tenant_id = input.request.tenant_id;
    restaurant_id = input.request.restaurant_id;
    order_id = input.order_id;
    invoice_number = number;
    invoice_date = input.invoice_date;
    due_date = input.due_date;
    subtotal = input.subtotal;
    tax_amount = input.tax_amount;
    discount_amount = input.discount_amount;
    total_amount = input.subtotal +ℤ input.tax_amount -ℤ input.discount_amount;
    status = "issued";
  }

  -- A row that breaks the unique index is refused.
  abbrev pub insert_invoice : Invoice → PaymentExec Invoice
  insert_invoice inv db =
      (unless (not (is_number_taken inv.tenant_id inv.invoice_number db.rows.invoices))
            database_failed
          >> (write database_failed (λ rows. record rows { invoices = rows.invoices ++ (inv ∷ []) })
              >> pure inv))
        db

  abbrev pub issue_invoice : Uuid → CreateInvoiceInput → Option ℕ → PaymentExec Invoice
  issue_invoice id input counted =
      generate_invoice_number counted input.request.tenant_id input.invoice_date >>= λ number.
      insert_invoice (new_invoice id input number)

  unfoldable pub create_invoice :
      (Uuid → Uuid → String → Bool) → Uuid → Option ℕ → CreateInvoiceInput → PaymentExec Invoice
  create_invoice may id counted input =
      unless (may input.request.actor_id input.request.tenant_id "create") access_denied
      >> issue_invoice id input counted
