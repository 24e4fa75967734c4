-- ===== src/Services/Payment/Callback.antt =====
-- The provider's callback and the sweep of stale codes: backend/services/business/Payment.go,
-- `HandleFonepayCallback`, `ExpireStaleQRs` and `tryAdvanceOrderToServed`, and `IsQRExpired` of
-- backend/models/Payment.go.
pub mod Laws
pub mod Sweep
use rems.Prelude.{
  String, Bool, true, false, not, ◌&&◌, Option, none, some, List, [], ◌∷◌, ◌++◌, ◌==◌, ltb,
  if◌then◌else◌, str_eq,
}
use rems.Prelude.Dict.{Dict}
use rems.Fsm.Types.{Uuid, Time, EventEnvelope}
use rems.Fsm.Envelope.{new_envelope}
use rems.Fsm.Machine.{restore, send}
use rems.Domain.Payment.{
  PaymentState, pending_qr, awaiting_confirm, qr_scanned, received, payment_state_eq,
}
use rems.Domain.Order.{Order, serve, order_sig, order_fsm}
use Prim.Native.String as Text
use rems.Services.Exec.{
  Result, ok, err, Exec, ◌>>=◌, ◌>>◌, pure, raise, modify, query, query?, first_of, unless, write,
}
use rems.Services.Payment.Types.{
  PaymentRecord, PaymentError, invalid_verify_token, database_failed, not_fonepay, OrderRow,
  PaymentRows, PaymentExec, Gateway, VerifyResponse, Draws, update_payment, write_audit,
}
use rems.Services.Payment.Fire.{fire_payment_fsm, fail_payment}

abbrev pub is_after : Time → Option Time → Bool
is_after now none = false
is_after now (some expires_at) = ltb expires_at now

unfoldable pub is_qr_expired : Time → PaymentRecord → Bool
is_qr_expired now r = is_after now r.qr_expires_at

-- `WHERE verify_token = ?`
abbrev pub find_by_token : String → List PaymentRecord → Option PaymentRecord
find_by_token token [] = none
find_by_token token (r ∷ records) =
    if str_eq r.verify_token token then some r else find_by_token token records

-- The loop that keeps the first value of each parameter.
abbrev pub first_values : Dict String (List String) → Dict String String
first_values [] = []
first_values ((k, []) ∷ params) = first_values params
first_values ((k, v ∷ vs) ∷ params) = (k, v) ∷ first_values params

module _ (G : Gateway) (draws : Draws) where
  abbrev pub spawn_advance : PaymentRecord → Option Uuid → PaymentExec (Unit {0})
  spawn_advance r none = pure tt
  spawn_advance r (some order_id) =
      modify (λ rows. record rows { spawned = rows.spawned ++ ((r.tenant_id, order_id) ∷ []) })

  -- The write of the confirmed record, and what comes after it.
  abbrev pub persist_confirmed : VerifyResponse → PaymentRecord → PaymentExec PaymentRecord
  persist_confirmed response fired = do
    let confirmed = record fired { transaction_id = response.transaction_id }
    write database_failed (λ rows. record rows {
      payments =
          update_payment confirmed.payment_record_id
            (λ row. record row {
              status = confirmed.status;
              transaction_id = response.transaction_id;
            })
            rows.payments;
    })
    spawn_advance confirmed confirmed.order_id
    write_audit confirmed.payment_record_id none (some awaiting_confirm) confirmed.status
    pure confirmed

  -- From the second transition on.
  unfoldable pub confirm_payment : VerifyResponse → PaymentRecord → PaymentExec PaymentRecord
  unfolding fire_payment_fsm
  confirm_payment response r = do
    fired ← (λ db. (fire_payment_fsm G draws received [] r, db))
    persist_confirmed response fired

  -- What the provider answered.
  abbrev pub settle : Result String VerifyResponse → PaymentRecord → PaymentExec PaymentRecord
  settle (err e) r = fail_payment G draws (Text.◌++◌ "VerifyPayment error: " e) r
  settle (ok response) r =
      if response.success
      then confirm_payment response r
      else fail_payment G draws
          (Text.◌++◌ "Fonepay verification failed (status: " (Text.◌++◌ response.status ")")) r

  abbrev pub verify :
      Result String (Dict String (List String)) → PaymentRecord → PaymentExec PaymentRecord
  verify (err e) r = fail_payment G draws (Text.◌++◌ "invalid callback params: " e) r
  verify (ok params) r = settle (G.verify_payment (first_values params)) r

  -- The write of the scanned record, and what comes after it.
  abbrev pub persist_scanned : String → PaymentRecord → PaymentExec PaymentRecord
  persist_scanned encoded_params fired = do
    let scanned = record fired { encoded_params = encoded_params }
    write database_failed (λ rows. record rows {
      payments =
          update_payment scanned.payment_record_id
            (λ row. record row { status = scanned.status; encoded_params = encoded_params })
            rows.payments;
    })
    verify (G.parse_query encoded_params) scanned

  -- From the first transition on.
  unfoldable pub process_callback : String → PaymentRecord → PaymentExec PaymentRecord
  unfolding fire_payment_fsm confirm_payment fail_payment
  process_callback encoded_params r = do
    fired ← (λ db. (fire_payment_fsm G draws qr_scanned [] r, db))
    persist_scanned encoded_params fired

  -- The two guards: a record that is not pending is returned as it is.
  unfoldable pub guard_callback : String → PaymentRecord → PaymentExec PaymentRecord
  unfolding process_callback is_qr_expired
  guard_callback encoded_params r = elim (payment_state_eq.beq r.status pending_qr) [
    | false ↦ pure r
    | true ↦ elim (is_qr_expired draws.now r) [
      | true ↦ fail_payment G draws "QR code expired before callback received" r
      | false ↦ process_callback encoded_params r
    ]
  ]

  -- `has_provider` is that the service has a provider.
  unfoldable pub handle_fonepay_callback : Bool → String → String → PaymentExec PaymentRecord
  unfolding guard_callback
  handle_fonepay_callback has_provider verify_token encoded_params = do
    unless has_provider not_fonepay
    r ←
        first_of invalid_verify_token database_failed
          (λ rows. find_by_token verify_token rows.payments)
    guard_callback encoded_params r

  -- `WHERE status = ? AND qr_expires_at < ?`
  abbrev pub stale : List PaymentRecord → List PaymentRecord
  stale [] = []
  stale (r ∷ records) =
      if payment_state_eq.beq r.status pending_qr && is_after draws.now r.qr_expires_at
      then r ∷ stale records
      else stale records

  -- The loop over the rows that the query gave; an error of one does not stop it.
  unfoldable pub fail_each : List PaymentRecord → PaymentExec (Unit {0})
  unfolding fail_payment
  fail_each [] db = (ok tt, db)
  fail_each (r ∷ records) db =
      let (result, db') = fail_payment G draws "QR code expired" r db in fail_each records db'

  unfoldable pub expire_stale_qrs : PaymentExec (Unit {0})
  unfolding fail_each
  expire_stale_qrs = do found ← query database_failed (λ rows. stale rows.payments); fail_each found

  abbrev pub find_order : Uuid → Uuid → List OrderRow → Option OrderRow
  find_order order_id tenant_id [] = none
  find_order order_id tenant_id (o ∷ orders) =
      if o.order_id == order_id && o.tenant_id == tenant_id
      then some o
      else find_order order_id tenant_id orders

  -- `WHERE order_id = ?`, the status column.
  abbrev pub update_order : Uuid → Order → List OrderRow → List OrderRow
  update_order order_id order [] = []
  update_order order_id order (o ∷ orders) =
      (if o.order_id == order_id
        then record o { order = record o.order { status = order.status } }
        else o)
      ∷ update_order order_id order orders

  abbrev pub serve_order : Uuid → Option (Option OrderRow) → PaymentExec (Unit {0})
  serve_order order_id none = pure tt
  serve_order order_id (some none) = pure tt
  serve_order order_id (some (some row)) =
      let env : EventEnvelope order_sig = new_envelope draws.envelope_id draws.now serve none in
      let (failure, machine) =
        send draws.now draws.elapsed env (restore order_fsm row.order row.order.status) in
      elim failure [
        | some e ↦ pure tt
        | none ↦ (λ db. (
          ok tt,
          (write database_failed
              (λ rows. record rows { orders = update_order order_id machine.obj rows.orders })
              db).1,
        ))
      ]

  -- The goroutine, at the time it runs.
  unfoldable pub try_advance_order_to_served : Uuid → Uuid → PaymentExec (Unit {0})
  unfolding send restore new_envelope order_fsm
  try_advance_order_to_served tenant_id order_id = do
    found ← query? (λ rows. find_order order_id tenant_id rows.orders)
    serve_order order_id found
