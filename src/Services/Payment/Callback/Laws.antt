-- ===== src/Services/Payment/Callback/Laws.antt =====
-- When a callback confirms a payment: backend/services/business/Payment.go,
-- `HandleFonepayCallback`.
use rems.Prelude.{
  String, Bool, true, false, ◌≡◌, refl, ap, sym, ◌∙◌, ◌⊎◌, inl, inr, some, List, [], arith,
  if◌then◌else◌, Bool-cases,
}
use rems.Prelude.Dict.{Dict}
use Prim.Native.String as Text
use rems.Domain.Payment.{
  PaymentState, pending_qr, confirmed, failed, received, qr_scanned, payment_state_eq,
}
use rems.Services.Exec.{
  Result, ok, err, Db, next_fails, continue, write, unless, first_of, first_of-ok,
}
use rems.Services.Exec.Laws.{continue-ok, unless-ok}
use rems.Services.Payment.Types.{
  PaymentExec, database_failed, invalid_verify_token, not_fonepay, update_payment, PaymentRecord,
  PaymentError, PaymentRows, Gateway, VerifyResponse, Draws,
}
use rems.Services.Payment.Fire.{fire_payment_fsm, fail_payment}
use rems.Services.Payment.Fire.Laws.{fail_payment-ok}
use rems.Services.Payment.Callback.{
  is_qr_expired, find_by_token, first_values, confirm_payment, persist_confirmed, persist_scanned,
  settle, verify, process_callback, guard_callback, handle_fonepay_callback,
}

failed≢confirmed : ◌≡◌ {A = PaymentState} failed confirmed → ⊥
failed≢confirmed h = cc h

-- The reason that a rejected verification gives.
abbrev rejection : VerifyResponse → String
rejection response =
    Text.◌++◌ "Fonepay verification failed (status: " (Text.◌++◌ response.status ")")

module _ (G : Gateway) (draws : Draws) where
  -- The provider verified the parameters of the callback, with this transaction.
  abbrev pub Verified : String → PaymentRecord → Type 0
  Verified encoded_params r =
      (params : Dict String (List String)) × (response : VerifyResponse) × (G.parse_query
          encoded_params
        ≡ ok params)
      × (G.verify_payment (first_values params) ≡ ok response)
      × (response.success ≡ true)
      × (r.transaction_id ≡ response.transaction_id)

  persist_confirmed-ok :
      (response : VerifyResponse) (r : PaymentRecord) (db : Db PaymentRows) {r' : PaymentRecord}
      → (persist_confirmed G draws response r db).0 ≡ ok r'
      → r'.transaction_id ≡ response.transaction_id
  persist_confirmed-ok response r db h = ground arith

  confirm_payment-ok :
      (response : VerifyResponse) (r : PaymentRecord) (db : Db PaymentRows) {r' : PaymentRecord}
      → (confirm_payment G draws response r db).0 ≡ ok r'
      → r'.transaction_id ≡ response.transaction_id
  unfolding confirm_payment
  confirm_payment-ok response r db h =
      let (fired, e, h') =
        continue-ok (fire_payment_fsm G draws received [] r) (persist_confirmed G draws response) db
          h in
      persist_confirmed-ok response fired db h'

  failed-not_confirmed :
      (reason : String) (r : PaymentRecord) (db : Db PaymentRows) {r' : PaymentRecord}
      → (fail_payment G draws reason r db).0 ≡ ok r'
      → ¬ (r'.status ≡ confirmed)
  failed-not_confirmed reason r db h paid =
      failed≢confirmed (sym (ap (λ x. x.status) (fail_payment-ok G draws reason r db h)) ∙ paid)

  settle-ok :
      (result : Result String VerifyResponse) (r : PaymentRecord) (db : Db PaymentRows)
      {r' : PaymentRecord}
      → (settle G draws result r db).0 ≡ ok r'
      → r'.status ≡ confirmed
      → (response : VerifyResponse) × (result ≡ ok response)
        × (response.success ≡ true)
        × (r'.transaction_id ≡ response.transaction_id)
  settle-ok (err e) r db h paid = absurd (failed-not_confirmed _ r db h paid)
  settle-ok (ok response) r db {r' = r'} h paid =
      let chosen : (b : Bool)
          → response.success ≡ b
          → (settle G draws (ok response) r db).0
            ≡ ((if b
                  then confirm_payment G draws response r
                  else fail_payment G draws (rejection response) r)
                db).0 =
        λ b e.
          ap
            (λ b.
              ((if b
                  then confirm_payment G draws response r
                  else fail_payment G draws (rejection response) r)
                db).0)
            e in
      elim (Bool-cases response.success) [
        | inl success ↦ (
          response,
          refl,
          success,
          confirm_payment-ok response r db {r' = r'} (sym (chosen true success) ∙ h),
        )
        | inr failure ↦ absurd (
            failed-not_confirmed (rejection response) r db {r' = r'}
              (sym (chosen false failure) ∙ h) paid)
      ]

  verify-ok :
      (result : Result String (Dict String (List String))) (r : PaymentRecord) (db : Db PaymentRows)
      {r' : PaymentRecord}
      → (verify G draws result r db).0 ≡ ok r'
      → r'.status ≡ confirmed
      → (params : Dict String (List String)) × (response : VerifyResponse) × (result ≡ ok params)
        × (G.verify_payment (first_values params) ≡ ok response)
        × (response.success ≡ true)
        × (r'.transaction_id ≡ response.transaction_id)
  verify-ok (err e) r db h paid = absurd (failed-not_confirmed _ r db h paid)
  verify-ok (ok params) r db h paid =
      let (response, e, success, same) =
        settle-ok (G.verify_payment (first_values params)) r db h paid in
      (params, response, refl, e, success, same)

  persist_scanned-ok :
      (encoded_params : String) (r : PaymentRecord) (db : Db PaymentRows) {r' : PaymentRecord}
      → (persist_scanned G draws encoded_params r db).0 ≡ ok r'
      → r'.status ≡ confirmed
      → Verified encoded_params r'
  persist_scanned-ok encoded_params r db h paid =
      let scanned : PaymentRecord = record r { encoded_params = encoded_params } in
      let stored : PaymentExec (Unit {0}) = write database_failed (λ rows. record rows {
        payments =
            update_payment scanned.payment_record_id
              (λ row. record row { status = scanned.status; encoded_params = encoded_params })
              rows.payments;
      }) in
      let (done, e, h') =
        continue-ok (stored db).0 (λ u. verify G draws (G.parse_query encoded_params) scanned)
          (stored db).1 h in
      verify-ok (G.parse_query encoded_params) scanned (stored db).1 h' paid

  process_callback-ok :
      (encoded_params : String) (r : PaymentRecord) (db : Db PaymentRows) {r' : PaymentRecord}
      → (process_callback G draws encoded_params r db).0 ≡ ok r'
      → r'.status ≡ confirmed
      → Verified encoded_params r'
  unfolding process_callback
  process_callback-ok encoded_params r db h paid =
      let (fired, e, h') =
        continue-ok (fire_payment_fsm G draws qr_scanned [] r)
          (persist_scanned G draws encoded_params) db h in
      persist_scanned-ok encoded_params fired db h' paid

  guard_callback-ok :
      (encoded_params : String) (r : PaymentRecord) (db : Db PaymentRows) {r' : PaymentRecord}
      → (guard_callback G draws encoded_params r db).0 ≡ ok r'
      → r'.status ≡ confirmed
      → (r' ≡ r)
        ⊎ ((r.status ≡ pending_qr)
            × (is_qr_expired draws.now r ≡ false)
            × Verified encoded_params r')
  unfolding guard_callback
  guard_callback-ok encoded_params r db {r' = r'} h paid =
      let pending = payment_state_eq.beq r.status pending_qr in
      elim (Bool-cases pending) [
        | inr other ↦ inl (ground arith)
        | inl same ↦ elim (Bool-cases (is_qr_expired draws.now r)) [
          | inl late ↦ absurd (
              failed-not_confirmed "QR code expired before callback received" r db {r' = r'}
                (ground arith) paid)
          | inr live ↦ inr (
            (payment_state_eq.beq_iff r.status pending_qr).0 same,
            live,
            process_callback-ok encoded_params r db {r' = r'} (ground arith) paid,
          )
        ]
      ]

  -- A callback that returns a confirmed payment found it by the verify token. Either it was confirmed
  -- before and is returned as stored, or it was pending, its code had not expired, and the provider
  -- verified the parameters of the callback, with the transaction that the payment now has.
  pub handle_fonepay_callback-Verified :
      (has_provider : Bool) (verify_token encoded_params : String) (db : Db PaymentRows)
      (r' : PaymentRecord)
      → (handle_fonepay_callback G draws has_provider verify_token encoded_params db).0 ≡ ok r'
      → r'.status ≡ confirmed
      → (r : PaymentRecord) × (find_by_token verify_token db.rows.payments ≡ some r)
        × ((r' ≡ r)
            ⊎ ((r.status ≡ pending_qr)
                × (is_qr_expired draws.now r ≡ false)
                × Verified encoded_params r'))
  unfolding handle_fonepay_callback
  handle_fonepay_callback-Verified has_provider verify_token encoded_params db r' h paid =
      let find : PaymentExec PaymentRecord =
        first_of invalid_verify_token database_failed
          (λ rows. find_by_token verify_token rows.payments) in
      let find_it : Unit {0} → PaymentExec PaymentRecord =
        λ u d. continue (find d).0 (guard_callback G draws encoded_params) (find d).1 in
      let checked : Result PaymentError (Unit {0}) × Db PaymentRows =
        unless has_provider not_fonepay db in
      let (u, e, h1) = continue-ok checked.0 find_it checked.1 h in
      let same = (unless-ok has_provider not_fonepay db e).1 in
      let found = find checked.1 in
      let (r, e', h2) = continue-ok found.0 (guard_callback G draws encoded_params) found.1 h1 in
      (
        r,
        ap (λ d. find_by_token verify_token d.rows.payments) (sym same)
            ∙ first_of-ok invalid_verify_token database_failed (next_fails checked.1.faults) _ e',
        guard_callback-ok encoded_params r found.1 h2 paid,
      )
