-- ===== src/Services/Payment/Callback/Sweep.antt =====
-- What the sweep of stale codes achieves: backend/services/business/Payment.go, `ExpireStaleQRs`.
use rems.Prelude.{
  String, Bool, true, false, ◌≡◌, ◌≤◌, Option, none, some, refl, ap, sym, inl, List, [], ◌∷◌, arith,
  ◌==◌, ◌&&◌, ◌||◌,
}
use mathlib.Core.Path.{subst}
use rems.Fsm.Types.{Uuid, Time}
use rems.Domain.Payment.{pending_qr, failed, payment_state_eq}
use rems.Services.Exec.{Result, ok, err, Db, next_fails, later, continue}
use rems.Services.Payment.Types.{
  PaymentRecord, PaymentError, database_failed, PaymentRows, Gateway, Draws, update_payment,
}
use rems.Services.Payment.Fire.{persist_failure, fail_payment}
use rems.Services.Payment.Fire.Laws.{fire-fail-ok}
use rems.Services.Payment.Callback.{is_after, stale, fail_each, expire_stale_qrs}

-- A code without an expiry, or one that has not passed.
abbrev pub StillOpen : Time → Option Time → Type 0
StillOpen now none = Unit
StillOpen now (some expires_at) = now ≤ expires_at

-- No pending payment is past its expiry.
abbrev pub NoneExpired : Time → List PaymentRecord → Type 0
NoneExpired now [] = Unit
NoneExpired now (r ∷ records) =
    (r.status ≡ pending_qr → StillOpen now r.qr_expires_at) × NoneExpired now records

is_after-StillOpen : (now : Time) (o : Option Time) → is_after now o ≡ false → StillOpen now o
is_after-StillOpen now none h = tt
is_after-StillOpen now (some t) h = ground arith

abbrev has_id : Uuid → List PaymentRecord → Bool
has_id id [] = false
has_id id (r ∷ records) = r.payment_record_id == id || has_id id records

abbrev AllPending : List PaymentRecord → Type 0
AllPending [] = Unit
AllPending (r ∷ records) = (r.status ≡ pending_qr) × AllPending records

abbrev as_failed : String → PaymentRecord → PaymentRecord
as_failed reason row = record row { status = failed; failure_reason = reason }

module _ (G : Gateway) (draws : Draws) where
  abbrev is_stale : PaymentRecord → Bool
  is_stale r = payment_state_eq.beq r.status pending_qr && is_after draws.now r.qr_expires_at

  -- Each stale payment is still to come.
  abbrev Awaited : List PaymentRecord → List PaymentRecord → Type 0
  Awaited coming [] = Unit
  Awaited coming (r ∷ records) =
      (is_stale r ≡ true → has_id r.payment_record_id coming ≡ true) × Awaited coming records

  Awaited-update_payment :
      (reason : String) (r : PaymentRecord) (coming records : List PaymentRecord)
      → Awaited (r ∷ coming) records
      → Awaited coming (update_payment r.payment_record_id (as_failed reason) records)
  Awaited-update_payment reason r coming [] h = tt
  Awaited-update_payment reason r coming (x ∷ records) h = ground (
    arith,
    Awaited-update_payment reason r coming records h.1,
    payment_state_eq.beq_iff failed pending_qr,
  )

  Awaited-more :
      (r : PaymentRecord) (coming records : List PaymentRecord)
      → Awaited coming records
      → Awaited (r ∷ coming) records
  Awaited-more r coming [] h = tt
  Awaited-more r coming (x ∷ records) h = ground (arith, Awaited-more r coming records h.1)

  Awaited-stale : (records : List PaymentRecord) → Awaited (stale G draws records) records
  Awaited-stale [] = tt
  Awaited-stale (x ∷ records) =
      ground (arith, Awaited-stale records, Awaited-more x (stale G draws records) records)

  stale-nil : (records : List PaymentRecord) → Awaited [] records → stale G draws records ≡ []
  stale-nil [] h = refl
  stale-nil (x ∷ records) h = ground (arith, stale-nil records h.1)

  AllPending-stale : (records : List PaymentRecord) → AllPending (stale G draws records)
  AllPending-stale [] = tt
  AllPending-stale (x ∷ records) =
      ground (arith, AllPending-stale records, payment_state_eq.beq_iff x.status pending_qr)

  fail_payment-pending :
      (reason : String) (r : PaymentRecord) (db : Db PaymentRows)
      → r.status ≡ pending_qr
      → db.faults ≡ []
      → ((fail_payment G draws reason r db).1.rows.payments
          ≡ update_payment r.payment_record_id (as_failed reason) db.rows.payments)
        × ((fail_payment G draws reason r db).1.faults ≡ [])
  unfolding fail_payment
  fail_payment-pending reason r db pending none_fails =
      let persist = λ (fired : PaymentRecord). persist_failure G draws reason fired in
      subst
        (λ out.
          (out.1.rows.payments
            ≡ update_payment r.payment_record_id (as_failed reason) db.rows.payments)
          × (out.1.faults ≡ []))
        (sym
          (ap (λ result. continue result persist db) (fire-fail-ok G draws r reason (inl pending))))
        (ground arith)

  fail_each-Awaited :
      (coming : List PaymentRecord) (db : Db PaymentRows)
      → AllPending coming
      → db.faults ≡ []
      → Awaited coming db.rows.payments
      → stale G draws (fail_each G draws coming db).1.rows.payments ≡ []
  unfolding fail_each
  fail_each-Awaited [] db pending none_fails awaited = stale-nil db.rows.payments awaited
  fail_each-Awaited (r ∷ coming) db pending none_fails awaited =
      let (stored, calm) = fail_payment-pending "QR code expired" r db pending.0 none_fails in
      fail_each-Awaited coming (fail_payment G draws "QR code expired" r db).1 pending.1 calm (
        subst (Awaited coming) (sym stored)
          (Awaited-update_payment "QR code expired" r coming db.rows.payments awaited))

  stale-NoneExpired :
      (records : List PaymentRecord) → stale G draws records ≡ [] → NoneExpired draws.now records
  stale-NoneExpired [] h = tt
  stale-NoneExpired (r ∷ records) h = (
    (λ pending.
        is_after-StillOpen draws.now r.qr_expires_at
          (ground (arith, payment_state_eq.beq_iff r.status pending_qr))),
    stale-NoneExpired records (ground arith),
  )

  no_stale :
      (db : Db PaymentRows)
      → db.faults ≡ []
      → stale G draws (expire_stale_qrs G draws db).1.rows.payments ≡ []
  unfolding expire_stale_qrs
  no_stale db none_fails =
      let good : next_fails db.faults ≡ false = ap next_fails none_fails in
      let after : Db PaymentRows = record db { faults = later db.faults } in
      let swept =
        fail_each-Awaited (stale G draws db.rows.payments) after (AllPending-stale db.rows.payments)
          (ap later none_fails) (Awaited-stale db.rows.payments) in
      let found : (failing : Bool) → Result PaymentError (List PaymentRecord) = λ failing.
        elim failing [ true ↦ err database_failed | false ↦ ok (stale G draws db.rows.payments) ] in
      subst
        (λ failing.
          stale G draws (continue (found failing) (fail_each G draws) after).1.rows.payments ≡ [])
        (sym good) swept

  -- Where no query fails, no pending payment is past its expiry after a sweep.
  pub expire_stale_qrs-NoneExpired :
      (db : Db PaymentRows)
      → db.faults ≡ []
      → NoneExpired draws.now (expire_stale_qrs G draws db).1.rows.payments
  expire_stale_qrs-NoneExpired db none_fails =
      stale-NoneExpired (expire_stale_qrs G draws db).1.rows.payments (no_stale db none_fails)
