-- ===== src/Services/Payment/Settle/Laws.antt =====
-- What `RefundPayment` of backend/services/business/Payment.go promises.
use rems.Prelude.{String, Bool, true, ◌≡◌, ap, sym, ◌∙◌, some, List, [], ◌∷◌, arith, ◌==◌}
use rems.Fsm.Types.{Uuid}
use rems.Domain.Payment.{confirmed, refunded, refund}
use rems.Services.Exec.{Result, ok, Db, next_fails, continue, unless, first_of-ok}
use rems.Services.Exec.Laws.{continue-ok, unless-ok}
use rems.Services.Payment.Types.{
  PaymentRecord, PaymentError, PaymentRows, PaymentExec, Gateway, Draws, update_payment,
  payment_not_found, database_failed, tenant_mismatch, refund_not_approved, access_denied,
}
use rems.Services.Payment.Fire.{fire_payment_fsm}
use rems.Services.Payment.Fire.Laws.{fire-refund}
use rems.Services.Payment.Qr.{find_payment, get_payment_for_write}
use rems.Services.Payment.Settle.{RefundInput, refund_loaded, persist_refund, refund_payment}

module _ (G : Gateway) (draws : Draws) (may : Uuid → Uuid → String → Bool) where
  persist_refund-ok :
      (input : RefundInput) (fired : PaymentRecord) (db : Db PaymentRows) {r' : PaymentRecord}
      → (persist_refund G draws may input fired db).0 ≡ ok r'
      → (r' ≡ fired)
        × ((persist_refund G draws may input fired db).1.rows.payments
            ≡ update_payment fired.payment_record_id
                (λ row. record row { status = fired.status })
                db.rows.payments)
  persist_refund-ok input fired db h = ground arith

  -- What a refund of the stored record does.
  abbrev pub Refunded :
      RefundInput → PaymentRecord → List PaymentRecord → List PaymentRecord → PaymentRecord → Type 0
  Refunded input r before after r' =
      ((r.restaurant_id == input.request.restaurant_id) ≡ true)
      × (r.status ≡ confirmed)
      × (r' ≡ record r { status = refunded })
      × (after
          ≡ update_payment r.payment_record_id (λ row. record row { status = refunded }) before)

  refund_loaded-ok :
      (input : RefundInput) (r : PaymentRecord) (db : Db PaymentRows) {r' : PaymentRecord}
      → (refund_loaded G draws may input r db).0 ≡ ok r'
      → Refunded input r db.rows.payments (refund_loaded G draws may input r db).1.rows.payments r'
  unfolding refund_loaded
  refund_loaded-ok input r db {r' = r'} h =
      let same = r.restaurant_id == input.request.restaurant_id in
      let passed : Result PaymentError (Unit {0}) × Db PaymentRows =
        unless same tenant_mismatch db in
      let fire = fire_payment_fsm G draws refund (("manager_approved", "true") ∷ []) r in
      let fire_it : Unit {0} → PaymentExec PaymentRecord =
        λ u db. continue fire (persist_refund G draws may input) db in
      let (done, e1, h1) = continue-ok passed.0 fire_it passed.1 h in
      let (here, unchanged) = unless-ok same tenant_mismatch db e1 in
      let (fired, e2, h2) = continue-ok fire (persist_refund G draws may input) passed.1 h1 in
      let (was, now_is) = fire-refund G draws r e2 in
      let (returned, stored) = persist_refund-ok input fired passed.1 h2 in
      let there : (refund_loaded G draws may input r db).1
          ≡ (persist_refund G draws may input fired passed.1).1 =
        ap (λ x. (continue x fire_it passed.1).1) e1
        ∙ ap (λ x. (continue x (persist_refund G draws may input) passed.1).1) e2 in
      (
        here,
        was,
        returned ∙ now_is,
        ap (λ d. d.rows.payments) there ∙ stored ∙ (λ i.
            update_payment (now_is i).payment_record_id
              (λ row. record row { status = (now_is i).status }) (unchanged i).rows.payments),
      )

  -- A refund that succeeds was allowed by the authorizer and approved by a manager, and found, under its
  -- identifier and tenant, a confirmed payment of the caller's restaurant. It returns that payment as
  -- refunded, and marks the stored payment so, and no other.
  pub refund_payment-Refunded :
      (input : RefundInput) (db : Db PaymentRows) (r' : PaymentRecord)
      → (refund_payment G draws may input db).0 ≡ ok r'
      → (may input.request.actor_id input.request.tenant_id "update" ≡ true)
        × (input.manager_approved ≡ true)
        × ((r : PaymentRecord) × (find_payment input.payment_record_id input.request.tenant_id
                db.rows.payments
              ≡ some r)
            × Refunded input r db.rows.payments
                (refund_payment G draws may input db).1.rows.payments
                r')
  unfolding refund_payment get_payment_for_write
  refund_payment-Refunded input db r' h =
      let allowed = may input.request.actor_id input.request.tenant_id "update" in
      let load = get_payment_for_write input.request.tenant_id input.payment_record_id in
      let loaded : Unit {0} → PaymentExec PaymentRecord =
        λ u d. continue (load d).0 (refund_loaded G draws may input) (load d).1 in
      let approve : Unit {0} → PaymentExec PaymentRecord = λ u d.
        continue (unless input.manager_approved refund_not_approved d).0 loaded
          (unless input.manager_approved refund_not_approved d).1 in
      let s1 : Result PaymentError (Unit {0}) × Db PaymentRows = unless allowed access_denied db in
      let (u1, e1, h1) = continue-ok s1.0 approve s1.1 h in
      let (a, same1) = unless-ok allowed access_denied db e1 in
      let s2 : Result PaymentError (Unit {0}) × Db PaymentRows =
        unless input.manager_approved refund_not_approved s1.1 in
      let (u2, e2, h2) = continue-ok s2.0 loaded s2.1 h1 in
      let (b, same2) = unless-ok input.manager_approved refund_not_approved s1.1 e2 in
      let s3 = load s2.1 in
      let (r, e3, h3) = continue-ok s3.0 (refund_loaded G draws may input) s3.1 h2 in
      let start = same2 ∙ same1 in
      let found =
        first_of-ok payment_not_found database_failed (next_fails s2.1.faults)
          (find_payment input.payment_record_id input.request.tenant_id s2.1.rows.payments) e3 in
      let there : (refund_payment G draws may input db).1
          ≡ (refund_loaded G draws may input r s3.1).1 =
        ap (λ x. (continue x approve s1.1).1) e1
        ∙ ap (λ x. (continue x loaded s2.1).1) e2
        ∙ ap (λ x. (continue x (refund_loaded G draws may input) s3.1).1) e3 in
      let (same_place, was, now_is, stored) = refund_loaded-ok input r s3.1 h3 in
      (
        a,
        b,
        (
          r,
          ap (λ d. find_payment input.payment_record_id input.request.tenant_id d.rows.payments)
                (sym start)
              ∙ found,
          (
            same_place,
            was,
            now_is,
            ap (λ d. d.rows.payments) there
                ∙ stored
                ∙ ap
                    (λ d.
                      update_payment r.payment_record_id (λ row. record row { status = refunded })
                        d.rows.payments)
                    start,
          ),
        ),
      )
