-- ===== src/Services/Payment/Fire/Laws.antt =====
-- What `firePaymentFSM` and `failPayment` of backend/services/business/Payment.go do to a record.
use rems.Prelude.{
  Bool-cases, String, true, false, ◌≡◌, refl, ap, sym, ◌∙◌, ◌⊎◌, inl, inr, Option, none, some, List,
  [], ◌∷◌, arith, ◌==◌,
}
use mathlib.Core.Path.{subst}
use rems.Prelude.Dict.{Dict}
use rems.Fsm.Types.{Uuid, EventEnvelope, FsmError}
use rems.Fsm.Envelope.{new_envelope, with_all_meta, with_meta}
use rems.Fsm.Machine.{Machine, restore, send}
use rems.Fsm.Machine.Conforms.{Conforms, resting}
use rems.Domain.Payment.{
  PaymentState, PaymentEvent, pending_qr, awaiting_confirm, confirmed, failed, refunded, qr_scanned,
  received, fail, refund, payment_sig, payment_fsm,
}
use rems.Domain.Payment.Graph.{
  PaymentStep, scanning, verifying, rejecting, failing, refunding, PaymentGuard, reason_after,
  payment_send,
}
use rems.Services.Exec.Laws.{continue-ok}
use rems.Services.Exec.{Result, ok, err, Db, next_fails, continue, write}
use rems.Services.Payment.Types.{
  PaymentRecord, PaymentError, PaymentRows, Gateway, Draws, invalid_fsm_event, update_payment,
}
use rems.Services.Payment.Fire.{
  to_payment, from_payment, fire_payment_fsm, persist_failure, fail_payment,
}

-- The records with this identifier have this status.
abbrev pub AllHave : Uuid → PaymentState → List PaymentRecord → Type 0
AllHave id s [] = Unit
AllHave id s (r ∷ records) =
    ((r.payment_record_id == id) ≡ true → r.status ≡ s) × AllHave id s records

update_payment-AllHave :
    (id : Uuid) (s : PaymentState) (reason : String) (records : List PaymentRecord)
    → AllHave id s
        (update_payment id (λ row. record row { status = s; failure_reason = reason }) records)
update_payment-AllHave id s reason [] = tt
update_payment-AllHave id s reason (r ∷ records) =
    ground (arith, update_payment-AllHave id s reason records)

module _ (G : Gateway) (draws : Draws) where
  abbrev answer :
      PaymentRecord
      → Option (FsmError payment_sig) × Machine payment_sig
      → Result PaymentError PaymentRecord
  answer r out = elim (out.0) [
    | some e ↦ err invalid_fsm_event
    | none ↦ ok (from_payment G draws r out.1.obj)
  ]

  -- The record took a step of the diagram that its guard allows, or there is none.
  abbrev pub Fired :
      PaymentEvent → Dict String String → PaymentRecord → Result PaymentError PaymentRecord → Type 0
  Fired event meta r result =
      ((t : PaymentState) × PaymentStep r.status event t
        × PaymentGuard event meta
        × (result
            ≡ ok (record r {
              status = t;
              failure_reason = reason_after event meta (to_payment G draws r);
            })))
      ⊎ ((result ≡ err invalid_fsm_event)
          × ¬ ((t : PaymentState) × PaymentStep r.status event t × PaymentGuard event meta))

  answer-Fired :
      (env : EventEnvelope payment_sig) (r : PaymentRecord)
      (out : Option (FsmError payment_sig) × Machine payment_sig)
      → Conforms PaymentStep
          (PaymentGuard env.event env.metadata)
          (λ t. record (to_payment G draws r) {
            status = t;
            failure_reason = reason_after env.event env.metadata (to_payment G draws r);
          })
          (resting payment_fsm (to_payment G draws r) r.status [] 0)
          env.event
          out
      → Fired env.event env.metadata r (answer r out)
  answer-Fired env r (none, m) (step, guard, same) =
      inl (m.current, step, guard, ap (λ p. ok (from_payment G draws r p)) same)
  answer-Fired env r (some e, m) (same, blocked) = inr (refl, blocked)

  sent-Fired :
      (env : EventEnvelope payment_sig) (r : PaymentRecord)
      → Fired env.event env.metadata r (
          answer r (
            send draws.now draws.elapsed env (restore payment_fsm (to_payment G draws r) r.status)))
  unfolding restore
  sent-Fired env r =
      answer-Fired env r _
        (payment_send draws.now draws.elapsed env (to_payment G draws r) r.status [] 0)

  fire-plain :
      (event : PaymentEvent) (r : PaymentRecord)
      → Fired event [] r (fire_payment_fsm G draws event [] r)
  unfolding fire_payment_fsm new_envelope with_all_meta
  fire-plain event r = sent-Fired (new_envelope draws.envelope_id draws.now event none) r

  fire-with :
      (event : PaymentEvent) (key value : String) (r : PaymentRecord)
      → Fired event ((key, value) ∷ []) r (fire_payment_fsm G draws event ((key, value) ∷ []) r)
  unfolding fire_payment_fsm new_envelope with_all_meta with_meta
  fire-with event key value r =
      sent-Fired
        (with_all_meta ((key, value) ∷ []) (new_envelope draws.envelope_id draws.now event none)) r

step-scanned :
    {s t : PaymentState} → PaymentStep s qr_scanned t → (s ≡ pending_qr) × (t ≡ awaiting_confirm)
step-scanned scanning = (refl, refl)

step-received :
    {s t : PaymentState} → PaymentStep s received t → (s ≡ awaiting_confirm) × (t ≡ confirmed)
step-received verifying = (refl, refl)

step-refund : {s t : PaymentState} → PaymentStep s refund t → (s ≡ confirmed) × (t ≡ refunded)
step-refund refunding = (refl, refl)

step-fail :
    {s t : PaymentState}
    → PaymentStep s fail t
    → ((s ≡ pending_qr) ⊎ (s ≡ awaiting_confirm)) × (t ≡ failed)
step-fail rejecting = (inr refl, refl)
step-fail failing = (inl refl, refl)

module _ (G : Gateway) (draws : Draws) where
  -- An event that succeeds takes the one step of the diagram.
  Fired-ok :
      (event : PaymentEvent) (meta : Dict String String) (r : PaymentRecord)
      (result : Result PaymentError PaymentRecord) {r' : PaymentRecord}
      → Fired G draws event meta r result
      → result ≡ ok r'
      → (t : PaymentState) × PaymentStep r.status event t
        × (r' ≡ record r {
          status = t;
          failure_reason = reason_after event meta (to_payment G draws r);
        })
  Fired-ok event meta r result (inl (t, step, guard, e)) h = (t, step, cc (e, h))
  Fired-ok event meta r result (inr (e, blocked)) h = cc (e, h)

  pub fire-refund :
      (r : PaymentRecord) {r' : PaymentRecord}
      → fire_payment_fsm G draws refund (("manager_approved", "true") ∷ []) r ≡ ok r'
      → (r.status ≡ confirmed) × (r' ≡ record r { status = refunded })
  fire-refund r h =
      let (t, step, same) =
        Fired-ok refund (("manager_approved", "true") ∷ []) r _
          (fire-with G draws refund "manager_approved" "true" r) h in
      let (from, to) = step-refund step in (from, same ∙ ap (λ s. record r { status = s }) to)

  pub fire-fail :
      (r : PaymentRecord) (reason : String) {r' : PaymentRecord}
      → fire_payment_fsm G draws fail (("failure_reason", reason) ∷ []) r ≡ ok r'
      → ((r.status ≡ pending_qr) ⊎ (r.status ≡ awaiting_confirm))
        × (r' ≡ record r { status = failed; failure_reason = reason })
  fire-fail r reason h =
      let (t, step, same) =
        Fired-ok fail (("failure_reason", reason) ∷ []) r _
          (fire-with G draws fail "failure_reason" reason r) h in
      let (from, to) = step-fail step in
      (from, same ∙ ap (λ s. record r { status = s; failure_reason = reason }) to)

  PaymentStep-fail :
      (s : PaymentState) → (s ≡ pending_qr) ⊎ (s ≡ awaiting_confirm) → PaymentStep s fail failed
  PaymentStep-fail s (inl e) = rw e failing
  PaymentStep-fail s (inr e) = rw e rejecting

  pub fire-fail-ok :
      (r : PaymentRecord) (reason : String)
      → (r.status ≡ pending_qr) ⊎ (r.status ≡ awaiting_confirm)
      → fire_payment_fsm G draws fail (("failure_reason", reason) ∷ []) r
        ≡ ok (record r { status = failed; failure_reason = reason })
  fire-fail-ok r reason from = elim (fire-with G draws fail "failure_reason" reason r) [
    | inl (t, step, guard, e) ↦
        e ∙ ap (λ s. ok (record r { status = s; failure_reason = reason })) (step-fail step).1
    | inr (e, blocked) ↦ absurd (blocked (failed, PaymentStep-fail r.status from, tt))
  ]

  -- `failPayment` of a record that was read as pending or awaiting confirmation, where the write
  -- succeeds, marks every stored record with its identifier as failed, whatever its status has become
  -- since it was read.
  pub fail_payment-AllHave :
      (reason : String) (r : PaymentRecord) (db : Db PaymentRows)
      → (r.status ≡ pending_qr) ⊎ (r.status ≡ awaiting_confirm)
      → next_fails db.faults ≡ false
      → ((fail_payment G draws reason r db).0
          ≡ ok (record r { status = failed; failure_reason = reason }))
        × AllHave r.payment_record_id failed (fail_payment G draws reason r db).1.rows.payments
  unfolding fail_payment
  fail_payment-AllHave reason r db from good =
      let fired = fire-fail-ok r reason from in
      let all = update_payment-AllHave r.payment_record_id failed reason db.rows.payments in
      let persist = λ (fired' : PaymentRecord). persist_failure G draws reason fired' in
      let r' : PaymentRecord = record r { status = failed; failure_reason = reason } in
      subst (λ out. (out.0 ≡ ok r') × AllHave r.payment_record_id failed out.1.rows.payments)
        (sym (ap (λ result. continue result persist db) fired)) (rw (good, write) (refl, all))

  persist_failure-ok :
      (reason : String) (r : PaymentRecord) (db : Db PaymentRows) {r' : PaymentRecord}
      → (persist_failure G draws reason r db).0 ≡ ok r'
      → r' ≡ r
  persist_failure-ok reason r db h = elim (Bool-cases (next_fails db.faults)) [
    | inl bad ↦ absurd (ground arith)
    | inr good ↦ ground arith
  ]

  pub fail_payment-ok :
      (reason : String) (r : PaymentRecord) (db : Db PaymentRows) {r' : PaymentRecord}
      → (fail_payment G draws reason r db).0 ≡ ok r'
      → r' ≡ record r { status = failed; failure_reason = reason }
  unfolding fail_payment
  fail_payment-ok reason r db h =
      let (fired, e, h') =
        continue-ok (fire_payment_fsm G draws fail (("failure_reason", reason) ∷ []) r)
          (persist_failure G draws reason) db h in
      persist_failure-ok reason fired db h' ∙ (fire-fail r reason e).1
