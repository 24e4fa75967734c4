-- ===== src/Services/Payment/Fire.antt =====
-- The payment machine in the service: backend/services/business/Payment.go, `firePaymentFSM` and
-- `failPayment`.
pub mod Laws
use rems.Prelude.{ℕ, String, Option, none, some, List, [], ◌∷◌}
use rems.Prelude.Dict.{Dict}
use rems.Fsm.Types.{EventEnvelope}
use rems.Fsm.Envelope.{new_envelope, with_all_meta}
use rems.Fsm.Machine.{restore, send}
use rems.Domain.Payment.{Payment, PaymentEvent, fail, payment_sig, payment_fsm}
use rems.Services.Exec.{Result, ok, err, Exec, ◌>>=◌, ◌>>◌, pure, write}
use rems.Services.Payment.Types.{
  PaymentRecord, PaymentError, invalid_fsm_event, database_failed, PaymentRows, PaymentExec,
  Gateway, Draws, update_payment,
}

module _ (G : Gateway) (draws : Draws) where
  -- The adapter's view of a record.
  abbrev pub to_payment : PaymentRecord → Payment
  to_payment r = record {
    payment_id = G.uuid_text r.payment_record_id;
    status = r.status;
    amount = r.amount;
    failure_reason = r.failure_reason;
  }

  -- What the machine wrote through the adapter.
  abbrev pub from_payment : PaymentRecord → Payment → PaymentRecord
  from_payment r p = record r { status = p.status; failure_reason = p.failure_reason }

  unfoldable pub fire_payment_fsm :
      PaymentEvent → Dict String String → PaymentRecord → Result PaymentError PaymentRecord
  unfolding send restore new_envelope with_all_meta payment_fsm
  fire_payment_fsm event meta r =
      let env : EventEnvelope payment_sig =
        with_all_meta meta (new_envelope draws.envelope_id draws.now event none) in
      let (failure, machine) =
        send draws.now draws.elapsed env (restore payment_fsm (to_payment r) r.status) in
      elim failure [ some e ↦ err invalid_fsm_event | none ↦ ok (from_payment r machine.obj) ]

  -- `Updates` of the failed record, by its identifier.
  abbrev pub persist_failure : String → PaymentRecord → PaymentExec PaymentRecord
  persist_failure reason r = do
    write database_failed (λ rows. record rows {
      payments =
          update_payment r.payment_record_id
            (λ row. record row { status = r.status; failure_reason = reason }) rows.payments;
    })
    pure r

  unfoldable pub fail_payment : String → PaymentRecord → PaymentExec PaymentRecord
  unfolding fire_payment_fsm
  fail_payment reason r = do
    fired ← (λ db. (fire_payment_fsm fail (("failure_reason", reason) ∷ []) r, db))
    persist_failure reason fired
