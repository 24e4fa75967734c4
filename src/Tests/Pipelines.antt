-- ===== src/Tests/Pipelines.antt =====
-- The scan of a payment: backend/utils/FSM.go.
use rems.Prelude.{◌≡◌, refl, none, [], ◌∷◌, some}
use rems.Prelude.Int.{pos}
use rems.Fsm.Types.{Signature, EventEnvelope, TransitionRecord, TransitionDef}
use rems.Fsm.Machine.{send, restore, Machine, transition_for}
use rems.Fsm.Machine.History.{Run, start, moved}
use rems.Fsm.Machine.Send.{completed}
use rems.Domain.Payment.{Payment, PaymentState, PaymentEvent, payment_sig, payment_fsm, set_status}
use rems.Domain.Payment.Runs.{Evidence, Run-Evidence}

abbrev event_of : {σ : Signature} → σ.Event → EventEnvelope σ
event_of e = record {
  id = "env-3";
  event = e;
  payload = none;
  actor_id = 7;
  tenant_id = 9;
  occurred_at = 100;
  metadata = [];
}

abbrev new_payment : Payment
new_payment = record {
  payment_id = "q-2";
  status = PaymentState.pending_qr;
  amount = pos 900;
  failure_reason = "";
}

unfoldable qr_machine : Machine payment_sig
unfolding restore payment_fsm
qr_machine = restore payment_fsm new_payment PaymentState.pending_qr

abbrev scan_def : TransitionDef payment_sig
scan_def = record {
  from = PaymentState.pending_qr;
  event = PaymentEvent.qr_scanned;
  to = PaymentState.awaiting_confirm;
  guards = [];
  effects = set_status PaymentState.awaiting_confirm ∷ [];
  before_exit = [];
  before_enter = [];
  after_exit = [];
  after_enter = [];
  description = "Fonepay callback received — verifying";
}

scan_accepted : (send 100 3 (event_of PaymentEvent.qr_scanned) qr_machine).0 ≡ none
unfolding send qr_machine set_status
scan_accepted = refl

scan_found : transition_for qr_machine PaymentEvent.qr_scanned ≡ some scan_def
unfolding qr_machine
scan_found = refl

abbrev scan_record : TransitionRecord payment_sig
scan_record = completed 100 3 (event_of PaymentEvent.qr_scanned) qr_machine scan_def

scanned :
    Run
      (restore payment_fsm new_payment PaymentState.pending_qr)
      (send 100 3 (event_of PaymentEvent.qr_scanned) qr_machine).1
      (scan_record ∷ [])
unfolding qr_machine
scanned =
    moved 100 3 (event_of PaymentEvent.qr_scanned) scan_def start scan_accepted scan_found refl refl

Run-Evidence_example :
    let m = (send 100 3 (event_of PaymentEvent.qr_scanned) qr_machine).1 in
    (m.obj.payment_id ≡ "q-2") × (m.obj.amount ≡ pos 900) × Evidence m.current (scan_record ∷ [])
Run-Evidence_example = Run-Evidence new_payment scanned
