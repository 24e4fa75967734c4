-- ===== src/Tests/Sending.antt =====
-- Single events and a run of the order machine: backend/utils/FSM.go, `Send`, `Can`,
-- `appendHistory`.
use rems.Prelude.{◌≡◌, ◌≤◌, ◌⊎◌, ◌↔◌, refl, some, none, true, false, [], ◌∷◌, ◌+◌, length}
use rems.Fsm.Types.{
  TransitionRecord, TransitionDef, FsmError, guard_rejected, new_error, phase_guard,
  transition_error, invalid_transition,
}
use rems.Fsm.Machine.{Machine, u64, append_history, at_terminal, can, restore, send, transition_for}
use rems.Fsm.Machine.History.{Run, start, rejected, moved, latest, Linked, AllEdges, Run-history}
use rems.Fsm.Machine.Steps.{AllPass}
use rems.Fsm.Machine.Send.{
  PastGuards, steps_before, completed, send_error_keeps, send-eq-none, send_ok_moves,
  can-PastGuards,
}
use rems.Domain.Order.{
  pending, confirmed, confirm, refund, order_sig, order_fsm, positive_total, set_status,
}
use rems.Domain.Order.Runs.{IsPaid, Run-IsPaid}
use rems.Tests.Orders.{dinner, order_event, dinner_machine, empty_machine, cancelled_machine}

abbrev no_total : FsmError order_sig
no_total =
    transition_error pending confirmed confirm phase_guard
      (guard_rejected (new_error "cannot confirm order with zero or negative total"))

empty_machine_refuses : (send 100 3 (order_event confirm) empty_machine).0 ≡ some no_total
unfolding send empty_machine positive_total
empty_machine_refuses = refl

send_error_keeps_example :
    (send 100 3 (order_event confirm) empty_machine).1
    ≡ record empty_machine { obj = (send 100 3 (order_event confirm) empty_machine).1.obj }
send_error_keeps_example =
    send_error_keeps 100 3 (order_event confirm) empty_machine {e = no_total} empty_machine_refuses

send-eq-none_example : ((send 100 3 (order_event confirm) dinner_machine).0 ≡ none) ↔ (
    (dinner_machine.in_flight ≡ false)
    × (at_terminal dinner_machine ≡ false)
    × ((t : TransitionDef order_sig) × (transition_for dinner_machine confirm ≡ some t)
        × AllPass (steps_before 100 3 (order_event confirm) dinner_machine t) dinner_machine.obj))
send-eq-none_example = send-eq-none 100 3 (order_event confirm) dinner_machine

dinner_confirmed : (send 100 3 (order_event confirm) dinner_machine).0 ≡ none
unfolding send dinner_machine positive_total set_status
dinner_confirmed = refl

send_ok_moves_example :
    let m = (send 100 3 (order_event confirm) dinner_machine).1 in
    (t : TransitionDef order_sig) × (transition_for dinner_machine confirm ≡ some t)
    × (m.current ≡ t.to)
    × (m.seq ≡ u64 (dinner_machine.seq + 1))
    × (m.history
        ≡ (append_history
            (completed 100 3 (order_event confirm) dinner_machine t)
            dinner_machine).history)
    × (m.in_flight ≡ false)
    × (m.def ≡ dinner_machine.def)
send_ok_moves_example = send_ok_moves 100 3 (order_event confirm) dinner_machine dinner_confirmed

dinner_is_idle : dinner_machine.in_flight ≡ false
unfolding dinner_machine
dinner_is_idle = refl

can-PastGuards_example :
    ((can confirm (order_event confirm) dinner_machine).0 ≡ true)
    ↔ PastGuards (send 100 3 (order_event confirm) dinner_machine).0
can-PastGuards_example = can-PastGuards 100 3 (order_event confirm) dinner_machine dinner_is_idle

abbrev confirming_def : TransitionDef order_sig
confirming_def = record {
  from = pending;
  event = confirm;
  to = confirmed;
  guards = positive_total ∷ [];
  effects = set_status confirmed ∷ [];
  before_exit = [];
  before_enter = [];
  after_exit = [];
  after_enter = [];
  description = "Payment validated";
}

abbrev first_record : TransitionRecord order_sig
first_record = completed 100 3 (order_event confirm) dinner_machine confirming_def

dinner_has_no_history : dinner_machine.history ≡ latest dinner_machine.def.history_capacity []
unfolding dinner_machine
dinner_has_no_history = refl

dinner_transition : transition_for dinner_machine confirm ≡ some confirming_def
unfolding dinner_machine
dinner_transition = refl

abbrev after_confirm : Machine order_sig
after_confirm = (send 100 3 (order_event confirm) dinner_machine).1

refund_refused :
    (send 200 1 (order_event refund) after_confirm).0 ≡ some (invalid_transition confirmed refund)
unfolding send dinner_machine positive_total set_status
refund_refused = refl

-- The order is confirmed, and a refund is then refused.
confirm_then_refund :
    Run dinner_machine (send 200 1 (order_event refund) after_confirm).1 (first_record ∷ [])
confirm_then_refund =
    rejected 200 1 (order_event refund) (invalid_transition confirmed refund)
      (moved 100 3 (order_event confirm) confirming_def start dinner_confirmed dinner_transition
        refl refl)
      refund_refused refl

restored_dinner :
    Run
      (restore order_fsm dinner pending)
      (send 200 1 (order_event refund) after_confirm).1
      (first_record ∷ [])
unfolding dinner_machine
restored_dinner = confirm_then_refund

Run-history_example :
    let m = (send 200 1 (order_event refund) after_confirm).1 in
    (m.history ≡ latest order_fsm.history_capacity (first_record ∷ []))
    × ((order_fsm.history_capacity ≡ 0) ⊎ (length m.history ≤ order_fsm.history_capacity))
    × Linked pending (first_record ∷ []) m.current
    × AllEdges order_fsm (first_record ∷ [])
    × (m.seq ≡ u64 1)
Run-history_example = Run-history order_fsm dinner pending restored_dinner

Run-IsPaid_example :
    let m = (send 200 1 (order_event refund) after_confirm).1 in
    (m.obj ≡ record dinner { status = m.current }) × IsPaid dinner m.current
Run-IsPaid_example = Run-IsPaid dinner refl restored_dinner

cancelled_refuses :
    (send 100 3 (order_event confirm) cancelled_machine).0 ≡ some FsmError.terminal_state
unfolding send cancelled_machine
cancelled_refuses = refl
