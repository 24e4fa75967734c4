-- ===== src/Tests/Orders.antt =====
-- Two orders and the events sent to them in the other tests: backend/utils/FSM.go, `OrderFSM`.
use rems.Prelude.{none, [], ◌≡◌, refl}
use rems.Prelude.Int.{pos}
use rems.Fsm.Types.{EventEnvelope}
use rems.Fsm.Builder.{compile, compiled}
use rems.Fsm.Machine.{Machine, restore}
use rems.Domain.Order.{Order, OrderEvent, pending, cancelled, order_sig, order_builder, order_fsm}

abbrev pub dinner : Order
dinner = record { order_id = "o-1"; total_amount = pos 2500; status = pending }

abbrev pub empty_order : Order
empty_order = record { order_id = "o-2"; total_amount = pos 0; status = pending }

abbrev pub order_event : OrderEvent → EventEnvelope order_sig
order_event e = record {
  id = "env-1";
  event = e;
  payload = none;
  actor_id = 7;
  tenant_id = 9;
  occurred_at = 100;
  metadata = [];
}

unfoldable pub dinner_machine : Machine order_sig
unfolding restore order_fsm
dinner_machine = restore order_fsm dinner pending

unfoldable pub empty_machine : Machine order_sig
unfolding restore order_fsm
empty_machine = restore order_fsm empty_order pending

unfoldable pub cancelled_machine : Machine order_sig
unfolding restore order_fsm
cancelled_machine = restore order_fsm dinner cancelled

pub order_builder_compiles : compile order_builder ≡ compiled order_fsm
unfolding compile order_fsm
order_builder_compiles = refl
