-- ===== src/Tests/Machines.antt =====
-- One event sent to a machine of each domain: backend/utils/FSM.go.
use rems.Prelude.{◌≡◌, refl, List, String, none, [], ◌∷◌, some}
use rems.Prelude.Int.{pos}
use rems.Prelude.Dict.{Dict}
use rems.Fsm.Types.{Signature, EventEnvelope}
use rems.Fsm.Machine.{send}
use rems.Domain.Kot.{Kot, KotState}
use rems.Domain.Table.{Table, TableState, TableEvent, table_fsm}
use rems.Fsm.Types.{TransitionRecord, invalid_transition}
use rems.Fsm.Machine.{Machine, restore}
use rems.Fsm.Machine.History.{Run, start, rejected}
use rems.Domain.Table.{table_sig}
use rems.Domain.Table.Runs.{Run-unlisted}
use rems.Domain.Inventory.{InventoryItem, InventoryStockState}

abbrev envelope_with : {σ : Signature} → σ.Event → Dict String String → EventEnvelope σ
envelope_with e metadata = record {
  id = "env-2";
  event = e;
  payload = none;
  actor_id = 7;
  tenant_id = 9;
  occurred_at = 100;
  metadata = metadata;
}

abbrev urgent_ticket : Kot
urgent_ticket = record { kot_id = "k-1"; priority = "urgent"; status = KotState.in_progress }

abbrev window_table : Table
window_table = record { table_id = pos 4; capacity = pos 2; status = TableState.available }

abbrev approved : Dict String String
approved = ("manager_approved", "true") ∷ []

abbrev flour : InventoryItem
flour = record {
  item_id = "i-1";
  current_quantity = pos 4000;
  reorder_point = some (pos 5000);
  stock_status = InventoryStockState.active;
}

abbrev stored : Machine table_sig
stored = restore table_fsm window_table (TableState.unlisted "out_of_services")

cleaning_refused :
    (send 100 3 (envelope_with TableEvent.clean []) stored).0
    ≡ some (invalid_transition (TableState.unlisted "out_of_services") TableEvent.clean)
unfolding send restore table_fsm
cleaning_refused = refl

refused_cleaning : Run stored (send 100 3 (envelope_with TableEvent.clean []) stored).1 []
refused_cleaning =
    rejected 100 3 (envelope_with TableEvent.clean [])
      (invalid_transition (TableState.unlisted "out_of_services") TableEvent.clean) start
      cleaning_refused refl

Run-unlisted_example :
    let m = (send 100 3 (envelope_with TableEvent.clean []) stored).1 in
    let log : List (TransitionRecord table_sig) = [] in
    (m.current ≡ TableState.unlisted "out_of_services") × (m.obj ≡ window_table) × (log ≡ [])
Run-unlisted_example = Run-unlisted "out_of_services" window_table refused_cleaning
