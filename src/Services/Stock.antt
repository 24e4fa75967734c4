-- ===== src/Services/Stock.antt =====
-- The stock evaluation of backend/services/inventory/inventory.go: `evaluateStockTransition` over
-- the machine of backend/utils/FSM.go. The clock and the id generator are arguments; the two
-- readings of `Send` are taken as one pair for each source state.
pub mod Laws
use rems.Prelude.{
  ℕ, zero, suc, String, Bool, true, false, Option, none, some, List, [], ◌∷◌, ◌||◌, if◌then◌else◌,
}
use rems.Fsm.Types.{Time, EventEnvelope}
use rems.Fsm.Envelope.{new_envelope}
use rems.Fsm.Machine.{restore, send}
use rems.Domain.Inventory.{
  InventoryStockState, InventoryStockEvent, active, low_stock, out_of_stock, discontinued,
  stock_low, stock_depleted, stock_replenished, InventoryItem, inventory_item_sig,
  inventory_item_state_eq, inventory_item_fsm, derive_inventory_state,
}

-- The `switch currentState`; `none` is the `default` return.
unfoldable pub event_to_reach : InventoryStockState → Option InventoryStockEvent
event_to_reach out_of_stock = some stock_depleted
event_to_reach low_stock = some stock_low
event_to_reach active = some stock_replenished
event_to_reach discontinued = none

-- The states that `sourceStates` lists.
abbrev pub source_states : List InventoryStockState
source_states = active ∷ low_stock ∷ out_of_stock ∷ []

-- What the call did: whether `checkLowStock` was started, and the adapter.
pub record Evaluation : Type 0 where
  pub low_stock_checked : Bool
  pub item : InventoryItem

module _ (clock : InventoryStockState → Time × ℕ) (id : String) (now : Time)
    (current_state : InventoryStockState) (event : InventoryStockEvent) where
  -- The loop over the source states.
  unfoldable pub try_sources : List InventoryStockState → InventoryItem → Evaluation
  try_sources [] item = record { low_stock_checked = false; item = item }
  try_sources (src ∷ sources) item = elim (inventory_item_state_eq.beq src current_state) [
    | true ↦ try_sources sources item
    | false ↦
        (let env : EventEnvelope inventory_item_sig = new_envelope id now event none in
          let (err, machine) =
            send (clock src).0 (clock src).1 env (restore inventory_item_fsm item src) in
          elim err [
            | none ↦ record {
              low_stock_checked =
                  inventory_item_state_eq.beq current_state low_stock
                  || inventory_item_state_eq.beq current_state out_of_stock;
              item = machine.obj;
            }
            | some e ↦ try_sources sources machine.obj
          ])
  ]

unfoldable pub evaluate_stock_transition :
    (InventoryStockState → Time × ℕ) → String → Time → InventoryItem → Evaluation
unfolding try_sources event_to_reach
evaluate_stock_transition clock id now item =
    let current_state = derive_inventory_state item.current_quantity item.reorder_point in
    elim (event_to_reach current_state) [
      | none ↦ record { low_stock_checked = false; item = item }
      | some event ↦
          try_sources clock id now current_state event source_states
            (record item { stock_status = current_state })
    ]
