-- ===== src/Services/Stock/Laws.antt =====
-- What `DeriveInventoryState` and `evaluateStockTransition` compute.
use rems.Prelude.{ℕ, String, ◌≡◌, ◌≢◌, Bool, Option, none, some}
use rems.Prelude.Int.{ℤ, ◌≤ℤ◌}
use rems.Fsm.Types.{Time}
use rems.Fsm.Envelope.{new_envelope}
use rems.Fsm.Machine.{restore, send}
use rems.Domain.Inventory.{
  InventoryStockState, InventoryItem, InventoryStockEvent, inventory_item_fsm,
}
use rems.Domain.Inventory.Graph.{InventoryItemStep}
use rems.Services.Stock.{Evaluation, event_to_reach}

-- What `DeriveInventoryState` decides, by the quantity and the reorder point.
abbrev pub IsLow : ℤ → Option ℤ → Type 0
IsLow q none = ⊥
IsLow q (some rp) = q ≤ℤ rp

module _ (clock : InventoryStockState → Time × ℕ) (id : String) (now : Time)
    (item : InventoryItem) where
  evaluated : InventoryStockState → Bool → Evaluation
  evaluated s checked = record {
    low_stock_checked = checked;
    item = record item { stock_status = s };
  }

  -- The search finds a transition: some other state has one to the derived state whose guard holds.
  abbrev pub Finds : InventoryStockState → Type 0
  Finds derived =
      (event : InventoryStockEvent) × (source : InventoryStockState) × (event_to_reach derived
        ≡ some event)
      × (source ≢ derived)
      × InventoryItemStep source event derived
      × ((send (clock source).0 (clock source).1 (new_envelope id now event none)
            (restore inventory_item_fsm (record item { stock_status = derived }) source)).0
          ≡ none)
