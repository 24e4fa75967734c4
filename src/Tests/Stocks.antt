-- ===== src/Tests/Stocks.antt =====
-- The evaluation of an item that ran low: backend/services/inventory/inventory.go,
-- `evaluateStockTransition`.
use rems.Prelude.{ℕ, some}
use rems.Prelude.Int.{pos}
use rems.Fsm.Types.{Time}
use rems.Domain.Inventory.{InventoryItem, InventoryStockState, active}

abbrev sugar : InventoryItem
sugar = record {
  item_id = "i-2";
  current_quantity = pos 1500;
  reorder_point = some (pos 2000);
  stock_status = active;
}

abbrev readings : InventoryStockState → Time × ℕ
readings s = (100, 2)
