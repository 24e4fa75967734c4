-- ===== src/Services/Inventory/Moves.antt =====
-- The stock ledger: backend/services/inventory/inventory.go, `AdjustStock`, the
-- write of a movement, `evaluateStockTransition` on a row and the cache keys. The answers of the
-- authorizer are an argument.
pub mod Laws
pub mod Adjust
use rems.Prelude.{
  ℕ, String, Bool, true, false, not, Option, none, some, List, [], ◌∷◌, ◌++◌, ◌&&◌, ◌||◌, ◌==◌,
  if◌then◌else◌, nat_eq,
}
use rems.Prelude.Int.{ℤ, pos, ◌+ℤ◌, ◌-ℤ◌, ◌*ℤ◌, ltb_ℤ, beq_ℤ}
use rems.Prelude.Dict.{Dict, lookup, insert}
use rems.Fsm.Types.{Uuid}
use rems.Domain.Inventory.{active, InventoryItem}
use rems.Services.Exec.{
  Result, ok, err, Db, Exec, ◌>>=◌, ◌>>◌, pure, modify, query, first_or, unless, write, transaction,
  next_fails, later,
}
use rems.Services.Stock.{evaluate_stock_transition}
use rems.Services.Inventory.Types.{
  InventoryError, insufficient_inventory, zero_adjustment, inventory_item_not_found, access_denied,
  database_failed, ItemRow, StockMovement, MenuItemInventoryLink, InventoryServiceRequest,
  AlertNotification, Platform, InventoryRows, InventoryExec, StockDraws, find_item, update_items,
  get_own_item,
}
use Prim.Native.String as Text

pub record AdjustStockInput : Type 0 where
  pub request : InventoryServiceRequest
  pub inventory_item_id : Uuid
  pub quantity_delta : ℤ
  pub reason : String
  pub notes : String
  pub reference_type : String
  pub reference_id : String

module _ (P : Platform) (draws : StockDraws) where
  unfoldable pub item_key : Uuid → Uuid → String
  item_key tenant_id id =
      Text.◌++◌ "inventory:item:"
        (Text.◌++◌ (P.uuid_text tenant_id) (Text.◌++◌ ":" (P.uuid_text id)))

  unfoldable pub stats_key : Uuid → Uuid → String
  stats_key tenant_id restaurant_id =
      Text.◌++◌ "inventory:stats:"
        (Text.◌++◌ (P.uuid_text tenant_id) (Text.◌++◌ ":" (P.uuid_text restaurant_id)))

  abbrev pub del_key : String → InventoryExec P (Unit {0})
  del_key key = modify (λ rows. record rows { redis = P.del key rows.redis })

  abbrev pub invalidate_item_cache : Uuid → Uuid → InventoryExec P (Unit {0})
  invalidate_item_cache tenant_id id = del_key (item_key tenant_id id)

  abbrev pub invalidate_stats_cache : Uuid → Uuid → InventoryExec P (Unit {0})
  invalidate_stats_cache tenant_id restaurant_id = del_key (stats_key tenant_id restaurant_id)

  -- The adapter's view of a row; the status that it starts with is replaced before it is read.
  abbrev pub to_stock_item : ItemRow → InventoryItem
  to_stock_item item = record {
    item_id = P.uuid_text item.inventory_item_id;
    current_quantity = item.current_quantity;
    reorder_point = item.reorder_point;
    stock_status = active;
  }

  -- Whether the goroutine is started.
  unfoldable pub starts_check : ItemRow → Bool
  starts_check item =
      (evaluate_stock_transition draws.clock draws.envelope_id draws.now
        (to_stock_item item)).low_stock_checked

  abbrev pub evaluate_stock : Uuid → ItemRow → InventoryExec P (Unit {0})
  evaluate_stock tenant_id item = modify (λ rows. record rows {
    low_stock_checks =
        if starts_check item
        then rows.low_stock_checks ++ ((tenant_id, item) ∷ [])
        else rows.low_stock_checks;
  })

  -- The new quantity and its movement, in one transaction; the columns keep the rounded values.
  abbrev pub write_movement : ItemRow → ℤ → StockMovement → InventoryExec P (Unit {0})
  write_movement item new_qty move = transaction (do
    write database_failed (λ rows. record rows {
      items =
          update_items item.inventory_item_id
            (λ row. record row { current_quantity = P.column new_qty; updated_at = draws.now })
            rows.items;
    })
    write database_failed (λ rows. record rows {
      movements =
          rows.movements
          ++ (record move {
            quantity_delta = P.column move.quantity_delta;
            balance_after = P.column move.balance_after;
          }
              ∷ []);
    }))

  -- What follows the transaction in both callers.
  abbrev pub settle_stock : Uuid → ItemRow → ℤ → InventoryExec P (Unit {0})
  settle_stock tenant_id item new_qty =
      evaluate_stock tenant_id (record item { current_quantity = new_qty; updated_at = draws.now })

  abbrev pub adjustment : AdjustStockInput → ℤ → StockMovement
  adjustment input new_qty = record {
    tenant_id = input.request.tenant_id;
    restaurant_id = input.request.restaurant_id;
    inventory_item_id = input.inventory_item_id;
    reason = input.reason;
    quantity_delta = input.quantity_delta;
    balance_after = new_qty;
    reference_type = input.reference_type;
    reference_id = input.reference_id;
    notes = input.notes;
    created_by = input.request.actor_id;
    created_at = draws.now;
  }

  abbrev pub finish_adjustment : AdjustStockInput → ItemRow → ℤ → InventoryExec P StockMovement
  finish_adjustment input item new_qty = do
    invalidate_item_cache input.request.tenant_id input.inventory_item_id
    invalidate_stats_cache input.request.tenant_id input.request.restaurant_id
    settle_stock input.request.tenant_id item new_qty
    pure (adjustment input new_qty)

  abbrev pub commit_adjustment : AdjustStockInput → ItemRow → ℤ → InventoryExec P StockMovement
  commit_adjustment input item new_qty =
      write_movement item new_qty (adjustment input new_qty) >> finish_adjustment input item new_qty

  -- From the load on.
  abbrev pub adjust_loaded : AdjustStockInput → ItemRow → InventoryExec P StockMovement
  adjust_loaded input item =
      let new_qty = P.sum item.current_quantity input.quantity_delta in
      unless (not (ltb_ℤ new_qty (pos 0))) insufficient_inventory
      >> commit_adjustment input item new_qty

  abbrev pub adjust_found : AdjustStockInput → InventoryExec P StockMovement
  adjust_found input = get_own_item P input.request input.inventory_item_id >>= adjust_loaded input

  abbrev pub adjust_nonzero : AdjustStockInput → InventoryExec P StockMovement
  adjust_nonzero input =
      unless (not (beq_ℤ input.quantity_delta (pos 0))) zero_adjustment >> adjust_found input

  unfoldable pub adjust_stock :
      (Uuid → Uuid → String → Bool) → AdjustStockInput → InventoryExec P StockMovement
  adjust_stock may input =
      unless (may input.request.actor_id input.request.tenant_id "update") access_denied
      >> adjust_nonzero input
