-- ===== src/Tests/Inventory.antt =====
-- Flour in a store room: backend/services/inventory.
use rems.Prelude.Dict.{lookup}
use rems.Prelude.{◌≡◌, refl, arith, nat_eq, String, Bool, true, false, ℕ, none, some, [], ◌∷◌, List}
use rems.Prelude.Int.{ℤ, pos, negsuc, ◌+ℤ◌, ◌-ℤ◌, ◌*ℤ◌}
use rems.Fsm.Types.{Uuid}
use rems.Domain.PurchaseOrder.{set_status, approved, received, approve, purchase_order_state_eq}
use rems.Services.Exec.{ok, Db}
use rems.Services.Exec.Laws.{Ends}
use rems.Services.Inventory.Types.{
  ItemRow, StockMovement, MenuItemInventoryLink, InventoryServiceRequest, Platform, InventoryRows,
  StockDraws,
}
use rems.Services.Inventory.Moves.{AdjustStockInput, adjust_stock}
use rems.Services.Inventory.Moves.Laws.{IsSound}
use rems.Services.Inventory.Moves.Adjust.{ledger, Adjusted, adjust_stock-Adjusted}
use rems.Services.Inventory.Deduct.{
  DeductForOrderInput, deduct_for_order, aggregate, deduct_items, deduct_item, or_zero_ℤ,
}
use rems.Services.Inventory.Deduct.Laws.{used, aggregate_lem}
use rems.Services.Purchase.Types.{
  PurchaseOrderRow, PurchaseOrderLine, ReceivePoInput, ReceivePoLineInput, PurchaseRows, Purchasing,
}
use rems.Services.Purchase.Fire.{fire_po_event, send_to_po}
use rems.Services.Purchase.Fire.Laws.{orders_of, PoFired, fire_po_event-PoFired}
use rems.Services.Purchase.Receive.{
  receive_purchase_order, receive_lines, validate_receipt, fully_received,
}
use rems.Services.Purchase.Receive.Bounds.{RowsWithin, receive_purchase_order-RowsWithin}
use rems.Services.Purchase.Receive.Count.{counted}
use rems.Services.Purchase.Receive.Finish.{IsFull}
use rems.Services.Purchase.Receive.Status.{Closed, receive_purchase_order-Closed}
use rems.Services.Purchase.Ledger.{at_start, adjusting, after_stock, Reaches-IsSound}

-- Nothing is in Redis, and a column keeps every number.
abbrev plain : Platform
plain = record {
  Store = Unit {0};
  get_item_json = λ now key store. none;
  set_item_json = λ now key item ttl store. store;
  get_stats_json = λ now key store. none;
  set_stats_json = λ now key stats ttl store. store;
  exists_key = λ now key store. false;
  set_flag = λ now key ttl store. store;
  del = λ key store. store;
  uuid_text = λ id. "id";
  alert_text = λ severity item reorder_point. severity;
  column = λ q. q;
  sum = λ a b. a +ℤ b;
}

abbrev buying : Purchasing plain
buying = record {
  incr = λ key store. (none, store);
  expire_at = λ key time store. store;
  month_text = λ t. "202601";
  month_start = λ t. 0;
  two_days_into_next_month = λ t. t;
  number_text = λ month seq. "PO-1";
  note_text = λ number id. "received";
  cents = λ q. q;
}

abbrev morning : StockDraws
morning = record { now = 900; new_id = 77; envelope_id = "e-1"; clock = λ s. (900, 1) }

abbrev keeper : InventoryServiceRequest
keeper = record { tenant_id = 9; restaurant_id = 4; actor_id = 7 }

abbrev anyone : Uuid → Uuid → String → Bool
anyone user tenant action = true

-- 5 kilograms.
abbrev flour : ItemRow
flour = record {
  inventory_item_id = 1;
  tenant_id = 9;
  restaurant_id = 4;
  name = "flour";
  description = "";
  sku = "F1";
  category = "dry";
  unit_of_measure = "kg";
  current_quantity = pos 50000;
  minimum_quantity = none;
  maximum_quantity = none;
  reorder_point = some (pos 20000);
  unit_cost = some (pos 120);
  updated_at = 800;
}

abbrev opening : StockMovement
opening = record {
  tenant_id = 9;
  restaurant_id = 4;
  inventory_item_id = 1;
  reason = "adjustment";
  quantity_delta = pos 50000;
  balance_after = pos 50000;
  reference_type = "opening_stock";
  reference_id = "";
  notes = "";
  created_by = 7;
  created_at = 800;
}

-- A pizza takes 0.25 kilograms.
abbrev pizza_flour : MenuItemInventoryLink
pizza_flour = record {
  link_id = 30;
  tenant_id = 9;
  menu_item_id = 60;
  inventory_item_id = 1;
  quantity_per_unit = pos 2500;
  is_active = true;
  updated_at = 800;
}

abbrev store_room : InventoryRows plain
store_room = record {
  items = flour ∷ [];
  movements = opening ∷ [];
  links = pizza_flour ∷ [];
  vendors = [];
  audit = [];
  notifications = [];
  redis = tt;
  low_stock_checks = [];
}

abbrev spill : AdjustStockInput
spill = record {
  request = keeper;
  inventory_item_id = 1;
  quantity_delta = negsuc 9999;
  reason = "damaged";
  notes = "";
  reference_type = "";
  reference_id = "";
}

-- An approved order of 8 kilograms of flour, of which 3 have come.
abbrev flour_order : PurchaseOrderRow
flour_order = record {
  purchase_order_id = 40;
  tenant_id = 9;
  restaurant_id = 4;
  vendor_id = 50;
  order_number = "PO-1";
  order_date = 700;
  expected_delivery_date = none;
  actual_delivery_date = none;
  status = approved;
  total_amount = pos 960;
  created_by = 7;
  updated_at = 700;
}

abbrev flour_line : PurchaseOrderLine
flour_line = record {
  purchase_order_line_id = 41;
  purchase_order_id = 40;
  inventory_item_id = 1;
  quantity = pos 80000;
  unit_price = pos 120;
  line_total = pos 960;
  received_quantity = pos 30000;
}

abbrev office : PurchaseRows plain
office = record { orders = flour_order ∷ []; lines = flour_line ∷ []; stock = store_room }

abbrev calm : {W : Type 0} → W → Db W
calm rows = record { faults = []; rows = rows }

abbrev delivery : ReceivePoLineInput
delivery = record { purchase_order_line_id = 41; received_quantity = pos 50000 }

abbrev receipt_of : List ReceivePoLineInput → ReceivePoInput
receipt_of lines = record { request = keeper; purchase_order_id = 40; lines = lines }

abbrev pizzas : ℕ → DeductForOrderInput
pizzas n = record { tenant_id = 9; restaurant_id = 4; order_id = 70; items = (60, pos n) ∷ [] }

adjust_stock-Adjusted_example :
    Ends
      (ledger plain morning)
      (adjust_stock plain morning anyone spill (calm store_room))
      (ledger plain morning store_room)
      (Adjusted plain morning anyone spill store_room)
adjust_stock-Adjusted_example = adjust_stock-Adjusted plain morning anyone spill (calm store_room)

Reaches-IsSound_example :
    IsSound
      (after_stock plain buying office
        (adjust_stock plain morning anyone spill)
        []
        office).stock.items
      (after_stock plain buying office
        (adjust_stock plain morning anyone spill)
        []
        office).stock.movements
Reaches-IsSound_example =
    Reaches-IsSound plain buying office (λ q h. h) refl (ground arith, refl, tt)
      (adjusting office [] morning anyone spill at_start)

aggregate_lem_example :
    or_zero_ℤ (lookup nat_eq 1 (aggregate (pizzas 30) (pizza_flour ∷ []) []))
    ≡ or_zero_ℤ (lookup nat_eq 1 []) +ℤ used (pizzas 30) 1 (pizza_flour ∷ [])
aggregate_lem_example = aggregate_lem (pizzas 30) (pizza_flour ∷ []) [] 1

fire_po_event-PoFired_example :
    Ends
      (orders_of plain morning 1)
      (fire_po_event plain morning 1 anyone keeper 40 approve (calm office))
      office.orders
      (PoFired plain morning 1 anyone keeper 40 approve office)
fire_po_event-PoFired_example =
    fire_po_event-PoFired plain morning 1 anyone keeper 40 approve (calm office)

receive_purchase_order-RowsWithin_example :
    RowsWithin plain buying morning 1 anyone anyone
      (receipt_of (delivery ∷ []))
      (receive_purchase_order plain buying morning 1 anyone anyone
        (receipt_of (delivery ∷ []))
        (calm office)).1.rows
receive_purchase_order-RowsWithin_example =
    receive_purchase_order-RowsWithin plain buying morning 1 anyone anyone
      (receipt_of (delivery ∷ [])) (calm office) (λ a b h. h) (tt, tt) (tt, tt)
      (ground arith, refl, tt)

-- The delivery of the 5 kilograms that were left closes the order.
abbrev closed_order : PurchaseOrderRow
closed_order = record flour_order {
  status = received;
  updated_at = 900;
  actual_delivery_date = some 900;
}

delivery_accepted :
    (receive_purchase_order plain buying morning 1 anyone anyone
      (receipt_of (delivery ∷ []))
      (calm office)).0
    ≡ ok closed_order
unfolding receive_purchase_order receive_lines validate_receipt fully_received ◌+ℤ◌
    purchase_order_state_eq adjust_stock send_to_po set_status
delivery_accepted = refl

delivery_counted : IsFull (counted plain (delivery ∷ []) (flour_line ∷ []))
unfolding counted ◌+ℤ◌
delivery_counted = ground arith

receive_purchase_order-Closed_example :
    Closed plain buying morning 1 anyone anyone (receipt_of (delivery ∷ [])) office closed_order
receive_purchase_order-Closed_example =
    receive_purchase_order-Closed plain buying morning 1 anyone anyone (receipt_of (delivery ∷ []))
      (calm office) delivery_accepted

-- Thirty pizzas need 7.5 kilograms, and there are 5.
abbrev last_move : List StockMovement → ℤ × ℤ
last_move [] = (pos 0, pos 0)
last_move (m ∷ []) = (m.quantity_delta, m.balance_after)
last_move (m ∷ (n ∷ movements)) = last_move (n ∷ movements)

short_of_flour :
    last_move (deduct_for_order plain morning (pizzas 30) (calm store_room)).1.rows.movements
    ≡ (negsuc 74999, pos 0)
unfolding deduct_for_order aggregate deduct_items deduct_item ◌*ℤ◌ ◌-ℤ◌ ◌+ℤ◌
short_of_flour = refl

-- A receipt that names a line twice passes the check line by line.
abbrev first_received : List PurchaseOrderLine → ℤ
first_received [] = pos 0
first_received (l ∷ lines) = l.received_quantity

received_beyond_order :
    first_received
      (receive_purchase_order plain buying morning 1 anyone anyone
        (receipt_of (delivery ∷ delivery ∷ []))
        (calm office)).1.rows.lines
    ≡ pos 130000
unfolding receive_purchase_order receive_lines validate_receipt fully_received ◌+ℤ◌
    purchase_order_state_eq adjust_stock send_to_po set_status
received_beyond_order = refl
