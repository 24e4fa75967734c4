-- ===== src/Services/Purchase/Create.antt =====
-- A new purchase order: backend/services/inventory/purchaseOrder.go, `CreatePurchaseOrder` and
-- `generatePONumber`. The identifiers of the lines are drawn with the input; the order that is
-- returned stands as its columns keep it.
use rems.Prelude.{
  ℕ, suc, ◌+◌, String, Bool, true, false, not, ◌&&◌, ◌||◌, Option, none, some, List, [], ◌∷◌, ◌++◌,
  ◌==◌, length, leb, if◌then◌else◌,
}
use rems.Prelude.Int.{ℤ, pos, ◌+ℤ◌, ◌*ℤ◌}
use rems.Fsm.Types.{Uuid, Time}
use rems.Domain.PurchaseOrder.{draft}
use rems.Services.Exec.{
  err, ◌>>=◌, ◌>>◌, pure, modify, query?, first_of, unless, write, transaction,
}
use rems.Services.Inventory.Types.{ItemRow, Vendor, InventoryServiceRequest, Platform, StockDraws}
use rems.Services.Purchase.Types.{
  no_lines, vendor_not_found, duplicate_item, items_not_found, access_denied, database_failed,
  PurchaseOrderRow, PurchaseOrderLine, CreatePoLineInput, CreatePoInput, PurchaseExec, Purchasing,
  audit_po,
}
use Prim.Native.String as Text

-- `WHERE vendor_id = ? AND tenant_id = ? AND is_active = true`
abbrev pub find_active_vendor : Uuid → Uuid → List Vendor → Option Vendor
find_active_vendor tenant_id id [] = none
find_active_vendor tenant_id id (v ∷ vendors) =
    if v.vendor_id == id && v.tenant_id == tenant_id && v.is_active
    then some v
    else find_active_vendor tenant_id id vendors

abbrev pub is_seen : Uuid → List Uuid → Bool
is_seen id [] = false
is_seen id (j ∷ ids) = j == id || is_seen id ids

-- The loop with `seen`; `none` is a duplicate.
unfoldable pub inventory_ids : List Uuid → List CreatePoLineInput → Option (List Uuid)
inventory_ids seen [] = some []
inventory_ids seen (l ∷ lines) =
    let rest = inventory_ids (l.inventory_item_id ∷ seen) lines in
    if is_seen l.inventory_item_id seen
    then none
    else elim rest [ none ↦ none | some ids ↦ some (l.inventory_item_id ∷ ids) ]

-- `WHERE inventory_item_id IN ? AND tenant_id = ? AND restaurant_id = ?`
abbrev pub own_item_count : InventoryServiceRequest → List Uuid → List ItemRow → ℕ
own_item_count input ids [] = 0
own_item_count input ids (item ∷ items) =
    if is_seen item.inventory_item_id ids
      && item.tenant_id == input.tenant_id
      && item.restaurant_id == input.restaurant_id
    then suc (own_item_count input ids items)
    else own_item_count input ids items

-- `WHERE tenant_id = ? AND order_date >= ?`
abbrev pub order_count : Uuid → Time → List PurchaseOrderRow → ℕ
order_count tenant_id from [] = 0
order_count tenant_id from (po ∷ orders) =
    if po.tenant_id == tenant_id && leb from po.order_date
    then suc (order_count tenant_id from orders)
    else order_count tenant_id from orders

abbrev pub total_of : List CreatePoLineInput → ℤ → ℤ
total_of [] total = total
total_of (l ∷ lines) total = total_of lines (total +ℤ l.quantity *ℤ l.unit_price)

abbrev pub or_zero_count : Option ℕ → ℕ
or_zero_count none = 0
or_zero_count (some n) = n

module _ (P : Platform) (R : Purchasing P) (draws : StockDraws) where
  abbrev pub seq_key : Uuid → Time → String
  seq_key tenant_id t =
      Text.◌++◌ "po:seq:" (Text.◌++◌ (P.uuid_text tenant_id) (Text.◌++◌ ":" (R.month_text t)))

  abbrev pub set_redis : P.Store → PurchaseExec P (Unit {0})
  set_redis store = modify (λ rows. record rows { stock = record rows.stock { redis = store } })

  -- The number in the counter, or without Redis one more than the orders of the month.
  abbrev pub next_seq : Uuid → Time → PurchaseExec P ℕ
  next_seq tenant_id t db =
      let (counted, store) = R.incr (seq_key tenant_id t) db.rows.stock.redis in
      elim counted [
        | none ↦
            (do
              set_redis store
              count ← query? (λ rows. order_count tenant_id (R.month_start t) rows.orders)
              pure (or_zero_count count + 1))
              db
        | some seq ↦
            (set_redis (
                  if seq == 1
                  then R.expire_at (seq_key tenant_id t) (R.two_days_into_next_month t) store
                  else store)
                >> pure seq)
              db
      ]

  unfoldable pub generate_po_number : Uuid → Time → PurchaseExec P String
  generate_po_number tenant_id t =
      next_seq tenant_id t >>= λ seq. pure (R.number_text (R.month_text t) seq)

  abbrev pub new_po : CreatePoInput → String → PurchaseOrderRow
  new_po input number = record {
    purchase_order_id = draws.new_id;
    tenant_id = input.request.tenant_id;
    restaurant_id = input.request.restaurant_id;
    vendor_id = input.vendor_id;
    order_number = number;
    order_date = input.order_date;
    expected_delivery_date = input.expected_delivery_date;
    actual_delivery_date = none;
    status = draft;
    total_amount = R.cents (total_of input.lines (pos 0));
    created_by = input.request.actor_id;
    updated_at = draws.now;
  }

  abbrev pub new_line : CreatePoLineInput → PurchaseOrderLine
  new_line l = record {
    purchase_order_line_id = l.line_id;
    purchase_order_id = draws.new_id;
    inventory_item_id = l.inventory_item_id;
    quantity = P.column l.quantity;
    unit_price = l.unit_price;
    line_total = R.cents (l.quantity *ℤ l.unit_price);
    received_quantity = pos 0;
  }

  unfoldable pub create_lines : List CreatePoLineInput → PurchaseExec P (Unit {0})
  create_lines [] = pure tt
  create_lines (l ∷ lines) =
      write database_failed (λ rows. record rows { lines = rows.lines ++ (new_line l ∷ []) })
      >> create_lines lines

  abbrev pub insert_po : CreatePoInput → String → PurchaseExec P PurchaseOrderRow
  insert_po input number = do
    transaction (
        write database_failed
          (λ rows. record rows { orders = rows.orders ++ (new_po input number ∷ []) })
        >> create_lines input.lines)
    audit_po P input.request "create" draws.new_id
    pure (new_po input number)

  abbrev pub check_items : CreatePoInput → Option (List Uuid) → PurchaseExec P PurchaseOrderRow
  check_items input none db = (err duplicate_item, db)
  check_items input (some ids) db =
      (do
        count ← query? (λ rows. own_item_count input.request ids rows.stock.items)
        unless (or_zero_count count == length ids) items_not_found
        number ← generate_po_number input.request.tenant_id input.order_date
        insert_po input number)
        db

  abbrev pub is_empty_lines : List CreatePoLineInput → Bool
  is_empty_lines [] = true
  is_empty_lines (l ∷ lines) = false

  unfoldable pub create_purchase_order :
      (Uuid → Uuid → String → Bool) → CreatePoInput → PurchaseExec P PurchaseOrderRow
  unfolding generate_po_number create_lines
  create_purchase_order may input = do
    unless (may input.request.actor_id input.request.tenant_id "create") access_denied
    unless (not (is_empty_lines input.lines)) no_lines
    vendor ←
        first_of vendor_not_found database_failed
          (λ rows. find_active_vendor input.request.tenant_id input.vendor_id rows.stock.vendors)
    check_items input (inventory_ids [] input.lines)
