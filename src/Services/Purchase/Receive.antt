-- ===== src/Services/Purchase/Receive.antt =====
-- The receipt of goods: backend/services/inventory/purchaseOrder.go, `ReceivePurchaseOrder`. The
-- loaded lines are changed in place in Go; here the loop hands them on.
pub mod Laws
pub mod Finish
pub mod Count
pub mod Status
pub mod Bounds
use rems.Prelude.{
  ℕ, String, Bool, true, false, not, ◌||◌, ◌&&◌, Option, none, some, List, [], ◌∷◌, ◌==◌,
  if◌then◌else◌,
}
use rems.Prelude.Int.{ℤ, pos, ◌+ℤ◌, ltb_ℤ, beq_ℤ}
use rems.Fsm.Types.{Uuid}
use rems.Domain.PurchaseOrder.{
  PurchaseOrderEvent, approved, partially_received, receive_full, receive_partial,
  purchase_order_state_eq,
}
use rems.Services.Exec.{Result, ok, err, ◌>>=◌, ◌>>◌, pure, query, unless, write}
use rems.Services.Inventory.Types.{InventoryServiceRequest, Platform, StockDraws}
use rems.Services.Inventory.Moves.{AdjustStockInput, adjust_stock}
use rems.Services.Purchase.Types.{
  PurchaseError, po_invalid_transition, po_line_not_found, po_negative_received, po_exceeds_ordered,
  po_fsm_failed, access_denied, database_failed, PurchaseOrderRow, PurchaseOrderLine,
  ReceivePoLineInput, ReceivePoInput, PurchaseRows, PurchaseExec, Purchasing, update_po, with_stock,
  get_own_po, audit_po,
}
use rems.Services.Purchase.Fire.{lines_of, send_to_po}

-- `lineMap[id]`; the identifier is the key of the table.
abbrev pub find_line : Uuid → List PurchaseOrderLine → Option PurchaseOrderLine
find_line id [] = none
find_line id (l ∷ lines) = if l.purchase_order_line_id == id then some l else find_line id lines

abbrev pub set_received : Uuid → ℤ → List PurchaseOrderLine → List PurchaseOrderLine
set_received id q [] = []
set_received id q (l ∷ lines) =
    (if l.purchase_order_line_id == id then record l { received_quantity = q } else l)
    ∷ set_received id q lines

abbrev pub check_line :
    Platform → ReceivePoLineInput → Option PurchaseOrderLine → Option PurchaseError
check_line P rl none = some po_line_not_found
check_line P rl (some l) =
    if ltb_ℤ rl.received_quantity (pos 0)
    then some po_negative_received
    else (if ltb_ℤ l.quantity (P.sum l.received_quantity rl.received_quantity)
        then some po_exceeds_ordered
        else none)

-- The validating loop: the first error.
unfoldable pub validate_receipt :
    Platform → List PurchaseOrderLine → List ReceivePoLineInput → Option PurchaseError
validate_receipt P lines [] = none
validate_receipt P lines (rl ∷ rls) =
    elim (check_line P rl (find_line rl.purchase_order_line_id lines)) [
      | some e ↦ some e
      | none ↦ validate_receipt P lines rls
    ]

unfoldable pub fully_received : List PurchaseOrderLine → Bool
fully_received [] = true
fully_received (l ∷ lines) = not (ltb_ℤ l.received_quantity l.quantity) && fully_received lines

module _ (P : Platform) (R : Purchasing P) (draws : StockDraws) (elapsed : ℕ)
    (may may_stock : Uuid → Uuid → String → Bool) (input : ReceivePoInput) where
  abbrev pub received_stock :
      PurchaseOrderRow → PurchaseOrderLine → ReceivePoLineInput → AdjustStockInput
  received_stock po l rl = record {
    request = input.request;
    inventory_item_id = l.inventory_item_id;
    quantity_delta = rl.received_quantity;
    reason = "received";
    notes = R.note_text po.order_number rl.purchase_order_line_id;
    reference_type = "purchase_order";
    reference_id = P.uuid_text po.purchase_order_id;
  }

  -- The adjustment, whose error is dropped.
  abbrev pub add_stock : AdjustStockInput → PurchaseExec P (Unit {0})
  add_stock adjusting db =
      (ok tt, (with_stock P (λ e. database_failed) (adjust_stock P draws may_stock adjusting) db).1)

  abbrev pub receive_line :
      PurchaseOrderRow
      → ReceivePoLineInput
      → PurchaseOrderLine
      → List PurchaseOrderLine
      → PurchaseExec P (List PurchaseOrderLine)
  receive_line po rl l lines =
      let new_received = P.sum l.received_quantity rl.received_quantity in
      do
        write database_failed (λ rows. record rows {
          lines = set_received l.purchase_order_line_id (P.column new_received) rows.lines;
        })
        add_stock (received_stock po l rl)
        pure (set_received l.purchase_order_line_id new_received lines)

  -- A line that is not there has been refused before.
  abbrev pub receive_one :
      PurchaseOrderRow
      → ReceivePoLineInput
      → Option PurchaseOrderLine
      → List PurchaseOrderLine
      → PurchaseExec P (List PurchaseOrderLine)
  receive_one po rl none lines db = (ok lines, db)
  receive_one po rl (some l) lines db = elim (beq_ℤ rl.received_quantity (pos 0)) [
    | true ↦ (ok lines, db)
    | false ↦ receive_line po rl l lines db
  ]

  unfoldable pub receive_lines :
      PurchaseOrderRow
      → List ReceivePoLineInput
      → List PurchaseOrderLine
      → PurchaseExec P (List PurchaseOrderLine)
  receive_lines po [] lines = pure lines
  receive_lines po (rl ∷ rls) lines =
      receive_one po rl (find_line rl.purchase_order_line_id lines) lines >>= receive_lines po rls

  abbrev pub persist_receipt : Bool → PurchaseOrderRow → PurchaseExec P PurchaseOrderRow
  persist_receipt full po =
      let stamped = λ (row : PurchaseOrderRow). record row {
        status = po.status;
        updated_at = draws.now;
        actual_delivery_date = if full then some draws.now else row.actual_delivery_date;
      } in
      do
        write database_failed
            (λ rows. record rows { orders = update_po po.purchase_order_id stamped rows.orders })
        audit_po P input.request "update" po.purchase_order_id
        pure (stamped po)

  abbrev pub fire_receipt :
      Bool → PurchaseOrderEvent → PurchaseOrderRow → PurchaseExec P PurchaseOrderRow
  fire_receipt full event po =
      (λ db. (send_to_po P draws elapsed po_fsm_failed input.request event po, db))
      >>= persist_receipt full

  abbrev pub touch : PurchaseOrderRow → PurchaseExec P PurchaseOrderRow
  touch po = do
    write database_failed (λ rows. record rows {
      orders =
          update_po po.purchase_order_id (λ row. record row { updated_at = draws.now }) rows.orders;
    })
    pure (record po { updated_at = draws.now })

  abbrev pub finish_receipt :
      PurchaseOrderRow → List PurchaseOrderLine → PurchaseExec P PurchaseOrderRow
  finish_receipt po lines db = elim (fully_received lines) [
    | true ↦ fire_receipt true receive_full po db
    | false ↦ elim (purchase_order_state_eq.beq po.status approved) [
      | true ↦ fire_receipt false receive_partial po db
      | false ↦ touch po db
    ]
  ]

  abbrev pub receive_valid :
      PurchaseOrderRow
      → List PurchaseOrderLine
      → Option PurchaseError
      → PurchaseExec P PurchaseOrderRow
  receive_valid po lines (some e) db = (err e, db)
  receive_valid po lines none db = (receive_lines po input.lines lines >>= finish_receipt po) db

  abbrev pub receive_into :
      PurchaseOrderRow → List PurchaseOrderLine → PurchaseExec P PurchaseOrderRow
  receive_into po lines = receive_valid po lines (validate_receipt P lines input.lines)

  abbrev pub is_receivable : PurchaseOrderRow → Bool
  is_receivable po =
      purchase_order_state_eq.beq po.status approved
      || purchase_order_state_eq.beq po.status partially_received

  abbrev pub receive_open : PurchaseOrderRow → PurchaseExec P PurchaseOrderRow
  receive_open po =
      query database_failed (λ rows. lines_of po.purchase_order_id rows.lines) >>= receive_into po

  abbrev pub receive_loaded : PurchaseOrderRow → PurchaseExec P PurchaseOrderRow
  receive_loaded po = unless (is_receivable po) po_invalid_transition >> receive_open po

  unfoldable pub receive_purchase_order : PurchaseExec P PurchaseOrderRow
  unfolding receive_lines
  receive_purchase_order =
      unless (may input.request.actor_id input.request.tenant_id "update") access_denied
      >> (get_own_po P input.request input.purchase_order_id >>= receive_loaded)
