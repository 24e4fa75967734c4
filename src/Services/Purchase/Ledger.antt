-- ===== src/Services/Purchase/Ledger.antt =====
-- The stock ledger under the operations of `InventoryService` and `PurchaseOrderService` that write
-- it: backend/services/inventory/inventory.go, inventoryNotif.go and purchaseOrder.go.
use rems.Prelude.{
  ◌≡◌, sym, Option-cases, ℕ, String, Bool, Option, none, some, List, [], ◌∷◌, Bool-cases, inl, inr,
}
use mathlib.Core.Path.{subst}
use rems.Prelude.Int.{ℤ, pos, beq_ℤ, ◌≤ℤ◌}
use rems.Fsm.Types.{Uuid}
use rems.Services.Exec.{unless, query, write, next_fails, later, ◌>>=◌}
use rems.Services.Exec.Laws.{Preserves, Preserves-seq, unless-Preserves}
use rems.Services.Inventory.Types.{
  Platform, InventoryServiceRequest, InventoryRows, InventoryExec, StockDraws,
}
use rems.Services.Inventory.Moves.{AdjustStockInput, adjust_stock}
use rems.Services.Inventory.Moves.Laws.{IsSound, RowsSound, KeepsSign, adjust_stock-RowsSound}
use rems.Services.Inventory.Deduct.{OrderedItem, notify_order}
use rems.Services.Inventory.Deduct.Laws.{notify_order-RowsSound}
use rems.Services.Inventory.Items.{
  CreateItemInput, UpdateItemInput, create_item, update_item, delete_item,
}
use rems.Services.Inventory.Items.Laws.{
  NoItem, NoMovement, create_item-RowsSound, update_item-RowsSound, delete_item-RowsSound,
}
use rems.Services.Purchase.Types.{
  PurchaseOrderRow, PurchaseOrderLine, ReceivePoLineInput, ReceivePoInput, PurchaseRows,
  PurchaseExec, Purchasing, get_own_po, database_failed, access_denied, po_invalid_transition,
}
use rems.Services.Purchase.Fire.{lines_of}
use rems.Services.Purchase.Fire.Laws.{get_own_po-Keeps}
use rems.Services.Purchase.Receive.Finish.{finish_receipt-Keeps}
use rems.Services.Purchase.Receive.{
  find_line, validate_receipt, received_stock, receive_line, receive_one, receive_lines,
  finish_receipt, receive_into, receive_open, receive_loaded, is_receivable, receive_purchase_order,
}

module _ (P : Platform) (R : Purchasing P) (draws : StockDraws) (elapsed : ℕ)
    (may may_stock : Uuid → Uuid → String → Bool) (input : ReceivePoInput) where
  abbrev StockSound : PurchaseRows P → Type 0
  StockSound rows = RowsSound P draws rows.stock

  receive_line-StockSound :
      (po : PurchaseOrderRow) (rl : ReceivePoLineInput) (l : PurchaseOrderLine)
      (lines : List PurchaseOrderLine)
      → KeepsSign P draws
      → Preserves StockSound (receive_line P R draws elapsed may may_stock input po rl l lines)
  receive_line-StockSound po rl l lines sign db h = elim (Bool-cases (next_fails db.faults)) [
    | inl bad ↦ rw (bad, write, receive_line) h
    | inr good ↦
        rw (good, write, receive_line)
          (adjust_stock-RowsSound P draws may_stock
            (received_stock P R draws elapsed may may_stock input po l rl) sign
            (record { faults = later db.faults; rows = db.rows.stock }) h)
  ]

  receive_one-StockSound :
      (po : PurchaseOrderRow) (rl : ReceivePoLineInput) (o : Option PurchaseOrderLine)
      (lines : List PurchaseOrderLine)
      → KeepsSign P draws
      → Preserves StockSound (receive_one P R draws elapsed may may_stock input po rl o lines)
  receive_one-StockSound po rl none lines sign db h = h
  receive_one-StockSound po rl (some l) lines sign db h =
      elim (Bool-cases (beq_ℤ rl.received_quantity (pos 0))) [
        | inl zero ↦ rw (zero, receive_one) h
        | inr goods ↦ rw (goods, receive_one) (receive_line-StockSound po rl l lines sign db h)
      ]

  receive_lines-StockSound :
      (po : PurchaseOrderRow) (rls : List ReceivePoLineInput) (lines : List PurchaseOrderLine)
      → KeepsSign P draws
      → Preserves StockSound (receive_lines P R draws elapsed may may_stock input po rls lines)
  unfolding receive_lines
  receive_lines-StockSound po [] lines sign db h = h
  receive_lines-StockSound po (rl ∷ rls) lines sign db h =
      let o = find_line rl.purchase_order_line_id lines in
      Preserves-seq StockSound (receive_one P R draws elapsed may may_stock input po rl o lines)
        (receive_lines P R draws elapsed may may_stock input po rls)
        (receive_one-StockSound po rl o lines sign)
        (λ lines'. receive_lines-StockSound po rls lines' sign) db h

  finish_receipt-StockSound :
      (po : PurchaseOrderRow) (lines : List PurchaseOrderLine)
      → Preserves StockSound (finish_receipt P R draws elapsed may may_stock input po lines)
  finish_receipt-StockSound po lines db h =
      let kept = finish_receipt-Keeps P R draws elapsed may may_stock input po lines db in
      subst (λ v. IsSound v.1 v.2) (sym kept) h

  receive_into-StockSound :
      (po : PurchaseOrderRow) (lines : List PurchaseOrderLine)
      → KeepsSign P draws
      → Preserves StockSound (receive_into P R draws elapsed may may_stock input po lines)
  receive_into-StockSound po lines sign db h =
      elim (Option-cases (validate_receipt P lines input.lines)) [
        | inr (e, bad) ↦ rw (bad, receive_into) h
        | inl valid ↦
            rw (valid, receive_into)
              (Preserves-seq StockSound
                (receive_lines P R draws elapsed may may_stock input po input.lines lines)
                (finish_receipt P R draws elapsed may may_stock input po)
                (receive_lines-StockSound po input.lines lines sign) (finish_receipt-StockSound po)
                db h)
      ]

  receive_loaded-StockSound :
      (po : PurchaseOrderRow)
      → KeepsSign P draws
      → Preserves StockSound (receive_loaded P R draws elapsed may may_stock input po)
  receive_loaded-StockSound po sign =
      let load : PurchaseExec P (List PurchaseOrderLine) =
        query database_failed (λ rows. lines_of po.purchase_order_id rows.lines) in
      let receivable = is_receivable P R draws elapsed may may_stock input po in
      Preserves-seq StockSound (unless receivable po_invalid_transition)
        (λ u. receive_open P R draws elapsed may may_stock input po)
        (unless-Preserves StockSound receivable po_invalid_transition)
        (λ u.
          Preserves-seq StockSound load (receive_into P R draws elapsed may may_stock input po)
            (λ db h. h) (λ lines. receive_into-StockSound po lines sign))

  receive_purchase_order-StockSound :
      KeepsSign P draws
      → Preserves StockSound (receive_purchase_order P R draws elapsed may may_stock input)
  unfolding receive_purchase_order
  receive_purchase_order-StockSound sign =
      let granted = may input.request.actor_id input.request.tenant_id "update" in
      let load = get_own_po P input.request input.purchase_order_id in
      Preserves-seq StockSound (unless granted access_denied)
        (λ u. load >>= receive_loaded P R draws elapsed may may_stock input)
        (unless-Preserves StockSound granted access_denied)
        (λ u.
          Preserves-seq StockSound load (receive_loaded P R draws elapsed may may_stock input)
            (λ db h.
              subst (λ (stock : InventoryRows P). RowsSound P draws stock)
                (sym (
                  get_own_po-Keeps P draws elapsed (λ rows. rows.stock) input.request
                    input.purchase_order_id db))
                h)
            (λ po. receive_loaded-StockSound po sign))

-- The tables of items and movements after any sequence of the operations that write them, each with
-- its own faults and draws, whatever its outcome. A new item has an unused identifier and opens with
-- a quantity that is not negative.
module _ (P : Platform) (R : Purchasing P) (start : PurchaseRows P) where
  abbrev pub after_stock :
      {A : Type 0} → InventoryExec P A → List Bool → PurchaseRows P → PurchaseRows P
  after_stock m faults rows = record rows {
    stock = (m (record { faults = faults; rows = rows.stock })).1.rows;
  }

  pub data Reaches : PurchaseRows P → Type 0 where
    at_start : Reaches start
    adjusting :
        (rows : PurchaseRows P) (faults : List Bool) (draws : StockDraws)
        (may : Uuid → Uuid → String → Bool) (input : AdjustStockInput)
        → Reaches rows
        → Reaches (after_stock (adjust_stock P draws may input) faults rows)
    notifying :
        (rows : PurchaseRows P) (faults : List Bool) (draws : StockDraws)
        (tenant_id restaurant_id order_id : Uuid) (ordered : List OrderedItem)
        → Reaches rows
        → Reaches (
            after_stock (notify_order P draws tenant_id restaurant_id order_id ordered) faults rows)
    creating :
        (rows : PurchaseRows P) (faults : List Bool) (draws : StockDraws)
        (may : Uuid → Uuid → String → Bool) (input : CreateItemInput)
        → NoItem draws.new_id rows.stock.items
        → NoMovement draws.new_id rows.stock.movements
        → pos 0 ≤ℤ input.current_quantity
        → Reaches rows
        → Reaches (after_stock (create_item P draws may input) faults rows)
    updating :
        (rows : PurchaseRows P) (faults : List Bool) (draws : StockDraws)
        (may : Uuid → Uuid → String → Bool) (input : UpdateItemInput)
        → Reaches rows
        → Reaches (after_stock (update_item P draws may input) faults rows)
    deleting :
        (rows : PurchaseRows P) (faults : List Bool) (draws : StockDraws)
        (may : Uuid → Uuid → String → Bool) (request : InventoryServiceRequest) (id : Uuid)
        → Reaches rows
        → Reaches (after_stock (delete_item P draws may request id) faults rows)
    receiving :
        (rows : PurchaseRows P) (faults : List Bool) (draws : StockDraws) (elapsed : ℕ)
        (may may_stock : Uuid → Uuid → String → Bool) (input : ReceivePoInput)
        → Reaches rows
        → Reaches
            (receive_purchase_order P R draws elapsed may may_stock input
              (record { faults = faults; rows = rows })).1.rows

  -- From items and movements that agree, whatever `InventoryService` and `PurchaseOrderService` adjust,
  -- order, create, update, delete and receive, in whatever order and with whatever failures: no
  -- quantity becomes negative, and each is the balance after the item's last movement, or zero. A column
  -- keeps zero and makes no number negative, a new item has an unused identifier and opens with a
  -- quantity that is not negative.
  pub Reaches-IsSound :
      {rows : PurchaseRows P}
      → ((q : ℤ) → pos 0 ≤ℤ q → pos 0 ≤ℤ P.column q)
      → P.column (pos 0) ≡ pos 0
      → IsSound start.stock.items start.stock.movements
      → Reaches rows
      → IsSound rows.stock.items rows.stock.movements
  Reaches-IsSound sign zero h at_start = h
  Reaches-IsSound sign zero h (adjusting rows faults draws may input run) =
      adjust_stock-RowsSound P draws may input sign (record { faults = faults; rows = rows.stock })
        (Reaches-IsSound sign zero h run)
  Reaches-IsSound sign zero h (notifying rows faults draws t r o ordered run) =
      notify_order-RowsSound P draws t r o ordered sign
        (record { faults = faults; rows = rows.stock }) (Reaches-IsSound sign zero h run)
  Reaches-IsSound sign zero h (creating rows faults draws may input no_item no_move nonneg run) =
      create_item-RowsSound P draws may input (record { faults = faults; rows = rows.stock }) sign
        zero no_item no_move nonneg (Reaches-IsSound sign zero h run)
  Reaches-IsSound sign zero h (updating rows faults draws may input run) =
      update_item-RowsSound P draws may input (record { faults = faults; rows = rows.stock })
        (Reaches-IsSound sign zero h run)
  Reaches-IsSound sign zero h (deleting rows faults draws may request id run) =
      delete_item-RowsSound P draws may request id (record { faults = faults; rows = rows.stock })
        (Reaches-IsSound sign zero h run)
  Reaches-IsSound sign zero h (receiving rows faults draws elapsed may may_stock input run) =
      receive_purchase_order-StockSound P R draws elapsed may may_stock input sign
        (record { faults = faults; rows = rows }) (Reaches-IsSound sign zero h run)
