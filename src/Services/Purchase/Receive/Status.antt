-- ===== src/Services/Purchase/Receive/Status.antt =====
-- When a receipt succeeds, and the state of its order then:
-- backend/services/inventory/purchaseOrder.go, `ReceivePurchaseOrder`.
use rems.Prelude.{
  ◌≡◌, refl, sym, ap, ◌∙◌, ◌⊎◌, inl, inr, ℕ, String, Bool, true, ◌||◌, Option, none, some, List,
  Bool-cases,
}
use mathlib.Core.Path.{subst}
use rems.Fsm.Types.{Uuid}
use rems.Domain.PurchaseOrder.{
  PurchaseOrderState, approved, partially_received, purchase_order_state_eq,
}
use rems.Services.Exec.{ok, err, Db, unless, query, next_fails, later, ◌>>=◌}
use rems.Services.Exec.Laws.{continue-ok, unless-ok}
use rems.Services.Inventory.Types.{Platform, StockDraws}
use rems.Services.Purchase.Types.{
  PurchaseOrderRow, PurchaseOrderLine, ReceivePoInput, PurchaseRows, PurchaseError, Purchasing,
  find_po, get_own_po, access_denied, po_invalid_transition, database_failed,
}
use rems.Services.Purchase.Fire.{lines_of}
use rems.Services.Purchase.Fire.Laws.{get_own_po-found, get_own_po-Keeps}
use rems.Services.Purchase.Receive.{
  validate_receipt, receive_lines, finish_receipt, receive_valid, receive_into, receive_open,
  receive_loaded, is_receivable, receive_purchase_order,
}
use rems.Services.Purchase.Receive.Count.{counted, receive_lines-ok}
use rems.Services.Purchase.Receive.Finish.{FitsLines, finish_receipt-ok}

receivable-cases :
    (s : PurchaseOrderState)
    → (purchase_order_state_eq.beq s approved || purchase_order_state_eq.beq s partially_received)
      ≡ true
    → (s ≡ approved) ⊎ (s ≡ partially_received)
unfolding purchase_order_state_eq
receivable-cases approved h = inl refl
receivable-cases partially_received h = inr refl
receivable-cases _ h = absurd (cc h)

module _ (P : Platform) (R : Purchasing P) (draws : StockDraws) (elapsed : ℕ)
    (may may_stock : Uuid → Uuid → String → Bool) (input : ReceivePoInput) where
  receive_valid-ok :
      (po : PurchaseOrderRow) (lines : List PurchaseOrderLine) (o : Option PurchaseError)
      (db : Db (PurchaseRows P)) {po' : PurchaseOrderRow}
      → (po.status ≡ approved) ⊎ (po.status ≡ partially_received)
      → (receive_valid P R draws elapsed may may_stock input po lines o db).0 ≡ ok po'
      → (o ≡ none) × FitsLines (counted P input.lines lines) po'.status
  receive_valid-ok po lines (some e) db from h = cc h
  receive_valid-ok po lines none db {po' = po'} from h =
      let out = receive_lines P R draws elapsed may may_stock input po input.lines lines db in
      let (lines', looped, finished) =
        continue-ok out.0 (finish_receipt P R draws elapsed may may_stock input po) out.1 h in
      (
        refl,
        subst (λ ls. FitsLines ls po'.status)
            (receive_lines-ok P R draws elapsed may may_stock input po input.lines lines db looped)
            (finish_receipt-ok P R draws elapsed may may_stock input po lines' out.1 from finished),
      )

  -- The check passed, and the state is the one of the counted lines.
  abbrev pub Finished : PurchaseOrderRow → List PurchaseOrderLine → PurchaseOrderRow → Type 0
  Finished po lines result =
      (validate_receipt P lines input.lines ≡ none)
      × FitsLines (counted P input.lines lines) result.status

  receive_open-ok :
      (po : PurchaseOrderRow) (db : Db (PurchaseRows P)) {po' : PurchaseOrderRow}
      → (po.status ≡ approved) ⊎ (po.status ≡ partially_received)
      → (receive_open P R draws elapsed may may_stock input po db).0 ≡ ok po'
      → Finished po (lines_of po.purchase_order_id db.rows.lines) po'
  receive_open-ok po db {po' = po'} from h =
      let lines = lines_of po.purchase_order_id db.rows.lines in
      let after = record db { faults = later db.faults } in
      elim (Bool-cases (next_fails db.faults)) [
        | inl bad ↦
            let failed : (receive_open P R draws elapsed may may_stock input po db).0
                ≡ err database_failed =
              rw (bad, receive_open, query) refl in
            absurd (cc (failed, h))
        | inr good ↦
            let opened : (receive_open P R draws elapsed may may_stock input po db).0
                ≡ (receive_into P R draws elapsed may may_stock input po lines after).0 =
              rw (good, receive_open, query) refl in
            receive_valid-ok po lines (validate_receipt P lines input.lines) after from
              (sym opened ∙ h)
      ]

  receive_loaded-ok :
      (po : PurchaseOrderRow) (db : Db (PurchaseRows P)) {po' : PurchaseOrderRow}
      → (receive_loaded P R draws elapsed may may_stock input po db).0 ≡ ok po'
      → ((po.status ≡ approved) ⊎ (po.status ≡ partially_received))
        × Finished po (lines_of po.purchase_order_id db.rows.lines) po'
  receive_loaded-ok po db {po' = po'} h =
      let goods = is_receivable P R draws elapsed may may_stock input po in
      elim (Bool-cases goods) [
        | inl held ↦
            let opened : (receive_loaded P R draws elapsed may may_stock input po db).0
                ≡ (receive_open P R draws elapsed may may_stock input po db).0 =
              rw (held, receive_loaded) refl in
            let from = receivable-cases po.status held in
            (from, receive_open-ok po db from (sym opened ∙ h))
        | inr closed ↦
            let failed : (receive_loaded P R draws elapsed may may_stock input po db).0
                ≡ err po_invalid_transition =
              rw (closed, receive_loaded) refl in
            absurd (cc (failed, h))
      ]

  -- What a receipt that succeeded had found, and the state of the order that it returns.
  abbrev pub Closed : PurchaseRows P → PurchaseOrderRow → Type 0
  Closed before result =
      (po : PurchaseOrderRow) × (may input.request.actor_id input.request.tenant_id "update" ≡ true)
      × (find_po input.request.tenant_id input.purchase_order_id before.orders ≡ some po)
      × (po.restaurant_id ≡ input.request.restaurant_id)
      × ((po.status ≡ approved) ⊎ (po.status ≡ partially_received))
      × Finished po (lines_of po.purchase_order_id before.lines) result

  -- A receipt that succeeds was allowed and found the order, approved or partially received, under its
  -- identifier, tenant and restaurant; the check of its lines passed, and the order that it returns
  -- is received where the lines have all that was ordered once the receipt is counted, and partially
  -- received where they do not.
  pub receive_purchase_order-Closed :
      (db : Db (PurchaseRows P)) {po' : PurchaseOrderRow}
      → (receive_purchase_order P R draws elapsed may may_stock input db).0 ≡ ok po'
      → Closed db.rows po'
  unfolding receive_purchase_order
  receive_purchase_order-Closed db {po' = po'} h =
      let granted = may input.request.actor_id input.request.tenant_id "update" in
      let load = get_own_po P input.request input.purchase_order_id in
      let checked = unless granted access_denied db in
      let (u, passed, loading) =
        continue-ok checked.0 (λ u. load >>= receive_loaded P R draws elapsed may may_stock input)
          checked.1 h in
      let (may_update, same) = unless-ok granted access_denied db passed in
      let (po, loaded, receiving) =
        continue-ok (load checked.1).0 (receive_loaded P R draws elapsed may may_stock input)
          (load checked.1).1 loading in
      let (found, own) =
        get_own_po-found P draws elapsed input.request input.purchase_order_id checked.1 loaded in
      let kept : (load checked.1).1.rows ≡ db.rows =
        get_own_po-Keeps P draws elapsed (λ rows. rows) input.request input.purchase_order_id
          checked.1
        ∙ ap (λ (d : Db (PurchaseRows P)). d.rows) same in
      let (from, finished) = receive_loaded-ok po (load checked.1).1 receiving in
      let orders = ap (λ (d : Db (PurchaseRows P)). d.rows.orders) same in
      (
        po,
        may_update,
        sym (ap (find_po input.request.tenant_id input.purchase_order_id) orders) ∙ found,
        own,
        from,
        subst
            (λ (rows : PurchaseRows P). Finished po (lines_of po.purchase_order_id rows.lines) po')
            kept finished,
      )
