-- ===== src/Services/Purchase/Receive/Finish.antt =====
-- What the end of a receipt leaves alone, and the state that it leaves its order in:
-- backend/services/inventory/purchaseOrder.go, `ReceivePurchaseOrder` from the choice of the event on.
use rems.Prelude.{
  refl, inl, inr, ℕ, String, Bool, true, false, List, arith, Bool-cases, ◌≡◌, sym, ap, ◌∙◌, ◌⊎◌, [],
  ◌∷◌,
}
use rems.Prelude.Int.{◌≤ℤ◌}
use rems.Fsm.Types.{Uuid}
use rems.Domain.PurchaseOrder.{
  PurchaseOrderEvent, approved, receive_full, receive_partial, purchase_order_state_eq,
  PurchaseOrderState, partially_received, received,
}
use rems.Services.Exec.{next_fails, ok, Db, later}
use rems.Services.Exec.Laws.{Keeps, Keeps-bind, continue-ok}
use rems.Services.Inventory.Types.{ItemRow, StockMovement, Platform, StockDraws}
use rems.Services.Purchase.Types.{
  PurchaseOrderRow, PurchaseOrderLine, ReceivePoInput, PurchaseRows, PurchaseExec, Purchasing,
  po_fsm_failed,
}
use rems.Services.Purchase.Fire.{send_to_po}
use rems.Services.Purchase.Receive.{
  finish_receipt, touch, persist_receipt, fire_receipt, fully_received,
}
use rems.Domain.PurchaseOrder.Graph.{
  PurchaseOrderStep, receiving_part, receiving_rest, receiving_all,
}
use rems.Services.Purchase.Fire.Laws.{send_to_po-ok}

-- Every line has all that was ordered.
abbrev pub IsFull : List PurchaseOrderLine → Type 0
IsFull [] = Unit
IsFull (l ∷ lines) = (l.quantity ≤ℤ l.received_quantity) × IsFull lines

-- The state of an order with these lines, once something was received.
abbrev pub FitsLines : List PurchaseOrderLine → PurchaseOrderState → Type 0
FitsLines lines s = (IsFull lines × (s ≡ received)) ⊎ ((¬ IsFull lines) × (s ≡ partially_received))

fully_received-IsFull :
    (lines : List PurchaseOrderLine) → fully_received lines ≡ true → IsFull lines
unfolding fully_received
fully_received-IsFull [] h = tt
fully_received-IsFull (l ∷ lines) h = ground (arith, fully_received-IsFull lines)

not-IsFull : (lines : List PurchaseOrderLine) → fully_received lines ≡ false → ¬ IsFull lines
unfolding fully_received
not-IsFull [] h full = cc h
not-IsFull (l ∷ lines) h full = ground (arith, not-IsFull lines)

step-receive_full : {s t : PurchaseOrderState} → PurchaseOrderStep s receive_full t → t ≡ received
step-receive_full receiving_rest = refl
step-receive_full receiving_all = refl

step-receive_partial :
    {s t : PurchaseOrderState} → PurchaseOrderStep s receive_partial t → t ≡ partially_received
step-receive_partial receiving_part = refl

receivable-not_approved :
    (s : PurchaseOrderState)
    → (s ≡ approved) ⊎ (s ≡ partially_received)
    → purchase_order_state_eq.beq s approved ≡ false
    → s ≡ partially_received
unfolding purchase_order_state_eq
receivable-not_approved s (inl e) h =
    let beq = purchase_order_state_eq.beq in absurd (cc (h, ap (λ x. beq x approved) e))
receivable-not_approved s (inr e) h = e

module _ (P : Platform) (R : Purchasing P) (draws : StockDraws) (elapsed : ℕ)
    (may may_stock : Uuid → Uuid → String → Bool) (input : ReceivePoInput) where
  -- The lines, the items and the movements.
  abbrev pub goods : PurchaseRows P → List PurchaseOrderLine × List ItemRow × List StockMovement
  goods rows = (rows.lines, rows.stock.items, rows.stock.movements)

  touch-Keeps :
      (po : PurchaseOrderRow) → Keeps goods (touch P R draws elapsed may may_stock input po)
  touch-Keeps po db = elim (Bool-cases (next_fails db.faults)) [
    | inl bad ↦ ground arith
    | inr good ↦ ground arith
  ]

  persist_receipt-Keeps :
      (full : Bool) (po : PurchaseOrderRow)
      → Keeps goods (persist_receipt P R draws elapsed may may_stock input full po)
  persist_receipt-Keeps full po db = elim (Bool-cases (next_fails db.faults)) [
    | inl bad ↦ ground arith
    | inr good ↦ ground arith
  ]

  fire_receipt-Keeps :
      (full : Bool) (event : PurchaseOrderEvent) (po : PurchaseOrderRow)
      → Keeps goods (fire_receipt P R draws elapsed may may_stock input full event po)
  fire_receipt-Keeps full event po =
      let fired : PurchaseExec P PurchaseOrderRow =
        λ db. (send_to_po P draws elapsed po_fsm_failed input.request event po, db) in
      Keeps-bind goods fired (persist_receipt P R draws elapsed may may_stock input full)
        (λ db. refl) (persist_receipt-Keeps full)

  pub finish_receipt-Keeps :
      (po : PurchaseOrderRow) (lines : List PurchaseOrderLine)
      → Keeps goods (finish_receipt P R draws elapsed may may_stock input po lines)
  finish_receipt-Keeps po lines db = elim (Bool-cases (fully_received lines)) [
    | inl full ↦ rw (full, finish_receipt) (fire_receipt-Keeps true receive_full po db)
    | inr part ↦ elim (Bool-cases (purchase_order_state_eq.beq po.status approved)) [
      | inl first ↦
          rw (part, first, finish_receipt) (fire_receipt-Keeps false receive_partial po db)
      | inr again ↦ rw (part, again, finish_receipt) (touch-Keeps po db)
    ]
  ]

  persist_receipt-ok :
      (full : Bool) (po : PurchaseOrderRow) (db : Db (PurchaseRows P)) {po' : PurchaseOrderRow}
      → (persist_receipt P R draws elapsed may may_stock input full po db).0 ≡ ok po'
      → po'.status ≡ po.status
  persist_receipt-ok full po db h = elim (Bool-cases (next_fails db.faults)) [
    | inl bad ↦ ground arith
    | inr good ↦ elim (Bool-cases (next_fails (later db.faults))) [
      | inl bad ↦ ground arith
      | inr good' ↦ ground arith
    ]
  ]

  touch-ok :
      (po : PurchaseOrderRow) (db : Db (PurchaseRows P)) {po' : PurchaseOrderRow}
      → (touch P R draws elapsed may may_stock input po db).0 ≡ ok po'
      → po'.status ≡ po.status
  touch-ok po db h = elim (Bool-cases (next_fails db.faults)) [
    | inl bad ↦ ground arith
    | inr good ↦ ground arith
  ]

  -- The state after an event is the one that a step of the diagram leads to.
  fire_receipt-ok :
      (full : Bool) (event : PurchaseOrderEvent) (po : PurchaseOrderRow) (db : Db (PurchaseRows P))
      {po' : PurchaseOrderRow}
      → (fire_receipt P R draws elapsed may may_stock input full event po db).0 ≡ ok po'
      → PurchaseOrderStep po.status event po'.status
  fire_receipt-ok full event po db h =
      let (sent, fired, persisted) =
        continue-ok (send_to_po P draws elapsed po_fsm_failed input.request event po)
          (persist_receipt P R draws elapsed may may_stock input full) db h in
      let (t, step, guard, e) =
        send_to_po-ok P draws elapsed po_fsm_failed input.request event po fired in
      rw (persist_receipt-ok full sent db persisted ∙ ap (λ (s : PurchaseOrderRow). s.status) e)
        step

  pub finish_receipt-ok :
      (po : PurchaseOrderRow) (lines : List PurchaseOrderLine) (db : Db (PurchaseRows P))
      {po' : PurchaseOrderRow}
      → (po.status ≡ approved) ⊎ (po.status ≡ partially_received)
      → (finish_receipt P R draws elapsed may may_stock input po lines db).0 ≡ ok po'
      → FitsLines lines po'.status
  finish_receipt-ok po lines db {po' = po'} from h = elim (Bool-cases (fully_received lines)) [
    | inl full ↦
        let fired : (finish_receipt P R draws elapsed may may_stock input po lines db).0
            ≡ (fire_receipt P R draws elapsed may may_stock input true receive_full po db).0 =
          rw (full, finish_receipt) refl in
        inl (
          fully_received-IsFull lines full,
          step-receive_full (fire_receipt-ok true receive_full po db (sym fired ∙ h)),
        )
    | inr part ↦ elim (Bool-cases (purchase_order_state_eq.beq po.status approved)) [
      | inl first ↦
          let fired : (finish_receipt P R draws elapsed may may_stock input po lines db).0
              ≡ (fire_receipt P R draws elapsed may may_stock input false receive_partial po db).0 =
            rw (part, first, finish_receipt) refl in
          inr (
            not-IsFull lines part,
            step-receive_partial (fire_receipt-ok false receive_partial po db (sym fired ∙ h)),
          )
      | inr again ↦
          let touched : (finish_receipt P R draws elapsed may may_stock input po lines db).0
              ≡ (touch P R draws elapsed may may_stock input po db).0 =
            rw (part, again, finish_receipt) refl in
          inr (
            not-IsFull lines part,
            touch-ok po db (sym touched ∙ h) ∙ receivable-not_approved po.status from again,
          )
    ]
  ]
