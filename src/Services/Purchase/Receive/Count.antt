-- ===== src/Services/Purchase/Receive/Count.antt =====
-- The lines after the loop of a receipt: backend/services/inventory/purchaseOrder.go,
-- `ReceivePurchaseOrder`.
use rems.Prelude.{
  ◌≡◌, ap, ◌∙◌, inl, inr, ℕ, String, Bool, if◌then◌else◌, Option, none, some, List, [], ◌∷◌, arith,
  Bool-cases,
}
use rems.Prelude.Int.{pos, beq_ℤ}
use rems.Fsm.Types.{Uuid}
use rems.Services.Exec.{ok, Db, next_fails}
use rems.Services.Exec.Laws.{continue-ok}
use rems.Services.Inventory.Types.{Platform, StockDraws}
use rems.Services.Purchase.Types.{
  PurchaseOrderRow, PurchaseOrderLine, ReceivePoLineInput, ReceivePoInput, PurchaseRows, Purchasing,
}
use rems.Services.Purchase.Receive.{
  find_line, set_received, receive_line, receive_one, receive_lines,
}

-- The lines once the goods of one line of the receipt are counted.
abbrev count_one :
    Platform
    → ReceivePoLineInput
    → Option PurchaseOrderLine
    → List PurchaseOrderLine
    → List PurchaseOrderLine
count_one P rl none lines = lines
count_one P rl (some l) lines =
    if beq_ℤ rl.received_quantity (pos 0)
    then lines
    else set_received l.purchase_order_line_id (P.sum l.received_quantity rl.received_quantity)
        lines

-- The lines once the whole receipt is counted.
unfoldable pub counted :
    Platform → List ReceivePoLineInput → List PurchaseOrderLine → List PurchaseOrderLine
counted P [] lines = lines
counted P (rl ∷ rls) lines =
    counted P rls (count_one P rl (find_line rl.purchase_order_line_id lines) lines)

module _ (P : Platform) (R : Purchasing P) (draws : StockDraws) (elapsed : ℕ)
    (may may_stock : Uuid → Uuid → String → Bool) (input : ReceivePoInput) where
  receive_line-ok :
      (po : PurchaseOrderRow) (rl : ReceivePoLineInput) (l : PurchaseOrderLine)
      (lines : List PurchaseOrderLine) (db : Db (PurchaseRows P)) {lines' : List PurchaseOrderLine}
      → (receive_line P R draws elapsed may may_stock input po rl l lines db).0 ≡ ok lines'
      → lines'
        ≡ set_received l.purchase_order_line_id
            (P.sum l.received_quantity rl.received_quantity)
            lines
  receive_line-ok po rl l lines db h = elim (Bool-cases (next_fails db.faults)) [
    | inl bad ↦ ground arith
    | inr good ↦ ground arith
  ]

  receive_one-ok :
      (po : PurchaseOrderRow) (rl : ReceivePoLineInput) (o : Option PurchaseOrderLine)
      (lines : List PurchaseOrderLine) (db : Db (PurchaseRows P)) {lines' : List PurchaseOrderLine}
      → (receive_one P R draws elapsed may may_stock input po rl o lines db).0 ≡ ok lines'
      → lines' ≡ count_one P rl o lines
  receive_one-ok po rl none lines db h = cc h
  receive_one-ok po rl (some l) lines db {lines' = lines'} h =
      elim (Bool-cases (beq_ℤ rl.received_quantity (pos 0))) [
        | inl zero ↦ ground arith
        | inr goods ↦ ground (arith, receive_line-ok po rl l lines db {lines' = lines'})
      ]

  pub receive_lines-ok :
      (po : PurchaseOrderRow) (rls : List ReceivePoLineInput) (lines : List PurchaseOrderLine)
      (db : Db (PurchaseRows P)) {lines' : List PurchaseOrderLine}
      → (receive_lines P R draws elapsed may may_stock input po rls lines db).0 ≡ ok lines'
      → lines' ≡ counted P rls lines
  unfolding receive_lines counted
  receive_lines-ok po [] lines db h = cc h
  receive_lines-ok po (rl ∷ rls) lines db h =
      let o = find_line rl.purchase_order_line_id lines in
      let out = receive_one P R draws elapsed may may_stock input po rl o lines db in
      let (lines₁, first, rest) =
        continue-ok out.0 (receive_lines P R draws elapsed may may_stock input po rls) out.1 h in
      receive_lines-ok po rls lines₁ out.1 rest
      ∙ ap (counted P rls) (receive_one-ok po rl o lines db first)
