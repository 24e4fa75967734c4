-- ===== src/Services/Purchase/Receive/Bounds.antt =====
-- No line is received beyond what was ordered: backend/services/inventory/purchaseOrder.go,
-- `ReceivePurchaseOrder`.
use rems.Prelude.{
  ◌≡◌, refl, sym, ap, ◌∙◌, inl, inr, ℕ, String, Bool, Option, none, some, List, [], ◌∷◌, arith,
  Bool-cases, Option-cases,
}
use mathlib.Core.Path.{subst}
use rems.Prelude.Int.{pos, beq_ℤ}
use rems.Fsm.Types.{Uuid}
use rems.Services.Exec.{ok_inj, Result, ok, Db, unless, query, write, next_fails, later, ◌>>=◌}
use rems.Services.Exec.Laws.{
  Preserves, Preserves-continue, Preserves-bind, unless-Preserves, unless-Keeps,
}
use rems.Services.Inventory.Types.{Platform, StockDraws}
use rems.Services.Purchase.Types.{
  PurchaseError, PurchaseOrderRow, PurchaseOrderLine, ReceivePoLineInput, ReceivePoInput,
  PurchaseRows, Purchasing, get_own_po, access_denied,
}
use rems.Services.Purchase.Fire.{lines_of}
use rems.Services.Purchase.Fire.Laws.{get_own_po-Keeps}
use rems.Services.Purchase.Receive.{
  find_line, set_received, validate_receipt, receive_line, receive_one, receive_lines,
  finish_receipt, receive_into, receive_open, receive_loaded, is_receivable, receive_purchase_order,
}
use rems.Services.Purchase.Receive.Finish.{finish_receipt-Keeps}
use rems.Services.Purchase.Receive.Laws.{
  IsKeyed, Unnamed, IsDistinct, HasRoom, Room, validate_receipt-Room, Room-set_received, Agree,
  Agree-set_received, lines_of-Agree, IsWithin, KeepsOrder, set_received-IsWithin,
}

find_line-id :
    (id : Uuid) (lines : List PurchaseOrderLine) {l : PurchaseOrderLine}
    → find_line id lines ≡ some l
    → l.purchase_order_line_id ≡ id
find_line-id id [] h = cc h
find_line-id id (m ∷ lines) {l = l} h = ground (arith, find_line-id id lines {l = l})

module _ (P : Platform) (R : Purchasing P) (draws : StockDraws) (elapsed : ℕ)
    (may may_stock : Uuid → Uuid → String → Bool) (input : ReceivePoInput) where
  abbrev pub RowsWithin : PurchaseRows P → Type 0
  RowsWithin rows = IsWithin P rows.lines

  -- The lines stay within their orders, and what is handed on still has room and agrees.
  abbrev Received :
      List ReceivePoLineInput
      → Result PurchaseError (List PurchaseOrderLine) × Db (PurchaseRows P)
      → Type 0
  Received rls out =
      RowsWithin out.1.rows
      × ((lines : List PurchaseOrderLine)
          → out.0 ≡ ok lines
          → Room P lines rls × Agree lines out.1.rows.lines)

  receive_line-Received :
      (po : PurchaseOrderRow) (rl : ReceivePoLineInput) (rls : List ReceivePoLineInput)
      (l : PurchaseOrderLine) (lines : List PurchaseOrderLine) (db : Db (PurchaseRows P))
      → KeepsOrder P
      → find_line rl.purchase_order_line_id lines ≡ some l
      → l.purchase_order_line_id ≡ rl.purchase_order_line_id
      → HasRoom P rl (some l)
      → Unnamed rl.purchase_order_line_id rls
      → Room P lines rls
      → Agree lines db.rows.lines
      → RowsWithin db.rows
      → Received rls (receive_line P R draws elapsed may may_stock input po rl l lines db)
  receive_line-Received po rl rls l lines db order found named room others rest agree within =
      let id = l.purchase_order_line_id in
      let q = P.sum l.received_quantity rl.received_quantity in
      let there : find_line id lines ≡ some l = ap (λ j. find_line j lines) named ∙ found in
      let written =
        set_received-IsWithin P id q l lines db.rows.lines order there room agree within in
      let unnamed : Unnamed id rls = subst (λ j. Unnamed j rls) (sym named) others in
      let room_left = Room-set_received P id q lines rls unnamed rest in
      let agreeing = Agree-set_received id q (P.column q) lines db.rows.lines agree in
      let goes_on : (lines' : List PurchaseOrderLine)
          → ◌≡◌ {A = Result PurchaseError (List PurchaseOrderLine)} (ok (set_received id q lines))
              (ok lines')
          → Room P lines' rls × Agree lines' (set_received id (P.column q) db.rows.lines) =
        λ lines' h.
          subst (λ ls. Room P ls rls × Agree ls (set_received id (P.column q) db.rows.lines))
            (ok_inj h) (room_left, agreeing) in
      elim (Bool-cases (next_fails db.faults)) [
        | inl bad ↦ rw (bad, write, receive_line) (within, λ lines' h. absurd (cc h))
        | inr good ↦ rw (good, write, receive_line) (written, goes_on)
      ]

  receive_one-Received :
      (po : PurchaseOrderRow) (rl : ReceivePoLineInput) (rls : List ReceivePoLineInput)
      (o : Option PurchaseOrderLine) (lines : List PurchaseOrderLine) (db : Db (PurchaseRows P))
      → KeepsOrder P
      → find_line rl.purchase_order_line_id lines ≡ o
      → HasRoom P rl o
      → Unnamed rl.purchase_order_line_id rls
      → Room P lines rls
      → Agree lines db.rows.lines
      → RowsWithin db.rows
      → Received rls (receive_one P R draws elapsed may may_stock input po rl o lines db)
  receive_one-Received po rl rls none lines db order found room others rest agree within = (
    within,
    λ lines' h. subst (λ ls. Room P ls rls × Agree ls db.rows.lines) (ok_inj h) (rest, agree),
  )
  receive_one-Received po rl rls (some l) lines db order found room others rest agree within =
      elim (Bool-cases (beq_ℤ rl.received_quantity (pos 0))) [
        | inl zero ↦
            rw (zero, receive_one)
              (
                within,
                λ lines' h.
                    subst (λ ls. Room P ls rls × Agree ls db.rows.lines) (ok_inj h) (rest, agree),
              )
        | inr some_goods ↦
            rw (some_goods, receive_one)
              (receive_line-Received po rl rls l lines db order found
                (find_line-id rl.purchase_order_line_id lines found) room others rest agree within)
      ]

  receive_lines-RowsWithin :
      (po : PurchaseOrderRow) (rls : List ReceivePoLineInput) (lines : List PurchaseOrderLine)
      (db : Db (PurchaseRows P))
      → KeepsOrder P
      → IsDistinct rls
      → Room P lines rls
      → Agree lines db.rows.lines
      → RowsWithin db.rows
      → RowsWithin (receive_lines P R draws elapsed may may_stock input po rls lines db).1.rows
  unfolding receive_lines
  receive_lines-RowsWithin po [] lines db order distinct room agree within = within
  receive_lines-RowsWithin po (rl ∷ rls) lines db order distinct room agree within =
      let o = find_line rl.purchase_order_line_id lines in
      let received =
        receive_one-Received po rl rls o lines db order refl room.0 distinct.0 room.1 agree
          within in
      let out = receive_one P R draws elapsed may may_stock input po rl o lines db in
      Preserves-continue RowsWithin out.0
        (receive_lines P R draws elapsed may may_stock input po rls) out.1 received.0
        (λ lines' e.
          let (room', agree') = received.1 lines' e in
          receive_lines-RowsWithin po rls lines' out.1 order distinct.1 room' agree' received.0)

  finish_receipt-RowsWithin :
      (po : PurchaseOrderRow) (lines : List PurchaseOrderLine)
      → Preserves RowsWithin (finish_receipt P R draws elapsed may may_stock input po lines)
  finish_receipt-RowsWithin po lines db h =
      let kept = finish_receipt-Keeps P R draws elapsed may may_stock input po lines db in
      subst (IsWithin P) (sym (ap (λ v. v.0) kept)) h

  receive_into-RowsWithin :
      (po : PurchaseOrderRow) (db : Db (PurchaseRows P))
      → KeepsOrder P
      → IsDistinct input.lines
      → IsKeyed db.rows.lines
      → RowsWithin db.rows
      → RowsWithin
          (receive_into P R draws elapsed may may_stock input po
            (lines_of po.purchase_order_id db.rows.lines)
            db).1.rows
  receive_into-RowsWithin po db order distinct keyed within =
      let lines = lines_of po.purchase_order_id db.rows.lines in
      elim (Option-cases (validate_receipt P lines input.lines)) [
        | inr (e, bad) ↦ rw (bad, receive_into) within
        | inl valid ↦
            rw (valid, receive_into)
              (Preserves-continue RowsWithin
                (receive_lines P R draws elapsed may may_stock input po input.lines lines db).0
                (finish_receipt P R draws elapsed may may_stock input po)
                (receive_lines P R draws elapsed may may_stock input po input.lines lines db).1
                (receive_lines-RowsWithin po input.lines lines db order distinct
                  (validate_receipt-Room P lines input.lines valid)
                  (lines_of-Agree po.purchase_order_id db.rows.lines keyed) within)
                (λ lines' e.
                  finish_receipt-RowsWithin po lines'
                    (receive_lines P R draws elapsed may may_stock input po input.lines lines db).1
                    (receive_lines-RowsWithin po input.lines lines db order distinct
                      (validate_receipt-Room P lines input.lines valid)
                      (lines_of-Agree po.purchase_order_id db.rows.lines keyed) within)))
      ]

  receive_open-RowsWithin :
      (po : PurchaseOrderRow) (db : Db (PurchaseRows P))
      → KeepsOrder P
      → IsDistinct input.lines
      → IsKeyed db.rows.lines
      → RowsWithin db.rows
      → RowsWithin (receive_open P R draws elapsed may may_stock input po db).1.rows
  receive_open-RowsWithin po db order distinct keyed within =
      elim (Bool-cases (next_fails db.faults)) [
        | inl bad ↦ rw (bad, receive_open, query) within
        | inr good ↦
            rw (good, receive_open, query)
              (receive_into-RowsWithin po (record db { faults = later db.faults }) order distinct
                keyed within)
      ]

  receive_loaded-RowsWithin :
      (po : PurchaseOrderRow) (db : Db (PurchaseRows P))
      → KeepsOrder P
      → IsDistinct input.lines
      → IsKeyed db.rows.lines
      → RowsWithin db.rows
      → RowsWithin (receive_loaded P R draws elapsed may may_stock input po db).1.rows
  receive_loaded-RowsWithin po db order distinct keyed within =
      elim (Bool-cases (is_receivable P R draws elapsed may may_stock input po)) [
        | inl goods ↦
            rw (goods, receive_loaded) (receive_open-RowsWithin po db order distinct keyed within)
        | inr closed ↦ rw (closed, receive_loaded) within
      ]

  -- Whatever its outcome, a receipt that names no line twice leaves no line with more received
  -- than ordered.
  pub receive_purchase_order-RowsWithin :
      (db : Db (PurchaseRows P))
      → KeepsOrder P
      → IsDistinct input.lines
      → IsKeyed db.rows.lines
      → RowsWithin db.rows
      → RowsWithin (receive_purchase_order P R draws elapsed may may_stock input db).1.rows
  unfolding receive_purchase_order
  receive_purchase_order-RowsWithin db order distinct keyed within =
      let granted = may input.request.actor_id input.request.tenant_id "update" in
      let lines_view = λ (rows : PurchaseRows P). rows.lines in
      let load = get_own_po P input.request input.purchase_order_id in
      let checked = (unless granted access_denied db).1 in
      let kept =
        get_own_po-Keeps P draws elapsed lines_view input.request input.purchase_order_id checked
        ∙ unless-Keeps lines_view granted access_denied db in
      let within' : IsWithin P (load checked).1.rows.lines = subst (IsWithin P) (sym kept) within in
      Preserves-bind RowsWithin (unless granted access_denied)
        (λ u. load >>= receive_loaded P R draws elapsed may may_stock input) db
        (unless-Preserves RowsWithin granted access_denied) within
        (λ u e h.
          Preserves-continue RowsWithin (load checked).0
            (receive_loaded P R draws elapsed may may_stock input) (load checked).1 within'
            (λ po e'.
              receive_loaded-RowsWithin po (load checked).1 order distinct
                (subst IsKeyed (sym kept) keyed) within'))
