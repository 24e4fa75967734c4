-- ===== src/Services/Purchase/Receive/Laws.antt =====
-- The loaded lines against those of the table: backend/services/inventory/purchaseOrder.go,
-- `ReceivePurchaseOrder`.
use rems.Prelude.{
  ◌≡◌, refl, ap, ◌∙◌, inl, inr, false, Option, none, some, List, [], ◌∷◌, ◌==◌, ==_iff, arith,
  Bool-cases, Option-cases,
}
use mathlib.Core.Path.{subst}
use rems.Prelude.Int.{ℤ, ◌≤ℤ◌}
use rems.Fsm.Types.{Uuid}
use rems.Services.Inventory.Types.{Platform}
use rems.Services.Purchase.Types.{PurchaseOrderLine, ReceivePoLineInput}
use rems.Services.Purchase.Fire.{lines_of}
use rems.Services.Purchase.Receive.{find_line, set_received, check_line, validate_receipt}

-- No line of the list has the identifier.
abbrev pub NoLine : Uuid → List PurchaseOrderLine → Type 0
NoLine id [] = Unit
NoLine id (m ∷ ms) = ((m.purchase_order_line_id == id) ≡ false) × NoLine id ms

-- The identifier is the key of the table.
abbrev pub IsKeyed : List PurchaseOrderLine → Type 0
IsKeyed [] = Unit
IsKeyed (m ∷ ms) = NoLine m.purchase_order_line_id ms × IsKeyed ms

-- No line of the receipt is named twice.
abbrev pub Unnamed : Uuid → List ReceivePoLineInput → Type 0
Unnamed id [] = Unit
Unnamed id (rl ∷ rls) = ((rl.purchase_order_line_id == id) ≡ false) × Unnamed id rls

abbrev pub IsDistinct : List ReceivePoLineInput → Type 0
IsDistinct [] = Unit
IsDistinct (rl ∷ rls) = Unnamed rl.purchase_order_line_id rls × IsDistinct rls

-- Every line has room for what is to be received.
abbrev pub HasRoom : Platform → ReceivePoLineInput → Option PurchaseOrderLine → Type 0
HasRoom P rl none = Unit
HasRoom P rl (some l) = P.sum l.received_quantity rl.received_quantity ≤ℤ l.quantity

abbrev pub Room : Platform → List PurchaseOrderLine → List ReceivePoLineInput → Type 0
Room P lines [] = Unit
Room P lines (rl ∷ rls) =
    HasRoom P rl (find_line rl.purchase_order_line_id lines) × Room P lines rls

check_line-HasRoom :
    (P : Platform) (rl : ReceivePoLineInput) (o : Option PurchaseOrderLine)
    → check_line P rl o ≡ none
    → HasRoom P rl o
check_line-HasRoom P rl none h = tt
check_line-HasRoom P rl (some l) h = ground arith

pub validate_receipt-Room :
    (P : Platform) (lines : List PurchaseOrderLine) (rls : List ReceivePoLineInput)
    → validate_receipt P lines rls ≡ none
    → Room P lines rls
unfolding validate_receipt
validate_receipt-Room P lines [] h = tt
validate_receipt-Room P lines (rl ∷ rls) h =
    elim (Option-cases (check_line P rl (find_line rl.purchase_order_line_id lines))) [
      | inl fine ↦ (
        check_line-HasRoom P rl (find_line rl.purchase_order_line_id lines) fine,
        validate_receipt-Room P lines rls (ground arith),
      )
      | inr (e, bad) ↦ absurd (ground arith)
    ]

-- Writing one line leaves the others.
find_line-set_received :
    (id j : Uuid) (q : ℤ) (lines : List PurchaseOrderLine)
    → (id == j) ≡ false
    → find_line j (set_received id q lines) ≡ find_line j lines
find_line-set_received id j q [] h = refl
find_line-set_received id j q (l ∷ lines) h = ground (arith, find_line-set_received id j q lines h)

pub Room-set_received :
    (P : Platform) (id : Uuid) (q : ℤ) (lines : List PurchaseOrderLine)
    (rls : List ReceivePoLineInput)
    → Unnamed id rls
    → Room P lines rls
    → Room P (set_received id q lines) rls
Room-set_received P id q lines [] others room = tt
Room-set_received P id q lines (rl ∷ rls) others room =
    let differ : (id == rl.purchase_order_line_id) ≡ false = ground arith in
    (
      rw (find_line-set_received id rl.purchase_order_line_id q lines differ) (room.0),
      Room-set_received P id q lines rls others.1 room.1,
    )

-- The loaded lines order what the table's lines order.
abbrev pub Orders : Option PurchaseOrderLine → ℤ → Type 0
Orders none q = Unit
Orders (some l) q = l.quantity ≡ q

abbrev pub Agree : List PurchaseOrderLine → List PurchaseOrderLine → Type 0
Agree lines [] = Unit
Agree lines (m ∷ ms) = Orders (find_line m.purchase_order_line_id lines) m.quantity × Agree lines ms

Orders-set_received :
    (id j : Uuid) (q n : ℤ) (lines : List PurchaseOrderLine)
    → Orders (find_line j lines) n
    → Orders (find_line j (set_received id q lines)) n
Orders-set_received id j q n [] h = tt
Orders-set_received id j q n (l ∷ lines) h = ground (arith, Orders-set_received id j q n lines)

pub Agree-set_received :
    (id : Uuid) (q q' : ℤ) (lines ms : List PurchaseOrderLine)
    → Agree lines ms
    → Agree (set_received id q lines) (set_received id q' ms)
Agree-set_received id q q' lines [] h = tt
Agree-set_received id q q' lines (m ∷ ms) h =
    let head = Orders-set_received id m.purchase_order_line_id q m.quantity lines h.0 in
    elim (Bool-cases (m.purchase_order_line_id == id)) [
      | inl e ↦ rw e (head, Agree-set_received id q q' lines ms h.1)
      | inr e ↦ rw e (head, Agree-set_received id q q' lines ms h.1)
    ]

find_line-NoLine :
    (id po_id : Uuid) (ms : List PurchaseOrderLine)
    → NoLine id ms
    → find_line id (lines_of po_id ms) ≡ none
find_line-NoLine id po_id [] h = refl
find_line-NoLine id po_id (m ∷ ms) h = ground (arith, find_line-NoLine id po_id ms h.1)

Agree-cons :
    (l : PurchaseOrderLine) (lines ms : List PurchaseOrderLine)
    → NoLine l.purchase_order_line_id ms
    → Agree lines ms
    → Agree (l ∷ lines) ms
Agree-cons l lines [] fresh h = tt
Agree-cons l lines (m ∷ ms) fresh h =
    let differ : (l.purchase_order_line_id == m.purchase_order_line_id) ≡ false = ground arith in
    (rw differ (h.0), Agree-cons l lines ms fresh.1 h.1)

pub lines_of-Agree :
    (po_id : Uuid) (ms : List PurchaseOrderLine) → IsKeyed ms → Agree (lines_of po_id ms) ms
lines_of-Agree po_id [] keyed = tt
lines_of-Agree po_id (m ∷ ms) keyed =
    let rest = lines_of-Agree po_id ms keyed.1 in
    elim (Bool-cases (m.purchase_order_id == po_id)) [
      | inl own ↦
          (let taken : m ∷ lines_of po_id ms ≡ lines_of po_id (m ∷ ms) = ground arith in
            subst (λ ls. Agree ls (m ∷ ms)) taken
              (ground arith, Agree-cons m (lines_of po_id ms) ms keyed.0 rest))
      | inr other ↦
          (let left : lines_of po_id ms ≡ lines_of po_id (m ∷ ms) = ground arith in
            subst (λ ls. Agree ls (m ∷ ms)) left
              (rw (find_line-NoLine m.purchase_order_line_id po_id ms keyed.0) tt, rest))
    ]

module _ (P : Platform) where
  -- No line has more received than ordered, and its column keeps the ordered quantity.
  abbrev pub IsWithin : List PurchaseOrderLine → Type 0
  IsWithin [] = Unit
  IsWithin (m ∷ ms) =
      (m.received_quantity ≤ℤ m.quantity) × (P.column m.quantity ≡ m.quantity) × IsWithin ms

  abbrev pub KeepsOrder : Type 0
  KeepsOrder = (a b : ℤ) → a ≤ℤ b → P.column a ≤ℤ P.column b

  -- What is written to a line with room for it is within its order.
  pub set_received-IsWithin :
      (id : Uuid) (q : ℤ) (l : PurchaseOrderLine) (lines ms : List PurchaseOrderLine)
      → KeepsOrder
      → find_line id lines ≡ some l
      → q ≤ℤ l.quantity
      → Agree lines ms
      → IsWithin ms
      → IsWithin (set_received id (P.column q) ms)
  set_received-IsWithin id q l lines [] order found room agree within = tt
  set_received-IsWithin id q l lines (m ∷ ms) order found room agree within =
      let rest = set_received-IsWithin id q l lines ms order found room agree.1 within.2 in
      elim (Bool-cases (m.purchase_order_line_id == id)) [
        | inr other ↦ rw other (within.0, within.1, rest)
        | inl same ↦
            (let named : m.purchase_order_line_id ≡ id =
                (==_iff m.purchase_order_line_id id).0 same in
              let there : find_line m.purchase_order_line_id lines ≡ some l =
                ap (λ j. find_line j lines) named ∙ found in
              let ordered : l.quantity ≡ m.quantity =
                subst (λ o. Orders o m.quantity) there agree.0 in
              let below : P.column q ≤ℤ m.quantity =
                subst (λ n. P.column q ≤ℤ n) within.1
                  (order q m.quantity (subst (λ n. q ≤ℤ n) ordered room)) in
              rw same (below, within.1, rest))
      ]
