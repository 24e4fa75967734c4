-- ===== src/Services/Purchase/Types.antt =====
-- The data of backend/services/inventory/purchaseOrder.go, over `PurchaseOrder` and
-- `PurchaseOrderLine` of backend/models/inventory.go. Quantities are as in the inventory service;
-- prices are in cents.
use rems.Prelude.{ℕ, String, Option, none, some, List, [], ◌∷◌, ◌&&◌, ◌==◌, if◌then◌else◌}
use rems.Prelude.Int.{ℤ}
use rems.Fsm.Types.{Uuid, Time}
use rems.Domain.PurchaseOrder.{PurchaseOrderState}
use rems.Services.Exec.{ok, err, Exec, ◌>>=◌, ◌>>◌, pure, first_of, unless}
use rems.Services.Inventory.Types.{
  InventoryError, Platform, InventoryRows, InventoryExec, InventoryServiceRequest, audit_inventory,
}

pub data PurchaseError : Type 0 where
  po_not_found po_tenant_mismatch po_invalid_transition po_line_not_found : PurchaseError
  po_negative_received po_exceeds_ordered po_fsm_failed : PurchaseError
  no_lines vendor_not_found duplicate_item items_not_found : PurchaseError
  access_denied database_failed : PurchaseError

pub record PurchaseOrderRow : Type 0 where
  pub purchase_order_id : Uuid
  pub tenant_id : Uuid
  pub restaurant_id : Uuid
  pub vendor_id : Uuid
  pub order_number : String
  pub order_date : Time
  pub expected_delivery_date : Option Time
  pub actual_delivery_date : Option Time
  pub status : PurchaseOrderState
  pub total_amount : ℤ
  pub created_by : Uuid
  pub updated_at : Time

pub record PurchaseOrderLine : Type 0 where
  pub purchase_order_line_id : Uuid
  pub purchase_order_id : Uuid
  pub inventory_item_id : Uuid
  pub quantity : ℤ
  pub unit_price : ℤ
  pub line_total : ℤ
  pub received_quantity : ℤ

pub record CreatePoLineInput : Type 0 where
  pub line_id : Uuid
  pub inventory_item_id : Uuid
  pub quantity : ℤ
  pub unit_price : ℤ

pub record CreatePoInput : Type 0 where
  pub request : InventoryServiceRequest
  pub vendor_id : Uuid
  pub order_date : Time
  pub expected_delivery_date : Option Time
  pub lines : List CreatePoLineInput

pub record ReceivePoLineInput : Type 0 where
  pub purchase_order_line_id : Uuid
  pub received_quantity : ℤ

pub record ReceivePoInput : Type 0 where
  pub request : InventoryServiceRequest
  pub purchase_order_id : Uuid
  pub lines : List ReceivePoLineInput

-- The tables of the orders, and those of the inventory with Redis and the audit log.
pub record PurchaseRows (P : Platform) : Type 0 where
  pub orders : List PurchaseOrderRow
  pub lines : List PurchaseOrderLine
  pub stock : InventoryRows P

abbrev pub PurchaseExec : Platform → Type 0 → Type 0
PurchaseExec P A = Exec PurchaseError (PurchaseRows P) A

-- The counter in Redis, the calendar, the text of a number and of a note, and the cents that a
-- column keeps of a quantity times a price.
pub record Purchasing (P : Platform) : Type 0 where
  pub incr : String → P.Store → Option ℕ × P.Store
  pub expire_at : String → Time → P.Store → P.Store
  pub month_text : Time → String
  pub month_start : Time → Time
  pub two_days_into_next_month : Time → Time
  pub number_text : String → ℕ → String
  pub note_text : String → Uuid → String
  pub cents : ℤ → ℤ

-- `WHERE purchase_order_id = ? AND tenant_id = ?`
abbrev pub find_po : Uuid → Uuid → List PurchaseOrderRow → Option PurchaseOrderRow
find_po tenant_id id [] = none
find_po tenant_id id (po ∷ orders) =
    if po.purchase_order_id == id && po.tenant_id == tenant_id
    then some po
    else find_po tenant_id id orders

-- `Updates` of a loaded order, by its identifier.
abbrev pub update_po :
    Uuid → (PurchaseOrderRow → PurchaseOrderRow) → List PurchaseOrderRow → List PurchaseOrderRow
update_po id f [] = []
update_po id f (po ∷ orders) =
    (if po.purchase_order_id == id then f po else po) ∷ update_po id f orders

module _ (P : Platform) where
  -- A step of the inventory service on its own tables; `f` is what becomes of its error.
  abbrev pub with_stock :
      {A : Type 0} → (InventoryError → PurchaseError) → InventoryExec P A → PurchaseExec P A
  with_stock f m db =
      let (r, stock) = m (record { faults = db.faults; rows = db.rows.stock }) in
      (
        elim r [ ok a ↦ ok a | err e ↦ err (f e) ],
        record { faults = stock.faults; rows = record db.rows { stock = stock.rows } },
      )

  abbrev pub get_po_for_write : Uuid → Uuid → PurchaseExec P PurchaseOrderRow
  get_po_for_write tenant_id id =
      first_of po_not_found database_failed (λ rows. find_po tenant_id id rows.orders)

  abbrev pub checked_po :
      InventoryServiceRequest → PurchaseOrderRow → PurchaseExec P PurchaseOrderRow
  checked_po input po =
      unless (po.restaurant_id == input.restaurant_id) po_tenant_mismatch >> pure po

  abbrev pub get_own_po : InventoryServiceRequest → Uuid → PurchaseExec P PurchaseOrderRow
  get_own_po input id = get_po_for_write input.tenant_id id >>= checked_po input

  abbrev pub audit_po : InventoryServiceRequest → String → Uuid → PurchaseExec P (Unit {0})
  audit_po input event id =
      with_stock (λ e. database_failed) (audit_inventory P input event "PurchaseOrder" id)
