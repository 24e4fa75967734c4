-- ===== src/Services/Purchase/Fire.antt =====
-- The purchase order machine in the service: backend/services/inventory/purchaseOrder.go,
-- `firePOEvent` with its callers, and `GetPurchaseOrder`.
pub mod Laws
use rems.Prelude.{ℕ, String, Bool, Option, none, some, List, [], ◌∷◌, ◌==◌, if◌then◌else◌}
use rems.Fsm.Types.{Uuid, EventEnvelope}
use rems.Fsm.Envelope.{new_envelope, with_actor}
use rems.Fsm.Machine.{restore, send}
use rems.Domain.PurchaseOrder.{
  PurchaseOrder, PurchaseOrderEvent, submit, approve, cancel, purchase_order_sig,
  purchase_order_fsm,
}
use rems.Services.Exec.{Result, ok, err, ◌>>=◌, ◌>>◌, pure, query, unless, write}
use rems.Services.Inventory.Types.{InventoryServiceRequest, Platform, StockDraws}
use rems.Services.Purchase.Types.{
  PurchaseError, po_invalid_transition, access_denied, database_failed, PurchaseOrderRow,
  PurchaseOrderLine, PurchaseRows, PurchaseExec, update_po, get_po_for_write, get_own_po, audit_po,
}

-- `WHERE purchase_order_id = ?`
abbrev pub lines_of : Uuid → List PurchaseOrderLine → List PurchaseOrderLine
lines_of id [] = []
lines_of id (l ∷ lines) =
    if l.purchase_order_id == id then l ∷ lines_of id lines else lines_of id lines

module _ (P : Platform) (draws : StockDraws) (elapsed : ℕ) where
  -- The adapter's view of an order.
  abbrev pub to_po : PurchaseOrderRow → PurchaseOrder
  to_po po = record {
    po_id = P.uuid_text po.purchase_order_id;
    total_amount = po.total_amount;
    status = po.status;
  }

  -- The machine of a loaded order, after one event; `failure` is what its error becomes.
  unfoldable pub send_to_po :
      PurchaseError
      → InventoryServiceRequest
      → PurchaseOrderEvent
      → PurchaseOrderRow
      → Result PurchaseError PurchaseOrderRow
  unfolding send restore new_envelope with_actor purchase_order_fsm
  send_to_po failure input event po =
      let env : EventEnvelope purchase_order_sig =
        with_actor input.actor_id input.tenant_id
          (new_envelope draws.envelope_id draws.now event none) in
      let (failed, machine) =
        send draws.now elapsed env (restore purchase_order_fsm (to_po po) po.status) in
      elim failed [ some e ↦ err failure | none ↦ ok (record po { status = machine.obj.status }) ]

  abbrev pub persist_po :
      InventoryServiceRequest → PurchaseOrderRow → PurchaseExec P PurchaseOrderRow
  persist_po input po = do
    write database_failed (λ rows. record rows {
      orders =
          update_po po.purchase_order_id
            (λ row. record row { status = po.status; updated_at = draws.now }) rows.orders;
    })
    audit_po P input "update" po.purchase_order_id
    pure (record po { updated_at = draws.now })

  abbrev pub fire_loaded :
      InventoryServiceRequest
      → PurchaseOrderEvent
      → PurchaseOrderRow
      → PurchaseExec P PurchaseOrderRow
  fire_loaded input event po =
      (λ db. (send_to_po po_invalid_transition input event po, db)) >>= persist_po input

  module _ (may : Uuid → Uuid → String → Bool) where
    abbrev pub authorized_po : InventoryServiceRequest → String → PurchaseExec P (Unit {0})
    authorized_po input action = unless (may input.actor_id input.tenant_id action) access_denied

    unfoldable pub fire_po_event :
        InventoryServiceRequest → Uuid → PurchaseOrderEvent → PurchaseExec P PurchaseOrderRow
    unfolding send_to_po
    fire_po_event input id event =
        authorized_po input "update" >> (get_own_po P input id >>= fire_loaded input event)

    unfoldable pub submit_purchase_order :
        InventoryServiceRequest → Uuid → PurchaseExec P PurchaseOrderRow
    unfolding fire_po_event
    submit_purchase_order input id = fire_po_event input id submit

    unfoldable pub approve_purchase_order :
        InventoryServiceRequest → Uuid → PurchaseExec P PurchaseOrderRow
    unfolding fire_po_event
    approve_purchase_order input id = fire_po_event input id approve

    unfoldable pub cancel_purchase_order :
        InventoryServiceRequest → Uuid → PurchaseExec P PurchaseOrderRow
    unfolding fire_po_event
    cancel_purchase_order input id = fire_po_event input id cancel

    unfoldable pub get_purchase_order :
        InventoryServiceRequest → Uuid → PurchaseExec P (PurchaseOrderRow × List PurchaseOrderLine)
    get_purchase_order input id = do
      authorized_po input "read"
      po ← get_po_for_write P input.tenant_id id
      lines ← query database_failed (λ rows. lines_of id rows.lines)
      pure (po, lines)
