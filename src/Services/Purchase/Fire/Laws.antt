-- ===== src/Services/Purchase/Fire/Laws.antt =====
-- What the events of the service do to a purchase order:
-- backend/services/inventory/purchaseOrder.go, `firePOEvent`.
use rems.Prelude.{
  ◌≡◌, refl, sym, ap, ◌∙◌, ◌⊎◌, inl, inr, ℕ, String, Bool, true, Option, none, some, List, [], ◌==◌,
  arith, Bool-cases, Option-cases,
}
use rems.Fsm.Types.{Uuid, EventEnvelope, FsmError}
use rems.Fsm.Envelope.{new_envelope, with_actor}
use rems.Fsm.Machine.{Machine, restore}
use rems.Fsm.Machine.Conforms.{Conforms, resting}
use rems.Domain.PurchaseOrder.{
  PurchaseOrderState, PurchaseOrderEvent, purchase_order_sig, purchase_order_fsm,
}
use rems.Domain.PurchaseOrder.Graph.{PurchaseOrderStep, PurchaseOrderGuard, purchase_order_send}
use rems.Services.Exec.{Result, ok, err, Db, pure, unless, next_fails, later, ◌>>=◌}
use rems.Services.Exec.Laws.{
  Keeps, Keeps-bind, Ends, Ends-bind, Ends-weaken, unless-Keeps, unless-ok,
}
use rems.Services.Inventory.Types.{InventoryServiceRequest, Platform, StockDraws}
use rems.Services.Purchase.Types.{
  PurchaseError, po_invalid_transition, po_tenant_mismatch, access_denied, database_failed,
  PurchaseOrderRow, PurchaseRows, PurchaseExec, find_po, update_po, get_po_for_write, checked_po,
  get_own_po,
}
use rems.Services.Purchase.Fire.{to_po, send_to_po, persist_po, fire_loaded, fire_po_event}

module _ (P : Platform) (draws : StockDraws) (elapsed : ℕ) where
  abbrev po_answer :
      PurchaseError
      → PurchaseOrderRow
      → Option (FsmError purchase_order_sig) × Machine purchase_order_sig
      → Result PurchaseError PurchaseOrderRow
  po_answer failure po out = elim (out.0) [
    | some e ↦ err failure
    | none ↦ ok (record po { status = out.1.obj.status })
  ]

  -- The order took a step of the diagram that its guard allows, or there is none.
  abbrev pub PoSent :
      PurchaseError
      → PurchaseOrderEvent
      → PurchaseOrderRow
      → Result PurchaseError PurchaseOrderRow
      → Type 0
  PoSent failure event po result =
      ((t : PurchaseOrderState) × PurchaseOrderStep po.status event t
        × PurchaseOrderGuard event (to_po P draws elapsed po)
        × (result ≡ ok (record po { status = t })))
      ⊎ ((result ≡ err failure)
          × ¬ (
              (t : PurchaseOrderState) × PurchaseOrderStep po.status event t
              × PurchaseOrderGuard event (to_po P draws elapsed po)))

  answer-PoSent :
      (failure : PurchaseError) (event : PurchaseOrderEvent) (po : PurchaseOrderRow)
      (out : Option (FsmError purchase_order_sig) × Machine purchase_order_sig)
      → Conforms PurchaseOrderStep
          (PurchaseOrderGuard event (to_po P draws elapsed po))
          (λ t. record (to_po P draws elapsed po) { status = t })
          (resting purchase_order_fsm (to_po P draws elapsed po) po.status [] 0)
          event
          out
      → PoSent failure event po (po_answer failure po out)
  answer-PoSent failure event po (none, m) (step, guard, same) =
      inl (m.current, step, guard, ap (λ o. ok (record po { status = o.status })) same)
  answer-PoSent failure event po (some e, m) (same, blocked) = inr (refl, blocked)

  -- One event on a loaded order.
  pub send_to_po-PoSent :
      (failure : PurchaseError) (input : InventoryServiceRequest) (event : PurchaseOrderEvent)
      (po : PurchaseOrderRow)
      → PoSent failure event po (send_to_po P draws elapsed failure input event po)
  unfolding send_to_po restore new_envelope with_actor
  send_to_po-PoSent failure input event po =
      let env : EventEnvelope purchase_order_sig =
        with_actor input.actor_id input.tenant_id
          (new_envelope draws.envelope_id draws.now event none) in
      answer-PoSent failure event po _
        (purchase_order_send draws.now elapsed env (to_po P draws elapsed po) po.status [] 0)

  pub send_to_po-ok :
      (failure : PurchaseError) (input : InventoryServiceRequest) (event : PurchaseOrderEvent)
      (po : PurchaseOrderRow) {sent : PurchaseOrderRow}
      → send_to_po P draws elapsed failure input event po ≡ ok sent
      → (t : PurchaseOrderState) × PurchaseOrderStep po.status event t
        × PurchaseOrderGuard event (to_po P draws elapsed po)
        × (sent ≡ record po { status = t })
  send_to_po-ok failure input event po h = elim (send_to_po-PoSent failure input event po) [
    | inl (t, step, guard, e) ↦ (t, step, guard, cc (e, h))
    | inr (e, blocked) ↦ cc (e, h)
  ]

  abbrev pub orders_of : PurchaseRows P → List PurchaseOrderRow
  orders_of rows = rows.orders

  abbrev pub stamped_orders : PurchaseOrderRow → List PurchaseOrderRow → List PurchaseOrderRow
  stamped_orders po =
      update_po po.purchase_order_id
        (λ row. record row { status = po.status; updated_at = draws.now })

  abbrev stamped : PurchaseOrderRow → PurchaseOrderRow
  stamped po = record po { updated_at = draws.now }

  abbrev Persisted : PurchaseOrderRow → PurchaseRows P → PurchaseOrderRow → PurchaseRows P → Type 0
  Persisted po before result after =
      (result ≡ stamped po) × (after.orders ≡ stamped_orders po before.orders)

  persist_po-Ends :
      (input : InventoryServiceRequest) (po : PurchaseOrderRow) (db : Db (PurchaseRows P))
      → Ends orders_of
          (persist_po P draws elapsed input po db)
          db.rows.orders
          (Persisted po db.rows)
  persist_po-Ends input po db = elim (Bool-cases (next_fails db.faults)) [
    | inl bad ↦ inr (database_failed, ground arith, ground arith)
    | inr good ↦ elim (Bool-cases (next_fails (later db.faults))) [
      | inl bad ↦ inl (record po { updated_at = draws.now }, ground arith, (refl, ground arith))
      | inr good' ↦ inl (record po { updated_at = draws.now }, ground arith, (refl, ground arith))
    ]
  ]

  -- What an event that succeeded had found and did.
  abbrev pub PoFired :
      (Uuid → Uuid → String → Bool)
      → InventoryServiceRequest
      → Uuid
      → PurchaseOrderEvent
      → PurchaseRows P
      → PurchaseOrderRow
      → PurchaseRows P
      → Type 0
  PoFired may input id event before result after =
      (po : PurchaseOrderRow) × (t : PurchaseOrderState) × (may input.actor_id input.tenant_id
          "update"
        ≡ true)
      × (find_po input.tenant_id id before.orders ≡ some po)
      × (po.restaurant_id ≡ input.restaurant_id)
      × PurchaseOrderStep po.status event t
      × PurchaseOrderGuard event (to_po P draws elapsed po)
      × Persisted (record po { status = t }) before result after

  pub get_own_po-found :
      (input : InventoryServiceRequest) (id : Uuid) (db : Db (PurchaseRows P))
      {po : PurchaseOrderRow}
      → (get_own_po P input id db).0 ≡ ok po
      → (find_po input.tenant_id id db.rows.orders ≡ some po)
        × (po.restaurant_id ≡ input.restaurant_id)
  get_own_po-found input id db {po = po} h = elim (Bool-cases (next_fails db.faults)) [
    | inl bad ↦ absurd (ground arith)
    | inr good ↦ elim (Option-cases (find_po input.tenant_id id db.rows.orders)) [
      | inl missing ↦ absurd (ground arith)
      | inr (found, e) ↦ ground arith
    ]
  ]

  pub get_own_po-Keeps :
      {T : Type 0} (view : PurchaseRows P → T) (input : InventoryServiceRequest) (id : Uuid)
      → Keeps view (get_own_po P input id)
  get_own_po-Keeps view input id =
      Keeps-bind view (get_po_for_write P input.tenant_id id) (checked_po P input) (λ db. refl)
        (λ po.
          Keeps-bind view (unless (po.restaurant_id == input.restaurant_id) po_tenant_mismatch)
            (λ u. pure po)
            (unless-Keeps view (po.restaurant_id == input.restaurant_id) po_tenant_mismatch)
            (λ u db. refl))

  fire_loaded-Ends :
      (may : Uuid → Uuid → String → Bool) (input : InventoryServiceRequest) (id : Uuid)
      (event : PurchaseOrderEvent) (before : PurchaseRows P) (po : PurchaseOrderRow)
      (db : Db (PurchaseRows P))
      → may input.actor_id input.tenant_id "update" ≡ true
      → find_po input.tenant_id id before.orders ≡ some po
      → po.restaurant_id ≡ input.restaurant_id
      → db.rows.orders ≡ before.orders
      → Ends orders_of
          (fire_loaded P draws elapsed input event po db)
          before.orders
          (PoFired may input id event before)
  fire_loaded-Ends may input id event before po db granted found own same =
      let fired : PurchaseExec P PurchaseOrderRow =
        λ db'. (send_to_po P draws elapsed po_invalid_transition input event po, db') in
      Ends-bind orders_of fired (persist_po P draws elapsed input) db
        (PoFired may input id event before) (λ db'. refl) same
        (λ sent e same'.
          let (t, step, guard, e') = send_to_po-ok po_invalid_transition input event po e in
          Ends-weaken orders_of (persist_po P draws elapsed input sent db) (Persisted sent db.rows)
            (PoFired may input id event before) same'
            (λ result after (r, o). (
              po,
              t,
              granted,
              found,
              own,
              step,
              guard,
              (
                r ∙ ap (λ (s : PurchaseOrderRow). stamped s) e',
                o
                    ∙ ap (λ s. stamped_orders s db.rows.orders) e'
                    ∙ ap (stamped_orders (record po { status = t })) same',
              ),
            ))
            (persist_po-Ends input sent db))

  -- `firePOEvent` either fails and leaves the orders as they were, or it was allowed, it found the
  -- order under its identifier, tenant and restaurant, the diagram has a step for the event whose
  -- guard holds, and it stored the state that the step leads to.
  pub fire_po_event-PoFired :
      (may : Uuid → Uuid → String → Bool) (input : InventoryServiceRequest) (id : Uuid)
      (event : PurchaseOrderEvent) (db : Db (PurchaseRows P))
      → Ends orders_of
          (fire_po_event P draws elapsed may input id event db)
          db.rows.orders
          (PoFired may input id event db.rows)
  unfolding fire_po_event
  fire_po_event-PoFired may input id event db =
      let granted = may input.actor_id input.tenant_id "update" in
      let load = get_own_po P input id in
      let Good = PoFired may input id event db.rows in
      let checked = (unless granted access_denied db).1 in
      Ends-bind orders_of (unless granted access_denied)
        (λ u. load >>= fire_loaded P draws elapsed input event) db Good
        (unless-Keeps orders_of granted access_denied) refl
        (λ u e same.
          Ends-bind orders_of load (fire_loaded P draws elapsed input event) checked Good
            (get_own_po-Keeps orders_of input id) same
            (λ po e' same'.
              let (found, own) = get_own_po-found input id checked e' in
              fire_loaded-Ends may input id event db.rows po (load checked).1
                (unless-ok granted access_denied db e).0
                (sym (ap (find_po input.tenant_id id) same) ∙ found) own same'))
