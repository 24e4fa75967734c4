-- ===== src/Services/Inventory/Moves/Adjust.antt =====
-- What an adjustment changes: backend/services/inventory/inventory.go, `AdjustStock`.
use rems.Prelude.{
  ◌≡◌, refl, sym, ap, ◌∙◌, ◌⊎◌, inl, inr, String, Bool, true, false, not, some, List, [], ◌∷◌, ◌++◌,
  ◌==◌, arith, Bool-cases,
}
use rems.Prelude.Int.{ℤ, pos, ◌≤ℤ◌, beq_ℤ, ltb_ℤ}
use rems.Fsm.Types.{Uuid}
use rems.Services.Exec.{ok, err, Db, continue, pure, unless, next_fails, later}
use rems.Services.Exec.Laws.{
  Keeps, Keeps-bind, Ends, Ends-bind, Ends-weaken, unless-Keeps, unless-ok,
}
use rems.Services.Inventory.Types.{
  database_failed, insufficient_inventory, zero_adjustment, access_denied, inventory_item_tenant,
  ItemRow, StockMovement, Platform, InventoryRows, StockDraws, find_item, update_items,
  get_own_item, get_item_for_write, checked_own,
}
use rems.Services.Inventory.Moves.{
  AdjustStockInput, adjustment, write_movement, finish_adjustment, commit_adjustment, adjust_loaded,
  adjust_found, adjust_nonzero, adjust_stock,
}
use rems.Services.Inventory.Moves.Laws.{get_own_item-id, nonneg-test}

module _ (P : Platform) (draws : StockDraws) where
  -- The tables that an adjustment writes.
  abbrev pub ledger : InventoryRows P → List ItemRow × List StockMovement
  ledger rows = (rows.items, rows.movements)

  -- The item with its new quantity, and the movement, as the columns keep them.
  abbrev pub moved_ledger :
      ItemRow
      → ℤ
      → StockMovement
      → List ItemRow × List StockMovement
      → List ItemRow × List StockMovement
  moved_ledger item q move (items, movements) = (
    update_items item.inventory_item_id
        (λ row. record row { current_quantity = P.column q; updated_at = draws.now }) items,
    movements
        ++ (record move {
          quantity_delta = P.column move.quantity_delta;
          balance_after = P.column move.balance_after;
        }
            ∷ []),
  )

  abbrev Committed :
      AdjustStockInput → ItemRow → ℤ → InventoryRows P → StockMovement → InventoryRows P → Type 0
  Committed input item q before move after =
      (move ≡ adjustment P draws input q)
      × (ledger after ≡ moved_ledger item q move (ledger before))

  -- What a successful adjustment had found and did.
  abbrev pub Adjusted :
      (Uuid → Uuid → String → Bool)
      → AdjustStockInput
      → InventoryRows P
      → StockMovement
      → InventoryRows P
      → Type 0
  Adjusted may input before move after =
      (item : ItemRow) × (may input.request.actor_id input.request.tenant_id "update" ≡ true)
      × (beq_ℤ input.quantity_delta (pos 0) ≡ false)
      × (find_item input.request.tenant_id input.inventory_item_id before.items ≡ some item)
      × (item.restaurant_id ≡ input.request.restaurant_id)
      × (pos 0 ≤ℤ P.sum item.current_quantity input.quantity_delta)
      × Committed input item (P.sum item.current_quantity input.quantity_delta) before move after

  -- Both rows are written, or none is.
  pub write_movement-cases :
      (item : ItemRow) (q : ℤ) (move : StockMovement) (db : Db (InventoryRows P))
      → (((write_movement P draws item q move db).0 ≡ ok tt)
          × (ledger (write_movement P draws item q move db).1.rows
              ≡ moved_ledger item q move (ledger db.rows)))
        ⊎ ((write_movement P draws item q move db).0 ≡ err database_failed)
          × (ledger (write_movement P draws item q move db).1.rows ≡ ledger db.rows)
  write_movement-cases item q move db = elim (Bool-cases (next_fails db.faults)) [
    | inl bad ↦ inr (ground arith, ground arith)
    | inr good ↦ elim (Bool-cases (next_fails (later db.faults))) [
      | inl bad ↦ inr (ground arith, ground arith)
      | inr good' ↦ inl (ground arith, ground arith)
    ]
  ]

  not-true : (b : Bool) → not b ≡ true → b ≡ false
  not-true b h = ground arith

  commit_adjustment-Ends :
      (input : AdjustStockInput) (item : ItemRow) (q : ℤ) (db : Db (InventoryRows P))
      → Ends ledger
          (commit_adjustment P draws input item q db)
          (ledger db.rows)
          (Committed input item q db.rows)
  commit_adjustment-Ends input item q db =
      let move = adjustment P draws input q in
      let written = (write_movement P draws item q move db).1 in
      let finish = λ (u : Unit {0}). finish_adjustment P draws input item q in
      elim (write_movement-cases item q move db) [
        | inl (done, moved) ↦ inl (
          move,
          ap (λ r. (continue r finish written).0) done,
          (refl, ap (λ r. ledger (continue r finish written).1.rows) done ∙ moved),
        )
        | inr (failed, kept) ↦ inr (
          database_failed,
          ap (λ r. (continue r finish written).0) failed,
          ap (λ r. ledger (continue r finish written).1.rows) failed ∙ kept,
        )
      ]

  module _ (may : Uuid → Uuid → String → Bool) (input : AdjustStockInput)
      (before : InventoryRows P) where
    adjust_loaded-Ends :
        (item : ItemRow) (db : Db (InventoryRows P))
        → may input.request.actor_id input.request.tenant_id "update" ≡ true
        → beq_ℤ input.quantity_delta (pos 0) ≡ false
        → find_item input.request.tenant_id input.inventory_item_id before.items ≡ some item
        → item.restaurant_id ≡ input.request.restaurant_id
        → ledger db.rows ≡ ledger before
        → Ends ledger
            (adjust_loaded P draws input item db)
            (ledger before)
            (Adjusted may input before)
    adjust_loaded-Ends item db granted nonzero found own same =
        let q = P.sum item.current_quantity input.quantity_delta in
        let covered = not (ltb_ℤ q (pos 0)) in
        Ends-bind ledger (unless covered insufficient_inventory)
          (λ u. commit_adjustment P draws input item q) db (Adjusted may input before)
          (unless-Keeps ledger covered insufficient_inventory) same
          (λ u e same'.
            Ends-weaken ledger
              (commit_adjustment P draws input item q (unless covered insufficient_inventory db).1)
              (Committed input item q (unless covered insufficient_inventory db).1.rows)
              (Adjusted may input before) same'
              (λ move after c. (
                item,
                granted,
                nonzero,
                found,
                own,
                nonneg-test q (unless-ok covered insufficient_inventory db e).0,
                (c.0, c.1 ∙ ap (moved_ledger item q move) same'),
              ))
              (commit_adjustment-Ends input item q (unless covered insufficient_inventory db).1))

    get_own_item-Keeps : Keeps ledger (get_own_item P input.request input.inventory_item_id)
    get_own_item-Keeps =
        Keeps-bind ledger (get_item_for_write P input.request.tenant_id input.inventory_item_id)
          (checked_own P input.request) (λ db. refl)
          (λ item.
            Keeps-bind ledger
              (unless (item.restaurant_id == input.request.restaurant_id) inventory_item_tenant)
              (λ u. pure item)
              (unless-Keeps ledger (item.restaurant_id == input.request.restaurant_id)
                inventory_item_tenant)
              (λ u db. refl))

    adjust_found-Ends :
        (db : Db (InventoryRows P))
        → may input.request.actor_id input.request.tenant_id "update" ≡ true
        → beq_ℤ input.quantity_delta (pos 0) ≡ false
        → ledger db.rows ≡ ledger before
        → Ends ledger (adjust_found P draws input db) (ledger before) (Adjusted may input before)
    adjust_found-Ends db granted nonzero same =
        let load = get_own_item P input.request input.inventory_item_id in
        Ends-bind ledger load (adjust_loaded P draws input) db (Adjusted may input before)
          get_own_item-Keeps same
          (λ item e same'.
            let (found, own, kept) =
              get_own_item-id P draws input.request input.inventory_item_id db e in
            adjust_loaded-Ends item (load db).1 granted nonzero
              (sym (ap (λ l. find_item input.request.tenant_id input.inventory_item_id l.0) same)
                ∙ found)
              own same')

    adjust_nonzero-Ends :
        (db : Db (InventoryRows P))
        → may input.request.actor_id input.request.tenant_id "update" ≡ true
        → ledger db.rows ≡ ledger before
        → Ends ledger (adjust_nonzero P draws input db) (ledger before) (Adjusted may input before)
    adjust_nonzero-Ends db granted same =
        let nonzero = not (beq_ℤ input.quantity_delta (pos 0)) in
        Ends-bind ledger (unless nonzero zero_adjustment) (λ u. adjust_found P draws input) db
          (Adjusted may input before) (unless-Keeps ledger nonzero zero_adjustment) same
          (λ u e. adjust_found-Ends (unless nonzero zero_adjustment db).1 granted (
            not-true (beq_ℤ input.quantity_delta (pos 0))
              (unless-ok nonzero zero_adjustment db e).0))

  -- `AdjustStock` either fails and leaves the items and the movements as they were, or it was
  -- allowed, the change is not zero, it found the item under its identifier, tenant and restaurant,
  -- the new quantity is not negative, and it stored that quantity and the one movement that it
  -- returns, as the columns keep them.
  pub adjust_stock-Adjusted :
      (may : Uuid → Uuid → String → Bool) (input : AdjustStockInput) (db : Db (InventoryRows P))
      → Ends ledger
          (adjust_stock P draws may input db)
          (ledger db.rows)
          (Adjusted may input db.rows)
  unfolding adjust_stock
  adjust_stock-Adjusted may input db =
      let granted = may input.request.actor_id input.request.tenant_id "update" in
      Ends-bind ledger (unless granted access_denied) (λ u. adjust_nonzero P draws input) db
        (Adjusted may input db.rows) (unless-Keeps ledger granted access_denied) refl
        (λ u e.
          adjust_nonzero-Ends may input db.rows (unless granted access_denied db).1
            (unless-ok granted access_denied db e).0)
