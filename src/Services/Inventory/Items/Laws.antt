-- ===== src/Services/Inventory/Items/Laws.antt =====
-- The life of an item keeps the ledger sound: backend/services/inventory/inventory.go.
use rems.Prelude.{
  ◌≡◌, refl, ap, ◌∙◌, inl, inr, String, Bool, false, List, [], ◌∷◌, ◌++◌, ◌==◌, arith, Bool-cases,
  not, ltb,
}
use rems.Prelude.Int.{ℤ, pos, ◌≤ℤ◌, ltb_ℤ}
use rems.Fsm.Types.{Uuid}
use rems.Services.Exec.{Db, next_fails, later, unless, query, ◌>>=◌}
use rems.Services.Exec.Laws.{Preserves, Preserves-seq, unless-Preserves}
use rems.Services.Inventory.Types.{
  ItemRow, StockMovement, InventoryServiceRequest, Platform, InventoryRows, StockDraws,
  update_items, get_own_item, access_denied, database_failed, inventory_item_in_use,
}
use rems.Services.Inventory.Moves.Laws.{
  IsSound, last_balance, last_balance-append, RowsSound, KeepsSign, get_own_item-RowsSound,
}
use rems.Services.Inventory.Items.{
  CreateItemInput, UpdateItemInput, new_item, stored_item, opening_movement, delete_item_row,
  insert_item, finish_creation, create_item, patch, stored_patch, update_loaded, update_item,
  delete_loaded, delete_item, erase_item, unless_linked, active_link_count,
}

-- No item and no movement has the identifier.
abbrev pub NoItem : Uuid → List ItemRow → Type 0
NoItem id [] = Unit
NoItem id (item ∷ items) = ((item.inventory_item_id == id) ≡ false) × NoItem id items

abbrev pub NoMovement : Uuid → List StockMovement → Type 0
NoMovement id [] = Unit
NoMovement id (m ∷ movements) = ((m.inventory_item_id == id) ≡ false) × NoMovement id movements

last_balance-fresh :
    (id : Uuid) (movements : List StockMovement) (balance : ℤ)
    → NoMovement id movements
    → last_balance id movements balance ≡ balance
last_balance-fresh id [] balance fresh = refl
last_balance-fresh id (m ∷ movements) balance fresh =
    ground (arith, last_balance-fresh id movements balance fresh.1)

-- A new item, and a movement of it.
opened-IsSound :
    (item : ItemRow) (m : StockMovement) (items : List ItemRow) (movements : List StockMovement)
    → NoItem item.inventory_item_id items
    → m.inventory_item_id ≡ item.inventory_item_id
    → m.balance_after ≡ item.current_quantity
    → pos 0 ≤ℤ item.current_quantity
    → IsSound items movements
    → IsSound (items ++ (item ∷ [])) (movements ++ (m ∷ []))
opened-IsSound item m [] movements fresh same balance nonneg h =
    ground (arith, last_balance-append item.inventory_item_id movements m (pos 0))
opened-IsSound item m (i ∷ items) movements fresh same balance nonneg h = ground (
  arith,
  last_balance-append i.inventory_item_id movements m (pos 0),
  opened-IsSound item m items movements fresh.1 same balance nonneg h.2,
)

-- A new item without stock.
empty-IsSound :
    (item : ItemRow) (items : List ItemRow) (movements : List StockMovement)
    → NoMovement item.inventory_item_id movements
    → item.current_quantity ≡ pos 0
    → IsSound items movements
    → IsSound (items ++ (item ∷ [])) movements
empty-IsSound item [] movements fresh zero h =
    ground (arith, last_balance-fresh item.inventory_item_id movements (pos 0) fresh)
empty-IsSound item (i ∷ items) movements fresh zero h =
    (h.0, h.1, empty-IsSound item items movements fresh zero h.2)

update_items-IsSound :
    (id : Uuid) (f : ItemRow → ItemRow) (items : List ItemRow) (movements : List StockMovement)
    → ((i : ItemRow)
        → ((f i).inventory_item_id ≡ i.inventory_item_id)
          × ((f i).current_quantity ≡ i.current_quantity))
    → IsSound items movements
    → IsSound (update_items id f items) movements
update_items-IsSound id f [] movements keeps h = tt
update_items-IsSound id f (i ∷ items) movements keeps h =
    ground (arith, keeps i, update_items-IsSound id f items movements keeps h.2)

delete_item_row-IsSound :
    (id : Uuid) (items : List ItemRow) (movements : List StockMovement)
    → IsSound items movements
    → IsSound (delete_item_row id items) movements
delete_item_row-IsSound id [] movements h = tt
delete_item_row-IsSound id (i ∷ items) movements h =
    ground (arith, delete_item_row-IsSound id items movements h.2)

module _ (P : Platform) (draws : StockDraws) where
  insert_item-RowsSound :
      (input : CreateItemInput) (db : Db (InventoryRows P))
      → KeepsSign P draws
      → P.column (pos 0) ≡ pos 0
      → NoItem draws.new_id db.rows.items
      → NoMovement draws.new_id db.rows.movements
      → pos 0 ≤ℤ input.current_quantity
      → RowsSound P draws db.rows
      → RowsSound P draws (insert_item P draws input db).1.rows
  insert_item-RowsSound input db sign zero fresh_item fresh_move nonneg h =
      let item = stored_item P draws (new_item P draws input) in
      let opened =
        opened-IsSound item (opening_movement P draws input) db.rows.items db.rows.movements
          fresh_item refl refl (sign input.current_quantity nonneg) h in
      elim (Bool-cases (ltb_ℤ (pos 0) input.current_quantity)) [
        | inl some_stock ↦ elim (Bool-cases (next_fails db.faults)) [
          | inl bad ↦ ground arith
          | inr good ↦ ground (arith, opened)
        ]
        | inr no_stock ↦
            (let none_left : input.current_quantity ≡ pos 0 = ground arith in
              let empty =
                empty-IsSound item db.rows.items db.rows.movements fresh_move
                  (ap P.column none_left ∙ zero) h in
              elim (Bool-cases (next_fails db.faults)) [
                | inl bad ↦ ground arith
                | inr good ↦ ground (arith, empty)
              ])
      ]

  finish_creation-RowsSound :
      (input : CreateItemInput) → Preserves (RowsSound P draws) (finish_creation P draws input)
  finish_creation-RowsSound input db h = elim (Bool-cases (next_fails db.faults)) [
    | inl bad ↦ ground arith
    | inr good ↦ ground arith
  ]

  -- A new item with an unused identifier and no negative quantity keeps the ledger sound.
  pub create_item-RowsSound :
      (may : Uuid → Uuid → String → Bool) (input : CreateItemInput) (db : Db (InventoryRows P))
      → KeepsSign P draws
      → P.column (pos 0) ≡ pos 0
      → NoItem draws.new_id db.rows.items
      → NoMovement draws.new_id db.rows.movements
      → pos 0 ≤ℤ input.current_quantity
      → RowsSound P draws db.rows
      → RowsSound P draws (create_item P draws may input db).1.rows
  unfolding create_item
  create_item-RowsSound may input db sign zero fresh_item fresh_move nonneg h =
      let granted = may input.request.actor_id input.request.tenant_id "create" in
      elim (Bool-cases granted) [
        | inr refused ↦ rw (refused, create_item) h
        | inl allowed ↦
            rw (allowed, create_item)
              (Preserves-seq (RowsSound P draws) (λ db'. insert_item P draws input db)
                (λ u. finish_creation P draws input)
                (λ db' h'. insert_item-RowsSound input db sign zero fresh_item fresh_move nonneg h)
                (λ u. finish_creation-RowsSound input) db h)
      ]

  update_loaded-RowsSound :
      (input : UpdateItemInput) (item : ItemRow)
      → Preserves (RowsSound P draws) (update_loaded P draws input item)
  update_loaded-RowsSound input item db h =
      let kept =
        update_items-IsSound item.inventory_item_id (patch P draws (stored_patch P draws input))
          db.rows.items db.rows.movements (λ i. (refl, refl)) h in
      elim (Bool-cases (next_fails db.faults)) [
        | inl bad ↦ ground arith
        | inr good ↦ elim (Bool-cases (next_fails (later db.faults))) [
          | inl bad ↦ ground (arith, kept)
          | inr good' ↦ ground (arith, kept)
        ]
      ]

  pub update_item-RowsSound :
      (may : Uuid → Uuid → String → Bool) (input : UpdateItemInput)
      → Preserves (RowsSound P draws) (update_item P draws may input)
  unfolding update_item
  update_item-RowsSound may input =
      let granted = may input.request.actor_id input.request.tenant_id "update" in
      let find = get_own_item P input.request input.inventory_item_id in
      Preserves-seq (RowsSound P draws) (unless granted access_denied)
        (λ u. find >>= update_loaded P draws input)
        (unless-Preserves (RowsSound P draws) granted access_denied)
        (λ u.
          Preserves-seq (RowsSound P draws) find (update_loaded P draws input)
            (get_own_item-RowsSound P draws input.request input.inventory_item_id)
            (update_loaded-RowsSound input))

  erase_item-RowsSound :
      (request : InventoryServiceRequest) (id : Uuid) (item : ItemRow)
      → Preserves (RowsSound P draws) (erase_item P draws request id item)
  erase_item-RowsSound request id item db h =
      let kept = delete_item_row-IsSound item.inventory_item_id db.rows.items db.rows.movements h in
      elim (Bool-cases (next_fails db.faults)) [
        | inl bad ↦ ground arith
        | inr good ↦ elim (Bool-cases (next_fails (later db.faults))) [
          | inl bad ↦ ground (arith, kept)
          | inr good' ↦ ground (arith, kept)
        ]
      ]

  delete_loaded-RowsSound :
      (request : InventoryServiceRequest) (id : Uuid) (item : ItemRow)
      → Preserves (RowsSound P draws) (delete_loaded P draws request id item)
  delete_loaded-RowsSound request id item =
      Preserves-seq (RowsSound P draws)
        (query database_failed (λ rows. active_link_count id rows.links))
        (unless_linked P draws request id item) (λ db h. h)
        (λ n.
          Preserves-seq (RowsSound P draws) (unless (not (ltb 0 n)) inventory_item_in_use)
            (λ u. erase_item P draws request id item)
            (unless-Preserves (RowsSound P draws) (not (ltb 0 n)) inventory_item_in_use)
            (λ u. erase_item-RowsSound request id item))

  pub delete_item-RowsSound :
      (may : Uuid → Uuid → String → Bool) (request : InventoryServiceRequest) (id : Uuid)
      → Preserves (RowsSound P draws) (delete_item P draws may request id)
  unfolding delete_item
  delete_item-RowsSound may request id =
      let granted = may request.actor_id request.tenant_id "delete" in
      let find = get_own_item P request id in
      Preserves-seq (RowsSound P draws) (unless granted access_denied)
        (λ u. find >>= delete_loaded P draws request id)
        (unless-Preserves (RowsSound P draws) granted access_denied)
        (λ u.
          Preserves-seq (RowsSound P draws) find (delete_loaded P draws request id)
            (get_own_item-RowsSound P draws request id) (delete_loaded-RowsSound request id))
