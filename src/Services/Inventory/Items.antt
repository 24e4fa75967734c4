-- ===== src/Services/Inventory/Items.antt =====
-- The life of an inventory item: backend/services/inventory/inventory.go, `CreateItem`, `GetItem`,
-- `UpdateItem` and `DeleteItem`. The answers of the authorizer are an argument; the
-- old and new values of an audit entry are left out.
pub mod Laws
use rems.Prelude.{
  ℕ, zero, suc, String, Bool, true, false, not, Option, none, some, List, [], ◌∷◌, ◌++◌, ◌&&◌, ◌==◌,
  ltb, if◌then◌else◌,
}
use rems.Prelude.Int.{ℤ, pos, ltb_ℤ, leb_ℤ, beq_ℤ}
use rems.Fsm.Types.{Uuid}
use rems.Services.Exec.{
  ok, ◌>>=◌, ◌>>◌, Db, pure, modify, query, unless, write, transaction, next_fails, later,
}
use rems.Services.Inventory.Types.{
  InventoryError, inventory_item_in_use, access_denied, database_failed, ItemRow, StockMovement,
  MenuItemInventoryLink, InventoryServiceRequest, AlertNotification, Platform, InventoryRows,
  InventoryExec, StockDraws, update_items, get_item_for_write, get_own_item, audit_inventory,
}
use rems.Services.Inventory.Moves.{
  item_key, invalidate_item_cache, invalidate_stats_cache, evaluate_stock,
}
use Prim.Native.String as Text

pub record CreateItemInput : Type 0 where
  pub request : InventoryServiceRequest
  pub name : String
  pub description : String
  pub sku : String
  pub category : String
  pub unit_of_measure : String
  pub current_quantity : ℤ
  pub minimum_quantity : Option ℤ
  pub maximum_quantity : Option ℤ
  pub reorder_point : Option ℤ
  pub unit_cost : Option ℤ

pub record UpdateItemInput : Type 0 where
  pub request : InventoryServiceRequest
  pub inventory_item_id : Uuid
  pub name : Option String
  pub description : Option String
  pub category : Option String
  pub minimum_quantity : Option ℤ
  pub maximum_quantity : Option ℤ
  pub reorder_point : Option ℤ
  pub unit_cost : Option ℤ

-- `if in.F != nil { item.F = *in.F }`, and the same for an optional field.
abbrev pub patched : {A : Type 0} → Option A → A → A
patched none a = a
patched (some b) a = b

abbrev pub patched? : {A : Type 0} → Option A → Option A → Option A
patched? none a = a
patched? (some b) a = some b

abbrev pub column? : Platform → Option ℤ → Option ℤ
column? P none = none
column? P (some q) = some (P.column q)

-- 5 minutes, in milliseconds.
abbrev pub inventory_item_cache_ttl : ℕ
inventory_item_cache_ttl = 300000

-- `Delete` of a loaded item, by its identifier.
abbrev pub delete_item_row : Uuid → List ItemRow → List ItemRow
delete_item_row id [] = []
delete_item_row id (item ∷ items) =
    if item.inventory_item_id == id
    then delete_item_row id items
    else item ∷ delete_item_row id items

-- `WHERE inventory_item_id = ? AND is_active = true`
abbrev pub active_link_count : Uuid → List MenuItemInventoryLink → ℕ
active_link_count id [] = 0
active_link_count id (link ∷ links) =
    if link.inventory_item_id == id && link.is_active
    then suc (active_link_count id links)
    else active_link_count id links

module _ (P : Platform) (draws : StockDraws) where
  abbrev pub new_item : CreateItemInput → ItemRow
  new_item input = record {
    inventory_item_id = draws.new_id;
    tenant_id = input.request.tenant_id;
    restaurant_id = input.request.restaurant_id;
    name = input.name;
    description = input.description;
    sku = input.sku;
    category = input.category;
    unit_of_measure = input.unit_of_measure;
    current_quantity = input.current_quantity;
    minimum_quantity = input.minimum_quantity;
    maximum_quantity = input.maximum_quantity;
    reorder_point = input.reorder_point;
    unit_cost = input.unit_cost;
    updated_at = draws.now;
  }

  -- What the columns keep of a new item; the unit cost is in cents already.
  abbrev pub stored_item : ItemRow → ItemRow
  stored_item item = record item {
    current_quantity = P.column item.current_quantity;
    minimum_quantity = column? P item.minimum_quantity;
    maximum_quantity = column? P item.maximum_quantity;
    reorder_point = column? P item.reorder_point;
  }

  abbrev pub opening_movement : CreateItemInput → StockMovement
  opening_movement input = record {
    tenant_id = input.request.tenant_id;
    restaurant_id = input.request.restaurant_id;
    inventory_item_id = draws.new_id;
    reason = "adjustment";
    quantity_delta = P.column input.current_quantity;
    balance_after = P.column input.current_quantity;
    reference_type = "opening_stock";
    reference_id = "";
    notes = "opening stock at item creation";
    created_by = input.request.actor_id;
    created_at = draws.now;
  }

  abbrev pub open_stock : CreateItemInput → InventoryExec P (Unit {0})
  open_stock input db = elim (ltb_ℤ (pos 0) input.current_quantity) [
    | false ↦ (ok tt, db)
    | true ↦
        write database_failed
          (λ rows. record rows { movements = rows.movements ++ (opening_movement input ∷ []) }) db
  ]

  abbrev pub insert_item : CreateItemInput → InventoryExec P (Unit {0})
  insert_item input = transaction (
      write database_failed
        (λ rows. record rows { items = rows.items ++ (stored_item (new_item input) ∷ []) })
      >> open_stock input)

  abbrev pub finish_creation : CreateItemInput → InventoryExec P ItemRow
  finish_creation input = do
    audit_inventory P input.request "create" "InventoryItem" draws.new_id
    invalidate_item_cache P draws input.request.tenant_id draws.new_id
    invalidate_stats_cache P draws input.request.tenant_id input.request.restaurant_id
    evaluate_stock P draws input.request.tenant_id (new_item input)
    pure (new_item input)

  abbrev pub create_allowed : CreateItemInput → InventoryExec P ItemRow
  create_allowed input = insert_item input >> finish_creation input

  -- The read through Redis: what it holds is returned without a query.
  abbrev pub read_through : Uuid → Uuid → InventoryExec P ItemRow
  read_through tenant_id id db =
      elim (P.get_item_json draws.now (item_key P draws tenant_id id) db.rows.redis) [
        | some item ↦ (ok item, db)
        | none ↦
            (do
              item ← get_item_for_write P tenant_id id
              modify (λ rows. record rows {
                redis =
                    P.set_item_json draws.now (item_key P draws tenant_id id) item
                      inventory_item_cache_ttl rows.redis;
              })
              pure item)
              db
      ]

  abbrev pub patch : UpdateItemInput → ItemRow → ItemRow
  patch input item = record item {
    name = patched input.name item.name;
    description = patched input.description item.description;
    category = patched input.category item.category;
    minimum_quantity = patched? input.minimum_quantity item.minimum_quantity;
    maximum_quantity = patched? input.maximum_quantity item.maximum_quantity;
    reorder_point = patched? input.reorder_point item.reorder_point;
    unit_cost = patched? input.unit_cost item.unit_cost;
    updated_at = draws.now;
  }

  -- What the columns keep of a patch.
  abbrev pub stored_patch : UpdateItemInput → UpdateItemInput
  stored_patch input = record input {
    minimum_quantity = column? P input.minimum_quantity;
    maximum_quantity = column? P input.maximum_quantity;
    reorder_point = column? P input.reorder_point;
  }

  abbrev pub finish_change : String → InventoryServiceRequest → Uuid → InventoryExec P (Unit {0})
  finish_change event request id = do
    audit_inventory P request event "InventoryItem" id
    invalidate_item_cache P draws request.tenant_id id
    invalidate_stats_cache P draws request.tenant_id request.restaurant_id

  abbrev pub update_loaded : UpdateItemInput → ItemRow → InventoryExec P ItemRow
  update_loaded input item = do
    write database_failed (λ rows. record rows {
      items = update_items item.inventory_item_id (patch (stored_patch input)) rows.items;
    })
    finish_change "update" input.request item.inventory_item_id
    pure (patch input item)

  abbrev pub erase_item : InventoryServiceRequest → Uuid → ItemRow → InventoryExec P (Unit {0})
  erase_item request id item =
      write database_failed
        (λ rows. record rows { items = delete_item_row item.inventory_item_id rows.items })
      >> finish_change "delete" request id

  abbrev pub unless_linked :
      InventoryServiceRequest → Uuid → ItemRow → ℕ → InventoryExec P (Unit {0})
  unless_linked request id item link_count =
      unless (not (ltb 0 link_count)) inventory_item_in_use >> erase_item request id item

  abbrev pub delete_loaded : InventoryServiceRequest → Uuid → ItemRow → InventoryExec P (Unit {0})
  delete_loaded request id item =
      query database_failed (λ rows. active_link_count id rows.links)
      >>= unless_linked request id item

  module _ (may : Uuid → Uuid → String → Bool) where
    abbrev pub authorized_stock : InventoryServiceRequest → String → InventoryExec P (Unit {0})
    authorized_stock request action =
        unless (may request.actor_id request.tenant_id action) access_denied

    unfoldable pub create_item : CreateItemInput → InventoryExec P ItemRow
    create_item input = authorized_stock input.request "create" >> create_allowed input

    unfoldable pub get_item : InventoryServiceRequest → Uuid → InventoryExec P ItemRow
    get_item request id = authorized_stock request "read" >> read_through request.tenant_id id

    unfoldable pub update_item : UpdateItemInput → InventoryExec P ItemRow
    update_item input = do
      authorized_stock input.request "update"
      item ← get_own_item P input.request input.inventory_item_id
      update_loaded input item

    unfoldable pub delete_item : InventoryServiceRequest → Uuid → InventoryExec P (Unit {0})
    delete_item request id = do
      authorized_stock request "delete"
      item ← get_own_item P request id
      delete_loaded request id item
