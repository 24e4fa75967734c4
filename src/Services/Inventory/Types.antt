-- ===== src/Services/Inventory/Types.antt =====
-- The data of backend/services/inventory/inventory.go, over backend/models/inventory.go and
-- backend/models/inventory_ext.go. A quantity is a whole number of some small unit.
use rems.Prelude.{
  ℕ, String, Bool, true, false, Option, none, some, List, [], ◌∷◌, ◌++◌, ◌&&◌, ◌==◌, if◌then◌else◌,
}
use rems.Prelude.Int.{ℤ}
use rems.Fsm.Types.{Uuid, Time}
use rems.Domain.Inventory.{InventoryStockState}
use rems.Services.Exec.{ok, Exec, ◌>>=◌, ◌>>◌, pure, first_of, unless, next_fails, later}

pub data InventoryError : Type 0 where
  inventory_item_not_found inventory_item_tenant inventory_item_in_use : InventoryError
  inventory_link_not_found inventory_link_exists inventory_quantity_invalid : InventoryError
  insufficient_inventory zero_adjustment : InventoryError
  vendor_not_found access_denied database_failed : InventoryError

pub record ItemRow : Type 0 where
  pub inventory_item_id : Uuid
  pub tenant_id : Uuid
  pub restaurant_id : Uuid
  pub name : String
  pub description : String
  pub sku : String
  pub category : String
  pub unit_of_measure : String
  pub current_quantity : ℤ
  pub minimum_quantity : Option ℤ
  pub maximum_quantity : Option ℤ
  pub reorder_point : Option ℤ
  pub unit_cost : Option ℤ
  pub updated_at : Time

pub record StockMovement : Type 0 where
  pub tenant_id : Uuid
  pub restaurant_id : Uuid
  pub inventory_item_id : Uuid
  pub reason : String
  pub quantity_delta : ℤ
  pub balance_after : ℤ
  pub reference_type : String
  pub reference_id : String
  pub notes : String
  pub created_by : Uuid
  pub created_at : Time

pub record MenuItemInventoryLink : Type 0 where
  pub link_id : Uuid
  pub tenant_id : Uuid
  pub menu_item_id : Uuid
  pub inventory_item_id : Uuid
  pub quantity_per_unit : ℤ
  pub is_active : Bool
  pub updated_at : Time

pub record Vendor : Type 0 where
  pub vendor_id : Uuid
  pub tenant_id : Uuid
  pub name : String
  pub contact_name : String
  pub email : String
  pub phone : String
  pub address : String
  pub payment_terms : String
  pub is_active : Bool
  pub updated_at : Time

pub record InventoryServiceRequest : Type 0 where
  pub tenant_id : Uuid
  pub restaurant_id : Uuid
  pub actor_id : Uuid

pub record InventoryStats : Type 0 where
  pub total_items : ℕ
  pub total_value : ℤ
  pub low_stock_count : ℕ
  pub out_of_stock_count : ℕ
  pub reorder_required : ℕ

-- An audit row, by its event and its entity; no user for the actor zero.
pub record InventoryAudit : Type 0 where
  pub tenant_id : Uuid
  pub restaurant_id : Uuid
  pub user_id : Option Uuid
  pub event_type : String
  pub entity_type : String
  pub entity_id : String

pub record AlertNotification : Type 0 where
  pub notification_id : Uuid
  pub tenant_id : Uuid
  pub message : String

-- Redis and the JSON texts in it, the text of an identifier and of an alert, the value that a
-- decimal(12,3) column keeps, and the `float64` sum of two quantities. `get_…` is `GET` and the decoding, `none` an error of either;
-- `set_…` is the encoding and `SET`.
pub record Platform : Type 1 where
  pub Store : Type 0
  pub get_item_json : Time → String → Store → Option ItemRow
  pub set_item_json : Time → String → ItemRow → ℕ → Store → Store
  pub get_stats_json : Time → String → Store → Option InventoryStats
  pub set_stats_json : Time → String → InventoryStats → ℕ → Store → Store
  pub exists_key : Time → String → Store → Bool
  pub set_flag : Time → String → ℕ → Store → Store
  pub del : String → Store → Store
  pub uuid_text : Uuid → String
  pub alert_text : String → ItemRow → ℤ → String
  pub column : ℤ → ℤ
  pub sum : ℤ → ℤ → ℤ

-- The tables, Redis, and the items that a started `checkLowStock` is to look at.
pub record InventoryRows (P : Platform) : Type 0 where
  pub items : List ItemRow
  pub movements : List StockMovement
  pub links : List MenuItemInventoryLink
  pub vendors : List Vendor
  pub audit : List InventoryAudit
  pub notifications : List AlertNotification
  pub redis : P.Store
  pub low_stock_checks : List (Uuid × ItemRow)

abbrev pub InventoryExec : Platform → Type 0 → Type 0
InventoryExec P A = Exec InventoryError (InventoryRows P) A

-- What a call draws: the clock, read once, an identifier, and what the machine reads.
pub record StockDraws : Type 0 where
  pub now : Time
  pub new_id : Uuid
  pub envelope_id : String
  pub clock : InventoryStockState → Time × ℕ

-- `WHERE inventory_item_id = ? AND tenant_id = ?`
abbrev pub find_item : Uuid → Uuid → List ItemRow → Option ItemRow
find_item tenant_id id [] = none
find_item tenant_id id (item ∷ items) =
    if item.inventory_item_id == id && item.tenant_id == tenant_id
    then some item
    else find_item tenant_id id items

-- `Updates` of a loaded item, by its identifier.
abbrev pub update_items : Uuid → (ItemRow → ItemRow) → List ItemRow → List ItemRow
update_items id f [] = []
update_items id f (item ∷ items) =
    (if item.inventory_item_id == id then f item else item) ∷ update_items id f items

module _ (P : Platform) where
  abbrev pub get_item_for_write : Uuid → Uuid → InventoryExec P ItemRow
  get_item_for_write tenant_id id =
      first_of inventory_item_not_found database_failed (λ rows. find_item tenant_id id rows.items)

  -- An item of another restaurant of the tenant is refused.
  abbrev pub checked_own : InventoryServiceRequest → ItemRow → InventoryExec P ItemRow
  checked_own input item =
      unless (item.restaurant_id == input.restaurant_id) inventory_item_tenant >> pure item

  abbrev pub get_own_item : InventoryServiceRequest → Uuid → InventoryExec P ItemRow
  get_own_item input id = get_item_for_write input.tenant_id id >>= checked_own input

  -- Errors of the audit log are silenced.
  abbrev pub audit_inventory :
      InventoryServiceRequest → String → String → Uuid → InventoryExec P (Unit {0})
  audit_inventory input event entity id db = elim (next_fails db.faults) [
    | true ↦ (ok tt, record db { faults = later db.faults })
    | false ↦ (
      ok tt,
      record {
        faults = later db.faults;
        rows = record db.rows {
          audit =
              db.rows.audit
              ++ (record {
                tenant_id = input.tenant_id;
                restaurant_id = input.restaurant_id;
                user_id = if input.actor_id == 0 then none else some input.actor_id;
                event_type = event;
                entity_type = entity;
                entity_id = P.uuid_text id;
              }
                  ∷ []);
        };
      },
    )
  ]
