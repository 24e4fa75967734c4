-- ===== src/Services/Inventory/Vendors.antt =====
-- The vendors and the links from menu items: backend/services/inventory/inventory.go,
-- `CreateVendor` to `UpdateVendor` and `CreateLink` to `ListLinksByMenuItem`. The order of a list of
-- vendors by name is left out.
use rems.Prelude.{
  ℕ, suc, String, Bool, true, false, not, Option, none, some, List, [], ◌∷◌, ◌++◌, ◌&&◌, ◌||◌, ◌==◌,
  if◌then◌else◌,
}
use rems.Prelude.Int.{ℤ, pos, leb_ℤ}
use rems.Fsm.Types.{Uuid}
use rems.Services.Exec.{ok, err, ◌>>=◌, ◌>>◌, pure, query, first_of, unless, write}
use rems.Services.Inventory.Types.{
  inventory_link_not_found, inventory_link_exists, inventory_quantity_invalid, vendor_not_found,
  access_denied, database_failed, MenuItemInventoryLink, Vendor, InventoryServiceRequest, Platform,
  InventoryExec, StockDraws, audit_inventory,
}
use rems.Services.Inventory.Items.{patched}

pub record CreateVendorInput : Type 0 where
  pub request : InventoryServiceRequest
  pub name : String
  pub contact_name : String
  pub email : String
  pub phone : String
  pub address : String
  pub payment_terms : String

pub record UpdateVendorInput : Type 0 where
  pub request : InventoryServiceRequest
  pub vendor_id : Uuid
  pub name : Option String
  pub contact_name : Option String
  pub email : Option String
  pub phone : Option String
  pub address : Option String
  pub payment_terms : Option String
  pub is_active : Option Bool

pub record CreateLinkInput : Type 0 where
  pub request : InventoryServiceRequest
  pub menu_item_id : Uuid
  pub inventory_item_id : Uuid
  pub quantity_per_unit : ℤ

abbrev pub find_vendor : Uuid → Uuid → List Vendor → Option Vendor
find_vendor tenant_id id [] = none
find_vendor tenant_id id (v ∷ vendors) =
    if v.vendor_id == id && v.tenant_id == tenant_id
    then some v
    else find_vendor tenant_id id vendors

abbrev pub update_vendors : Uuid → (Vendor → Vendor) → List Vendor → List Vendor
update_vendors id f [] = []
update_vendors id f (v ∷ vendors) =
    (if v.vendor_id == id then f v else v) ∷ update_vendors id f vendors

-- `WHERE tenant_id = ?`, and unless all are wanted, `is_active = true`
abbrev pub vendors_of : Uuid → Bool → List Vendor → List Vendor
vendors_of tenant_id include_inactive [] = []
vendors_of tenant_id include_inactive (v ∷ vendors) =
    if v.tenant_id == tenant_id && (include_inactive || v.is_active)
    then v ∷ vendors_of tenant_id include_inactive vendors
    else vendors_of tenant_id include_inactive vendors

-- `WHERE menu_item_id = ? AND inventory_item_id = ? AND tenant_id = ?`
abbrev pub find_link :
    Uuid → Uuid → Uuid → List MenuItemInventoryLink → Option MenuItemInventoryLink
find_link tenant_id menu_item_id item_id [] = none
find_link tenant_id menu_item_id item_id (link ∷ links) =
    if link.menu_item_id == menu_item_id
      && link.inventory_item_id == item_id
      && link.tenant_id == tenant_id
    then some link
    else find_link tenant_id menu_item_id item_id links

abbrev pub is_link : Uuid → Uuid → MenuItemInventoryLink → Bool
is_link tenant_id id link = link.link_id == id && link.tenant_id == tenant_id

-- The rows that the update of a link affects.
abbrev pub link_count : Uuid → Uuid → List MenuItemInventoryLink → ℕ
link_count tenant_id id [] = 0
link_count tenant_id id (link ∷ links) =
    if is_link tenant_id id link
    then suc (link_count tenant_id id links)
    else link_count tenant_id id links

abbrev pub active_links_of : Uuid → Uuid → List MenuItemInventoryLink → List MenuItemInventoryLink
active_links_of tenant_id menu_item_id [] = []
active_links_of tenant_id menu_item_id (link ∷ links) =
    if link.menu_item_id == menu_item_id && link.tenant_id == tenant_id && link.is_active
    then link ∷ active_links_of tenant_id menu_item_id links
    else active_links_of tenant_id menu_item_id links

module _ (P : Platform) (draws : StockDraws) where
  abbrev pub deactivated : Uuid → Uuid → List MenuItemInventoryLink → List MenuItemInventoryLink
  deactivated tenant_id id [] = []
  deactivated tenant_id id (link ∷ links) =
      (if is_link tenant_id id link
        then record link { is_active = false; updated_at = draws.now }
        else link)
      ∷ deactivated tenant_id id links

  abbrev pub new_vendor : CreateVendorInput → Vendor
  new_vendor input = record {
    vendor_id = draws.new_id;
    tenant_id = input.request.tenant_id;
    name = input.name;
    contact_name = input.contact_name;
    email = input.email;
    phone = input.phone;
    address = input.address;
    payment_terms = input.payment_terms;
    is_active = true;
    updated_at = draws.now;
  }

  abbrev pub patch_vendor : UpdateVendorInput → Vendor → Vendor
  patch_vendor input v = record v {
    name = patched input.name v.name;
    contact_name = patched input.contact_name v.contact_name;
    email = patched input.email v.email;
    phone = patched input.phone v.phone;
    address = patched input.address v.address;
    payment_terms = patched input.payment_terms v.payment_terms;
    is_active = patched input.is_active v.is_active;
    updated_at = draws.now;
  }

  abbrev pub get_vendor_for_write : Uuid → Uuid → InventoryExec P Vendor
  get_vendor_for_write tenant_id id =
      first_of vendor_not_found database_failed (λ rows. find_vendor tenant_id id rows.vendors)

  abbrev pub new_link : CreateLinkInput → MenuItemInventoryLink
  new_link input = record {
    link_id = draws.new_id;
    tenant_id = input.request.tenant_id;
    menu_item_id = input.menu_item_id;
    inventory_item_id = input.inventory_item_id;
    quantity_per_unit = input.quantity_per_unit;
    is_active = true;
    updated_at = draws.now;
  }

  abbrev pub insert_link :
      CreateLinkInput → Option MenuItemInventoryLink → InventoryExec P MenuItemInventoryLink
  insert_link input (some existing) db = (err inventory_link_exists, db)
  insert_link input none db =
      (write database_failed (λ rows. record rows { links = rows.links ++ (new_link input ∷ []) })
          >> pure (new_link input))
        db

  abbrev pub unless_linked_yet : CreateLinkInput → InventoryExec P MenuItemInventoryLink
  unless_linked_yet input =
      query database_failed (λ rows.
        find_link input.request.tenant_id input.menu_item_id input.inventory_item_id rows.links)
      >>= insert_link input

  abbrev pub create_link_allowed : CreateLinkInput → InventoryExec P MenuItemInventoryLink
  create_link_allowed input =
      unless (not (leb_ℤ input.quantity_per_unit (pos 0))) inventory_quantity_invalid
      >> unless_linked_yet input

  -- `may_vendor` answers for vendors, `may` for the inventory.
  module _ (may_vendor may : Uuid → Uuid → String → Bool) where
    abbrev pub authorized_vendor : InventoryServiceRequest → String → InventoryExec P (Unit {0})
    authorized_vendor request action =
        unless (may_vendor request.actor_id request.tenant_id action) access_denied

    unfoldable pub create_vendor : CreateVendorInput → InventoryExec P Vendor
    create_vendor input = do
      authorized_vendor input.request "create"
      write database_failed
          (λ rows. record rows { vendors = rows.vendors ++ (new_vendor input ∷ []) })
      audit_inventory P input.request "create" "Vendor" draws.new_id
      pure (new_vendor input)

    unfoldable pub get_vendor : InventoryServiceRequest → Uuid → InventoryExec P Vendor
    get_vendor request id =
        authorized_vendor request "read" >> get_vendor_for_write request.tenant_id id

    unfoldable pub list_vendors : InventoryServiceRequest → Bool → InventoryExec P (List Vendor)
    list_vendors request include_inactive =
        authorized_vendor request "read"
        >> query database_failed
            (λ rows. vendors_of request.tenant_id include_inactive rows.vendors)

    unfoldable pub update_vendor : UpdateVendorInput → InventoryExec P Vendor
    update_vendor input = do
      authorized_vendor input.request "update"
      v ← get_vendor_for_write input.request.tenant_id input.vendor_id
      write database_failed (λ rows. record rows {
        vendors = update_vendors v.vendor_id (patch_vendor input) rows.vendors;
      })
      audit_inventory P input.request "update" "Vendor" v.vendor_id
      pure (patch_vendor input v)

    unfoldable pub create_link : CreateLinkInput → InventoryExec P MenuItemInventoryLink
    create_link input =
        unless (may input.request.actor_id input.request.tenant_id "update") access_denied
        >> create_link_allowed input

    unfoldable pub delete_link : InventoryServiceRequest → Uuid → InventoryExec P (Unit {0})
    delete_link request id = do
      unless (may request.actor_id request.tenant_id "update") access_denied
      affected ← query database_failed (λ rows. link_count request.tenant_id id rows.links)
      unless (not (affected == 0)) inventory_link_not_found
      (λ db. (
        ok tt,
        record db {
          rows = record db.rows { links = deactivated request.tenant_id id db.rows.links };
        },
      ))

    unfoldable pub list_links_by_menu_item :
        InventoryServiceRequest → Uuid → InventoryExec P (List MenuItemInventoryLink)
    list_links_by_menu_item request menu_item_id =
        unless (may request.actor_id request.tenant_id "read") access_denied
        >> query database_failed (λ rows. active_links_of request.tenant_id menu_item_id rows.links)
