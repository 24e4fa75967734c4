-- ===== src/Services/Inventory/Deduct.antt =====
-- The stock that an order uses: backend/services/inventory/inventory.go, `DeductForOrder`, and
-- `Notify` of backend/services/inventory/inventoryNotif.go.
pub mod Laws
use rems.Prelude.{
  ℕ, String, Bool, true, false, not, Option, none, some, List, [], ◌∷◌, ◌++◌, ◌&&◌, ◌||◌, ◌==◌,
  if◌then◌else◌, nat_eq,
}
use rems.Prelude.Int.{ℤ, pos, ◌+ℤ◌, ◌-ℤ◌, ◌*ℤ◌, ltb_ℤ, beq_ℤ}
use rems.Prelude.Dict.{Dict, lookup, insert}
use rems.Fsm.Types.{Uuid}
use rems.Domain.Inventory.{active, InventoryItem}
use rems.Services.Exec.{
  Result, ok, err, Db, Exec, ◌>>=◌, ◌>>◌, pure, modify, query, first_or, unless, write, transaction,
  next_fails, later,
}
use rems.Services.Stock.{evaluate_stock_transition}
use rems.Services.Inventory.Types.{
  InventoryError, insufficient_inventory, zero_adjustment, inventory_item_not_found, access_denied,
  database_failed, ItemRow, StockMovement, MenuItemInventoryLink, InventoryServiceRequest,
  AlertNotification, Platform, InventoryRows, InventoryExec, StockDraws, find_item, update_items,
  get_own_item,
}
use Prim.Native.String as Text
use rems.Services.Inventory.Moves.{
  write_movement, invalidate_item_cache, invalidate_stats_cache, settle_stock,
}

pub record DeductForOrderInput : Type 0 where
  pub tenant_id : Uuid
  pub restaurant_id : Uuid
  pub order_id : Uuid
  pub items : Dict Uuid ℤ

-- One line of an `OrderCreatedPayload`.
pub record OrderedItem : Type 0 where
  pub menu_item_id : Option Uuid
  pub quantity : ℤ

-- Whether a link is one of the tenant's active links for a menu item of the order.
abbrev pub is_ordered : DeductForOrderInput → MenuItemInventoryLink → Bool
is_ordered input link =
    elim (lookup nat_eq link.menu_item_id input.items) [ none ↦ false | some n ↦ true ]
    && link.tenant_id == input.tenant_id
    && link.is_active

abbrev pub ordered_links :
    DeductForOrderInput → List MenuItemInventoryLink → List MenuItemInventoryLink
ordered_links input [] = []
ordered_links input (link ∷ links) =
    if is_ordered input link then link ∷ ordered_links input links else ordered_links input links

abbrev pub or_zero_ℤ : Option ℤ → ℤ
or_zero_ℤ none = pos 0
or_zero_ℤ (some n) = n

abbrev pub add_at : Uuid → ℤ → Dict Uuid ℤ → Dict Uuid ℤ
add_at id delta sums = insert nat_eq id (or_zero_ℤ (lookup nat_eq id sums) +ℤ delta) sums

-- The deductions by inventory item.
unfoldable pub aggregate :
    DeductForOrderInput → List MenuItemInventoryLink → Dict Uuid ℤ → Dict Uuid ℤ
aggregate input [] sums = sums
aggregate input (link ∷ links) sums = aggregate input links (
    add_at link.inventory_item_id
      (or_zero_ℤ (lookup nat_eq link.menu_item_id input.items) *ℤ link.quantity_per_unit) sums)

unfoldable pub ordered_items : List OrderedItem → Dict Uuid ℤ → Dict Uuid ℤ
ordered_items [] sums = sums
ordered_items (item ∷ items) sums =
    ordered_items items
      (elim (item.menu_item_id) [ none ↦ sums | some id ↦ add_at id item.quantity sums ])

module _ (P : Platform) (draws : StockDraws) where
  abbrev pub usage : DeductForOrderInput → Uuid → ℤ → ℤ → StockMovement
  usage input id delta new_qty = record {
    tenant_id = input.tenant_id;
    restaurant_id = input.restaurant_id;
    inventory_item_id = id;
    reason = "used";
    quantity_delta = pos 0 -ℤ delta;
    balance_after = new_qty;
    reference_type = "order";
    reference_id = P.uuid_text input.order_id;
    notes = "auto-deducted on order creation";
    created_by = 0;
    created_at = draws.now;
  }

  abbrev pub clamped : ℤ → ℤ → ℤ
  clamped q delta = let new_qty = q -ℤ delta in if ltb_ℤ new_qty (pos 0) then pos 0 else new_qty

  abbrev pub finish_deduction :
      DeductForOrderInput → Uuid → ItemRow → ℤ → InventoryExec P (Unit {0})
  finish_deduction input id item new_qty =
      invalidate_item_cache P draws input.tenant_id id
      >> settle_stock P draws input.tenant_id item new_qty

  abbrev pub deduct_loaded : DeductForOrderInput → Uuid → ℤ → ItemRow → InventoryExec P (Unit {0})
  deduct_loaded input id delta item =
      let new_qty = clamped item.current_quantity delta in
      write_movement P draws item new_qty (usage input id delta new_qty)
      >> finish_deduction input id item new_qty

  abbrev pub deduct_found : DeductForOrderInput → Uuid → ℤ → InventoryExec P (Unit {0})
  deduct_found input id delta =
      first_or database_failed (λ rows. find_item input.tenant_id id rows.items)
      >>= deduct_loaded input id delta

  -- One round of the loop: any error is a `continue`.
  unfoldable pub deduct_item : DeductForOrderInput → Uuid → ℤ → InventoryExec P (Unit {0})
  deduct_item input id delta db = (ok tt, (deduct_found input id delta db).1)

  unfoldable pub deduct_items : DeductForOrderInput → Dict Uuid ℤ → InventoryExec P (Unit {0})
  unfolding deduct_item
  deduct_items input [] = pure tt
  deduct_items input ((id, delta) ∷ sums) = deduct_item input id delta >> deduct_items input sums

  abbrev pub deduct_linked :
      DeductForOrderInput → List MenuItemInventoryLink → InventoryExec P (Unit {0})
  deduct_linked input [] = pure tt
  deduct_linked input (link ∷ links) =
      deduct_items input (aggregate input (link ∷ links) [])
      >> invalidate_stats_cache P draws input.tenant_id input.restaurant_id

  abbrev pub unless_nothing : Dict Uuid ℤ → InventoryExec P (Unit {0}) → InventoryExec P (Unit {0})
  unless_nothing [] m = pure tt
  unless_nothing (x ∷ items) m = m

  unfoldable pub deduct_for_order : DeductForOrderInput → InventoryExec P (Unit {0})
  deduct_for_order input = unless_nothing input.items (do
    links ← query database_failed (λ rows. ordered_links input rows.links)
    deduct_linked input links)

  -- `Notify`: an error of the deduction is dropped.
  unfoldable pub notify_order : Uuid → Uuid → Uuid → List OrderedItem → InventoryExec P (Unit {0})
  notify_order tenant_id restaurant_id order_id ordered db =
      let items = ordered_items ordered [] in
      let input : DeductForOrderInput = record {
        tenant_id = tenant_id;
        restaurant_id = restaurant_id;
        order_id = order_id;
        items = items;
      } in
      (ok tt, (unless_nothing items (deduct_for_order input) db).1)
