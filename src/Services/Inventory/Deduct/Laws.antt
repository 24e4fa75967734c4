-- ===== src/Services/Inventory/Deduct/Laws.antt =====
-- A deduction keeps the ledger sound: backend/services/inventory/inventory.go, `DeductForOrder`.
use rems.Prelude.{
  ◌≡◌, refl, sym, ap, ◌∙◌, inl, inr, List, [], ◌∷◌, ◌==◌, ==_iff, nat_eq, arith, if◌then◌else◌,
  Bool-cases,
}
use rems.Prelude.Int.{◌*ℤ◌, ℤ, pos, ◌+ℤ◌, ◌-ℤ◌, ◌≤ℤ◌, ltb_ℤ, int_laws}
use rems.Prelude.Dict.{Dict, lookup, lookup-insert}
use rems.Fsm.Types.{Uuid}
use rems.Services.Exec.{query, ◌>>=◌, first_or, first_of-ok, next_fails}
use rems.Services.Exec.Laws.{Preserves, Preserves-bind, Preserves-seq}
use rems.Services.Inventory.Types.{
  database_failed, ItemRow, Platform, InventoryExec, StockDraws, find_item, MenuItemInventoryLink,
}
use rems.Services.Inventory.Moves.{write_movement, invalidate_stats_cache}
use rems.Services.Inventory.Deduct.{
  or_zero_ℤ, add_at, OrderedItem, ordered_items, notify_order, DeductForOrderInput,
  finish_deduction, usage, aggregate, unless_nothing, ordered_links, clamped, deduct_loaded,
  deduct_item, deduct_items, deduct_linked, deduct_for_order,
}
use rems.Services.Inventory.Moves.Laws.{
  RowsSound, KeepsSign, write_movement-RowsSound, find_item-id,
}

module _ (P : Platform) (draws : StockDraws) where
  clamped-nonneg : (q delta : ℤ) → pos 0 ≤ℤ clamped P draws q delta
  clamped-nonneg q delta = elim (Bool-cases (ltb_ℤ (q -ℤ delta) (pos 0))) [
    | inl below ↦ rw below (omega arith)
    | inr above ↦ rw above (ground arith)
  ]

  deduct_item-RowsSound :
      (input : DeductForOrderInput) (id : Uuid) (delta : ℤ)
      → KeepsSign P draws
      → Preserves (RowsSound P draws) (deduct_item P draws input id delta)
  unfolding deduct_item
  deduct_item-RowsSound input id delta sign db h =
      let load : InventoryExec P ItemRow =
        first_or database_failed (λ rows. find_item input.tenant_id id rows.items) in
      Preserves-bind (RowsSound P draws) load (deduct_loaded P draws input id delta) db
        (λ db' h'. h') h
        (λ item e.
          let q = clamped P draws item.current_quantity delta in
          let found =
            first_of-ok database_failed database_failed (next_fails db.faults)
              (find_item input.tenant_id id db.rows.items) e in
          Preserves-seq (RowsSound P draws)
            (write_movement P draws item q (usage P draws input id delta q))
            (λ u. finish_deduction P draws input id item q)
            (write_movement-RowsSound P draws item q (usage P draws input id delta q) sign
              (sym (find_item-id input.tenant_id id db.rows.items found).0) refl
              (clamped-nonneg item.current_quantity delta))
            (λ u db' h'. h') (load db).1)

  deduct_items-RowsSound :
      (input : DeductForOrderInput) (sums : Dict Uuid ℤ)
      → KeepsSign P draws
      → Preserves (RowsSound P draws) (deduct_items P draws input sums)
  unfolding deduct_items
  deduct_items-RowsSound input [] sign db h = h
  deduct_items-RowsSound input ((id, delta) ∷ sums) sign db h =
      Preserves-seq (RowsSound P draws) (deduct_item P draws input id delta)
        (λ u. deduct_items P draws input sums) (deduct_item-RowsSound input id delta sign)
        (λ u. deduct_items-RowsSound input sums sign) db h

  deduct_linked-RowsSound :
      (input : DeductForOrderInput) (links : List MenuItemInventoryLink)
      → KeepsSign P draws
      → Preserves (RowsSound P draws) (deduct_linked P draws input links)
  deduct_linked-RowsSound input [] sign db h = h
  deduct_linked-RowsSound input (link ∷ links) sign db h =
      Preserves-seq (RowsSound P draws)
        (deduct_items P draws input (aggregate input (link ∷ links) []))
        (λ u. invalidate_stats_cache P draws input.tenant_id input.restaurant_id)
        (deduct_items-RowsSound input (aggregate input (link ∷ links) []) sign) (λ u db' h'. h') db
        h

  unless_nothing-RowsSound :
      (items : Dict Uuid ℤ) (m : InventoryExec P (Unit {0}))
      → Preserves (RowsSound P draws) m
      → Preserves (RowsSound P draws) (unless_nothing P draws items m)
  unless_nothing-RowsSound [] m keeps db h = h
  unless_nothing-RowsSound (x ∷ items) m keeps db h = keeps db h

  pub deduct_for_order-RowsSound :
      (input : DeductForOrderInput)
      → KeepsSign P draws
      → Preserves (RowsSound P draws) (deduct_for_order P draws input)
  unfolding deduct_for_order
  deduct_for_order-RowsSound input sign =
      let load : InventoryExec P (List MenuItemInventoryLink) =
        query database_failed (λ rows. ordered_links input rows.links) in
      unless_nothing-RowsSound input.items (load >>= deduct_linked P draws input) (
        Preserves-seq (RowsSound P draws) load (deduct_linked P draws input) (λ db h. h)
          (λ links. deduct_linked-RowsSound input links sign))

  pub notify_order-RowsSound :
      (tenant_id restaurant_id order_id : Uuid) (ordered : List OrderedItem)
      → KeepsSign P draws
      → Preserves
          (RowsSound P draws)
          (notify_order P draws tenant_id restaurant_id order_id ordered)
  unfolding notify_order
  notify_order-RowsSound tenant_id restaurant_id order_id ordered sign =
      let input : DeductForOrderInput = record {
        tenant_id = tenant_id;
        restaurant_id = restaurant_id;
        order_id = order_id;
        items = ordered_items ordered [];
      } in
      unless_nothing-RowsSound (ordered_items ordered []) (deduct_for_order P draws input)
        (deduct_for_order-RowsSound input sign)

-- What the links of an order take from an item, one link after the other.
abbrev pub used : DeductForOrderInput → Uuid → List MenuItemInventoryLink → ℤ
used input id [] = pos 0
used input id (link ∷ links) =
    if link.inventory_item_id == id
    then or_zero_ℤ (lookup nat_eq link.menu_item_id input.items) *ℤ link.quantity_per_unit
      +ℤ used input id links
    else used input id links

add_at-amount :
    (id j : Uuid) (delta : ℤ) (sums : Dict Uuid ℤ)
    → or_zero_ℤ (lookup nat_eq j (add_at id delta sums)) ≡ (
        if id == j
        then or_zero_ℤ (lookup nat_eq j sums) +ℤ delta
        else or_zero_ℤ (lookup nat_eq j sums))
add_at-amount id j delta sums =
    let amount = or_zero_ℤ (lookup nat_eq id sums) +ℤ delta in
    let found = ap or_zero_ℤ (lookup-insert nat_eq id j amount sums) in
    elim (Bool-cases (id == j)) [
      | inl same ↦
          found
          ∙ rw same (ap (λ k. or_zero_ℤ (lookup nat_eq k sums) +ℤ delta) ((==_iff id j).0 same))
      | inr other ↦ found ∙ rw other refl
    ]

-- The deduction of an inventory item is the sum over the links to it of the ordered quantity times
-- the quantity per unit.
pub aggregate_lem :
    (input : DeductForOrderInput) (links : List MenuItemInventoryLink) (sums : Dict Uuid ℤ)
    (id : Uuid)
    → or_zero_ℤ (lookup nat_eq id (aggregate input links sums))
      ≡ or_zero_ℤ (lookup nat_eq id sums) +ℤ used input id links
unfolding aggregate
aggregate_lem input [] sums id = omega int_laws
aggregate_lem input (link ∷ links) sums id =
    let delta = or_zero_ℤ (lookup nat_eq link.menu_item_id input.items) *ℤ link.quantity_per_unit in
    let rest = aggregate_lem input links (add_at link.inventory_item_id delta sums) id in
    let here = add_at-amount link.inventory_item_id id delta sums in
    elim (Bool-cases (link.inventory_item_id == id)) [
      | inl same ↦ rest ∙ ap (λ z. z +ℤ used input id links) here ∙ rw same (omega int_laws)
      | inr other ↦ rest ∙ ap (λ z. z +ℤ used input id links) here ∙ rw other refl
    ]
