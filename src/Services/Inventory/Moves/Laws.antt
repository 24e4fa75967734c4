-- ===== src/Services/Inventory/Moves/Laws.antt =====
-- The stock ledger stays sound: backend/services/inventory/inventory.go.
use rems.Prelude.{
  ◌≡◌, refl, sym, ap, inl, inr, String, Bool, true, not, some, List, [], ◌∷◌, ◌++◌, ◌==◌, arith,
  if◌then◌else◌, Bool-cases, Option-cases,
}
use rems.Prelude.Int.{ℤ, pos, ◌≤ℤ◌, beq_ℤ, ltb_ℤ}
use rems.Fsm.Types.{Uuid}
use rems.Services.Exec.{ok, Db, unless, pure, next_fails}
use rems.Services.Exec.Laws.{unless-ok, Preserves, Preserves-bind, Preserves-seq, unless-Preserves}
use rems.Services.Inventory.Types.{
  insufficient_inventory, zero_adjustment, access_denied, ItemRow, StockMovement, Platform,
  InventoryRows, StockDraws, InventoryServiceRequest, find_item, update_items, get_own_item,
  get_item_for_write, checked_own, inventory_item_tenant,
}
use rems.Services.Inventory.Moves.{
  AdjustStockInput, write_movement, adjustment, adjust_loaded, adjust_stock, finish_adjustment,
  commit_adjustment, adjust_found, adjust_nonzero,
}

-- The balance after an item's last movement.
abbrev pub last_balance : Uuid → List StockMovement → ℤ → ℤ
last_balance id [] balance = balance
last_balance id (m ∷ movements) balance =
    last_balance id movements (if m.inventory_item_id == id then m.balance_after else balance)

-- No quantity is negative, and each is the balance after the item's last movement, or zero.
abbrev pub IsSound : List ItemRow → List StockMovement → Type 0
IsSound [] movements = Unit
IsSound (item ∷ items) movements =
    (pos 0 ≤ℤ item.current_quantity)
    × (item.current_quantity ≡ last_balance item.inventory_item_id movements (pos 0))
    × IsSound items movements

pub last_balance-append :
    (id : Uuid) (movements : List StockMovement) (m : StockMovement) (balance : ℤ)
    → last_balance id (movements ++ (m ∷ [])) balance
      ≡ (if m.inventory_item_id == id then m.balance_after else last_balance id movements balance)
last_balance-append id [] m balance = refl
last_balance-append id (n ∷ movements) m balance =
    last_balance-append id movements m
      (if n.inventory_item_id == id then n.balance_after else balance)

moved-IsSound :
    (P : Platform) (draws : StockDraws) (id : Uuid) (q : ℤ) (m : StockMovement)
    (items : List ItemRow) (movements : List StockMovement)
    → m.inventory_item_id ≡ id
    → m.balance_after ≡ q
    → pos 0 ≤ℤ q
    → IsSound items movements
    → IsSound
        (update_items id (λ row. record row { current_quantity = q; updated_at = draws.now }) items)
        (movements ++ (m ∷ []))
moved-IsSound P draws id q m [] movements same balance nonneg h = tt
moved-IsSound P draws id q m (item ∷ items) movements same balance nonneg h = ground (
  arith,
  last_balance-append item.inventory_item_id movements m (pos 0),
  moved-IsSound P draws id q m items movements same balance nonneg h.2,
)

pub find_item-id :
    (tenant_id id : Uuid) (items : List ItemRow) {item : ItemRow}
    → find_item tenant_id id items ≡ some item
    → (item.inventory_item_id ≡ id) × (item.tenant_id ≡ tenant_id)
find_item-id tenant_id id [] h = cc h
find_item-id tenant_id id (i ∷ items) {item = item} h =
    ground (arith, find_item-id tenant_id id items {item = item})

pub nonneg-test : (q : ℤ) → not (ltb_ℤ q (pos 0)) ≡ true → pos 0 ≤ℤ q
nonneg-test q h = ground arith

module _ (P : Platform) (draws : StockDraws) where
  abbrev pub RowsSound : InventoryRows P → Type 0
  RowsSound rows = IsSound rows.items rows.movements

  abbrev pub KeepsSign : Type 0
  KeepsSign = (q : ℤ) → pos 0 ≤ℤ q → pos 0 ≤ℤ P.column q

  pub write_movement-RowsSound :
      (item : ItemRow) (q : ℤ) (move : StockMovement)
      → KeepsSign
      → move.inventory_item_id ≡ item.inventory_item_id
      → move.balance_after ≡ q
      → pos 0 ≤ℤ q
      → Preserves RowsSound (write_movement P draws item q move)
  write_movement-RowsSound item q move sign same balance nonneg db h =
      let moved =
        moved-IsSound P draws item.inventory_item_id (P.column q)
          (record move {
            quantity_delta = P.column move.quantity_delta;
            balance_after = P.column move.balance_after;
          })
          db.rows.items db.rows.movements same (ap P.column balance) (sign q nonneg) h in
      elim (Bool-cases (next_fails db.faults)) [
        | inl bad ↦ ground (arith, moved)
        | inr good ↦ ground (arith, moved)
      ]

  pub get_own_item-id :
      (input : InventoryServiceRequest) (id : Uuid) (db : Db (InventoryRows P)) {item : ItemRow}
      → (get_own_item P input id db).0 ≡ ok item
      → (find_item input.tenant_id id db.rows.items ≡ some item)
        × (item.restaurant_id ≡ input.restaurant_id)
        × ((get_own_item P input id db).1.rows ≡ db.rows)
  get_own_item-id input id db {item = item} h = elim (Bool-cases (next_fails db.faults)) [
    | inl bad ↦ absurd (ground arith)
    | inr good ↦ elim (Option-cases (find_item input.tenant_id id db.rows.items)) [
      | inl missing ↦ absurd (ground arith)
      | inr (found, e) ↦ ground arith
    ]
  ]

  commit_adjustment-RowsSound :
      (input : AdjustStockInput) (item : ItemRow) (q : ℤ)
      → KeepsSign
      → input.inventory_item_id ≡ item.inventory_item_id
      → pos 0 ≤ℤ q
      → Preserves RowsSound (commit_adjustment P draws input item q)
  commit_adjustment-RowsSound input item q sign same nonneg =
      Preserves-seq RowsSound (write_movement P draws item q (adjustment P draws input q))
        (λ u. finish_adjustment P draws input item q)
        (write_movement-RowsSound item q (adjustment P draws input q) sign same refl nonneg)
        (λ u db h. h)

  adjust_loaded-RowsSound :
      (input : AdjustStockInput) (item : ItemRow)
      → KeepsSign
      → input.inventory_item_id ≡ item.inventory_item_id
      → Preserves RowsSound (adjust_loaded P draws input item)
  adjust_loaded-RowsSound input item sign same db h =
      let q = P.sum item.current_quantity input.quantity_delta in
      let covered = not (ltb_ℤ q (pos 0)) in
      Preserves-bind RowsSound (unless covered insufficient_inventory)
        (λ u. commit_adjustment P draws input item q) db
        (unless-Preserves RowsSound covered insufficient_inventory) h
        (λ u e.
          commit_adjustment-RowsSound input item q sign same
            (nonneg-test q (unless-ok covered insufficient_inventory db e).0)
            (unless covered insufficient_inventory db).1)

  pub get_own_item-RowsSound :
      (input : InventoryServiceRequest) (id : Uuid) → Preserves RowsSound (get_own_item P input id)
  get_own_item-RowsSound input id =
      Preserves-seq RowsSound (get_item_for_write P input.tenant_id id) (checked_own P input)
        (λ db h. h)
        (λ item.
          Preserves-seq RowsSound
            (unless (item.restaurant_id == input.restaurant_id) inventory_item_tenant)
            (λ u. pure item)
            (unless-Preserves RowsSound (item.restaurant_id == input.restaurant_id)
              inventory_item_tenant)
            (λ u db h. h))

  -- Whatever its outcome, `AdjustStock` leaves every quantity not negative and equal to the balance
  -- after the item's last movement.
  pub adjust_stock-RowsSound :
      (may : Uuid → Uuid → String → Bool) (input : AdjustStockInput)
      → KeepsSign
      → Preserves RowsSound (adjust_stock P draws may input)
  unfolding adjust_stock
  adjust_stock-RowsSound may input sign =
      let allowed = may input.request.actor_id input.request.tenant_id "update" in
      let nonzero = not (beq_ℤ input.quantity_delta (pos 0)) in
      Preserves-seq RowsSound (unless allowed access_denied) (λ u. adjust_nonzero P draws input)
        (unless-Preserves RowsSound allowed access_denied)
        (λ u.
          Preserves-seq RowsSound (unless nonzero zero_adjustment)
            (λ u'. adjust_found P draws input) (unless-Preserves RowsSound nonzero zero_adjustment)
            (λ u' db h.
              Preserves-bind RowsSound (get_own_item P input.request input.inventory_item_id)
                (adjust_loaded P draws input) db
                (get_own_item-RowsSound input.request input.inventory_item_id) h
                (λ item e.
                  let found = (get_own_item-id input.request input.inventory_item_id db e).0 in
                  adjust_loaded-RowsSound input item sign
                    (sym
                      (find_item-id input.request.tenant_id input.inventory_item_id db.rows.items
                        found).0)
                    (get_own_item P input.request input.inventory_item_id db).1)))
