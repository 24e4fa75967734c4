-- ===== src/Domain/Inventory.antt =====
-- The inventory item machine: backend/utils/FSM.go, `InventoryStockState` to `DeriveInventoryState`.
pub mod Graph
use rems.Prelude.{
  ℕ, String, ◌≡◌, Option, none, some, Bool, true, false, not, ◌&&◌, [], ◌∷◌, if◌then◌else◌, ◌▷◌, Eq,
  coded_eq, arith, str_eq, string_eq,
}
use rems.Prelude.Int.{ℤ, pos, ltb_ℤ, leb_ℤ}
use rems.Fsm.Types.{
  Signature, HookError, new_error, errorf, Time, GuardFunc, EffectFunc, key_eq, metadata_true,
}
use rems.Fsm.Options.{guard, effect, terminal, initial, state_desc, describe}
use rems.Fsm.Builder.{
  DefinitionBuilder, FsmDefinition, define, state, transition, global_effect, assemble,
}

pub data InventoryStockState : Type 0 where
  active low_stock out_of_stock discontinued : InventoryStockState

pub data InventoryStockEvent : Type 0 where
  stock_low stock_depleted stock_replenished discontinue reactivate : InventoryStockEvent

state_code : InventoryStockState → ℕ × String
state_code active = (0, "")
state_code low_stock = (1, "")
state_code out_of_stock = (2, "")
state_code discontinued = (3, "")

state_code-injective : (a b : InventoryStockState) → state_code a ≡ state_code b → a ≡ b
unfolding state_code
state_code-injective a b h = ground arith

event_code : InventoryStockEvent → ℕ × String
event_code stock_low = (0, "")
event_code stock_depleted = (1, "")
event_code stock_replenished = (2, "")
event_code discontinue = (3, "")
event_code reactivate = (4, "")

event_code-injective : (a b : InventoryStockEvent) → event_code a ≡ event_code b → a ≡ b
unfolding event_code
event_code-injective a b h = ground arith

unfoldable pub inventory_item_state_eq : Eq InventoryStockState
unfolding coded_eq state_code state_code-injective
inventory_item_state_eq = coded_eq state_code state_code-injective

unfoldable pub inventory_item_event_eq : Eq InventoryStockEvent
unfolding coded_eq event_code event_code-injective
inventory_item_event_eq = coded_eq event_code event_code-injective

-- What an `InventoryItemContext` holds: quantities are decimal(12,3) columns, kept in thousandths.
pub record InventoryItem : Type 0 where
  pub item_id : String
  pub current_quantity : ℤ
  pub reorder_point : Option ℤ
  pub stock_status : InventoryStockState

abbrev pub inventory_item_sig : Signature
inventory_item_sig = record {
  Obj = InventoryItem;
  State = InventoryStockState;
  Event = InventoryStockEvent;
  Payload = Unit;
  state_eq = inventory_item_state_eq;
  event_eq = inventory_item_event_eq;
}

unfoldable pub low_guard : GuardFunc inventory_item_sig
low_guard item e =
    let q = item.current_quantity in
    elim item.reorder_point [
      | none ↦ (some (new_error "cannot transition to low_stock without a reorder point"), item)
      | some rp ↦
          if ltb_ℤ rp q
          then (some (errorf "quantity %.3f still above reorder point %.3f" (q ∷ rp ∷ [])), item)
          else if leb_ℤ q (pos 0)
          then (some (new_error "quantity is zero — should fire stock_depleted instead"), item)
          else (none, item)
    ]

unfoldable pub depleted_guard : GuardFunc inventory_item_sig
depleted_guard item e =
    let q = item.current_quantity in
    if ltb_ℤ (pos 0) q
    then (some (errorf "quantity %.3f is not zero — cannot deplete" (q ∷ [])), item)
    else (none, item)

-- A test of the quantity against the reorder point, where there is one, that must not hold.
abbrev pub unless_point : (ℤ → ℤ → Bool) → String → InventoryItem → Option HookError × InventoryItem
unless_point bad message item =
    let q = item.current_quantity in
    elim item.reorder_point [
      | none ↦ (none, item)
      | some rp ↦ if bad q rp then (some (errorf message (q ∷ rp ∷ [])), item) else (none, item)
    ]

unfoldable pub replenished_guard : GuardFunc inventory_item_sig
replenished_guard item e =
    unless_point leb_ℤ "quantity %.3f still at or below reorder point %.3f" item

unfoldable pub restocked_guard : GuardFunc inventory_item_sig
restocked_guard item e =
    if leb_ℤ item.current_quantity (pos 0)
    then (some (new_error "cannot replenish — quantity is still zero"), item)
    else unless_point leb_ℤ "quantity %.3f at or below reorder point %.3f — use stock_low instead"
        item

unfoldable pub partial_guard : GuardFunc inventory_item_sig
partial_guard item e =
    if leb_ℤ item.current_quantity (pos 0)
    then (some (new_error "quantity still zero — cannot move to low_stock"), item)
    else unless_point (λ q rp. ltb_ℤ rp q)
        "quantity %.3f above reorder point %.3f — use stock_replenished" item

unfoldable pub set_status : InventoryStockState → EffectFunc inventory_item_sig
set_status s item e = (none, record item { stock_status = s })

unfoldable pub inventory_item_builder : DefinitionBuilder inventory_item_sig
unfolding define state transition global_effect guard effect terminal initial state_desc describe
inventory_item_builder =
    define
    ▷ state active (initial ∷ state_desc "Item is in stock above reorder point" ∷ [])
    ▷ state low_stock (state_desc "Stock at or below reorder point — replenishment needed" ∷ [])
    ▷ state out_of_stock (state_desc "No stock remaining" ∷ [])
    ▷ state discontinued
        (terminal ∷ state_desc "Item permanently removed from active inventory" ∷ [])
    ▷ transition active stock_low low_stock (
        guard low_guard
        ∷ effect (set_status low_stock)
        ∷ describe "Stock dropped to or below reorder point"
        ∷ [])
    ▷ transition active stock_depleted out_of_stock (
        guard depleted_guard
        ∷ effect (set_status out_of_stock)
        ∷ describe "Stock completely depleted"
        ∷ [])
    ▷ transition low_stock stock_depleted out_of_stock (
        guard depleted_guard
        ∷ effect (set_status out_of_stock)
        ∷ describe "Low stock fully consumed"
        ∷ [])
    ▷ transition low_stock stock_replenished active (
        guard replenished_guard
        ∷ effect (set_status active)
        ∷ describe "Stock replenished above reorder point"
        ∷ [])
    ▷ transition out_of_stock stock_replenished active (
        guard restocked_guard
        ∷ effect (set_status active)
        ∷ describe "Out-of-stock item fully restocked"
        ∷ [])
    ▷ transition out_of_stock stock_low low_stock (
        guard partial_guard
        ∷ effect (set_status low_stock)
        ∷ describe "Partial restock — still below reorder point"
        ∷ [])
    ▷ transition active discontinue discontinued
        (effect (set_status discontinued) ∷ describe "Item discontinued" ∷ [])
    ▷ transition low_stock discontinue discontinued (effect (set_status discontinued) ∷ [])
    ▷ transition out_of_stock discontinue discontinued (effect (set_status discontinued) ∷ [])

-- `InventoryItemFSM`, the definition that `MustCompile` returns.
unfoldable pub inventory_item_fsm : FsmDefinition inventory_item_sig
unfolding inventory_item_builder assemble inventory_item_state_eq inventory_item_event_eq key_eq
inventory_item_fsm = assemble inventory_item_builder

unfoldable pub derive_inventory_state : ℤ → Option ℤ → InventoryStockState
derive_inventory_state current_qty reorder_point =
    if leb_ℤ current_qty (pos 0) then out_of_stock else elim reorder_point [
      | none ↦ active
      | some rp ↦ if leb_ℤ current_qty rp then low_stock else active
    ]
