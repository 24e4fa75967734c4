-- ===== src/Domain/Inventory/Graph.antt =====
-- The inventory item machine against its diagram, and what one `Send` does to it:
-- backend/utils/FSM.go, `InventoryItemFSM`.
use rems.Prelude.{ℕ, List, ◌≡◌, refl, ◌↔◌, Option, none, some, arith}
use rems.Prelude.Int.{ℤ, pos, ◌<ℤ◌, ◌≤ℤ◌}
use rems.Fsm.Types.{Time, EventEnvelope, TransitionRecord}
use rems.Fsm.Builder.{must_compile, target}
use rems.Fsm.Machine.{send}
use rems.Fsm.Machine.Conforms.{Conforms, Edge, Conforms-Step, resting}
use rems.Domain.Inventory.{
  InventoryItem, InventoryStockEvent, InventoryStockState, active, depleted_guard, discontinue,
  discontinued, inventory_item_builder, inventory_item_fsm, inventory_item_sig, low_guard,
  low_stock, out_of_stock, partial_guard, replenished_guard, restocked_guard, set_status,
  stock_depleted, stock_low, stock_replenished,
}

pub data IsStocked : InventoryStockState → Type 0 where
  active_item : IsStocked active
  low_item : IsStocked low_stock
  out_item : IsStocked out_of_stock

-- The diagram: the transitions that the definition lists, as a relation.
pub data InventoryItemStep
    : InventoryStockState → InventoryStockEvent → InventoryStockState → Type 0 where
  running_low : InventoryItemStep active stock_low low_stock
  running_out : InventoryItemStep active stock_depleted out_of_stock
  depleting : InventoryItemStep low_stock stock_depleted out_of_stock
  replenishing : InventoryItemStep low_stock stock_replenished active
  restocking : InventoryItemStep out_of_stock stock_replenished active
  restocking_partly : InventoryItemStep out_of_stock stock_low low_stock
  discontinuing :
      {s : InventoryStockState} → IsStocked s → InventoryItemStep s discontinue discontinued

ruleset edges = (
  running_low, running_out, depleting, replenishing, restocking, restocking_partly, discontinuing,
  active_item, low_item, out_item,
)

target-InventoryItemStep :
    (s : InventoryStockState) (e : InventoryStockEvent) (t : InventoryStockState)
    → target inventory_item_fsm s e ≡ some t
    → InventoryItemStep s e t
unfolding inventory_item_fsm
target-InventoryItemStep s e t h = grind (arith, edges)

InventoryItemStep-target :
    {s : InventoryStockState} {e : InventoryStockEvent} {t : InventoryStockState}
    → InventoryItemStep s e t
    → target inventory_item_fsm s e ≡ some t
unfolding inventory_item_fsm
InventoryItemStep-target running_low = refl
InventoryItemStep-target running_out = refl
InventoryItemStep-target depleting = refl
InventoryItemStep-target replenishing = refl
InventoryItemStep-target restocking = refl
InventoryItemStep-target restocking_partly = refl
InventoryItemStep-target (discontinuing active_item) = refl
InventoryItemStep-target (discontinuing low_item) = refl
InventoryItemStep-target (discontinuing out_item) = refl

inventory_item_compiles : must_compile inventory_item_builder ≡ some inventory_item_fsm
unfolding must_compile inventory_item_fsm
inventory_item_compiles = refl

-- `InventoryItemFSM` compiles without a panic, and its transitions are exactly those of the diagram.
pub inventory_item_graph :
    (must_compile inventory_item_builder ≡ some inventory_item_fsm)
    × ((s : InventoryStockState) (e : InventoryStockEvent) (t : InventoryStockState)
        → (target inventory_item_fsm s e ≡ some t) ↔ InventoryItemStep s e t)
inventory_item_graph =
    (inventory_item_compiles, λ s e t. (target-InventoryItemStep s e t, InventoryItemStep-target))

-- A condition on the reorder point, where there is one.
abbrev pub WithPoint : (ℤ → Type 0) → Type 0 → Option ℤ → Type 0
WithPoint P otherwise none = otherwise
WithPoint P otherwise (some rp) = P rp

-- What the guards ask for.
abbrev pub InventoryItemGuard : InventoryStockState → InventoryStockEvent → InventoryItem → Type 0
InventoryItemGuard active stock_low item =
    WithPoint (λ rp. item.current_quantity ≤ℤ rp) ⊥ item.reorder_point
    × (pos 0 <ℤ item.current_quantity)
InventoryItemGuard out_of_stock stock_low item =
    WithPoint (λ rp. item.current_quantity ≤ℤ rp) Unit item.reorder_point
    × (pos 0 <ℤ item.current_quantity)
InventoryItemGuard low_stock stock_replenished item =
    WithPoint (λ rp. rp <ℤ item.current_quantity) Unit item.reorder_point
InventoryItemGuard out_of_stock stock_replenished item =
    WithPoint (λ rp. rp <ℤ item.current_quantity) Unit item.reorder_point
    × (pos 0 <ℤ item.current_quantity)
InventoryItemGuard _ stock_depleted item = item.current_quantity ≤ℤ pos 0
InventoryItemGuard _ _ item = Unit

send-Edge :
    (started : Time) (elapsed : ℕ) (envelope : EventEnvelope inventory_item_sig) (i : InventoryItem)
    (st : InventoryStockState) (history : List (TransitionRecord inventory_item_sig)) (seq : ℕ)
    → Conforms
        (Edge inventory_item_fsm)
        (InventoryItemGuard st envelope.event i)
        (λ t. record i { stock_status = t })
        (resting inventory_item_fsm i st history seq)
        envelope.event
        (send started elapsed envelope (resting inventory_item_fsm i st history seq))
unfolding send inventory_item_fsm low_guard depleted_guard replenished_guard restocked_guard
    partial_guard set_status
send-Edge started elapsed envelope i active history seq = ground arith
send-Edge started elapsed envelope i _ history seq = ground arith

-- Sending any event to an item that is not in flight, in any state, takes the step of the diagram
-- and updates the object for it, and changes nothing else of it; or, where the diagram has no such
-- step or the quantity does not fit the event, it changes nothing.
pub inventory_item_send :
    (started : Time) (elapsed : ℕ) (envelope : EventEnvelope inventory_item_sig) (i : InventoryItem)
    (st : InventoryStockState) (history : List (TransitionRecord inventory_item_sig)) (seq : ℕ)
    → Conforms InventoryItemStep
        (InventoryItemGuard st envelope.event i)
        (λ t. record i { stock_status = t })
        (resting inventory_item_fsm i st history seq)
        envelope.event
        (send started elapsed envelope (resting inventory_item_fsm i st history seq))
inventory_item_send started elapsed envelope i st history seq =
    Conforms-Step _ inventory_item_fsm (inventory_item_graph).1 _ _ _ _
      (send-Edge started elapsed envelope i st history seq)
