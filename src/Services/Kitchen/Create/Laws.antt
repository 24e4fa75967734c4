-- ===== src/Services/Kitchen/Create/Laws.antt =====
-- What a new ticket does to the tables: backend/services/business/Kot.go, `CreateKOT`.
use rems.Prelude.{◌≡◌, ◌⊎◌, ◌≢◌, ℕ, String, Bool, true, Option, none, some, List, [], ◌∷◌, ◌++◌}
use rems.Domain.Kot.{sent}
use rems.Fsm.Types.{Uuid}
use rems.Domain.Order.{confirmed, preparing}
use rems.Services.Kitchen.{KotRow, KotItemRow, KitchenOrder, KitchenRows, KotDraws}
use rems.Services.Kitchen.Create.{
  KotTexts, CreateKotInput, find_kitchen_order, find_kot_of_order, advance_orders,
  CreateKotItemInput,
}

module _ (T : KotTexts) (draws : KotDraws) (kot_id : Uuid) (counted : Option ℕ)
    (may : Uuid → Uuid → String → Bool) (input : CreateKotInput) where
  -- The order was confirmed and is now being prepared, or the orders are as they were.
  abbrev pub OrderAdvances : KitchenOrder → List KitchenOrder → List KitchenOrder → Type 0
  OrderAdvances o before after =
      ((o.order.status ≡ confirmed) × (after ≡ advance_orders input.order_id preparing before))
      ⊎ ((o.order.status ≢ confirmed) × (after ≡ before))

  -- No ticket of the tenant has the number.
  abbrev pub NoNumber : String → List KotRow → Type 0
  NoNumber number [] = Unit
  NoNumber number (k ∷ kots) =
      (k.tenant_id ≡ input.request.tenant_id → k.kot_number ≢ number) × NoNumber number kots

  -- The stored items are the ordered ones, in order, all pending, on this ticket.
  abbrev pub AreOrdered : List CreateKotItemInput → List KotItemRow → Type 0
  AreOrdered [] [] = Unit
  AreOrdered [] (row ∷ rows) = ⊥
  AreOrdered (item ∷ items) [] = ⊥
  AreOrdered (item ∷ items) (row ∷ rows) =
      (row.kot_id ≡ kot_id)
      × (row.order_item_id ≡ item.order_item_id)
      × (row.item_name ≡ T.trim_space item.item_name)
      × (row.notes ≡ T.trim_space item.notes)
      × (row.quantity ≡ item.quantity)
      × (row.status ≡ "pending")
      × AreOrdered items rows

  -- A new ticket of the order: sent, with nobody at work on it, and never printed.
  abbrev pub IsSent : KotRow → Type 0
  IsSent k =
      (k.kot_id ≡ kot_id)
      × (k.order_id ≡ input.order_id)
      × (k.tenant_id ≡ input.request.tenant_id)
      × (k.restaurant_id ≡ input.request.restaurant_id)
      × (k.created_by_user_id ≡ input.request.actor_id)
      × (k.ticket.status ≡ sent)
      × (k.assigned_to_chef_id ≡ none)
      × (k.print_count ≡ 0)

  -- What a call that created a ticket had found and did.
  abbrev pub Created : KitchenRows → KotRow → KitchenRows → Type 0
  Created before k after =
      (o : KitchenOrder) × (rows : List KotItemRow) × (may input.request.actor_id
          input.request.tenant_id "create"
        ≡ true)
      × (input.items ≢ [])
      × (find_kitchen_order input.request input.order_id before.orders ≡ some o)
      × (find_kot_of_order input.request input.order_id before.kots ≡ none)
      × NoNumber k.kot_number before.kots
      × IsSent k
      × AreOrdered input.items rows
      × (after.kots ≡ before.kots ++ (k ∷ []))
      × (after.items ≡ before.items ++ rows)
      × OrderAdvances o before.orders after.orders
