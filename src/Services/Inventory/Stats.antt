-- ===== src/Services/Inventory/Stats.antt =====
-- The figures and the history: backend/services/inventory/inventory.go, `GetInventoryStats` and
-- `StockMovementHistory`. The order of the history by time is an argument, since times may tie.
use rems.Prelude.{
  ℕ, suc, ◌+◌, String, Bool, true, false, Option, none, some, List, [], ◌∷◌, ◌&&◌, ◌==◌, leb,
  length, if◌then◌else◌, str_eq,
}
use rems.Prelude.Int.{ℤ, pos, ◌+ℤ◌, ◌*ℤ◌, ltb_ℤ, leb_ℤ, beq_ℤ}
use rems.Prelude.Pages.{page_of}
use rems.Fsm.Types.{Uuid, Time}
use rems.Services.Exec.{ok, ◌>>=◌, ◌>>◌, pure, modify, query, unless}
use rems.Services.Inventory.Types.{
  access_denied, database_failed, ItemRow, StockMovement, InventoryServiceRequest, InventoryStats,
  Platform, InventoryExec, StockDraws,
}
use rems.Services.Inventory.Moves.{stats_key}

pub record StockMovementFilter : Type 0 where
  pub request : InventoryServiceRequest
  pub inventory_item_id : Option Uuid
  pub reason : Option String
  pub date_from : Option Time
  pub date_to : Option Time
  pub page : ℤ
  pub page_size : ℤ

-- 2 minutes, in milliseconds.
abbrev pub inventory_stats_cache_ttl : ℕ
inventory_stats_cache_ttl = 120000

abbrev pub items_of : InventoryServiceRequest → List ItemRow → List ItemRow
items_of request [] = []
items_of request (item ∷ items) =
    if item.tenant_id == request.tenant_id && item.restaurant_id == request.restaurant_id
    then item ∷ items_of request items
    else items_of request items

-- `COUNT(*) FILTER (WHERE …)`
abbrev pub count_where : (ItemRow → Bool) → List ItemRow → ℕ
count_where test [] = 0
count_where test (item ∷ items) =
    if test item then suc (count_where test items) else count_where test items

abbrev pub or_free : Option ℤ → ℤ
or_free none = pos 0
or_free (some cost) = cost

-- `SUM(current_quantity * COALESCE(unit_cost, 0))`
abbrev pub total_value_of : List ItemRow → ℤ
total_value_of [] = pos 0
total_value_of (item ∷ items) =
    item.current_quantity *ℤ or_free item.unit_cost +ℤ total_value_of items

abbrev pub is_low : ItemRow → Bool
is_low item = elim (item.reorder_point) [
  | none ↦ false
  | some rp ↦ ltb_ℤ (pos 0) item.current_quantity && leb_ℤ item.current_quantity rp
]

abbrev pub is_out : ItemRow → Bool
is_out item = beq_ℤ item.current_quantity (pos 0)

unfoldable pub stats_of : List ItemRow → InventoryStats
stats_of items = record {
  total_items = length items;
  total_value = total_value_of items;
  low_stock_count = count_where is_low items;
  out_of_stock_count = count_where is_out items;
  reorder_required = count_where is_low items + count_where is_out items;
}

-- Whether a filter that is given holds.
abbrev pub if_given : {A : Type 0} → Option A → (A → Bool) → Bool
if_given none test = true
if_given (some a) test = test a

abbrev pub matches_filter : StockMovementFilter → StockMovement → Bool
matches_filter f m =
    m.tenant_id == f.request.tenant_id
    && m.restaurant_id == f.request.restaurant_id
    && if_given f.inventory_item_id (λ id. m.inventory_item_id == id)
    && if_given f.reason (λ r. str_eq m.reason r)
    && if_given f.date_from (λ t. leb t m.created_at)
    && if_given f.date_to (λ t. leb m.created_at t)

abbrev pub matching_moves : StockMovementFilter → List StockMovement → List StockMovement
matching_moves f [] = []
matching_moves f (m ∷ movements) =
    if matches_filter f m then m ∷ matching_moves f movements else matching_moves f movements

module _ (P : Platform) (draws : StockDraws) (may : Uuid → Uuid → String → Bool) where
  abbrev pub stats_through : InventoryServiceRequest → InventoryExec P InventoryStats
  stats_through request db =
      let key = stats_key P draws request.tenant_id request.restaurant_id in
      elim (P.get_stats_json draws.now key db.rows.redis) [
        | some stats ↦ (ok stats, db)
        | none ↦
            (do
              stats ← query database_failed (λ rows. stats_of (items_of request rows.items))
              modify (λ rows. record rows {
                redis = P.set_stats_json draws.now key stats inventory_stats_cache_ttl rows.redis;
              })
              pure stats)
              db
      ]

  unfoldable pub get_inventory_stats : InventoryServiceRequest → InventoryExec P InventoryStats
  get_inventory_stats request =
      unless (may request.actor_id request.tenant_id "read") access_denied >> stats_through request

  unfoldable pub stock_movement_history :
      (List StockMovement → List StockMovement)
      → StockMovementFilter
      → InventoryExec P (List StockMovement × ℕ)
  stock_movement_history newest_first f = do
    unless (may f.request.actor_id f.request.tenant_id "read") access_denied
    total ← query database_failed (λ rows. length (matching_moves f rows.movements))
    moves ←
        query database_failed
          (λ rows. page_of 50 f.page f.page_size (newest_first (matching_moves f rows.movements)))
    pure (moves, total)
