-- ===== src/Services/Inventory/Alerts.antt =====
-- The low-stock alert: backend/services/inventory/inventory.go, `checkLowStock`.
use rems.Prelude.{ℕ, String, true, false, Option, none, some, [], ◌∷◌, ◌++◌, if◌then◌else◌}
use rems.Prelude.Int.{ℤ, pos, ltb_ℤ, beq_ℤ}
use rems.Fsm.Types.{Uuid}
use rems.Services.Exec.{ok, ◌>>◌, modify, next_fails, later}
use rems.Services.Inventory.Types.{ItemRow, Platform, InventoryExec, StockDraws}
use Prim.Native.String as Text

-- An hour, in milliseconds.
abbrev pub debounce_ttl : ℕ
debounce_ttl = 3600000

module _ (P : Platform) (draws : StockDraws) where
  abbrev pub severity : ℤ → String
  severity q = if beq_ℤ q (pos 0) then "out_of_stock" else "low_stock"

  -- `Create` of the notification; its error is ignored.
  abbrev pub create_alert : Uuid → ItemRow → ℤ → InventoryExec P (Unit {0})
  create_alert tenant_id item reorder_point db = elim (next_fails db.faults) [
    | true ↦ (ok tt, record db { faults = later db.faults })
    | false ↦ (
      ok tt,
      record {
        faults = later db.faults;
        rows = record db.rows {
          notifications =
              db.rows.notifications
              ++ (record {
                notification_id = draws.new_id;
                tenant_id = tenant_id;
                message = P.alert_text (severity item.current_quantity) item reorder_point;
              }
                  ∷ []);
        };
      },
    )
  ]

  abbrev pub debounce_key : Uuid → String
  debounce_key id = Text.◌++◌ "inventory:lowstock:alert:" (P.uuid_text id)

  abbrev pub alert_once : Uuid → ItemRow → ℤ → InventoryExec P (Unit {0})
  alert_once tenant_id item reorder_point db =
      elim (P.exists_key draws.now (debounce_key item.inventory_item_id) db.rows.redis) [
        | true ↦ (ok tt, db)
        | false ↦
            (modify (λ rows. record rows {
              redis =
                  P.set_flag draws.now (debounce_key item.inventory_item_id) debounce_ttl
                    rows.redis;
            })
                >> create_alert tenant_id item reorder_point)
              db
      ]

  abbrev pub check_against : Uuid → ItemRow → Option ℤ → InventoryExec P (Unit {0})
  check_against tenant_id item none db = (ok tt, db)
  check_against tenant_id item (some reorder_point) db =
      elim (ltb_ℤ reorder_point item.current_quantity) [
        | true ↦ (ok tt, db)
        | false ↦ alert_once tenant_id item reorder_point db
      ]

  -- The goroutine, at the time it runs.
  unfoldable pub check_low_stock : Uuid → ItemRow → InventoryExec P (Unit {0})
  check_low_stock tenant_id item = check_against tenant_id item item.reorder_point
