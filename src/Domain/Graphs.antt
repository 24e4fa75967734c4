-- ===== src/Domain/Graphs.antt =====
-- All machines of backend/utils/FSM.go against their diagrams.
use rems.Prelude.{◌≡◌, ◌↔◌, some}
use rems.Fsm.Types.{Time}
use rems.Fsm.Builder.{must_compile, target}
use rems.Domain.Order.{OrderState, OrderEvent, order_builder, order_fsm}
use rems.Domain.Order.Graph.{OrderStep, order_graph}
use rems.Domain.Payment.{PaymentState, PaymentEvent, payment_builder, payment_fsm}
use rems.Domain.Payment.Graph.{PaymentStep, payment_graph}
use rems.Domain.Inventory.{
  InventoryStockState, InventoryStockEvent, inventory_item_builder, inventory_item_fsm,
}
use rems.Domain.Inventory.Graph.{InventoryItemStep, inventory_item_graph}
use rems.Domain.Kot.{KotState, KotEvent, kot_builder, kot_fsm}
use rems.Domain.Kot.Graph.{KotStep, kot_graph}
use rems.Domain.PurchaseOrder.{
  PurchaseOrderState, PurchaseOrderEvent, purchase_order_builder, purchase_order_fsm,
}
use rems.Domain.PurchaseOrder.Graph.{PurchaseOrderStep, purchase_order_graph}
use rems.Domain.Subscription.{
  SubscriptionState, SubscriptionEvent, subscription_builder, subscription_fsm,
}
use rems.Domain.Subscription.Graph.{SubscriptionStep, subscription_graph}
use rems.Domain.UserAccount.{
  UserAccountState, UserAccountEvent, user_account_builder, user_account_fsm,
}
use rems.Domain.UserAccount.Graph.{UserAccountStep, user_account_graph}
use rems.Domain.Table.{TableState, TableEvent, table_builder, table_fsm}
use rems.Domain.Table.Graph.{TableStep, table_graph}
use rems.Domain.Analytics.{
  AnalyticsPipelineState, AnalyticsPipelineEvent, analytics_builder, analytics_fsm,
}
use rems.Domain.Analytics.Graph.{AnalyticsRunStep, analytics_graph}
use rems.Domain.Forecast.{
  ForecastPipelineState, ForecastPipelineEvent, forecast_builder, forecast_fsm,
}
use rems.Domain.Forecast.Graph.{ForecastRunStep, forecast_graph}

-- Each of the ten definitions compiles without a panic, and its transitions are exactly those of its
-- diagram, whatever the clock says that the effects of the two pipelines read.
pub all_graphs :
    (now : Time)
    → ((must_compile order_builder ≡ some order_fsm)
        × ((s : OrderState) (e : OrderEvent) (t : OrderState)
            → (target order_fsm s e ≡ some t) ↔ OrderStep s e t))
      × ((must_compile payment_builder ≡ some payment_fsm)
          × ((s : PaymentState) (e : PaymentEvent) (t : PaymentState)
              → (target payment_fsm s e ≡ some t) ↔ PaymentStep s e t))
      × ((must_compile inventory_item_builder ≡ some inventory_item_fsm)
          × ((s : InventoryStockState) (e : InventoryStockEvent) (t : InventoryStockState)
              → (target inventory_item_fsm s e ≡ some t) ↔ InventoryItemStep s e t))
      × ((must_compile kot_builder ≡ some kot_fsm)
          × ((s : KotState) (e : KotEvent) (t : KotState)
              → (target kot_fsm s e ≡ some t) ↔ KotStep s e t))
      × ((must_compile purchase_order_builder ≡ some purchase_order_fsm)
          × ((s : PurchaseOrderState) (e : PurchaseOrderEvent) (t : PurchaseOrderState)
              → (target purchase_order_fsm s e ≡ some t) ↔ PurchaseOrderStep s e t))
      × ((must_compile subscription_builder ≡ some subscription_fsm)
          × ((s : SubscriptionState) (e : SubscriptionEvent) (t : SubscriptionState)
              → (target subscription_fsm s e ≡ some t) ↔ SubscriptionStep s e t))
      × ((must_compile user_account_builder ≡ some user_account_fsm)
          × ((s : UserAccountState) (e : UserAccountEvent) (t : UserAccountState)
              → (target user_account_fsm s e ≡ some t) ↔ UserAccountStep s e t))
      × ((must_compile table_builder ≡ some table_fsm)
          × ((s : TableState) (e : TableEvent) (t : TableState)
              → (target table_fsm s e ≡ some t) ↔ TableStep s e t))
      × ((must_compile (analytics_builder now) ≡ some (analytics_fsm now))
          × ((s : AnalyticsPipelineState) (e : AnalyticsPipelineEvent) (t : AnalyticsPipelineState)
              → (target (analytics_fsm now) s e ≡ some t) ↔ AnalyticsRunStep s e t))
      × ((must_compile (forecast_builder now) ≡ some (forecast_fsm now))
          × ((s : ForecastPipelineState) (e : ForecastPipelineEvent) (t : ForecastPipelineState)
              → (target (forecast_fsm now) s e ≡ some t) ↔ ForecastRunStep s e t))
all_graphs now = (
  order_graph,
  payment_graph,
  inventory_item_graph,
  kot_graph,
  purchase_order_graph,
  subscription_graph,
  user_account_graph,
  table_graph,
  analytics_graph now,
  forecast_graph now,
)
