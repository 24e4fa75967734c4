-- ===== src/Lib.antt =====
-- ReMS, a restaurant management backend in Go. Its core is a generic finite-state-machine engine and
-- the ten domain machines built on it, in backend/utils/FSM.go; the services load a row from the
-- database, restore a machine around it, send one event, and store the row again.
--
-- Fsm: the engine.
--   Types: errors, `EventEnvelope`, `TransitionRecord`, `stateMeta`, `transitionDef` and the
--     callback types. Envelope: `NewEnvelope`, `WithActor`, `WithMeta`. Options: `Guard` to
--     `Describe`, `Terminal` to `StateDesc`.
--   Builder: `Define` and the methods of `DefinitionBuilder`, `Compile`, `MustCompile`, and the
--     queries of `FSMDefinition`. Its children Compile and Index hold proofs.
--   Machine: `New`, `Restore`, `Send`, `Can`, `appendHistory`. Its children Steps, Send, History
--     and Conforms hold proofs: one event, any sequence of events, and the form of a domain's contract.
--   Batch: `BatchSend`. Its child Laws holds proofs.
-- Domain: a file for each of `OrderFSM`, `KOTFSM`, `TableFSM`, `SubscriptionFSM`, `UserAccountFSM`,
--   `PurchaseOrderFSM`, `PaymentFSM`, `InventoryItemFSM`, `AnalyticsPipelineFSM` and
--   `ForecastPipelineFSM`: states, events, the fields behind the context interface, guards, effects,
--   the builder chain and the definition compiled from it. The child Graph has the machine's diagram
--   as a relation, Graphs has them all; the child Runs speaks of any sequence of events.
-- Services: Stock is `evaluateStockTransition` of backend/services/inventory/inventory.go. Tax is the
--   calculator of backend/services/business/Taxes.go: Lines has its data, configuration, line totals
--   and rates, Calculate has `CalculateTax` and `extractIncludedTax`, Category has
--   `DetermineTaxCategory`; Loops, Rates and Laws hold proofs.
--   Exec is the form of a service method: a database that may fail, with what each step keeps.
--   Rbac is backend/services/core/rbac.go: Types has its data, Engine `PolicyEngine`, Resolver
--     `RoleResolver`, Cache `PermissionCache` and `InvalidateAll`, Authorize `Authorize`, `Require`
--     and the audit log, Assign `AssignRole`, `RevokeRole` and `checkPrivilegeEscalation`, Policies
--     `CreatePolicy` and `detectPolicyConflicts`, Seed `SeedSystemRoles`, Listing `GetUserRoles` and
--     the ready-made checks. The children Laws, Coverage and Revoke hold proofs.
--   Payment is backend/services/business/Payment.go over backend/models/Payment.go: Types has the
--     records and what a call draws, Fire `firePaymentFSM` and `failPayment`, Callback
--     `HandleFonepayCallback`, `ExpireStaleQRs` and `tryAdvanceOrderToServed`, Qr
--     `InitiateQRPayment` and `RegenerateQR`, Settle `RefundPayment`, `RecordCashOrCard` and
--     `GetPayment`, Invoice `CreateInvoice`. The children Laws and Sweep hold proofs.
--   Kitchen is the tickets of backend/services/business/Kot.go: `StartKOT`, `CompleteKOT`, `CancelKOT`,
--     `UpdateKOTItemStatus`, `tryAutoCompleteKOT` and `PrintKOT`; its child Create has `CreateKOT`,
--     which also sends an event to the order's machine, `autoRouteStation` and `UpdateKOT`. The children
--     Laws, Insert and Completion hold proofs.
--   Inventory is backend/services/inventory/inventory.go and inventoryNotif.go: Types has the tables and
--     what stands for Redis, Moves `AdjustStock`, Deduct `DeductForOrder` and `Notify`, Items
--     `CreateItem`, `GetItem`, `UpdateItem` and `DeleteItem`, Alerts `checkLowStock`, Vendors the
--     vendors and the links, Stats `GetInventoryStats` and `StockMovementHistory`. Moves has a child
--     Adjust, which holds proofs as the children Laws do.
--   Purchase is backend/services/inventory/purchaseOrder.go: Create has `CreatePurchaseOrder` and
--     `generatePONumber`, Fire `firePOEvent` and its callers, Receive `ReceivePurchaseOrder`. Laws,
--     Finish, Bounds, Count, Status and Ledger hold proofs, the last about the stock under all these
--     operations.
-- Prelude: tests on numbers, lists, integers and dictionaries. Tests: concrete runs.
--
-- How the code corresponds to the definitions.
--   A method that writes through `*Machine` or `*DefinitionBuilder` returns the changed value. An
--     error result is `some` error or, where a value comes with it, a data type.
--   A callback may change the object that the machine points to, so it returns the object with its
--     error. The fields of a machine are private to its package, so a callback cannot change them;
--     `ctx` is passed on unread and left out.
--   `time.Now()`, `time.Since` and `uuid.NewString()` are arguments: `started`, `elapsed`, a clock
--     for each item of a loop, `now` for the pipelines' effects, `id`.
--   A Go map is an association list. `AllowedEvents` iterates over a map, so its order is free in Go;
--     nothing here depends on the order.
--   A status is a Go string, and a service may restore a machine from any text in its column: where a
--     service does, the state type has a constructor `unlisted` with that text.
--   Amounts and quantities are `float64` in Go and decimal columns in the database: here they are
--     integers in the column's last digit (cents, thousandths). Comparisons of such values agree.
--     The tax calculator computes with such values, so its `float64` arithmetic is a parameter, of
--     which nothing is asked.
--   A stock quantity is a `float64`, that is a whole number of some small unit (2^-1074 is one for all
--     of them): here it is that number. The `float64` sum of two quantities, what a column with three
--     digits keeps of one, and the cents kept of a price are parameters, of which only what a theorem
--     names is asked. The sums and differences of `DeductForOrder` are exact here, not rounded.
--   `seq` is a `uint64` and wraps at 2^64. `historyCapacity` is a natural number: `New` panics on a
--     negative one, in `make`.
--   A service method is a function of the tables and of a list of the outcomes that its queries will
--     have, so that each query may fail; what was written before a failure stays written, except
--     in a transaction. Its context's deadline is one way for a query to fail. A method runs without
--     another in between; where two interleave, what was read is an argument of the part that writes.
--   Redis with its JSON texts, SHA-256, the payment provider, the URL parser, base64, the identifiers
--     and random tokens that a call draws, and the authorizer's answer to the payment service are
--     parameters. A hypothesis on them says what the property needs of them: that `DEL` removes its
--     key, or that `SCAN` returns only keys with the literal start of its pattern.
--   `roleIDs` is resolved with the levels that are left below `maxInheritanceDepth`, by structural
--     recursion: no fuel is added to the code's own bound.
--   Every loop runs over a list and is a structural recursion; there is no fuel.
--
-- Not modelled: `SynchronizedMachine` (a mutex around the methods), `ExportDOT` (prints a picture),
-- the texts of error messages, panics in callbacks; of the modelled services the methods that only list
-- or count rows (payments, tickets, items, purchase orders); the time to live of counters in Redis; the
-- metadata of audit entries; and the other services, handlers, middleware and database code.
mod Prelude
mod Tests
pub mod Fsm
pub mod Domain
pub mod Services
