-- ===== src/Services/Kitchen/Create.antt =====
-- A new ticket and its edits: backend/services/business/Kot.go, `CreateKOT`, `generateKOTNumber`,
-- `autoRouteStation` and `UpdateKOT`. The rows of a batch are one write; the time to live of the
-- counter is left out.
pub mod Insert
pub mod Laws
use rems.Prelude.{
  ℕ, zero, suc, ◌+◌, String, Bool, true, false, not, ◌&&◌, ◌||◌, Option, none, some, List, [], ◌∷◌,
  ◌++◌, ◌==◌, ◌%◌, if◌then◌else◌, str_eq,
}
use text.Mathlib.Text.{find?}
use rems.Prelude.Int.{ℤ}
use rems.Fsm.Types.{Uuid, Time, EventEnvelope}
use rems.Fsm.Envelope.{new_envelope, with_actor}
use rems.Fsm.Machine.{restore, send}
use rems.Domain.Order.{Order, OrderState, prepare, order_sig, order_fsm}
use rems.Domain.Kot.{Kot, KotState, sent, completed, cancelled, kot_state_eq}
use rems.Services.Exec.{
  Result, ok, err, ◌>>=◌, ◌>>◌, pure, query, first_of, unless, write, transaction, later,
}
use rems.Services.Kitchen.{
  KotRow, KitchenError, kot_order_not_found, kot_terminal, kot_items_required, kot_chef_not_found,
  kot_already_exists, access_denied, database_failed, KotItemRow, KotServiceRequest, KitchenOrder,
  Chef, created_kot, updated_kot, advance_skipped, KitchenRows, KitchenExec, KotDraws,
  get_kot_for_write, update_kot_row, audit_kot, authorized_kot,
}

-- Parts of `strings`, the texts of identifiers and numbers.
pub record KotTexts : Type 0 where
  pub to_lower : String → String
  pub trim_space : String → String
  pub uuid_text : Uuid → String
  pub order_number : Uuid → String
  pub kot_number : Time → ℕ → String
  pub unix_nano : Time → ℕ

pub record CreateKotItemInput : Type 0 where
  pub kot_item_id : Uuid
  pub order_item_id : Uuid
  pub item_name : String
  pub quantity : ℤ
  pub notes : String
  pub assigned_station : String

pub record CreateKotInput : Type 0 where
  pub request : KotServiceRequest
  pub order_id : Uuid
  pub table_number : Option ℤ
  pub customer_name : String
  pub order_type : String
  pub guest_count : Option ℤ
  pub priority : String
  pub items : List CreateKotItemInput

pub record UpdateKotInput : Type 0 where
  pub request : KotServiceRequest
  pub kot_id : Uuid
  pub priority : Option String
  pub assigned_to_chef_id : Option Uuid

-- `strings.Contains`
abbrev pub contains : String → String → Bool
contains s keyword = elim (find? s keyword) [ none ↦ false | some i ↦ true ]

abbrev pub contains_any : String → List String → Bool
contains_any s [] = false
contains_any s (kw ∷ keywords) = contains s kw || contains_any s keywords

unfoldable pub station_of : String → String
station_of lower =
    if contains_any lower (
      "beer" ∷ "wine" ∷ "cocktail" ∷ "juice" ∷ "soda" ∷ "coffee" ∷ "tea" ∷ "drink" ∷ "beverage"
      ∷ "smoothie" ∷ "shake" ∷ "lemonade" ∷ [])
    then "beverage"
    else (if contains_any lower (
          "cake" ∷ "ice cream" ∷ "dessert" ∷ "pudding" ∷ "brownie" ∷ "tiramisu" ∷ "cheesecake"
          ∷ "pastry" ∷ "tart" ∷ "mousse" ∷ [])
        then "dessert"
        else (if contains_any lower (
              "steak" ∷ "burger" ∷ "grill" ∷ "bbq" ∷ "ribs" ∷ "skewer" ∷ "kebab" ∷ "lamb chop"
              ∷ "pork chop" ∷ [])
            then "grill"
            else (if contains_any lower (
                  "fries" ∷ "fried" ∷ "nugget" ∷ "wings" ∷ "tempura" ∷ "fritter" ∷ "spring roll"
                  ∷ "samosa" ∷ "calamari" ∷ [])
                then "fryer"
                else (if contains_any lower (
                      "salad" ∷ "slaw" ∷ "carpaccio" ∷ "tartare" ∷ "sashimi" ∷ "cold" ∷ "chilled"
                      ∷ [])
                    then "salad"
                    else "general"))))

-- `WHERE order_id = ? AND tenant_id = ? AND restaurant_id = ?`
abbrev pub find_kitchen_order : KotServiceRequest → Uuid → List KitchenOrder → Option KitchenOrder
find_kitchen_order input id [] = none
find_kitchen_order input id (o ∷ orders) =
    if o.order_id == id && o.tenant_id == input.tenant_id && o.restaurant_id == input.restaurant_id
    then some o
    else find_kitchen_order input id orders

abbrev pub find_kot_of_order : KotServiceRequest → Uuid → List KotRow → Option KotRow
find_kot_of_order input id [] = none
find_kot_of_order input id (k ∷ kots) =
    if k.order_id == id && k.restaurant_id == input.restaurant_id && k.tenant_id == input.tenant_id
    then some k
    else find_kot_of_order input id kots

-- A row with this tenant and number: the unique index `idx_tenant_kot_number`.
abbrev pub has_number : Uuid → String → List KotRow → Bool
has_number tenant_id number [] = false
has_number tenant_id number (k ∷ kots) =
    (k.tenant_id == tenant_id && str_eq k.kot_number number) || has_number tenant_id number kots

-- `WHERE order_id = ?`, the status column.
abbrev pub advance_orders : Uuid → OrderState → List KitchenOrder → List KitchenOrder
advance_orders id status [] = []
advance_orders id status (o ∷ orders) =
    (if o.order_id == id then record o { order = record o.order { status = status } } else o)
    ∷ advance_orders id status orders

abbrev pub find_chef : Uuid → Uuid → List Chef → Option Chef
find_chef restaurant_id id [] = none
find_chef restaurant_id id (c ∷ chefs) =
    if c.employee_id == id && c.restaurant_id == restaurant_id
    then some c
    else find_chef restaurant_id id chefs

module _ (T : KotTexts) where
  abbrev pub auto_route_station : String → String
  auto_route_station item_name = station_of (T.to_lower item_name)

  -- `counted` is what `INCR` answered, `none` an error.
  abbrev pub generate_kot_number : Option ℕ → Time → String × ℕ
  generate_kot_number none t = let seq = T.unix_nano t % 9999 in (T.kot_number t seq, seq)
  generate_kot_number (some seq) t = (T.kot_number t seq, seq)

  abbrev pub or_medium : String → String
  or_medium priority = if str_eq priority "" then "medium" else priority

  abbrev pub build_kot_item : Uuid → CreateKotItemInput → KotItemRow
  build_kot_item kot_id item = record {
    kot_item_id = item.kot_item_id;
    kot_id = kot_id;
    order_item_id = item.order_item_id;
    item_name = T.trim_space item.item_name;
    quantity = item.quantity;
    notes = T.trim_space item.notes;
    assigned_station =
        if str_eq item.assigned_station ""
        then auto_route_station item.item_name
        else item.assigned_station;
    status = "pending";
  }

  abbrev pub build_kot_items : Uuid → List CreateKotItemInput → List KotItemRow
  build_kot_items kot_id [] = []
  build_kot_items kot_id (item ∷ items) = build_kot_item kot_id item ∷ build_kot_items kot_id items

module _ (T : KotTexts) (draws : KotDraws) (kot_id : Uuid) (counted : Option ℕ)
    (may : Uuid → Uuid → String → Bool) (input : CreateKotInput) where
  abbrev pub new_kot : KotRow
  new_kot = record {
    kot_id = kot_id;
    order_id = input.order_id;
    tenant_id = input.request.tenant_id;
    restaurant_id = input.request.restaurant_id;
    kot_number = (generate_kot_number T counted draws.now).0;
    sequence_number = (generate_kot_number T counted draws.now).1;
    order_number = T.order_number input.order_id;
    table_number = input.table_number;
    customer_name = T.trim_space input.customer_name;
    order_type = input.order_type;
    guest_count = input.guest_count;
    ticket = record {
      kot_id = T.uuid_text kot_id;
      priority = or_medium T input.priority;
      status = sent;
    };
    created_by_user_id = input.request.actor_id;
    assigned_to_chef_id = none;
    print_count = 0;
    last_printed_at = none;
  }

  -- The order's machine after `prepare`; `none` is its error.
  unfoldable pub prepared : Order → Option OrderState
  unfolding send restore new_envelope with_actor order_fsm
  prepared order =
      let env : EventEnvelope order_sig =
        with_actor input.request.actor_id input.request.tenant_id
          (new_envelope draws.envelope_id draws.now prepare none) in
      let (failure, machine) =
        send draws.now draws.elapsed env (restore order_fsm order order.status) in
      elim failure [ some e ↦ none | none ↦ some machine.obj.status ]

  -- The error of the audit is dropped, but a failed statement aborts the transaction in PostgreSQL,
  -- and its commit fails.
  abbrev pub advance_order : Option OrderState → KitchenExec (Unit {0})
  advance_order none =
      write database_failed
        (λ rows. record rows { audit = rows.audit ++ (advance_skipped input.order_id ∷ []) })
  advance_order (some status) =
      write database_failed
        (λ rows. record rows { orders = advance_orders input.order_id status rows.orders })

  -- The insert of the ticket, under the unique index.
  abbrev pub insert_row : KitchenExec (Unit {0})
  insert_row db = elim (has_number new_kot.tenant_id new_kot.kot_number db.rows.kots) [
    | true ↦ (err database_failed, record db { faults = later db.faults })
    | false ↦ write database_failed (λ rows. record rows { kots = rows.kots ++ (new_kot ∷ []) }) db
  ]

  abbrev pub insert_with : Option OrderState → KitchenExec (Unit {0})
  insert_with status = transaction (do
    insert_row
    write database_failed
        (λ rows. record rows { items = rows.items ++ build_kot_items T kot_id input.items })
    advance_order status)

  abbrev pub insert_kot : KitchenOrder → KitchenExec (Unit {0})
  insert_kot o = insert_with (prepared o.order)

  abbrev pub finish_kot : KitchenExec KotRow
  finish_kot = audit_kot (created_kot kot_id) >> pure new_kot

  abbrev pub unless_exists : KitchenOrder → Option KotRow → KitchenExec KotRow
  unless_exists o (some existing) db = (err (kot_already_exists existing), db)
  unless_exists o none db = (insert_kot o >> finish_kot) db

  abbrev pub create_for : KitchenOrder → KitchenExec KotRow
  create_for o =
      query database_failed (λ rows. find_kot_of_order input.request input.order_id rows.kots)
      >>= unless_exists o

  abbrev pub create_found : KitchenExec KotRow
  create_found =
      first_of kot_order_not_found database_failed
        (λ rows. find_kitchen_order input.request input.order_id rows.orders)
      >>= create_for

  abbrev pub has_items : List CreateKotItemInput → Bool
  has_items [] = false
  has_items (item ∷ items) = true

  abbrev pub create_nonempty : KitchenExec KotRow
  create_nonempty = unless (has_items input.items) kot_items_required >> create_found

  unfoldable pub create_kot : KitchenExec KotRow
  unfolding prepared
  create_kot =
      unless (may input.request.actor_id input.request.tenant_id "create") access_denied
      >> create_nonempty

module _ (draws : KotDraws) (may : Uuid → Uuid → String → Bool) (input : UpdateKotInput) where
  abbrev pub is_kot_terminal : KotState → Bool
  is_kot_terminal status = kot_state_eq.beq status completed || kot_state_eq.beq status cancelled

  abbrev pub patch_kot : KotRow → KotRow
  patch_kot k = record k {
    ticket = elim (input.priority) [ none ↦ k.ticket | some p ↦ record k.ticket { priority = p } ];
    assigned_to_chef_id = elim (input.assigned_to_chef_id) [
      | none ↦ k.assigned_to_chef_id
      | some c ↦ some c
    ];
  }

  abbrev pub check_chef : Option Uuid → KitchenExec (Unit {0})
  check_chef none = pure tt
  check_chef (some id) =
      first_of kot_chef_not_found database_failed
        (λ rows. find_chef input.request.restaurant_id id rows.employees)
      >> pure tt

  abbrev pub is_unchanged : Bool
  is_unchanged =
      elim (input.priority) [ none ↦ true | some p ↦ false ]
      && elim (input.assigned_to_chef_id) [ none ↦ true | some c ↦ false ]

  abbrev pub write_kot : KotRow → KitchenExec KotRow
  write_kot k = do
    write database_failed
        (λ rows. record rows { kots = update_kot_row k.kot_id patch_kot rows.kots })
    audit_kot (updated_kot input.kot_id)
    pure (patch_kot k)

  unfoldable pub update_kot : KitchenExec KotRow
  update_kot = do
    authorized_kot draws may input.request
    k ← get_kot_for_write input.request input.kot_id
    unless (not (is_kot_terminal k.ticket.status)) kot_terminal
    check_chef input.assigned_to_chef_id
    (λ db. elim is_unchanged [ true ↦ (ok k, db) | false ↦ write_kot k db ])
