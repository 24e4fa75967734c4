-- ===== src/Services/Kitchen.antt =====
-- The kitchen tickets: backend/services/business/Kot.go, from `StartKOT` to `PrintKOT`; `UpdateKOT`
-- and `CreateKOT` stand in Create. What the authorizer answers for a user, a tenant and an action on tickets is an
-- argument. A status that the caller gives an item is any text, as in the column.
pub mod Laws
pub mod Completion
pub mod Create
use rems.Prelude.{
  ℕ, zero, suc, ◌+◌, String, Bool, true, false, not, ◌&&◌, ◌||◌, Option, none, some, List, [], ◌∷◌,
  ◌++◌, ◌==◌, ltb, if◌then◌else◌, str_eq,
}
use rems.Fsm.Types.{Uuid, Time, EventEnvelope}
use rems.Fsm.Envelope.{new_envelope, with_actor}
use rems.Fsm.Machine.{restore, send}
use rems.Prelude.Int.{ℤ}
use rems.Domain.Order.{Order}
use rems.Domain.Kot.{
  Kot, KotState, KotEvent, in_progress, start, complete, cancel, kot_sig, kot_state_eq, kot_fsm,
}
use rems.Services.Exec.{
  Result, ok, err, Db, Exec, ◌>>=◌, ◌>>◌, pure, modify, query?, first_of, unless, write, next_fails,
  later,
}

-- A row of the tickets table, with what its machine sees of it.
pub record KotRow : Type 0 where
  pub kot_id : Uuid
  pub order_id : Uuid
  pub tenant_id : Uuid
  pub restaurant_id : Uuid
  pub kot_number : String
  pub sequence_number : ℕ
  pub order_number : String
  pub table_number : Option ℤ
  pub customer_name : String
  pub order_type : String
  pub guest_count : Option ℤ
  pub ticket : Kot
  pub created_by_user_id : Uuid
  pub assigned_to_chef_id : Option Uuid
  pub print_count : ℕ
  pub last_printed_at : Option Time

pub data KitchenError : Type 0 where
  kot_not_found kot_item_not_found kot_invalid_transition kot_cancel_in_progress : KitchenError
  kot_order_not_found kot_terminal kot_items_required kot_chef_not_found : KitchenError
  -- With the ticket that there is.
  kot_already_exists : KotRow → KitchenError
  access_denied database_failed : KitchenError

pub record KotItemRow : Type 0 where
  pub kot_item_id : Uuid
  pub kot_id : Uuid
  pub order_item_id : Uuid
  pub item_name : String
  pub quantity : ℤ
  pub notes : String
  pub assigned_station : String
  pub status : String

pub record KotServiceRequest : Type 0 where
  pub tenant_id : Uuid
  pub restaurant_id : Uuid
  pub actor_id : Uuid

-- A row of the orders table, with what its machine sees of it.
pub record KitchenOrder : Type 0 where
  pub order_id : Uuid
  pub tenant_id : Uuid
  pub restaurant_id : Uuid
  pub order : Order

pub record Chef : Type 0 where
  pub employee_id : Uuid
  pub restaurant_id : Uuid

-- An audit row, by its entity and what happened to it.
pub data KotAudit : Type 0 where
  status_changed : Uuid → KotEvent → KotState → KotAudit
  created_kot updated_kot advance_skipped : Uuid → KotAudit

-- The tables, and the tickets that a started goroutine is to complete.
pub record KitchenRows : Type 0 where
  pub kots : List KotRow
  pub items : List KotItemRow
  pub orders : List KitchenOrder
  pub employees : List Chef
  pub audit : List KotAudit
  pub spawned : List (KotServiceRequest × Uuid)

abbrev pub KitchenExec : Type 0 → Type 0
KitchenExec A = Exec KitchenError KitchenRows A

-- What a call draws: the clock, read once, and what its machine reads.
pub record KotDraws : Type 0 where
  pub now : Time
  pub elapsed : ℕ
  pub envelope_id : String

-- `WHERE kot_id = ? AND tenant_id = ? AND restaurant_id = ?`
abbrev pub find_kot : KotServiceRequest → Uuid → List KotRow → Option KotRow
find_kot input id [] = none
find_kot input id (k ∷ kots) =
    if k.kot_id == id && k.tenant_id == input.tenant_id && k.restaurant_id == input.restaurant_id
    then some k
    else find_kot input id kots

abbrev pub get_kot_for_write : KotServiceRequest → Uuid → KitchenExec KotRow
get_kot_for_write input id =
    first_of kot_not_found database_failed (λ rows. find_kot input id rows.kots)

abbrev pub update_kot_row : Uuid → (KotRow → KotRow) → List KotRow → List KotRow
update_kot_row id f [] = []
update_kot_row id f (k ∷ kots) = (if k.kot_id == id then f k else k) ∷ update_kot_row id f kots

abbrev pub with_status : KotState → KotRow → KotRow
with_status s k = record k { ticket = record k.ticket { status = s } }

-- Errors of the audit log are silenced.
abbrev pub audit_kot : KotAudit → KitchenExec (Unit {0})
audit_kot entry db = elim (next_fails db.faults) [
  | true ↦ (ok tt, record db { faults = later db.faults })
  | false ↦ (
    ok tt,
    record {
      faults = later db.faults;
      rows = record db.rows { audit = db.rows.audit ++ (entry ∷ []) };
    },
  )
]

-- Whether an item's parent ticket is one of the restaurant.
abbrev pub is_own_item : KotServiceRequest → List KotRow → KotItemRow → Bool
is_own_item input [] item = false
is_own_item input (k ∷ kots) item =
    (k.kot_id == item.kot_id
      && k.tenant_id == input.tenant_id
      && k.restaurant_id == input.restaurant_id)
    || is_own_item input kots item

abbrev pub find_item_row :
    KotServiceRequest → Uuid → List KotRow → List KotItemRow → Option KotItemRow
find_item_row input id kots [] = none
find_item_row input id kots (item ∷ items) =
    if item.kot_item_id == id && is_own_item input kots item
    then some item
    else find_item_row input id kots items

abbrev pub update_item_row : Uuid → String → List KotItemRow → List KotItemRow
update_item_row id status [] = []
update_item_row id status (item ∷ items) =
    (if item.kot_item_id == id then record item { status = status } else item)
    ∷ update_item_row id status items

abbrev pub is_done : String → Bool
is_done status = str_eq status "ready" || str_eq status "served" || str_eq status "cancelled"

-- `WHERE kot_id = ? AND status NOT IN (…)`
abbrev pub non_terminal_count : Uuid → List KotItemRow → ℕ
non_terminal_count id [] = 0
non_terminal_count id (item ∷ items) =
    if item.kot_id == id && not (is_done item.status)
    then suc (non_terminal_count id items)
    else non_terminal_count id items

module _ (draws : KotDraws) where
  -- The machine of a loaded ticket, after one event.
  unfoldable pub send_to_ticket : KotServiceRequest → KotEvent → Kot → Result KitchenError Kot
  unfolding send restore new_envelope with_actor kot_fsm
  send_to_ticket input event ticket =
      let env : EventEnvelope kot_sig =
        with_actor input.actor_id input.tenant_id
          (new_envelope draws.envelope_id draws.now event none) in
      let (failure, machine) =
        send draws.now draws.elapsed env (restore kot_fsm ticket ticket.status) in
      elim failure [ some e ↦ err kot_invalid_transition | none ↦ ok machine.obj ]

  -- The write of the new status, and the audit.
  abbrev pub persist_ticket : KotEvent → KotRow → Kot → KitchenExec KotRow
  persist_ticket event k ticket = do
    write database_failed (λ rows. record rows {
      kots = update_kot_row k.kot_id (with_status ticket.status) rows.kots;
    })
    audit_kot (status_changed k.kot_id event ticket.status)
    pure (record k { ticket = ticket })

  unfoldable pub fire_kot_event_on_model :
      KotServiceRequest → KotEvent → KotRow → KitchenExec KotRow
  unfolding send_to_ticket
  fire_kot_event_on_model input event k = do
    ticket ← (λ db. (send_to_ticket input event k.ticket, db))
    persist_ticket event k ticket

  -- In progress, only a manager cancels.
  abbrev pub guard_cancel : Bool → KotServiceRequest → KotRow → KitchenExec KotRow
  guard_cancel is_manager_actor input k =
      unless (not (kot_state_eq.beq k.ticket.status in_progress && not is_manager_actor))
        kot_cancel_in_progress
      >> fire_kot_event_on_model input cancel k

  -- What is left once no item is open.
  abbrev pub complete_loaded : KotServiceRequest → Option (Option KotRow) → KitchenExec (Unit {0})
  complete_loaded input none db = (ok tt, db)
  complete_loaded input (some none) db = (ok tt, db)
  complete_loaded input (some (some k)) db = elim (kot_state_eq.beq k.ticket.status in_progress) [
    | false ↦ (ok tt, db)
    | true ↦ (ok tt, (fire_kot_event_on_model input complete k db).1)
  ]

  abbrev pub unless_open : KotServiceRequest → Uuid → Option ℕ → KitchenExec (Unit {0})
  unless_open input id none db = (ok tt, db)
  unless_open input id (some count) db = elim (ltb 0 count) [
    | true ↦ (ok tt, db)
    | false ↦
        (do found ← query? (λ rows. find_kot input id rows.kots); complete_loaded input found) db
  ]

  -- The goroutine, at the time it runs.
  unfoldable pub try_auto_complete_kot : KotServiceRequest → Uuid → KitchenExec (Unit {0})
  unfolding fire_kot_event_on_model
  try_auto_complete_kot input id = do
    count ← query? (λ rows. non_terminal_count id rows.items)
    unless_open input id count

  module _ (may : Uuid → Uuid → String → Bool) where
    abbrev pub authorized_kot : KotServiceRequest → KitchenExec (Unit {0})
    authorized_kot input = unless (may input.actor_id input.tenant_id "update") access_denied

    unfoldable pub fire_kot_event : KotServiceRequest → Uuid → KotEvent → KitchenExec KotRow
    unfolding fire_kot_event_on_model
    fire_kot_event input id event = do
      authorized_kot input
      k ← get_kot_for_write input id
      fire_kot_event_on_model input event k

    unfoldable pub start_kot : KotServiceRequest → Uuid → KitchenExec KotRow
    unfolding fire_kot_event
    start_kot input id = fire_kot_event input id start

    unfoldable pub complete_kot : KotServiceRequest → Uuid → KitchenExec KotRow
    unfolding fire_kot_event
    complete_kot input id = fire_kot_event input id complete

    unfoldable pub cancel_kot : Bool → KotServiceRequest → Uuid → KitchenExec KotRow
    unfolding fire_kot_event_on_model
    cancel_kot is_manager_actor input id = do
      authorized_kot input
      k ← get_kot_for_write input id
      guard_cancel is_manager_actor input k

    unfoldable pub update_kot_item_status :
        KotServiceRequest → Uuid → String → KitchenExec KotItemRow
    update_kot_item_status input id status = do
      authorized_kot input
      item ←
          first_of kot_item_not_found database_failed
            (λ rows. find_item_row input id rows.kots rows.items)
      write database_failed
          (λ rows. record rows { items = update_item_row item.kot_item_id status rows.items })
      modify (λ rows. record rows { spawned = rows.spawned ++ ((input, item.kot_id) ∷ []) })
      pure (record item { status = status })

    unfoldable pub print_kot : KotServiceRequest → Uuid → KitchenExec KotRow
    print_kot input id = do
      authorized_kot input
      k ← get_kot_for_write input id
      write database_failed (λ rows. record rows {
        kots =
            update_kot_row k.kot_id
              (λ row. record row {
                print_count = row.print_count + 1;
                last_printed_at = some draws.now;
              })
              rows.kots;
      })
      pure (record k { print_count = k.print_count + 1; last_printed_at = some draws.now })
