-- ===== src/Domain/Table/Graph.antt =====
-- The table machine against its diagram, and what one `Send` does to it:
-- backend/utils/FSM.go, `TableFSM`.
use rems.Prelude.{ℕ, List, ◌≡◌, refl, ◌↔◌, some, arith}
use rems.Fsm.Types.{Time, EventEnvelope, TransitionRecord}
use rems.Fsm.Builder.{must_compile, target}
use rems.Fsm.Machine.{send}
use rems.Fsm.Machine.Conforms.{Conforms, Edge, Conforms-Step, resting}
use rems.Domain.Table.{
  Table, TableEvent, TableState, arrive, available, clean, cleaning, disable, occupied,
  out_of_service, release, reserve, reserved, seat, set_status, table_builder, table_fsm, table_sig,
}

pub data InService : TableState → Type 0 where
  available_table : InService available
  occupied_table : InService occupied
  reserved_table : InService reserved
  cleaning_table : InService cleaning

-- The diagram: the transitions that the definition lists, as a relation.
pub data TableStep : TableState → TableEvent → TableState → Type 0 where
  seating : TableStep available seat occupied
  reserving : TableStep available reserve reserved
  arriving : TableStep reserved arrive occupied
  releasing : TableStep occupied release cleaning
  cleaned : TableStep cleaning clean available
  disabling : {s : TableState} → InService s → TableStep s disable out_of_service

ruleset edges = (
  seating, reserving, arriving, releasing, cleaned, disabling, available_table, occupied_table,
  reserved_table, cleaning_table,
)

target-TableStep :
    (s : TableState) (e : TableEvent) (t : TableState)
    → target table_fsm s e ≡ some t
    → TableStep s e t
unfolding table_fsm
target-TableStep s e t h = grind (arith, edges)

TableStep-target :
    {s : TableState} {e : TableEvent} {t : TableState}
    → TableStep s e t
    → target table_fsm s e ≡ some t
unfolding table_fsm
TableStep-target seating = refl
TableStep-target reserving = refl
TableStep-target arriving = refl
TableStep-target releasing = refl
TableStep-target cleaned = refl
TableStep-target (disabling available_table) = refl
TableStep-target (disabling occupied_table) = refl
TableStep-target (disabling reserved_table) = refl
TableStep-target (disabling cleaning_table) = refl

table_compiles : must_compile table_builder ≡ some table_fsm
unfolding must_compile table_fsm
table_compiles = refl

-- `TableFSM` compiles without a panic, and its transitions are exactly those of the diagram.
pub table_graph :
    (must_compile table_builder ≡ some table_fsm)
    × ((s : TableState) (e : TableEvent) (t : TableState)
        → (target table_fsm s e ≡ some t) ↔ TableStep s e t)
table_graph = (table_compiles, λ s e t. (target-TableStep s e t, TableStep-target))

-- What the guards ask for.
abbrev pub TableGuard : Type 0
TableGuard = Unit

send-Edge :
    (started : Time) (elapsed : ℕ) (envelope : EventEnvelope table_sig) (b : Table)
    (st : TableState) (history : List (TransitionRecord table_sig)) (seq : ℕ)
    → Conforms
        (Edge table_fsm)
        (TableGuard)
        (λ t. record b { status = t })
        (resting table_fsm b st history seq)
        envelope.event
        (send started elapsed envelope (resting table_fsm b st history seq))
unfolding send table_fsm set_status
send-Edge started elapsed envelope b available history seq = ground arith
send-Edge started elapsed envelope b _ history seq = ground arith

-- Sending any event to a table that is not in flight, in any state, takes the step of the diagram
-- and updates the object for it, and changes nothing else of it; or, where the diagram has no such
-- step or the state is out of service or no state of the machine, it changes nothing.
pub table_send :
    (started : Time) (elapsed : ℕ) (envelope : EventEnvelope table_sig) (b : Table)
    (st : TableState) (history : List (TransitionRecord table_sig)) (seq : ℕ)
    → Conforms TableStep
        (TableGuard)
        (λ t. record b { status = t })
        (resting table_fsm b st history seq)
        envelope.event
        (send started elapsed envelope (resting table_fsm b st history seq))
table_send started elapsed envelope b st history seq =
    Conforms-Step _ table_fsm (table_graph).1 _ _ _ _
      (send-Edge started elapsed envelope b st history seq)
