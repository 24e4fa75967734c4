-- ===== src/Domain/Table/Runs.antt =====
-- A table whose stored status is no state of the machine: backend/utils/FSM.go, `TableFSM`.
use rems.Prelude.{String, List, [], ◌≡◌, refl, some}
use mathlib.Core.Path.{subst}
use rems.Fsm.Types.{TransitionRecord}
use rems.Fsm.Builder.{target}
use rems.Fsm.Machine.{Machine, restore}
use rems.Fsm.Machine.History.{Run}
use rems.Fsm.Machine.Conforms.{Run-keeps}
use rems.Domain.Table.{Table, TableState, TableEvent, unlisted, table_sig, table_fsm}
use rems.Domain.Table.Graph.{TableStep, TableGuard, table_send, table_graph}

unlisted-TableStep :
    (status : String) {t : TableState} {e : TableEvent} → ¬ TableStep (unlisted status) e t
unfolding table_fsm
unlisted-TableStep status {t} {e} step =
    let found : target table_fsm (unlisted status) e ≡ some t =
      (table_graph.1 (unlisted status) e t).1 step in
    cc found

-- A table restored from a status text that no state of the machine has stays as it is, whatever
-- events are sent to it: no transition is logged.
pub Run-unlisted :
    (status : String) (b : Table) {m : Machine table_sig} {log : List (TransitionRecord table_sig)}
    → Run (restore table_fsm b (unlisted status)) m log
    → (m.current ≡ unlisted status) × (m.obj ≡ b) × (log ≡ [])
Run-unlisted status b {m} {log} run =
    Run-keeps table_fsm TableStep (λ s envelope x. TableGuard)
      (λ envelope x t. record x { status = t })
      (λ started elapsed envelope x s history seq.
        table_send started elapsed envelope x s history seq)
      (λ s x log. (s ≡ unlisted status) × (x ≡ b) × (log ≡ []))
      (λ s t x log r step guard p.
        absurd (unlisted-TableStep status (subst (λ z. TableStep z r.event.event t) p.0 step)))
      (unlisted status) b (refl, refl, refl) run
