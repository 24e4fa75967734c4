-- ===== src/Tests/Batches.antt =====
-- A batch over three orders, two of them listed: backend/utils/FSM.go, `BatchSend`.
use rems.Prelude.{ℕ, ◌≡◌, ◌⊎◌, refl, some, [], ◌∷◌, List, get_elem?, In, arith}
use rems.Fsm.Types.{Time}
use rems.Fsm.Machine.{Machine, send}
use rems.Fsm.Batch.{BatchOutcome, batch_send}
use rems.Fsm.Batch.Laws.{
  AllValid, AllDistinct, Absent, IsComplete, batch_send-IsComplete, batch_send-machine,
}
use rems.Domain.Order.{confirm, order_sig}
use rems.Tests.Orders.{order_event, dinner_machine, empty_machine, cancelled_machine}

abbrev clock : ℕ → Time × ℕ
clock i = (100, i)

abbrev store : List (Machine order_sig)
store = dinner_machine ∷ empty_machine ∷ cancelled_machine ∷ []

abbrev listed : List ℕ
listed = 0 ∷ 1 ∷ []

listed-AllValid : AllValid listed 3
listed-AllValid = (omega arith, (omega arith, tt))

listed-AllDistinct : AllDistinct listed
listed-AllDistinct = ((omega arith, tt), (tt, tt))

batch_send-IsComplete_example :
    (out : BatchOutcome order_sig) × (batch_send clock (order_event confirm) listed store
      ≡ some out)
    × IsComplete 0 listed store out
batch_send-IsComplete_example =
    batch_send-IsComplete clock (order_event confirm) listed store listed-AllValid

batched :
    (out : BatchOutcome order_sig) × (batch_send clock (order_event confirm) listed store
      ≡ some out)
batched =
    let (out, eq, complete) =
      batch_send-IsComplete clock (order_event confirm) listed store listed-AllValid in
    (out, eq)

batch_send-machine_example :
    In 0 listed
      × ((j : ℕ) × (get_elem? batched.0.machines 0
            ≡ some (send (clock j).0 (clock j).1 (order_event confirm) dinner_machine).1))
    ⊎ Absent 0 listed × (get_elem? batched.0.machines 0 ≡ some dinner_machine)
batch_send-machine_example =
    batch_send-machine clock (order_event confirm) listed store 0 batched.0 dinner_machine
      listed-AllValid listed-AllDistinct batched.1 refl
