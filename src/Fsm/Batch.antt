-- ===== src/Fsm/Batch.antt =====
-- The batch processor of backend/utils/FSM.go. `machines []*Machine` holds pointers, and two of
-- them may be the same machine: the machines stand in a store, and the slice holds their positions.
pub mod Laws
use rems.Prelude.{
  ℕ, suc, Bool, true, false, Option, none, some, List, [], ◌∷◌, length, get_elem?, set,
}
use rems.Fsm.Types.{Signature, Time, EventEnvelope, FsmError}
use rems.Fsm.Machine.{Machine, send}

pub record BatchResult (σ : Signature) : Type 0 where
  pub index : ℕ
  pub from : σ.State
  pub to : σ.State
  pub err : Option (FsmError σ)

-- `all_succeeded`, `results`, and the machines afterwards.
pub record BatchOutcome (σ : Signature) : Type 0 where
  pub all_succeeded : Bool
  pub results : List (BatchResult σ)
  pub machines : List (Machine σ)

-- `allSucceeded` is set to false by an error and stays false.
abbrev pub succeeded : {E : Type 0} → Option E → Bool → Bool
succeeded (some e) rest = false
succeeded none rest = rest

module _ {σ : Signature} where
  -- `results[i] = BatchResult{…}` and the flag, for item `i` whose machine `m` gave `sent`.
  abbrev pub add_result :
      ℕ → Machine σ → Option (FsmError σ) × Machine σ → BatchOutcome σ → BatchOutcome σ
  add_result i m (err, m') rest = record {
    all_succeeded = succeeded err rest.all_succeeded;
    results = record { index = i; from = m.current; to = m'.current; err = err } ∷ rest.results;
    machines = rest.machines;
  }

module _ {σ : Signature} (clock : ℕ → Time × ℕ) (envelope : EventEnvelope σ) where
  -- The loop from item `i` on; `none` is the panic of a pointer to no machine. The clock gives the
  -- two readings of the `Send` of item `i`.
  unfoldable pub batch_from : ℕ → List ℕ → List (Machine σ) → Option (BatchOutcome σ)
  batch_from i [] store = some (record { all_succeeded = true; results = []; machines = store })
  batch_from i (p ∷ ps) store = elim (get_elem? store p) [
    | none ↦ none
    | some m ↦
        (let sent = send (clock i).0 (clock i).1 envelope m in
          elim (batch_from (suc i) ps (set store p sent.1)) [
            | none ↦ none
            | some rest ↦ some (add_result i m sent rest)
          ])
  ]

  unfoldable pub batch_send : List ℕ → List (Machine σ) → Option (BatchOutcome σ)
  unfolding batch_from
  batch_send machines store = batch_from 0 machines store
