-- ===== src/Fsm/Machine/History.antt =====
-- The bounded history of backend/utils/FSM.go against the full log of a machine's transitions.
use rems.Prelude.{
  ℕ, suc, ◌-◌, ◌≤◌, ◌<◌, ◌≡◌, refl, ◌⊎◌, true, false, none, some, List, [], ◌∷◌, ◌++◌, arith, sym,
  ap, ◌∙◌, ◌==◌, if◌then◌else◌, length, drop, tail, drop-append, tail-drop, length-drop,
  length-append,
}
use mathlib.Core.Path.{ap₂}
use mathlib.Core.Bool.{false≢true}
use rems.Fsm.Types.{Signature, Time, EventEnvelope, TransitionRecord, FsmError, TransitionDef}
use rems.Fsm.Builder.{FsmDefinition, target, is_terminal}
use rems.Fsm.Machine.{Machine, u64, restore, transition_for, append_history, send, at_terminal}
use rems.Fsm.Machine.Send.{completed, send_error_keeps, send_ok_moves, send-eq-none}

-- The most recent `cap` records of a log; a capacity of 0 keeps them all.
abbrev pub latest : {A : Type 0} → ℕ → List A → List A
latest cap log = if cap == 0 then log else drop (length log - cap) log

-- Each record starts in the state in which the one before it ended, the first in `s` and the last
-- ending in `s'`.
abbrev pub Linked : {σ : Signature} → σ.State → List (TransitionRecord σ) → σ.State → Type 0
Linked s [] s' = s ≡ s'
Linked s (r ∷ rs) s' = (r.from ≡ s) × Linked r.to rs s'

-- Each record follows an edge of the definition.
abbrev pub AllEdges : {σ : Signature} → FsmDefinition σ → List (TransitionRecord σ) → Type 0
AllEdges d [] = Unit
AllEdges d (r ∷ rs) = (target d r.from r.event.event ≡ some r.to) × AllEdges d rs

AllEdges-append :
    {σ : Signature} (d : FsmDefinition σ) (rs : List (TransitionRecord σ)) (r : TransitionRecord σ)
    → AllEdges d rs
    → target d r.from r.event.event ≡ some r.to
    → AllEdges d (rs ++ (r ∷ []))
AllEdges-append d [] r h e = (e, tt)
AllEdges-append d (x ∷ rs) r h e = (h.0, AllEdges-append d rs r h.1 e)

-- Any sequence of events sent to a machine, with the log of the transitions that it completed.
pub data Run {σ : Signature} (m₀ : Machine σ) : Machine σ → List (TransitionRecord σ) → Type 0 where
  start : Run m₀ m₀ []
  rejected :
      {m m' : Machine σ} {log : List (TransitionRecord σ)} (started : Time) (elapsed : ℕ)
      (envelope : EventEnvelope σ) (e : FsmError σ)
      → Run m₀ m log
      → (send started elapsed envelope m).0 ≡ some e
      → m' ≡ (send started elapsed envelope m).1
      → Run m₀ m' log
  moved :
      {m m' : Machine σ} {log log' : List (TransitionRecord σ)} (started : Time) (elapsed : ℕ)
      (envelope : EventEnvelope σ) (t : TransitionDef σ)
      → Run m₀ m log
      → (send started elapsed envelope m).0 ≡ none
      → transition_for m envelope.event ≡ some t
      → m' ≡ (send started elapsed envelope m).1
      → log' ≡ log ++ (completed started elapsed envelope m t ∷ [])
      → Run m₀ m' log'

Linked-append :
    {σ : Signature} (s : σ.State) (rs : List (TransitionRecord σ)) (r : TransitionRecord σ)
    → Linked s rs r.from
    → Linked s (rs ++ (r ∷ [])) r.to
Linked-append s [] r h = (sym h, refl)
Linked-append s (x ∷ rs) r h = (h.0, Linked-append x.to rs r h.1)

-- Dropping one more from the front while appending at the back.
tail-latest :
    {A : Type 0} (cap : ℕ) (log : List A) (r : A)
    → 0 < cap
    → cap ≤ length log
    → tail (drop (length log - cap) log) ++ (r ∷ [])
      ≡ drop (length (log ++ (r ∷ [])) - cap) (log ++ (r ∷ []))
tail-latest cap log r p h =
    let k = length log - cap in
    let one_more : length (log ++ (r ∷ [])) - cap ≡ suc k =
      omega (arith, length-append log (r ∷ [])) in
    let fits : suc k ≤ length log = omega arith in
    rw (one_more, tail-drop k log) (sym (drop-append (suc k) log (r ∷ []) fits))

-- One append: where the history holds the latest records of a log, it does so of the log with the
-- new record.
pub append_history-latest :
    {σ : Signature} (r : TransitionRecord σ) (m : Machine σ) (log : List (TransitionRecord σ))
    → m.history ≡ latest m.def.history_capacity log
    → (append_history r m).history ≡ latest m.def.history_capacity (log ++ (r ∷ []))
unfolding append_history
append_history-latest r m log h = ground (
  arith,
  ap length h,
  length-drop (length log - m.def.history_capacity) log,
  length-append log (r ∷ []),
  tail-latest m.def.history_capacity log r,
)

at_terminal_cong :
    {σ : Signature} (m n : Machine σ)
    → m.current ≡ n.current
    → m.def ≡ n.def
    → at_terminal m ≡ at_terminal n
unfolding at_terminal
at_terminal_cong m n p q = ap₂ is_terminal q p

module _ {σ : Signature} (d : FsmDefinition σ) (o : σ.Obj) (s : σ.State) where
  -- What holds along a run from a restored machine.
  pub record IsLogged (m : Machine σ) (log : List (TransitionRecord σ)) : Type 0 where
    pub same_def : m.def ≡ d
    pub idle : m.in_flight ≡ false
    pub recent : m.history ≡ latest d.history_capacity log
    pub linked : Linked s log m.current
    pub follows : AllEdges d log
    pub counted : m.seq ≡ u64 (length log)

  pub Run-IsLogged :
      {m : Machine σ} {log : List (TransitionRecord σ)} → Run (restore d o s) m log → IsLogged m log
  unfolding restore
  Run-IsLogged start = record {
    same_def = refl;
    idle = refl;
    recent = ground arith;
    follows = tt;
    linked = refl;
    counted = refl;
  }
  Run-IsLogged (rejected {m = m} started elapsed envelope e run failed same) =
      let h = Run-IsLogged run in
      let kept = send_error_keeps started elapsed envelope m failed in ground (arith, kept, same)
  Run-IsLogged (moved {m = m} {log = log} started elapsed envelope t run ok found same grown) =
      let h = Run-IsLogged run in
      let (t', found', to, seq, history, idle, def) = send_ok_moves started elapsed envelope m ok in
      let r = completed started elapsed envelope m t in
      ground (
        arith,
        append_history-latest r m log,
        length-append log (r ∷ []),
        Linked-append s log r,
        AllEdges-append d log r,
      )

  -- Whatever events are sent to a restored machine, its history holds the most recent transitions of
  -- the full log, at most as many as the capacity where that is not 0. The full log is a path of
  -- registered transitions from the restored state to the current one, with no gap, and the
  -- sequence number counts it (modulo 2^64).
  pub Run-history :
      {m : Machine σ} {log : List (TransitionRecord σ)}
      → Run (restore d o s) m log
      → (m.history ≡ latest d.history_capacity log)
        × ((d.history_capacity ≡ 0) ⊎ (length m.history ≤ d.history_capacity))
        × Linked s log m.current
        × AllEdges d log
        × (m.seq ≡ u64 (length log))
  Run-history {m} {log} run =
      let h = Run-IsLogged run in
      (
        h.recent,
        ground (arith, ap length h.recent, length-drop (length log - d.history_capacity) log),
        h.linked,
        h.follows,
        h.counted,
      )

-- A machine in a terminal state stays there, whatever is sent to it: no transition is logged.
pub Run-at_terminal :
    {σ : Signature} (m₀ : Machine σ) {m : Machine σ} {log : List (TransitionRecord σ)}
    → at_terminal m₀ ≡ true
    → Run m₀ m log
    → (m.current ≡ m₀.current) × (m.def ≡ m₀.def) × (log ≡ [])
Run-at_terminal m₀ term start = (refl, refl, refl)
Run-at_terminal m₀ term (rejected {m = m} started elapsed envelope e run failed same) =
    let h = Run-at_terminal m₀ term run in
    let kept = send_error_keeps started elapsed envelope m failed in ground (arith, kept, same)
Run-at_terminal m₀ term (moved {m = m} started elapsed envelope t run ok found same grown) =
    let h = Run-at_terminal m₀ term run in
    let alive = ((send-eq-none started elapsed envelope m).0 ok).1 in
    absurd (false≢true (sym alive ∙ at_terminal_cong m m₀ h.0 h.1 ∙ term))
