-- ===== src/Fsm/Machine/Conforms.antt =====
-- A specification of one `Send` of backend/utils/FSM.go by a step relation and a guard.
use rems.Prelude.{ℕ, ◌≡◌, ◌↔◌, false, Option, none, some, List, [], ◌∷◌, ◌++◌, sym}
use mathlib.Core.Path.{subst}
use rems.Fsm.Types.{Signature, Time, EventEnvelope, TransitionRecord, FsmError}
use rems.Fsm.Builder.{FsmDefinition, target}
use rems.Fsm.Machine.{Machine, restore, send}
use rems.Fsm.Machine.History.{Run, start, rejected, moved, Run-IsLogged}
use rems.Fsm.Machine.Send.{completed}

-- A machine that is not in flight; a restored one has no history and the sequence number 0.
abbrev pub resting :
    {σ : Signature} → FsmDefinition σ → σ.Obj → σ.State → List (TransitionRecord σ) → ℕ → Machine σ
resting d o s history seq = record {
  def = d;
  obj = o;
  current = s;
  history = history;
  seq = seq;
  in_flight = false;
}

module _ {σ : Signature} (Step : σ.State → σ.Event → σ.State → Type 0) (Guard : Type 0) where
  -- Either the event takes a step that its guard allows, the machine is then in the state that the
  -- step leads to and its object is updated for it; or no step is possible, or its guard forbids
  -- it, and the machine is as it was.
  abbrev pub Conforms :
      (σ.State → σ.Obj) → Machine σ → σ.Event → Option (FsmError σ) × Machine σ → Type 0
  Conforms update m₀ event (none, m) =
      Step m₀.current event m.current × Guard × (m.obj ≡ update m.current)
  Conforms update m₀ event (some e, m) =
      (m ≡ m₀) × ¬ ((t : σ.State) × Step m₀.current event t × Guard)

-- The edges of a definition as a step relation.
abbrev pub Edge : {σ : Signature} → FsmDefinition σ → σ.State → σ.Event → σ.State → Type 0
Edge d s e t = target d s e ≡ some t

module _ {σ : Signature} {Step : σ.State → σ.Event → σ.State → Type 0} (Guard : Type 0) where
  -- What conforms to the edges conforms to a relation with the same steps.
  pub Conforms-Step :
      (d : FsmDefinition σ)
      → ((s : σ.State) (e : σ.Event) (t : σ.State) → (target d s e ≡ some t) ↔ Step s e t)
      → (update : σ.State → σ.Obj) (m₀ : Machine σ) (event : σ.Event)
        (r : Option (FsmError σ) × Machine σ)
      → Conforms (Edge d) Guard update m₀ event r
      → Conforms Step Guard update m₀ event r
  Conforms-Step d graph update m₀ event (none, m) (edge, g, u) =
      ((graph m₀.current event m.current).0 edge, g, u)
  Conforms-Step d graph update m₀ event (some e, m) (same, blocked) =
      (same, λ (t, step, g). blocked (t, (graph m₀.current event t).1 step, g))

module _ {σ : Signature} (Step : σ.State → σ.Event → σ.State → Type 0) (Guard : Type 0)
    (update : σ.State → σ.Obj) (m₀ : Machine σ) (event : σ.Event) where
  Conforms-some :
      (r : Option (FsmError σ) × Machine σ) {e : FsmError σ}
      → Conforms Step Guard update m₀ event r
      → r.0 ≡ some e
      → r.1 ≡ m₀
  Conforms-some (none, m) c h = cc
  Conforms-some (some e, m) c h = c.0

  Conforms-none :
      (r : Option (FsmError σ) × Machine σ)
      → Conforms Step Guard update m₀ event r
      → r.0 ≡ none
      → Step m₀.current event r.1.current × Guard × (r.1.obj ≡ update r.1.current)
  Conforms-none (none, m) c h = c
  Conforms-none (some e, m) c h = cc

-- What every step keeps holds of each machine that a run from a restored one reaches.
module _ {σ : Signature} (d : FsmDefinition σ) (Step : σ.State → σ.Event → σ.State → Type 0)
    (Guard : σ.State → EventEnvelope σ → σ.Obj → Type 0)
    (update : EventEnvelope σ → σ.Obj → σ.State → σ.Obj)
    (conforms : (started : Time) (elapsed : ℕ) (envelope : EventEnvelope σ) (o : σ.Obj)
        (s : σ.State) (history : List (TransitionRecord σ)) (seq : ℕ)
      → Conforms Step
          (Guard s envelope o)
          (update envelope o)
          (resting d o s history seq)
          envelope.event
          (send started elapsed envelope (resting d o s history seq)))
    (P : σ.State → σ.Obj → List (TransitionRecord σ) → Type 0)
    (keeps : (s t : σ.State) (o : σ.Obj) (log : List (TransitionRecord σ)) (r : TransitionRecord σ)
      → Step s r.event.event t
      → Guard s r.event o
      → P s o log
      → P t (update r.event o t) (log ++ (r ∷ []))) where
  Run-resting :
      (s : σ.State) (o : σ.Obj) {m : Machine σ} {log : List (TransitionRecord σ)}
      → Run (restore d o s) m log
      → m ≡ resting d m.obj m.current m.history m.seq
  Run-resting s o {m} run =
      let h = Run-IsLogged d o s run in
      λ i. record {
        def = h.same_def i;
        obj = m.obj;
        current = m.current;
        history = m.history;
        seq = m.seq;
        in_flight = h.idle i;
      }

  Run-Conforms :
      (s : σ.State) (o : σ.Obj) {m : Machine σ} {log : List (TransitionRecord σ)} (started : Time)
      (elapsed : ℕ) (envelope : EventEnvelope σ)
      → Run (restore d o s) m log
      → Conforms Step
          (Guard m.current envelope m.obj)
          (update envelope m.obj)
          m
          envelope.event
          (send started elapsed envelope m)
  Run-Conforms s o {m} started elapsed envelope run =
      subst
        (λ (x : Machine σ).
          Conforms Step (Guard x.current envelope x.obj) (update envelope x.obj) x envelope.event
            (send started elapsed envelope x))
        (sym (Run-resting s o run))
        (conforms started elapsed envelope m.obj m.current m.history m.seq)

  pub Run-keeps :
      (s : σ.State) (o : σ.Obj) {m : Machine σ} {log : List (TransitionRecord σ)}
      → P s o []
      → Run (restore d o s) m log
      → P m.current m.obj log
  unfolding restore
  Run-keeps s o p start = p
  Run-keeps s o p (rejected {m = m} {log = log} started elapsed envelope e run failed same) =
      let c = Run-Conforms s o started elapsed envelope run in
      let kept =
        Conforms-some Step (Guard m.current envelope m.obj) (update envelope m.obj) m envelope.event
          (send started elapsed envelope m) c failed in
      rw (same, kept) (Run-keeps s o p run)
  Run-keeps s o p (moved {m = m} {log = log} started elapsed envelope t run ok found same grown) =
      let c = Run-Conforms s o started elapsed envelope run in
      let (step, guard, written) =
        Conforms-none Step (Guard m.current envelope m.obj) (update envelope m.obj) m envelope.event
          (send started elapsed envelope m) c ok in
      rw (same, grown, written)
        (keeps m.current (send started elapsed envelope m).1.current m.obj log
          (completed started elapsed envelope m t) step guard (Run-keeps s o p run))
