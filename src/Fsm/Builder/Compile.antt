-- ===== src/Fsm/Builder/Compile.antt =====
-- What `Compile` of backend/utils/FSM.go checks.
use rems.Prelude.{◌≡◌, refl, ◌≢◌, ◌↔◌, false, none, List, [], ◌∷◌, ◌++◌, arith, append-eq-nil}
use rems.Prelude.Dict.{Dict, lookup, insert, lookup-insert}
use rems.Fsm.Types.{Signature, StateMeta, TransitionDef, TransitionKey, key_of, key_eq}
use rems.Fsm.Builder.{
  DefinitionBuilder, FsmDefinition, CompileError, compiled, unless_found, if_found, from_undeclared,
  to_undeclared, duplicate_transition, terminal_meta, index_transitions, terminal_errors, assemble,
  compile_errors, compile,
}

-- A state that the builder's map holds.
abbrev pub IsDeclared : {σ : Signature} → Dict σ.State (StateMeta σ) → σ.State → Type 0
IsDeclared {σ} states s = lookup σ.state_eq s states ≢ none

-- Each transition joins declared states.
abbrev pub AllDeclared :
    {σ : Signature} → Dict σ.State (StateMeta σ) → List (TransitionDef σ) → Type 0
AllDeclared states [] = Unit
AllDeclared states (t ∷ ts) =
    IsDeclared states t.from × IsDeclared states t.to × AllDeclared states ts

-- No transition has this key.
abbrev pub Fresh : {σ : Signature} → TransitionKey σ → List (TransitionDef σ) → Type 0
Fresh k [] = Unit
Fresh k (t ∷ ts) = (key_of t ≢ k) × Fresh k ts

-- No two transitions have the same key.
abbrev pub Deterministic : {σ : Signature} → List (TransitionDef σ) → Type 0
Deterministic [] = Unit
Deterministic (t ∷ ts) = Fresh (key_of t) ts × Deterministic ts

-- No transition leaves a terminal state.
abbrev pub AllSinks : {σ : Signature} → Dict σ.State (StateMeta σ) → List (TransitionDef σ) → Type 0
AllSinks states [] = Unit
AllSinks {σ} states (t ∷ ts) =
    (terminal_meta (lookup σ.state_eq t.from states) ≡ false) × AllSinks states ts

-- What a definition has to satisfy, said without the loops.
pub record IsWellFormed {σ : Signature} (b : DefinitionBuilder σ) : Type 0 where
  pub declared : AllDeclared b.states b.transitions
  pub deterministic : Deterministic b.transitions
  pub sinks : AllSinks b.states b.transitions

-- No transition has a key that the index holds.
abbrev AllNew :
    {σ : Signature} → Dict (TransitionKey σ) (TransitionDef σ) → List (TransitionDef σ) → Type 0
AllNew index [] = Unit
AllNew {σ} index (t ∷ ts) = (lookup (key_eq σ) (key_of t) index ≡ none) × AllNew index ts

module _ {σ : Signature} where
  AllNew-nil : (ts : List (TransitionDef σ)) → AllNew [] ts
  AllNew-nil [] = tt
  AllNew-nil (t ∷ ts) = (refl, AllNew-nil ts)

  lookup-insert-none :
      (k j : TransitionKey σ) (t : TransitionDef σ)
      (index : Dict (TransitionKey σ) (TransitionDef σ))
      → (lookup (key_eq σ) j (insert (key_eq σ) k t index) ≡ none)
        ↔ ((j ≢ k) × (lookup (key_eq σ) j index ≡ none))
  lookup-insert-none k j t index =
      ground (arith, lookup-insert (key_eq σ) k j t index, (key_eq σ).beq_iff k j)

  AllNew-insert :
      (t : TransitionDef σ) (index : Dict (TransitionKey σ) (TransitionDef σ))
      (ts : List (TransitionDef σ))
      → AllNew (insert (key_eq σ) (key_of t) t index) ts ↔ (Fresh (key_of t) ts × AllNew index ts)
  AllNew-insert t index [] = (λ h. (tt, tt), λ h. tt)
  AllNew-insert t index (u ∷ ts) =
      ground (arith, lookup-insert-none (key_of t) (key_of u) t index, AllNew-insert t index ts)

module _ {σ : Signature} (states : Dict σ.State (StateMeta σ)) where
  -- The first loop ends without an error exactly when it began without one, each transition joins
  -- declared states, and no key comes twice.
  index_transitions-nil :
      (ts : List (TransitionDef σ)) (index : Dict (TransitionKey σ) (TransitionDef σ))
      (errs : List (CompileError σ))
      → ((index_transitions states ts (index, errs)).1 ≡ [])
        ↔ ((errs ≡ []) × AllDeclared states ts × AllNew index ts × Deterministic ts)
  unfolding index_transitions
  index_transitions-nil [] index errs = (λ h. (h, tt, tt, tt), λ h. h.0)
  index_transitions-nil (t ∷ ts) index errs =
      let from_errs : List (CompileError σ) =
        unless_found (lookup σ.state_eq t.from states) (from_undeclared t.from) in
      let to_errs : List (CompileError σ) =
        unless_found (lookup σ.state_eq t.to states) (to_undeclared t.to) in
      let key_errs : List (CompileError σ) =
        if_found (lookup (key_eq σ) (key_of t) index) (duplicate_transition t.from t.event) in
      ground (
        arith,
        index_transitions-nil ts (insert (key_eq σ) (key_of t) t index)
            (((errs ++ from_errs) ++ to_errs) ++ key_errs),
        append-eq-nil errs from_errs,
        append-eq-nil (errs ++ from_errs) to_errs,
        append-eq-nil ((errs ++ from_errs) ++ to_errs) key_errs,
        AllNew-insert t index ts,
      )

  terminal_errors-nil :
      (ts : List (TransitionDef σ)) → (terminal_errors states ts ≡ []) ↔ AllSinks states ts
  unfolding terminal_errors
  terminal_errors-nil [] = (λ h. tt, λ h. refl)
  terminal_errors-nil (t ∷ ts) = ground (arith, terminal_errors-nil ts)

module _ {σ : Signature} where
  compile_errors-nil : (b : DefinitionBuilder σ) → (compile_errors b ≡ []) ↔ IsWellFormed b
  unfolding compile_errors
  compile_errors-nil b = ground (
    arith,
    append-eq-nil (index_transitions b.states b.transitions ([], [])).1
        (terminal_errors b.states b.transitions),
    index_transitions-nil b.states b.transitions [] [],
    terminal_errors-nil b.states b.transitions,
    AllNew-nil b.transitions,
  )

  -- `Compile` succeeds exactly on a builder whose transitions join declared states, have distinct
  -- (from, event) keys and leave no terminal state; it then returns the assembled definition.
  pub compile-IsWellFormed :
      (b : DefinitionBuilder σ) → (compile b ≡ compiled (assemble b)) ↔ IsWellFormed b
  unfolding compile
  compile-IsWellFormed b = ground (arith, compile_errors-nil b)

  pub compile-eq-assemble :
      (b : DefinitionBuilder σ) (d : FsmDefinition σ)
      → compile b ≡ compiled d
      → (d ≡ assemble b) × IsWellFormed b
  unfolding compile
  compile-eq-assemble b d h = ground (arith, compile_errors-nil b)
