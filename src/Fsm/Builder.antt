-- ===== src/Fsm/Builder.antt =====
-- The definition builder and its compilation: backend/utils/FSM.go, `DefinitionBuilder`, `Compile`,
-- `MustCompile` and the queries of `FSMDefinition`.
pub mod Compile
pub mod Index
use rems.Prelude.{ℕ, Bool, true, false, Option, none, some, List, [], ◌∷◌, ◌++◌, if◌then◌else◌}
use rems.Prelude.Dict.{Dict, lookup, insert}
use rems.Fsm.Types.{
  Signature, GuardFunc, EffectFunc, ObserverFunc, StateMeta, TransitionDef, TransitionKey, key_of,
  key_eq,
}
use rems.Fsm.Options.{TransitionOption, StateOption}

pub record DefinitionBuilder (σ : Signature) : Type 0 where
  pub states : Dict σ.State (StateMeta σ)
  pub transitions : List (TransitionDef σ)
  pub observers : List (ObserverFunc σ)
  pub global_guards : List (GuardFunc σ)
  pub global_effects : List (EffectFunc σ)
  pub history_capacity : ℕ

pub record FsmDefinition (σ : Signature) : Type 0 where
  pub states : Dict σ.State (StateMeta σ)
  pub index : Dict (TransitionKey σ) (TransitionDef σ)
  pub observers : List (ObserverFunc σ)
  pub global_guards : List (GuardFunc σ)
  pub global_effects : List (EffectFunc σ)
  pub history_capacity : ℕ

-- One line of the error that `Compile` returns.
pub data CompileError (σ : Signature) : Type 0 where
  from_undeclared : σ.State → CompileError σ
  to_undeclared : σ.State → CompileError σ
  duplicate_transition : σ.State → σ.Event → CompileError σ
  terminal_has_outgoing : σ.State → σ.Event → CompileError σ

pub data CompileResult (σ : Signature) : Type 0 where
  compiled : FsmDefinition σ → CompileResult σ
  compilation_failed : List (CompileError σ) → CompileResult σ

-- `for _, opt := range opts { opt(x) }`
abbrev pub apply_options : {T : Type 0} → List (T → T) → T → T
apply_options [] x = x
apply_options (opt ∷ opts) x = apply_options opts (opt x)

unfoldable pub define : {σ : Signature} → DefinitionBuilder σ
define = record {
  states = [];
  transitions = [];
  observers = [];
  global_guards = [];
  global_effects = [];
  history_capacity = 100;
}

module _ {σ : Signature} where
  unfoldable pub state : σ.State → List (StateOption σ) → DefinitionBuilder σ → DefinitionBuilder σ
  state name opts b =
      let meta : StateMeta σ = record {
        name = name;
        is_terminal = false;
        is_initial = false;
        description = "";
        on_entry = [];
        on_exit = [];
      } in
      record b { states = insert σ.state_eq name (apply_options opts meta) b.states }

  unfoldable pub transition :
      σ.State
      → σ.Event
      → σ.State
      → List (TransitionOption σ)
      → DefinitionBuilder σ
      → DefinitionBuilder σ
  transition from event to opts b =
      let t : TransitionDef σ = record {
        from = from;
        event = event;
        to = to;
        guards = [];
        effects = [];
        before_exit = [];
        before_enter = [];
        after_exit = [];
        after_enter = [];
        description = "";
      } in
      record b { transitions = b.transitions ++ (apply_options opts t ∷ []) }

  unfoldable pub global_guard : GuardFunc σ → DefinitionBuilder σ → DefinitionBuilder σ
  global_guard fn b = record b { global_guards = b.global_guards ++ (fn ∷ []) }

  unfoldable pub global_effect : EffectFunc σ → DefinitionBuilder σ → DefinitionBuilder σ
  global_effect fn b = record b { global_effects = b.global_effects ++ (fn ∷ []) }

  unfoldable pub observe : ObserverFunc σ → DefinitionBuilder σ → DefinitionBuilder σ
  observe fn b = record b { observers = b.observers ++ (fn ∷ []) }

  unfoldable pub history_capacity : ℕ → DefinitionBuilder σ → DefinitionBuilder σ
  history_capacity n b = record b { history_capacity = n }

-- `if _, ok := d[k]; !ok { errs = append(errs, err) }`, and the same for `ok`.
abbrev pub unless_found : {V E : Type 0} → Option V → E → List E
unless_found (some _) err = []
unless_found none err = err ∷ []

abbrev pub if_found : {V E : Type 0} → Option V → E → List E
if_found (some _) err = err ∷ []
if_found none err = []

-- The declared state is terminal.
abbrev pub terminal_meta : {σ : Signature} → Option (StateMeta σ) → Bool
terminal_meta (some meta) = meta.is_terminal
terminal_meta none = false

module _ {σ : Signature} (states : Dict σ.State (StateMeta σ)) where
  -- The first loop of `Compile`: the index so far and the errors so far.
  unfoldable pub index_transitions :
      List (TransitionDef σ)
      → Dict (TransitionKey σ) (TransitionDef σ) × List (CompileError σ)
      → Dict (TransitionKey σ) (TransitionDef σ) × List (CompileError σ)
  index_transitions [] (index, errs) = (index, errs)
  index_transitions (t ∷ ts) (index, errs) =
      let errs₁ = errs ++ unless_found (lookup σ.state_eq t.from states) (from_undeclared t.from) in
      let errs₂ = errs₁ ++ unless_found (lookup σ.state_eq t.to states) (to_undeclared t.to) in
      let errs₃ =
        errs₂
        ++ if_found (lookup (key_eq σ) (key_of t) index) (duplicate_transition t.from t.event) in
      index_transitions ts (insert (key_eq σ) (key_of t) t index, errs₃)

  -- The second loop: terminal states are sinks.
  unfoldable pub terminal_errors : List (TransitionDef σ) → List (CompileError σ)
  terminal_errors [] = []
  terminal_errors (t ∷ ts) =
      (if terminal_meta (lookup σ.state_eq t.from states)
        then terminal_has_outgoing t.from t.event ∷ []
        else [])
      ++ terminal_errors ts

module _ {σ : Signature} where
  -- The definition that `Compile` returns when it found no error.
  unfoldable pub assemble : DefinitionBuilder σ → FsmDefinition σ
  unfolding index_transitions
  assemble b = record {
    states = b.states;
    index = (index_transitions b.states b.transitions ([], [])).0;
    observers = b.observers;
    global_guards = b.global_guards;
    global_effects = b.global_effects;
    history_capacity = b.history_capacity;
  }

  unfoldable pub compile_errors : DefinitionBuilder σ → List (CompileError σ)
  unfolding index_transitions terminal_errors
  compile_errors b =
      (index_transitions b.states b.transitions ([], [])).1
      ++ terminal_errors b.states b.transitions

  abbrev pub compile_result : DefinitionBuilder σ → List (CompileError σ) → CompileResult σ
  compile_result b [] = compiled (assemble b)
  compile_result b (e ∷ errs) = compilation_failed (e ∷ errs)

  unfoldable pub compile : DefinitionBuilder σ → CompileResult σ
  unfolding compile_errors assemble
  compile b = compile_result b (compile_errors b)

  -- `none` is the panic.
  unfoldable pub must_compile : DefinitionBuilder σ → Option (FsmDefinition σ)
  unfolding compile
  must_compile b = elim (compile b) [ compiled d ↦ some d | compilation_failed errs ↦ none ]

  unfoldable pub can_transition : FsmDefinition σ → σ.State → σ.Event → Bool
  can_transition d from event =
      elim (lookup (key_eq σ) (record { from = from; event = event }) d.index) [
        | some t ↦ true
        | none ↦ false
      ]

  -- The loop of `AllowedEvents` over the index.
  unfoldable pub events_from : σ.State → Dict (TransitionKey σ) (TransitionDef σ) → List σ.Event
  events_from from [] = []
  events_from from ((key, t) ∷ index) =
      let events = events_from from index in
      if σ.state_eq.beq key.from from then key.event ∷ events else events

  unfoldable pub allowed_events : FsmDefinition σ → σ.State → List σ.Event
  unfolding events_from
  allowed_events d from = events_from from d.index

  unfoldable pub is_terminal : FsmDefinition σ → σ.State → Bool
  is_terminal d s = terminal_meta (lookup σ.state_eq s d.states)

  -- Where an event leads from a state, as the index says.
  abbrev pub target : FsmDefinition σ → σ.State → σ.Event → Option σ.State
  target d from event = elim (lookup (key_eq σ) (record { from = from; event = event }) d.index) [
    | some t ↦ some t.to
    | none ↦ none
  ]
