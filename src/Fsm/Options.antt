-- ===== src/Fsm/Options.antt =====
-- The options of states and transitions: the functional options of backend/utils/FSM.go. A Go
-- option writes through a pointer to the definition; here it returns the changed definition.
use rems.Prelude.{String, true, [], ◌∷◌, ◌++◌}
use rems.Fsm.Types.{Signature, GuardFunc, EffectFunc, HookFunc, StateMeta, TransitionDef}

abbrev pub TransitionOption : Signature → Type 0
TransitionOption σ = TransitionDef σ → TransitionDef σ

abbrev pub StateOption : Signature → Type 0
StateOption σ = StateMeta σ → StateMeta σ

module _ {σ : Signature} where
  unfoldable pub guard : GuardFunc σ → TransitionOption σ
  guard fn t = record t { guards = t.guards ++ (fn ∷ []) }

  unfoldable pub effect : EffectFunc σ → TransitionOption σ
  effect fn t = record t { effects = t.effects ++ (fn ∷ []) }

  unfoldable pub before_exit : HookFunc σ → TransitionOption σ
  before_exit fn t = record t { before_exit = t.before_exit ++ (fn ∷ []) }

  unfoldable pub before_enter : HookFunc σ → TransitionOption σ
  before_enter fn t = record t { before_enter = t.before_enter ++ (fn ∷ []) }

  unfoldable pub after_exit : HookFunc σ → TransitionOption σ
  after_exit fn t = record t { after_exit = t.after_exit ++ (fn ∷ []) }

  unfoldable pub after_enter : HookFunc σ → TransitionOption σ
  after_enter fn t = record t { after_enter = t.after_enter ++ (fn ∷ []) }

  unfoldable pub describe : String → TransitionOption σ
  describe desc t = record t { description = desc }

  unfoldable pub terminal : StateOption σ
  terminal s = record s { is_terminal = true }

  unfoldable pub initial : StateOption σ
  initial s = record s { is_initial = true }

  unfoldable pub on_entry : HookFunc σ → StateOption σ
  on_entry fn s = record s { on_entry = s.on_entry ++ (fn ∷ []) }

  unfoldable pub on_exit : HookFunc σ → StateOption σ
  on_exit fn s = record s { on_exit = s.on_exit ++ (fn ∷ []) }

  unfoldable pub state_desc : String → StateOption σ
  state_desc desc s = record s { description = desc }
