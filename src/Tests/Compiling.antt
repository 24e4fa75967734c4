-- ===== src/Tests/Compiling.antt =====
-- The builder and the index at work on the order machine: backend/utils/FSM.go.
use rems.Prelude.{◌≡◌, ◌↔◌, refl, some, true, [], ◌∷◌, In}
use rems.Prelude.Dict.{lookup}
use rems.Fsm.Types.{TransitionDef, key_of, key_eq}
use rems.Fsm.Builder.{compile, compiled, assemble, is_terminal}
use rems.Fsm.Builder.Compile.{IsWellFormed, compile-IsWellFormed}
use rems.Fsm.Builder.Index.{lookup-compile}
use rems.Domain.Order.{
  pending, confirmed, cancelled, confirm, order_sig, order_builder, order_fsm, positive_total,
  set_status,
}
use rems.Tests.Orders.{order_builder_compiles}

compile-IsWellFormed_example :
    (compile order_builder ≡ compiled (assemble order_builder)) ↔ IsWellFormed order_builder
compile-IsWellFormed_example = compile-IsWellFormed order_builder

abbrev confirm_def : TransitionDef order_sig
confirm_def = record {
  from = pending;
  event = confirm;
  to = confirmed;
  guards = positive_total ∷ [];
  effects = set_status confirmed ∷ [];
  before_exit = [];
  before_enter = [];
  after_exit = [];
  after_enter = [];
  description = "Payment validated";
}

lookup-compile_example :
    (lookup (key_eq order_sig) (record { from = pending; event = confirm }) order_fsm.index
      ≡ some confirm_def)
    ↔ (In confirm_def order_builder.transitions
        × (key_of confirm_def ≡ record { from = pending; event = confirm }))
lookup-compile_example =
    lookup-compile order_builder order_fsm (record { from = pending; event = confirm }) confirm_def
      order_builder_compiles

cancelled_is_terminal : is_terminal order_fsm cancelled ≡ true
unfolding is_terminal order_fsm
cancelled_is_terminal = refl
