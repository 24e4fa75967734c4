-- ===== src/Domain/UserAccount/Graph.antt =====
-- The user account machine against its diagram, and what one `Send` does to it:
-- backend/utils/FSM.go, `UserAccountFSM`.
use rems.Prelude.{ℕ, List, ◌≡◌, refl, ◌↔◌, true, false, some, arith}
use rems.Fsm.Types.{Time, EventEnvelope, TransitionRecord}
use rems.Fsm.Builder.{must_compile, target}
use rems.Fsm.Machine.{send}
use rems.Fsm.Machine.Conforms.{Conforms, Edge, Conforms-Step, resting}
use rems.Domain.UserAccount.{
  UserAccount, UserAccountEvent, UserAccountState, active, deactivate, deactivated,
  force_password_change, lock, locked, must_change_password, password_changed,
  password_changed_effect, pending_verification, reactivate, set_is_active,
  set_must_change_password, suspend, suspended, unlock, user_account_builder, user_account_fsm,
  user_account_sig, verify_email,
}

pub data CanDeactivate : UserAccountState → Type 0 where
  active_account : CanDeactivate active
  locked_account : CanDeactivate locked
  suspended_account : CanDeactivate suspended

-- The diagram: the transitions that the definition lists, as a relation.
pub data UserAccountStep : UserAccountState → UserAccountEvent → UserAccountState → Type 0 where
  verifying : UserAccountStep pending_verification verify_email active
  locking : UserAccountStep active lock locked
  unlocking : UserAccountStep locked unlock active
  forcing : UserAccountStep active force_password_change must_change_password
  changing : UserAccountStep must_change_password password_changed active
  suspending : UserAccountStep active suspend suspended
  reactivating : UserAccountStep suspended reactivate active
  deactivating : {s : UserAccountState} → CanDeactivate s → UserAccountStep s deactivate deactivated

ruleset edges = (
  verifying, locking, unlocking, forcing, changing, suspending, reactivating, deactivating,
  active_account, locked_account, suspended_account,
)

target-UserAccountStep :
    (s : UserAccountState) (e : UserAccountEvent) (t : UserAccountState)
    → target user_account_fsm s e ≡ some t
    → UserAccountStep s e t
unfolding user_account_fsm
target-UserAccountStep s e t h = grind (arith, edges)

UserAccountStep-target :
    {s : UserAccountState} {e : UserAccountEvent} {t : UserAccountState}
    → UserAccountStep s e t
    → target user_account_fsm s e ≡ some t
unfolding user_account_fsm
UserAccountStep-target verifying = refl
UserAccountStep-target locking = refl
UserAccountStep-target unlocking = refl
UserAccountStep-target forcing = refl
UserAccountStep-target changing = refl
UserAccountStep-target suspending = refl
UserAccountStep-target reactivating = refl
UserAccountStep-target (deactivating active_account) = refl
UserAccountStep-target (deactivating locked_account) = refl
UserAccountStep-target (deactivating suspended_account) = refl

user_account_compiles : must_compile user_account_builder ≡ some user_account_fsm
unfolding must_compile user_account_fsm
user_account_compiles = refl

-- `UserAccountFSM` compiles without a panic, and its transitions are exactly those of the diagram.
pub user_account_graph :
    (must_compile user_account_builder ≡ some user_account_fsm)
    × ((s : UserAccountState) (e : UserAccountEvent) (t : UserAccountState)
        → (target user_account_fsm s e ≡ some t) ↔ UserAccountStep s e t)
user_account_graph =
    (user_account_compiles, λ s e t. (target-UserAccountStep s e t, UserAccountStep-target))

-- What the guards ask for.
abbrev pub UserAccountGuard : Type 0
UserAccountGuard = Unit

-- The flags of an account after an event.
abbrev pub enter : UserAccountEvent → UserAccount → UserAccount
enter verify_email u = record u { is_active = true }
enter unlock u = record u { is_active = true }
enter reactivate u = record u { is_active = true }
enter password_changed u = record u { is_active = true; must_change_password = false }
enter force_password_change u = record u { must_change_password = true }
enter lock u = record u { is_active = false }
enter suspend u = record u { is_active = false }
enter deactivate u = record u { is_active = false }

send-Edge :
    (started : Time) (elapsed : ℕ) (envelope : EventEnvelope user_account_sig) (u : UserAccount)
    (st : UserAccountState) (history : List (TransitionRecord user_account_sig)) (seq : ℕ)
    → Conforms
        (Edge user_account_fsm)
        (UserAccountGuard)
        (λ t. enter envelope.event u)
        (resting user_account_fsm u st history seq)
        envelope.event
        (send started elapsed envelope (resting user_account_fsm u st history seq))
unfolding send user_account_fsm set_is_active set_must_change_password password_changed_effect
send-Edge started elapsed envelope u active history seq = ground arith
send-Edge started elapsed envelope u _ history seq = ground arith

-- Sending any event to an account that is not in flight, in any state, takes the step of the
-- diagram and updates the object for it, and changes nothing else of it; or, where the diagram has
-- no such step or the state is no state of the machine, it changes nothing.
pub user_account_send :
    (started : Time) (elapsed : ℕ) (envelope : EventEnvelope user_account_sig) (u : UserAccount)
    (st : UserAccountState) (history : List (TransitionRecord user_account_sig)) (seq : ℕ)
    → Conforms UserAccountStep
        (UserAccountGuard)
        (λ t. enter envelope.event u)
        (resting user_account_fsm u st history seq)
        envelope.event
        (send started elapsed envelope (resting user_account_fsm u st history seq))
user_account_send started elapsed envelope u st history seq =
    Conforms-Step _ user_account_fsm (user_account_graph).1 _ _ _ _
      (send-Edge started elapsed envelope u st history seq)
