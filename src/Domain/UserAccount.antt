-- ===== src/Domain/UserAccount.antt =====
-- The user account machine: backend/utils/FSM.go, `UserAccountState` to `UserAccountFSM`.
pub mod Graph
use rems.Prelude.{
  ℕ, String, ◌≡◌, Option, none, some, Bool, true, false, not, ◌&&◌, [], ◌∷◌, if◌then◌else◌, ◌▷◌, Eq,
  coded_eq, arith, str_eq, string_eq,
}
use rems.Prelude.Int.{ℤ}
use rems.Fsm.Types.{
  Signature, HookError, new_error, errorf, Time, GuardFunc, EffectFunc, key_eq, metadata_true,
}
use rems.Fsm.Options.{guard, effect, terminal, initial, state_desc, describe}
use rems.Fsm.Builder.{
  DefinitionBuilder, FsmDefinition, define, state, transition, global_effect, assemble,
}

-- `unlisted` stands for any text that no constant names: a status read from the database may be one.
pub data UserAccountState : Type 0 where
  pending_verification active locked must_change_password suspended deactivated : UserAccountState
  unlisted : String → UserAccountState

pub data UserAccountEvent : Type 0 where
  verify_email lock unlock force_password_change password_changed suspend reactivate deactivate :
      UserAccountEvent

state_code : UserAccountState → ℕ × String
state_code pending_verification = (0, "")
state_code active = (1, "")
state_code locked = (2, "")
state_code must_change_password = (3, "")
state_code suspended = (4, "")
state_code deactivated = (5, "")
state_code (unlisted s) = (6, s)

state_code-injective : (a b : UserAccountState) → state_code a ≡ state_code b → a ≡ b
unfolding state_code
state_code-injective a b h = ground arith

event_code : UserAccountEvent → ℕ × String
event_code verify_email = (0, "")
event_code lock = (1, "")
event_code unlock = (2, "")
event_code force_password_change = (3, "")
event_code password_changed = (4, "")
event_code suspend = (5, "")
event_code reactivate = (6, "")
event_code deactivate = (7, "")

event_code-injective : (a b : UserAccountEvent) → event_code a ≡ event_code b → a ≡ b
unfolding event_code
event_code-injective a b h = ground arith

unfoldable pub user_account_state_eq : Eq UserAccountState
unfolding coded_eq state_code state_code-injective
user_account_state_eq = coded_eq state_code state_code-injective

unfoldable pub user_account_event_eq : Eq UserAccountEvent
unfolding coded_eq event_code event_code-injective
user_account_event_eq = coded_eq event_code event_code-injective

-- What a `UserAccountContext` holds.
pub record UserAccount : Type 0 where
  pub user_id : String
  pub is_active : Bool
  pub must_change_password : Bool
  pub failed_login_attempts : ℤ

abbrev pub user_account_sig : Signature
user_account_sig = record {
  Obj = UserAccount;
  State = UserAccountState;
  Event = UserAccountEvent;
  Payload = Unit;
  state_eq = user_account_state_eq;
  event_eq = user_account_event_eq;
}

unfoldable pub set_is_active : Bool → EffectFunc user_account_sig
set_is_active v u e = (none, record u { is_active = v })

unfoldable pub set_must_change_password : Bool → EffectFunc user_account_sig
set_must_change_password v u e = (none, record u { must_change_password = v })

unfoldable pub password_changed_effect : EffectFunc user_account_sig
password_changed_effect u e = (none, record u { must_change_password = false; is_active = true })

unfoldable pub user_account_builder : DefinitionBuilder user_account_sig
unfolding define state transition global_effect guard effect terminal initial state_desc describe
user_account_builder =
    define
    ▷ state pending_verification (initial ∷ state_desc "Awaiting email verification" ∷ [])
    ▷ state active (state_desc "Fully operational account" ∷ [])
    ▷ state locked (state_desc "Temporarily locked due to failed logins" ∷ [])
    ▷ state must_change_password (state_desc "Password reset required before access" ∷ [])
    ▷ state suspended (state_desc "Admin-suspended, no access" ∷ [])
    ▷ state deactivated (terminal ∷ state_desc "Soft-deleted, permanently inaccessible" ∷ [])
    ▷ transition pending_verification verify_email active
        (effect (set_is_active true) ∷ describe "Email token validated" ∷ [])
    ▷ transition active lock locked
        (effect (set_is_active false) ∷ describe "Exceeded max failed logins" ∷ [])
    ▷ transition locked unlock active
        (effect (set_is_active true) ∷ describe "Lockout period expired or admin override" ∷ [])
    ▷ transition active force_password_change must_change_password
        (effect (set_must_change_password true) ∷ [])
    ▷ transition must_change_password password_changed active (effect password_changed_effect ∷ [])
    ▷ transition active suspend suspended
        (effect (set_is_active false) ∷ describe "Manual admin action required" ∷ [])
    ▷ transition suspended reactivate active (effect (set_is_active true) ∷ [])
    ▷ transition active deactivate deactivated (effect (set_is_active false) ∷ [])
    ▷ transition locked deactivate deactivated (effect (set_is_active false) ∷ [])
    ▷ transition suspended deactivate deactivated (effect (set_is_active false) ∷ [])

-- `UserAccountFSM`, the definition that `MustCompile` returns.
unfoldable pub user_account_fsm : FsmDefinition user_account_sig
unfolding user_account_builder assemble user_account_state_eq user_account_event_eq key_eq
user_account_fsm = assemble user_account_builder
