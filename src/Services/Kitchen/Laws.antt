-- ===== src/Services/Kitchen/Laws.antt =====
-- When a kitchen ticket can be cancelled, and when it is completed by itself:
-- backend/services/business/Kot.go, `CancelKOT` and `tryAutoCompleteKOT`.
use rems.Prelude.{
  ◌≡◌, refl, ap, inl, inr, String, Bool, true, not, ◌&&◌, Option, none, some, [], arith, str_eq,
  Bool-cases,
}
use mathlib.Core.Path.{subst}
use rems.Fsm.Types.{Uuid, EventEnvelope, FsmError}
use rems.Fsm.Envelope.{new_envelope, with_actor}
use rems.Fsm.Machine.{Machine, restore}
use rems.Fsm.Machine.Conforms.{Conforms, resting}
use rems.Domain.Kot.{Kot, KotState, KotEvent, in_progress, cancel, kot_sig, kot_fsm, kot_state_eq}
use rems.Domain.Kot.Graph.{KotStep, KotGuard, kot_send}
use rems.Services.Exec.{Result, ok, err, Db, continue, next_fails, later}
use rems.Services.Kitchen.{
  KitchenError, kot_invalid_transition, kot_cancel_in_progress, access_denied, database_failed,
  KotRow, KotServiceRequest, KitchenRows, KotDraws, find_kot, send_to_ticket, persist_ticket,
  fire_kot_event_on_model, guard_cancel, cancel_kot,
}

-- The step fails and changes nothing.
abbrev pub Refused : {A : Type 0} → Result KitchenError A × Db KitchenRows → Db KitchenRows → Type 0
Refused out db = (e : KitchenError) × (out.0 ≡ err e) × (out.1.rows ≡ db.rows)

forbidden-urgent :
    (ticket : Kot)
    → ticket.status ≡ in_progress
    → str_eq ticket.priority "urgent" ≡ true
    → ¬ KotGuard ticket.status cancel ticket []
forbidden-urgent ticket busy urgent h = elim (subst (λ s. KotGuard s cancel ticket []) busy h) [
  | inl calm ↦ ground arith
  | inr forced ↦ ground arith
]

module _ (draws : KotDraws) where
  abbrev ticket_answer : Option (FsmError kot_sig) × Machine kot_sig → Result KitchenError Kot
  ticket_answer out = elim (out.0) [ some e ↦ err kot_invalid_transition | none ↦ ok out.1.obj ]

  answer-refused :
      {Guard : Type 0} (update : KotState → Kot) (m₀ : Machine kot_sig) (event : KotEvent)
      (out : Option (FsmError kot_sig) × Machine kot_sig)
      → ¬ Guard
      → Conforms KotStep Guard update m₀ event out
      → ticket_answer out ≡ err kot_invalid_transition
  answer-refused update m₀ event (none, m) forbidden c = absurd (forbidden c.1)
  answer-refused update m₀ event (some e, m) forbidden c = refl

  send_to_ticket-urgent :
      (input : KotServiceRequest) (ticket : Kot)
      → ticket.status ≡ in_progress
      → str_eq ticket.priority "urgent" ≡ true
      → send_to_ticket draws input cancel ticket ≡ err kot_invalid_transition
  unfolding send_to_ticket restore new_envelope with_actor
  send_to_ticket-urgent input ticket busy urgent =
      let env : EventEnvelope kot_sig =
        with_actor input.actor_id input.tenant_id
          (new_envelope draws.envelope_id draws.now cancel none) in
      answer-refused _ (resting kot_fsm ticket ticket.status [] 0) cancel _
        (forbidden-urgent ticket busy urgent)
        (kot_send draws.now draws.elapsed env ticket ticket.status [] 0)

  fire_kot_event_on_model-Refused :
      (input : KotServiceRequest) (k : KotRow) (db : Db KitchenRows)
      → k.ticket.status ≡ in_progress
      → str_eq k.ticket.priority "urgent" ≡ true
      → fire_kot_event_on_model draws input cancel k db ≡ (err kot_invalid_transition, db)
  unfolding fire_kot_event_on_model
  fire_kot_event_on_model-Refused input k db busy urgent =
      ap (λ answer. continue answer (persist_ticket draws cancel k) db)
        (send_to_ticket-urgent input k.ticket busy urgent)

  guard_cancel-Refused :
      (is_manager_actor : Bool) (input : KotServiceRequest) (k : KotRow) (db : Db KitchenRows)
      → k.ticket.status ≡ in_progress
      → str_eq k.ticket.priority "urgent" ≡ true
      → Refused (guard_cancel draws is_manager_actor input k db) db
  guard_cancel-Refused is_manager_actor input k db busy urgent =
      let fired = fire_kot_event_on_model-Refused input k db busy urgent in
      elim (Bool-cases (kot_state_eq.beq k.ticket.status in_progress && not is_manager_actor)) [
        | inl held ↦ rw held (kot_cancel_in_progress, refl, refl)
        | inr free ↦
            rw free (kot_invalid_transition, ap (λ out. out.0) fired, ap (λ out. out.1.rows) fired)
      ]

  -- An urgent ticket in progress cannot be cancelled, by a manager either: cancelling it fails and
  -- changes nothing.
  pub cancel_kot-Refused :
      (may : Uuid → Uuid → String → Bool) (is_manager_actor : Bool) (input : KotServiceRequest)
      (id : Uuid) (k : KotRow) (db : Db KitchenRows)
      → find_kot input id db.rows.kots ≡ some k
      → k.ticket.status ≡ in_progress
      → str_eq k.ticket.priority "urgent" ≡ true
      → Refused (cancel_kot draws may is_manager_actor input id db) db
  unfolding cancel_kot
  cancel_kot-Refused may is_manager_actor input id k db found busy urgent =
      let after : Db KitchenRows = record db { faults = later db.faults } in
      let refused = guard_cancel-Refused is_manager_actor input k after busy urgent in
      elim (Bool-cases (may input.actor_id input.tenant_id "update")) [
        | inr stranger ↦ rw (stranger, cancel_kot) (access_denied, refl, refl)
        | inl allowed ↦ elim (Bool-cases (next_fails db.faults)) [
          | inl bad ↦ rw (allowed, bad, cancel_kot) (database_failed, refl, refl)
          | inr good ↦ rw (allowed, good, found, cancel_kot) refused
        ]
      ]
