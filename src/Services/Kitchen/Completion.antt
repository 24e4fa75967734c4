-- ===== src/Services/Kitchen/Completion.antt =====
-- What the completion of a ticket by itself changes: backend/services/business/Kot.go,
-- `tryAutoCompleteKOT`.
use rems.Prelude.{
  ◌≡◌, refl, ap, ◌∙◌, sym, ◌⊎◌, inl, inr, true, false, ◌==◌, ==_iff, Option, none, some, List, [],
  ◌∷◌, arith, string_eq, some_inj, Bool-cases, ltb,
}
use mathlib.Core.Path.{subst}
use rems.Fsm.Types.{Uuid, EventEnvelope, FsmError}
use rems.Fsm.Envelope.{new_envelope, with_actor}
use rems.Fsm.Machine.{Machine, restore}
use rems.Fsm.Machine.Conforms.{Conforms, resting}
use rems.Domain.Kot.{
  Kot, KotState, in_progress, complete, completed, kot_sig, kot_fsm, kot_state_eq,
}
use rems.Domain.Kot.Graph.{KotStep, completing, kot_send}
use rems.Services.Exec.{ok_inj, Result, ok, err, Db, continue, next_fails, later}
use rems.Services.Kitchen.{
  KitchenError, kot_invalid_transition, KotRow, KotItemRow, KotServiceRequest, KitchenRows,
  KotDraws, find_kot, is_done, update_kot_row, with_status, non_terminal_count, send_to_ticket,
  persist_ticket, fire_kot_event_on_model, complete_loaded, try_auto_complete_kot, unless_open,
}

-- The item is ready, served or cancelled.
abbrev pub IsDone : KotItemRow → Type 0
IsDone item = (item.status ≡ "ready") ⊎ ((item.status ≡ "served") ⊎ (item.status ≡ "cancelled"))

-- Every item of the ticket is.
abbrev pub AllDone : Uuid → List KotItemRow → Type 0
AllDone id [] = Unit
AllDone id (item ∷ items) = (item.kot_id ≡ id → IsDone item) × AllDone id items

-- The rows are as they were, but that the ones with the identifier may be completed.
abbrev pub CompletesOnly : Uuid → List KotRow → List KotRow → Type 0
CompletesOnly id [] [] = Unit
CompletesOnly id [] (k' ∷ after) = ⊥
CompletesOnly id (k ∷ before) [] = ⊥
CompletesOnly id (k ∷ before) (k' ∷ after) =
    ((k' ≡ k)
      ⊎ ((k.kot_id ≡ id) × (k' ≡ record k { ticket = record k.ticket { status = completed } })))
    × CompletesOnly id before after

is_done-IsDone : (item : KotItemRow) → is_done item.status ≡ true → IsDone item
is_done-IsDone item h = ground (
  arith,
  string_eq.beq_iff item.status "ready",
  string_eq.beq_iff item.status "served",
  string_eq.beq_iff item.status "cancelled",
)

non_terminal_count-AllDone :
    (id : Uuid) (items : List KotItemRow)
    → ltb 0 (non_terminal_count id items) ≡ false
    → AllDone id items
non_terminal_count-AllDone id [] h = tt
non_terminal_count-AllDone id (item ∷ items) h = (
  (λ own. is_done-IsDone item (ground arith)),
  non_terminal_count-AllDone id items (ground arith),
)

same-CompletesOnly : (id : Uuid) (kots : List KotRow) → CompletesOnly id kots kots
same-CompletesOnly id [] = tt
same-CompletesOnly id (k ∷ kots) = (inl refl, same-CompletesOnly id kots)

update-CompletesOnly :
    (id : Uuid) (kots : List KotRow)
    → CompletesOnly id kots (update_kot_row id (with_status completed) kots)
update-CompletesOnly id [] = tt
update-CompletesOnly id (k ∷ kots) = elim (Bool-cases (k.kot_id == id)) [
  | inl own ↦ rw own (inr ((==_iff k.kot_id id).0 own, refl), update-CompletesOnly id kots)
  | inr other ↦ rw other (inl refl, update-CompletesOnly id kots)
]

step-complete : {s t : KotState} → KotStep s complete t → t ≡ completed
step-complete completing = refl

find_kot-id :
    (input : KotServiceRequest) (id : Uuid) (kots : List KotRow) {k : KotRow}
    → find_kot input id kots ≡ some k
    → k.kot_id ≡ id
find_kot-id input id [] h = cc h
find_kot-id input id (j ∷ kots) {k = k} h = ground (arith, find_kot-id input id kots {k = k})

module _ (draws : KotDraws) where
  abbrev answer : Option (FsmError kot_sig) × Machine kot_sig → Result KitchenError Kot
  answer out = elim (out.0) [ some e ↦ err kot_invalid_transition | none ↦ ok out.1.obj ]

  answer-completed :
      (Guard : Type 0) (ticket : Kot) (m₀ : Machine kot_sig)
      (out : Option (FsmError kot_sig) × Machine kot_sig)
      → Conforms KotStep Guard (λ t. record ticket { status = t }) m₀ complete out
      → {ticket' : Kot} → answer out ≡ ok ticket'
      → ticket'.status ≡ completed
  answer-completed Guard ticket m₀ (none, m) (step, guard, same) {ticket' = ticket'} h =
      let obj : m.obj ≡ ticket' = ok_inj h in
      ap (λ (x : Kot). x.status) (sym obj ∙ same) ∙ step-complete step
  answer-completed Guard ticket m₀ (some e, m) c h = cc h

  send_to_ticket-completed :
      (input : KotServiceRequest) (ticket : Kot) {ticket' : Kot}
      → send_to_ticket draws input complete ticket ≡ ok ticket'
      → ticket'.status ≡ completed
  unfolding send_to_ticket restore new_envelope with_actor
  send_to_ticket-completed input ticket h =
      let env : EventEnvelope kot_sig =
        with_actor input.actor_id input.tenant_id
          (new_envelope draws.envelope_id draws.now complete none) in
      answer-completed _ ticket (resting kot_fsm ticket ticket.status [] 0) _
        (kot_send draws.now draws.elapsed env ticket ticket.status [] 0) h

  persist-kots :
      (k : KotRow) (ticket : Kot) (db : Db KitchenRows)
      → let after = (persist_ticket draws complete k ticket db).1.rows.kots in
        (after ≡ db.rows.kots)
        ⊎ (after ≡ update_kot_row k.kot_id (with_status ticket.status) db.rows.kots)
  persist-kots k ticket db = elim (Bool-cases (next_fails db.faults)) [
    | inl bad ↦ inl (ground arith)
    | inr good ↦ elim (Bool-cases (next_fails (later db.faults))) [
      | inl bad ↦ inr (ground arith)
      | inr good' ↦ inr (ground arith)
    ]
  ]

  persist-CompletesOnly :
      (id : Uuid) (k : KotRow) (ticket : Kot) (db : Db KitchenRows)
      → k.kot_id ≡ id
      → ticket.status ≡ completed
      → CompletesOnly id db.rows.kots (persist_ticket draws complete k ticket db).1.rows.kots
  persist-CompletesOnly id k ticket db own done = elim (persist-kots k ticket db) [
    | inl same ↦
        subst (CompletesOnly id db.rows.kots) (sym same) (same-CompletesOnly id db.rows.kots)
    | inr stored ↦
        let same = ap (λ i. update_kot_row i (with_status ticket.status) db.rows.kots) own in
        let state = ap (λ s. update_kot_row id (with_status s) db.rows.kots) done in
        subst (CompletesOnly id db.rows.kots) (sym (stored ∙ same ∙ state))
          (update-CompletesOnly id db.rows.kots)
  ]

  continue-CompletesOnly :
      (id : Uuid) (k : KotRow) (r : Result KitchenError Kot) (db : Db KitchenRows)
      → k.kot_id ≡ id
      → ((ticket : Kot) → r ≡ ok ticket → ticket.status ≡ completed)
      → CompletesOnly id db.rows.kots (continue r (persist_ticket draws complete k) db).1.rows.kots
  continue-CompletesOnly id k (ok ticket) db own done =
      persist-CompletesOnly id k ticket db own (done ticket refl)
  continue-CompletesOnly id k (err e) db own done = same-CompletesOnly id db.rows.kots

  complete_loaded-CompletesOnly :
      (input : KotServiceRequest) (id : Uuid) (found : Option (Option KotRow)) (db : Db KitchenRows)
      → ((k : KotRow) → found ≡ some (some k) → k.kot_id ≡ id)
      → CompletesOnly id db.rows.kots (complete_loaded draws input found db).1.rows.kots
  unfolding fire_kot_event_on_model
  complete_loaded-CompletesOnly input id none db own = same-CompletesOnly id db.rows.kots
  complete_loaded-CompletesOnly input id (some none) db own = same-CompletesOnly id db.rows.kots
  complete_loaded-CompletesOnly input id (some (some k)) db own =
      let fired =
        continue-CompletesOnly id k (send_to_ticket draws input complete k.ticket) db (own k refl)
          (λ ticket h. send_to_ticket-completed input k.ticket h) in
      elim (Bool-cases (kot_state_eq.beq k.ticket.status in_progress)) [
        | inl busy ↦ rw (busy, complete_loaded) fired
        | inr idle ↦ rw (idle, complete_loaded) (same-CompletesOnly id db.rows.kots)
      ]

  find_and_complete-CompletesOnly :
      (input : KotServiceRequest) (id : Uuid) (db : Db KitchenRows)
      → CompletesOnly id db.rows.kots
          (complete_loaded draws input
            (elim (next_fails db.faults) [
              | true ↦ none
              | false ↦ some (find_kot input id db.rows.kots)
            ])
            (record db { faults = later db.faults })).1.rows.kots
  find_and_complete-CompletesOnly input id db =
      let after = record db { faults = later db.faults } in
      elim (Bool-cases (next_fails db.faults)) [
        | inl bad ↦ rw (bad) (complete_loaded-CompletesOnly input id none after (λ k h. cc h))
        | inr good ↦ rw (good) (
            complete_loaded-CompletesOnly input id (some (find_kot input id db.rows.kots)) after
              (λ k h. find_kot-id input id db.rows.kots (some_inj h)))
      ]

  -- The completion that follows the update of an item leaves the tickets as they were; or every item of
  -- the ticket is ready, served or cancelled, and rows with its identifier may be completed, while all
  -- others, and the rest of these, stay as they were.
  pub try_auto_complete_kot-AllDone :
      (input : KotServiceRequest) (id : Uuid) (db : Db KitchenRows)
      → let after = (try_auto_complete_kot draws input id db).1.rows.kots in
        (after ≡ db.rows.kots) ⊎ (AllDone id db.rows.items × CompletesOnly id db.rows.kots after)
  unfolding try_auto_complete_kot
  try_auto_complete_kot-AllDone input id db = elim (Bool-cases (next_fails db.faults)) [
    | inl bad ↦ inl (rw (bad, try_auto_complete_kot) refl)
    | inr good ↦ elim (Bool-cases (ltb 0 (non_terminal_count id db.rows.items))) [
      | inl open_items ↦ inl (rw (good, open_items, try_auto_complete_kot, unless_open) refl)
      | inr done ↦ inr (
        non_terminal_count-AllDone id db.rows.items done,
        rw (good, done, try_auto_complete_kot, unless_open)
            (find_and_complete-CompletesOnly input id (record db { faults = later db.faults })),
      )
    ]
  ]
