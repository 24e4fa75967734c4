-- ===== src/Services/Kitchen/Create/Insert.antt =====
-- The transaction of a new ticket, and what the order's machine answers in it:
-- backend/services/business/Kot.go, `CreateKOT`.
use rems.Prelude.{
  ◌≡◌, refl, ap, ◌∙◌, ◌⊎◌, inl, inr, ◌≢◌, ℕ, String, Bool, true, Option, none, some, List, [], ◌∷◌,
  ◌++◌, arith, Bool-cases, false,
}
use rems.Fsm.Types.{Uuid, EventEnvelope, FsmError}
use rems.Fsm.Envelope.{new_envelope, with_actor}
use rems.Fsm.Machine.{Machine, restore}
use rems.Fsm.Machine.Conforms.{Conforms, resting}
use rems.Domain.Order.{Order, OrderState, confirmed, preparing, prepare, order_sig, order_fsm}
use rems.Domain.Order.Graph.{OrderStep, sending_to_kitchen, OrderGuard, order_send}
use rems.Services.Exec.{Result, ok, err, Db, next_fails, later}
use rems.Services.Kitchen.{
  KotRow, KitchenError, database_failed, KotItemRow, KitchenOrder, KitchenRows, KotDraws,
}
use rems.Services.Kitchen.Create.{
  KotTexts, CreateKotInput, build_kot_items, advance_orders, new_kot, prepared, insert_with,
  finish_kot, has_number,
}

step-prepare : {s t : OrderState} → OrderStep s prepare t → (s ≡ confirmed) × (t ≡ preparing)
step-prepare sending_to_kitchen = (refl, refl)

OrderStep-prepare : (s : OrderState) → s ≡ confirmed → OrderStep s prepare preparing
OrderStep-prepare s e = rw e sending_to_kitchen

module _ (T : KotTexts) (draws : KotDraws) (kot_id : Uuid) (counted : Option ℕ)
    (may : Uuid → Uuid → String → Bool) (input : CreateKotInput) where
  -- A confirmed order goes to the kitchen, no other does.
  abbrev pub AnswersPrepare : Order → Option OrderState → Type 0
  AnswersPrepare o status =
      ((o.status ≡ confirmed) × (status ≡ some preparing))
      ⊎ ((o.status ≢ confirmed) × (status ≡ none))

  answer-AnswersPrepare :
      (o : Order) (out : Option (FsmError order_sig) × Machine order_sig)
      → Conforms OrderStep
          (OrderGuard prepare o)
          (λ t. record o { status = t })
          (resting order_fsm o o.status [] 0)
          prepare
          out
      → AnswersPrepare o (elim (out.0) [ some e ↦ none | none ↦ some out.1.obj.status ])
  answer-AnswersPrepare o (none, m) (step, guard, same) =
      let (from, to) = step-prepare step in inl (from, ap (λ p. some p.status) same ∙ ap some to)
  answer-AnswersPrepare o (some e, m) (same, blocked) =
      inr ((λ from. blocked (preparing, OrderStep-prepare o.status from, tt)), refl)

  pub prepared-AnswersPrepare :
      (o : Order) → AnswersPrepare o (prepared T draws kot_id counted may input o)
  unfolding prepared restore new_envelope with_actor
  prepared-AnswersPrepare o =
      let env : EventEnvelope order_sig =
        with_actor input.request.actor_id input.request.tenant_id
          (new_envelope draws.envelope_id draws.now prepare none) in
      answer-AnswersPrepare o _ (order_send draws.now draws.elapsed env o o.status [] 0)

  abbrev pub tables : KitchenRows → List KotRow × List KotItemRow × List KitchenOrder
  tables rows = (rows.kots, rows.items, rows.orders)

  -- The orders after the answer of the order's machine.
  abbrev pub advanced : Option OrderState → List KitchenOrder → List KitchenOrder
  advanced none orders = orders
  advanced (some status) orders = advance_orders input.order_id status orders

  abbrev pub inserted :
      Option OrderState → KitchenRows → List KotRow × List KotItemRow × List KitchenOrder
  inserted status rows = (
    rows.kots ++ (new_kot T draws kot_id counted may input ∷ []),
    rows.items ++ build_kot_items T kot_id input.items,
    advanced status rows.orders,
  )

  abbrev pub Inserts :
      Option OrderState → Db KitchenRows → Result KitchenError (Unit {0}) × Db KitchenRows → Type 0
  Inserts status db out =
      ((has_number input.request.tenant_id (new_kot T draws kot_id counted may input).kot_number
            db.rows.kots
          ≡ false)
        × (out.0 ≡ ok tt)
        × (tables out.1.rows ≡ inserted status db.rows))
      ⊎ ((out.0 ≡ err database_failed) × (tables out.1.rows ≡ tables db.rows))

  abbrev is_number_taken : Db KitchenRows → Bool
  is_number_taken db =
      let k = new_kot T draws kot_id counted may input in
      has_number k.tenant_id k.kot_number db.rows.kots

  insert_taken :
      (status : Option OrderState) (db : Db KitchenRows)
      → is_number_taken db ≡ true
      → Inserts status db (insert_with T draws kot_id counted may input status db)
  insert_taken status db taken = inr (ground arith, ground arith)

  insert_fresh :
      (status : Option OrderState) (db : Db KitchenRows)
      → is_number_taken db ≡ false
      → Inserts status db (insert_with T draws kot_id counted may input status db)
  insert_fresh none db fresh = elim (Bool-cases (next_fails db.faults)) [
    | inl bad ↦ inr (ground arith, ground arith)
    | inr good ↦ elim (Bool-cases (next_fails (later db.faults))) [
      | inl bad ↦ inr (ground arith, ground arith)
      | inr good' ↦ elim (Bool-cases (next_fails (later (later db.faults)))) [
        | inl bad ↦ inr (ground arith, ground arith)
        | inr good'' ↦ inl (fresh, ground arith, ground arith)
      ]
    ]
  ]
  insert_fresh (some status) db fresh = elim (Bool-cases (next_fails db.faults)) [
    | inl bad ↦ inr (ground arith, ground arith)
    | inr good ↦ elim (Bool-cases (next_fails (later db.faults))) [
      | inl bad ↦ inr (ground arith, ground arith)
      | inr good' ↦ elim (Bool-cases (next_fails (later (later db.faults)))) [
        | inl bad ↦ inr (ground arith, ground arith)
        | inr good'' ↦ inl (fresh, ground arith, ground arith)
      ]
    ]
  ]

  pub insert_with-Inserts :
      (status : Option OrderState) (db : Db KitchenRows)
      → Inserts status db (insert_with T draws kot_id counted may input status db)
  insert_with-Inserts status db = elim (Bool-cases (is_number_taken db)) [
    | inl taken ↦ insert_taken status db taken
    | inr fresh ↦ insert_fresh status db fresh
  ]

  pub finish_kot-lem :
      (db : Db KitchenRows)
      → ((finish_kot T draws kot_id counted may input db).0
          ≡ ok (new_kot T draws kot_id counted may input))
        × (tables (finish_kot T draws kot_id counted may input db).1.rows ≡ tables db.rows)
  finish_kot-lem db = elim (Bool-cases (next_fails db.faults)) [
    | inl bad ↦ (ground arith, ground arith)
    | inr good ↦ (ground arith, ground arith)
  ]
