-- ===== src/Services/Exec.antt =====
-- Service methods over a database: a step may fail, and what was written before stays written. Each
-- query takes the next outcome from `faults`, where `true` is an error of the database; once they are
-- used up no query fails.
pub mod Laws
use rems.Prelude.{◌≡◌, refl, ◌⊎◌, inl, inr, Bool, true, false, Option, none, some, List, [], ◌∷◌}

pub data Result (E A : Type 0) : Type 0 where
  ok : A → Result E A
  err : E → Result E A

pub Result-cases :
    {E A : Type 0} (r : Result E A) → ((a : A) × (r ≡ ok a)) ⊎ ((e : E) × (r ≡ err e))
Result-cases (ok a) = inl (a, refl)
Result-cases (err e) = inr (e, refl)

pub ok_inj : {E A : Type 0} {a b : A} → ◌≡◌ {A = Result E A} (ok a) (ok b) → a ≡ b
ok_inj h = cc h

pub record Db (W : Type 0) : Type 0 where
  pub faults : List Bool
  pub rows : W

abbrev pub Exec : Type 0 → Type 0 → Type 0 → Type 0
Exec E W A = Db W → Result E A × Db W

module _ {E W A B : Type 0} where
  abbrev pub continue : Result E A → (A → Exec E W B) → Exec E W B
  continue (ok a) f db = f a db
  continue (err e) f db = (err e, db)

  infixl 5 ◌>>=◌ ◌>>◌
  abbrev pub ◌>>=◌ : Exec E W A → (A → Exec E W B) → Exec E W B
  ◌>>=◌ m f db = let (r, db') = m db in continue r f db'

  abbrev pub ◌>>◌ : Exec E W A → Exec E W B → Exec E W B
  m >> n = m >>= λ _. n

module _ {E W A : Type 0} where
  abbrev pub pure : A → Exec E W A
  pure a db = (ok a, db)

  abbrev pub raise : E → Exec E W A
  raise e db = (err e, db)

  abbrev pub gets : (W → A) → Exec E W A
  gets f db = (ok (f db.rows), db)

abbrev pub found_or : {E A : Type 0} → E → Option A → Result E A
found_or missing none = err missing
found_or missing (some a) = ok a

-- The outcome of the next query, and the outcomes after it.
abbrev pub next_fails : List Bool → Bool
next_fails [] = false
next_fails (b ∷ bs) = b

abbrev pub later : List Bool → List Bool
later [] = []
later (b ∷ bs) = bs

module _ {E W : Type 0} where
  abbrev pub modify : (W → W) → Exec E W (Unit {0})
  modify f db = (ok tt, record db { rows = f db.rows })

  -- A query: `none` is an error.
  abbrev pub query? : {A : Type 0} → (W → A) → Exec E W (Option A)
  query? f db = (
    ok (elim (next_fails db.faults) [ true ↦ none | false ↦ some (f db.rows) ]),
    record db { faults = later db.faults },
  )

  -- A query whose error ends the method.
  abbrev pub query : {A : Type 0} → E → (W → A) → Exec E W A
  query e f db = (
    elim (next_fails db.faults) [ true ↦ err e | false ↦ ok (f db.rows) ],
    record db { faults = later db.faults },
  )

  -- A write whose error ends the method.
  abbrev pub write : E → (W → W) → Exec E W (Unit {0})
  write e f db = elim (next_fails db.faults) [
    | true ↦ (err e, record db { faults = later db.faults })
    | false ↦ (ok tt, record { faults = later db.faults; rows = f db.rows })
  ]

  abbrev pub unless : Bool → E → Exec E W (Unit {0})
  unless true e db = (ok tt, db)
  unless false e db = (err e, db)

  -- What a failed transaction wrote is rolled back.
  abbrev pub transaction : {A : Type 0} → Exec E W A → Exec E W A
  transaction m db =
      let (r, db') = m db in
      elim r [ ok a ↦ (ok a, db') | err e ↦ (err e, record db' { rows = db.rows }) ]

  -- `if err != nil { handle; return err }`
  abbrev pub on_error : {A : Type 0} → Exec E W (Unit {0}) → Exec E W A → Exec E W A
  on_error handle m db =
      let (r, db') = m db in elim r [ ok a ↦ (ok a, db') | err e ↦ (err e, (handle db').1) ]

  -- `First`: no row is the error `missing`, and an error of the database is `broken`.
  abbrev pub first_of : {A : Type 0} → E → E → (W → Option A) → Exec E W A
  first_of missing broken f db = (
    elim (next_fails db.faults) [ true ↦ err broken | false ↦ found_or missing (f db.rows) ],
    record db { faults = later db.faults },
  )

  -- `First` where both are the same error.
  abbrev pub first_or : {A : Type 0} → E → (W → Option A) → Exec E W A
  first_or missing f = first_of missing missing f

-- A row that `First` returned was there.
pub first_of-ok :
    {E A : Type 0} (missing broken : E) (fails : Bool) (found : Option A) {a : A}
    → (elim fails [ true ↦ err broken | false ↦ found_or missing found ]) ≡ ok a
    → found ≡ some a
first_of-ok missing broken true found h = cc h
first_of-ok missing broken false none h = cc h
first_of-ok missing broken false (some b) h = cc h

-- What a query returned was there.
pub query-ok :
    {E A : Type 0} (broken : E) (fails : Bool) (found : A) {a : A}
    → (elim fails [ true ↦ err broken | false ↦ ok found ]) ≡ ok a
    → found ≡ a
query-ok broken true found h = cc h
query-ok broken false found h = cc h
