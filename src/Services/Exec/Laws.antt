-- ===== src/Services/Exec/Laws.antt =====
-- What a chain of service steps keeps, from what each step keeps.
use rems.Prelude.{Bool, true, false, ◌≡◌, refl, ◌∙◌, ◌⊎◌, inl, inr, [], arith}
use rems.Services.Exec.{Result, Result-cases, ok, err, Db, Exec, continue, unless, on_error}

-- A chain that succeeds has a first step that does, and then succeeds on from there.
pub continue-ok :
    {E W A B : Type 0} (r : Result E A) (f : A → Exec E W B) (db : Db W) {b : B}
    → (continue r f db).0 ≡ ok b
    → (a : A) × (r ≡ ok a) × ((f a db).0 ≡ ok b)
continue-ok (ok a) f db h = (a, refl, h)
continue-ok (err e) f db h = cc h

pub unless-ok :
    {E W : Type 0} (b : Bool) (e : E) (db : Db W)
    → (unless b e db).0 ≡ ok tt
    → (b ≡ true) × ((unless b e db).1 ≡ db)
unless-ok true e db h = (refl, refl)
unless-ok false e db h = cc h

module _ {E W : Type 0} where
  -- Where no query was to fail, none is to fail after the step.
  abbrev pub Calm : {A : Type 0} → Exec E W A → Type 0
  Calm m = (db : Db W) → db.faults ≡ [] → (m db).1.faults ≡ []

  Calm-continue :
      {A B : Type 0} (r : Result E A) (f : A → Exec E W B) (db : Db W)
      → ((a : A) → Calm (f a))
      → db.faults ≡ []
      → (continue r f db).1.faults ≡ []
  Calm-continue (ok a) f db calm none_fails = calm a db none_fails
  Calm-continue (err e) f db calm none_fails = none_fails

  pub Calm-bind :
      {A B : Type 0} (m : Exec E W A) (f : A → Exec E W B)
      → Calm m
      → ((a : A) → Calm (f a))
      → (db : Db W) → db.faults ≡ []
      → (continue (m db).0 f (m db).1).1.faults ≡ []
  Calm-bind m f calm later db none_fails =
      Calm-continue (m db).0 f (m db).1 later (calm db none_fails)

  pub on_error-ok :
      {A : Type 0} (handle : Exec E W (Unit {0})) (m : Exec E W A) (db : Db W) {a : A}
      → (on_error handle m db).0 ≡ ok a
      → ((m db).0 ≡ ok a)
  on_error-ok handle m db h = elim (Result-cases (m db).0) [
    | inl (b, e) ↦ ground arith
    | inr (e, failed) ↦ ground arith
  ]

  pub on_error-Calm :
      {A : Type 0} (handle : Exec E W (Unit {0})) (m : Exec E W A)
      → Calm handle
      → Calm m
      → Calm (on_error handle m)
  on_error-Calm handle m calm calm' db none_fails =
      ground (arith, calm (m db).1, calm' db none_fails)

module _ {E W T : Type 0} (view : W → T) where
  abbrev pub Keeps : {A : Type 0} → Exec E W A → Type 0
  Keeps m = (db : Db W) → view (m db).1.rows ≡ view db.rows

  pub Keeps-continue :
      {A B : Type 0} (r : Result E A) (f : A → Exec E W B) (db : Db W)
      → ((a : A) → Keeps (f a))
      → view (continue r f db).1.rows ≡ view db.rows
  Keeps-continue (ok a) f db keeps = keeps a db
  Keeps-continue (err e) f db keeps = refl

  pub Keeps-bind :
      {A B : Type 0} (m : Exec E W A) (f : A → Exec E W B)
      → Keeps m
      → ((a : A) → Keeps (f a))
      → (db : Db W) → view (continue (m db).0 f (m db).1).1.rows ≡ view db.rows
  Keeps-bind m f keeps later db = Keeps-continue (m db).0 f (m db).1 later ∙ keeps db

  pub on_error-Keeps :
      {A : Type 0} (handle : Exec E W (Unit {0})) (m : Exec E W A)
      → Keeps handle
      → Keeps m
      → Keeps (on_error handle m)
  on_error-Keeps handle m keeps keeps' db = ground (arith, keeps (m db).1, keeps' db)

  -- A step that ends in success with `after` in view, and for a reason, or fails and leaves the view
  -- as it was.
  abbrev pub Outcome : {A : Type 0} → Result E A × Db W → T → T → (A → Type 0) → Type 0
  Outcome out before after Reason =
      ((a : _) × (out.0 ≡ ok a) × (view out.1.rows ≡ after) × Reason a)
      ⊎ ((e : E) × (out.0 ≡ err e) × (view out.1.rows ≡ before))

  Outcome-continue :
      {A B : Type 0} (r : Result E A) (f : A → Exec E W B) (db : Db W) (before : T) {after : T}
      {Reason : B → Type 0}
      → view db.rows ≡ before
      → ((a : A) → r ≡ ok a → Outcome (f a db) before after Reason)
      → Outcome (continue r f db) before after Reason
  Outcome-continue (ok a) f db before same next = next a refl
  Outcome-continue (err e) f db before same next = inr (e, refl, same)

  pub Outcome-bind :
      {A B : Type 0} (m : Exec E W A) (f : A → Exec E W B) (db : Db W) {before after : T}
      {Reason : B → Type 0}
      → Keeps m
      → view db.rows ≡ before
      → ((a : A)
          → (m db).0 ≡ ok a
          → view (m db).1.rows ≡ before
          → Outcome (f a (m db).1) before after Reason)
      → Outcome (continue (m db).0 f (m db).1) before after Reason
  Outcome-bind m f db {before = before} keeps same next =
      Outcome-continue (m db).0 f (m db).1 before (keeps db ∙ same)
        (λ a e. next a e (keeps db ∙ same))

-- What a step keeps true of the rows, whether it succeeds or fails.
module _ {E W : Type 0} (P : W → Type 0) where
  abbrev pub Preserves : {A : Type 0} → Exec E W A → Type 0
  Preserves m = (db : Db W) → P db.rows → P (m db).1.rows

  pub Preserves-continue :
      {A B : Type 0} (r : Result E A) (f : A → Exec E W B) (db : Db W)
      → P db.rows
      → ((a : A) → r ≡ ok a → P (f a db).1.rows)
      → P (continue r f db).1.rows
  Preserves-continue (ok a) f db h next = next a refl
  Preserves-continue (err e) f db h next = h

  pub Preserves-bind :
      {A B : Type 0} (m : Exec E W A) (f : A → Exec E W B) (db : Db W)
      → Preserves m
      → P db.rows
      → ((a : A) → (m db).0 ≡ ok a → P (m db).1.rows → P (f a (m db).1).1.rows)
      → P (continue (m db).0 f (m db).1).1.rows
  Preserves-bind m f db keeps h next =
      Preserves-continue (m db).0 f (m db).1 (keeps db h) (λ a e. next a e (keeps db h))

  -- The plain case, where the first step's answer does not matter.
  pub Preserves-seq :
      {A B : Type 0} (m : Exec E W A) (f : A → Exec E W B)
      → Preserves m
      → ((a : A) → Preserves (f a))
      → (db : Db W) → P db.rows
      → P (continue (m db).0 f (m db).1).1.rows
  Preserves-seq m f keeps next db h = Preserves-bind m f db keeps h (λ a e. next a (m db).1)

  pub unless-Preserves : (b : Bool) (e : E) → Preserves (unless b e)
  unless-Preserves true e db h = h
  unless-Preserves false e db h = h

-- A step that ends in success with a property of the rows, or fails and leaves the view as it was.
module _ {E W T : Type 0} (view : W → T) where
  abbrev pub Ends : {A : Type 0} → Result E A × Db W → T → (A → W → Type 0) → Type 0
  Ends out before Good =
      ((a : _) × (out.0 ≡ ok a) × Good a out.1.rows)
      ⊎ ((e : E) × (out.0 ≡ err e) × (view out.1.rows ≡ before))

  Ends-continue :
      {A B : Type 0} (r : Result E A) (f : A → Exec E W B) (db : Db W) {before : T}
      (Good : B → W → Type 0)
      → view db.rows ≡ before
      → ((a : A) → r ≡ ok a → Ends (f a db) before Good)
      → Ends (continue r f db) before Good
  Ends-continue (ok a) f db Good same next = next a refl
  Ends-continue (err e) f db Good same next = inr (e, refl, same)

  pub Ends-bind :
      {A B : Type 0} (m : Exec E W A) (f : A → Exec E W B) (db : Db W) {before : T}
      (Good : B → W → Type 0)
      → Keeps view m
      → view db.rows ≡ before
      → ((a : A) → (m db).0 ≡ ok a → view (m db).1.rows ≡ before → Ends (f a (m db).1) before Good)
      → Ends (continue (m db).0 f (m db).1) before Good
  Ends-bind m f db Good keeps same next =
      Ends-continue (m db).0 f (m db).1 Good (keeps db ∙ same) (λ a e. next a e (keeps db ∙ same))

  pub unless-Keeps : (b : Bool) (e : E) → Keeps view (unless b e)
  unless-Keeps true e db = refl
  unless-Keeps false e db = refl

  pub Ends-weaken :
      {A : Type 0} (out : Result E A × Db W) {before before' : T} (Good Good' : A → W → Type 0)
      → before ≡ before'
      → ((a : A) (rows : W) → Good a rows → Good' a rows)
      → Ends out before Good
      → Ends out before' Good'
  Ends-weaken out Good Good' same weaker (inl (a, e, good)) = inl (a, e, weaker a out.1.rows good)
  Ends-weaken out Good Good' same weaker (inr (e, failed, kept)) = inr (e, failed, kept ∙ same)
