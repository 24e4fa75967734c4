-- ===== src/Fsm/Batch/Laws.antt =====
-- What `BatchSend` of backend/utils/FSM.go guarantees.
use rems.Prelude.{
  ℕ, suc, ◌<◌, ◌≡◌, refl, ◌≢◌, ◌↔◌, ◌⊎◌, inl, inr, true, none, some, List, [], ◌∷◌, arith, length,
  get_elem?, set, In, length-set, get_elem?-set, get_elem?-some, ap, sym, ◌∙◌, some_inj,
}
use native.Mathlib.Decide.{ℕ_discrete}
use rems.Fsm.Types.{Signature, Time, EventEnvelope}
use rems.Fsm.Machine.{Machine, send}
use rems.Fsm.Batch.{BatchResult, BatchOutcome, add_result, batch_from, batch_send}

-- Every pointer is to a machine.
abbrev pub AllValid : List ℕ → ℕ → Type 0
AllValid [] n = Unit
AllValid (p ∷ ps) n = (p < n) × AllValid ps n

-- The results of the items from `i` on carry the items' numbers, one for each.
abbrev pub Numbered : {σ : Signature} → ℕ → List (BatchResult σ) → Type 0
Numbered i [] = Unit
Numbered i (r ∷ rs) = (r.index ≡ i) × Numbered (suc i) rs

abbrev pub AllOk : {σ : Signature} → List (BatchResult σ) → Type 0
AllOk [] = Unit
AllOk (r ∷ rs) = (r.err ≡ none) × AllOk rs

-- No pointer comes twice.
abbrev pub Absent : ℕ → List ℕ → Type 0
Absent p [] = Unit
Absent p (q ∷ ps) = (q ≢ p) × Absent p ps

abbrev pub AllDistinct : List ℕ → Type 0
AllDistinct [] = Unit
AllDistinct (p ∷ ps) = Absent p ps × AllDistinct ps

Absent-ne : (p q : ℕ) (ps : List ℕ) → Absent p ps → In q ps → p ≢ q
Absent-ne p q [] a h = absurd h
Absent-ne p q (x ∷ ps) a (inl e) = λ same. a.0 (sym (same ∙ e))
Absent-ne p q (x ∷ ps) a (inr h) = Absent-ne p q ps a.1 h

In-or-Absent : (q : ℕ) (ps : List ℕ) → In q ps ⊎ Absent q ps
In-or-Absent q [] = inr tt
In-or-Absent q (p ∷ ps) = elim (ℕ_discrete p q) [
  | yes same ↦ inl (inl (sym same))
  | no other ↦ elim (In-or-Absent q ps) [ inl h ↦ inl (inr h) | inr a ↦ inr (other, a) ]
]

pub record IsComplete {σ : Signature} (i : ℕ) (ps : List ℕ) (store : List (Machine σ))
    (out : BatchOutcome σ) : Type 0 where
  pub one_each : length out.results ≡ length ps
  pub numbered : Numbered i out.results
  pub verdict : (out.all_succeeded ≡ true) ↔ AllOk out.results
  pub same_machines : length out.machines ≡ length store

module _ {σ : Signature} (clock : ℕ → Time × ℕ) (envelope : EventEnvelope σ) where
  batch_from_step :
      (i p : ℕ) (ps : List ℕ) (store : List (Machine σ)) (m : Machine σ) (rest : BatchOutcome σ)
      → get_elem? store p ≡ some m
      → (let sent = send (clock i).0 (clock i).1 envelope m in
          batch_from clock envelope (suc i) ps (set store p sent.1) ≡ some rest
          → batch_from clock envelope i (p ∷ ps) store ≡ some (add_result i m sent rest))
  unfolding batch_from
  batch_from_step i p ps store m rest found eq = rw (found, batch_from) (rw (eq, batch_from))

  batch_from-IsComplete :
      (i : ℕ) (ps : List ℕ) (store : List (Machine σ))
      → AllValid ps (length store)
      → (out : BatchOutcome σ) × (batch_from clock envelope i ps store ≡ some out)
        × IsComplete i ps store out
  unfolding batch_from
  batch_from-IsComplete i [] store h = (
    record { all_succeeded = true; results = []; machines = store },
    refl,
    record {
      one_each = refl;
      numbered = tt;
      verdict = ((λ e. tt), (λ e. refl));
      same_machines = refl;
    },
  )
  batch_from-IsComplete i (p ∷ ps) store h =
      let (m, found) = get_elem?-some store p h.0 in
      let sent = send (clock i).0 (clock i).1 envelope m in
      let store' = set store p sent.1 in
      let same = length-set store p sent.1 in
      let (rest, eq, ok) = batch_from-IsComplete (suc i) ps store' (rw same h.1) in
      (
        add_result i m sent rest,
        batch_from_step i p ps store m rest found eq,
        record {
          one_each = ap suc ok.one_each;
          numbered = (refl, ok.numbered);
          verdict = ground (arith, ok.verdict);
          same_machines = ok.same_machines ∙ same;
        },
      )

  -- With every pointer valid, `BatchSend` attempts every item: it returns one result for each, in
  -- order and numbered from 0, and `allSucceeded` exactly when no result holds an error.
  pub batch_send-IsComplete :
      (ps : List ℕ) (store : List (Machine σ))
      → AllValid ps (length store)
      → (out : BatchOutcome σ) × (batch_send clock envelope ps store ≡ some out)
        × IsComplete 0 ps store out
  unfolding batch_send
  batch_send-IsComplete = batch_from-IsComplete 0

  -- The first item of a loop: its machine, and the outcome of the rest.
  batch_from-cons :
      (i p : ℕ) (ps : List ℕ) (store : List (Machine σ)) (out : BatchOutcome σ)
      → AllValid (p ∷ ps) (length store)
      → batch_from clock envelope i (p ∷ ps) store ≡ some out
      → (m : Machine σ) × (get_elem? store p ≡ some m)
        × (let store' = set store p (send (clock i).0 (clock i).1 envelope m).1 in
            AllValid ps (length store')
            × ((rest : BatchOutcome σ) × (batch_from clock envelope (suc i) ps store' ≡ some rest)
                × (out.machines ≡ rest.machines)))
  unfolding batch_from
  batch_from-cons i p ps store out v e =
      let (m, found) = get_elem?-some store p v.0 in
      let sent = send (clock i).0 (clock i).1 envelope m in
      let store' = set store p sent.1 in
      let v' : AllValid ps (length store') = rw (length-set store p sent.1) v.1 in
      let (rest, eq, ok) = batch_from-IsComplete (suc i) ps store' v' in
      let same : add_result i m sent rest ≡ out =
        some_inj (sym (batch_from_step i p ps store m rest found eq) ∙ e) in
      (m, found, (v', (rest, eq, ap (λ (x : BatchOutcome σ). x.machines) (sym same))))

  batch_from-Absent :
      (i : ℕ) (ps : List ℕ) (store : List (Machine σ)) (q : ℕ) (out : BatchOutcome σ)
      → AllValid ps (length store)
      → Absent q ps
      → batch_from clock envelope i ps store ≡ some out
      → get_elem? out.machines q ≡ get_elem? store q
  unfolding batch_from
  batch_from-Absent i [] store q out v a e =
      ap (λ (x : BatchOutcome σ). get_elem? x.machines q) (sym (some_inj e))
  batch_from-Absent i (p ∷ ps) store q out v a e =
      let (m, found, (v', (rest, eq, same))) = batch_from-cons i p ps store out v e in
      let sent = send (clock i).0 (clock i).1 envelope m in
      let kept = batch_from-Absent (suc i) ps (set store p sent.1) q rest v' a.1 eq in
      rw (same, kept) (ground (arith, get_elem?-set store p q sent.1))

  batch_from-In :
      (i : ℕ) (ps : List ℕ) (store : List (Machine σ)) (q : ℕ) (out : BatchOutcome σ)
      (n : Machine σ)
      → AllValid ps (length store)
      → AllDistinct ps
      → In q ps
      → batch_from clock envelope i ps store ≡ some out
      → get_elem? store q ≡ some n
      → (j : ℕ) × (get_elem? out.machines q ≡ some (send (clock j).0 (clock j).1 envelope n).1)
  batch_from-In i [] store q out n v d h e g = absurd h
  batch_from-In i (p ∷ ps) store q out n v d (inl here) e g =
      let (m, found, (v', (rest, eq, same))) = batch_from-cons i p ps store out v e in
      let sent = send (clock i).0 (clock i).1 envelope m in
      let m_n : m ≡ n = some_inj (sym found ∙ (rw here at g)) in
      let kept = batch_from-Absent (suc i) ps (set store p sent.1) p rest v' d.0 eq in
      (i, rw (same, here, kept) (ground (arith, get_elem?-set store p p sent.1 v.0, m_n)))
  batch_from-In i (p ∷ ps) store q out n v d (inr later) e g =
      let (m, found, (v', (rest, eq, same))) = batch_from-cons i p ps store out v e in
      let sent = send (clock i).0 (clock i).1 envelope m in
      rw same (
        batch_from-In (suc i) ps (set store p sent.1) q rest n v' d.1 later eq
          (ground (arith, get_elem?-set store p q sent.1, Absent-ne p q ps d.0 later)))

  -- With valid pointers to distinct machines, `BatchSend` leaves a machine that the slice lists as
  -- one `Send` of the envelope to it alone would, and any other machine as it was.
  pub batch_send-machine :
      (ps : List ℕ) (store : List (Machine σ)) (q : ℕ) (out : BatchOutcome σ) (n : Machine σ)
      → AllValid ps (length store)
      → AllDistinct ps
      → batch_send clock envelope ps store ≡ some out
      → get_elem? store q ≡ some n
      → In q ps
          × ((j : ℕ) × (get_elem? out.machines q
                ≡ some (send (clock j).0 (clock j).1 envelope n).1))
        ⊎ Absent q ps × (get_elem? out.machines q ≡ some n)
  unfolding batch_send
  batch_send-machine ps store q out n v d e g = elim (In-or-Absent q ps) [
    | inl h ↦ inl (h, batch_from-In 0 ps store q out n v d h e g)
    | inr a ↦ inr (a, batch_from-Absent 0 ps store q out v a e ∙ g)
  ]
