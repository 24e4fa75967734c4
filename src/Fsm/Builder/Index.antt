-- ===== src/Fsm/Builder/Index.antt =====
-- The index of a compiled definition, and the queries that read it: backend/utils/FSM.go, `Compile`,
-- `CanTransition`, `AllowedEvents`, `IsTerminal`.
use rems.Prelude.{
  ◌≡◌, refl, ◌≢◌, ◌↔◌, inl, inr, true, false, Option, none, some, List, [], ◌∷◌, arith,
  if◌then◌else◌, In, Option-cases, sym, ap, ◌∙◌, ◌⊎◌,
}
use rems.Prelude.Dict.{Dict, lookup, insert, lookup-insert, beq_refl}
use rems.Fsm.Types.{Signature, StateMeta, TransitionDef, TransitionKey, key_of, key_eq}
use rems.Fsm.Builder.{
  DefinitionBuilder, FsmDefinition, CompileError, compiled, terminal_meta, index_transitions,
  assemble, compile, can_transition, is_terminal, events_from, allowed_events,
}
use rems.Fsm.Builder.Compile.{Fresh, Deterministic, AllSinks, compile-eq-assemble}

-- The last transition with a key, or what was found before.
abbrev last_with :
    {σ : Signature}
    → TransitionKey σ
    → List (TransitionDef σ)
    → Option (TransitionDef σ)
    → Option (TransitionDef σ)
last_with k [] found = found
last_with {σ} k (t ∷ ts) found =
    last_with k ts (if (key_eq σ).beq (key_of t) k then some t else found)

module _ {σ : Signature} where
  -- Looking a key up in the index that the first loop builds: the last transition with the key.
  lookup-index_transitions :
      (states : Dict σ.State (StateMeta σ)) (ts : List (TransitionDef σ)) (k : TransitionKey σ)
      (index : Dict (TransitionKey σ) (TransitionDef σ)) (errs : List (CompileError σ))
      → lookup (key_eq σ) k (index_transitions states ts (index, errs)).0
        ≡ last_with k ts (lookup (key_eq σ) k index)
  unfolding index_transitions
  lookup-index_transitions states [] k index errs = refl
  lookup-index_transitions states (t ∷ ts) k index errs =
      lookup-index_transitions states ts k (insert (key_eq σ) (key_of t) t index) _
      ∙ ap (last_with k ts) (lookup-insert (key_eq σ) (key_of t) k t index)

  last_with-Fresh :
      (k : TransitionKey σ) (ts : List (TransitionDef σ)) (found : Option (TransitionDef σ))
      → Fresh k ts
      → last_with k ts found ≡ found
  last_with-Fresh k [] found h = refl
  last_with-Fresh k (t ∷ ts) found h =
      ground (arith, last_with-Fresh k ts found, (key_eq σ).beq_iff (key_of t) k)

  last_with_sound :
      (k : TransitionKey σ) (ts : List (TransitionDef σ)) (found : Option (TransitionDef σ))
      {t : TransitionDef σ}
      → last_with k ts found ≡ some t
      → (found ≡ some t) ⊎ (In t ts × (key_of t ≡ k))
  last_with_sound k [] found h = inl h
  last_with_sound k (u ∷ ts) found {t} h = ground (
    arith,
    last_with_sound k ts (if (key_eq σ).beq (key_of u) k then some u else found) {t = t} h,
    (key_eq σ).beq_iff (key_of u) k,
  )

  last_with_complete :
      (ts : List (TransitionDef σ)) (found : Option (TransitionDef σ)) (t : TransitionDef σ)
      → Deterministic ts
      → In t ts
      → last_with (key_of t) ts found ≡ some t
  last_with_complete [] found t det h = absurd h
  last_with_complete (u ∷ ts) found t det (inl e) =
      last_with-Fresh (key_of t) ts _ (rw e det.0) ∙ rw (e, beq_refl (key_eq σ) (key_of u))
  last_with_complete (u ∷ ts) found t det (inr h) =
      last_with_complete ts (if (key_eq σ).beq (key_of u) (key_of t) then some u else found) t det.1
        h

  -- The index of a compiled definition holds exactly the registered transitions: a lookup of
  -- (from, event) finds `t` if and only if `t` was registered with that state and that event.
  pub lookup-compile :
      (b : DefinitionBuilder σ) (d : FsmDefinition σ) (k : TransitionKey σ) (t : TransitionDef σ)
      → compile b ≡ compiled d
      → (lookup (key_eq σ) k d.index ≡ some t) ↔ (In t b.transitions × (key_of t ≡ k))
  unfolding assemble
  lookup-compile b d k t h =
      let (e, wf) = compile-eq-assemble b d h in
      let found = lookup-index_transitions b.states b.transitions k [] [] in
      (
        (λ l.
            ground (arith, last_with_sound k b.transitions none {t = t} (sym found ∙ (rw e at l)))),
        (λ p.
            rw (e, ← p.1)
              (lookup-index_transitions b.states b.transitions (key_of t) [] []
                ∙ last_with_complete b.transitions none t wf.deterministic p.0)),
      )

  terminal_of_AllSinks :
      (states : Dict σ.State (StateMeta σ)) (ts : List (TransitionDef σ)) (t : TransitionDef σ)
      → AllSinks states ts
      → In t ts
      → terminal_meta (lookup σ.state_eq t.from states) ≡ false
  terminal_of_AllSinks states [] t h m = absurd m
  terminal_of_AllSinks states (u ∷ ts) t h (inl e) = rw e h.0
  terminal_of_AllSinks states (u ∷ ts) t h (inr m) = terminal_of_AllSinks states ts t h.1 m

  -- In a compiled definition no event leads out of a terminal state.
  pub terminal-can_transition :
      (b : DefinitionBuilder σ) (d : FsmDefinition σ) (s : σ.State) (e : σ.Event)
      → compile b ≡ compiled d
      → is_terminal d s ≡ true
      → can_transition d s e ≡ false
  unfolding can_transition is_terminal assemble
  terminal-can_transition b d s e h term =
      let k : TransitionKey σ = record { from = s; event = e } in
      elim (Option-cases (lookup (key_eq σ) k d.index)) [
        | inl missing ↦ ground arith
        | inr (t, found) ↦
            let (same, wf) = compile-eq-assemble b d h in
            let (member, key) = (lookup-compile b d k t h).0 found in
            ground (arith, terminal_of_AllSinks b.states b.transitions t wf.sinks member)
      ]

  In-events_from :
      (s : σ.State) (e : σ.Event) (index : Dict (TransitionKey σ) (TransitionDef σ))
      → In e (events_from s index)
        ↔ (lookup (key_eq σ) (record { from = s; event = e }) index ≢ none)
  unfolding events_from
  In-events_from s e [] = (λ h. absurd h, λ h. absurd (h refl))
  In-events_from s e ((k, t) ∷ index) = ground (
    arith,
    In-events_from s e index,
    (key_eq σ).beq_iff k (record { from = s; event = e }),
    σ.state_eq.beq_iff k.from s,
  )

  -- `AllowedEvents` lists exactly the events for which `CanTransition` holds.
  pub allowed_events-can_transition :
      (d : FsmDefinition σ) (s : σ.State) (e : σ.Event)
      → In e (allowed_events d s) ↔ (can_transition d s e ≡ true)
  unfolding allowed_events can_transition
  allowed_events-can_transition d s e = ground (arith, In-events_from s e d.index)
