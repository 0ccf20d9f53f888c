-- ===== src/Hooks/Resolving.antt =====
-- Exactly one hook of a pair runs, at the first outcome that is not a savepoint's.
-- The first outcome of the outer transaction.
use fastapi_template.Prelude.{
  ◌≡◌, refl, ◌∙◌, true, false, Option, none, some, List, [], ◌∷◌, ◌++◌, append-nil, arith,
  if◌then◌else◌,
}
use fastapi_template.Hooks.{
  Outcome, Pair, Event, resolves, turns, chosen, on_outcome, dispatch, deregistered, run,
}

unfoldable pub first_outer : List Event → Option Outcome
first_outer [] = none
first_outer (turns ∷ events) = first_outer events
first_outer (resolves outcome nested ∷ events) =
    let rest = first_outer events in if nested then rest else some outcome

module _ {K : Type 0} where
  abbrev pub all_chosen : Outcome → List (Pair K) → List K
  all_chosen outcome [] = []
  all_chosen outcome (p ∷ ps) = chosen outcome p ++ all_chosen outcome ps

  -- What a session's listeners ought to call, in all that follows.
  abbrev pub due : Option Outcome → List (Pair K) → List K
  due none ps = []
  due (some outcome) ps = all_chosen outcome (deregistered ps)

  dispatch-nested : (outcome : Outcome) (ps : List (Pair K)) → dispatch outcome true ps ≡ ([], ps)
  unfolding dispatch on_outcome
  dispatch-nested outcome [] = refl
  dispatch-nested outcome (p ∷ ps) = ground (arith, dispatch-nested outcome ps)

  dispatch-outer :
      (outcome : Outcome) (ps : List (Pair K))
      → ((dispatch outcome false ps).0 ≡ all_chosen outcome (deregistered ps))
        × (deregistered (dispatch outcome false ps).1 ≡ [])
  unfolding dispatch on_outcome
  dispatch-outer outcome [] = (refl, refl)
  dispatch-outer outcome (p ∷ ps) = ground (arith, dispatch-outer outcome ps)

  deregistered_twice : (ps : List (Pair K)) → deregistered (deregistered ps) ≡ deregistered ps
  deregistered_twice [] = refl
  deregistered_twice (p ∷ ps) = ground (arith, deregistered_twice ps)

  due-turns : (o : Option Outcome) (ps : List (Pair K)) → due o (deregistered ps) ≡ due o ps
  due-turns none ps = refl
  due-turns (some outcome) ps = rw (deregistered_twice ps) refl

  due-none : (o : Option Outcome) (ps : List (Pair K)) → deregistered ps ≡ [] → due o ps ≡ []
  due-none none ps h = refl
  due-none (some outcome) ps h = rw h refl

  left :
      (events : List Event) (ps : List (Pair K))
      → deregistered ps ≡ []
      → deregistered (run events ps).1 ≡ []
  unfolding run dispatch on_outcome
  left [] ps h = h
  left (turns ∷ events) ps h = left events (deregistered ps) (rw (deregistered_twice ps) h)
  left (resolves outcome true ∷ events) ps h = rw (dispatch-nested outcome ps) (left events ps h)
  left (resolves outcome false ∷ events) ps h =
      left events (dispatch outcome false ps).1 (dispatch-outer outcome ps).1

  calls_lem :
      (events : List Event) (ps : List (Pair K)) → (run events ps).0 ≡ due (first_outer events) ps
  unfolding run first_outer
  calls_lem [] ps = refl
  calls_lem (turns ∷ events) ps =
      calls_lem events (deregistered ps) ∙ due-turns (first_outer events) ps
  calls_lem (resolves outcome true ∷ events) ps =
      rw (dispatch-nested outcome ps) (calls_lem events ps)
  calls_lem (resolves outcome false ∷ events) ps =
      let rest : (run events (dispatch outcome false ps).1).0 ≡ [] =
        calls_lem events (dispatch outcome false ps).1
        ∙ due-none (first_outer events) (dispatch outcome false ps).1
            (dispatch-outer outcome ps).1 in
      rw (rest, (dispatch-outer outcome ps).0) (append-nil _)

  -- The pairs that still wait, after all that.
  abbrev pub waiting : Option Outcome → List (Pair K) → List (Pair K)
  waiting none ps = deregistered ps
  waiting (some outcome) ps = []

  waiting-turns :
      (o : Option Outcome) (ps : List (Pair K)) → waiting o (deregistered ps) ≡ waiting o ps
  waiting-turns none ps = deregistered_twice ps
  waiting-turns (some outcome) ps = refl

  waiting_lem :
      (events : List Event) (ps : List (Pair K))
      → deregistered (run events ps).1 ≡ waiting (first_outer events) ps
  unfolding run first_outer
  waiting_lem [] ps = refl
  waiting_lem (turns ∷ events) ps =
      waiting_lem events (deregistered ps) ∙ waiting-turns (first_outer events) ps
  waiting_lem (resolves outcome true ∷ events) ps =
      rw (dispatch-nested outcome ps) (waiting_lem events ps)
  waiting_lem (resolves outcome false ∷ events) ps =
      left events (dispatch outcome false ps).1 (dispatch-outer outcome ps).1

  -- Whatever outcomes and turns of the event loop reach a session, its hooks call just this: each
  -- pair that is not retired makes the call for the first outcome that is not a savepoint's, in
  -- the order of registration, and never another. Behind that outcome no pair waits for a later
  -- one, and without such an outcome those that waited still do.
  pub run-resolves :
      (events : List Event) (ps : List (Pair K))
      → ((run events ps).0 ≡ due (first_outer events) ps)
        × (deregistered (run events ps).1 ≡ waiting (first_outer events) ps)
  run-resolves events ps = (calls_lem events ps, waiting_lem events ps)
