-- ===== src/Hooks.antt =====
-- app/db/transactional_hooks.py: what runs once a session's transaction resolves. `K` names the
-- calls that the hooks make.
pub mod Resolving
use fastapi_template.Prelude.{
  Bool, true, false, ◌||◌, Option, none, some, List, [], ◌∷◌, ◌++◌, if◌then◌else◌, delete,
}

pub data Outcome : Type 0 where
  committed rolled_back : Outcome

-- The two listeners of one `run_after_outcome`, which share the flag `retired`.
pub record Pair (K : Type 0) : Type 0 where
  pub on_commit : Option K
  pub on_rollback : Option K
  pub retired : Bool

-- What reaches the listeners of a session: an outcome, with `in_nested_transaction()`, or the next
-- turn of the event loop, at which `_deregister` removes the listeners.
pub data Event : Type 0 where
  resolves : Outcome → Bool → Event
  turns : Event

module _ {K : Type 0} where
  abbrev pub called : Option K → List K
  called none = []
  called (some k) = k ∷ []

  abbrev pub chosen : Outcome → Pair K → List K
  chosen committed p = called p.on_commit
  chosen rolled_back p = called p.on_rollback

  -- `_on_commit` and `_on_rollback`
  unfoldable pub on_outcome : Outcome → Bool → Pair K → List K × Pair K
  on_outcome outcome nested p =
      if p.retired || nested then ([], p) else (chosen outcome p, record p { retired = true })

  -- The listeners of a session, in the order in which they were registered.
  unfoldable pub dispatch : Outcome → Bool → List (Pair K) → List K × List (Pair K)
  dispatch outcome nested [] = ([], [])
  dispatch outcome nested (p ∷ ps) =
      let (calls, q) = on_outcome outcome nested p in
      let (rest, qs) = dispatch outcome nested ps in (calls ++ rest, q ∷ qs)

  -- `_remove`, of every pair that was retired
  abbrev pub deregistered : List (Pair K) → List (Pair K)
  deregistered ps = delete (λ p. p.retired) ps

  unfoldable pub run_after_outcome : Option K → Option K → List (Pair K) → List (Pair K)
  run_after_outcome on_commit on_rollback ps =
      ps ++ record { on_commit = on_commit; on_rollback = on_rollback; retired = false } ∷ []

  abbrev pub step : Event → List (Pair K) → List K × List (Pair K)
  step (resolves outcome nested) ps = dispatch outcome nested ps
  step turns ps = ([], deregistered ps)

  unfoldable pub run : List Event → List (Pair K) → List K × List (Pair K)
  run [] ps = ([], ps)
  run (event ∷ events) ps =
      let (calls, after) = step event ps in
      let (rest, last) = run events after in (calls ++ rest, last)
