-- ===== src/Runtime/Startup.antt =====
-- Init of runtime/task_manager.go, which runs the init functions of the registry. What a spawned function
-- comes to is an argument. The texts of the errors have no ids.
use mathlib.Core.List.{reverse}
use zoa.Base.{
  ◌≡◌, refl, sym, ap, subst, ◌⊎◌, inl, inr, Bool, true, false, Option, none, some, List, [], ◌∷◌,
  ◌++◌, map, select, All, Bool-cases, Option-cases, if◌then◌else◌,
}
use zoa.Base.Text.{Text, codes, is_empty, trim, has_prefix}
use zoa.Runtime.Tasks.{Status, running, done, failed, canceled}
use zoa.Runtime.Registry.{Function, Registry, list}

-- The error of Spawn or of Wait, or the snapshot that Wait returns.
pub data Ending : Type 0 where
  not_spawned not_waited : Text → Ending
  snapshot : Status → Text → Ending

abbrev pub or_unknown : Text → Text
or_unknown text = if is_empty text then codes "unknown error" else text

abbrev pub ending_error : Ending → Option Text
ending_error (not_spawned text) = some (codes "spawn init function: " ++ text)
ending_error (not_waited text) = some (codes "wait init function: " ++ text)
ending_error (snapshot failed text) = some (codes "run init function: " ++ or_unknown (trim text))
ending_error (snapshot done text) = none
ending_error (snapshot running text) = some (codes "run init function: unexpected status")
ending_error (snapshot canceled text) = some (codes "run init function: unexpected status")

-- strings.HasSuffix(fn.ID, ".__init__")
abbrev pub is_init : Function → Bool
is_init fn = has_prefix (reverse fn.id) (reverse (codes ".__init__"))

-- The error of Init, if any, and the ids of the functions that it has spawned.
abbrev pub Started : Type 0
Started = Option Text × List Text

abbrev pub after_one : Option Text → Text → Started → Started
after_one (some e) id rest = (some e, id ∷ [])
after_one none id (e, ids) = (e, id ∷ ids)

abbrev pub init_ids : List Function → List Text
init_ids fns = map (λ fn. fn.id) (select is_init fns)

module _ (run : Text → Ending) where
  unfoldable pub run_inits : List Function → Started
  run_inits [] = (none, [])
  run_inits (fn ∷ fns) =
      let rest = run_inits fns in
      if is_init fn then after_one (ending_error (run fn.id)) fn.id rest else rest

  -- Init; the Boolean is `initCalled`.
  unfoldable pub init_manager : Registry → Bool → Started × Bool
  unfolding run_inits
  init_manager r true = ((some (codes "task manager init already called"), []), true)
  init_manager r false = (run_inits (list r), true)

  abbrev pub Succeeded : Text → Type 0
  Succeeded id = ending_error (run id) ≡ none

  -- All of the functions have run to their end; or all before the first one that fails, and it.
  abbrev pub StopsAtFailure : List Text → Started → Type 0
  StopsAtFailure ids s =
      ((s.0 ≡ none) × (s.1 ≡ ids) × All Succeeded ids)
      ⊎ ((before : List Text) × (id : Text) × (rest : List Text) × (e : Text) × (ids
            ≡ before ++ (id ∷ rest))
          × (s.1 ≡ before ++ (id ∷ []))
          × All Succeeded before
          × (ending_error (run id) ≡ some e)
          × (s.0 ≡ some e))

  after_one-StopsAtFailure :
      (id : Text) (ids : List Text) (s : Started)
      → StopsAtFailure ids s
      → StopsAtFailure (id ∷ ids) (after_one (ending_error (run id)) id s)
  after_one-StopsAtFailure id ids s h = elim (Option-cases (ending_error (run id))) [
    | inr (e, failing) ↦
        subst (λ o. StopsAtFailure (id ∷ ids) (after_one o id s)) (sym failing)
          (inr ([], id, ids, e, refl, refl, tt, failing, refl))
    | inl fine ↦
        subst (λ o. StopsAtFailure (id ∷ ids) (after_one o id s)) (sym fine) (further fine h)
  ]
    where
      further :
          Succeeded id → StopsAtFailure ids s → StopsAtFailure (id ∷ ids) (after_one none id s)
      further fine (inl (none_left, all, ok_all)) =
          inl (none_left, ap (λ l. id ∷ l) all, (fine, ok_all))
      further fine (inr (before, at, rest, e, whole, spawned, ok_before, failing, error)) = inr (
        id ∷ before,
        at,
        rest,
        e,
        ap (λ l. id ∷ l) whole,
        ap (λ l. id ∷ l) spawned,
        (fine, ok_before),
        failing,
        error,
      )

  run_inits-StopsAtFailure : (fns : List Function) → StopsAtFailure (init_ids fns) (run_inits fns)
  unfolding run_inits
  run_inits-StopsAtFailure [] = inl (refl, refl, tt)
  run_inits-StopsAtFailure (fn ∷ fns) = elim (Bool-cases (is_init fn)) [
    | inl y ↦ rw y (
        after_one-StopsAtFailure fn.id (init_ids fns) (run_inits fns)
          (run_inits-StopsAtFailure fns))
    | inr n ↦ rw n (run_inits-StopsAtFailure fns)
  ]

  -- The first call of Init spawns the init functions in the order of List, one after the other: all of
  -- them where each is done, and otherwise those up to the first one that is not, whose error it returns.
  pub init_manager-StopsAtFailure :
      (r : Registry) → StopsAtFailure (init_ids (list r)) (init_manager r false).0
  unfolding init_manager
  init_manager-StopsAtFailure r = run_inits-StopsAtFailure (list r)
