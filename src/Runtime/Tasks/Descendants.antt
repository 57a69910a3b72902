-- ===== src/Runtime/Tasks/Descendants.antt =====
-- The descendants of a canceled task, for Cancel of runtime/task_manager.go.
use zoa.Base.{
  ℕ, suc, ◌≡◌, sym, ap, subst, inl, inr, true, false, some, List, [], ◌∷◌, ◌==◌, arith, All,
  All-select_first, select_first_holds, length,
}
use zoa.Runtime.Tasks.Records.{Task, Manager, find_task}
use zoa.Runtime.Tasks.Cancel.{visit, cancel_found, cancel}
use zoa.Runtime.Tasks.Preserve.{Shut}
use zoa.Runtime.Tasks.Visits.{in_list, Fine, waiting_all}
use zoa.Runtime.Tasks.Reached.{Reached, visit-Reached}

-- The live tasks that `id` leads to by way of live tasks.
pub data Descendant (ts : List Task) (id : ℕ) : ℕ → Type 0 where
  self : Descendant ts id id
  child :
      (p : ℕ) (q t : Task)
      → Descendant ts id p
      → find_task p ts ≡ some q
      → find_task t.task_id ts ≡ some t
      → t.parent ≡ some p
      → Descendant ts id t.task_id

found_id : (x : ℕ) (ts : List Task) (t : Task) → find_task x ts ≡ some t → t.task_id ≡ x
found_id x ts t e = ground (arith, select_first_holds (λ (y : Task). y.task_id == x) ts {a = t} e)

module _ (id : ℕ) (ts : List Task) (r : Reached [] (id ∷ []) ts) where
  found-Fine : (x : ℕ) (t : Task) → find_task x ts ≡ some t → Fine r.all_expanded r.all_visited [] t
  found-Fine x t e =
      All-select_first (Fine r.all_expanded r.all_visited []) (λ y. y.task_id == x) ts {a = t}
        r.fine e

  Descendant-visited : (x : ℕ) → Descendant ts id x → in_list x r.all_visited ≡ true
  Descendant-visited x self = r.of_queue x (ground arith)
  Descendant-visited x (child p q t above live here e) =
      let same = found_id p ts q live in
      let expanded =
        (found-Fine p q live).live
          (subst (λ k. in_list k r.all_visited ≡ true) (sym same) (Descendant-visited p above)) in
      elim ((found-Fine t.task_id t here).linked p e
        (subst (λ k. in_list k r.all_expanded ≡ true) same expanded)) [
          | inl k ↦ k
          | inr k ↦ absurd (cc)
        ]

  Descendant-Shut : (x : ℕ) (t : Task) → Descendant ts id x → find_task x ts ≡ some t → Shut t
  Descendant-Shut x t d e = (found-Fine x t e).shut (
      subst (λ k. in_list k r.all_visited ≡ true) (sym (found_id x ts t e))
        (Descendant-visited x d))

unvisited : (id : ℕ) (ts : List Task) → All (Fine [] [] (id ∷ [])) ts
unvisited id [] = tt
unvisited id (t ∷ ts) = (
  record { linked = λ p e h. absurd (cc); live = λ h. absurd (cc); shut = λ h. absurd (cc) },
  unvisited id ts,
)

-- A cancellation of a live task reaches every live descendant: afterwards each of them is asked to
-- cancel, or is already at its end. The rounds that the loop is given are enough for this.
pub cancel-Shut :
    (id : ℕ) (m : Manager) (t : Task)
    → find_task id m.tasks ≡ some t
    → (x : ℕ) (u : Task) → Descendant (cancel id m).1.tasks id x
    → find_task x (cancel id m).1.tasks ≡ some u
    → Shut u
unfolding cancel cancel_found
cancel-Shut id m t e x u d f =
    let rounds = suc (length m.tasks) in
    let ts = (visit rounds (id ∷ []) [] false m.tasks).1 in
    let same = ap (λ o. (cancel_found o id m).1.tasks) e in
    Descendant-Shut id ts
      (visit-Reached rounds (id ∷ []) [] false m.tasks [] (omega (arith, waiting_all [] m.tasks))
        (unvisited id m.tasks))
      x u (subst (λ k. Descendant k id x) same d) (subst (λ k. find_task x k ≡ some u) same f)
