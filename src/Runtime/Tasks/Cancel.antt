-- ===== src/Runtime/Tasks/Cancel.antt =====
-- Cancel. It calls the cancel functions that it finds right after it has released the lock.
use zoa.Base.{
  ℕ, zero, suc, Bool, true, false, not, ◌||◌, Option, none, some, List, [], ◌∷◌, ◌++◌, map, ◌==◌,
  if◌then◌else◌, length, select, update_where, any_of,
}
use zoa.Base.Text.{Text, codes}
use zoa.Base.Sql.{Result, ok, err}
use zoa.Runtime.Tasks.Records.{Status, running, done, failed, canceled, Task, Manager, find_task}

-- What Cancel does to one task: it calls the function where it is there.
abbrev pub request_cancel : Task → Task
request_cancel t = if t.done_closed then t else record t {
  cancel_requested = true;
  context_canceled = t.context_canceled || t.cancel_func;
}

abbrev pub is_child : ℕ → Task → Bool
is_child id t = elim t.parent [ none ↦ false | some p ↦ p == id ]

abbrev pub children : ℕ → List Task → List ℕ
children id tasks = map (λ t. t.task_id) (select (is_child id) tasks)

-- anyCanceled and the tasks
abbrev pub Visited : Type 0
Visited = Bool × List Task

-- One round of Cancel's loop, with the rounds after it.
module _ (rest : List ℕ → List ℕ → Bool → List Task → Visited) (id : ℕ) (queue visited : List ℕ)
    (any : Bool) (tasks : List Task) where
  unfoldable pub visit_found : Option Task → Visited
  visit_found none = rest queue (id ∷ visited) any tasks
  visit_found (some t) =
      rest (queue ++ children id tasks) (id ∷ visited) (any || not t.done_closed)
        (update_where (λ x. x.task_id == id) request_cancel tasks)

  unfoldable pub visit_id : Bool → Visited
  unfolding visit_found
  visit_id true = rest queue visited any tasks
  visit_id false = visit_found (find_task id tasks)

-- The loop of Cancel, by the rounds that are left, over the queue and the visited ids.
unfoldable pub visit : ℕ → List ℕ → List ℕ → Bool → List Task → Visited
unfolding visit_id
visit zero queue visited any tasks = (any, tasks)
visit (suc n) [] visited any tasks = (any, tasks)
visit (suc n) (id ∷ queue) visited any tasks =
    visit_id (visit n) id queue visited any tasks (any_of (λ v. v == id) visited)

abbrev pub log_status : ℕ → List (ℕ × Status) → Option Status
log_status id [] = none
log_status id ((i, s) ∷ log) = let older = log_status id log in if i == id then some s else older

-- Cancel of a task that is not live.
abbrev pub cancel_logged : Option Status → Result Text Bool
cancel_logged none = err (codes "unknown task_id")
cancel_logged (some running) = err (codes "unknown task_id")
cancel_logged (some done) = ok false
cancel_logged (some failed) = ok false
cancel_logged (some canceled) = ok false

unfoldable pub cancel_found : Option Task → ℕ → Manager → Result Text Bool × Manager
cancel_found none id m = (cancel_logged (log_status id m.log), m)
cancel_found (some _) id m =
    let (any, tasks) = visit (suc (length m.tasks)) (id ∷ []) [] false m.tasks in
    (ok any, record m { tasks = tasks })

-- Cancel. Each live task enters the queue at most once, so one round for each and one more are enough.
unfoldable pub cancel : ℕ → Manager → Result Text Bool × Manager
unfolding cancel_found visit
cancel id m = cancel_found (find_task id m.tasks) id m
