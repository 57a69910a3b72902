-- ===== src/Runtime/Tasks/Records.antt =====
-- The records of the tasks, newRecord and spawnWithParent. The id "task-n" is written n. The order of
-- `tasks`, which Go leaves open for a map, is that of the ids.
use zoa.Base.{
  ℕ, suc, Bool, true, false, Option, none, some, List, [], ◌∷◌, ◌++◌, ◌==◌, if◌then◌else◌,
  select_first, update_where,
}
use zoa.Base.Text.{Text, codes}
use zoa.Base.Stamp.{Instant}
use zoa.Base.Sql.{Result, ok, err}

pub data Status : Type 0 where
  running done failed canceled : Status

-- How far the goroutine of a task has come in runTask.
pub data Phase : Type 0 where
  spawned started executing ended finished closed : Phase

-- taskRecord. `cancel_func` tells whether the function is there, `context_canceled` whether it has been
-- called, `done_closed` whether the channel is closed.
pub record Task : Type 0 where
  pub task_id : ℕ
  pub function_id : Text
  pub parent : Option ℕ
  pub phase : Phase
  pub status : Status
  pub created_at : Instant
  pub started_at : Option Instant
  pub finished_at : Option Instant
  pub error_text : Text
  pub cancel_func : Bool
  pub context_canceled : Bool
  pub cancel_requested : Bool
  pub done_closed : Bool

-- The live tasks, and the last status of each task in the task log.
pub record Manager : Type 0 where
  pub next_id : ℕ
  pub tasks : List Task
  pub log : List (ℕ × Status)

abbrev pub no_tasks : Manager
no_tasks = record { next_id = 0; tasks = []; log = [] }

abbrev pub find_task : ℕ → List Task → Option Task
find_task id = select_first λ t. t.task_id == id

abbrev pub update_task : ℕ → (Task → Task) → Manager → Manager
update_task id f m = record m { tasks = update_where (λ t. t.task_id == id) f m.tasks }

abbrev pub logged : Bool → Option Task → Manager → Manager
logged true (some t) m = record m { log = (t.task_id, t.status) ∷ m.log }
logged true none m = m
logged false t m = m

-- persistTask; `stored` is false where the log fails, which the callers ignore.
unfoldable pub persist_task : Bool → ℕ → Manager → Manager
persist_task stored id m = logged stored (find_task id m.tasks) m

-- The checks of newRecord on the parent: the error, if any.
abbrev pub refusal : Option Task → Option Text
refusal none = some (codes "unknown parent_task_id")
refusal (some p) =
    if p.cancel_requested
    then some (codes "parent task is canceled")
    else if p.done_closed
    then some (codes "parent task is already complete")
    else none

abbrev pub parent_refusal : Option ℕ → List Task → Option Text
parent_refusal none tasks = none
parent_refusal (some id) tasks = refusal (find_task id tasks)

abbrev pub new_task : ℕ → Option ℕ → Text → Instant → Task
new_task id parent function_id now = record {
  task_id = id;
  function_id = function_id;
  parent = parent;
  phase = spawned;
  status = running;
  created_at = now;
  started_at = none;
  finished_at = none;
  error_text = [];
  cancel_func = false;
  context_canceled = false;
  cancel_requested = false;
  done_closed = false;
}

unfoldable pub record_or :
    Option Text → Option ℕ → Text → Instant → Manager → Result Text ℕ × Manager
record_or (some text) parent function_id now m = (err text, m)
record_or none parent function_id now m =
    let id = suc m.next_id in
    (ok id, record m { next_id = id; tasks = m.tasks ++ (new_task id parent function_id now ∷ []) })

unfoldable pub new_record : Option ℕ → Text → Instant → Manager → Result Text ℕ × Manager
unfolding record_or
new_record parent function_id now m =
    record_or (parent_refusal parent m.tasks) parent function_id now m

abbrev pub persisted : Bool → Result Text ℕ × Manager → Result Text ℕ × Manager
persisted stored (err e, m) = (err e, m)
persisted stored (ok id, m) = (ok id, persist_task stored id m)

-- spawnWithParent, behind resolveFunctionInput
unfoldable pub spawn : Option ℕ → Text → Instant → Bool → Manager → Result Text ℕ × Manager
spawn parent function_id now stored m = persisted stored (new_record parent function_id now m)
