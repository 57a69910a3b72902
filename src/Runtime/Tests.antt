-- ===== src/Runtime/Tests.antt =====
-- Tasks at concrete data.
use zoa.Base.{◌≡◌, refl, true, false, none, some, List, [], ◌∷◌, select_first, if◌then◌else◌}
use zoa.Base.Text.{Text, codes, text_eq, trim, trim_left, is_space}
use zoa.Runtime.Registry.{Function, Registry, function_entry, list}
use zoa.Runtime.Startup.{
  Ending, snapshot, run_inits, init_manager, StopsAtFailure, init_ids, init_manager-StopsAtFailure,
}
use zoa.Runtime.Tasks.{
  Manager, Task, no_tasks, Call, spawn_call, cancel_call, progress_call, succeeded, was_canceled,
  ended, done, failed, new_task, run, step, spawn, new_record, persist_task, progress, cancel,
}
use zoa.Runtime.Tasks.Invariant.{Inv, no_tasks-Inv, run_steady}
use zoa.Runtime.Tasks.Preserve.{Shut, is_running}
use zoa.Runtime.Tasks.Settled.{get_status}
use zoa.Runtime.Tasks.Final.{get_status-final}
use zoa.Runtime.Tasks.Descendants.{self, child, cancel-Shut}
use zoa.Runtime.Tasks.Childless.{Childless, cancel-Childless}

-- A task spawns another, is canceled before its function can be, and runs to its end.
abbrev calls : List Call
calls =
    spawn_call none (codes "f") 1 true
    ∷ progress_call 1 succeeded 2 true
    ∷ spawn_call (some 1) (codes "g") 3 false
    ∷ cancel_call 1
    ∷ progress_call 1 succeeded 4 true
    ∷ spawn_call (some 1) (codes "h") 5 true
    ∷ progress_call 1 was_canceled 6 true
    ∷ progress_call 1 was_canceled 7 true
    ∷ progress_call 1 was_canceled 8 true
    ∷ progress_call 1 was_canceled 9 true
    ∷ []

run_steady_example : Inv (run calls no_tasks)
run_steady_example = run_steady calls no_tasks no_tasks-Inv

-- The child is left, its cancellation requested, and the third spawn was refused.
child_requested :
    select_first (λ t. t.cancel_requested) (run calls no_tasks).tasks
    ≡ some (record (new_task 2 (some 1) (codes "g") 3) { cancel_requested = true })
unfolding run step spawn new_record persist_task progress cancel
child_requested = refl

abbrev one : Manager
one = record { next_id = 1; tasks = new_task 1 none (codes "f") 1 ∷ []; log = [] }

one-Inv : Inv one
unfolding run spawn new_record persist_task
one-Inv = run_steady (spawn_call none (codes "f") 1 false ∷ []) no_tasks no_tasks-Inv

cancel-Childless_example : Childless 1 1 (run calls (cancel 1 one).1)
cancel-Childless_example = cancel-Childless 1 one (new_task 1 none (codes "f") 1) calls one-Inv refl

-- A task with a child.
abbrev two : Manager
two = record {
  next_id = 2;
  tasks = new_task 1 none (codes "f") 1 ∷ new_task 2 (some 1) (codes "g") 2 ∷ [];
  log = [];
}

abbrev child_canceled : Task
child_canceled = record (new_task 2 (some 1) (codes "g") 2) { cancel_requested = true }

abbrev parent_canceled : Task
parent_canceled = record (new_task 1 none (codes "f") 1) { cancel_requested = true }

cancel-Shut_example : Shut child_canceled
unfolding cancel
cancel-Shut_example =
    cancel-Shut 1 two (new_task 1 none (codes "f") 1) refl 2 child_canceled
      (child 1 parent_canceled child_canceled self refl refl refl) refl

-- The function of a task has returned, and nothing of that is in the log yet.
abbrev returned : List Call
returned =
    spawn_call none (codes "f") 1 true
    ∷ progress_call 1 succeeded 2 true
    ∷ progress_call 1 succeeded 3 true
    ∷ progress_call 1 succeeded 4 true
    ∷ []

abbrev ended_task : Task
ended_task = record (new_task 1 none (codes "f") 1) {
  phase = ended;
  status = done;
  started_at = some 2;
  finished_at = some 4;
}

get_status-final_example :
    (get_status 1 (run calls (progress 1 succeeded 5 true (run returned no_tasks))) ≡ some done)
    × (is_running done ≡ false)
get_status-final_example =
    get_status-final returned calls 1 succeeded 5 ended_task
      (unfold run step spawn new_record persist_task progress in refl) refl

abbrev init_function : Text → Function
init_function id = record { id = id; when_to_use = codes "always"; has_exec = true }

abbrev started_registry : Registry
started_registry =
    (codes "gateway.__init__", function_entry (init_function (codes "gateway.__init__")))
    ∷ (codes "chat.recv", function_entry (init_function (codes "chat.recv")))
    ∷ (codes "chat.__init__", function_entry (init_function (codes "chat.__init__")))
    ∷ []

abbrev second_fails : Text → Ending
second_fails id =
    if text_eq id (codes "gateway.__init__") then snapshot failed [] else snapshot done []

spawns_both : (init_manager second_fails started_registry false).0 ≡ (
  some (codes "run init function: unknown error"),
  codes "chat.__init__" ∷ codes "gateway.__init__" ∷ [],
)
unfolding init_manager run_inits list trim trim_left is_space
spawns_both = refl

init_manager-StopsAtFailure_example :
    StopsAtFailure second_fails
      (init_ids (list started_registry))
      (init_manager second_fails started_registry false).0
init_manager-StopsAtFailure_example = init_manager-StopsAtFailure second_fails started_registry
