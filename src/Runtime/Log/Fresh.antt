-- ===== src/Runtime/Log/Fresh.antt =====
-- The ids of new tasks against the rows that the log held when the manager of runtime/task_manager.go
-- was made.
use zoa.Base.{ℕ, suc, ◌≤◌, ◌≡◌, Bool, false, Option, none, some, List, arith, All}
use zoa.Base.Text.{Text, text_eq}
use zoa.Base.Stamp.{Instant}
use zoa.Base.Sql.{ok}
use zoa.Runtime.Log.{Row}
use zoa.Runtime.Log.Sequence.{task_id_of, max_sequence, max_sequence-fresh}
use zoa.Runtime.Tasks.{
  Manager, no_tasks, parent_refusal, record_or, new_record, persisted, spawn, Call, run,
}
use zoa.Runtime.Tasks.Preserve.{IsPreserved, run-Preserved}

-- NewTaskManagerWithContext, which reads the greatest number of the log
abbrev pub new_manager : ℕ → Manager
new_manager max_task_seq = record no_tasks { next_id = max_task_seq }

Counts : ℕ → Manager → Type 0
Counts n m = n ≤ m.next_id

Counts-IsPreserved : (n : ℕ) → IsPreserved (Counts n)
unfolding Counts
Counts-IsPreserved n = record {
  added = λ parent function_id now m refused h. omega arith;
  updated = λ p f m harmless h. h;
  removed = λ p m h. h;
  noted = λ t m e h. h;
}

spawn_next :
    (parent : Option ℕ) (function_id : Text) (now : Instant) (stored : Bool) (m : Manager) {id : ℕ}
    → (spawn parent function_id now stored m).0 ≡ ok id
    → id ≡ suc m.next_id
unfolding spawn new_record
spawn_next parent function_id now stored m {id} h = by_refusal (parent_refusal parent m.tasks) h
  where
    by_refusal :
        (o : Option Text)
        → (persisted stored (record_or o parent function_id now m)).0 ≡ ok id
        → id ≡ suc m.next_id
    by_refusal none h = unfold record_or in ground arith
    by_refusal (some text) h = absurd (unfold record_or in ground arith)

-- No task that is spawned gets an id that a row of the log has: whatever the goroutines have done since
-- the manager was made from the log's greatest number.
pub spawn-fresh :
    (rows : List Row) (cs : List Call) (parent : Option ℕ) (function_id : Text) (now : Instant)
    (stored : Bool) (id : ℕ)
    → (spawn parent function_id now stored (run cs (new_manager (max_sequence rows)))).0 ≡ ok id
    → All (λ r. text_eq r.task_id (task_id_of id) ≡ false) rows
unfolding Counts
spawn-fresh rows cs parent function_id now stored id h =
    let m = run cs (new_manager (max_sequence rows)) in
    let known : max_sequence rows ≤ m.next_id =
      run-Preserved (Counts (max_sequence rows)) (Counts-IsPreserved (max_sequence rows)) cs
        (new_manager (max_sequence rows)) (omega arith) in
    max_sequence-fresh rows id
      (omega (arith, spawn_next parent function_id now stored m {id = id} h))
