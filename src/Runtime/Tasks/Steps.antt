-- ===== src/Runtime/Tasks/Steps.antt =====
-- The steps of runTask, and the calls that an interleaving is made of.
use zoa.Base.{ℕ, Bool, true, false, not, ◌||◌, Option, none, some, List, [], ◌∷◌, ◌==◌, select}
use zoa.Base.Text.{Text, codes}
use zoa.Base.Stamp.{Instant}
use zoa.Runtime.Tasks.Records.{
  Status, running, done, failed, canceled, Phase, spawned, started, executing, ended, finished,
  closed, Task, Manager, find_task, update_task, persist_task, spawn,
}
use zoa.Runtime.Tasks.Cancel.{cancel}

-- What runFunction returns: nothing, context.Canceled, or another error.
pub data Outcome : Type 0 where
  succeeded was_canceled : Outcome
  failed_with : Text → Outcome

abbrev pub status_of : Outcome → Status
status_of succeeded = done
status_of was_canceled = canceled
status_of (failed_with text) = failed

abbrev pub error_of : Outcome → Text
error_of succeeded = []
error_of was_canceled = codes "task canceled"
error_of (failed_with text) = text

abbrev pub begin_task : Instant → Task → Task
begin_task now t = record t { phase = started; started_at = some now }

-- The cancel function is installed, and called if a cancellation came before it.
abbrev pub install_cancel : Task → Task
install_cancel t = record t {
  phase = executing;
  cancel_func = true;
  context_canceled = t.context_canceled || t.cancel_requested;
}

abbrev pub end_task : Outcome → Instant → Task → Task
end_task outcome now t = record t {
  phase = ended;
  finished_at = some now;
  cancel_func = false;
  status = status_of outcome;
  error_text = error_of outcome;
}

abbrev pub close_done : Task → Task
close_done t = record t { phase = closed; done_closed = true }

-- The next step of the goroutine on its own record.
abbrev pub next : Outcome → Instant → Task → Task
next outcome now t = elim t.phase [
  | spawned ↦ begin_task now t
  | started ↦ install_cancel t
  | executing ↦ end_task outcome now t
  | ended ↦ record t { phase = finished }
  | finished ↦ close_done t
  | closed ↦ t
]

-- A task that was canceled cancels its children, and itself.
abbrev pub cancel_canceled : Status → ℕ → Manager → Manager
cancel_canceled running id m = m
cancel_canceled done id m = m
cancel_canceled failed id m = m
cancel_canceled canceled id m = (cancel id m).1

-- What the step does besides, by the phase and the status before it.
unfoldable pub effect : Phase → Status → ℕ → Bool → Manager → Manager
effect spawned status id stored m = persist_task stored id m
effect started status id stored m = m
effect executing status id stored m = m
effect ended status id stored m = persist_task stored id (cancel_canceled status id m)
effect finished status id stored m = m
effect closed status id stored m = record m { tasks = select (λ t. not (t.task_id == id)) m.tasks }

unfoldable pub progress_found : Option Task → ℕ → Outcome → Instant → Bool → Manager → Manager
progress_found none id outcome now stored m = m
progress_found (some t) id outcome now stored m =
    effect t.phase t.status id stored (update_task id (next outcome now) m)

unfoldable pub progress : ℕ → Outcome → Instant → Bool → Manager → Manager
unfolding effect progress_found
progress id outcome now stored m = progress_found (find_task id m.tasks) id outcome now stored m

-- One step of some goroutine.
pub data Call : Type 0 where
  spawn_call : Option ℕ → Text → Instant → Bool → Call
  cancel_call : ℕ → Call
  progress_call : ℕ → Outcome → Instant → Bool → Call

unfoldable pub step : Call → Manager → Manager
step (spawn_call parent function_id now stored) m = (spawn parent function_id now stored m).1
step (cancel_call id) m = (cancel id m).1
step (progress_call id outcome now stored) m = progress id outcome now stored m

unfoldable pub run : List Call → Manager → Manager
unfolding step
run [] m = m
run (c ∷ cs) m = run cs (step c m)
