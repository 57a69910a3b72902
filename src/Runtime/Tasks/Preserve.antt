-- ===== src/Runtime/Tasks/Preserve.antt =====
-- Properties of the tasks of runtime/task_manager.go under the steps of the goroutines.
use zoa.Base.{
  ℕ, zero, suc, ◌≡◌, refl, ap, ◌∙◌, Bool, true, false, not, ◌||◌, Option, none, some, List, [], ◌∷◌,
  ◌++◌, ◌==◌, arith, any_of, select, update_where, length, select_first_holds,
}
use zoa.Base.Text.{Text}
use zoa.Base.Stamp.{Instant}
use zoa.Base.Sql.{Result, ok, err}
use zoa.Runtime.Tasks.Records.{
  Status, running, done, failed, canceled, Phase, spawned, started, executing, ended, finished,
  closed, Task, Manager, find_task, logged, persist_task, parent_refusal, new_task, record_or,
  new_record, persisted, spawn,
}
use zoa.Runtime.Tasks.Cancel.{
  request_cancel, children, Visited, visit_found, visit_id, visit, cancel_found, cancel,
}
use zoa.Runtime.Tasks.Steps.{
  Outcome, next, cancel_canceled, effect, progress_found, progress, Call, spawn_call, cancel_call,
  progress_call, step, run,
}

abbrev pub is_executing : Phase → Bool
is_executing p = elim p [ executing ↦ true | _ ↦ false ]

abbrev pub is_closed : Phase → Bool
is_closed p = elim p [ closed ↦ true | _ ↦ false ]

abbrev pub is_running : Status → Bool
is_running s = elim s [ running ↦ true | _ ↦ false ]

-- Before the function has returned.
abbrev pub before_end : Phase → Bool
before_end p = elim p [
  | spawned ↦ true
  | started ↦ true
  | executing ↦ true
  | ended ↦ false
  | finished ↦ false
  | closed ↦ false
]

-- After the last write of the task to the log.
abbrev pub is_settled : Phase → Bool
is_settled p = elim p [
  | spawned ↦ false
  | started ↦ false
  | executing ↦ false
  | ended ↦ false
  | finished ↦ true
  | closed ↦ true
]

-- The fields of a record fit each other. The third says that no request is lost: when a cancellation
-- was requested and the function runs, its context is canceled.
pub record Consistent (t : Task) : Type 0 where
  pub func_there : t.cancel_func ≡ is_executing t.phase
  pub done_last : t.done_closed ≡ is_closed t.phase
  pub not_lost : (not t.cancel_requested || (not t.cancel_func || t.context_canceled)) ≡ true
  pub status_fits : is_running t.status ≡ before_end t.phase

-- No task is spawned below it any more.
abbrev pub Shut : Task → Type 0
Shut t = (t.cancel_requested || t.done_closed) ≡ true

-- A change of a record that every property here survives.
pub record Harmless (f : Task → Task) : Type 0 where
  pub same_id : (t : Task) → (f t).task_id ≡ t.task_id
  pub same_parent : (t : Task) → (f t).parent ≡ t.parent
  pub consistent : (t : Task) → Consistent t → Consistent (f t)
  pub shut_up : (t : Task) → Shut t → Shut (f t)
  pub settled : (t : Task) → is_settled t.phase ≡ true → is_settled (f t).phase ≡ true
  pub same_status : (t : Task) → is_settled t.phase ≡ true → (f t).status ≡ t.status

pub request_cancel-Harmless : Harmless request_cancel
request_cancel-Harmless = record {
  same_id = λ t. ground arith;
  same_parent = λ t. ground arith;
  consistent = λ t v. record {
    func_there = ground (arith, v.func_there);
    done_last = ground (arith, v.done_last);
    not_lost = ground (arith, v.not_lost);
    status_fits = ground (arith, v.status_fits);
  };
  shut_up = λ t h. ground arith;
  settled = λ t h. ground arith;
  same_status = λ t h. ground arith;
}

next-Harmless : (outcome : Outcome) (now : Instant) → Harmless (next outcome now)
next-Harmless outcome now = record {
  same_id = λ t. ground arith;
  same_parent = λ t. ground arith;
  consistent = λ t v. record {
    func_there = ground (arith, v.func_there);
    done_last = ground (arith, v.done_last);
    not_lost = ground (arith, v.not_lost, v.func_there);
    status_fits = ground (arith, v.status_fits);
  };
  shut_up = λ t h. ground arith;
  settled = λ t h. ground arith;
  same_status = λ t h. ground arith;
}

-- A change of some records keeps `P`.
abbrev pub IsUpdated : (Manager → Type 0) → Type 0
IsUpdated P =
    (p : Task → Bool) (f : Task → Task) (m : Manager)
    → Harmless f
    → P m
    → P (record m { tasks = update_where p f m.tasks })

module _ (P : Manager → Type 0) (U : IsUpdated P) where
  unfoldable pub Visits : (List ℕ → List ℕ → Bool → List Task → Visited) → Type 0
  Visits rest =
      (queue visited : List ℕ) (any : Bool) (m : Manager)
      → P m
      → P (record m { tasks = (rest queue visited any m.tasks).1 })

  visit_found-P :
      (rest : List ℕ → List ℕ → Bool → List Task → Visited) (id : ℕ) (queue visited : List ℕ)
      (any : Bool) (o : Option Task) (m : Manager)
      → Visits rest
      → P m
      → P (record m { tasks = (visit_found rest id queue visited any m.tasks o).1 })
  unfolding Visits visit_found
  visit_found-P rest id queue visited any none m keep v = keep queue (id ∷ visited) any m v
  visit_found-P rest id queue visited any (some t) m keep v =
      keep (queue ++ children id m.tasks) (id ∷ visited) (any || not t.done_closed)
        (record m { tasks = update_where (λ x. x.task_id == id) request_cancel m.tasks })
        (U (λ x. x.task_id == id) request_cancel m request_cancel-Harmless v)

  visit_id-P :
      (rest : List ℕ → List ℕ → Bool → List Task → Visited) (id : ℕ) (queue visited : List ℕ)
      (any seen : Bool) (m : Manager)
      → Visits rest
      → P m
      → P (record m { tasks = (visit_id rest id queue visited any m.tasks seen).1 })
  unfolding Visits visit_id
  visit_id-P rest id queue visited any true m keep v = keep queue visited any m v
  visit_id-P rest id queue visited any false m keep v =
      visit_found-P rest id queue visited any (find_task id m.tasks) m keep v

  pub visit-P : (n : ℕ) → Visits (visit n)
  unfolding Visits visit
  visit-P zero queue visited any m v = v
  visit-P (suc n) [] visited any m v = v
  visit-P (suc n) (id ∷ queue) visited any m v =
      visit_id-P (visit n) id queue visited any (any_of (λ x. x == id) visited) m (visit-P n) v

  cancel_found-P : (o : Option Task) (id : ℕ) (m : Manager) → P m → P (cancel_found o id m).1
  unfolding cancel_found Visits
  cancel_found-P none id m v = v
  cancel_found-P (some _) id m v = visit-P (suc (length m.tasks)) (id ∷ []) [] false m v

  cancel-P : (id : ℕ) (m : Manager) → P m → P (cancel id m).1
  unfolding cancel
  cancel-P id m v = cancel_found-P (find_task id m.tasks) id m v

  pub cancel_canceled-P : (s : Status) (id : ℕ) (m : Manager) → P m → P (cancel_canceled s id m)
  cancel_canceled-P running id m v = v
  cancel_canceled-P done id m v = v
  cancel_canceled-P failed id m v = v
  cancel_canceled-P canceled id m v = cancel-P id m v

pub record IsPreserved (P : Manager → Type 0) : Type 0 where
  pub added :
      (parent : Option ℕ) (function_id : Text) (now : Instant) (m : Manager)
      → parent_refusal parent m.tasks ≡ none
      → P m
      → P (record m {
        next_id = suc m.next_id;
        tasks = m.tasks ++ (new_task (suc m.next_id) parent function_id now ∷ []);
      })
  pub updated : IsUpdated P
  pub removed : (p : Task → Bool) (m : Manager) → P m → P (record m { tasks = select p m.tasks })
  pub noted :
      (t : Task) (m : Manager)
      → find_task t.task_id m.tasks ≡ some t
      → P m
      → P (record m { log = (t.task_id, t.status) ∷ m.log })

module _ (P : Manager → Type 0) (K : IsPreserved P) where
  logged-P :
      (stored : Bool) (o : Option Task) (id : ℕ) (m : Manager)
      → find_task id m.tasks ≡ o
      → P m
      → P (logged stored o m)
  logged-P true (some t) id m e v =
      let same : t.task_id ≡ id =
        ground (arith, select_first_holds (λ x. x.task_id == id) m.tasks {a = t} e) in
      K.noted t m (ap (λ i. find_task i m.tasks) same ∙ e) v
  logged-P true none id m e v = v
  logged-P false o id m e v = v

  persist_task-P : (stored : Bool) (id : ℕ) (m : Manager) → P m → P (persist_task stored id m)
  unfolding persist_task
  persist_task-P stored id m v = logged-P stored (find_task id m.tasks) id m refl v

  persisted-P :
      (stored : Bool) (r : Result Text ℕ) (m : Manager) → P m → P (persisted stored (r, m)).1
  persisted-P stored (err e) m v = v
  persisted-P stored (ok id) m v = persist_task-P stored id m v

  record_or-P :
      (o : Option Text) (parent : Option ℕ) (function_id : Text) (now : Instant) (m : Manager)
      → parent_refusal parent m.tasks ≡ o
      → P m
      → P (record_or o parent function_id now m).1
  unfolding record_or
  record_or-P none parent function_id now m e v = K.added parent function_id now m e v
  record_or-P (some text) parent function_id now m e v = v

  effect-P :
      (phase : Phase) (status : Status) (id : ℕ) (stored : Bool) (m : Manager)
      → P m
      → P (effect phase status id stored m)
  unfolding effect
  effect-P spawned status id stored m v = persist_task-P stored id m v
  effect-P started status id stored m v = v
  effect-P executing status id stored m v = v
  effect-P ended status id stored m v =
      persist_task-P stored id (cancel_canceled status id m)
        (cancel_canceled-P P K.updated status id m v)
  effect-P finished status id stored m v = v
  effect-P closed status id stored m v = K.removed (λ t. not (t.task_id == id)) m v

  progress_found-P :
      (o : Option Task) (id : ℕ) (outcome : Outcome) (now : Instant) (stored : Bool) (m : Manager)
      → P m
      → P (progress_found o id outcome now stored m)
  unfolding progress_found
  progress_found-P none id outcome now stored m v = v
  progress_found-P (some t) id outcome now stored m v =
      effect-P t.phase t.status id stored
        (record m { tasks = update_where (λ x. x.task_id == id) (next outcome now) m.tasks })
        (K.updated (λ x. x.task_id == id) (next outcome now) m (next-Harmless outcome now) v)

  step-Preserved : (c : Call) (m : Manager) → P m → P (step c m)
  unfolding step spawn new_record progress
  step-Preserved (spawn_call parent function_id now stored) m v =
      let o = parent_refusal parent m.tasks in
      persisted-P stored (record_or o parent function_id now m).0
        (record_or o parent function_id now m).1 (record_or-P o parent function_id now m refl v)
  step-Preserved (cancel_call id) m v = cancel-P P K.updated id m v
  step-Preserved (progress_call id outcome now stored) m v =
      progress_found-P (find_task id m.tasks) id outcome now stored m v

  pub run-Preserved : (cs : List Call) (m : Manager) → P m → P (run cs m)
  unfolding run
  run-Preserved [] m v = v
  run-Preserved (c ∷ cs) m v = run-Preserved cs (step c m) (step-Preserved c m v)
