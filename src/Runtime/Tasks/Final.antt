-- ===== src/Runtime/Tasks/Final.antt =====
-- Get of runtime/task_manager.go, from the last write of runTask on.
use zoa.Base.{
  ℕ, ◌<◌, ◌≡◌, refl, sym, ap, subst, ◌∙◌, inl, inr, true, false, some, List, [], ◌∷◌, ◌==◌, arith,
  All, All-map, select_first_holds, select_first-update_where, All-select_first, update_where,
  Bool-cases, if◌then◌else◌,
}
use zoa.Base.Stamp.{Instant}
use zoa.Runtime.Tasks.Records.{Status, ended, Task, Manager, no_tasks, find_task, update_task}
use zoa.Runtime.Tasks.Steps.{
  Outcome, next, cancel_canceled, effect, progress_found, progress, Call, run,
}
use zoa.Runtime.Tasks.Preserve.{Consistent, is_running, cancel_canceled-P, run-Preserved}
use zoa.Runtime.Tasks.Invariant.{Inv, Ordered, no_tasks-Inv, run_steady, found_le}
use zoa.Runtime.Tasks.Settled.{
  get_status, Holds, Final, Settled, Settled-IsPreserved, get_status-Settled, Present,
  Present-IsUpdated, persisted-Settled,
}

-- The ids differ, so that the found task is the only one with its id.
only :
    (id lo : ℕ) (ts : List Task) (hi : ℕ) (t : Task)
    → Ordered lo ts hi
    → find_task id ts ≡ some t
    → All (Holds id (λ x. x ≡ t)) ts
only id lo [] hi t h e = tt
only id lo (x ∷ ts) hi t h e = elim (Bool-cases (x.task_id == id)) [
  | inl y ↦
      let same : x ≡ t = ground arith in
      let named : x.task_id ≡ id = ground arith in
      (
        λ _. same,
        All-map (λ q. x.task_id < q.task_id) (Holds id (λ q. q ≡ t)) ts
            (λ q lt k. absurd (omega (arith, lt, k, named))) (later x.task_id ts hi h.1),
      )
  | inr n ↦ (λ k. absurd (ground arith), only id x.task_id ts hi t h.1 (ground arith))
]
  where
    later : (lo : ℕ) (ts : List Task) (hi : ℕ) → Ordered lo ts hi → All (λ q. lo < q.task_id) ts
    later lo [] hi h = tt
    later lo (q ∷ ts) hi h = (
      h.0,
      All-map (λ x. q.task_id < x.task_id) (λ x. lo < x.task_id) ts (λ x lt. omega (arith, lt, h.0))
          (later q.task_id ts hi h.1),
    )

step_settles :
    (id : ℕ) (outcome : Outcome) (now : Instant) (m : Manager) (t : Task)
    → Inv m
    → find_task id m.tasks ≡ some t
    → t.phase ≡ ended
    → Settled id t.status (progress id outcome now true m)
unfolding progress progress_found effect
step_settles id outcome now m t v found phase =
    let named : t.task_id ≡ id =
      ground (arith, select_first_holds (λ x. x.task_id == id) m.tasks {a = t} found) in
    let m1 = update_task id (next outcome now) m in
    let stepped : Present id t.status m1 = record {
      known = found_le id 0 m.tasks m.next_id {t = t} v.ordered found;
      live =
          All-update_id id t.status (next outcome now) m.tasks (next_id_same outcome now)
            (next_final outcome now t phase) (only id 0 m.tasks m.next_id t v.ordered found);
      there = (
        (if t.task_id == id then next outcome now t else t),
        select_first-update_where (λ x. x.task_id == id) (λ x. x.task_id == id) (next outcome now)
            m.tasks {a = t} (λ x. ap (λ i. i == id) (next_id_same outcome now x)) found,
      );
    } in
    rw (found, phase)
      (persisted-Settled id t.status (cancel_canceled t.status id m1) (
        cancel_canceled-P (Present id t.status) (Present-IsUpdated id t.status) t.status id m1
          stepped))
  where
    next_id_same :
        (outcome : Outcome) (now : Instant) (x : Task) → (next outcome now x).task_id ≡ x.task_id
    next_id_same outcome now x = ground arith

    next_final :
        (outcome : Outcome) (now : Instant) (t : Task)
        → t.phase ≡ ended
        → Final t.status (next outcome now t)
    next_final outcome now t phase = rw phase (refl, refl)

    All-update_id :
        (id : ℕ) (s : Status) (f : Task → Task) (ts : List Task)
        → ((x : Task) → (f x).task_id ≡ x.task_id)
        → Final s (f t)
        → All (Holds id (λ x. x ≡ t)) ts
        → All (Holds id (Final s)) (update_where (λ x. x.task_id == id) f ts)
    All-update_id id s f [] same final h = tt
    All-update_id id s f (x ∷ ts) same final h = elim (Bool-cases (x.task_id == id)) [
      | inl y ↦
          let it : x.task_id ≡ id = ground arith in
          rw y (
            λ _. subst (λ q. Final s (f q)) (sym (h.0 it)) final,
            All-update_id id s f ts same final h.1,
          )
      | inr n ↦ rw n (λ k. absurd (ground arith), All-update_id id s f ts same final h.1)
    ]

-- Where the function of a task has returned and its last write to the log succeeds, Get returns the
-- status that the task ended with from then on, whatever the goroutines do: the status of the live
-- record, or that of the log; and it is not `running`.
pub get_status-final :
    (cs later : List Call) (id : ℕ) (outcome : Outcome) (now : Instant) (t : Task)
    → find_task id (run cs no_tasks).tasks ≡ some t
    → t.phase ≡ ended
    → (get_status id (run later (progress id outcome now true (run cs no_tasks))) ≡ some t.status)
      × (is_running t.status ≡ false)
get_status-final cs later id outcome now t found phase =
    let v = run_steady cs no_tasks no_tasks-Inv in
    let settled = step_settles id outcome now (run cs no_tasks) t v found phase in
    let consistent =
      All-select_first Consistent (λ x. x.task_id == id) (run cs no_tasks).tasks {a = t}
        v.consistent found in
    (
      get_status-Settled id t.status _ (
          run-Preserved (Settled id t.status) (Settled-IsPreserved id t.status) later
            (progress id outcome now true (run cs no_tasks)) settled),
      consistent.status_fits ∙ (rw phase refl),
    )
