-- ===== src/Runtime/Tasks/Settled.antt =====
-- The status that Get of runtime/task_manager.go returns, from the moment on at which runTask writes its
-- last record to the task log.
use zoa.Base.{
  ℕ, ◌≤◌, ◌≡◌, sym, ap, subst, ◌∙◌, inl, inr, true, Option, none, some, List, [], ◌∷◌, ◌==◌, arith,
  All, All-append, All-update_where, select_first_holds, select_first-update_where,
  All-select_first, Bool-cases, Option-cases, if◌then◌else◌,
}
use zoa.Runtime.Tasks.Records.{Status, Task, Manager, find_task, logged, persist_task}
use zoa.Runtime.Tasks.Preserve.{is_settled, IsPreserved, IsUpdated}
use zoa.Runtime.Tasks.Invariant.{All-select}

-- The row of the log is replaced by each write, so that the last one counts.
abbrev pub logged_status : ℕ → List (ℕ × Status) → Option Status
logged_status id [] = none
logged_status id ((i, s) ∷ log) = if i == id then some s else logged_status id log

abbrev pub status_or : Option Task → Option Status → Option Status
status_or none o = o
status_or (some t) o = some t.status

-- The status in what Get returns; `none` is an unknown id.
unfoldable pub get_status : ℕ → Manager → Option Status
get_status id m = status_or (find_task id m.tasks) (logged_status id m.log)

-- What is known of the live task with an id.
abbrev pub Holds : ℕ → (Task → Type 0) → Task → Type 0
Holds id P t = t.task_id ≡ id → P t

abbrev pub Final : Status → Task → Type 0
Final s t = (is_settled t.phase ≡ true) × (t.status ≡ s)

pub record Settled (id : ℕ) (s : Status) (m : Manager) : Type 0 where
  pub known : id ≤ m.next_id
  pub live : All (Holds id (Final s)) m.tasks
  pub written : logged_status id m.log ≡ some s

pub Settled-IsPreserved : (id : ℕ) (s : Status) → IsPreserved (Settled id s)
Settled-IsPreserved id s = record {
  added = λ parent function_id now m refused h. record {
    known = omega (arith, h.known);
    live =
        All-append (Holds id (Final s)) m.tasks _ h.live
          (λ e. absurd (omega (arith, h.known, e)), tt);
    written = h.written;
  };
  updated = λ p f m harmless h. record {
    known = h.known;
    live =
        All-update_where (Holds id (Final s)) p f m.tasks
          (λ t _ k e.
            let (settled, same) = k (sym (harmless.same_id t) ∙ e) in
            (harmless.settled t settled, harmless.same_status t settled ∙ same))
          h.live;
    written = h.written;
  };
  removed = λ p m h. record {
    known = h.known;
    live = All-select (Holds id (Final s)) p m.tasks h.live;
    written = h.written;
  };
  noted = λ t m found h. record {
    known = h.known;
    live = h.live;
    written = elim (Bool-cases (t.task_id == id)) [
      | inl y ↦
          let same : t.task_id ≡ id = ground arith in
          let (_, status) =
            All-select_first (Holds id (Final s)) (λ x. x.task_id == t.task_id) m.tasks {a = t}
              h.live found same in
          rw y (ap some status)
      | inr n ↦ rw n h.written
    ];
  };
}

pub get_status-Settled :
    (id : ℕ) (s : Status) (m : Manager) → Settled id s m → get_status id m ≡ some s
unfolding get_status
get_status-Settled id s m h = elim (Option-cases (find_task id m.tasks)) [
  | inl gone ↦ rw gone h.written
  | inr (t, found) ↦
      let named : t.task_id ≡ id =
        ground (arith, select_first_holds (λ x. x.task_id == id) m.tasks {a = t} found) in
      let (_, status) =
        All-select_first (Holds id (Final s)) (λ x. x.task_id == id) m.tasks {a = t} h.live found
          named in
      rw found (ap some status)
]

-- A live task with the id, and nothing else is known by that id.
pub record Present (id : ℕ) (s : Status) (m : Manager) : Type 0 where
  pub known : id ≤ m.next_id
  pub live : All (Holds id (Final s)) m.tasks
  pub there : (t : Task) × (find_task id m.tasks ≡ some t)

pub Present-IsUpdated : (id : ℕ) (s : Status) → IsUpdated (Present id s)
Present-IsUpdated id s p f m harmless h = record {
  known = h.known;
  live =
      All-update_where (Holds id (Final s)) p f m.tasks
        (λ t _ k e.
          let (settled, same) = k (sym (harmless.same_id t) ∙ e) in
          (harmless.settled t settled, harmless.same_status t settled ∙ same))
        h.live;
  there =
      let (t, found) = h.there in
      (
        (if p t then f t else t),
        select_first-update_where (λ x. x.task_id == id) p f m.tasks {a = t}
            (λ x. ap (λ i. i == id) (harmless.same_id x)) found,
      );
}

pub persisted-Settled :
    (id : ℕ) (s : Status) (m : Manager) → Present id s m → Settled id s (persist_task true id m)
unfolding persist_task
persisted-Settled id s m h =
    let (t, found) = h.there in
    let named : t.task_id ≡ id =
      ground (arith, select_first_holds (λ x. x.task_id == id) m.tasks {a = t} found) in
    let itself : (t.task_id == id) ≡ true = ground arith in
    let (_, status) =
      All-select_first (Holds id (Final s)) (λ x. x.task_id == id) m.tasks {a = t} h.live found
        named in
    subst (λ o. Settled id s (logged true o m)) (sym found)
      record { known = h.known; live = h.live; written = rw itself (ap some status) }
