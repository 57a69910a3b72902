-- ===== src/Runtime/Tasks/Invariant.antt =====
-- The invariant of the tasks of runtime/task_manager.go.
use zoa.Base.{
  ℕ, suc, ◌≤◌, ◌<◌, ◌≡◌, refl, ◌⊎◌, inl, inr, Bool, Option, none, some, List, [], ◌∷◌, ◌++◌, ◌==◌,
  arith, All, All-append, All-update_where, select, update_where, Bool-cases,
}
use zoa.Base.Text.{Text}
use zoa.Base.Stamp.{Instant}
use zoa.Runtime.Tasks.Records.{
  Task, Manager, no_tasks, find_task, refusal, parent_refusal, new_task,
}
use zoa.Runtime.Tasks.Steps.{Call, run}
use zoa.Runtime.Tasks.Preserve.{Consistent, IsPreserved, run-Preserved}

-- The ids grow along the list and lie between `lo` and `hi`.
abbrev pub Ordered : ℕ → List Task → ℕ → Type 0
Ordered lo [] hi = lo ≤ hi
Ordered lo (t ∷ ts) hi = (lo < t.task_id) × Ordered t.task_id ts hi

abbrev pub ParentBelow : Task → Type 0
ParentBelow t = (t.parent ≡ none) ⊎ ((p : ℕ) × (t.parent ≡ some p) × (p < t.task_id))

pub record Inv (m : Manager) : Type 0 where
  pub ordered : Ordered 0 m.tasks m.next_id
  pub below : All ParentBelow m.tasks
  pub consistent : All Consistent m.tasks

Ordered-append :
    (lo : ℕ) (ts : List Task) (hi : ℕ) (t : Task)
    → t.task_id ≡ suc hi
    → Ordered lo ts hi
    → Ordered lo (ts ++ (t ∷ [])) (suc hi)
Ordered-append lo [] hi t e h = (omega arith, omega arith)
Ordered-append lo (x ∷ ts) hi t e h = (h.0, Ordered-append x.task_id ts hi t e h.1)

Ordered-update_where :
    (p : Task → Bool) (f : Task → Task) (lo : ℕ) (ts : List Task) (hi : ℕ)
    → ((t : Task) → (f t).task_id ≡ t.task_id)
    → Ordered lo ts hi
    → Ordered lo (update_where p f ts) hi
Ordered-update_where p f lo [] hi same h = h
Ordered-update_where p f lo (t ∷ ts) hi same h = elim (Bool-cases (p t)) [
  | inl y ↦ rw (y, same t) (h.0, Ordered-update_where p f t.task_id ts hi same h.1)
  | inr n ↦ rw n (h.0, Ordered-update_where p f t.task_id ts hi same h.1)
]

Ordered-from :
    (lo lo' : ℕ) (ts : List Task) (hi : ℕ) → lo ≤ lo' → Ordered lo' ts hi → Ordered lo ts hi
Ordered-from lo lo' [] hi le h = omega arith
Ordered-from lo lo' (t ∷ ts) hi le h = (omega arith, h.1)

Ordered-select :
    (p : Task → Bool) (lo : ℕ) (ts : List Task) (hi : ℕ)
    → Ordered lo ts hi
    → Ordered lo (select p ts) hi
Ordered-select p lo [] hi h = h
Ordered-select p lo (t ∷ ts) hi h = elim (Bool-cases (p t)) [
  | inl y ↦ rw y (h.0, Ordered-select p t.task_id ts hi h.1)
  | inr n ↦ rw n (
      Ordered-from lo t.task_id (select p ts) hi (omega arith)
        (Ordered-select p t.task_id ts hi h.1))
]

Ordered-le : (lo : ℕ) (ts : List Task) (hi : ℕ) → Ordered lo ts hi → lo ≤ hi
Ordered-le lo [] hi h = h
Ordered-le lo (t ∷ ts) hi h = omega (arith, Ordered-le t.task_id ts hi h.1)

pub found_le :
    (id lo : ℕ) (ts : List Task) (hi : ℕ) {t : Task}
    → Ordered lo ts hi
    → find_task id ts ≡ some t
    → id ≤ hi
found_le id lo [] hi h e = absurd (cc)
found_le id lo (x ∷ ts) hi {t} h e = elim (Bool-cases (x.task_id == id)) [
  | inl y ↦ ground (arith, Ordered-le x.task_id ts hi h.1)
  | inr n ↦ found_le id x.task_id ts hi {t = t} h.1 (ground arith)
]

pub All-select :
    (P : Task → Type 0) (p : Task → Bool) (ts : List Task) → All P ts → All P (select p ts)
All-select P p [] h = tt
All-select P p (t ∷ ts) h = elim (Bool-cases (p t)) [
  | inl y ↦ rw y (h.0, All-select P p ts h.1)
  | inr n ↦ rw n (All-select P p ts h.1)
]

new_task-Consistent :
    (id : ℕ) (parent : Option ℕ) (function_id : Text) (now : Instant)
    → Consistent (new_task id parent function_id now)
new_task-Consistent id parent function_id now = record {
  func_there = refl;
  done_last = refl;
  not_lost = refl;
  status_fits = refl;
}

new_task-below :
    (parent : Option ℕ) (function_id : Text) (now : Instant) (m : Manager)
    → parent_refusal parent m.tasks ≡ none
    → Inv m
    → ParentBelow (new_task (suc m.next_id) parent function_id now)
new_task-below none function_id now m e v = inl refl
new_task-below (some p) function_id now m e v = by_parent (find_task p m.tasks) refl e
  where
    by_parent :
        (o : Option Task)
        → find_task p m.tasks ≡ o
        → refusal o ≡ none
        → ParentBelow (new_task (suc m.next_id) (some p) function_id now)
    by_parent none f q = absurd (cc)
    by_parent (some t) f q =
        inr (p, refl, omega (arith, found_le p 0 m.tasks m.next_id {t = t} v.ordered f))

Inv-IsPreserved : IsPreserved Inv
Inv-IsPreserved = record {
  added = λ parent function_id now m e v. record {
    ordered = Ordered-append 0 m.tasks m.next_id _ refl v.ordered;
    below =
        All-append ParentBelow m.tasks _ v.below (new_task-below parent function_id now m e v, tt);
    consistent =
        All-append Consistent m.tasks _ v.consistent
          (new_task-Consistent (suc m.next_id) parent function_id now, tt);
  };
  updated = λ p f m harmless v. record {
    ordered = Ordered-update_where p f 0 m.tasks m.next_id harmless.same_id v.ordered;
    below =
        All-update_where ParentBelow p f m.tasks
          (λ t _ h. rw (harmless.same_id t, harmless.same_parent t) h) v.below;
    consistent =
        All-update_where Consistent p f m.tasks (λ t _ h. harmless.consistent t h) v.consistent;
  };
  removed = λ p m v. record {
    ordered = Ordered-select p 0 m.tasks m.next_id v.ordered;
    below = All-select ParentBelow p m.tasks v.below;
    consistent = All-select Consistent p m.tasks v.consistent;
  };
  noted = λ t m e v. record { ordered = v.ordered; below = v.below; consistent = v.consistent };
}

-- Every interleaving of the goroutines' steps, spawns and cancellations keeps what holds of no
-- tasks at all: the live tasks have different ids, a parent is older than its children, the status
-- of a task fits what it has done, and no cancellation is lost: a task that runs its function and
-- was asked to cancel has its context canceled, also if the request came before the function could
-- be canceled.
pub run_steady : (cs : List Call) (m : Manager) → Inv m → Inv (run cs m)
run_steady cs m v = run-Preserved Inv Inv-IsPreserved cs m v

pub no_tasks-Inv : Inv no_tasks
no_tasks-Inv = record { ordered = omega arith; below = tt; consistent = tt }
