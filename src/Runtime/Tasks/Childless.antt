-- ===== src/Runtime/Tasks/Childless.antt =====
-- The children of a canceled task, for newRecord and Cancel of runtime/task_manager.go.
use zoa.Base.{
  ℕ, suc, ◌≤◌, ◌≡◌, refl, sym, ap, subst, ◌∙◌, ◌≢◌, ◌⊎◌, inl, inr, true, false, not, ◌||◌, Option,
  none, some, List, [], ◌∷◌, ◌==◌, arith, All, All-append, All-update_where, All-select_first,
  select_first_holds, update_where, length, Bool-cases,
}
use zoa.Base.Text.{Text}
use zoa.Base.Stamp.{Instant}
use zoa.Runtime.Tasks.Records.{Task, Manager, find_task, refusal, parent_refusal, new_task}
use zoa.Runtime.Tasks.Cancel.{
  request_cancel, children, visit, visit_id, visit_found, cancel, cancel_found,
}
use zoa.Runtime.Tasks.Steps.{Call, run}
use zoa.Runtime.Tasks.Preserve.{
  Shut, Harmless, IsPreserved, Visits, visit-P, request_cancel-Harmless, run-Preserved,
}
use zoa.Runtime.Tasks.Invariant.{Inv, Ordered, found_le, All-select}

-- If the task is `p`, it is shut.
abbrev pub ShutIf : ℕ → Task → Type 0
ShutIf p t = (t.task_id ≢ p) ⊎ Shut t

-- If the task is a child of `p`, it is one of the first `n`.
abbrev pub ChildUpTo : ℕ → ℕ → Task → Type 0
ChildUpTo p n t = (t.parent ≢ some p) ⊎ (t.task_id ≤ n)

pub record Childless (p n : ℕ) (m : Manager) : Type 0 where
  pub known : p ≤ m.next_id
  pub shut : All (ShutIf p) m.tasks
  pub old : All (ChildUpTo p n) m.tasks

some_apart : (a b : ℕ) → a ≢ b → some a ≢ some b
some_apart a b n e = n (ground arith)

refusal-Shut : (t : Task) → refusal (some t) ≡ none → Shut t → true ≡ false
refusal-Shut t e h = ground arith

not_shut :
    (p q : ℕ) (tasks : List Task) (o : Option Task)
    → find_task q tasks ≡ o
    → refusal o ≡ none
    → All (ShutIf p) tasks
    → q ≢ p
not_shut p q tasks none f e h same = absurd (cc)
not_shut p q tasks (some t) f e h same =
    elim (All-select_first (ShutIf p) (λ x. x.task_id == q) tasks {a = t} h f) [
      | inl other ↦
          other (ground (arith, select_first_holds (λ (x : Task). x.task_id == q) tasks {a = t} f))
      | inr shut ↦ absurd (let no = refusal-Shut t e shut in cc)
    ]

module _ (p n : ℕ) where
  new_task-ChildUpTo :
      (parent : Option ℕ) (function_id : Text) (now : Instant) (m : Manager)
      → parent_refusal parent m.tasks ≡ none
      → All (ShutIf p) m.tasks
      → ChildUpTo p n (new_task (suc m.next_id) parent function_id now)
  new_task-ChildUpTo none function_id now m e h = inl (λ q. cc)
  new_task-ChildUpTo (some q) function_id now m e h =
      inl (some_apart q p (not_shut p q m.tasks (find_task q m.tasks) refl e h))

  update-ShutIf : (f : Task → Task) (t : Task) → Harmless f → ShutIf p t → ShutIf p (f t)
  update-ShutIf f t harmless (inl other) = inl (rw (harmless.same_id t) other)
  update-ShutIf f t harmless (inr shut) = inr (harmless.shut_up t shut)

  Childless-IsPreserved : IsPreserved (Childless p n)
  Childless-IsPreserved = record {
    added = λ parent function_id now m e v. record {
      known = omega (arith, v.known);
      shut = All-append (ShutIf p) m.tasks _ v.shut (inl (ground (arith, v.known)), tt);
      old =
          All-append (ChildUpTo p n) m.tasks _ v.old
            (new_task-ChildUpTo parent function_id now m e v.shut, tt);
    };
    updated = λ q f m harmless v. record {
      known = v.known;
      shut = All-update_where (ShutIf p) q f m.tasks (λ t _ h. update-ShutIf f t harmless h) v.shut;
      old =
          All-update_where (ChildUpTo p n) q f m.tasks
            (λ t _ h. rw (harmless.same_id t, harmless.same_parent t) h) v.old;
    };
    removed = λ q m v. record {
      known = v.known;
      shut = All-select (ShutIf p) q m.tasks v.shut;
      old = All-select (ChildUpTo p n) q m.tasks v.old;
    };
    noted = λ t m e v. record { known = v.known; shut = v.shut; old = v.old };
  }

Ordered-ChildUpTo :
    (p lo : ℕ) (ts : List Task) (hi : ℕ) → Ordered lo ts hi → (lo ≤ hi) × All (ChildUpTo p hi) ts
Ordered-ChildUpTo p lo [] hi h = (h, tt)
Ordered-ChildUpTo p lo (t ∷ ts) hi h =
    let rest = Ordered-ChildUpTo p t.task_id ts hi h.1 in
    (omega (arith, rest.0), (inr rest.0, rest.1))

request_cancel-Shut : (t : Task) → Shut (request_cancel t)
request_cancel-Shut t = ground arith

-- The update of one task by its id shuts it.
marked :
    (p : ℕ) (ts : List Task) → All (ShutIf p) (update_where (λ t. t.task_id == p) request_cancel ts)
marked p [] = tt
marked p (t ∷ ts) = elim (Bool-cases (t.task_id == p)) [
  | inl y ↦ rw y (inr (request_cancel-Shut t), marked p ts)
  | inr n ↦ rw n (inl (ground arith), marked p ts)
]

-- The first round of the loop visits the task itself.
cancel_live-Childless :
    (p : ℕ) (m : Manager) (t : Task)
    → Inv m
    → find_task p m.tasks ≡ some t
    → Childless p m.next_id (cancel p m).1
unfolding cancel cancel_found visit visit_id visit_found Visits
cancel_live-Childless p m t v e =
    let n = m.next_id in
    let m1 : Manager = record m {
      tasks = update_where (λ x. x.task_id == p) request_cancel m.tasks;
    } in
    let known = found_le p 0 m.tasks n {t = t} v.ordered e in
    let start : Childless p n m1 = record {
      known = known;
      shut = marked p m.tasks;
      old =
          All-update_where (ChildUpTo p n) (λ x. x.task_id == p) request_cancel m.tasks
            (λ x _ h.
              rw (request_cancel-Harmless.same_id x, request_cancel-Harmless.same_parent x) h)
            (Ordered-ChildUpTo p 0 m.tasks n v.ordered).1;
    } in
    let rounds = length m.tasks in
    subst (Childless p n)
      (sym (
        ap (λ o. (cancel_found o p m).1) e
        ∙ ap (λ o. record m { tasks = (visit_found (visit rounds) p [] [] false m.tasks o).1 }) e))
      (visit-P (Childless p n) (Childless-IsPreserved p n).updated rounds (children p m.tasks)
        (p ∷ []) (false || not t.done_closed) m1 start)

-- After a cancellation of a live task no task is spawned below it. Whatever the goroutines do
-- afterwards, from a manager in order: the live tasks with the canceled task as their parent have
-- ids that were given out before, and the canceled task itself, while it is live, stays asked to
-- cancel or is at its end.
pub cancel-Childless :
    (p : ℕ) (m : Manager) (t : Task) (cs : List Call)
    → Inv m
    → find_task p m.tasks ≡ some t
    → Childless p m.next_id (run cs (cancel p m).1)
cancel-Childless p m t cs v e =
    run-Preserved (Childless p m.next_id) (Childless-IsPreserved p m.next_id) cs (cancel p m).1
      (cancel_live-Childless p m t v e)
