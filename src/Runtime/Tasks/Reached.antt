-- ===== src/Runtime/Tasks/Reached.antt =====
-- The loop of Cancel of runtime/task_manager.go: its rounds and what it has visited.
use zoa.Base.{
  ℕ, zero, suc, ◌+◌, ◌≤◌, ◌≡◌, refl, sym, ap, subst, ◌∙◌, ◌≢◌, inl, inr, Bool, true, not, ◌||◌,
  none, some, List, [], ◌∷◌, ◌++◌, ◌==◌, arith, All, All-map, count_where, update_where, length,
  length-append, Bool-cases, Option-cases,
}
use zoa.Runtime.Tasks.Records.{Task, find_task}
use zoa.Runtime.Tasks.Cancel.{request_cancel, children, visit_found, visit_id, visit}
use zoa.Runtime.Tasks.Preserve.{Shut}
use zoa.Runtime.Tasks.Visits.{
  in_list, Fine, ChildIn, in_list-append_left, in_list-append_right, children_in, waiting,
  waiting_le, waiting_found,
}

request_cancel-shuts : (t : Task) → Shut (request_cancel t)
request_cancel-shuts t = ground arith

-- One round, on one task.
Fine-seen :
    (id : ℕ) (E V q : List ℕ) (t : Task) → in_list id V ≡ true → Fine E V (id ∷ q) t → Fine E V q t
Fine-seen id E V q t seen v = record {
  linked = λ p e h. elim (v.linked p e h) [
    | inl k ↦ inl k
    | inr k ↦ elim (Bool-cases (id == t.task_id)) [
      | inl y ↦ inl (ground arith)
      | inr n ↦ inr (ground arith)
    ]
  ];
  live = v.live;
  shut = v.shut;
}

Fine-gone :
    (id : ℕ) (E V q : List ℕ) (t : Task)
    → t.task_id ≢ id
    → Fine E V (id ∷ q) t
    → Fine E (id ∷ V) q t
Fine-gone id E V q t other v = record {
  linked = λ p e h. elim (v.linked p e h) [
    | inl k ↦ inl (ground (arith, k))
    | inr k ↦ inr (ground (arith, k))
  ];
  live = λ k. v.live (ground arith);
  shut = λ k. v.shut (ground arith);
}

Fine-kept :
    (id : ℕ) (ids E V q : List ℕ) (t : Task)
    → ChildIn id ids t
    → t.task_id ≢ id
    → Fine E V (id ∷ q) t
    → Fine (id ∷ E) (id ∷ V) (q ++ ids) t
Fine-kept id ids E V q t child other v = record {
  linked = λ p e h. elim (Bool-cases (id == p)) [
    | inl y ↦
        let same : p ≡ id = ground arith in
        inr (in_list-append_right t.task_id q ids (child (e ∙ ap some same)))
    | inr n ↦ elim (v.linked p e (ground arith)) [
      | inl k ↦ inl (ground (arith, k))
      | inr k ↦ inr (in_list-append_left t.task_id q ids (ground arith))
    ]
  ];
  live = λ k. ground (arith, v.live (ground arith));
  shut = λ k. v.shut (ground arith);
}

Fine-marked :
    (id : ℕ) (ids E V q : List ℕ) (t : Task)
    → t.task_id ≡ id
    → Fine (id ∷ E) (id ∷ V) (q ++ ids) (request_cancel t)
Fine-marked id ids E V q t same = record {
  linked = λ p e h. inl (ground arith);
  live = λ k. ground arith;
  shut = λ k. request_cancel-shuts t;
}

none_with : (id : ℕ) (ts : List Task) → find_task id ts ≡ none → All (λ t. t.task_id ≢ id) ts
none_with id [] e = tt
none_with id (t ∷ ts) e = (ground arith, none_with id ts (ground arith))

All-Fine-gone :
    (id : ℕ) (E V q : List ℕ) (ts : List Task)
    → All (λ t. t.task_id ≢ id) ts
    → All (Fine E V (id ∷ q)) ts
    → All (Fine E (id ∷ V) q) ts
All-Fine-gone id E V q [] other h = tt
All-Fine-gone id E V q (t ∷ ts) other h =
    (Fine-gone id E V q t other.0 h.0, All-Fine-gone id E V q ts other.1 h.1)

All-Fine-found :
    (id : ℕ) (ids E V q : List ℕ) (ts : List Task)
    → All (ChildIn id ids) ts
    → All (Fine E V (id ∷ q)) ts
    → All
        (Fine (id ∷ E) (id ∷ V) (q ++ ids))
        (update_where (λ x. x.task_id == id) request_cancel ts)
All-Fine-found id ids E V q [] child h = tt
All-Fine-found id ids E V q (t ∷ ts) child h = elim (Bool-cases (t.task_id == id)) [
  | inl y ↦
      rw y (Fine-marked id ids E V q t (ground arith), All-Fine-found id ids E V q ts child.1 h.1)
  | inr n ↦ rw n (
    Fine-kept id ids E V q t child.0 (ground arith) h.0,
    All-Fine-found id ids E V q ts child.1 h.1,
  )
]

-- What was visited or queued has been visited, and the links are closed.
pub record Reached (visited queue : List ℕ) (ts : List Task) : Type 0 where
  pub all_visited : List ℕ
  pub all_expanded : List ℕ
  pub of_visited : (x : ℕ) → in_list x visited ≡ true → in_list x all_visited ≡ true
  pub of_queue : (x : ℕ) → in_list x queue ≡ true → in_list x all_visited ≡ true
  pub fine : All (Fine all_expanded all_visited []) ts

-- A round that visits `id` and queues `more`.
Reached-from :
    (id : ℕ) (V q more : List ℕ) (ts : List Task)
    → Reached (id ∷ V) (q ++ more) ts
    → Reached V (id ∷ q) ts
Reached-from id V q more ts r = record {
  all_visited = r.all_visited;
  all_expanded = r.all_expanded;
  of_visited = λ x h. r.of_visited x (ground arith);
  of_queue = λ x h. elim (Bool-cases (id == x)) [
    | inl y ↦ r.of_visited x (ground arith)
    | inr n ↦ r.of_queue x (in_list-append_left x q more (ground arith))
  ];
  fine = r.fine;
}

Reached-seen :
    (id : ℕ) (V q : List ℕ) (ts : List Task)
    → in_list id V ≡ true
    → Reached V q ts
    → Reached V (id ∷ q) ts
Reached-seen id V q ts seen r = record {
  all_visited = r.all_visited;
  all_expanded = r.all_expanded;
  of_visited = r.of_visited;
  of_queue = λ x h. elim (Bool-cases (id == x)) [
    | inl y ↦
        r.of_visited x
          (let same : id ≡ x = ground arith in subst (λ k. in_list k V ≡ true) same seen)
    | inr n ↦ r.of_queue x (ground arith)
  ];
  fine = r.fine;
}

append-nil : (q : List ℕ) → q ++ [] ≡ q
append-nil [] = refl
append-nil (x ∷ q) = ap (λ r. x ∷ r) (append-nil q)

-- With a round for each queued id and each task that is not yet queued the loop comes to its end.
pub visit-Reached :
    (n : ℕ) (Q V : List ℕ) (any : Bool) (ts : List Task) (E : List ℕ)
    → length Q + count_where (waiting V) ts ≤ n
    → All (Fine E V Q) ts
    → Reached V Q (visit n Q V any ts).1
unfolding visit visit_id visit_found
visit-Reached zero [] V any ts E le h = record {
  all_visited = V;
  all_expanded = E;
  of_visited = λ x k. k;
  of_queue = λ x k. absurd (cc);
  fine = h;
}
visit-Reached (suc n) [] V any ts E le h = record {
  all_visited = V;
  all_expanded = E;
  of_visited = λ x k. k;
  of_queue = λ x k. absurd (cc);
  fine = h;
}
visit-Reached zero (id ∷ q) V any ts E le h = absurd (omega arith)
visit-Reached (suc n) (id ∷ q) V any ts E le h = elim (Bool-cases (in_list id V)) [
  | inl seen ↦
      subst (λ s. Reached V (id ∷ q) (visit_id (visit n) id q V any ts s).1) (sym seen)
        (Reached-seen id V q (visit n q V any ts).1 seen (
          visit-Reached n q V any ts E (omega arith)
            (All-map (Fine E V (id ∷ q)) (Fine E V q) ts (λ t. Fine-seen id E V q t seen) h)))
  | inr fresh ↦
      subst (λ s. Reached V (id ∷ q) (visit_id (visit n) id q V any ts s).1) (sym fresh)
        (elim (Option-cases (find_task id ts)) [
          | inl gone ↦
              subst (λ o. Reached V (id ∷ q) (visit_found (visit n) id q V any ts o).1) (sym gone)
                (Reached-from id V q [] (visit n q (id ∷ V) any ts).1 (
                  subst (λ k. Reached (id ∷ V) k (visit n q (id ∷ V) any ts).1) (sym (append-nil q))
                    (visit-Reached n q (id ∷ V) any ts E (omega (arith, waiting_le id V ts))
                      (All-Fine-gone id E V q ts (none_with id ts gone) h))))
          | inr (t, e) ↦
              let ids = children id ts in
              let ts1 = update_where (λ x. x.task_id == id) request_cancel ts in
              let found = any || not t.done_closed in
              subst (λ o. Reached V (id ∷ q) (visit_found (visit n) id q V any ts o).1) (sym e)
                (Reached-from id V q ids (visit n (q ++ ids) (id ∷ V) found ts1).1 (
                  visit-Reached n (q ++ ids) (id ∷ V) found ts1 (id ∷ E)
                    (omega (arith, waiting_found id V ts fresh, length-append q ids))
                    (All-Fine-found id ids E V q ts (children_in id ts) h)))
        ])
]
