-- ===== src/Runtime/Tasks/Visits.antt =====
-- One round of the loop of Cancel of runtime/task_manager.go.
use zoa.Base.{
  ℕ, ◌+◌, ◌≤◌, ◌≡◌, refl, sym, subst, ◌⊎◌, inl, inr, Bool, true, false, not, none, some, List, [],
  ◌∷◌, ◌++◌, ◌==◌, arith, All, All-map, any_of, count_where, update_where, length, Bool-cases,
}
use zoa.Runtime.Tasks.Records.{Task}
use zoa.Runtime.Tasks.Cancel.{request_cancel, is_child, children}
use zoa.Runtime.Tasks.Preserve.{Shut}

abbrev pub in_list : ℕ → List ℕ → Bool
in_list x xs = any_of (λ v. v == x) xs

-- `expanded` are the visited ids that were live; the children of these are visited or queued, and
-- the visited tasks are shut.
abbrev pub Linked : List ℕ → List ℕ → List ℕ → Task → Type 0
Linked expanded visited queue t =
    (p : ℕ)
    → t.parent ≡ some p
    → in_list p expanded ≡ true
    → (in_list t.task_id visited ≡ true) ⊎ (in_list t.task_id queue ≡ true)

pub record Fine (expanded visited queue : List ℕ) (t : Task) : Type 0 where
  pub linked : Linked expanded visited queue t
  pub live : in_list t.task_id visited ≡ true → in_list t.task_id expanded ≡ true
  pub shut : in_list t.task_id visited ≡ true → Shut t

pub in_list-append_left :
    (x : ℕ) (xs ys : List ℕ) → in_list x xs ≡ true → in_list x (xs ++ ys) ≡ true
in_list-append_left x [] ys h = absurd (cc)
in_list-append_left x (y ∷ xs) ys h = ground (arith, in_list-append_left x xs ys)

pub in_list-append_right :
    (x : ℕ) (xs ys : List ℕ) → in_list x ys ≡ true → in_list x (xs ++ ys) ≡ true
in_list-append_right x [] ys h = h
in_list-append_right x (y ∷ xs) ys h = ground (arith, in_list-append_right x xs ys)

-- The children are in the list of the children.
abbrev pub ChildIn : ℕ → List ℕ → Task → Type 0
ChildIn id ids t = t.parent ≡ some id → in_list t.task_id ids ≡ true

is_child-parent : (id : ℕ) (t : Task) → t.parent ≡ some id → is_child id t ≡ true
is_child-parent id t e = rw e (ground arith)

children_cons :
    (id : ℕ) (t : Task) (ts : List Task)
    → is_child id t ≡ true
    → children id (t ∷ ts) ≡ t.task_id ∷ children id ts
children_cons id t ts e = rw e refl

children_skip :
    (id : ℕ) (t : Task) (ts : List Task)
    → is_child id t ≡ false
    → children id (t ∷ ts) ≡ children id ts
children_skip id t ts e = rw e refl

pub children_in : (id : ℕ) (ts : List Task) → All (ChildIn id (children id ts)) ts
children_in id [] = tt
children_in id (t ∷ ts) = elim (Bool-cases (is_child id t)) [
  | inl y ↦
      subst (λ ids. All (ChildIn id ids) (t ∷ ts)) (sym (children_cons id t ts y))
        (
          λ e. ground arith,
          All-map (ChildIn id (children id ts)) (ChildIn id (t.task_id ∷ children id ts)) ts
              (λ x k e. ground (arith, k e)) (children_in id ts),
        )
  | inr n ↦
      subst (λ ids. All (ChildIn id ids) (t ∷ ts)) (sym (children_skip id t ts n))
        (λ e. absurd (let y = is_child-parent id t e in cc), children_in id ts)
]

-- Not yet queued by its parent.
abbrev pub waiting : List ℕ → Task → Bool
waiting visited t = elim t.parent [ none ↦ true | some p ↦ not (in_list p visited) ]

pub waiting_le :
    (id : ℕ) (visited : List ℕ) (ts : List Task)
    → count_where (waiting (id ∷ visited)) ts ≤ count_where (waiting visited) ts
waiting_le id visited [] = omega arith
waiting_le id visited (t ∷ ts) = ground (arith, waiting_le id visited ts)

pub waiting_found :
    (id : ℕ) (visited : List ℕ) (ts : List Task)
    → in_list id visited ≡ false
    → length (children id ts)
        + count_where
            (waiting (id ∷ visited))
            (update_where (λ x. x.task_id == id) request_cancel ts)
      ≤ count_where (waiting visited) ts
waiting_found id visited [] fresh = omega arith
waiting_found id visited (t ∷ ts) fresh = ground (arith, waiting_found id visited ts fresh)

pub waiting_all : (visited : List ℕ) (ts : List Task) → count_where (waiting visited) ts ≤ length ts
waiting_all visited [] = omega arith
waiting_all visited (t ∷ ts) = ground (arith, waiting_all visited ts)
