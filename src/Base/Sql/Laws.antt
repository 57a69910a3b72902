-- ===== src/Base/Sql/Laws.antt =====
-- Rollback, and a rule of preservation for each way to build an operation.
use mathlib.Core.Path.{◌≡◌, refl}
use mathlib.Core.Logic.{◌⊎◌, inl, inr}
use mathlib.Core.List.{List, [], ◌∷◌}
use mathlib.Core.Option.{Option, none, some}
use native.Mathlib.Omega.{arith}
use zoa.Base.Sql.Monad.{Result, ok, err, Db, M, pure, ◌>>=◌, exec, query, transaction, finish}

-- `m` keeps what `P` says of the tables, however it ends.
abbrev pub Keeps : {T E A : Type 0} → (T → Type 0) → M T E A → Type 0
Keeps {T} {E} P m = (d : Db T E) → P d.tables → P (m d).1.tables

pub Result-cases :
    {E A : Type 0} (r : Result E A) → ((a : A) × (r ≡ ok a)) ⊎ ((e : E) × (r ≡ err e))
Result-cases (ok a) = inl (a, refl)
Result-cases (err e) = inr (e, refl)

module _ {T E A : Type 0} (P : T → Type 0) where
  pub pure-Keeps : (a : A) → Keeps {E = E} P (pure a)
  pure-Keeps a d h = h

  pub exec-Keeps : (f : T → A × T) → ((t : T) → P t → P (f t).1) → Keeps {E = E} P (exec f)
  unfolding exec
  exec-Keeps f keep d h = by_fault d.faults
    where
      by_fault : (fs : List (Option E)) → P (exec f (record d { faults = fs })).1.tables
      by_fault [] = keep d.tables h
      by_fault (none ∷ _) = keep d.tables h
      by_fault (some _ ∷ _) = h

  pub query-Keeps : (f : T → A) → Keeps {E = E} P (query f)
  unfolding query
  query-Keeps f d h = exec-Keeps (λ t. (f t, t)) (λ t k. k) d h

pub >>=-Keeps :
    {T E A B : Type 0} (P : T → Type 0) (m : M T E A) (f : A → M T E B)
    → Keeps P m
    → ((a : A) → Keeps P (f a))
    → Keeps P (m >>= f)
>>=-Keeps P m f km kf d h = elim (Result-cases (m d).0) [
  | inl (a, e) ↦ rw (e, ◌>>=◌) (kf a (m d).1 (km d h))
  | inr (x, e) ↦ rw (e, ◌>>=◌) (km d h)
]

-- One statement fails and leaves the tables alone, or its effect is there.
pub exec_cases :
    {T E A : Type 0} (f : T → A × T) (d : Db T E)
    → ((e : E) × ((exec f d).0 ≡ err e) × ((exec f d).1.tables ≡ d.tables))
      ⊎ (((exec f d).0 ≡ ok (f d.tables).0) × ((exec f d).1.tables ≡ (f d.tables).1))
unfolding exec
exec_cases f d = ground arith

finish_cases :
    {T E A : Type 0} (before : T) (r : Result E A × Db T E)
    → ((e : E) × ((finish before r).0 ≡ err e) × ((finish before r).1.tables ≡ before))
      ⊎ ((a : A) × (r.0 ≡ ok a)
          × ((finish before r).0 ≡ ok a)
          × ((finish before r).1.tables ≡ r.1.tables))
unfolding finish
finish_cases before (err e, d) = inl (e, refl, refl)
finish_cases before (ok a, d) = ground (arith, exec_cases (λ (t : _). (tt {0}, t)) d)

started :
    {T E A : Type 0} (m : M T E A) (t : T) (fs : List (Option E))
    → let d : Db T E = record { tables = t; faults = fs } in
      ((e : E) × ((transaction m d).0 ≡ err e) × ((transaction m d).1.tables ≡ t))
      ⊎ ((fs' : List (Option E)) × (a : A) × (let r = m (record { tables = t; faults = fs' }) in
            (r.0 ≡ ok a)
            × ((transaction m d).0 ≡ ok a)
            × ((transaction m d).1.tables ≡ r.1.tables)))
unfolding transaction exec
started m t [] = elim (finish_cases t (m (record { tables = t; faults = [] }))) [
  | inl failed ↦ inl failed
  | inr (a, p, q, r) ↦ inr ([], a, (p, q, r))
]
started m t (none ∷ fs) = elim (finish_cases t (m (record { tables = t; faults = fs }))) [
  | inl failed ↦ inl failed
  | inr (a, p, q, r) ↦ inr (fs, a, (p, q, r))
]
started m t (some e ∷ fs) = inl (e, refl, refl)

-- A transaction fails and leaves the tables alone, or its body has run on them to its end.
pub transaction_cases :
    {T E A : Type 0} (m : M T E A) (d : Db T E)
    → ((e : E) × ((transaction m d).0 ≡ err e) × ((transaction m d).1.tables ≡ d.tables))
      ⊎ ((fs : List (Option E)) × (a : A) × (let r = m (record d { faults = fs }) in
            (r.0 ≡ ok a)
            × ((transaction m d).0 ≡ ok a)
            × ((transaction m d).1.tables ≡ r.1.tables)))
unfolding transaction exec
transaction_cases m d = started m d.tables d.faults

pub transaction-Keeps :
    {T E A : Type 0} (P : T → Type 0) (m : M T E A) → Keeps P m → Keeps P (transaction m)
transaction-Keeps P m keep d h = elim (transaction_cases m d) [
  | inl (e, _, q) ↦ rw q h
  | inr (fs, a, q) ↦ rw (q.2) (keep (record d { faults = fs }) h)
]
