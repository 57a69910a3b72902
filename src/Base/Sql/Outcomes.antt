-- ===== src/Base/Sql/Outcomes.antt =====
-- Two ways to say what an operation does. An Outcome fails without effect on the tables `t`, or succeeds
-- with `R` of the result and the tables. Succeeds speaks of success alone, for the body of a
-- transaction, whose effects a failure undoes.
use mathlib.Core.Path.{◌≡◌, refl, sym, subst, ◌∙◌}
use mathlib.Core.Logic.{◌⊎◌, inl, inr}
use mathlib.Core.List.{List}
use mathlib.Core.Option.{Option}
use native.Mathlib.Omega.{arith}
use zoa.Base.Sql.Monad.{Result, ok, err, Db, M, pure, raise, ◌>>=◌, exec, query, transaction}
use zoa.Base.Sql.Laws.{Result-cases, exec_cases, transaction_cases}

module _ {T E A : Type 0} where
  abbrev pub Outcome : T → (A → T → Type 0) → Result E A × Db T E → Type 0
  Outcome t R r =
      ((e : E) × (r.0 ≡ err e) × (r.1.tables ≡ t)) ⊎ ((a : A) × (r.0 ≡ ok a) × R a r.1.tables)

  abbrev pub Succeeds : (A → T → Type 0) → Result E A × Db T E → Type 0
  Succeeds R r = (a : A) → r.0 ≡ ok a → R a r.1.tables

  pub map-Outcome :
      (t u : T) (R S : A → T → Type 0) (r : Result E A × Db T E)
      → t ≡ u
      → ((a : A) → R a r.1.tables → S a r.1.tables)
      → Outcome t R r
      → Outcome u S r
  map-Outcome t u R S r same f (inl (e, p, q)) = inl (e, p, q ∙ same)
  map-Outcome t u R S r same f (inr (a, p, q)) = inr (a, p, f a q)

  pub pure-Outcome :
      (t : T) (R : A → T → Type 0) (a : A) (d : Db T E) → R a d.tables → Outcome t R (pure a d)
  pure-Outcome t R a d h = inr (a, refl, h)

  pub exec-Outcome :
      (f : T → A × T) (d : Db T E)
      → Outcome d.tables (λ a t. (a ≡ (f d.tables).0) × (t ≡ (f d.tables).1)) (exec f d)
  exec-Outcome f d = elim (exec_cases f d) [
    | inl failed ↦ inl failed
    | inr (p, q) ↦ inr ((f d.tables).0, p, (refl, q))
  ]

  pub query-Outcome :
      (f : T → A) (d : Db T E)
      → Outcome d.tables (λ a t. (a ≡ f d.tables) × (t ≡ d.tables)) (query f d)
  unfolding query
  query-Outcome f d = exec-Outcome (λ t. (f t, t)) d

  pub raise-Succeeds : (R : A → T → Type 0) (e : E) (d : Db T E) → Succeeds R (raise e d)
  raise-Succeeds R e d a h = absurd (cc)

  pub Outcome-Succeeds :
      (t : T) (R : A → T → Type 0) (r : Result E A × Db T E) → Outcome t R r → Succeeds R r
  Outcome-Succeeds t R r (inl (e, p, q)) a h = absurd (cc)
  Outcome-Succeeds t R r (inr (b, p, q)) a h =
      let same : b ≡ a = ground arith in subst (λ k. R k r.1.tables) same q

  pub transaction-Outcome :
      (R : A → T → Type 0) (m : M T E A) (d : Db T E)
      → ((fs : List (Option E)) → Succeeds R (m (record d { faults = fs })))
      → Outcome d.tables R (transaction m d)
  transaction-Outcome R m d body = elim (transaction_cases m d) [
    | inl failed ↦ inl failed
    | inr (fs, a, (ran, p, q)) ↦ inr (a, p, subst (R a) (sym q) (body fs a ran))
  ]

module _ {T E A B : Type 0} (m : M T E A) (f : A → M T E B) (d : Db T E) where
  pub bind_ok : (a : A) → (m d).0 ≡ ok a → (m >>= f) d ≡ f a (m d).1
  bind_ok a e = rw (e, ◌>>=◌) refl

  pub bind_err : (x : E) → (m d).0 ≡ err x → (m >>= f) d ≡ (err x, (m d).1)
  bind_err x e = rw (e, ◌>>=◌) refl

  pub >>=-Succeeds :
      (S : A → T → Type 0) (R : B → T → Type 0)
      → Succeeds S (m d)
      → ((a : A) (d' : Db T E) → S a d'.tables → Succeeds R (f a d'))
      → Succeeds R ((m >>= f) d)
  >>=-Succeeds S R first next = elim (Result-cases (m d).0) [
    | inl (a, e) ↦ rw (bind_ok a e) (next a (m d).1 (first a e))
    | inr (x, e) ↦ rw (bind_err x e) (raise-Succeeds R x (m d).1)
  ]

  -- After a step that fails without effect, or has none that matters to `next`.
  pub >>=-Outcome :
      (t : T) (S : A → T → Type 0) (R : B → T → Type 0)
      → Outcome t S (m d)
      → ((a : A) (d' : Db T E) → S a d'.tables → Outcome t R (f a d'))
      → Outcome t R ((m >>= f) d)
  >>=-Outcome t S R (inl (x, e, q)) next = rw (bind_err x e) (inl (x, refl, q))
  >>=-Outcome t S R (inr (a, e, q)) next = rw (bind_ok a e) (next a (m d).1 q)
