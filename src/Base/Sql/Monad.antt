-- ===== src/Base/Sql/Monad.antt =====
-- The state is the tables and the outcomes of the statements to come.
use mathlib.Core.Option.{Option, none, some}
use mathlib.Core.List.{List, [], ◌∷◌}

pub data Result (E A : Type 0) : Type 0 where
  ok : A → Result E A
  err : E → Result E A

-- A `some e` in `faults` makes the statement that takes it fail with `e`.
pub record Db (T E : Type 0) : Type 0 where
  pub tables : T
  pub faults : List (Option E)

abbrev pub M : Type 0 → Type 0 → Type 0 → Type 0
M T E A = Db T E → Result E A × Db T E

module _ {T E A : Type 0} where
  abbrev pub pure : A → M T E A
  pure a d = (ok a, d)

  abbrev pub raise : E → M T E A
  raise e d = (err e, d)

infixl 5 ◌>>=◌ ◌>>◌
abbrev pub ◌>>=◌ : {T E A B : Type 0} → M T E A → (A → M T E B) → M T E B
◌>>=◌ m f d = let (r, d') = m d in elim r [ ok a ↦ f a d' | err e ↦ (err e, d') ]

abbrev pub ◌>>◌ : {T E A B : Type 0} → M T E A → M T E B → M T E B
m >> k = m >>= λ _. k

module _ {T E A : Type 0} where
  exec_with : List (Option E) → (T → A × T) → T → Result E A × Db T E
  exec_with [] f t = let (a, t') = f t in (ok a, record { tables = t'; faults = [] })
  exec_with (none ∷ rest) f t = let (a, t') = f t in (ok a, record { tables = t'; faults = rest })
  exec_with (some e ∷ rest) f t = (err e, record { tables = t; faults = rest })

  -- One statement that writes.
  unfoldable pub exec : (T → A × T) → M T E A
  unfolding exec_with
  exec f d = exec_with d.faults f d.tables

  -- One statement that reads.
  unfoldable pub query : (T → A) → M T E A
  unfolding exec
  query f = exec (λ t. (f t, t))

-- Commit, or restore the tables.
commit : {T E A : Type 0} → T → A → Result E (Unit {0}) × Db T E → Result E A × Db T E
commit before a (ok _, d) = (ok a, d)
commit before a (err e, d) = (err e, record d { tables = before })

unfoldable pub finish : {T E A : Type 0} → T → Result E A × Db T E → Result E A × Db T E
unfolding commit
finish before (err e, d) = (err e, record d { tables = before })
finish before (ok a, d) = commit before a (exec (λ t. (tt, t)) d)

begin : {T E A : Type 0} → M T E A → T → Result E (Unit {0}) × Db T E → Result E A × Db T E
unfolding finish
begin body before (ok _, d) = finish before (body d)
begin body before (err e, d) = (err e, d)

-- `BeginTx`, the body, then `Commit`, or `Rollback` where the body or the commit fails.
unfoldable pub transaction : {T E A : Type 0} → M T E A → M T E A
unfolding begin
transaction body d = begin body d.tables (exec (λ t. (tt, t)) d)
