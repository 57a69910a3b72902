-- ===== src/Runtime/Log/Schema.antt =====
-- Init of runtime/log.go: the tables as they were left by an earlier version of the program.
use zoa.Base.{
  Bool, true, false, not, Option, none, some, List, [], ◌∷◌, ◌++◌, map, ◌==◌, if◌then◌else◌,
}
use zoa.Base.Text.{Text}
use zoa.Base.Sql.{Result, ok, Db, M, pure, ◌>>=◌, exec, query}
use zoa.Runtime.Log.{Row}

-- A table: its rows, and whether it has the column hide_by_default.
pub record Table : Type 0 where
  pub rows : List Row
  pub has_hide : Bool

-- The database: lmfrt__task_log, runtime__task_log, and the indexes of the two.
pub record Schema : Type 0 where
  pub old : Option Table
  pub log : Option Table
  pub old_index : Bool
  pub index : Bool

abbrev pub is_some : {A : Type 0} → Option A → Bool
is_some none = false
is_some (some a) = true

-- quoteSQLiteIdentifier: a quotation mark is written twice.
abbrev pub doubled : Text → Text
doubled [] = []
doubled (c ∷ s) = let rest = doubled s in if c == b'"' then b'"' ∷ b'"' ∷ rest else c ∷ rest

abbrev pub quote_sqlite_identifier : Text → Text
quote_sqlite_identifier name = b'"' ∷ (doubled name ++ (b'"' ∷ []))

-- ALTER TABLE ... RENAME
abbrev pub rename_table : Schema → Schema
rename_table s = record s { log = s.old; old = none }

-- An error of this statement is not looked at.
abbrev pub drop_old_index : Db Schema Text → Result Text (Unit {0}) × Db Schema Text
drop_old_index d =
    let r = exec (λ (s : Schema). (tt {0}, record s { old_index = false })) d in (ok tt, r.1)

abbrev pub unless : Bool → M Schema Text (Unit {0}) → M Schema Text (Unit {0})
unless true m = pure tt
unless false m = m

-- The two statements of the migration.
abbrev pub rename_old : M Schema Text (Unit {0})
rename_old = exec (λ s. (tt {0}, rename_table s)) >>= λ _. drop_old_index

-- migrateFromLmfrt
unfoldable pub migrate_from_lmfrt : M Schema Text (Unit {0})
migrate_from_lmfrt = query (λ (s : Schema). is_some s.old) >>= λ old.
    unless (not old) (query (λ (s : Schema). is_some s.log) >>= λ new. unless new rename_old)

abbrev pub empty_table : Table
empty_table = record { rows = []; has_hide = true }

abbrev pub or_new_table : Option Table → Option Table
or_new_table none = some empty_table
or_new_table (some t) = some t

-- CREATE TABLE IF NOT EXISTS
abbrev pub create_table : M Schema Text (Unit {0})
create_table = exec λ s. (tt {0}, record s { log = or_new_table s.log })

abbrev pub table_has_hide : Option Table → Bool
table_has_hide none = false
table_has_hide (some t) = t.has_hide

-- The rows get the default of the new column.
abbrev pub shown : Row → Row
shown r = record r { hide_by_default = 0 }

abbrev pub with_hide : Option Table → Option Table
with_hide none = none
with_hide (some t) = some (record t { rows = map shown t.rows; has_hide = true })

-- ensureColumn for hide_by_default, with tableHasColumn
unfoldable pub ensure_column : M Schema Text (Unit {0})
ensure_column = query (λ (s : Schema). table_has_hide s.log) >>= λ has.
    unless has (exec λ s. (tt {0}, record s { log = with_hide s.log }))

abbrev pub create_index : M Schema Text (Unit {0})
create_index = exec λ s. (tt {0}, record s { index = true })

-- Init
unfoldable pub init : M Schema Text (Unit {0})
init = migrate_from_lmfrt >>= λ _. (create_table >>= λ _. (ensure_column >>= λ _. create_index))
