-- ===== src/Gateway/Inputs/Entries.antt =====
-- What is read out of the entries that inboundPumpInputFromRecvInput of hub/util/gateway/functions.go
-- has written.
use zoa.Base.{ℕ, ◌≡◌, refl, false, Option, none, some}
use zoa.Base.Int.{ℤ}
use zoa.Base.Text.{Text, codes, text_eq, text_eq_refl, trim}
use zoa.Gateway.Tables.{Value, Fields}
use zoa.Gateway.Inputs.{
  field, Real, entry, filled, above_zero, seconds_value, not_zero, pump_fields,
}

abbrev pub or_else : Option Value → Option Value → Option Value
or_else none o = o
or_else (some v) o = some v

pub field-entry :
    (key : Text) (o : Option Value) (fields : Fields)
    → field (entry key o fields) key ≡ or_else o (field fields key)
field-entry key none fields = refl
field-entry key (some v) fields = rw (text_eq_refl key) refl

pub field-entry_other :
    (key other : Text) (o : Option Value) (fields : Fields)
    → text_eq key other ≡ false
    → field (entry key o fields) other ≡ field fields other
field-entry_other key other none fields h = refl
field-entry_other key other (some v) fields h = rw h refl

or_else-none : (o : Option Value) → or_else o none ≡ o
or_else-none none = refl
or_else-none (some v) = refl

module _ (cwd model : Text) (turns : ℤ) (timeout : Option ℕ) (temperature : Real) where
  abbrev pub written : Fields
  written = pump_fields cwd model turns timeout temperature

  pub field_cwd : field written (codes "cwd") ≡ filled (trim cwd)
  field_cwd = simp (field-entry, field-entry_other, or_else-none) refl

  pub field_model : field written (codes "model") ≡ filled (trim model)
  field_model = simp (field-entry, field-entry_other, or_else-none) refl

  pub field_turns : field written (codes "max_turns") ≡ above_zero turns
  field_turns = simp (field-entry, field-entry_other, or_else-none) refl

  pub field_timeout : field written (codes "timeout_sec") ≡ seconds_value timeout
  field_timeout = simp (field-entry, field-entry_other, or_else-none) refl

  pub field_temperature : field written (codes "temperature") ≡ not_zero temperature
  field_temperature = simp (field-entry, field-entry_other, or_else-none) refl
