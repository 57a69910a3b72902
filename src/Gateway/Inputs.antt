-- ===== src/Gateway/Inputs.antt =====
-- What the gateway reads out of the input of a call: hub/helpers.go, and gatewaySessionInput and
-- inboundPumpInputFromRecvInput of hub/util/gateway/functions.go. A map is the list of its entries.
pub mod Chat
pub mod Entries
pub mod Settings
use zoa.Base.{
  ℕ, zero, suc, ◌+◌, ◌/◌, ◌^◌, Bool, true, false, ◌&&◌, ◌==◌, Option, none, some, List, [], ◌∷◌,
  ◌++◌, if◌then◌else◌,
}
use zoa.Base.Int.{ℤ, pos, negsuc, pos_part}
use zoa.Base.Text.{Text, codes, text_eq, is_empty, trim}
use zoa.Base.Sql.{Result, ok, err, pure, raise}
use zoa.Gateway.Tables.{Value, string, flag, whole, real, other, Fields, Error, message, Action}

abbrev pub Checked : Type 0 → Type 0
Checked = Result Error

infixl 5 ◌>>?◌
abbrev pub ◌>>?◌ : {A B : Type 0} → Checked A → (A → Checked B) → Checked B
ok a >>? f = f a
err e >>? f = err e

abbrev pub lift : {A : Type 0} → Checked A → Action A
lift (ok a) = pure a
lift (err e) = raise e

abbrev pub field : Fields → Text → Option Value
field [] key = none
field ((k, v) ∷ fields) key = if text_eq k key then some v else field fields key

abbrev pub refused : {A : Type 0} → Text → Text → Checked A
refused key what = err (message (codes "input " ++ (key ++ what)))

abbrev pub missing : {A : Type 0} → A → Text → Bool → Checked A
missing a key true = err (message (codes "missing required input: " ++ key))
missing a key false = ok a

abbrev pub string_field : Option Value → Text → Bool → Checked Text
string_field none key required = missing [] key required
string_field (some (string s)) key required =
    if required && is_empty s then refused key (codes " cannot be empty") else ok s
string_field (some (flag b)) key required = refused key (codes " must be string")
string_field (some (whole n)) key required = refused key (codes " must be string")
string_field (some (real n k)) key required = refused key (codes " must be string")
string_field (some other) key required = refused key (codes " must be string")

-- StringInput
unfoldable pub string_input : Fields → Text → Bool → Checked Text
string_input fields key required = string_field (field fields key) key required

abbrev pub flag_field : Option Value → Text → Bool → Checked Bool
flag_field none key required = missing false key required
flag_field (some (flag b)) key required = ok b
flag_field (some (string s)) key required = refused key (codes " must be bool")
flag_field (some (whole n)) key required = refused key (codes " must be bool")
flag_field (some (real n k)) key required = refused key (codes " must be bool")
flag_field (some other) key required = refused key (codes " must be bool")

-- BoolInput
unfoldable pub bool_input : Fields → Text → Bool → Checked Bool
bool_input fields key required = flag_field (field fields key) key required

-- -(n)
abbrev pub negative : ℕ → ℤ
negative zero = pos 0
negative (suc n) = negsuc n

-- int64 of a float64: towards zero
abbrev pub truncated : ℤ → ℕ → ℤ
truncated (pos n) k = pos (n / 2 ^ k)
truncated (negsuc n) k = negative (suc n / 2 ^ k)

abbrev pub int_field : Option Value → Text → Bool → Checked ℤ
int_field none key required = missing (pos 0) key required
int_field (some (whole n)) key required = ok n
int_field (some (real n k)) key required = ok (truncated n k)
int_field (some (string s)) key required = refused key (codes " must be integer")
int_field (some (flag b)) key required = refused key (codes " must be integer")
int_field (some other) key required = refused key (codes " must be integer")

-- Int64Input, and IntInput, whose int has 64 bits too
unfoldable pub int_input : Fields → Text → Bool → Checked ℤ
int_input fields key required = int_field (field fields key) key required

-- A float64: n / 2 ^ k
abbrev pub Real : Type 0
Real = ℤ × ℕ

abbrev pub real_field : Option Value → Text → Bool → Checked Real
real_field none key required = missing (pos 0, 0) key required
real_field (some (real n k)) key required = ok (n, k)
real_field (some (whole n)) key required = ok (n, 0)
real_field (some (string s)) key required = refused key (codes " must be number")
real_field (some (flag b)) key required = refused key (codes " must be number")
real_field (some other) key required = refused key (codes " must be number")

-- FloatInput
unfoldable pub float_input : Fields → Text → Bool → Checked Real
float_input fields key required = real_field (field fields key) key required

abbrev pub session_or_default : Text → Text
session_or_default s = if is_empty s then codes "default" else s

-- gatewaySessionInput, with normalizeSession
unfoldable pub gateway_session : Fields → Checked Text
unfolding string_input
gateway_session fields =
    string_input fields (codes "session") false >>? λ s. ok (session_or_default (trim s))

-- `out[key] = …` under a condition
abbrev pub entry : Text → Option Value → Fields → Fields
entry key none fields = fields
entry key (some v) fields = (key, v) ∷ fields

abbrev pub filled : Text → Option Value
filled s = if is_empty s then none else some (string s)

abbrev pub above_zero : ℤ → Option Value
above_zero (pos zero) = none
above_zero (pos (suc n)) = some (whole (pos (suc n)))
above_zero (negsuc n) = none

abbrev pub not_negative : ℤ → Checked ℕ
not_negative (pos n) = ok n
not_negative (negsuc n) = err (message (codes "timeout_sec must be >= 0"))

-- The timeout, where the map has one.
abbrev pub timeout_field : Option Value → Checked (Option ℕ)
timeout_field none = ok none
timeout_field (some v) =
    int_field (some v) (codes "timeout_sec") false >>? λ n. (not_negative n >>? λ s. ok (some s))

abbrev pub seconds_value : Option ℕ → Option Value
seconds_value none = none
seconds_value (some n) = some (whole (pos n))

abbrev pub is_zero : ℤ → Bool
is_zero (pos n) = n == 0
is_zero (negsuc n) = false

abbrev pub not_zero : Real → Option Value
not_zero (n, k) = if is_zero n then none else some (real n k)

abbrev pub pump_fields : Text → Text → ℤ → Option ℕ → Real → Fields
pump_fields cwd model turns timeout temperature = entry (codes "cwd") (filled (trim cwd)) (
    entry (codes "model") (filled (trim model)) (
      entry (codes "max_turns") (above_zero turns) (
        entry (codes "timeout_sec") (seconds_value timeout)
          (entry (codes "temperature") (not_zero temperature) []))))

-- inboundPumpInputFromRecvInput
unfoldable pub pump_input : Fields → Checked Fields
unfolding string_input int_input float_input
pump_input fields = string_input fields (codes "cwd") false >>? λ cwd.
    (string_input fields (codes "model") false >>? λ model.
    (int_input fields (codes "max_turns") false >>? λ turns.
    (timeout_field (field fields (codes "timeout_sec")) >>? λ timeout.
    (float_input fields (codes "temperature") false >>? λ temperature.
    ok (pump_fields cwd model turns timeout temperature)))))
