-- ===== src/Tools/Args.antt =====
-- The arguments of a call: StringArg, IntArg and BoolArg of internal/agentloop/tools/types.go, and
-- its Registry.
use zoa.Base.{Bool, true, false, ◌&&◌, Option, none, some, List, [], ◌∷◌, ◌++◌, if◌then◌else◌}
use zoa.Base.Int.{ℤ, pos}
use zoa.Base.Text.{Text, codes, text_eq, is_empty}
use zoa.Base.Sql.{Result, ok, err}

-- A value of `map[string]any`. A number is the int that Go's conversion makes of it.
pub data Value : Type 0 where
  text : Text → Value
  number : ℤ → Value
  flag : Bool → Value
  other : Value

abbrev pub Args : Type 0
Args = List (Text × Value)

abbrev pub value_of : Args → Text → Option Value
value_of [] key = none
value_of ((k, v) ∷ args) key = if text_eq k key then some v else value_of args key

abbrev pub Checked : Type 0 → Type 0
Checked = Result Text

infixl 5 ◌>>=◌
abbrev pub ◌>>=◌ : {A B : Type 0} → Checked A → (A → Checked B) → Checked B
ok a >>= f = f a
err e >>= f = err e

abbrev pub absent : {A : Type 0} → A → Text → Bool → Checked A
absent a key true = err (codes "missing required field: " ++ key)
absent a key false = ok a

abbrev pub string_value : Option Value → Text → Bool → Checked Text
string_value none key required = absent [] key required
string_value (some (text s)) key required =
    if required && is_empty s then err (key ++ codes " cannot be empty") else ok s
string_value (some (number n)) key required = err (key ++ codes " must be a string")
string_value (some (flag b)) key required = err (key ++ codes " must be a string")
string_value (some other) key required = err (key ++ codes " must be a string")

abbrev pub int_value : Option Value → Text → Bool → Checked ℤ
int_value none key required = absent (pos 0) key required
int_value (some (number n)) key required = ok n
int_value (some (text s)) key required = err (key ++ codes " must be a number")
int_value (some (flag b)) key required = err (key ++ codes " must be a number")
int_value (some other) key required = err (key ++ codes " must be a number")

abbrev pub bool_value : Option Value → Text → Bool → Checked Bool
bool_value none key required = absent false key required
bool_value (some (flag b)) key required = ok b
bool_value (some (text s)) key required = err (key ++ codes " must be a boolean")
bool_value (some (number n)) key required = err (key ++ codes " must be a boolean")
bool_value (some other) key required = err (key ++ codes " must be a boolean")

-- StringArg
unfoldable pub string_arg : Args → Text → Bool → Checked Text
string_arg args key required = string_value (value_of args key) key required

-- IntArg
unfoldable pub int_arg : Args → Text → Bool → Checked ℤ
int_arg args key required = int_value (value_of args key) key required

-- BoolArg
unfoldable pub bool_arg : Args → Text → Bool → Checked Bool
bool_arg args key required = bool_value (value_of args key) key required
