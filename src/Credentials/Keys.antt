-- ===== src/Credentials/Keys.antt =====
-- internal/keys/keys.go. A dotenv file is the list of the lines that bufio.Scanner gives; strconv.Unquote
-- is an argument.
use zoa.Base.{
  ℕ, Bool, ◌||◌, Option, none, some, List, [], ◌∷◌, ◌++◌, ◌==◌, if◌then◌else◌, any_of, drop,
}
use zoa.Base.Text.{Text, codes, text_eq, is_empty, trim, has_prefix}
use zoa.Base.Sql.{Result, ok, err}

-- The environment: its variables, each once.
abbrev pub Env : Type 0
Env = List (Text × Text)

abbrev pub variable : Env → Text → Option Text
variable [] name = none
variable ((n, v) ∷ env) name = if text_eq n name then some v else variable env name

-- os.Getenv
abbrev pub value_or_empty : Option Text → Text
value_or_empty none = []
value_or_empty (some v) = v

-- The text before the first `=`, and the text behind it.
abbrev pub split_equals : Text → Option (Text × Text)
split_equals [] = none
split_equals (c ∷ s) = let rest = split_equals s in if c == b'=' then some ([], s) else grown c rest
  where
    grown : ℕ → Option (Text × Text) → Option (Text × Text)
    grown c none = none
    grown c (some (key, value)) = some (c ∷ key, value)

-- A line of the file: nothing to read, no `=`, or a name and the text of its value.
pub data Line : Type 0 where
  blank malformed : Line
  assigned : Text → Text → Line

abbrev pub line_of_pair : Option (Text × Text) → Line
line_of_pair none = malformed
line_of_pair (some (key, value)) = assigned (trim key) (trim value)

abbrev pub without_export : Text → Text
without_export line = if has_prefix line (codes "export ") then trim (drop 7 line) else line

unfoldable pub line_of : Text → Line
line_of line =
    let text = trim line in
    if is_empty text || has_prefix text (codes "#")
    then blank
    else line_of_pair (split_equals (without_export text))

-- The text up to the first " #".
abbrev pub before_comment : Text → Text
before_comment [] = []
before_comment (c ∷ s) =
    let rest = before_comment s in if has_prefix (c ∷ s) (codes " #") then [] else c ∷ rest

-- The text before a final quote.
abbrev pub without_quote : Text → Option Text
without_quote [] = none
without_quote (c ∷ []) = if c == b'\'' then some [] else none
without_quote (c ∷ d ∷ s) = grown c (without_quote (d ∷ s))
  where
    grown : ℕ → Option Text → Option Text
    grown c none = none
    grown c (some s) = some (c ∷ s)

abbrev pub found_value : Option Text → Option Text
found_value none = none
found_value (some v) = if is_empty (trim v) then none else some (trim v)

-- os.Setenv, which refuses an empty name and zero bytes.
abbrev pub has_zero : Text → Bool
has_zero = any_of λ c. c == 0

abbrev pub set_variable : Text → Text → Env → Result Text Env
set_variable name value env =
    if has_zero name || has_zero value then err (codes "set " ++ name) else ok ((name, value) ∷ env)

abbrev pub set_absent : Option Text → Text → Text → Env → Result Text Env
set_absent none name value env = set_variable name value env
set_absent (some v) name value env = ok env

abbrev pub set_parsed : Text → Option Text → Env → Result Text Env
set_parsed name none env = err (codes "invalid value")
set_parsed name (some value) env = set_absent (variable env name) name value env

abbrev pub then_load : Result Text Env → (Env → Result Text Env) → Result Text Env
then_load (err e) f = err e
then_load (ok env) f = f env

-- The first of the variables with a value that is not blank.
abbrev pub first_value : Env → List Text → Text
first_value env [] = []
first_value env (name ∷ names) =
    let rest = first_value env names in
    let value = trim (value_or_empty (variable env (trim name))) in
    if is_empty (trim name) || is_empty value then rest else value

-- Resolve
unfoldable pub resolve_key : Text → Env → List Text → Text
resolve_key explicit env names =
    if is_empty (trim explicit) then first_value env names else trim explicit

abbrev pub or_next : Option Text → Option Text → Option Text
or_next none o = o
or_next (some v) o = some v

module _ (unquote : Text → Option Text) where
  -- parseDotEnvValue
  unfoldable pub parse_value : Text → Option Text
  parse_value raw =
      let text = trim raw in
      if is_empty text
      then some []
      else if has_prefix text (codes "\"")
      then unquote text
      else if has_prefix text (codes "'")
      then without_quote (drop 1 text)
      else some (trim (before_comment text))

  -- readDotEnvKey on one line, where `rest` is what the lines after it give
  unfoldable pub read_line : Line → Text → Option Text → Option Text
  read_line blank key rest = rest
  read_line malformed key rest = rest
  read_line (assigned name raw) key rest =
      if text_eq name key then found_value (parse_value raw) else rest

  unfoldable pub read_key : List Text → Text → Option Text
  unfolding read_line line_of
  read_key [] key = none
  read_key (line ∷ lines) key = read_line (line_of line) key (read_key lines key)

  -- One line of LoadDotEnv.
  unfoldable pub load_line : Line → Env → Result Text Env
  unfolding parse_value
  load_line blank env = ok env
  load_line malformed env = err (codes "expected KEY=VALUE")
  load_line (assigned name raw) env =
      if is_empty name then err (codes "empty key") else set_parsed name (parse_value raw) env

  -- LoadDotEnv of a file that is there and is read to its end
  unfoldable pub load : List Text → Env → Result Text Env
  unfolding load_line line_of
  load [] env = ok env
  load (line ∷ lines) env = then_load (load_line (line_of line) env) (load lines)

  abbrev pub first_in_file : List Text → List Text → Option Text
  first_in_file lines [] = none
  first_in_file lines (name ∷ names) =
      let rest = first_in_file lines names in
      if is_empty (trim name) then rest else or_next (read_key lines (trim name)) rest

  -- The .env files of the directories from the working directory upwards, those that can be opened.
  abbrev pub first_in_files : List (List Text) → List Text → Option Text
  first_in_files [] names = none
  first_in_files (lines ∷ files) names =
      or_next (first_in_file lines names) (first_in_files files names)

  -- ResolveWithNearestDotEnv
  unfoldable pub resolve_nearest : Text → Env → List (List Text) → List Text → Text
  unfolding resolve_key read_key
  resolve_nearest explicit env files names =
      let value = resolve_key explicit env names in
      if is_empty value then value_or_empty (first_in_files files names) else value
