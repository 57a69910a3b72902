-- ===== src/Credentials/Tests.antt =====
-- A small dotenv file, and the models.
use zoa.Base.{◌≡◌, refl, ◌∷◌, [], List, Option, none, some}
use zoa.Base.Text.{Text, codes, trim, trim_left, is_space}
use zoa.Base.Sql.{ok}
use zoa.Credentials.Keys.{
  Env, variable, line_of, parse_value, found_value, read_line, read_key, load_line, load,
  resolve_key, resolve_nearest,
}
use zoa.Credentials.Agreement.{load-read_key}
use zoa.Credentials.Models.{infer_provider, resolve_credential}

abbrev dotenv : List Text
dotenv =
    codes "# keys"
    ∷ codes "export GEMINI_API_KEY = 'abc' "
    ∷ codes "OTHER=x # a comment"
    ∷ codes "OTHER=y"
    ∷ []

abbrev unquote : Text → Option Text
unquote s = none

abbrev loaded : Env
loaded = (codes "OTHER", codes "x") ∷ (codes "GEMINI_API_KEY", codes "abc") ∷ []

loads : load unquote dotenv [] ≡ ok loaded
unfolding load load_line line_of parse_value trim trim_left is_space
loads = refl

load-read_key_example :
    read_key unquote dotenv (codes "OTHER") ≡ found_value (variable loaded (codes "OTHER"))
load-read_key_example = load-read_key unquote dotenv (codes "OTHER") [] loaded loads refl

abbrev nearest : Text → Text
nearest name = resolve_nearest unquote [] [] (dotenv ∷ []) (name ∷ [])

resolves : resolve_credential nearest [] (codes "gemini-3-flash-preview") ≡ some (codes "abc")
unfolding resolve_credential infer_provider resolve_nearest resolve_key read_key read_line line_of
    parse_value trim trim_left is_space
resolves = refl
