-- ===== src/Gateway/Inputs/Chat.antt =====
-- What processChatMessage of hub/util/gateway/functions.go runs with.
use zoa.Base.{ℕ, zero, suc, Bool, false, Option, none, some, ◌++◌, if◌then◌else◌}
use zoa.Base.Int.{ℤ, pos, negsuc}
use zoa.Base.Text.{Text, codes, is_empty, trim}
use zoa.Base.Sql.{ok, err}
use zoa.Gateway.Tables.{Fields, message}
use zoa.Gateway.Inputs.{
  Checked, ◌>>?◌, field, string_input, int_input, float_input, Real, is_zero, timeout_field,
}

-- What processChatMessage needs of internal/agentloop/model: which models there are, their credentials,
-- the default model and its settings;
-- and strconv.Quote.
pub record Models : Type 0 where
  pub default_model : Text
  pub default_turns : ℕ
  pub default_temperature : Real
  pub is_supported : Text → Bool
  pub credential : Text → Option Text
  pub missing_credential : Text → Text
  pub quoted : Text → Text

-- What processChatMessage runs with; no cwd stands for the directory of the process.
pub record Chat : Type 0 where
  pub model : Text
  pub api_key : Text
  pub cwd : Option Text
  pub max_turns : ℕ
  pub temperature : Real
  pub timeout_sec : ℕ

abbrev pub with_key : Models → Text → Option Text → Checked (Text × Text)
with_key models model none = err (message (models.missing_credential model))
with_key models model (some key) = ok (model, key)

abbrev pub with_model : Models → Text → Checked (Text × Text)
with_model models model =
    if models.is_supported model
    then with_key models model (models.credential model)
    else err (message (codes "unsupported model " ++ models.quoted model))

abbrev pub model_or_default : Models → Text → Text
model_or_default models s = if is_empty (trim s) then trim models.default_model else trim s

abbrev pub turns_or : ℕ → ℤ → ℕ
turns_or default (pos zero) = default
turns_or default (pos (suc n)) = suc n
turns_or default (negsuc n) = default

abbrev pub temperature_or : Real → Real → Real
temperature_or default (n, k) = if is_zero n then default else (n, k)

abbrev pub timeout_or : ℕ → Option ℕ → ℕ
timeout_or default none = default
timeout_or default (some n) = n

abbrev pub directory : Text → Option Text
directory s = if is_empty (trim s) then none else some s

abbrev pub chat_of : Models → Text × Text → Text → ℤ → Real → Option ℕ → Chat
chat_of models model cwd turns temperature timeout = record {
  model = model.0;
  api_key = model.1;
  cwd = directory cwd;
  max_turns = turns_or models.default_turns turns;
  temperature = temperature_or models.default_temperature temperature;
  timeout_sec = timeout_or 3600 timeout;
}

-- What is read behind the model and its credential.
unfoldable pub chat_with : Models → Fields → Text × Text → Checked Chat
unfolding string_input int_input float_input
chat_with models fields model = string_input fields (codes "cwd") false >>? λ cwd.
    (int_input fields (codes "max_turns") false >>? λ turns.
    (float_input fields (codes "temperature") false >>? λ temperature.
    (timeout_field (field fields (codes "timeout_sec")) >>? λ timeout.
    ok (chat_of models model cwd turns temperature timeout))))

-- processChatMessage up to the tools, but for os.Getwd and filepath.Abs of the directory
unfoldable pub chat_settings : Models → Fields → Checked Chat
unfolding string_input chat_with
chat_settings models fields = string_input fields (codes "model") false >>? λ s.
    (with_model models (model_or_default models s) >>? chat_with models fields)
