-- ===== src/Credentials/Models.antt =====
-- internal/agentloop/model: provider.go, defaults.go and credential.go. `nearest` is
-- keys.ResolveWithNearestDotEnv with no explicit value, for one variable.
use zoa.Base.{
  ◌≡◌, Bool, true, false, Option, none, some, List, [], ◌∷◌, ◌++◌, any_of, if◌then◌else◌, arith,
}
use zoa.Base.Int.{pos}
use zoa.Base.Text.{Text, codes, text_eq, is_empty, trim}
use zoa.Gateway.Inputs.Chat.{Models}

-- Provider; the empty one is `unknown`.
pub data Provider : Type 0 where
  gemini anthropic unknown : Provider

abbrev pub anthropic_models : List Text
anthropic_models = codes "claude-sonnet-4-6" ∷ codes "claude-opus-4-6" ∷ []

abbrev pub gemini_models : List Text
gemini_models = codes "gemini-3.1-pro-preview" ∷ codes "gemini-3-flash-preview" ∷ []

abbrev pub supported_model_names : List Text
supported_model_names = anthropic_models ++ gemini_models

unfoldable pub is_supported_model : Text → Bool
is_supported_model model = any_of (text_eq (trim model)) supported_model_names

unfoldable pub infer_provider : Text → Provider
infer_provider model =
    if any_of (text_eq (trim model)) anthropic_models
    then anthropic
    else if any_of (text_eq (trim model)) gemini_models
    then gemini
    else unknown

abbrev pub api_key : Text → Option Text → Option Text
api_key key rest = if is_empty (trim key) then rest else some (trim key)

abbrev pub provider_credential : (Text → Text) → Provider → Option Text
provider_credential nearest anthropic =
    api_key (nearest (codes "ANTHROPIC_API_KEY"))
      (api_key (nearest (codes "ANTHROPIC_SETUP_TOKEN")) none)
provider_credential nearest gemini = api_key (nearest (codes "GEMINI_API_KEY")) none
provider_credential nearest unknown = none

-- ResolveCredential
unfoldable pub resolve_credential : (Text → Text) → Text → Text → Option Text
unfolding infer_provider
resolve_credential nearest explicit model =
    api_key explicit (provider_credential nearest (infer_provider model))

abbrev pub required_variable : Provider → Text
required_variable anthropic = codes "ANTHROPIC_API_KEY"
required_variable gemini = codes "GEMINI_API_KEY"
required_variable unknown = []

-- MissingCredentialMessageForModel
abbrev pub missing_message : Provider → Text
missing_message anthropic = codes "ANTHROPIC_API_KEY or ANTHROPIC_SETUP_TOKEN is required"
missing_message gemini = required_variable gemini ++ codes " is required"
missing_message unknown = codes "credential is required"

-- What the chat of the gateway is given.
unfoldable pub known_models : (Text → Text) → (Text → Text) → Models
unfolding is_supported_model resolve_credential
known_models nearest quoted = record {
  default_model = codes "claude-opus-4-6";
  default_turns = 100_000;
  default_temperature = (pos 3602879701896397, 54);
  is_supported = is_supported_model;
  credential = resolve_credential nearest [];
  missing_credential = λ model. missing_message (infer_provider model);
  quoted = quoted;
}

abbrev pub has_provider : Provider → Bool
has_provider gemini = true
has_provider anthropic = true
has_provider unknown = false

-- The models that are supported are those with a provider.
pub is_supported_model_iff :
    (model : Text) → is_supported_model model ≡ has_provider (infer_provider model)
unfolding is_supported_model infer_provider
is_supported_model_iff model = ground arith
