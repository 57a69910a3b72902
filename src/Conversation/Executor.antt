-- ===== src/Conversation/Executor.antt =====
-- conversation/executor.go: one run of an Executor, on the types of internal/agentloop/llm/types.go.
pub mod Calls
pub mod Loop
pub mod Transcript
pub mod Grows
pub mod Turns
pub mod Talk
mod Tests
use zoa.Base.{
  ℕ, zero, suc, Bool, true, false, Option, none, some, List, [], ◌∷◌, ◌++◌, map, ◌||◌, ◌==◌,
  if◌then◌else◌,
}
use zoa.Base.Text.{Text, codes, text_eq, trim}
use zoa.Base.Stamp.{Instant}
use zoa.Base.Sql.{Db, Result, ok, err}
use zoa.Conversation.Tables.{Tables, Error, message, Codec, Node}
use zoa.Conversation.Leased.{LeasedRef, append, chain}
use zoa.Conversation.History.{Call, run}

pub record ToolCall (Args : Type 0) : Type 0 where
  pub id : Text
  pub name : Text
  pub args : Args
  pub thought_signature : Text

pub record ToolResult : Type 0 where
  pub call_id : Text
  pub name : Text
  pub output : Text
  pub is_error : Bool

pub record AssistantPart (Args : Type 0) : Type 0 where
  pub text : Text
  pub tool_call : Option (ToolCall Args)
  pub thought_signature : Text

pub data MessageRole : Type 0 where
  system user assistant tool : MessageRole

abbrev role_text : MessageRole → Text
role_text system = codes "system"
role_text user = codes "user"
role_text assistant = codes "assistant"
role_text tool = codes "tool"

-- llm.Message, as the list of what it says. The deep copies of parts, calls and arguments are the
-- values themselves.
pub record Said (Args : Type 0) : Type 0 where
  pub role : MessageRole
  pub text : Text
  pub parts : List (AssistantPart Args)
  pub tool_calls : List (ToolCall Args)
  pub tool_results : List ToolResult

pub record CompletionResponse (Args : Type 0) : Type 0 where
  pub text : Text
  pub parts : List (AssistantPart Args)
  pub tool_calls : List (ToolCall Args)

abbrev pub said_codec :
    {Args : Type 0}
    → (Said Args → Option Text)
    → (Text → Option (Said Args))
    → (Text → Text)
    → Codec
said_codec {Args} marshal unmarshal sha256 = record {
  Message = Said Args;
  role = λ said. role_text said.role;
  marshal = marshal;
  unmarshal = unmarshal;
  sha256 = sha256;
}

-- A tool, by its name. The numbers are the turn and the place of the call in it.
pub record Tool (Args : Type 0) : Type 0 where
  pub name : Text
  pub execute : ℕ → ℕ → Args → Result Text Text

-- What is outside of the run: encoding/json, SHA-256, the model, the tools, the clock, and the calls on
-- the database by others and by the goroutine that renews the lease. The numbers are the turn and the
-- place in it: 0 for the chain, 1 for the reply and 2 for the results, and in turn 0, before the
-- first, 0 for the chain, 1 for the system prompt, 2 for the user's message and 3 for the release. An error of the model says whether the run's context was cancelled.
pub record World (Args : Type 0) : Type 0 where
  pub marshal : Said Args → Option Text
  pub unmarshal : Text → Option (Said Args)
  pub sha256 : Text → Text
  pub complete : ℕ → List (Said Args) → Result (Bool × Error) (CompletionResponse Args)
  pub tools : List (Tool Args)
  pub others : ℕ → ℕ → List (Call (said_codec marshal unmarshal sha256))
  pub seen : ℕ → ℕ → Instant
  pub now : ℕ → ℕ → Instant

pub data RunStatus : Type 0 where
  completed interrupted errored : RunStatus

pub record RunResult : Type 0 where
  pub status : RunStatus
  pub final_text : Text
  pub head_hash : Text
  pub turns : ℕ
  pub error : Option Error

-- `patience` is how often `interrupted` will still answer no; without one it always does.
pub record Running : Type 0 where
  pub ref : LeasedRef
  pub db : Db Tables Error
  pub patience : Option ℕ

pub record Executor : Type 0 where
  pub system_prompt : Text
  pub max_turns : ℕ
  pub running : Bool

-- NewExecutor, for a ref and a client that are there; `max_turns` is zero for a number below one.
unfoldable pub new_executor : Text → ℕ → Executor
new_executor prompt max_turns = record {
  system_prompt = trim prompt;
  max_turns = if max_turns == 0 then 20 else max_turns;
  running = false;
}
