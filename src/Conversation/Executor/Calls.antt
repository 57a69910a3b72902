-- ===== src/Conversation/Executor/Calls.antt =====
-- The tools' part of runLoop in conversation/executor.go, and the registry of
-- internal/agentloop/tools/types.go.
use zoa.Base.{
  ℕ, zero, suc, Bool, true, false, Option, none, some, List, [], ◌∷◌, ◌++◌, map, if◌then◌else◌,
}
use zoa.Base.Text.{Text, codes, text_eq}
use zoa.Base.Sql.{Result, ok, err}
use zoa.Conversation.Executor.{ToolCall, ToolResult, Tool, World}

-- NewRegistry and Get: of the tools with a name, the last.
unfoldable pub get_tool : {Args : Type 0} → List (Tool Args) → Text → Option (Tool Args)
get_tool [] name = none
get_tool (t ∷ tools) name =
    let later = get_tool tools name in
    elim later [ some t' ↦ some t' | none ↦ if text_eq t.name name then some t else none ]

-- interrupted
unfoldable pub interrupted_now : Option ℕ → Bool × Option ℕ
interrupted_now none = (false, none)
interrupted_now (some zero) = (true, some zero)
interrupted_now (some (suc n)) = (false, some n)

-- interruptedOrErrorToolResult
abbrev error_result : {Args : Type 0} → ToolCall Args → Text → ToolResult
error_result call output = record {
  call_id = call.id;
  name = call.name;
  output = output;
  is_error = true;
}

-- fillInterruptedResults
abbrev pub interrupted_results : {Args : Type 0} → List (ToolCall Args) → List ToolResult
interrupted_results = map λ call. error_result call (codes "tool execution interrupted")

abbrev pub tool_result : {Args : Type 0} → ToolCall Args → Result Text Text → ToolResult
tool_result call (ok output) = record {
  call_id = call.id;
  name = call.name;
  output = output;
  is_error = false;
}
tool_result call (err e) = error_result call e

module _ {Args : Type 0} (w : World Args) where
  -- The rest of the calls, once the tool has returned.
  abbrev pub after_tool :
      ToolCall Args
      → List (ToolCall Args)
      → (Option ℕ → List ToolResult × Option ℕ)
      → Result Text Text
      → Bool × Option ℕ
      → List ToolResult × Option ℕ
  after_tool call calls rest output (true, p) = (interrupted_results (call ∷ calls), p)
  after_tool call calls rest output (false, p) = (tool_result call output ∷ (rest p).0, (rest p).1)

  abbrev pub with_tool :
      ℕ
      → ℕ
      → ToolCall Args
      → List (ToolCall Args)
      → (Option ℕ → List ToolResult × Option ℕ)
      → Option (Tool Args)
      → Option ℕ
      → List ToolResult × Option ℕ
  with_tool turn i call calls rest none p =
      (error_result call (codes "unknown tool: " ++ call.name) ∷ (rest p).0, (rest p).1)
  with_tool turn i call calls rest (some t) p =
      after_tool call calls rest (t.execute turn i call.args) (interrupted_now p)

  abbrev pub execute_call :
      ℕ
      → ℕ
      → ToolCall Args
      → List (ToolCall Args)
      → (Option ℕ → List ToolResult × Option ℕ)
      → Bool × Option ℕ
      → List ToolResult × Option ℕ
  execute_call turn i call calls rest (true, p) = (interrupted_results (call ∷ calls), p)
  execute_call turn i call calls rest (false, p) =
      with_tool turn i call calls rest (get_tool w.tools call.name) p

  -- The loop over the calls of a reply.
  unfoldable pub execute_calls :
      ℕ → ℕ → List (ToolCall Args) → Option ℕ → List ToolResult × Option ℕ
  execute_calls turn i [] p = ([], p)
  execute_calls turn i (call ∷ calls) p =
      execute_call turn i call calls (execute_calls turn (suc i) calls) (interrupted_now p)
