-- ===== src/Conversation/Executor/Transcript.antt =====
-- What a run of conversation/executor.go may add to a conversation, and the results of its tools.
use zoa.Base.{
  ℕ, suc, ◌≡◌, refl, ap, ◌≢◌, map, Bool, true, false, Option, none, some, List, [], ◌∷◌, ◌++◌,
}
use zoa.Base.Text.{Text, codes, trim}
use zoa.Base.Sql.{Result, ok, err}
use zoa.Conversation.Executor.{
  ToolCall, ToolResult, Tool, Said, CompletionResponse, World, completed, RunResult,
}
use zoa.Conversation.Executor.Calls.{
  interrupted_now, get_tool, interrupted_results, tool_result, after_tool, with_tool, execute_call,
  execute_calls,
}
use zoa.Conversation.Executor.Loop.{reply_message, results_message}

abbrev call_label : {Args : Type 0} → ToolCall Args → Text × Text
call_label call = (call.id, call.name)

abbrev result_label : ToolResult → Text × Text
result_label r = (r.call_id, r.name)

-- One result for each call, in order, under the call's identifier and name.
abbrev pub Answers : {Args : Type 0} → List (ToolCall Args) → List ToolResult → Type 0
Answers calls results = map result_label results ≡ map call_label calls

answer-Answers :
    {Args : Type 0} (call : ToolCall Args) (calls : List (ToolCall Args))
    (results : List ToolResult) (output : Text) (failed : Bool)
    → Answers calls results
    → Answers (call ∷ calls) (
        (record { call_id = call.id; name = call.name; output = output; is_error = failed })
        ∷ results)
answer-Answers call calls results output failed = ap λ labels. call_label call ∷ labels

interrupted_results-Answers :
    {Args : Type 0} (calls : List (ToolCall Args)) → Answers calls (interrupted_results calls)
interrupted_results-Answers [] = refl
interrupted_results-Answers (call ∷ calls) =
    answer-Answers call calls (interrupted_results calls) (codes "tool execution interrupted") true
      (interrupted_results-Answers calls)

tool_result-Answers :
    {Args : Type 0} (call : ToolCall Args) (output : Result Text Text)
    (calls : List (ToolCall Args)) (results : List ToolResult)
    → Answers calls results
    → Answers (call ∷ calls) (tool_result call output ∷ results)
tool_result-Answers call (ok o) calls results = answer-Answers call calls results o false
tool_result-Answers call (err e) calls results = answer-Answers call calls results e true

module _ {Args : Type 0} (w : World Args) where
  module _ (turn i : ℕ) (call : ToolCall Args) (calls : List (ToolCall Args))
      (rest : Option ℕ → List ToolResult × Option ℕ)
      (keep : (p : Option ℕ) → Answers calls (rest p).0) where
    after_tool-Answers :
        (output : Result Text Text) (look : Bool × Option ℕ)
        → Answers (call ∷ calls) (after_tool w call calls rest output look).0
    after_tool-Answers output (true, p) = interrupted_results-Answers (call ∷ calls)
    after_tool-Answers output (false, p) = tool_result-Answers call output calls (rest p).0 (keep p)

    with_tool-Answers :
        (t : Option (Tool Args)) (p : Option ℕ)
        → Answers (call ∷ calls) (with_tool w turn i call calls rest t p).0
    with_tool-Answers none p =
        answer-Answers call calls (rest p).0 (codes "unknown tool: " ++ call.name) true (keep p)
    with_tool-Answers (some t) p =
        after_tool-Answers (t.execute turn i call.args) (interrupted_now p)

    execute_call-Answers :
        (look : Bool × Option ℕ)
        → Answers (call ∷ calls) (execute_call w turn i call calls rest look).0
    execute_call-Answers (true, p) = interrupted_results-Answers (call ∷ calls)
    execute_call-Answers (false, p) = with_tool-Answers (get_tool w.tools call.name) p

  pub execute_calls-Answers :
      (turn i : ℕ) (calls : List (ToolCall Args)) (p : Option ℕ)
      → Answers calls (execute_calls w turn i calls p).0
  unfolding execute_calls
  execute_calls-Answers turn i [] p = refl
  execute_calls-Answers turn i (call ∷ calls) p =
      execute_call-Answers turn i call calls (execute_calls w turn (suc i) calls)
        (execute_calls-Answers turn (suc i) calls) (interrupted_now p)

  -- What the model, asked with the whole conversation `before` after `done` turns, goes on to add,
  -- and how the run ends.
  pub data Transcript : ℕ → List (Said Args) → RunResult → List (Said Args) → Type 0 where
    unanswered :
        (done : ℕ) (before : List (Said Args)) (r : RunResult)
        → r.status ≢ completed
        → r.turns ≡ done
        → Transcript done before r []
    answered :
        (done : ℕ) (before : List (Said Args)) (r : RunResult) (response : CompletionResponse Args)
        → w.complete (suc done) before ≡ ok response
        → response.tool_calls ≡ []
        → r.status ≡ completed
        → r.final_text ≡ trim response.text
        → r.turns ≡ suc done
        → Transcript done before r (reply_message w response ∷ [])
    cut :
        (done : ℕ) (before : List (Said Args)) (r : RunResult) (response : CompletionResponse Args)
        → w.complete (suc done) before ≡ ok response
        → r.status ≢ completed
        → r.turns ≡ suc done
        → Transcript done before r (reply_message w response ∷ [])
    round :
        (done : ℕ) (before : List (Said Args)) (r : RunResult) (response : CompletionResponse Args)
        (results : List ToolResult) (rest : List (Said Args))
        → w.complete (suc done) before ≡ ok response
        → response.tool_calls ≢ []
        → Answers response.tool_calls results
        → Transcript
            (suc done)
            (before ++ (reply_message w response ∷ results_message w results ∷ []))
            r
            rest
        → Transcript done before r (reply_message w response ∷ results_message w results ∷ rest)
