-- ===== src/Conversation/Executor/Loop.antt =====
-- runLoop, Run and finish of conversation/executor.go.
use zoa.Base.{
  ℕ, zero, suc, Bool, true, false, Option, none, some, List, [], ◌∷◌, map, ◌||◌, if◌then◌else◌,
}
use zoa.Base.Text.{Text, codes, is_empty, trim}
use zoa.Base.Sql.{Db, Result, ok, err}
use zoa.Conversation.Tables.{Tables, Error, message, Codec, Node}
use zoa.Conversation.Leased.{LeasedRef, append, chain, close}
use zoa.Conversation.History.{run}
use zoa.Conversation.Executor.{
  ToolCall, ToolResult, system, user, assistant, tool, Said, CompletionResponse, said_codec, World,
  RunStatus, completed, interrupted, errored, RunResult, Running, MessageRole, Executor,
}
use zoa.Conversation.Executor.Calls.{interrupted_now, execute_calls}

module _ {Args : Type 0} (w : World Args) where
  abbrev pub codec : Codec
  codec = said_codec w.marshal w.unmarshal w.sha256

  abbrev pub reply_message : CompletionResponse Args → Said Args
  reply_message response = record {
    role = assistant;
    text = response.text;
    parts = response.parts;
    tool_calls = response.tool_calls;
    tool_results = [];
  }

  abbrev pub results_message : List ToolResult → Said Args
  results_message results = record {
    role = tool;
    text = [];
    parts = [];
    tool_calls = [];
    tool_results = results;
  }

  -- chainMessages
  abbrev pub chain_messages : List (Node (Said Args)) → List (Said Args)
  chain_messages = map λ node. node.message

  abbrev stored :
      Running → Result Error Text × (LeasedRef × Db Tables Error) → Result Error Text × Running
  stored s (r, (ref, d)) = (r, record s { ref = ref; db = d })

  -- Append through the ref, after what others have done.
  unfoldable pub append_said : ℕ → ℕ → Said Args → Running → Result Error Text × Running
  append_said turn place said s = stored s (
      append codec said (w.seen turn place) (w.now turn place) s.ref
        (run codec (w.others turn place) s.db))

  abbrev pub Chain : Type 0
  Chain = List (Node (Said Args))

  -- LoadChain of the ref, after what others have done.
  unfoldable pub load_said : ℕ → Running → Result Error Chain × Running
  load_said turn s =
      let r = chain codec s.ref (run codec (w.others turn 0) s.db) in (r.0, record s { db = r.1 })

  abbrev looked : (Bool → Running → RunResult × Running) → Running → RunResult × Running
  looked next s =
      next (interrupted_now s.patience).0 (record s { patience = (interrupted_now s.patience).1 })

  abbrev pub result_at : RunStatus → Text → ℕ → Option Error → Running → RunResult × Running
  result_at status text turns error s = (
    record {
      status = status;
      final_text = text;
      head_hash = s.ref.hash;
      turns = turns;
      error = error;
    },
    s,
  )

  -- The parts of a turn, after `done` turns; `next` is the turns after it. First its end, with the
  -- results appended.
  abbrev pub after_turn : (Running → RunResult × Running) → ℕ → Bool → Running → RunResult × Running
  after_turn next done true s = result_at interrupted [] (suc done) none s
  after_turn next done false s = next s

  abbrev pub after_results :
      (Running → RunResult × Running) → ℕ → Result Error Text × Running → RunResult × Running
  after_results next done (err e, s) = result_at errored [] (suc done) (some e) s
  after_results next done (ok _, s) = looked (after_turn next done) s

  abbrev pub with_calls :
      (Running → RunResult × Running)
      → ℕ
      → CompletionResponse Args
      → List (ToolCall Args)
      → Running
      → RunResult × Running
  with_calls next done response [] s = result_at completed (trim response.text) (suc done) none s
  with_calls next done response (call ∷ calls) s =
      let r = execute_calls w (suc done) 0 (call ∷ calls) s.patience in
      after_results next done
        (append_said (suc done) 2 (results_message r.0) (record s { patience = r.1 }))

  abbrev pub after_append :
      (Running → RunResult × Running)
      → ℕ
      → CompletionResponse Args
      → Bool
      → Running
      → RunResult × Running
  after_append next done response true s = result_at interrupted [] (suc done) none s
  after_append next done response false s = with_calls next done response response.tool_calls s

  abbrev pub after_reply :
      (Running → RunResult × Running)
      → ℕ
      → CompletionResponse Args
      → Result Error Text × Running
      → RunResult × Running
  after_reply next done response (err e, s) = result_at errored [] done (some e) s
  after_reply next done response (ok _, s) = looked (after_append next done response) s

  abbrev pub no_response : ℕ → Bool → Error → Bool → Running → RunResult × Running
  no_response done cancelled e stopped s =
      if stopped || cancelled
      then result_at interrupted [] done none s
      else result_at errored [] done (some e) s

  abbrev pub after_complete :
      (Running → RunResult × Running)
      → ℕ
      → Result (Bool × Error) (CompletionResponse Args)
      → Running
      → RunResult × Running
  after_complete next done (err (cancelled, e)) s = looked (no_response done cancelled e) s
  after_complete next done (ok response) s =
      after_reply next done response (append_said (suc done) 1 (reply_message response) s)

  abbrev pub after_load :
      (Running → RunResult × Running) → ℕ → Result Error Chain × Running → RunResult × Running
  after_load next done (err e, s) = result_at errored [] done (some e) s
  after_load next done (ok nodes, s) =
      after_complete next done (w.complete (suc done) (chain_messages nodes)) s

  abbrev pub begun : (Running → RunResult × Running) → ℕ → Bool → Running → RunResult × Running
  begun next done true s = result_at interrupted [] done none s
  begun next done false s = after_load next done (load_said (suc done) s)

  -- runLoop, with `left` turns left after `done` of them.
  unfoldable pub run_turns : ℕ → ℕ → Running → RunResult × Running
  run_turns zero done s = result_at errored [] done (some (message (codes "max turns reached"))) s
  run_turns (suc left) done s = looked (begun (run_turns left (suc done)) done) s

  abbrev pub append_failure : Result Error Text × Running → Option Error × Running
  append_failure (ok _, s) = (none, s)
  append_failure (err e, s) = (some e, s)

  abbrev pub says : MessageRole → Text → Said Args
  says role text = record {
    role = role;
    text = text;
    parts = [];
    tool_calls = [];
    tool_results = [];
  }

  -- ensureSystemPrompt; a chain that cannot be loaded counts as empty (mustLoadChain).
  abbrev pub with_chain : Text → Result Error Chain × Running → Option Error × Running
  with_chain prompt (ok (n ∷ nodes), s) = (none, s)
  with_chain prompt (ok [], s) = append_failure (append_said 0 1 (says system prompt) s)
  with_chain prompt (err _, s) = append_failure (append_said 0 1 (says system prompt) s)

  unfoldable pub ensure_system_prompt : Text → Running → Option Error × Running
  ensure_system_prompt prompt s =
      if is_empty prompt then (none, s) else with_chain prompt (load_said 0 s)

  abbrev pub sent : ℕ → Result Error Text × Running → RunResult × Running
  sent max_turns (err e, s) = result_at errored [] 0 (some e) s
  sent max_turns (ok _, s) = run_turns max_turns 0 s

  abbrev pub after_prompt : Executor → Text → Option Error × Running → RunResult × Running
  after_prompt e text (some x, s) = result_at errored [] 0 (some x) s
  after_prompt e text (none, s) = sent e.max_turns (append_said 0 2 (says user (trim text)) s)

  -- finish
  abbrev pub finish_run : RunResult × Running → Result Error RunResult × Running
  finish_run (result, s) =
      let c = close (w.now 0 3) s.ref (run codec (w.others 0 3) s.db) in
      (ok result, record s { ref = c.1.0; db = c.1.1 })

  -- Run, and the result that Wait then returns; the error is Run's.
  unfoldable pub run_message : Executor → Text → Running → Result Error RunResult × Running
  run_message e text s =
      if is_empty (trim text)
      then (err (message (codes "user message is required")), s)
      else if e.running
      then (err (message (codes "a run is already in progress")), s)
      else finish_run (after_prompt e text (ensure_system_prompt e.system_prompt s))
