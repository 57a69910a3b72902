-- ===== src/Conversation/Executor/Tests.antt =====
-- A run of an Executor at concrete data: one tool call, and a reply.
use zoa.Base.{
  ℕ, zero, suc, ◌≡◌, refl, inl, Bool, true, false, Option, none, some, List, [], ◌∷◌, ◌==◌, arith,
  if◌then◌else◌,
}
use zoa.Base.Text.{Text, codes, trim}
use zoa.Base.Sql.{Result, ok, err, exec, query, transaction}
use zoa.Conversation.Tables.{Error, message, root_hash, node_hash}
use zoa.Conversation.Nodes.{
  root_row, scan_nodes, load_chain, ancestors, climb, insert_node, insert_json, add_node,
  message_row, ensure_node_exists,
}
use zoa.Conversation.Refs.{
  advance_ref, advance, get_ref, update_refs, renew_lease, extend_lease, release_lease,
}
use zoa.Conversation.Leased.{append, chain, close}
use zoa.Conversation.Tree.Sound.{Hashing}
use zoa.Conversation.Tree.Load.{quiet}
use zoa.Conversation.History.{renew, run, step}
use zoa.Conversation.Invariant.{Inv}
use zoa.Conversation.Tests.{toy, toy-Hashing, main, root_node, opened}
use zoa.Conversation.Executor.{
  ToolCall, ToolResult, AssistantPart, MessageRole, system, user, assistant, tool, Said,
  CompletionResponse, World, Running, Executor, RunResult, RunStatus, completed, interrupted,
}
use zoa.Conversation.Executor.Loop.{
  codec, run_message, run_turns, ensure_system_prompt, append_said, load_said,
}
use zoa.Conversation.Executor.Calls.{execute_calls, get_tool, interrupted_now}
use zoa.Conversation.Executor.Talk.{Converses, run_message-Converses}

-- A marshalling of the messages of such a run: a text, one call or one result.
abbrev encode_role : MessageRole → Text → Option Text
encode_role system text = some (0 ∷ text)
encode_role user text = some (1 ∷ text)
encode_role assistant text = some (2 ∷ text)
encode_role tool text = none

abbrev encode_call : MessageRole → Text → Text → Text → Text → Option Text
encode_call assistant [] [] name [] = some (3 ∷ name)
encode_call _ _ _ _ _ = none

abbrev encode_result : MessageRole → Text → Text → Text → Text → Bool → Option Text
encode_result tool [] [] (n ∷ []) output false = some (4 ∷ n ∷ output)
encode_result _ _ _ _ _ _ = none

abbrev encode :
    MessageRole
    → Text
    → List (AssistantPart (Unit {0}))
    → List (ToolCall (Unit {0}))
    → List ToolResult
    → Option Text
encode role text [] [] [] = encode_role role text
encode role text [] (c ∷ []) [] = encode_call role text c.id c.name c.thought_signature
encode role text [] [] (r ∷ []) = encode_result role text r.call_id r.name r.output r.is_error
encode _ _ _ _ _ = none

abbrev plain : MessageRole → Text → Said (Unit {0})
plain role text = record {
  role = role;
  text = text;
  parts = [];
  tool_calls = [];
  tool_results = [];
}

abbrev call_of : Text → ToolCall (Unit {0})
call_of name = record { id = []; name = name; args = tt; thought_signature = [] }

abbrev decode_result : Text → Option (Said (Unit {0}))
decode_result [] = none
decode_result (n ∷ output) = some (record (plain tool []) {
  tool_results = (record { call_id = []; name = n ∷ []; output = output; is_error = false }) ∷ [];
})

abbrev decode : Text → Option (Said (Unit {0}))
decode [] = none
decode (c ∷ text) =
    if c == 0
    then some (plain system text)
    else if c == 1
    then some (plain user text)
    else if c == 2
    then some (plain assistant text)
    else if c == 3
    then some (record (plain assistant []) { tool_calls = call_of text ∷ [] })
    else decode_result text

abbrev marshal : Said (Unit {0}) → Option Text
marshal said = encode said.role said.text said.parts said.tool_calls said.tool_results

abbrev response : Text → List (ToolCall (Unit {0})) → CompletionResponse (Unit {0})
response text calls = record { text = text; parts = []; tool_calls = calls }

abbrev answer : ℕ → Result (Bool × Error) (CompletionResponse (Unit {0}))
answer zero = err (false, message [])
answer (suc zero) = ok (response [] (call_of (codes "e") ∷ []))
answer (suc (suc n)) = ok (response (codes " done") [])

-- The tool answers "ok"; the lease is renewed several times during the first turn.
abbrev world : World (Unit {0})
world = record {
  marshal = marshal;
  unmarshal = decode;
  sha256 = toy.sha256;
  complete = λ turn said. answer turn;
  tools = (record { name = codes "e"; execute = λ turn i args. ok (codes "ok") }) ∷ [];
  others = λ turn place. if turn == 1 then renew main (codes "r1") 9 5 ∷ [] else [];
  seen = λ turn place. turn;
  now = λ turn place. turn;
}

marshal-role :
    (role : MessageRole) (text json : Text)
    → encode_role role text ≡ some json
    → decode json ≡ some (plain role text)
marshal-role system text json e = ground arith
marshal-role user text json e = ground arith
marshal-role assistant text json e = ground arith
marshal-role tool text json e = absurd (cc)

marshal-call :
    (role : MessageRole) (text id name signature json : Text)
    → encode_call role text id name signature ≡ some json
    → decode json
      ≡ some (record (plain role text) {
        tool_calls =
            (record { id = id; name = name; args = tt; thought_signature = signature }) ∷ [];
      })
marshal-call assistant [] [] name [] json e = ground arith
marshal-call assistant [] [] name (_ ∷ _) json e = absurd (cc)
marshal-call assistant [] (_ ∷ _) name signature json e = absurd (cc)
marshal-call assistant (_ ∷ _) id name signature json e = absurd (cc)
marshal-call system text id name signature json e = absurd (cc)
marshal-call user text id name signature json e = absurd (cc)
marshal-call tool text id name signature json e = absurd (cc)

marshal-result :
    (role : MessageRole) (text id name output : Text) (failed : Bool) (json : Text)
    → encode_result role text id name output failed ≡ some json
    → decode json
      ≡ some (record (plain role text) {
        tool_results =
            (record { call_id = id; name = name; output = output; is_error = failed }) ∷ [];
      })
marshal-result tool [] [] (n ∷ []) output false json e = ground arith
marshal-result tool [] [] (n ∷ []) output true json e = absurd (cc)
marshal-result tool [] [] (n ∷ _ ∷ _) output failed json e = absurd (cc)
marshal-result tool [] [] [] output failed json e = absurd (cc)
marshal-result tool [] (_ ∷ _) name output failed json e = absurd (cc)
marshal-result tool (_ ∷ _) id name output failed json e = absurd (cc)
marshal-result system text id name output failed json e = absurd (cc)
marshal-result user text id name output failed json e = absurd (cc)
marshal-result assistant text id name output failed json e = absurd (cc)

decode-encode :
    (role : MessageRole) (text : Text) (parts : List (AssistantPart (Unit {0})))
    (calls : List (ToolCall (Unit {0}))) (results : List ToolResult) (json : Text)
    → encode role text parts calls results ≡ some json
    → decode json
      ≡ some (record {
        role = role;
        text = text;
        parts = parts;
        tool_calls = calls;
        tool_results = results;
      })
decode-encode role text [] [] [] json e = marshal-role role text json e
decode-encode role text [] (c ∷ []) [] json e =
    marshal-call role text c.id c.name c.thought_signature json e
decode-encode role text [] [] (r ∷ []) json e =
    marshal-result role text r.call_id r.name r.output r.is_error json e
decode-encode role text (_ ∷ _) calls results json e = absurd (cc)
decode-encode role text [] (_ ∷ _ ∷ _) results json e = absurd (cc)
decode-encode role text [] (_ ∷ []) (_ ∷ _) json e = absurd (cc)
decode-encode role text [] [] (_ ∷ _ ∷ _) json e = absurd (cc)

world-Hashing : Hashing (codec world)
world-Hashing = record {
  no_collision = toy-Hashing.no_collision;
  one_line = toy-Hashing.one_line;
  nonempty = toy-Hashing.nonempty;
  read_back = λ m json e. decode-encode m.role m.text m.parts m.tool_calls m.tool_results json e;
}

abbrev idle : Executor
idle = record { system_prompt = codes "sys"; max_turns = 20; running = false }

abbrev start : Running
start = record {
  ref = record {
    name = main;
    runner_id = codes "r1";
    hash = root_hash (codec world);
    lease_until = none;
    released = false;
  };
  db = quiet opened;
  patience = none;
}

opened_sound : Inv (codec world) opened
unfolding root_row root_hash
opened_sound = record {
  grown = (refl, inl (refl, refl, refl, refl), tt);
  refs_found = ((root_node, refl), tt);
}

run_message-Converses_example :
    Converses world idle (codes " hello") [] (run_message world idle (codes " hello") start)
unfolding root_row root_hash trim scan_nodes
run_message-Converses_example =
    run_message-Converses world world-Hashing idle (codes " hello") start [] refl refl
      (opened_sound, root_node, refl, refl)

abbrev ending : Result Error RunResult → Option (RunStatus × Text × ℕ)
ending (ok r) = some (r.status, r.final_text, r.turns)
ending (err e) = none

-- The second run is interrupted just after the first reply, whose call stays without a result.
run_hello :
    (ending (run_message world idle (codes " hello") start).0 ≡ some (completed, codes "done", 2))
    × (ending (run_message world idle (codes " hello") (record start { patience = some 1 })).0
        ≡ some (interrupted, [], 1))
unfolding run_message run_turns ensure_system_prompt append_said load_said append chain close
    load_chain ancestors climb scan_nodes advance_ref advance get_ref insert_node insert_json
    add_node message_row update_refs renew_lease extend_lease release_lease run step transaction
    query exec execute_calls get_tool interrupted_now root_row root_hash node_hash
    ensure_node_exists trim
run_hello = (refl, refl)
