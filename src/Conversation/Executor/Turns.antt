-- ===== src/Conversation/Executor/Turns.antt =====
-- runLoop of conversation/executor.go, turn by turn.
use zoa.Base.{
  ℕ, zero, suc, ◌+◌, ◌≤◌, ◌≡◌, refl, sym, subst, ◌≢◌, ◌⊎◌, inl, inr, Bool, true, false, none, some,
  List, [], ◌∷◌, ◌++◌, arith, ◌||◌, if◌then◌else◌,
}
use zoa.Base.Text.{Text, codes}
use zoa.Base.Sql.{Result, ok, err}
use zoa.Conversation.Tables.{Error, message, Node}
use zoa.Conversation.Tree.Sound.{Hashing}
use zoa.Conversation.Executor.{
  ToolCall, ToolResult, Said, CompletionResponse, World, interrupted, errored, RunResult, Running,
}
use zoa.Conversation.Executor.Calls.{interrupted_now, execute_calls}
use zoa.Conversation.Executor.Loop.{
  codec, reply_message, results_message, chain_messages, Chain, append_said, load_said, result_at,
  after_turn, after_results, with_calls, after_append, after_reply, after_complete, after_load,
  begun, run_turns,
}
use zoa.Conversation.Executor.Transcript.{Answers, execute_calls-Answers}
use zoa.Conversation.Executor.Grows.{
  At, AtWith, append_said-At, load_said-At, Grows, result_at-Grows, cut-Grows, answered-Grows,
  round-Grows,
}

module _ {Args : Type 0} (w : World Args) (H : Hashing (codec w)) where
  module _ (limit done : ℕ) (next : Running → RunResult × Running)
      (grow : (s : Running) (nodes : Chain w)
        → At w H s nodes
        → Grows w H limit (suc done) nodes (next s))
      (le : suc done ≤ limit) where
    after_turn-Grows :
        (stopped : Bool) (s : Running) (nodes : Chain w)
        → At w H s nodes
        → Grows w H limit (suc done) nodes (after_turn w next done stopped s)
    after_turn-Grows true s nodes st =
        result_at-Grows w H limit (suc done) nodes interrupted none s (λ e. cc) le st
    after_turn-Grows false s nodes st = grow s nodes st

    module _ (nodes : Chain w) (response : CompletionResponse Args)
        (asked : w.complete (suc done) (chain_messages w nodes) ≡ ok response) where
      after_results-Grows :
          (results : List ToolResult) (n : Node (Said Args)) (a : Result Error Text × Running)
          → response.tool_calls ≢ []
          → Answers response.tool_calls results
          → n.message ≡ reply_message w response
          → ((e : Error) × (a.0 ≡ err e) × At w H a.1 (nodes ++ (n ∷ [])))
            ⊎ ((h : Text) × (a.0 ≡ ok h)
                × AtWith w H a.1 (nodes ++ (n ∷ [])) (results_message w results))
          → Grows w H limit done nodes (after_results w next done a)
      after_results-Grows results n a called answers en (inl (e, p, st)) = rw p (
          cut-Grows w H limit done nodes response asked le errored (some e) a.1 (λ e. cc)
            (n, en, st))
      after_results-Grows results n a called answers en (inr (h, p, (m, em, st))) = rw p (
          round-Grows w H limit done nodes response asked le results n m
            (after_turn w next done (interrupted_now a.1.patience).0
              (record a.1 { patience = (interrupted_now a.1.patience).1 }))
            called answers en em
            (after_turn-Grows (interrupted_now a.1.patience).0
              (record a.1 { patience = (interrupted_now a.1.patience).1 })
              ((nodes ++ (n ∷ [])) ++ (m ∷ [])) st))

      with_calls-Grows :
          (calls : List (ToolCall Args)) (s : Running)
          → response.tool_calls ≡ calls
          → AtWith w H s nodes (reply_message w response)
          → Grows w H limit done nodes (with_calls w next done response calls s)
      with_calls-Grows [] s e st = answered-Grows w H limit done nodes response asked le s e st
      with_calls-Grows (call ∷ calls) s e (n, en, st) =
          let r = execute_calls w (suc done) 0 (call ∷ calls) s.patience in
          after_results-Grows r.0 n
            (append_said w (suc done) 2 (results_message w r.0) (record s { patience = r.1 }))
            (λ none_called. cc)
            (subst (λ l. Answers l r.0) (sym e)
              (execute_calls-Answers w (suc done) 0 (call ∷ calls) s.patience))
            en
            (append_said-At w H (suc done) 2 (results_message w r.0) (record s { patience = r.1 })
              (nodes ++ (n ∷ [])) st)

      after_append-Grows :
          (stopped : Bool) (s : Running)
          → AtWith w H s nodes (reply_message w response)
          → Grows w H limit done nodes (after_append w next done response stopped s)
      after_append-Grows true s st =
          cut-Grows w H limit done nodes response asked le interrupted none s (λ e. cc) st
      after_append-Grows false s st = with_calls-Grows response.tool_calls s refl st

    complete-Grows :
        (s : Running) (nodes : Chain w) (a : Result (Bool × Error) (CompletionResponse Args))
        → w.complete (suc done) (chain_messages w nodes) ≡ a
        → At w H s nodes
        → Grows w H limit done nodes (after_complete w next done a s)
    complete-Grows s nodes (err (cancelled, e)) asked st =
        refused_either ((interrupted_now s.patience).0 || cancelled)
      where
        s' : Running
        s' = record s { patience = (interrupted_now s.patience).1 }

        refused_either :
            (b : Bool)
            → Grows w H limit done nodes (
                if b
                then result_at w interrupted [] done none s'
                else result_at w errored [] done (some e) s')
        refused_either true =
            result_at-Grows w H limit done nodes interrupted none s' (λ e. cc) (omega arith) st
        refused_either false =
            result_at-Grows w H limit done nodes errored (some e) s' (λ e. cc) (omega arith) st
    complete-Grows s nodes (ok response) asked st =
        after_reply-Grows (append_said w (suc done) 1 (reply_message w response) s)
          (append_said-At w H (suc done) 1 (reply_message w response) s nodes st)
      where
        after_reply-Grows :
            (a : Result Error Text × Running)
            → ((e : Error) × (a.0 ≡ err e) × At w H a.1 nodes)
              ⊎ ((h : Text) × (a.0 ≡ ok h) × AtWith w H a.1 nodes (reply_message w response))
            → Grows w H limit done nodes (after_reply w next done response a)
        after_reply-Grows a (inl (e, p, st)) =
            rw p
              (result_at-Grows w H limit done nodes errored (some e) a.1 (λ e. cc) (omega arith) st)
        after_reply-Grows a (inr (h, p, st)) = rw p (
            after_append-Grows nodes response asked (interrupted_now a.1.patience).0
              (record a.1 { patience = (interrupted_now a.1.patience).1 }) st)

    begun-Grows :
        (stopped : Bool) (s : Running) (nodes : Chain w)
        → At w H s nodes
        → Grows w H limit done nodes (begun w next done stopped s)
    begun-Grows true s nodes st =
        result_at-Grows w H limit done nodes interrupted none s (λ e. cc) (omega arith) st
    begun-Grows false s nodes st =
        after_load-Grows (load_said w (suc done) s) (load_said-At w H (suc done) s nodes st)
      where
        after_load-Grows :
            (a : Result Error (Chain w) × Running)
            → (((e : Error) × (a.0 ≡ err e)) ⊎ (a.0 ≡ ok nodes)) × At w H a.1 nodes
            → Grows w H limit done nodes (after_load w next done a)
        after_load-Grows a (inl (e, p), st) =
            rw p
              (result_at-Grows w H limit done nodes errored (some e) a.1 (λ e. cc) (omega arith) st)
        after_load-Grows a (inr p, st) =
            rw p (complete-Grows a.1 nodes (w.complete (suc done) (chain_messages w nodes)) refl st)

  pub run_turns-Grows :
      (left done limit : ℕ) (s : Running) (nodes : Chain w)
      → left + done ≤ limit
      → At w H s nodes
      → Grows w H limit done nodes (run_turns w left done s)
  unfolding run_turns
  run_turns-Grows zero done limit s nodes le st =
      result_at-Grows w H limit done nodes errored (some (message (codes "max turns reached"))) s
        (λ e. cc) (omega arith) st
  run_turns-Grows (suc left) done limit s nodes le st =
      begun-Grows limit done (run_turns w left (suc done))
        (λ s' nodes' st'. run_turns-Grows left (suc done) limit s' nodes' (omega arith) st')
        (omega arith) (interrupted_now s.patience).0
        (record s { patience = (interrupted_now s.patience).1 }) nodes st
