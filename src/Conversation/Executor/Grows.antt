-- ===== src/Conversation/Executor/Grows.antt =====
-- What the pieces of runLoop in conversation/executor.go leave of the conversation: how a transcript
-- begins, goes on and ends.
use zoa.Base.{
  ℕ, suc, ◌≤◌, ◌≡◌, refl, sym, ap, subst, ◌∙◌, ◌≢◌, ◌⊎◌, inl, inr, false, none, Option, List, [],
  ◌∷◌, ◌++◌,
}
use mathlib.Core.List.{map-append, append_assoc, append-nil}
use zoa.Base.Text.{Text, codes, text_eq, trim}
use zoa.Base.Sql.{ok, err}
use zoa.Conversation.Tables.{Error, Node}
use zoa.Conversation.Leased.{chain}
use zoa.Conversation.Tree.Sound.{Hashing}
use zoa.Conversation.History.{run}
use zoa.Conversation.Standing.{Stands, StandsWith, run-Stands, load_chain-Outcome, append-Appended}
use zoa.Conversation.Executor.{
  ToolResult, Said, CompletionResponse, World, RunStatus, completed, RunResult, Running, system,
  user, assistant, tool, MessageRole, role_text,
}
use zoa.Conversation.Executor.Loop.{
  codec, reply_message, results_message, chain_messages, Chain, append_said, load_said, result_at,
}
use zoa.Conversation.Executor.Transcript.{Answers, Transcript, unanswered, answered, cut, round}

role_text-not_root : (role : MessageRole) → text_eq (role_text role) (codes "root") ≡ false
role_text-not_root system = refl
role_text-not_root user = refl
role_text-not_root assistant = refl
role_text-not_root tool = refl

module _ {Args : Type 0} (w : World Args) (H : Hashing (codec w)) where
  -- The chain at the ref's hash.
  abbrev pub At : Running → Chain w → Type 0
  At s nodes = Stands (codec w) s.ref.hash nodes s.db.tables

  -- The chain at the ref's hash ends with the message.
  abbrev pub AtWith : Running → Chain w → Said Args → Type 0
  AtWith s nodes said = StandsWith (codec w) H said nodes s.ref.hash s.db.tables

  pub append_said-At :
      (turn place : ℕ) (said : Said Args) (s : Running) (nodes : Chain w)
      → At s nodes
      → let a = append_said w turn place said s in
        ((e : Error) × (a.0 ≡ err e) × At a.1 nodes)
        ⊎ ((h : Text) × (a.0 ≡ ok h) × AtWith a.1 nodes said)
  unfolding append_said
  append_said-At turn place said s nodes st =
      let d = run (codec w) (w.others turn place) s.db in
      elim (append-Appended (codec w) H said (w.seen turn place) (w.now turn place) s.ref d nodes
        (role_text-not_root said.role)
        (run-Stands (codec w) H (w.others turn place) s.db s.ref.hash nodes st)) [
          | inl (e, p, q, k) ↦ inl (
            e,
            p,
            subst (λ r. Stands (codec w) r.hash nodes (append_said w turn place said s).1.db.tables)
                (sym q) k,
          )
          | inr (h, p, q, k) ↦ inr (
            h,
            p,
            subst
                (λ r.
                  StandsWith (codec w) H said nodes r.hash
                    (append_said w turn place said s).1.db.tables)
                (sym q) k,
          )
        ]

  pub load_said-At :
      (turn : ℕ) (s : Running) (nodes : Chain w)
      → At s nodes
      → let a = load_said w turn s in
        (((e : Error) × (a.0 ≡ err e)) ⊎ (a.0 ≡ ok nodes)) × At a.1 nodes
  unfolding load_said chain
  load_said-At turn s nodes st =
      let d = run (codec w) (w.others turn 0) s.db in
      let st' = run-Stands (codec w) H (w.others turn 0) s.db s.ref.hash nodes st in
      elim (load_chain-Outcome (codec w) H s.ref.hash nodes d st') [
        | inl (e, p, q) ↦ (inl (e, p), rw q st')
        | inr (ns, p, q) ↦ (inr (p ∙ ap ok q.0), rw (q.1) st')
      ]

  pub said_last :
      (nodes : Chain w) (n : Node (Said Args)) (said : Said Args)
      → n.message ≡ said
      → chain_messages w (nodes ++ (n ∷ [])) ≡ chain_messages w nodes ++ (said ∷ [])
  said_last nodes n said e =
      map-append (λ node. node.message) nodes (n ∷ [])
      ∙ ap (λ m. chain_messages w nodes ++ (m ∷ [])) e

  -- The run ends as a transcript that goes on from the chain, within `limit` turns.
  abbrev pub Grows : ℕ → ℕ → Chain w → RunResult × Running → Type 0
  Grows limit done nodes r =
      (ms : List (Said Args)) × (ns : Chain w) × Transcript w done (chain_messages w nodes) r.0 ms
      × (chain_messages w ns ≡ chain_messages w nodes ++ ms)
      × At r.1 ns
      × (r.0.head_hash ≡ r.1.ref.hash)
      × (r.0.turns ≤ limit)

  module _ (limit done : ℕ) (nodes : Chain w) where
    pub result_at-Grows :
        (status : RunStatus) (error : Option Error) (s : Running)
        → status ≢ completed
        → done ≤ limit
        → At s nodes
        → Grows limit done nodes (result_at w status [] done error s)
    result_at-Grows status error s not_done le st = (
      [],
      nodes,
      unanswered done _ _ not_done refl,
      sym (append-nil (chain_messages w nodes)),
      st,
      refl,
      le,
    )

    module _ (response : CompletionResponse Args)
        (asked : w.complete (suc done) (chain_messages w nodes) ≡ ok response)
        (le : suc done ≤ limit) where
      pub cut-Grows :
          (status : RunStatus) (error : Option Error) (s : Running)
          → status ≢ completed
          → AtWith s nodes (reply_message w response)
          → Grows limit done nodes (result_at w status [] (suc done) error s)
      cut-Grows status error s not_done (n, e, st) = (
        reply_message w response ∷ [],
        nodes ++ (n ∷ []),
        cut done _ _ response asked not_done refl,
        said_last nodes n (reply_message w response) e,
        st,
        refl,
        le,
      )

      pub answered-Grows :
          (s : Running)
          → response.tool_calls ≡ []
          → AtWith s nodes (reply_message w response)
          → Grows limit done nodes (result_at w completed (trim response.text) (suc done) none s)
      answered-Grows s none_called (n, e, st) = (
        reply_message w response ∷ [],
        nodes ++ (n ∷ []),
        answered done _ _ response asked none_called refl refl refl,
        said_last nodes n (reply_message w response) e,
        st,
        refl,
        le,
      )

      pub round-Grows :
          (results : List ToolResult) (n m : Node (Said Args)) (r : RunResult × Running)
          → response.tool_calls ≢ []
          → Answers response.tool_calls results
          → n.message ≡ reply_message w response
          → m.message ≡ results_message w results
          → Grows limit (suc done) ((nodes ++ (n ∷ [])) ++ (m ∷ [])) r
          → Grows limit done nodes r
      round-Grows results n m r called answers en em (ms, ns, rest, e, st, head, le') =
          let both : chain_messages w ((nodes ++ (n ∷ [])) ++ (m ∷ []))
              ≡ chain_messages w nodes
                ++ (reply_message w response ∷ results_message w results ∷ []) =
            said_last (nodes ++ (n ∷ [])) m (results_message w results) em
            ∙ (ap (λ l. l ++ (results_message w results ∷ []))
                  (said_last nodes n (reply_message w response) en)
                ∙ append_assoc (chain_messages w nodes) (reply_message w response ∷ [])
                    (results_message w results ∷ [])) in
          (
            reply_message w response ∷ results_message w results ∷ ms,
            ns,
            round done _ _ response results ms asked called answers
                (subst (λ l. Transcript w (suc done) l r.0 ms) both rest),
            e
                ∙ (ap (λ l. l ++ ms) both
                    ∙ append_assoc (chain_messages w nodes)
                        (reply_message w response ∷ results_message w results ∷ []) ms),
            st,
            head,
            le',
          )
