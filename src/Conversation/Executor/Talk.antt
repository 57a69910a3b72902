-- ===== src/Conversation/Executor/Talk.antt =====
-- Run of conversation/executor.go, from the user's message to the result.
use mathlib.Core.List.{append_assoc, append-nil}
use zoa.Base.{
  ◌≤◌, ◌≡◌, refl, sym, ap, subst, ◌∙◌, ◌⊎◌, inl, inr, false, none, some, Option, List, [], ◌∷◌,
  ◌++◌, arith, Bool, true, if◌then◌else◌,
}
use zoa.Base.Text.{Text, is_empty, trim}
use zoa.Base.Sql.{Result, ok, err}
use zoa.Conversation.Tables.{Error}
use zoa.Conversation.Nodes.{load_chain}
use zoa.Conversation.Tree.Sound.{Hashing}
use zoa.Conversation.Tree.Load.{quiet}
use zoa.Conversation.History.{run}
use zoa.Conversation.Standing.{Stands, run-Stands, load_chain-Stands, close-Stands}
use zoa.Conversation.Executor.{Said, World, errored, RunResult, Running, system, user, Executor}
use zoa.Conversation.Executor.Loop.{
  codec, chain_messages, Chain, append_said, load_said, says, append_failure, with_chain,
  ensure_system_prompt, sent, after_prompt, run_turns, result_at, finish_run, run_message,
}
use zoa.Conversation.Executor.Transcript.{Transcript}
use zoa.Conversation.Executor.Grows.{At, AtWith, append_said-At, load_said-At, said_last}
use zoa.Conversation.Executor.Turns.{run_turns-Grows}

module _ {Args : Type 0} (w : World Args) where
  -- Nothing, or the system prompt.
  abbrev pub Opening : Text → List (Said Args) → Type 0
  Opening prompt opening =
      (opening ≡ []) ⊎ ((is_empty prompt ≡ false) × (opening ≡ says w system prompt ∷ []))

  -- Nothing more because of an error, or the user's message and a transcript.
  abbrev pub Follows : Text → List (Said Args) → RunResult → List (Said Args) → Type 0
  Follows text before r ms =
      ((ms ≡ []) × (r.status ≡ errored) × (r.turns ≡ 0))
      ⊎ ((rest : List (Said Args)) × (ms ≡ says w user (trim text) ∷ rest)
          × Transcript w 0 (before ++ (says w user (trim text) ∷ [])) r rest)

  -- The run ends, with the conversation in the database that it had before and these additions.
  abbrev pub Converses :
      Executor → Text → List (Said Args) → Result Error RunResult × Running → Type 0
  Converses e text before o =
      (r : RunResult) × (opening : List (Said Args)) × (ms : List (Said Args)) × (ns : Chain w)
      × (o.0 ≡ ok r)
      × Opening e.system_prompt opening
      × Follows text (before ++ opening) r ms
      × (chain_messages w ns ≡ (before ++ opening) ++ ms)
      × ((load_chain (codec w) r.head_hash (quiet o.1.db.tables)).0 ≡ ok ns)
      × (r.turns ≤ e.max_turns)

  module _ (H : Hashing (codec w)) where
    abbrev Opens : Text → Chain w → Running → Type 0
    Opens prompt nodes s =
        (opening : List (Said Args)) × (ns : Chain w) × Opening prompt opening
        × (chain_messages w ns ≡ chain_messages w nodes ++ opening)
        × At w H s ns

    unopened :
        (prompt : Text) (nodes : Chain w) (s : Running) → At w H s nodes → Opens prompt nodes s
    unopened prompt nodes s st =
        ([], nodes, inl refl, sym (append-nil (chain_messages w nodes)), st)

    prompted :
        (prompt : Text) (nodes : Chain w) (s : Running)
        → is_empty prompt ≡ false
        → At w H s nodes
        → Opens prompt nodes (append_failure w (append_said w 0 1 (says w system prompt) s)).1
    prompted prompt nodes s there st =
        by_append (append_said w 0 1 (says w system prompt) s)
          (append_said-At w H 0 1 (says w system prompt) s nodes st)
      where
        by_append :
            (a : Result Error Text × Running)
            → ((x : Error) × (a.0 ≡ err x) × At w H a.1 nodes)
              ⊎ ((h : Text) × (a.0 ≡ ok h) × AtWith w H a.1 nodes (says w system prompt))
            → Opens prompt nodes (append_failure w a).1
        by_append a (inl (x, p, k)) = rw p (unopened prompt nodes a.1 k)
        by_append a (inr (h, p, (n, q, k))) = rw p (
          says w system prompt ∷ [],
          nodes ++ (n ∷ []),
          inr (there, refl),
          said_last w H nodes n (says w system prompt) q,
          k,
        )

    with_chain-Opens :
        (prompt : Text) (nodes : Chain w) (a : Result Error (Chain w) × Running)
        → is_empty prompt ≡ false
        → At w H a.1 nodes
        → Opens prompt nodes (with_chain w prompt a).1
    with_chain-Opens prompt nodes (ok (n ∷ ns), s) there st = unopened prompt nodes s st
    with_chain-Opens prompt nodes (ok [], s) there st = prompted prompt nodes s there st
    with_chain-Opens prompt nodes (err x, s) there st = prompted prompt nodes s there st

    ensure_system_prompt-Opens :
        (prompt : Text) (nodes : Chain w) (s : Running)
        → At w H s nodes
        → Opens prompt nodes (ensure_system_prompt w prompt s).1
    unfolding ensure_system_prompt
    ensure_system_prompt-Opens prompt nodes s st = either_way (is_empty prompt) refl
      where
        either_way :
            (b : Bool)
            → is_empty prompt ≡ b
            → Opens prompt nodes (if b then (none, s) else with_chain w prompt (load_said w 0 s)).1
        either_way true e = unopened prompt nodes s st
        either_way false e =
            with_chain-Opens prompt nodes (load_said w 0 s) e (load_said-At w H 0 s nodes st).1

    -- What is there before the lease is released.
    abbrev Told : Executor → Text → Chain w → RunResult × Running → Type 0
    Told e text nodes o =
        (ms : List (Said Args)) × (ns : Chain w) × Follows text (chain_messages w nodes) o.0 ms
        × (chain_messages w ns ≡ chain_messages w nodes ++ ms)
        × At w H o.1 ns
        × (o.0.head_hash ≡ o.1.ref.hash)
        × (o.0.turns ≤ e.max_turns)

    untold :
        (e : Executor) (text : Text) (nodes : Chain w) (x : Error) (s : Running)
        → At w H s nodes
        → Told e text nodes (result_at w errored [] 0 (some x) s)
    untold e text nodes x s st = (
      [],
      nodes,
      inl (refl, refl, refl),
      sym (append-nil (chain_messages w nodes)),
      st,
      refl,
      omega arith,
    )

    sent-Told :
        (e : Executor) (text : Text) (nodes : Chain w) (a : Result Error Text × Running)
        → ((x : Error) × (a.0 ≡ err x) × At w H a.1 nodes)
          ⊎ ((h : Text) × (a.0 ≡ ok h) × AtWith w H a.1 nodes (says w user (trim text)))
        → Told e text nodes (sent w e.max_turns a)
    sent-Told e text nodes a (inl (x, p, k)) = rw p (untold e text nodes x a.1 k)
    sent-Told e text nodes a (inr (h, p, (n, q, k))) =
        let said = says w user (trim text) in
        let more = said_last w H nodes n said q in
        let (ms, ns, t, same, st, head, le) =
          run_turns-Grows w H e.max_turns 0 e.max_turns a.1 (nodes ++ (n ∷ [])) (omega arith) k in
        rw p (
          said ∷ ms,
          ns,
          inr (ms, refl, subst (λ l. Transcript w 0 l (run_turns w e.max_turns 0 a.1).0 ms) more t),
          same ∙ (ap (λ l. l ++ ms) more ∙ append_assoc (chain_messages w nodes) (said ∷ []) ms),
          st,
          head,
          le,
        )

    after_prompt-Told :
        (e : Executor) (text : Text) (nodes : Chain w) (a : Option Error × Running)
        → At w H a.1 nodes
        → Told e text nodes (after_prompt w e text a)
    after_prompt-Told e text nodes (some x, s) st = untold e text nodes x s st
    after_prompt-Told e text nodes (none, s) st =
        sent-Told e text nodes (append_said w 0 2 (says w user (trim text)) s)
          (append_said-At w H 0 2 (says w user (trim text)) s nodes st)

    -- A run of the Executor keeps the conversation and adds to it. Where Run takes the message, whatever
    -- the model, the tools, others on the same database, failing statements and interruptions do: the
    -- run ends, in at most the turns that are allowed. The chain at its head hash is the chain of the
    -- ref before, then perhaps the system prompt, then, unless the run is errored without a turn, the
    -- user's message and a transcript: replies that the model gave when asked with all the messages
    -- before them, each but the last with tool calls and followed by one result for each of these, in
    -- order; the last may be followed by its results too. A completed run ends with a reply without
    -- calls, whose trimmed text is the final text.
    -- SHA-256 has no collision, and the database is sound and has a chain at the ref's hash.
    pub run_message-Converses :
        (e : Executor) (text : Text) (s : Running) (nodes : Chain w)
        → is_empty (trim text) ≡ false
        → e.running ≡ false
        → At w H s nodes
        → Converses e text (chain_messages w nodes) (run_message w e text s)
    unfolding run_message
    run_message-Converses e text s nodes filled idle st =
        let o = ensure_system_prompt w e.system_prompt s in
        let (opening, ns, opens, more, st1) =
          ensure_system_prompt-Opens e.system_prompt nodes s st in
        let (ms, ns', follows, same, st2, head, le) = after_prompt-Told e text ns o st1 in
        let r = after_prompt w e text o in
        let d = run (codec w) (w.others 0 3) r.1.db in
        rw (filled, idle)
          (
            r.0,
            opening,
            ms,
            ns',
            refl,
            opens,
            subst (λ l. Follows text l r.0 ms) more follows,
            same ∙ ap (λ l. l ++ ms) more,
            load_chain-Stands (codec w) H r.0.head_hash ns' _ (
                subst (λ h. Stands (codec w) h ns' (finish_run w r).1.db.tables) (sym head)
                  (close-Stands (codec w) H (w.now 0 3) r.1.ref d r.1.ref.hash ns'
                    (run-Stands (codec w) H (w.others 0 3) r.1.db r.1.ref.hash ns' st2))),
            le,
          )
