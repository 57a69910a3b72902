-- ===== src/Conversation/Standing.antt =====
-- The chain at a hash, in a sound database: it is loaded as it is whichever statements fail, others'
-- calls leave it alone, and an append through a LeasedRef adds its message.
use zoa.Base.{
  ◌≡◌, refl, sym, ap, subst, ◌∙◌, inl, inr, Bool, true, false, ◌⊎◌, List, [], ◌∷◌, ◌++◌, arith,
  some, length, if◌then◌else◌, Bool-cases,
}
use zoa.Base.Text.{Text, codes, text_eq}
use zoa.Base.Stamp.{Instant}
use zoa.Base.Sql.{Db, Result, ok, err, query, pure}
use zoa.Base.Sql.Outcomes.{Outcome, map-Outcome, pure-Outcome, query-Outcome, >>=-Outcome}
use zoa.Conversation.Tables.{NodeRow, Tables, Error, Codec, Node, or_root, lease_not_held}
use zoa.Conversation.Nodes.{
  find_node, Nodes, scan_nodes, chain_or, load_chain, ancestors, ensure_node_exists,
}
use zoa.Conversation.Refs.{advance_ref, update_refs}
use zoa.Conversation.Leased.{LeasedRef, append, moved, close}
use zoa.Conversation.Tree.Sound.{Hashing}
use zoa.Conversation.Tree.History.{history, ancestors-history}
use zoa.Conversation.Tree.Insert.{found_nonempty}
use zoa.Conversation.Tree.Load.{quiet, load_chain-history, node_of}
use zoa.Conversation.Tree.Appending.{or_root-nonempty, inserted_chain}
use zoa.Conversation.Effects.{ensure_node_exists-Outcome}
use zoa.Conversation.Moves.{Advances, advance_ref-Outcome}
use zoa.Conversation.Invariant.{Inv}
use zoa.Conversation.History.{Call, run, step}
use zoa.Conversation.History as History
use zoa.Conversation.History.Chains.{Frozen, Frozen-IsPreserved, run_sound}
use zoa.Conversation.History.Preserve.{run-Preserved}

module _ (codec : Codec) where
  -- The database is sound, and the chain at `h` is `nodes`.
  abbrev pub Stands : Text → Nodes codec → Tables → Type 0
  Stands h nodes t =
      Inv codec t
      × (x : NodeRow) × (find_node h t.nodes ≡ some x)
      × (scan_nodes codec (history h t.nodes) ≡ ok nodes)

module _ (codec : Codec) (H : Hashing codec) where
  Stands-or_root :
      (h : Text) (nodes : Nodes codec) (t : Tables) → Stands codec h nodes t → or_root codec h ≡ h
  Stands-or_root h nodes t (v, x, f, _) =
      or_root-nonempty codec H h (found_nonempty codec H h t.nodes x v.grown f)

  pub run-Stands :
      (cs : List (Call codec)) (d : Db Tables Error) (h : Text) (nodes : Nodes codec)
      → Stands codec h nodes d.tables
      → Stands codec h nodes (run codec cs d).tables
  run-Stands cs d h nodes (v, x, f, e) =
      let rows = history h d.tables.nodes in
      let (w, g, same) =
        run-Preserved codec H (Frozen codec H h x rows) (Frozen-IsPreserved codec H h x rows) cs d
          (v, f, refl) in
      (w, x, g, ap (scan_nodes codec) same ∙ e)

  pub load_chain-Stands :
      (h : Text) (nodes : Nodes codec) (t : Tables)
      → Stands codec h nodes t
      → (load_chain codec h (quiet t)).0 ≡ ok nodes
  load_chain-Stands h nodes t (v, x, f, e) =
      let same = Stands-or_root h nodes t (v, x, f, e) in
      ap (λ r. r.0)
        (load_chain-history codec h t x v.grown
          (subst (λ k. find_node k t.nodes ≡ some x) (sym same) f))
      ∙ (ap (λ k. scan_nodes codec (history k t.nodes)) same ∙ e)

  -- LoadChain fails, or returns the chain.
  abbrev Chains : Nodes codec → Tables → Nodes codec → Tables → Type 0
  Chains nodes t ns u = (ns ≡ nodes) × (u ≡ t)

  chain_or-Outcome :
      (k : Text) (nodes : Nodes codec) (t : Tables) (d : Db Tables Error)
      → d.tables ≡ t
      → Outcome t (Chains nodes t) (chain_or codec k (ok nodes) d)
  chain_or-Outcome k (n ∷ nodes) t d same =
      pure-Outcome t (Chains (n ∷ nodes) t) (n ∷ nodes) d (refl, same)
  chain_or-Outcome k [] t d same = elim (Bool-cases (text_eq k (codec.sha256 (codes "ROOT")))) [
    | inl y ↦ rw y (pure-Outcome t (Chains [] t) [] d (refl, same))
    | inr n ↦ rw n (
        >>=-Outcome (ensure_node_exists k) (λ _. pure []) d t (λ x u. u ≡ t) (Chains [] t)
          (map-Outcome d.tables t (λ x u. (find_node k d.tables.nodes ≡ some x) × (u ≡ d.tables))
            (λ x u. u ≡ t) (ensure_node_exists k d) same (λ x q. q.1 ∙ same)
            (ensure_node_exists-Outcome k d))
          (λ x d' q. pure-Outcome t (Chains [] t) [] d' (refl, q)))
  ]

  pub load_chain-Outcome :
      (h : Text) (nodes : Nodes codec) (d : Db Tables Error)
      → Stands codec h nodes d.tables
      → Outcome d.tables (Chains nodes d.tables) (load_chain codec h d)
  unfolding load_chain
  load_chain-Outcome h nodes d (v, x, f, e) =
      let k = or_root codec h in
      let t = d.tables in
      let scanned : scan_nodes codec (ancestors (length t.nodes) k t.nodes) ≡ ok nodes =
        ap (scan_nodes codec)
          (ancestors-history codec (length t.nodes) k t.nodes v.grown (omega arith))
        ∙ (ap (λ z. scan_nodes codec (history z t.nodes)) (Stands-or_root h nodes t (v, x, f, e))
            ∙ e) in
      >>=-Outcome (query (λ u. ancestors (length u.nodes) k u.nodes))
        (λ rows. chain_or codec k (scan_nodes codec rows)) d t
        (λ rows u. (rows ≡ ancestors (length t.nodes) k t.nodes) × (u ≡ t)) (Chains nodes t)
        (query-Outcome (λ u. ancestors (length u.nodes) k u.nodes) d)
        (λ rows d' q. rw (q.0, scanned) (chain_or-Outcome k nodes t d' q.1))

  -- The chain of `h` is `nodes`, and a node with the message.
  abbrev pub StandsWith : codec.Message → Nodes codec → Text → Tables → Type 0
  StandsWith msg nodes h t =
      (n : Node codec.Message) × (n.message ≡ msg) × Stands codec h (nodes ++ (n ∷ [])) t

  Advances-Stands :
      (name p : Text) (msg : codec.Message) (runner_id : Text) (seen now : Instant)
      (d : Db Tables Error) (nodes : Nodes codec) (h : Text) (t' : Tables)
      → text_eq (codec.role msg) (codes "root") ≡ false
      → Stands codec p nodes d.tables
      → Inv codec t'
      → Advances codec name p msg runner_id seen now d.tables h t'
      → StandsWith msg nodes h t'
  unfolding update_refs
  Advances-Stands name p msg runner_id seen now d nodes h t' not_root (v, y, f, e) v'
        (_, _, _, _, json, j, eh, q) =
      let (x, g, _, loads) =
        inserted_chain codec H p msg json now d.tables y nodes f j v.grown not_root e in
      let rows = ap (λ (u : Tables). u.nodes) q in
      (node_of codec x msg, refl, (v', x, rw (eh, rows) g, rw (eh, rows) loads))

  -- An append through the ref.
  abbrev pub Appended :
      codec.Message
      → Nodes codec
      → LeasedRef
      → Result Error Text × (LeasedRef × Db Tables Error)
      → Type 0
  Appended msg nodes r a =
      ((e : Error) × (a.0 ≡ err e) × (a.1.0 ≡ r) × Stands codec r.hash nodes a.1.1.tables)
      ⊎ ((h : Text) × (a.0 ≡ ok h)
          × (a.1.0 ≡ record r { hash = h })
          × StandsWith msg nodes h a.1.1.tables)

  advanced-Inv :
      (name p : Text) (msg : codec.Message) (runner_id : Text) (seen now : Instant)
      (d : Db Tables Error)
      → Inv codec d.tables
      → Inv codec (advance_ref codec name p msg runner_id seen now d).1.tables
  unfolding run step
  advanced-Inv name p msg runner_id seen now d v =
      run_sound codec H (History.advance name p msg runner_id seen now ∷ []) d v

  moved-Appended :
      (msg : codec.Message) (nodes : Nodes codec) (r : LeasedRef) (t : Tables)
      (result : Result Error Text × Db Tables Error)
      → Stands codec r.hash nodes t
      → Outcome t (StandsWith msg nodes) result
      → Appended msg nodes r (result.0, (moved result.0 r, result.1))
  moved-Appended msg nodes r t result st (inl (e, p, q)) = inl (e, p, rw p refl, rw q st)
  moved-Appended msg nodes r t result st (inr (h, p, sw)) = inr (h, p, rw p refl, sw)

  pub append-Appended :
      (msg : codec.Message) (seen now : Instant) (r : LeasedRef) (d : Db Tables Error)
      (nodes : Nodes codec)
      → text_eq (codec.role msg) (codes "root") ≡ false
      → Stands codec r.hash nodes d.tables
      → Appended msg nodes r (append codec msg seen now r d)
  unfolding append
  append-Appended msg seen now r d nodes not_root st =
      let call = advance_ref codec r.name r.hash msg r.runner_id seen now d in
      let v' = advanced-Inv r.name r.hash msg r.runner_id seen now d st.0 in
      either_way r.released (call.0, (moved call.0 r, call.1))
        (moved-Appended msg nodes r d.tables call st (
          map-Outcome d.tables d.tables
            (Advances codec r.name r.hash msg r.runner_id seen now d.tables) (StandsWith msg nodes)
            call refl
            (λ h a.
              Advances-Stands r.name r.hash msg r.runner_id seen now d nodes h call.1.tables
                not_root st v' a)
            (advance_ref-Outcome codec r.name r.hash msg r.runner_id seen now d)))
    where
      either_way :
          (released : Bool) (a : Result Error Text × (LeasedRef × Db Tables Error))
          → Appended msg nodes r a
          → Appended msg nodes r (if released then (err lease_not_held, (r, d)) else a)
      either_way true a h = inl (lease_not_held, refl, refl, st)
      either_way false a h = h

  pub close-Stands :
      (now : Instant) (r : LeasedRef) (d : Db Tables Error) (h : Text) (nodes : Nodes codec)
      → Stands codec h nodes d.tables
      → Stands codec h nodes (close now r d).1.1.tables
  unfolding close run step
  close-Stands now r d h nodes st = elim (Bool-cases r.released) [
    | inl y ↦ rw y st
    | inr n ↦ rw n (run-Stands (History.release r.name r.runner_id now ∷ []) d h nodes st)
  ]
