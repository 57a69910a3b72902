-- ===== src/Conversation/History/Chains.antt =====
-- The chains of nodes under histories of calls on conversation/db.
use zoa.Base.{◌≡◌, refl, sym, ap, ◌∙◌, some, List}
use zoa.Base.Text.{Text}
use zoa.Base.Sql.{Db}
use zoa.Conversation.Tables.{NodeRow, Tables, Error, Codec, or_root}
use zoa.Conversation.Nodes.{find_node, scan_nodes, load_chain, root_row, message_row}
use zoa.Conversation.Tree.Sound.{Hashing}
use zoa.Conversation.Tree.History.{history}
use zoa.Conversation.Tree.Insert.{add_node-Extends}
use zoa.Conversation.Tree.Load.{quiet, load_chain-history}
use zoa.Conversation.Invariant.{Inv, IsPreserved, Inv-IsPreserved}
use zoa.Conversation.History.Step.{Call, run}
use zoa.Conversation.History.Preserve.{run-Preserved}

module _ (codec : Codec) (H : Hashing codec) where
  -- With no collision of SHA-256 every history of calls, whichever statements fail in it, keeps a
  -- sound database sound: the nodes are a tree in which a node's hash is that of its contents and
  -- its parent is older, and every ref points to a node.
  pub run_sound :
      (cs : List (Call codec)) (d : Db Tables Error)
      → Inv codec d.tables
      → Inv codec (run codec cs d).tables
  run_sound cs d v = run-Preserved codec H (Inv codec) (Inv-IsPreserved codec H) cs d v

  -- The node is there, with this history.
  abbrev pub Frozen : Text → NodeRow → List NodeRow → Tables → Type 0
  Frozen h x rows t = Inv codec t × (find_node h t.nodes ≡ some x) × (history h t.nodes ≡ rows)

  pub Frozen-IsPreserved :
      (h : Text) (x : NodeRow) (rows : List NodeRow) → IsPreserved codec (Frozen h x rows)
  Frozen-IsPreserved h x rows =
      let K = Inv-IsPreserved codec H in
      record {
        sound = λ t v. v.0;
        root_added = λ now t v.
            let ext = add_node-Extends codec H (root_row codec now) t h x v.1 in
            (K.root_added now t v.0, ext.0, ext.1 ∙ v.2);
        message_added = λ p msg json now t y e j v.
            let ext = add_node-Extends codec H (message_row codec p msg json now) t h x v.1 in
            (K.message_added p msg json now t y e j v.0, ext.0, ext.1 ∙ v.2);
        refs_changed = λ t rs v found. (K.refs_changed t rs v.0 found, v.1, v.2);
      }

  -- The chain of a node never changes. In a sound database, with no collision of SHA-256, for a
  -- hash that has a node: after any history of calls LoadChain returns what it returned before, if
  -- its own statements do not fail.
  pub run-load_chain :
      (cs : List (Call codec)) (d : Db Tables Error) (h : Text) (x : NodeRow)
      → Inv codec d.tables
      → find_node (or_root codec h) d.tables.nodes ≡ some x
      → (load_chain codec h (quiet (run codec cs d).tables)).0
        ≡ (load_chain codec h (quiet d.tables)).0
  run-load_chain cs d h x v e =
      let k = or_root codec h in
      let P = Frozen k x (history k d.tables.nodes) in
      let (w, f, same) =
        run-Preserved codec H P (Frozen-IsPreserved k x (history k d.tables.nodes)) cs d
          (v, e, refl) in
      ap (λ r. r.0) (load_chain-history codec h (run codec cs d).tables x w.grown f)
      ∙ (ap (scan_nodes codec) same
          ∙ sym (ap (λ r. r.0) (load_chain-history codec h d.tables x v.grown e)))
