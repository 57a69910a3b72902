-- ===== src/Conversation/Tree/Appending.antt =====
-- Append and then LoadChain.
use zoa.Base.{◌≡◌, refl, sym, ap, subst, ◌∙◌, ◌≢◌, inl, inr, false, some, [], ◌∷◌, ◌++◌, arith}
use zoa.Base.Text.{Text, codes, text_eq}
use zoa.Base.Stamp.{Instant}
use zoa.Base.Sql.{Db, ok}
use zoa.Conversation.Tables.{NodeRow, Tables, Error, Codec, Node, or_root, node_hash}
use zoa.Conversation.Nodes.{find_node, add_node, message_row, Nodes, scan_nodes, append, load_chain}
use zoa.Conversation.Tree.Sound.{Hashing, Grown, found_hash}
use zoa.Conversation.Tree.History.{history}
use zoa.Conversation.Tree.Insert.{
  message_row-Grown, message_row-Inserted, add_node-Extends, found_nonempty,
}
use zoa.Conversation.Tree.Load.{quiet, load_chain-history, scan_nodes-append, node_of}
use zoa.Conversation.Effects.{Appends, append-Outcome}

module _ (codec : Codec) (H : Hashing codec) where
  pub or_root-nonempty : (h : Text) → h ≢ [] → or_root codec h ≡ h
  or_root-nonempty [] n = absurd (n refl)
  or_root-nonempty (c ∷ h) n = refl

  -- A message that is inserted under `p` comes after the chain of `p`.
  pub inserted_chain :
      (p : Text) (msg : codec.Message) (json : Text) (now : Instant) (t : Tables) (y : NodeRow)
      (nodes : Nodes codec)
      → find_node p t.nodes ≡ some y
      → codec.marshal msg ≡ some json
      → Grown codec t.nodes
      → text_eq (codec.role msg) (codes "root") ≡ false
      → scan_nodes codec (history p t.nodes) ≡ ok nodes
      → let k = node_hash codec p json in
        let t1 = (add_node (message_row codec p msg json now) t).1 in
        (x : NodeRow) × (find_node k t1.nodes ≡ some x)
        × (x.parent_hash ≡ p)
        × (scan_nodes codec (history k t1.nodes) ≡ ok (nodes ++ (node_of codec x msg ∷ [])))
  inserted_chain p msg json now t y nodes e j g not_root before =
      let row = message_row codec p msg json now in
      let t1 = (add_node row t).1 in
      let (x, f, par, js, role, hist) = message_row-Inserted codec H p msg json now t y e j g in
      (
        x,
        f,
        par,
        ap (scan_nodes codec) hist
            ∙ scan_nodes-append codec (history p t1.nodes) x msg {nodes = nodes}
                (ap (λ r. text_eq r (codes "root")) role ∙ not_root)
                (ap codec.unmarshal js ∙ H.read_back msg json j)
                (ap (scan_nodes codec) (add_node-Extends codec H row t p y e).1 ∙ before),
      )

  -- The chain of `h` in `t` is `nodes` and one more node, with the message.
  abbrev pub ChainEnds : Text → Text → codec.Message → Nodes codec → Tables → Type 0
  ChainEnds parent h msg nodes t =
      (n : Node codec.Message) × (n.message ≡ msg)
      × (n.hash ≡ h)
      × (n.parent_hash ≡ or_root codec parent)
      × ((load_chain codec h (quiet t)).0 ≡ ok (nodes ++ (n ∷ [])))

  appended :
      (parent : Text) (msg : codec.Message) (now : Instant) (t : Tables) (h : Text) (t' : Tables)
      (nodes : Nodes codec)
      → Grown codec t.nodes
      → text_eq (codec.role msg) (codes "root") ≡ false
      → Appends codec parent msg now t h t'
      → (load_chain codec parent (quiet t)).0 ≡ ok nodes
      → ChainEnds parent h msg nodes t'
  appended parent msg now t h t' nodes g not_root (y, e, (json, j, eh, q)) loaded =
      let p = or_root codec parent in
      let k = node_hash codec p json in
      let g' = message_row-Grown codec H p msg json now t y e j g in
      let (x, f, par, loads) =
        inserted_chain p msg json now t y nodes e j g not_root
          (sym (ap (λ r. r.0) (load_chain-history codec parent t y g e)) ∙ loaded) in
      let t1 = (add_node (message_row codec p msg json now) t).1 in
      let same = or_root-nonempty k (found_nonempty codec H k t1.nodes x g' f) in
      rw (q, eh)
        (
          node_of codec x msg,
          refl,
          found_hash codec k t1.nodes {x = x} f,
          par,
          ap (λ r. r.0)
                (load_chain-history codec k t1 x g'
                  (subst (λ z. find_node z t1.nodes ≡ some x) (sym same) f))
              ∙ (ap (λ z. scan_nodes codec (history z t1.nodes)) same ∙ loads),
        )

  -- An append that succeeds adds its message at the end: the chain of the hash that it returns is the
  -- chain of the parent and then one node with the message, also where the same message had been
  -- appended there before. The tables are those of a sound database, SHA-256 has no collision, and the
  -- message's role is not "root".
  pub append-load_chain :
      (parent : Text) (msg : codec.Message) (now : Instant) (d : Db Tables Error) {h : Text}
      {nodes : Nodes codec}
      → Grown codec d.tables.nodes
      → text_eq (codec.role msg) (codes "root") ≡ false
      → (append codec parent msg now d).0 ≡ ok h
      → (load_chain codec parent (quiet d.tables)).0 ≡ ok nodes
      → ChainEnds parent h msg nodes (append codec parent msg now d).1.tables
  append-load_chain parent msg now d {h} {nodes} g not_root won loaded =
      elim (append-Outcome codec parent msg now d) [
        | inl (e, p, _) ↦ absurd (cc)
        | inr (h', p, a) ↦
            let same : h' ≡ h = ground arith in
            appended parent msg now d.tables h (append codec parent msg now d).1.tables nodes g
              not_root
              (subst
                (λ k.
                  Appends codec parent msg now d.tables k (append codec parent msg now d).1.tables)
                same a)
              loaded
      ]
