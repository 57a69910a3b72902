-- ===== src/Conversation/Tree/Load.antt =====
-- What LoadChain returns: the decoded history of the hash.
use zoa.Base.{
  ◌≡◌, refl, ap, ◌∙◌, inl, inr, false, Option, none, some, List, [], ◌∷◌, ◌++◌, arith, length,
  Bool-cases,
}
use zoa.Base.Text.{Text, codes, text_eq}
use zoa.Base.Sql.{Db, Result, ok, err, pure, query, exec}
use zoa.Base.Sql.Outcomes.{bind_ok}
use zoa.Conversation.Tables.{NodeRow, Tables, Error, node_not_found, Codec, Node, or_root}
use zoa.Conversation.Nodes.{
  find_node, found_or, ensure_node_exists, is_root, Nodes, decoded, scan_nodes, chain_or,
  load_chain,
}
use zoa.Conversation.Tree.Sound.{Grown}
use zoa.Conversation.Tree.History.{history, ancestors-history}

-- The tables behind statements that do not fail.
abbrev pub quiet : Tables → Db Tables Error
quiet t = record { tables = t; faults = [] }

ensure_node_exists-found :
    (h : Text) (t : Tables) (x : NodeRow)
    → find_node h t.nodes ≡ some x
    → ensure_node_exists h (quiet t) ≡ (ok x, quiet t)
unfolding ensure_node_exists query exec
ensure_node_exists-found h t x f = ap (λ o. found_or node_not_found o (quiet t)) f

module _ (codec : Codec) where
  chain_or-found :
      (h : Text) (r : Result Error (Nodes codec)) (t : Tables) (x : NodeRow)
      → find_node h t.nodes ≡ some x
      → chain_or codec h r (quiet t) ≡ (r, quiet t)
  chain_or-found h (err e) t x f = refl
  chain_or-found h (ok (n ∷ nodes)) t x f = refl
  chain_or-found h (ok []) t x f = elim (Bool-cases (text_eq h (codec.sha256 (codes "ROOT")))) [
    | inl y ↦ rw y refl
    | inr n ↦
        let there = ensure_node_exists-found h t x f in
        rw n (
          bind_ok (ensure_node_exists h) (λ _. pure []) (quiet t) x (ap (λ r. r.0) there)
          ∙ ap (λ r. pure [] r.1) there)
  ]

  pub load_chain-history :
      (h : Text) (t : Tables) (x : NodeRow)
      → Grown codec t.nodes
      → find_node (or_root codec h) t.nodes ≡ some x
      → load_chain codec h (quiet t)
        ≡ (scan_nodes codec (history (or_root codec h) t.nodes), quiet t)
  unfolding load_chain query exec
  load_chain-history h t x g f =
      let k = or_root codec h in
      ap (λ rows. chain_or codec k (scan_nodes codec rows) (quiet t))
        (ancestors-history codec (length t.nodes) k t.nodes g (omega arith))
      ∙ chain_or-found k (scan_nodes codec (history k t.nodes)) t x f

  -- The node that a row stands for.
  abbrev pub node_of : NodeRow → codec.Message → Node codec.Message
  node_of r msg = record {
    hash = r.hash;
    parent_hash = r.parent_hash;
    message = msg;
    created_at = r.created_at;
  }

  decoded_ok :
      (r : NodeRow) (o : Option codec.Message) (rest : Result Error (Nodes codec))
      {nodes : Nodes codec}
      → decoded codec r o rest ≡ ok nodes
      → (msg : codec.Message) × (tail : Nodes codec) × (o ≡ some msg)
        × (rest ≡ ok tail)
        × (nodes ≡ node_of r msg ∷ tail)
  decoded_ok r none rest h = absurd (cc)
  decoded_ok r (some msg) (err e) h = absurd (cc)
  decoded_ok r (some msg) (ok tail) h = (msg, tail, refl, refl, ground arith)

  -- The rows' last one is decoded last.
  pub scan_nodes-append :
      (rows : List NodeRow) (x : NodeRow) (msg : codec.Message) {nodes : Nodes codec}
      → is_root x ≡ false
      → codec.unmarshal x.message_json ≡ some msg
      → scan_nodes codec rows ≡ ok nodes
      → scan_nodes codec (rows ++ (x ∷ [])) ≡ ok (nodes ++ (node_of x msg ∷ []))
  unfolding scan_nodes
  scan_nodes-append [] x msg {nodes} not_root read e =
      let none_yet : nodes ≡ [] = ground arith in rw (not_root, read, none_yet) refl
  scan_nodes-append (r ∷ rows) x msg {nodes} not_root read e = elim (Bool-cases (is_root r)) [
    | inl y ↦ rw y (scan_nodes-append rows x msg {nodes = nodes} not_root read (rw y at e))
    | inr n ↦
        let e' = rw n at e in
        let (m, tail, o, rest, same) =
          decoded_ok r (codec.unmarshal r.message_json) (scan_nodes codec rows) e' in
        rw (n, o, scan_nodes-append rows x msg {nodes = tail} not_root read rest, same) refl
  ]
