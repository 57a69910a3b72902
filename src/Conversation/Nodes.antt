-- ===== src/Conversation/Nodes.antt =====
-- conversation/db/node.go: nodes that name their parents by hash, and the chains that they make.
use zoa.Base.{
  ℕ, zero, suc, Bool, Option, none, some, List, [], ◌∷◌, ◌++◌, length, if◌then◌else◌, select_first,
}
use zoa.Base.Text.{Text, codes, text_eq, is_empty}
use zoa.Base.Stamp.{Instant}
use zoa.Base.Sql.{Result, ok, err, pure, raise, ◌>>=◌, ◌>>◌, exec, query}
use zoa.Conversation.Tables.{
  NodeRow, Tables, Error, node_not_found, message, Codec, Node, Action, root_hash, node_hash,
  or_root,
}

-- SELECT … WHERE hash = ?
abbrev pub find_node : Text → List NodeRow → Option NodeRow
find_node hash = select_first λ r. text_eq r.hash hash

abbrev pub found_or : {A : Type 0} → Error → Option A → Action A
found_or e none = raise e
found_or e (some a) = pure a

unfoldable pub ensure_node_exists : Text → Action NodeRow
ensure_node_exists hash =
    query (λ t. find_node hash t.nodes) >>= found_or {A = NodeRow} node_not_found

-- INSERT OR IGNORE INTO conversation_node …
unfoldable pub add_node : NodeRow → Tables → (Unit {0}) × Tables
add_node row t = elim (find_node row.hash t.nodes) [
  | none ↦ (tt, record t { nodes = row ∷ t.nodes })
  | some _ ↦ (tt, t)
]

unfoldable pub root_row : Codec → Instant → NodeRow
unfolding root_hash
root_row codec now = record {
  hash = root_hash codec;
  parent_hash = [];
  role = codes "root";
  message_json = codes "{}";
  created_at = now;
}

unfoldable pub insert_root : Codec → Instant → Action (Unit {0})
insert_root codec now = exec (add_node (root_row codec now))

module _ (codec : Codec) where
  unfoldable pub message_row : Text → codec.Message → Text → Instant → NodeRow
  unfolding node_hash
  message_row parent_hash msg json now = record {
    hash = node_hash codec parent_hash json;
    parent_hash = parent_hash;
    role = codec.role msg;
    message_json = json;
    created_at = now;
  }

  unfoldable pub insert_json : Text → codec.Message → Instant → Option Text → Action Text
  unfolding node_hash
  insert_json parent_hash msg now none = raise (message (codes "encode message"))
  insert_json parent_hash msg now (some json) =
      exec (add_node (message_row parent_hash msg json now))
      >> pure (node_hash codec parent_hash json)

  unfoldable pub insert_node : Text → codec.Message → Instant → Action Text
  unfolding insert_json
  insert_node parent_hash msg now = insert_json parent_hash msg now (codec.marshal msg)

  unfoldable pub append : Text → codec.Message → Instant → Action Text
  append parent_hash msg now =
      ensure_node_exists (or_root codec parent_hash)
      >> insert_node (or_root codec parent_hash) msg now

-- A row that is found, under the rows above it.
unfoldable pub climb : (Text → List NodeRow) → Option NodeRow → List NodeRow
climb above none = []
climb above (some r) = (if is_empty r.parent_hash then [] else above r.parent_hash) ++ (r ∷ [])

-- The recursive query of LoadChain, by the steps that are left: the rows from the root down to `hash`.
unfoldable pub ancestors : ℕ → Text → List NodeRow → List NodeRow
unfolding climb
ancestors zero hash rows = []
ancestors (suc steps) hash rows =
    climb (λ parent. ancestors steps parent rows) (find_node hash rows)

abbrev pub is_root : NodeRow → Bool
is_root r = text_eq r.role (codes "root")

module _ (codec : Codec) where
  abbrev pub Nodes : Type 0
  Nodes = List (Node codec.Message)

  abbrev pub decoded : NodeRow → Option codec.Message → Result Error Nodes → Result Error Nodes
  decoded r none rest = err (message (codes "decode message"))
  decoded r (some msg) (err e) = err e
  decoded r (some msg) (ok nodes) = ok (
      (record {
        hash = r.hash;
        parent_hash = r.parent_hash;
        message = msg;
        created_at = r.created_at;
      })
      ∷ nodes)

  -- The loop over the rows.
  unfoldable pub scan_nodes : List NodeRow → Result Error Nodes
  scan_nodes [] = ok []
  scan_nodes (r ∷ rows) =
      let rest = scan_nodes rows in
      if is_root r then rest else decoded r (codec.unmarshal r.message_json) rest

  -- A hash other than the root's that has no node is an error.
  abbrev pub chain_or : Text → Result Error Nodes → Action Nodes
  chain_or hash (err e) = raise e
  chain_or hash (ok (n ∷ nodes)) = pure (n ∷ nodes)
  chain_or hash (ok []) =
      if text_eq hash (codec.sha256 (codes "ROOT"))
      then pure []
      else ensure_node_exists hash >> pure []

  unfoldable pub load_chain : Text → Action Nodes
  load_chain hash = query (λ t. ancestors (length t.nodes) (or_root codec hash) t.nodes) >>= λ rows.
      chain_or (or_root codec hash) (scan_nodes rows)
