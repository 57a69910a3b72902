-- ===== src/Conversation/Tables.antt =====
-- The tables of conversation/db/schema.go and the types of conversation/db/db.go. A table is the list
-- of its rows, the newest first.
use zoa.Base.{Option, List, ◌∷◌, ◌++◌, if◌then◌else◌}
use zoa.Base.Text.{Text, codes, is_empty}
use zoa.Base.Stamp.{Instant}
use zoa.Base.Sql.{M}

-- conversation_node
pub record NodeRow : Type 0 where
  pub hash : Text
  pub parent_hash : Text
  pub role : Text
  pub message_json : Text
  pub created_at : Instant

-- conversation_ref. An empty `lease_until` is `none`; any other text there is one that Format wrote,
-- which Parse reads back.
pub record RefRow : Type 0 where
  pub name : Text
  pub hash : Text
  pub leased_by : Text
  pub lease_until : Option Instant
  pub updated_at : Instant

pub record Tables : Type 0 where
  pub nodes : List NodeRow
  pub refs : List RefRow

-- errors.go, and any other error by its text
pub data Error : Type 0 where
  node_not_found ref_not_found ref_moved ref_leased lease_not_held : Error
  message : Text → Error

-- llm.Message with encoding/json on it, and the hexadecimal SHA-256 of a text.
pub record Codec : Type 1 where
  pub Message : Type 0
  pub role : Message → Text
  pub marshal : Message → Option Text
  pub unmarshal : Text → Option Message
  pub sha256 : Text → Text

-- type Node
pub record Node (Message : Type 0) : Type 0 where
  pub hash : Text
  pub parent_hash : Text
  pub message : Message
  pub created_at : Instant

abbrev pub Action : Type 0 → Type 0
Action = M Tables Error

unfoldable pub root_hash : Codec → Text
root_hash codec = codec.sha256 (codes "ROOT")

-- NodeHash
unfoldable pub node_hash : Codec → Text → Text → Text
node_hash codec parent_hash json = codec.sha256 (parent_hash ++ (b'\n' ∷ json))

-- `if hash == "" { hash = RootHash }`
abbrev pub or_root : Codec → Text → Text
or_root codec hash = if is_empty hash then codec.sha256 (codes "ROOT") else hash
