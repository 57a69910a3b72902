-- ===== src/Conversation/Invariant.antt =====
-- The invariant of the conversation database, and what a property of its tables needs to be kept by
-- every operation.
use zoa.Base.{◌≡◌, refl, ap, inl, inr, none, some, List, [], ◌∷◌, All, All-map}
use zoa.Base.Text.{Text, text_eq_refl}
use zoa.Base.Stamp.{Instant}
use zoa.Conversation.Tables.{NodeRow, RefRow, Tables, Codec, root_hash}
use zoa.Conversation.Nodes.{find_node, add_node, root_row, message_row}
use zoa.Conversation.Tree.Sound.{Hashing, Grown, older_found}
use zoa.Conversation.Tree.Insert.{add_node_cases, add_node-Extends, message_row-Grown}

abbrev pub Found : Tables → Text → Type 0
Found t h = (x : NodeRow) × (find_node h t.nodes ≡ some x)

-- The nodes are a tree, and each ref points to one of them.
pub record Inv (codec : Codec) (t : Tables) : Type 0 where
  pub grown : Grown codec t.nodes
  pub refs_found : All (λ r. Found t r.hash) t.refs

pub record IsPreserved (codec : Codec) (P : Tables → Type 0) : Type 0 where
  pub sound : (t : Tables) → P t → Inv codec t
  pub root_added : (now : Instant) (t : Tables) → P t → P (add_node (root_row codec now) t).1
  pub message_added :
      (p : Text) (msg : codec.Message) (json : Text) (now : Instant) (t : Tables) (y : NodeRow)
      → find_node p t.nodes ≡ some y
      → codec.marshal msg ≡ some json
      → P t
      → P (add_node (message_row codec p msg json now) t).1
  pub refs_changed :
      (t : Tables) (rs : List RefRow)
      → P t
      → All (λ r. Found t r.hash) rs
      → P (record t { refs = rs })

pub add_node_refs : (row : NodeRow) (t : Tables) → (add_node row t).1.refs ≡ t.refs
add_node_refs row t = elim (add_node_cases row t) [
  | inl (_, q) ↦ ap (λ (u : Tables). u.refs) q
  | inr (_, _, q) ↦ ap (λ (u : Tables). u.refs) q
]

module _ (codec : Codec) (H : Hashing codec) where
  pub Found-add_node :
      (row : NodeRow) (t : Tables) (h : Text) → Found t h → Found (add_node row t).1 h
  Found-add_node row t h (x, e) = (x, (add_node-Extends codec H row t h x e).0)

  refs-add_node :
      (row : NodeRow) (t : Tables)
      → All (λ r. Found t r.hash) t.refs
      → All (λ r. Found (add_node row t).1 r.hash) (add_node row t).1.refs
  refs-add_node row t h = rw (add_node_refs row t) (
      All-map (λ r. Found t r.hash) (λ r. Found (add_node row t).1 r.hash) t.refs
        (λ r. Found-add_node row t r.hash) h)

  -- A table with any row has the root.
  root_found :
      (r : NodeRow) (rows : List NodeRow)
      → Grown codec (r ∷ rows)
      → (x : NodeRow) × (find_node (root_hash codec) (r ∷ rows) ≡ some x)
  root_found r rows (new, inl (root, _, _, _), g) =
      (r, rw (root, text_eq_refl (root_hash codec)) refl)
  root_found r [] (new, inr (_, _, _, _, _, p, f), g) = absurd (cc)
  root_found r (r' ∷ rows) (new, inr (_, _, _, _, _, _, _), g) =
      let (x, e) = root_found r' rows g in
      (x, older_found codec (root_hash codec) r (r' ∷ rows) {x = x} new e)

  root_row-Grown :
      (now : Instant) (t : Tables)
      → Grown codec t.nodes
      → Grown codec (add_node (root_row codec now) t).1.nodes
  unfolding root_row
  root_row-Grown now t g = elim (add_node_cases (root_row codec now) t) [
    | inl (new, q) ↦ rw q (new, inl (refl, refl, refl, no_rows t.nodes g new), g)
    | inr (_, _, q) ↦ rw q g
  ]
    where
      no_rows :
          (rows : List NodeRow)
          → Grown codec rows
          → find_node (root_hash codec) rows ≡ none
          → rows ≡ []
      no_rows [] g e = refl
      no_rows (r ∷ rows) g e = absurd (let (x, f) = root_found r rows g in cc)

  pub Inv-IsPreserved : IsPreserved codec (Inv codec)
  Inv-IsPreserved = record {
    sound = λ t v. v;
    root_added = λ now t v. record {
      grown = root_row-Grown now t v.grown;
      refs_found = refs-add_node (root_row codec now) t v.refs_found;
    };
    message_added = λ p msg json now t y e j v. record {
      grown = message_row-Grown codec H p msg json now t y e j v.grown;
      refs_found = refs-add_node (message_row codec p msg json now) t v.refs_found;
    };
    refs_changed = λ t rs v h. record { grown = v.grown; refs_found = h };
  }
