-- ===== src/Conversation/Tree/Insert.antt =====
-- What INSERT OR IGNORE of conversation/db/node.go does to the histories of the nodes.
use zoa.Base.{
  ◌≡◌, refl, sym, ap, subst, ◌∙◌, ◌≢◌, ◌⊎◌, inl, inr, none, some, List, [], ◌∷◌, ◌++◌, arith, All,
}
use zoa.Base.Text.{Text, codes, text_eq_refl}
use zoa.Base.Stamp.{Instant}
use zoa.Conversation.Tables.{NodeRow, Tables, Codec, root_hash, node_hash}
use zoa.Conversation.Nodes.{find_node, add_node, message_row}
use zoa.Conversation.Tree.Sound.{
  Hashing, Grown, Known, found-Known, found_hash, older_found, line_split, newline_in,
}
use zoa.Conversation.Tree.History.{history, history-older, history-parent}

root_line : All (λ c. c ≢ b'\n') (codes "ROOT")
root_line = (omega arith, (omega arith, (omega arith, (omega arith, tt))))

pub add_node_cases :
    (row : NodeRow) (t : Tables)
    → ((find_node row.hash t.nodes ≡ none)
        × ((add_node row t).1 ≡ record t { nodes = row ∷ t.nodes }))
      ⊎ ((x : NodeRow) × (find_node row.hash t.nodes ≡ some x) × ((add_node row t).1 ≡ t))
unfolding add_node
add_node_cases row t = ground arith

module _ (codec : Codec) (H : Hashing codec) where
  Known-digest :
      (x : NodeRow) (rows : List NodeRow)
      → Known codec x rows
      → (s : Text) × (x.hash ≡ codec.sha256 s)
  unfolding root_hash node_hash
  Known-digest x rows (inl (e, _, _)) = (codes "ROOT", e)
  Known-digest x rows (inr (_, _, _, e, _, _, _)) = (x.parent_hash ++ (b'\n' ∷ x.message_json), e)

  -- A hash that is found is a digest.
  found_digest :
      (h : Text) (rows : List NodeRow) (x : NodeRow)
      → Grown codec rows
      → find_node h rows ≡ some x
      → (s : Text) × (h ≡ codec.sha256 s)
  found_digest h rows x g e =
      let (s, q) = Known-digest x rows (found-Known codec h rows x g e) in
      (s, sym (found_hash codec h rows {x = x} e) ∙ q)

  found_line :
      (h : Text) (rows : List NodeRow) (x : NodeRow)
      → Grown codec rows
      → find_node h rows ≡ some x
      → All (λ c. c ≢ b'\n') h
  found_line h rows x g e =
      let (s, q) = found_digest h rows x g e in subst (All (λ c. c ≢ b'\n')) (sym q) (H.one_line s)

  pub found_nonempty :
      (h : Text) (rows : List NodeRow) (x : NodeRow)
      → Grown codec rows
      → find_node h rows ≡ some x
      → h ≢ []
  found_nonempty h rows x g e empty =
      let (s, q) = found_digest h rows x g e in H.nonempty s (sym q ∙ empty)

  -- The row with the contents' hash has these contents.
  same_contents :
      (rows : List NodeRow) (x : NodeRow) (p : Text) (y : NodeRow) (msg : codec.Message)
      (json : Text)
      → Grown codec rows
      → find_node p rows ≡ some y
      → codec.marshal msg ≡ some json
      → Known codec x rows
      → x.hash ≡ node_hash codec p json
      → (x.parent_hash ≡ p) × (x.message_json ≡ json) × (x.role ≡ codec.role msg)
  unfolding root_hash node_hash
  same_contents rows x p y msg json g e j (inl (root, _, _)) same =
      let text = H.no_collision _ _ (sym root ∙ same) in
      absurd (
        let all = subst (All (λ c. c ≢ b'\n')) text root_line in
        let no = newline_in p json all in cc)
  same_contents rows x p y msg json g e j (inr (m, jm, role, hash, child, z, f)) same =
      let text = H.no_collision _ _ (sym hash ∙ same) in
      let parts =
        line_split x.parent_hash x.message_json p json (found_line x.parent_hash rows z g f)
          (found_line p rows y g e) text in
      let read =
        sym (H.read_back m x.message_json jm)
        ∙ (ap codec.unmarshal parts.1 ∙ H.read_back msg json j) in
      (parts.0, parts.1, role ∙ ap codec.role (ground arith))

  abbrev pub Found : Text → Tables → Type 0
  Found h t = (x : NodeRow) × (find_node h t.nodes ≡ some x)

  -- The histories of the nodes of `t` are the same in `t'`.
  abbrev pub Extends : Tables → Tables → Type 0
  Extends t t' =
      (h : Text) (x : NodeRow)
      → find_node h t.nodes ≡ some x
      → (find_node h t'.nodes ≡ some x) × (history h t'.nodes ≡ history h t.nodes)

  -- What an insertion of a message under `p` gives.
  abbrev pub Inserted : Text → Text → codec.Message → Text → Tables → Type 0
  Inserted hash p msg json t =
      (x : NodeRow) × (find_node hash t.nodes ≡ some x)
      × (x.parent_hash ≡ p)
      × (x.message_json ≡ json)
      × (x.role ≡ codec.role msg)
      × (history hash t.nodes ≡ history p t.nodes ++ (x ∷ []))

  pub add_node-Extends : (row : NodeRow) (t : Tables) → Extends t (add_node row t).1
  add_node-Extends row t h x e = elim (add_node_cases row t) [
    | inl (new, q) ↦ rw q (
      older_found codec h row t.nodes {x = x} new e,
      history-older codec h row t.nodes {x = x} new e,
    )
    | inr (old, _, q) ↦ rw q (e, refl)
  ]

  pub message_row-Grown :
      (p : Text) (msg : codec.Message) (json : Text) (now : Instant) (t : Tables) (y : NodeRow)
      → find_node p t.nodes ≡ some y
      → codec.marshal msg ≡ some json
      → Grown codec t.nodes
      → Grown codec (add_node (message_row codec p msg json now) t).1.nodes
  unfolding message_row
  message_row-Grown p msg json now t y e j g =
      elim (add_node_cases (message_row codec p msg json now) t) [
        | inl (new, q) ↦
            rw q (new, inr (msg, j, refl, refl, found_nonempty p t.nodes y g e, y, e), g)
        | inr (old, _, q) ↦ rw q g
      ]

  pub message_row-Inserted :
      (p : Text) (msg : codec.Message) (json : Text) (now : Instant) (t : Tables) (y : NodeRow)
      → find_node p t.nodes ≡ some y
      → codec.marshal msg ≡ some json
      → Grown codec t.nodes
      → Inserted
          (node_hash codec p json)
          p
          msg
          json
          (add_node (message_row codec p msg json now) t).1
  unfolding message_row
  message_row-Inserted p msg json now t y e j g =
      let h = node_hash codec p json in
      elim (add_node_cases (message_row codec p msg json now) t) [
        | inl (new, q) ↦
            rw (q, text_eq_refl h)
              (
                message_row codec p msg json now,
                refl,
                refl,
                refl,
                refl,
                ap (λ above. above ++ (message_row codec p msg json now ∷ []))
                    (sym (
                      history-older codec p (message_row codec p msg json now) t.nodes {x = y} new
                        e)),
              )
        | inr (old, q, same_tables) ↦
            let same =
              same_contents t.nodes old p y msg json g e j (found-Known codec h t.nodes old g q)
                (found_hash codec h t.nodes {x = old} q) in
            let child = subst (λ k. k ≢ []) (sym same.0) (found_nonempty p t.nodes y g e) in
            rw same_tables (
              old,
              q,
              same.0,
              same.1,
              same.2,
              history-parent codec h t.nodes old g q child
                  ∙ ap (λ k. history k t.nodes ++ (old ∷ [])) same.0,
            )
      ]
