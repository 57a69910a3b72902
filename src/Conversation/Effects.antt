-- ===== src/Conversation/Effects.antt =====
-- What each operation of conversation/db does to the tables when it succeeds.
use zoa.Base.{
  ◌≡◌, refl, sym, ap, subst, ◌∙◌, inl, inr, Bool, true, false, Option, none, some, arith,
  Bool-cases,
}
use zoa.Base.Text.{Text, codes, is_empty, trim}
use zoa.Base.Stamp.{Instant}
use zoa.Base.Sql.{Db, pure, ◌>>=◌, exec, query}
use zoa.Base.Sql.Outcomes.{Outcome, map-Outcome, exec-Outcome, query-Outcome, >>=-Outcome}
use zoa.Conversation.Tables.{
  NodeRow, RefRow, Tables, Error, node_not_found, ref_not_found, message, Codec, node_hash, or_root,
}
use zoa.Conversation.Nodes.{
  find_node, found_or, ensure_node_exists, add_node, message_row, insert_json, insert_node, append,
}
use zoa.Conversation.Refs.{find_ref, get_ref, add_ref, created, create_ref}

found_or-Outcome :
    {A : Type 0} (e : Error) (o : Option A) (t : Tables) (d : Db Tables Error)
    → d.tables ≡ t
    → Outcome t (λ a u. (o ≡ some a) × (u ≡ t)) (found_or e o d)
found_or-Outcome e none t d same = inl (e, refl, same)
found_or-Outcome e (some a) t d same = inr (a, refl, (refl, same))

pub ensure_node_exists-Outcome :
    (h : Text) (d : Db Tables Error)
    → Outcome d.tables
        (λ x t. (find_node h d.tables.nodes ≡ some x) × (t ≡ d.tables))
        (ensure_node_exists h d)
unfolding ensure_node_exists
ensure_node_exists-Outcome h d =
    let o = find_node h d.tables.nodes in
    >>=-Outcome (query (λ t. find_node h t.nodes)) (found_or {A = NodeRow} node_not_found) d
      d.tables (λ a t. (a ≡ o) × (t ≡ d.tables)) (λ x t. (o ≡ some x) × (t ≡ d.tables))
      (query-Outcome (λ t. find_node h t.nodes) d)
      (λ a d' same. rw (same.0) (found_or-Outcome node_not_found o d.tables d' same.1))

pub get_ref-Outcome :
    (name : Text) (d : Db Tables Error)
    → Outcome d.tables
        (λ r t. (find_ref (trim name) d.tables.refs ≡ some r) × (t ≡ d.tables))
        (get_ref name d)
unfolding get_ref
get_ref-Outcome name d =
    let o = find_ref (trim name) d.tables.refs in
    >>=-Outcome (query (λ t. find_ref (trim name) t.refs)) (found_or {A = RefRow} ref_not_found) d
      d.tables (λ a t. (a ≡ o) × (t ≡ d.tables)) (λ x t. (o ≡ some x) × (t ≡ d.tables))
      (query-Outcome (λ t. find_ref (trim name) t.refs) d)
      (λ a d' same. rw (same.0) (found_or-Outcome ref_not_found o d.tables d' same.1))

module _ (codec : Codec) where
  -- `h` is the hash of the message under `p`, whose node is inserted.
  abbrev pub Inserts : Text → codec.Message → Instant → Tables → Text → Tables → Type 0
  Inserts p msg now t h t' =
      (json : Text) × (codec.marshal msg ≡ some json)
      × (h ≡ node_hash codec p json)
      × (t' ≡ (add_node (message_row codec p msg json now) t).1)

  insert_json-Outcome :
      (p : Text) (msg : codec.Message) (now : Instant) (o : Option Text) (d : Db Tables Error)
      → codec.marshal msg ≡ o
      → Outcome d.tables (Inserts p msg now d.tables) (insert_json codec p msg now o d)
  unfolding insert_json
  insert_json-Outcome p msg now none d e = inl (message (codes "encode message"), refl, refl)
  insert_json-Outcome p msg now (some json) d e =
      let row = message_row codec p msg json now in
      >>=-Outcome (exec (add_node row)) (λ _. pure (node_hash codec p json)) d d.tables
        (λ a t. (a ≡ (add_node row d.tables).0) × (t ≡ (add_node row d.tables).1))
        (Inserts p msg now d.tables) (exec-Outcome (add_node row) d)
        (λ a d' q. inr (node_hash codec p json, refl, (json, e, refl, q.1)))

  pub insert_node-Outcome :
      (p : Text) (msg : codec.Message) (now : Instant) (d : Db Tables Error)
      → Outcome d.tables (Inserts p msg now d.tables) (insert_node codec p msg now d)
  unfolding insert_node
  insert_node-Outcome p msg now d = insert_json-Outcome p msg now (codec.marshal msg) d refl

  -- The parent is there, and the message is inserted under it.
  abbrev pub Appends : Text → codec.Message → Instant → Tables → Text → Tables → Type 0
  Appends parent msg now t h t' =
      (y : NodeRow) × (find_node (or_root codec parent) t.nodes ≡ some y)
      × Inserts (or_root codec parent) msg now t h t'

  pub append-Outcome :
      (parent : Text) (msg : codec.Message) (now : Instant) (d : Db Tables Error)
      → Outcome d.tables (Appends parent msg now d.tables) (append codec parent msg now d)
  unfolding append
  append-Outcome parent msg now d =
      let p = or_root codec parent in
      >>=-Outcome (ensure_node_exists p) (λ _. insert_node codec p msg now) d d.tables
        (λ x t. (find_node p d.tables.nodes ≡ some x) × (t ≡ d.tables))
        (Appends parent msg now d.tables) (ensure_node_exists-Outcome p d)
        (λ x d' q.
          map-Outcome d'.tables d.tables (Inserts p msg now d'.tables)
            (Appends parent msg now d.tables) (insert_node codec p msg now d') q.1
            (λ h i. (
              x,
              q.0,
              subst (λ t. Inserts p msg now t h (insert_node codec p msg now d').1.tables) q.1 i,
            ))
            (insert_node-Outcome p msg now d'))

  -- The name is free and the node is there, and the ref is added.
  abbrev pub Creates : Text → Text → Instant → Tables → Tables → Type 0
  Creates name hash now t t' =
      (y : NodeRow) × (find_node (or_root codec hash) t.nodes ≡ some y)
      × (t' ≡ (add_ref (trim name) (or_root codec hash) now t).1)

  add_ref_refused :
      (name hash : Text) (now : Instant) (t : Tables)
      → (add_ref name hash now t).0 ≡ false
      → (add_ref name hash now t).1 ≡ t
  unfolding add_ref
  add_ref_refused name hash now t e = ground arith

  created-Outcome :
      (name hash : Text) (now : Instant) (t : Tables) (a : Bool) (d : Db Tables Error)
      → a ≡ (add_ref name hash now t).0
      → d.tables ≡ (add_ref name hash now t).1
      → Outcome t (λ _ u. u ≡ (add_ref name hash now t).1) (created a d)
  created-Outcome name hash now t true d p q = inr (tt, refl, q)
  created-Outcome name hash now t false d p q =
      inl (message (codes "create ref"), refl, q ∙ add_ref_refused name hash now t (sym p))

  add_ref-Outcome :
      (name hash : Text) (now : Instant) (d : Db Tables Error)
      → Outcome d.tables
          (λ _ t. t ≡ (add_ref name hash now d.tables).1)
          ((exec (add_ref name hash now) >>= created) d)
  add_ref-Outcome name hash now d =
      >>=-Outcome (exec (add_ref name hash now)) created d d.tables
        (λ a t. (a ≡ (add_ref name hash now d.tables).0) × (t ≡ (add_ref name hash now d.tables).1))
        (λ _ t. t ≡ (add_ref name hash now d.tables).1) (exec-Outcome (add_ref name hash now) d)
        (λ a d' q. created-Outcome name hash now d.tables a d' q.0 q.1)

  pub create_ref-Outcome :
      (name hash : Text) (now : Instant) (d : Db Tables Error)
      → Outcome d.tables
          (λ _ t. Creates name hash now d.tables t)
          (create_ref codec name hash now d)
  unfolding create_ref
  create_ref-Outcome name hash now d = elim (Bool-cases (is_empty (trim name))) [
    | inl y ↦ rw y (inl (message (codes "ref name is required"), refl, refl))
    | inr n ↦ rw n (
        let h = or_root codec hash in
        let add = exec (add_ref (trim name) h now) >>= created in
        >>=-Outcome (ensure_node_exists h) (λ _. add) d d.tables
          (λ x t. (find_node h d.tables.nodes ≡ some x) × (t ≡ d.tables))
          (λ _ t. Creates name hash now d.tables t) (ensure_node_exists-Outcome h d)
          (λ x d' q.
            map-Outcome d'.tables d.tables (λ _ t. t ≡ (add_ref (trim name) h now d'.tables).1)
              (λ _ t. Creates name hash now d.tables t) (add d') q.1
              (λ _ e. (x, q.0, e ∙ ap (λ t. (add_ref (trim name) h now t).1) q.1))
              (add_ref-Outcome (trim name) h now d')))
  ]
