-- ===== src/Conversation/Tree/Sound.antt =====
-- What the table of nodes always is, and what is relied on of SHA-256 and encoding/json for it.
use zoa.Base.{
  ◌≡◌, refl, ap, subst, ◌≢◌, ◌⊎◌, inl, inr, true, false, none, some, List, [], ◌∷◌, ◌++◌, arith,
  All, Bool-cases,
}
use zoa.Base.Text.{Text, codes, text_eq, text_eq_sound}
use zoa.Conversation.Tables.{NodeRow, Codec, root_hash, node_hash}
use zoa.Conversation.Nodes.{find_node}

-- No two texts have the same digest, a digest is a text of hexadecimal digits, and a message is read
-- back from its JSON.
pub record Hashing (codec : Codec) : Type 0 where
  pub no_collision : (s t : Text) → codec.sha256 s ≡ codec.sha256 t → s ≡ t
  pub one_line : (s : Text) → All (λ c. c ≢ b'\n') (codec.sha256 s)
  pub nonempty : (s : Text) → codec.sha256 s ≢ []
  pub read_back :
      (m : codec.Message) (json : Text)
      → codec.marshal m ≡ some json
      → codec.unmarshal json ≡ some m

-- The text before the first newline is determined, and so is the text after it.
pub line_split :
    (s t s' t' : Text)
    → All (λ c. c ≢ b'\n') s
    → All (λ c. c ≢ b'\n') s'
    → s ++ (b'\n' ∷ t) ≡ s' ++ (b'\n' ∷ t')
    → (s ≡ s') × (t ≡ t')
line_split [] t [] t' l l' e = (refl, ground arith)
line_split [] t (c ∷ s') t' l l' e = ground arith
line_split (c ∷ s) t [] t' l l' e = ground arith
line_split (c ∷ s) t (c' ∷ s') t' l l' e = ground (arith, line_split s t s' t')

pub newline_in : (s t : Text) → All (λ c. c ≢ b'\n') (s ++ (b'\n' ∷ t)) → true ≡ false
newline_in [] t h = absurd (h.0 refl)
newline_in (c ∷ s) t h = newline_in s t h.1

module _ (codec : Codec) where
  abbrev pub IsRoot : NodeRow → List NodeRow → Type 0
  IsRoot r older =
      (r.hash ≡ root_hash codec) × (r.parent_hash ≡ []) × (r.role ≡ codes "root") × (older ≡ [])

  abbrev pub IsMessage : NodeRow → List NodeRow → Type 0
  IsMessage r older =
      (m : codec.Message) × (codec.marshal m ≡ some r.message_json)
      × (r.role ≡ codec.role m)
      × (r.hash ≡ node_hash codec r.parent_hash r.message_json)
      × (r.parent_hash ≢ [])
      × (x : NodeRow) × (find_node r.parent_hash older ≡ some x)

  -- Each row is new in the table that it enters, and is the root, as the first row, or names an
  -- older row as its parent and has the hash of its contents.
  abbrev pub Grown : List NodeRow → Type 0
  Grown [] = Unit
  Grown (r ∷ older) =
      (find_node r.hash older ≡ none) × (IsRoot r older ⊎ IsMessage r older) × Grown older

  pub found_hash :
      (h : Text) (rows : List NodeRow) {x : NodeRow} → find_node h rows ≡ some x → x.hash ≡ h
  found_hash h [] e = absurd (cc)
  found_hash h (r ∷ rows) {x} e = elim (Bool-cases (text_eq r.hash h)) [
    | inl y ↦ ground (arith, text_eq_sound r.hash h)
    | inr n ↦ found_hash h rows {x = x} (ground arith)
  ]

  -- A row that is found is not the new one.
  pub older_hash :
      (h : Text) (r : NodeRow) (rows : List NodeRow) {x : NodeRow}
      → find_node r.hash rows ≡ none
      → find_node h rows ≡ some x
      → text_eq r.hash h ≡ false
  older_hash h r rows new e = elim (Bool-cases (text_eq r.hash h)) [
    | inl y ↦
        absurd
          (let same = text_eq_sound r.hash h y in let n = ap (λ k. find_node k rows) same in cc)
    | inr n ↦ n
  ]

  pub older_found :
      (h : Text) (r : NodeRow) (rows : List NodeRow) {x : NodeRow}
      → find_node r.hash rows ≡ none
      → find_node h rows ≡ some x
      → find_node h (r ∷ rows) ≡ some x
  older_found h r rows {x} new e = rw (older_hash h r rows {x = x} new e) e

  -- What is known of a row that is found.
  abbrev pub Known : NodeRow → List NodeRow → Type 0
  Known x rows =
      ((x.hash ≡ root_hash codec) × (x.parent_hash ≡ []) × (x.role ≡ codes "root"))
      ⊎ IsMessage x rows

  Known-older :
      (x r : NodeRow) (rows : List NodeRow)
      → find_node r.hash rows ≡ none
      → Known x rows
      → Known x (r ∷ rows)
  Known-older x r rows new (inl root) = inl root
  Known-older x r rows new (inr (m, j, o, e, n, p, f)) =
      inr (m, j, o, e, n, p, older_found x.parent_hash r rows {x = p} new f)

  newest-Known : (r : NodeRow) (rows : List NodeRow) → Grown (r ∷ rows) → Known r (r ∷ rows)
  newest-Known r rows (new, inl (h, p, o, _), g) = inl (h, p, o)
  newest-Known r rows (new, inr m, g) = Known-older r r rows new (inr m)

  pub found-Known :
      (h : Text) (rows : List NodeRow) (x : NodeRow)
      → Grown rows
      → find_node h rows ≡ some x
      → Known x rows
  found-Known h [] x g e = absurd (cc)
  found-Known h (r ∷ rows) x g e = elim (Bool-cases (text_eq r.hash h)) [
    | inl y ↦
        let same : r ≡ x = ground arith in
        subst (λ z. Known z (r ∷ rows)) same (newest-Known r rows g)
    | inr n ↦ Known-older x r rows g.0 (found-Known h rows x g.2 (ground arith))
  ]

  pub parent_found :
      (h : Text) (rows : List NodeRow) (x : NodeRow)
      → Grown rows
      → find_node h rows ≡ some x
      → (x.parent_hash ≡ []) ⊎ ((p : NodeRow) × (find_node x.parent_hash rows ≡ some p))
  parent_found h rows x g e = elim (found-Known h rows x g e) [
    | inl (_, root, _) ↦ inl root
    | inr (_, _, _, _, _, p, f) ↦ inr (p, f)
  ]
