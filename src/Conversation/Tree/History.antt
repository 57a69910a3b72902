-- ===== src/Conversation/Tree/History.antt =====
-- What LoadChain's recursive query computes: the history of a node, by a pass over the table.
use zoa.Base.{
  ℕ, zero, suc, ◌≤◌, ◌≡◌, refl, sym, subst, ◌∙◌, ◌≢◌, ◌⊎◌, inl, inr, true, none, some, List, [],
  ◌∷◌, ◌++◌, arith, length, Bool-cases, Option-cases, if◌then◌else◌,
}
use zoa.Base.Text.{Text, text_eq, is_empty}
use zoa.Conversation.Tables.{NodeRow, Codec}
use zoa.Conversation.Nodes.{find_node, climb, ancestors}
use zoa.Conversation.Tree.Sound.{Grown, older_hash, older_found, parent_found}

-- From the newest row to the oldest: take the row with the hash, and go on with its parent's.
abbrev pub history : Text → List NodeRow → List NodeRow
history h [] = []
history h (r ∷ rows) =
    let above = history r.parent_hash rows in
    let other = history h rows in if text_eq r.hash h then above ++ (r ∷ []) else other

pub history_missing :
    (h : Text) (rows : List NodeRow) → find_node h rows ≡ none → history h rows ≡ []
history_missing h [] e = refl
history_missing h (r ∷ rows) e = ground (arith, history_missing h rows)

is_empty_sound : (s : Text) → is_empty s ≡ true → s ≡ []
is_empty_sound [] e = refl
is_empty_sound (c ∷ s) e = absurd (cc)

climb-none : (above : Text → List NodeRow) → climb above none ≡ []
unfolding climb
climb-none above = refl

climb-agree :
    (f g : Text → List NodeRow) (r : NodeRow)
    → (r.parent_hash ≡ []) ⊎ (f r.parent_hash ≡ g r.parent_hash)
    → climb f (some r) ≡ climb g (some r)
unfolding climb
climb-agree f g r (inl root) = rw root refl
climb-agree f g r (inr same) = rw same refl

climb-newest :
    (f : Text → List NodeRow) (r : NodeRow) (rows : List NodeRow)
    → ((r.parent_hash ≡ []) × (history r.parent_hash rows ≡ []))
      ⊎ ((r.parent_hash ≢ []) × (f r.parent_hash ≡ history r.parent_hash rows))
    → climb f (some r) ≡ history r.parent_hash rows ++ (r ∷ [])
unfolding climb
climb-newest f r rows (inl (root, none_above)) = rw (none_above, root) refl
climb-newest f r rows (inr (child, same)) = elim (Bool-cases (is_empty r.parent_hash)) [
  | inl y ↦ absurd (child (is_empty_sound r.parent_hash y))
  | inr n ↦ rw (n, same) refl
]

module _ (codec : Codec) where
  pub history-older :
      (h : Text) (r : NodeRow) (rows : List NodeRow) {x : NodeRow}
      → find_node r.hash rows ≡ none
      → find_node h rows ≡ some x
      → history h (r ∷ rows) ≡ history h rows
  history-older h r rows {x} new e = rw (older_hash codec h r rows {x = x} new e) refl

  newest-parent :
      (r : NodeRow) (rows : List NodeRow)
      → Grown codec (r ∷ rows)
      → r.parent_hash ≢ []
      → history r.parent_hash rows ++ (r ∷ []) ≡ history r.parent_hash (r ∷ rows) ++ (r ∷ [])
  newest-parent r rows (new, inl (_, root, _, _), g) not_root = absurd (not_root root)
  newest-parent r rows (new, inr (_, _, _, _, _, p, f), g) not_root =
      rw (history-older r.parent_hash r rows {x = p} new f) refl

  -- A node's history is its parent's, and then the node.
  pub history-parent :
      (h : Text) (rows : List NodeRow) (x : NodeRow)
      → Grown codec rows
      → find_node h rows ≡ some x
      → x.parent_hash ≢ []
      → history h rows ≡ history x.parent_hash rows ++ (x ∷ [])
  history-parent h [] x g e not_root = absurd (cc)
  history-parent h (r ∷ rows) x g e not_root = elim (Bool-cases (text_eq r.hash h)) [
    | inl y ↦
        let same : r ≡ x = ground arith in
        rw y (
          subst
            (λ z.
              history r.parent_hash rows ++ (r ∷ []) ≡ history z.parent_hash (r ∷ rows) ++ (z ∷ []))
            same (newest-parent r rows g (subst (λ z. z.parent_hash ≢ []) (sym same) not_root)))
    | inr n ↦
        let e' : find_node h rows ≡ some x = ground arith in
        elim (parent_found codec h rows x g.2 e') [
          | inl root ↦ absurd (not_root root)
          | inr (p, f) ↦
              rw (n, older_hash codec x.parent_hash r rows {x = p} g.0 f)
                (history-parent h rows x g.2 e' not_root)
        ]
  ]

  ancestors-older :
      (steps : ℕ) (h : Text) (r : NodeRow) (rows : List NodeRow) (x : NodeRow)
      → Grown codec (r ∷ rows)
      → find_node h rows ≡ some x
      → ancestors steps h (r ∷ rows) ≡ ancestors steps h rows
  unfolding ancestors
  ancestors-older zero h r rows x g e = refl
  ancestors-older (suc n) h r rows x g e =
      rw (older_found codec h r rows {x = x} g.0 e, e)
        (climb-agree (λ p. ancestors n p (r ∷ rows)) (λ p. ancestors n p rows) x
          (elim (parent_found codec h rows x g.2 e) [
            | inl root ↦ inl root
            | inr (p, f) ↦ inr (ancestors-older n x.parent_hash r rows p g f)
          ]))

  -- As many steps as there are rows are enough.
  pub ancestors-history :
      (steps : ℕ) (h : Text) (rows : List NodeRow)
      → Grown codec rows
      → length rows ≤ steps
      → ancestors steps h rows ≡ history h rows
  unfolding ancestors
  ancestors-history zero h [] g le = refl
  ancestors-history (suc n) h [] g le = climb-none (λ p. ancestors n p [])
  ancestors-history zero h (r ∷ rows) g le = absurd (omega arith)
  ancestors-history (suc n) h (r ∷ rows) g le = elim (Bool-cases (text_eq r.hash h)) [
    | inl y ↦ rw y (
        climb-newest (λ p. ancestors n p (r ∷ rows)) r rows
          (elim g.1 [
            | inl (_, root, _, first) ↦ inl (root, rw first refl)
            | inr (_, _, _, _, child, p, f) ↦ inr (
              child,
              ancestors-older n r.parent_hash r rows p g f
                  ∙ ancestors-history n r.parent_hash rows g.2 (omega arith),
            )
          ]))
    | inr other ↦ elim (Option-cases (find_node h rows)) [
      | inl e ↦
          rw (other, e)
            (climb-none (λ p. ancestors n p (r ∷ rows)) ∙ sym (history_missing h rows e))
      | inr (x, e) ↦
          ancestors-older (suc n) h r rows x g e
          ∙ (ancestors-history (suc n) h rows g.2 (omega arith)
              ∙ sym (history-older h r rows {x = x} g.0 e))
    ]
  ]
