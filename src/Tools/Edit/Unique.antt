-- ===== src/Tools/Edit/Unique.antt =====
-- Where strings.Count and strings.Replace, as internal/agentloop/tools/edit.go calls them, find a text.
use zoa.Base.{
  ℕ, zero, suc, ◌-◌, ◌<◌, ◌≡◌, ◌↔◌, ◌≢◌, refl, sym, ap, subst, ◌∙◌, inl, inr, true, false, [], ◌∷◌,
  ◌++◌, arith, ◌==◌, length, drop, Bool-cases,
}
use zoa.Base.Cuts.{drop-nil}
use zoa.Base.Text.{Text, has_prefix, text_eq, text_eq_refl, text_neq}
use zoa.Base.Sql.{ok}
use zoa.Tools.Edit.{count_text, replace_first, edit_text}

-- The text occurs between `before` and `behind`: nowhere from an earlier byte on, and not in what
-- follows.
pub record Only (old s before behind : Text) : Type 0 where
  pub whole : s ≡ before ++ (old ++ behind)
  pub first : (k : ℕ) → k < length before → has_prefix (drop k s) old ≡ false
  pub last : (k : ℕ) → has_prefix (drop k behind) old ≡ false

has_prefix_split : (s p : Text) → has_prefix s p ≡ true → s ≡ p ++ drop (length p) s
has_prefix_split s [] h = refl
has_prefix_split [] (c ∷ p) h = absurd (cc)
has_prefix_split (d ∷ s) (c ∷ p) h = ground (arith, has_prefix_split s p)

has_prefix-append : (p t : Text) → has_prefix (p ++ t) p ≡ true
has_prefix-append [] [] = refl
has_prefix-append [] (c ∷ t) = refl
has_prefix-append (c ∷ p) t = ground (arith, has_prefix-append p t)

drop-append : (p t : Text) → drop (length p) (p ++ t) ≡ t
drop-append [] t = refl
drop-append (c ∷ p) t = drop-append p t

count_skip : (old : Text) (k : ℕ) (s : Text) → count_text old k s ≡ count_text old 0 (drop k s)
unfolding count_text
count_skip old zero s = refl
count_skip old (suc k) [] = refl
count_skip old (suc k) (c ∷ s) = count_skip old k s

-- No occurrence is counted where there is none, and conversely.
count_none :
    (o : ℕ) (os s : Text)
    → count_text (o ∷ os) 0 s ≡ 0
    → (k : ℕ) → has_prefix (drop k s) (o ∷ os) ≡ false
unfolding count_text
count_none o os [] h k = rw drop-nil refl
count_none o os (c ∷ s) h zero = ground arith
count_none o os (c ∷ s) h (suc k) = elim (Bool-cases (has_prefix (c ∷ s) (o ∷ os))) [
  | inl y ↦ absurd (ground arith)
  | inr n ↦ count_none o os s (ground arith) k
]

none_counted :
    (o : ℕ) (os s : Text)
    → ((k : ℕ) → has_prefix (drop k s) (o ∷ os) ≡ false)
    → count_text (o ∷ os) 0 s ≡ 0
unfolding count_text
none_counted o os [] h = refl
none_counted o os (c ∷ s) h = rw (h 0) (none_counted o os s (λ k. h (suc k)))

abbrev pub Replaced : Text → Text → Text → Text → Type 0
Replaced old new s updated =
    (before : Text) × (behind : Text) × Only old s before behind
    × (updated ≡ before ++ (new ++ behind))

count_one :
    (o : ℕ) (os new s : Text)
    → count_text (o ∷ os) 0 s ≡ 1
    → Replaced (o ∷ os) new s (replace_first (o ∷ os) new s)
unfolding count_text replace_first
count_one o os new [] h = absurd (cc)
count_one o os new (c ∷ s) h = elim (Bool-cases (has_prefix (c ∷ s) (o ∷ os))) [
  | inl y ↦
      let hit = rw y at h in
      let rest : count_text (o ∷ os) (length os) s ≡ 0 = ground arith in
      (
        [],
        drop (length os) s,
        record {
          whole = has_prefix_split (c ∷ s) (o ∷ os) y;
          first = λ k lt. absurd (omega arith);
          last =
              count_none o os (drop (length os) s) (sym (count_skip (o ∷ os) (length os) s) ∙ rest);
        },
        rw y refl,
      )
  | inr n ↦
      let (before, behind, only, e) = count_one o os new s (ground arith) in
      (
        c ∷ before,
        behind,
        record {
          whole = ap (λ t. c ∷ t) only.whole;
          first = λ k lt. earlier c before behind n only k lt;
          last = only.last;
        },
        rw n (ap (λ t. c ∷ t) e),
      )
]
  where
    earlier :
        (d : ℕ) (before behind : Text)
        → has_prefix (d ∷ s) (o ∷ os) ≡ false
        → Only (o ∷ os) s before behind
        → (k : ℕ) → k < suc (length before)
        → has_prefix (drop k (d ∷ s)) (o ∷ os) ≡ false
    earlier d before behind n only zero lt = n
    earlier d before behind n only (suc k) lt = only.first k (omega arith)

occurs_here :
    (o : ℕ) (os new behind : Text)
    → ((k : ℕ) → has_prefix (drop k behind) (o ∷ os) ≡ false)
    → (count_text (o ∷ os) 0 ((o ∷ os) ++ behind) ≡ 1)
      × (replace_first (o ∷ os) new ((o ∷ os) ++ behind) ≡ new ++ behind)
unfolding count_text replace_first
occurs_here o os new behind last =
    let none = none_counted o os behind last in
    let skipped =
      count_skip (o ∷ os) (length os) (os ++ behind)
      ∙ ap (count_text (o ∷ os) 0) (drop-append os behind)
      ∙ none in
    let less : suc (length os) - 1 ≡ length os = omega arith in
    rw (has_prefix-append (o ∷ os) behind, drop-append os behind, less) (ap suc skipped, refl)

one_counted :
    (o : ℕ) (os new before behind : Text)
    → ((k : ℕ)
        → k < length before
        → has_prefix (drop k (before ++ ((o ∷ os) ++ behind))) (o ∷ os) ≡ false)
    → ((k : ℕ) → has_prefix (drop k behind) (o ∷ os) ≡ false)
    → (count_text (o ∷ os) 0 (before ++ ((o ∷ os) ++ behind)) ≡ 1)
      × (replace_first (o ∷ os) new (before ++ ((o ∷ os) ++ behind)) ≡ before ++ (new ++ behind))
unfolding count_text replace_first
one_counted o os new [] behind first last = occurs_here o os new behind last
one_counted o os new (c ∷ before) behind first last =
    let (n, e) = one_counted o os new before behind (λ k lt. first (suc k) (omega arith)) last in
    rw (first 0 (omega arith)) (n, ap (λ t. c ∷ t) e)

Only-unique :
    (o : ℕ) (os new s before behind : Text)
    → Only (o ∷ os) s before behind
    → (count_text (o ∷ os) 0 s ≡ 1) × (replace_first (o ∷ os) new s ≡ before ++ (new ++ behind))
Only-unique o os new s before behind h =
    subst
      (λ t.
        (count_text (o ∷ os) 0 t ≡ 1) × (replace_first (o ∷ os) new t ≡ before ++ (new ++ behind)))
      (sym h.whole)
      (one_counted o os new before behind
        (λ k lt. subst (λ t. has_prefix (drop k t) (o ∷ os) ≡ false) h.whole (h.first k lt)) h.last)

-- An edit of a text succeeds just where the old text occurs once as strings.Count counts, from the left
-- and without overlaps (no occurrence begins before that one, and none lies in what follows it), and
-- the new text is another; and it puts the new text in its place. An occurrence that overlaps the
-- replaced one is not counted.
pub edit_text_iff :
    (o : ℕ) (os path new content updated : Text)
    → (edit_text path (o ∷ os) new content ≡ ok updated)
      ↔ (Replaced (o ∷ os) new content updated × (updated ≢ content))
unfolding edit_text
edit_text_iff o os path new content updated = (there, back)
  where
    there :
        edit_text path (o ∷ os) new content ≡ ok updated
        → Replaced (o ∷ os) new content updated × (updated ≢ content)
    there h = elim (Bool-cases (count_text (o ∷ os) 0 content == 1)) [
      | inl y ↦
          let one : count_text (o ∷ os) 0 content ≡ 1 = ground arith in
          elim (Bool-cases (text_eq (replace_first (o ∷ os) new content) content)) [
            | inl same ↦ absurd (ground arith)
            | inr differs ↦
                let e : replace_first (o ∷ os) new content ≡ updated = ground arith in
                (
                  subst (Replaced (o ∷ os) new content) e (count_one o os new content one),
                  λ same.
                      cc (text_eq_refl content, ap (λ t. text_eq t content) (e ∙ same), differs),
                )
          ]
      | inr n ↦ absurd (ground arith)
    ]

    back :
        Replaced (o ∷ os) new content updated × (updated ≢ content)
        → edit_text path (o ∷ os) new content ≡ ok updated
    back ((before, behind, only, e), differs) =
        let (one, made) = Only-unique o os new content before behind only in
        let same = made ∙ sym e in rw (one, same, text_neq updated content differs)
