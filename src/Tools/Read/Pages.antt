-- ===== src/Tools/Read/Pages.antt =====
-- Which lines ReadTool.Execute, in internal/agentloop/tools/read.go, includes.
use zoa.Base.{
  ℕ, zero, suc, ◌+◌, ◌-◌, ◌≤◌, ◌<◌, ◌≡◌, refl, sym, ap, ◌∙◌, ◌⊎◌, inl, inr, true, false, ◌||◌, List,
  [], ◌∷◌, ◌++◌, arith, ltb, leb, length, length-append, take, drop, Bool-cases,
}
use zoa.Base.Cuts.{drop_all, drop-append_before, take-append_before, take_all, length-drop}
use zoa.Base.Int.{ℤ, pos, negsuc}
use zoa.Base.Text.{Text}
use zoa.Tools.Truncate.{default_max_lines, default_max_bytes, join_lines, head_lines}
use zoa.Tools.Read.{Reading, past_limit, is_cut}
use zoa.Tools.Read.Kept.{used}

abbrev pub within_limit : ℤ → List Text → List Text
within_limit (pos zero) ls = ls
within_limit (pos (suc k)) ls = take (suc k) ls
within_limit (negsuc k) ls = ls

module _ (start : ℕ) (limit : ℤ) where
  -- The lines that are asked for.
  abbrev pub asked : List Text → List Text
  asked ls = within_limit limit (drop (start - 1) ls)

  -- The first of them that keep the limits of TruncateHead.
  abbrev pub page : List Text → List Text
  page ls = (head_lines default_max_lines default_max_bytes 0 (asked ls)).0

  -- Where the loop stands after some lines.
  pub record At (ls : List Text) (r : Reading) : Type 0 where
    pub counted : r.total_lines ≡ length ls
    pub built : r.builder ≡ join_lines (page ls)
    pub included : r.included_lines ≡ length (page ls)
    pub bytes : r.included_bytes ≡ used 0 (page ls)
    pub last : r.last_included ≡ start - 1 + length (page ls)
    pub whole :
        ((is_cut r.cut ≡ false) × (page ls ≡ asked ls))
        ⊎ ((is_cut r.cut ≡ true) × (length (page ls) < length (asked ls)))

  -- A further line is asked for or not.
  abbrev pub Asked : List Text → Text → Type 0
  Asked ls l =
      ((asked (ls ++ (l ∷ [])) ≡ asked ls)
        × (ltb (length ls + 1) start || past_limit limit (length ls + 1 - start + 1) ≡ true))
      ⊎ ((asked (ls ++ (l ∷ [])) ≡ asked ls ++ (l ∷ []))
          × (ltb (length ls + 1) start ≡ false)
          × (past_limit limit (length ls + 1 - start + 1) ≡ false)
          × (length (asked ls) ≡ length ls - (start - 1)))

  pub Asked-early : (ls : List Text) (l : Text) → length ls + 1 < start → Asked ls l
  Asked-early ls l early =
      let len = length-append ls (l ∷ []) in
      let out = drop_all (start - 1) ls (omega arith) in
      let out' = drop_all (start - 1) (ls ++ (l ∷ [])) (omega (arith, len)) in
      inl (ap (within_limit limit) (out' ∙ sym out), ground arith)

pub Asked-started :
    (start : ℕ) (limit : ℤ) (ls : List Text) (l : Text)
    → 1 ≤ start
    → start ≤ length ls + 1
    → Asked start limit ls l
Asked-started start limit ls l lo started =
    let longer = drop-append_before (start - 1) ls (l ∷ []) (omega arith) in
    let len = length-drop (start - 1) ls in by_limit limit longer len
  where
    by_limit :
        (limit : ℤ)
        → drop (start - 1) (ls ++ (l ∷ [])) ≡ drop (start - 1) ls ++ (l ∷ [])
        → length (drop (start - 1) ls) ≡ length ls - (start - 1)
        → Asked start limit ls l
    by_limit (pos zero) longer len = inr (longer, ground arith, refl, len)
    by_limit (negsuc k) longer len = inr (longer, ground arith, refl, len)
    by_limit (pos (suc k)) longer len =
        let xs = drop (start - 1) ls in
        let len' = length-append xs (l ∷ []) in
        elim (Bool-cases (leb (suc k) (length xs))) [
          | inl y ↦ inl (
            ap (take (suc k)) longer ∙ take-append_before (suc k) xs (l ∷ []) (ground arith),
            ground arith,
          )
          | inr n ↦ inr (
            ap (take (suc k)) longer
                ∙ take_all (suc k) (xs ++ (l ∷ [])) (ground (arith, len'))
                ∙ ap (λ t. t ++ (l ∷ [])) (sym (take_all (suc k) xs (ground arith))),
            ground arith,
            ground arith,
            ap length (take_all (suc k) xs (ground arith)) ∙ len,
          )
        ]
