-- ===== src/Tools/Lines.antt =====
-- The lines of a text, as internal/agentloop/tools/truncate.go splits and joins them.
use zoa.Base.{
  ℕ, zero, suc, ◌≤◌, ◌≡◌, refl, sym, ap, subst, ◌∙◌, inl, inr, Bool, List, [], ◌∷◌, ◌==◌, arith,
  length, count_where, Bool-cases, All,
}
use zoa.Base.Int.{ℤ, pos, negsuc, positive_or}
use zoa.Base.Text.{Text}
use zoa.Tools.Truncate.{cons_first, split_lines, join_lines}

abbrev pub is_newline : ℕ → Bool
is_newline c = c == b'\n'

pub join-cons_first :
    (c : ℕ) (l : Text) (ls : List Text)
    → join_lines (cons_first c (l ∷ ls)) ≡ c ∷ join_lines (l ∷ ls)
join-cons_first c l [] = refl
join-cons_first c l (m ∷ ls) = refl

-- Splitting gives at least one line, and joining undoes it.
pub split_cons : (s : Text) → (l : Text) × (ls : List Text) × (split_lines s ≡ l ∷ ls)
unfolding split_lines
split_cons [] = ([], [], refl)
split_cons (c ∷ s) =
    let (l, ls, e) = split_cons s in
    elim (Bool-cases (c == b'\n')) [
      | inl y ↦ rw y ([], split_lines s, refl)
      | inr n ↦ rw (n, e) (c ∷ l, ls, refl)
    ]

pub join-split : (s : Text) → join_lines (split_lines s) ≡ s
unfolding split_lines
join-split [] = refl
join-split (c ∷ s) =
    let (l, ls, e) = split_cons s in
    let whole : join_lines (l ∷ ls) ≡ s = ap join_lines (sym e) ∙ join-split s in
    elim (Bool-cases (c == b'\n')) [
      | inl y ↦ rw (y, e) (ground (arith, whole))
      | inr n ↦ rw (n, e) (join-cons_first c l ls ∙ ap (λ t. c ∷ t) whole)
    ]

-- No line has a newline.
pub lines_plain : (s : Text) → All (λ l. count_where is_newline l ≡ 0) (split_lines s)
unfolding split_lines
lines_plain [] = (refl, tt)
lines_plain (c ∷ s) =
    let (l, ls, e) = split_cons s in
    let plain = lines_plain s in
    let plain' = subst (All (λ l. count_where is_newline l ≡ 0)) e plain in
    elim (Bool-cases (c == b'\n')) [
      | inl y ↦ rw y (refl, plain)
      | inr n ↦ rw (n, e) (rw n plain'.0, plain'.1)
    ]

-- A text with as many newlines as its lines, less one.
pub split-newlines : (s : Text) → length (split_lines s) ≡ suc (count_where is_newline s)
unfolding split_lines
split-newlines [] = refl
split-newlines (c ∷ s) =
    let (l, ls, e) = split_cons s in
    let known = split-newlines s in
    elim (Bool-cases (c == b'\n')) [
      | inl y ↦ rw y (ap suc known)
      | inr n ↦ rw (n, e) (ap length (sym e) ∙ known)
    ]

pub positive_or_pos : (default : ℕ) (z : ℤ) → 1 ≤ default → 1 ≤ positive_or default z
positive_or_pos default (pos zero) h = h
positive_or_pos default (pos (suc n)) h = omega arith
positive_or_pos default (negsuc n) h = h
