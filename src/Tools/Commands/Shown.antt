-- ===== src/Tools/Commands/Shown.antt =====
-- What the tools show of the output of their commands: internal/agentloop/tools/bash.go, find.go and
-- grep.go.
use zoa.Base.{
  ℕ, ◌≤◌, ◌≡◌, refl, subst, inl, inr, true, false, List, [], ◌∷◌, arith, length, take, All,
  Bool-cases,
}
use mathlib.Core.List.Perm
use mathlib.Core.List.{Perm}
use zoa.Base.Int.{pos}
use zoa.Base.Cuts.{take_last, take_all}
use zoa.Base.Text.{Text}
use zoa.Tools.Truncate.{default_max_lines, default_max_bytes}
use zoa.Tools.Bytes.{trim_space}
use zoa.Tools.Suffix.{WithinEnd, truncate_tail-WithinEnd}
use zoa.Tools.Buffers.{max_captured_bytes}
use zoa.Tools.Buffers.Captured.{written, write_tail-last}
use zoa.Tools.Commands.{captured, or_no_output, shown_output}
use zoa.Tools.Commands.Find.{
  text_le, insert_text, sort_strings, normalize_find_output, shown_matches,
}

-- The bash tool shows an end, within the limits of lines and bytes, of what the command wrote last,
-- trimmed, or of "(no output)".
pub shown_output-WithinEnd :
    (writes : List Text)
    → WithinEnd default_max_lines default_max_bytes
        (or_no_output (trim_space (take_last max_captured_bytes (written writes))))
        (shown_output (captured writes)).content
shown_output-WithinEnd writes =
    let held = (write_tail-last (pos max_captured_bytes) writes).last in
    subst
      (λ s.
        WithinEnd default_max_lines default_max_bytes (or_no_output (trim_space s))
          (shown_output (captured writes)).content)
      held
      (truncate_tail-WithinEnd (or_no_output (trim_space (captured writes).buf))
        (pos default_max_lines) (pos default_max_bytes)).0

abbrev pub IsSorted : List Text → Type 0
IsSorted [] = Unit {0}
IsSorted (s ∷ ss) = All (λ t. text_le s t ≡ true) ss × IsSorted ss

text_le_total : (s t : Text) → text_le s t ≡ false → text_le t s ≡ true
text_le_total [] t h = absurd (cc)
text_le_total (a ∷ s) [] h = refl
text_le_total (a ∷ s) (b ∷ t) h = ground (arith, text_le_total s t)

text_le_trans : (s t u : Text) → text_le s t ≡ true → text_le t u ≡ true → text_le s u ≡ true
text_le_trans [] t u h k = refl
text_le_trans (a ∷ s) [] u h k = absurd (cc)
text_le_trans (a ∷ s) (b ∷ t) [] h k = absurd (cc)
text_le_trans (a ∷ s) (b ∷ t) (c ∷ u) h k = ground (arith, text_le_trans s t u)

All-text_le :
    (s t : Text) (ss : List Text)
    → text_le s t ≡ true
    → All (λ u. text_le t u ≡ true) ss
    → All (λ u. text_le s u ≡ true) ss
All-text_le s t [] h k = tt
All-text_le s t (u ∷ ss) h k = (text_le_trans s t u h k.0, All-text_le s t ss h k.1)

insert_text-All :
    (P : Text → Type 0) (s : Text) (ss : List Text) → P s → All P ss → All P (insert_text s ss)
unfolding insert_text
insert_text-All P s [] h k = (h, tt)
insert_text-All P s (t ∷ ts) h k = elim (Bool-cases (text_le s t)) [
  | inl y ↦ rw y (h, k)
  | inr n ↦ rw n (k.0, insert_text-All P s ts h k.1)
]

insert_text-IsSorted : (s : Text) (ss : List Text) → IsSorted ss → IsSorted (insert_text s ss)
unfolding insert_text
insert_text-IsSorted s [] h = (tt, tt)
insert_text-IsSorted s (t ∷ ts) h = elim (Bool-cases (text_le s t)) [
  | inl y ↦ rw y ((y, All-text_le s t ts y h.0), h)
  | inr n ↦ rw n (
    insert_text-All (λ u. text_le t u ≡ true) s ts (text_le_total s t n) h.0,
    insert_text-IsSorted s ts h.1,
  )
]

sort_strings-IsSorted : (ss : List Text) → IsSorted (sort_strings ss)
unfolding sort_strings
sort_strings-IsSorted [] = tt
sort_strings-IsSorted (s ∷ ss) = insert_text-IsSorted s (sort_strings ss) (sort_strings-IsSorted ss)

insert_text-perm : (s : Text) (ss : List Text) → Perm (insert_text s ss) (s ∷ ss)
unfolding insert_text
insert_text-perm s [] = Perm.rfl
insert_text-perm s (t ∷ ts) = elim (Bool-cases (text_le s t)) [
  | inl y ↦ rw y Perm.rfl
  | inr n ↦ rw n (Perm.trans (Perm.cons t (insert_text-perm s ts)) (Perm.swap s t ts))
]

sort_strings-perm : (ss : List Text) → Perm (sort_strings ss) ss
unfolding sort_strings
sort_strings-perm [] = Perm.rfl
sort_strings-perm (s ∷ ss) =
    Perm.trans (insert_text-perm s (sort_strings ss)) (Perm.cons s (sort_strings-perm ss))

-- The find tool shows its matches in order: all of them where they are not more than the limit, and
-- otherwise the first ones that the command gave, as many as the limit says.
pub shown_matches-IsSorted :
    (limit : ℕ) (out : Text)
    → IsSorted (shown_matches limit out)
      × Perm (shown_matches limit out) (take limit (normalize_find_output out))
      × (length (normalize_find_output out) ≤ limit
          → Perm (shown_matches limit out) (normalize_find_output out))
unfolding shown_matches
shown_matches-IsSorted limit out =
    let found = normalize_find_output out in
    let same = sort_strings-perm (take limit found) in
    (
      sort_strings-IsSorted (take limit found),
      same,
      λ few. subst (Perm (sort_strings (take limit found))) (take_all limit found few) same,
    )
