-- ===== src/Tools/Read/Following.antt =====
-- Reading a file on from the offset that the result of internal/agentloop/tools/read.go names.
use mathlib.Core.List.{append_assoc}
use zoa.Base.{
  ℕ, zero, suc, ◌+◌, ◌-◌, ◌≤◌, ◌<◌, ◌≡◌, refl, sym, ap, ◌∙◌, ◌⊎◌, inl, inr, true, false, List, [],
  ◌∷◌, ◌++◌, arith, ◌==◌, if◌then◌else◌, leb, length, drop, All, Bool-cases,
}
use zoa.Base.Cuts.{drop-drop, length-drop}
use zoa.Base.Int.{ℤ, pos}
use zoa.Base.Text.{Text}
use zoa.Tools.Truncate.{default_max_lines, default_max_bytes, join_lines, head_lines}
use zoa.Tools.Read.{is_cut, read_lines, next_offset}
use zoa.Tools.Read.Chunks.{text_lines}
use zoa.Tools.Read.Pages.{page, asked}
use zoa.Tools.Read.Loop.{read_lines-At}

-- The output of the loop is the part that TruncateHead's loop keeps of the lines that are asked for,
-- from the line `offset` on and at most `limit` of them; all the lines of the file are counted; and
-- the loop says that it is truncated just where lines that are asked for are missing.
pub read_lines-page :
    (start : ℕ) (limit : ℤ) (content : Text)
    → 1 ≤ start
    → let r = read_lines start limit content in
      let ls = text_lines content in
      (r.builder ≡ join_lines (page start limit ls))
      × (r.total_lines ≡ length ls)
      × (r.last_included ≡ start - 1 + length (page start limit ls))
      × (((is_cut r.cut ≡ false) × (page start limit ls ≡ asked start limit ls))
          ⊎ ((is_cut r.cut ≡ true)
              × (length (page start limit ls) < length (asked start limit ls))))
read_lines-page start limit content lo =
    let at = read_lines-At start limit lo content in (at.built, at.counted, at.last, at.whole)

head_lines-prefix :
    (left room separator : ℕ) (ls : List Text)
    → let kept = (head_lines left room separator ls).0 in kept ++ drop (length kept) ls ≡ ls
unfolding head_lines
head_lines-prefix zero room separator [] = refl
head_lines-prefix (suc left) room separator [] = refl
head_lines-prefix zero room separator (l ∷ ls) = refl
head_lines-prefix (suc left) room separator (l ∷ ls) =
    elim (Bool-cases (leb (length l + separator) room)) [
      | inl y ↦ rw y (ap (λ t. l ∷ t) (head_lines-prefix left (room - (length l + separator)) 1 ls))
      | inr n ↦ rw n refl
    ]

join-append :
    (xs ys : List Text)
    → 0 < length xs
    → 0 < length ys
    → join_lines (xs ++ ys) ≡ join_lines xs ++ (b'\n' ∷ join_lines ys)
join-append [] ys lx ly = absurd (omega arith)
join-append (x ∷ []) [] lx ly = absurd (omega arith)
join-append (x ∷ []) (y ∷ ys) lx ly = refl
join-append (x ∷ x' ∷ xs) ys lx ly =
    ap (λ t. x ++ (b'\n' ∷ t)) (join-append (x' ∷ xs) ys (omega arith) ly)
    ∙ sym (append_assoc x (b'\n' ∷ join_lines (x' ∷ xs)) (b'\n' ∷ join_lines ys))

-- No line is too long for a page of its own.
abbrev pub Short : List Text → Type 0
Short = All λ l. length l ≤ default_max_bytes

Short-drop : (n : ℕ) (ls : List Text) → Short ls → Short (drop n ls)
Short-drop zero ls h = h
Short-drop (suc n) [] h = tt
Short-drop (suc n) (l ∷ ls) h = Short-drop n ls h.1

head_lines-some :
    (ls : List Text)
    → Short ls
    → 0 < length ls
    → 0 < length (head_lines default_max_lines default_max_bytes 0 ls).0
unfolding head_lines
head_lines-some [] h lt = absurd (omega arith)
head_lines-some (l ∷ ls) h lt =
    let fits : leb (length l + 0) default_max_bytes ≡ true = ground (arith, h.0) in
    rw fits (omega arith)

abbrev no_limit : ℤ
no_limit = pos 0

-- Call the tool again with the offset of its notice until it gives none: the outputs of its loop, a
-- newline between them.
abbrev pub follow : ℕ → ℕ → Text → Text
follow zero start content = []
follow (suc fuel) start content =
    let r = read_lines start (pos 0) content in
    let rest = follow fuel (next_offset start (pos 0) r) content in
    if is_cut r.cut then r.builder ++ (b'\n' ∷ rest) else r.builder

-- A page, a newline and what is left after the page.
join-page :
    (ls : List Text)
    → Short ls
    → let kept = (head_lines default_max_lines default_max_bytes 0 ls).0 in
      length kept < length ls
      → join_lines kept ++ (b'\n' ∷ join_lines (drop (length kept) ls)) ≡ join_lines ls
join-page ls short less =
    let kept = (head_lines default_max_lines default_max_bytes 0 ls).0 in
    let left = length-drop (length kept) ls in
    sym (
      join-append kept (drop (length kept) ls) (head_lines-some ls short (omega (arith, less)))
        (omega (arith, less, left)))
    ∙ ap join_lines (head_lines-prefix default_max_lines default_max_bytes 0 ls)

-- Whoever reads on from the offset of each notice and puts a newline between the outputs gets the
-- lines of the file from the first offset on, all of them, once and in order, in at most as many
-- calls as there are lines, or one, where no line is longer than the limit of bytes. The output is
-- the loop's, before the notices are added to it.
pub follow-drop :
    (fuel start : ℕ) (content : Text)
    → 1 ≤ start
    → length (text_lines content) < fuel + start
    → 0 < fuel
    → Short (text_lines content)
    → follow fuel start content ≡ join_lines (drop (start - 1) (text_lines content))
follow-drop zero start content lo enough some_fuel short = absurd (omega arith)
follow-drop (suc fuel) start content lo enough some_fuel short =
    let ls = text_lines content in
    let r = read_lines start no_limit content in
    let at = read_lines-At start no_limit lo content in
    let lines = page start no_limit ls in
    elim at.whole [
      | inl (open_, full) ↦ rw open_ (at.built ∙ ap join_lines full)
      | inr (shut, less) ↦
          let long = length-drop (start - 1) ls in
          let left = Short-drop (start - 1) ls short in
          let some_lines = head_lines-some (drop (start - 1) ls) left (omega (arith, less)) in
          let included : (r.included_lines == 0) ≡ false =
            ground (arith, at.included, some_lines) in
          let next : next_offset start no_limit r ≡ start + length lines =
            rw included (omega (arith, at.last)) in
          rw (shut, next)
            (ap (λ t. t ++ (b'\n' ∷ follow fuel (start + length lines) content)) at.built
              ∙ ap (λ t. join_lines lines ++ (b'\n' ∷ t))
                  (follow-drop fuel (start + length lines) content (omega arith)
                      (omega (arith, some_lines)) (omega (arith, less, long, some_lines)) short
                    ∙ ap (λ k. join_lines (drop k ls)) (omega arith)
                    ∙ ap join_lines (sym (drop-drop (length lines) (start - 1) ls)))
              ∙ join-page (drop (start - 1) ls) left less)
    ]
