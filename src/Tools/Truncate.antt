-- ===== src/Tools/Truncate.antt =====
-- TruncateHead of internal/agentloop/tools/truncate.go. A text is the list of its bytes.
use zoa.Base.{
  ℕ, zero, suc, ◌+◌, ◌-◌, Bool, true, false, ◌&&◌, List, [], ◌∷◌, ◌++◌, ◌==◌, leb, if◌then◌else◌,
  length,
}
use zoa.Base.Int.{ℤ, positive_or}
use zoa.Base.Text.{Text, codes}

pub record Truncation : Type 0 where
  pub content : Text
  pub truncated : Bool
  pub reason : Text
  pub total_lines : ℕ
  pub total_bytes : ℕ

abbrev pub default_max_lines : ℕ
default_max_lines = 2000

abbrev pub default_max_bytes : ℕ
default_max_bytes = 51_200

-- A byte in front of the first of the lines.
abbrev pub cons_first : ℕ → List Text → List Text
cons_first c [] = (c ∷ []) ∷ []
cons_first c (l ∷ ls) = (c ∷ l) ∷ ls

-- strings.Split(s, "\n")
unfoldable pub split_lines : Text → List Text
split_lines [] = [] ∷ []
split_lines (c ∷ s) =
    let rest = split_lines s in if c == b'\n' then [] ∷ rest else cons_first c rest

-- strings.Join(lines, "\n")
abbrev pub join_lines : List Text → Text
join_lines [] = []
join_lines (l ∷ []) = l
join_lines (l ∷ m ∷ ls) = l ++ (b'\n' ∷ join_lines (m ∷ ls))

-- The kept lines, and whether the bytes ended the loop.
abbrev pub Kept : Type 0
Kept = List Text × Bool

abbrev pub keep : Text → Kept → Kept
keep line (out, by_bytes) = (line ∷ out, by_bytes)

-- The loop, by the lines and the bytes that are left; `separator` is 1 once a line is kept.
unfoldable pub head_lines : ℕ → ℕ → ℕ → List Text → Kept
head_lines left room separator [] = ([], false)
head_lines zero room separator (line ∷ lines) = ([], false)
head_lines (suc left) room separator (line ∷ lines) =
    let cost = length line + separator in
    let rest = head_lines left (room - cost) 1 lines in
    if leb cost room then keep line rest else ([], true)

abbrev pub reason_of : Bool → Text
reason_of true = codes "bytes"
reason_of false = codes "lines"

unfoldable pub truncate_head : Text → ℤ → ℤ → Truncation
truncate_head content max_lines max_bytes =
    let line_limit = positive_or default_max_lines max_lines in
    let byte_limit = positive_or default_max_bytes max_bytes in
    let lines = split_lines content in
    let total = length content in
    let kept = head_lines line_limit byte_limit 0 lines in
    if leb (length lines) line_limit && leb total byte_limit
    then record {
      content = content;
      truncated = false;
      reason = [];
      total_lines = length lines;
      total_bytes = total;
    }
    else record {
      content = join_lines (kept.0);
      truncated = true;
      reason = reason_of kept.1;
      total_lines = length lines;
      total_bytes = total;
    }
