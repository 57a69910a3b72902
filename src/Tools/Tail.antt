-- ===== src/Tools/Tail.antt =====
-- TruncateTail of internal/agentloop/tools/truncate.go.
use zoa.Base.{
  ℕ, zero, suc, ◌+◌, ◌-◌, true, false, ◌&&◌, List, [], ◌∷◌, ◌==◌, leb, if◌then◌else◌, length,
}
use mathlib.Core.List.{reverse}
use zoa.Base.Int.{ℤ, positive_or}
use zoa.Base.Text.{Text}
use zoa.Tools.Truncate.{
  Truncation, default_max_lines, default_max_bytes, split_lines, join_lines, Kept, keep, reason_of,
}
use zoa.Tools.Bytes.{trim_to_last_bytes}

-- The loop over the lines, the last one first, by the lines and the bytes that are left;
-- `separator` is 1 once a line is kept.
unfoldable pub tail_lines : ℕ → ℕ → ℕ → List Text → Kept
tail_lines left room separator [] = ([], false)
tail_lines zero room separator (line ∷ lines) = ([], false)
tail_lines (suc left) room separator (line ∷ lines) =
    let cost = length line + separator in
    let rest = tail_lines left (room - cost) 1 lines in
    let trimmed = if separator == 0 then trim_to_last_bytes line room ∷ [] else [] in
    if leb cost room then keep line rest else (trimmed, true)

unfoldable pub truncate_tail : Text → ℤ → ℤ → Truncation
truncate_tail content max_lines max_bytes =
    let line_limit = positive_or default_max_lines max_lines in
    let byte_limit = positive_or default_max_bytes max_bytes in
    let lines = split_lines content in
    let total = length content in
    let kept = tail_lines line_limit byte_limit 0 (reverse lines) in
    if leb (length lines) line_limit && leb total byte_limit
    then record {
      content = content;
      truncated = false;
      reason = [];
      total_lines = length lines;
      total_bytes = total;
    }
    else record {
      content = join_lines (reverse kept.0);
      truncated = true;
      reason = reason_of kept.1;
      total_lines = length lines;
      total_bytes = total;
    }
