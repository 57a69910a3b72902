-- ===== src/Tools/Read.antt =====
-- ReadTool.Execute of internal/agentloop/tools/read.go.
pub mod Chunks
mod Kept
pub mod Loop
pub mod Following
pub mod Pages
mod Step
use zoa.Base.{
  ℕ, zero, suc, ◌+◌, ◌-◌, Bool, true, false, not, ◌&&◌, ◌||◌, Option, none, some, List, [], ◌∷◌,
  ◌++◌, ltb, leb, ◌==◌, if◌then◌else◌, length, take,
}
use mathlib.Core.List.{reverse, foldl}
use zoa.Base.Int.{ℤ, pos, negsuc, pos_part, positive_or}
use zoa.Base.Text.{Text, codes, is_empty, decimal, has_prefix}
use zoa.Base.Sql.{Result, ok, err, Db, M, pure, raise, ◌>>=◌}
use zoa.Tools.Args.{Args, Checked, string_arg, int_arg}
use zoa.Tools.Truncate.{cons_first, default_max_lines, default_max_bytes}
use zoa.Tools.Bytes.{is_likely_binary}
use zoa.Tools.Paths.{FilePath, resolve}
use zoa.Tools.Files.{Files, Disk, lift, read_file, wrap}

-- What the calls of ReadString('\n') return, up to the end of the file.
unfoldable pub read_strings : Text → List Text
read_strings [] = []
read_strings (c ∷ s) =
    let rest = read_strings s in if c == b'\n' then (c ∷ []) ∷ rest else cons_first c rest

-- strings.TrimSuffix for a suffix of one byte
unfoldable pub trim_suffix : ℕ → Text → Text
trim_suffix end [] = []
trim_suffix end (c ∷ []) = if c == end then [] else c ∷ []
trim_suffix end (c ∷ d ∷ s) = c ∷ trim_suffix end (d ∷ s)

unfoldable pub has_newline : Text → Bool
has_newline [] = false
has_newline (c ∷ []) = c == b'\n'
has_newline (c ∷ d ∷ s) = has_newline (d ∷ s)

abbrev pub bare_line : Text → Text
bare_line chunk = trim_suffix b'\r' (trim_suffix b'\n' chunk)

-- The variables of the loop. `cut` is the reason of the truncation, if there is one.
pub record Reading : Type 0 where
  pub builder : Text
  pub total_lines : ℕ
  pub included_lines : ℕ
  pub included_bytes : ℕ
  pub last_included : ℕ
  pub ended_with_newline : Bool
  pub cut : Option Text

abbrev pub past_limit : ℤ → ℕ → Bool
past_limit (pos zero) n = false
past_limit (pos (suc k)) n = ltb (suc k) n
past_limit (negsuc k) n = false

abbrev pub is_cut : Option Text → Bool
is_cut none = false
is_cut (some reason) = true

abbrev pub include_line : Text → ℕ → Reading → Reading
include_line line number r =
    let cost = length line + (if ltb 0 r.included_lines then 1 else 0) in
    if leb default_max_lines r.included_lines
    then record r { cut = some (codes "lines") }
    else if ltb default_max_bytes (r.included_bytes + cost)
    then record r { cut = some (codes "bytes") }
    else record r {
      builder = r.builder ++ (if ltb 0 r.included_lines then b'\n' ∷ line else line);
      included_bytes = r.included_bytes + cost;
      included_lines = r.included_lines + 1;
      last_included = number;
    }

abbrev pub or_empty_file : Text → Text
or_empty_file s = if is_empty s then codes "(empty file)" else s

module _ (start : ℕ) (limit : ℤ) where
  abbrev pub not_started : Reading
  not_started = record {
    builder = [];
    total_lines = 0;
    included_lines = 0;
    included_bytes = 0;
    last_included = start - 1;
    ended_with_newline = false;
    cut = none;
  }

  -- totalLines++, then appendLine
  unfoldable pub append_line : Text → Reading → Reading
  append_line line r0 =
      let number = r0.total_lines + 1 in
      let r = record r0 { total_lines = number } in
      if ltb number start
      then r
      else if past_limit limit (number - start + 1)
      then r
      else if is_cut r.cut
      then r
      else include_line line number r

  -- One round of the loop.
  unfoldable pub read_chunk : Reading → Text → Reading
  read_chunk r chunk =
      let r' = append_line (bare_line chunk) r in
      record r' { ended_with_newline = has_newline chunk }

  abbrev pub empty_line : Bool → Reading → Reading
  empty_line true r = append_line [] r
  empty_line false r = r

  -- The line behind a newline at the end, or of an empty file.
  abbrev pub last_line : Reading → Reading
  last_line r = empty_line (r.total_lines == 0 || r.ended_with_newline) r

  unfoldable pub read_lines : Text → Reading
  unfolding read_strings
  read_lines content = last_line (foldl read_chunk not_started (read_strings content))

  abbrev pub next_offset : Reading → ℕ
  next_offset r = if r.included_lines == 0 then start + 1 else r.last_included + 1

  abbrev pub cut_notice : Text → Reading → Text
  cut_notice reason r =
      codes "\n\n[Output truncated by "
      ++ (reason
          ++ (codes "; total file lines: "
              ++ (decimal r.total_lines
                  ++ (codes ". Use offset="
                      ++ (decimal (next_offset r) ++ codes " to continue.]")))))

  abbrev pub more_notice : ℤ → ℕ → Text
  more_notice (pos zero) total = []
  more_notice (negsuc k) total = []
  more_notice (pos (suc k)) total =
      let shown = start - 1 + suc k in
      if ltb shown total
      then codes "\n\n["
        ++ (decimal (total - shown)
            ++ (codes " more lines available. Use offset="
                ++ (decimal (start + suc k) ++ codes " to continue.]")))
      else []

  abbrev pub notice : Option Text → Reading → Text
  notice (some reason) r = cut_notice reason r
  notice none r = more_notice limit r.total_lines

  -- What follows the loop.
  unfoldable pub read_output : Reading → Checked Text
  read_output r =
      if ltb r.total_lines start
      then err (
          codes "offset "
          ++ (decimal start
              ++ (codes " is past end of file (" ++ (decimal r.total_lines ++ codes " lines)"))))
      else ok (or_empty_file (r.builder ++ notice r.cut r))

abbrev pub start_line : ℤ → ℕ
start_line = positive_or 1

-- The content of the file that is opened.
unfoldable pub read_content : ℤ → ℤ → Text → Checked Text
unfolding read_lines
read_content offset limit content =
    if is_likely_binary content
    then ok (codes "File appears to be binary; read tool only returns text files.")
    else read_output (start_line offset) limit (read_lines (start_line offset) limit content)

unfoldable pub read_path : FilePath → ℤ → ℤ → Disk Text
read_path abs offset limit = do
  content ← wrap (codes "read ") (read_file abs)
  lift (read_content offset limit content)

-- ReadTool.Execute
unfoldable pub read_tool : FilePath → Text → Args → Disk Text
read_tool root home args = do
  path ← lift (string_arg args (codes "path") true)
  offset ← lift (int_arg args (codes "offset") false)
  limit ← lift (int_arg args (codes "limit") false)
  abs ← lift (resolve root home path)
  read_path abs offset limit
