-- ===== src/Tools/Commands/Search.antt =====
-- GrepTool.Execute of internal/agentloop/tools/grep.go.
use zoa.Base.{ℕ, Bool, true, false, not, List, [], ◌∷◌, ◌++◌, ltb, if◌then◌else◌}
use zoa.Base.Int.{pos, pos_part, positive_or}
use zoa.Base.Text.{Text, codes, text_eq, is_empty, decimal}
use zoa.Base.Sql.{ok, err}
use zoa.Tools.Args.{Args, Checked, string_arg, int_arg, bool_arg, ◌>>=◌}
use zoa.Tools.Truncate.{default_max_bytes, truncate_head}
use zoa.Tools.Bytes.{trim_space}
use zoa.Tools.Paths.{FilePath, resolve, print_path}
use zoa.Tools.Commands.{Searched, matches, no_matches, search_failed, notice_list, bracketed}

-- grepRunOptions
pub record GrepOptions : Type 0 where
  pub abs_path : Text
  pub pattern : Text
  pub glob : Text
  pub ignore_case : Bool
  pub literal : Bool
  pub context_lines : ℕ
  pub limit : ℕ

abbrev pub when : Bool → List Text → List Text
when true args = args
when false args = []

abbrev flags : Text → GrepOptions → List Text
flags count o =
    when o.literal (codes "-F" ∷ [])
    ++ (when o.ignore_case (codes "-i" ∷ [])
        ++ (when (ltb 0 o.context_lines) (codes "-C" ∷ decimal o.context_lines ∷ [])
            ++ when (ltb 0 o.limit) (count ∷ decimal o.limit ∷ [])))

-- buildRGArgs
unfoldable pub rg_args : GrepOptions → List Text
rg_args o =
    let glob = trim_space o.glob in
    (codes "--line-number" ∷ codes "--no-heading" ∷ codes "--color=never" ∷ [])
    ++ (flags (codes "--max-count") o
        ++ ((codes "--glob" ∷ codes "!.git/**" ∷ codes "--glob" ∷ codes "!node_modules/**" ∷ [])
            ++ (when (not (is_empty glob)) (codes "--glob" ∷ glob ∷ [])
                ++ (o.pattern ∷ o.abs_path ∷ []))))

-- buildGrepArgs; `is_dir` is what os.Stat tells of the path.
unfoldable pub grep_args : Bool → GrepOptions → List Text
grep_args is_dir o =
    let glob = trim_space o.glob in
    (codes "-n" ∷ codes "-I" ∷ [])
    ++ (flags (codes "-m") o
        ++ (when (not (is_empty glob)) ((codes "--include=" ++ glob) ∷ [])
            ++ (when is_dir (
                  codes "-R" ∷ codes "--exclude-dir=.git" ∷ codes "--exclude-dir=node_modules" ∷ [])
                ++ (o.pattern ∷ o.abs_path ∷ []))))

-- What the cut and the notices make of a command's output.
abbrev pub with_notices : Text → List Text → Bool → Text
with_notices output before cut =
    let tr = truncate_head output (pos 1_000_000) (pos default_max_bytes) in
    tr.content
    ++ bracketed (codes ". ") (
        before
        ++ (notice_list tr.truncated (codes "output truncated by " ++ tr.reason)
            ++ notice_list cut (codes "command output capture limit reached")))

unfoldable pub grep_output : Searched → Checked Text
grep_output (matches output cut) = ok (with_notices output [] cut)
grep_output no_matches = ok (codes "No matches found")
grep_output (search_failed text) = err text

abbrev pub or_dot : Text → Text
or_dot s = if is_empty s then codes "." else s

-- The options that GrepTool.Execute makes of its arguments.
unfoldable pub grep_options : FilePath → Text → Args → Checked GrepOptions
grep_options root home args = string_arg args (codes "pattern") true >>= λ pattern.
    (string_arg args (codes "path") false >>= λ path.
    (string_arg args (codes "glob") false >>= λ glob.
    (bool_arg args (codes "ignoreCase") false >>= λ ignore_case.
    (bool_arg args (codes "literal") false >>= λ literal.
    (int_arg args (codes "context") false >>= λ context_lines.
    (int_arg args (codes "limit") false >>= λ limit.
    (resolve root home (or_dot path) >>= λ abs.
    let abs_path = print_path abs in
    if text_eq abs_path (codes "/")
    then err (codes "refusing to grep '/' (root). choose a narrower path")
    else ok record {
      abs_path = abs_path;
      pattern = pattern;
      glob = glob;
      ignore_case = ignore_case;
      literal = literal;
      context_lines = pos_part context_lines;
      limit = positive_or 100 limit;
    })))))))

-- GrepTool.Execute; `search` is runGrepBackend.
unfoldable pub grep : (GrepOptions → Searched) → FilePath → Text → Args → Checked Text
grep search root home args = grep_options root home args >>= λ o. grep_output (search o)
