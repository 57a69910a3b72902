-- ===== src/Tools/Commands/Find.antt =====
-- FindTool.Execute of internal/agentloop/tools/find.go.
use zoa.Base.{
  ℕ, Bool, true, false, ◌&&◌, ◌||◌, List, [], ◌∷◌, ◌++◌, ltb, ◌==◌, if◌then◌else◌, length, take,
}
use zoa.Base.Int.{positive_or}
use zoa.Base.Text.{Text, codes, text_eq, is_empty, has_prefix, contains, decimal}
use zoa.Base.Sql.{ok, err}
use zoa.Tools.Args.{Args, Checked, string_arg, int_arg, ◌>>=◌}
use zoa.Tools.Truncate.{split_lines, join_lines}
use zoa.Tools.Bytes.{trim_space}
use zoa.Tools.Paths.{FilePath, resolve, print_path}
use zoa.Tools.Commands.{Searched, matches, no_matches, search_failed, notice_list}
use zoa.Tools.Commands.Search.{or_dot, with_notices}

-- buildFDArgs
unfoldable pub fd_args : Text → Text → List Text
fd_args pattern search_root =
    codes "--glob"
    ∷ codes "--color"
    ∷ codes "never"
    ∷ codes "--hidden"
    ∷ codes "--no-ignore"
    ∷ codes "--exclude"
    ∷ codes ".git"
    ∷ codes "--exclude"
    ∷ codes "node_modules"
    ∷ pattern
    ∷ search_root
    ∷ []

-- buildFindArgs
unfoldable pub find_args : Text → Text → List Text
find_args pattern search_root =
    (search_root
      ∷ codes "-type"
      ∷ codes "d"
      ∷ codes "("
      ∷ codes "-name"
      ∷ codes ".git"
      ∷ codes "-o"
      ∷ codes "-name"
      ∷ codes "node_modules"
      ∷ codes ")"
      ∷ codes "-prune"
      ∷ codes "-o"
      ∷ [])
    ++ ((if contains pattern (codes "/")
          then codes "-path" ∷ (codes "./" ++ pattern) ∷ []
          else codes "-name" ∷ pattern ∷ [])
        ++ (codes "-print" ∷ []))

abbrev pub after_two : Text → Text
after_two (_ ∷ _ ∷ s) = s
after_two s = s

-- strings.TrimPrefix(line, "./")
abbrev pub without_dot_slash : Text → Text
without_dot_slash s = if has_prefix s (codes "./") then after_two s else s

-- One round of normalizeFindOutput; filepath.ToSlash changes nothing where the separator is a slash.
abbrev pub add_result : Text → List Text → List Text
add_result line rest =
    let s = trim_space line in
    let r = without_dot_slash s in
    if is_empty s then rest else if text_eq r (codes ".") then rest else r ∷ rest

unfoldable pub normalized_lines : List Text → List Text
normalized_lines [] = []
normalized_lines (line ∷ lines) = add_result line (normalized_lines lines)

-- normalizeFindOutput
unfoldable pub normalize_find_output : Text → List Text
unfolding normalized_lines
normalize_find_output out =
    if is_empty (trim_space out) then [] else normalized_lines (split_lines out)

-- The order of strings.
abbrev pub text_le : Text → Text → Bool
text_le [] t = true
text_le (a ∷ s) [] = false
text_le (a ∷ s) (b ∷ t) = ltb a b || (a == b && text_le s t)

unfoldable pub insert_text : Text → List Text → List Text
insert_text s [] = s ∷ []
insert_text s (t ∷ ts) = let rest = insert_text s ts in if text_le s t then s ∷ t ∷ ts else t ∷ rest

-- sort.Strings: equal strings are the same, so that there is one result.
unfoldable pub sort_strings : List Text → List Text
unfolding insert_text
sort_strings [] = []
sort_strings (s ∷ ss) = insert_text s (sort_strings ss)

-- The matches that FindTool.Execute shows.
unfoldable pub shown_matches : ℕ → Text → List Text
unfolding normalize_find_output sort_strings
shown_matches limit out = sort_strings (take limit (normalize_find_output out))

abbrev pub found_output : ℕ → List Text → Bool → Bool → Text
found_output limit [] hit cut = codes "No files found matching pattern"
found_output limit (s ∷ ss) hit cut =
    with_notices (join_lines (s ∷ ss))
      (notice_list hit (decimal limit ++ codes " result limit reached")) cut

unfoldable pub find_output : ℕ → Searched → Checked Text
unfolding shown_matches
find_output limit (matches out cut) =
    let hit = ltb limit (length (normalize_find_output out)) in
    ok (found_output limit (shown_matches limit out) hit cut)
find_output limit no_matches = ok (codes "No files found matching pattern")
find_output limit (search_failed text) = err text

-- FindTool.Execute; `search` is runFindBackend of the path and the pattern.
unfoldable pub find : (Text → Text → Searched) → FilePath → Text → Args → Checked Text
find search root home args = string_arg args (codes "pattern") true >>= λ pattern.
    (string_arg args (codes "path") false >>= λ path.
    (int_arg args (codes "limit") false >>= λ limit.
    (resolve root home (or_dot path) >>= λ abs.
    find_output (positive_or 1000 limit) (search (print_path abs) pattern))))
