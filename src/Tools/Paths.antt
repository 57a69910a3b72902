-- ===== src/Tools/Paths.antt =====
-- PathResolver of internal/agentloop/tools/path.go, with the parts of path/filepath that it calls. A
-- clean path is kept as its segments.
pub mod Inside
use zoa.Base.{
  ℕ, ◌≡◌, Bool, true, false, not, ◌&&◌, ◌||◌, List, [], ◌∷◌, ◌++◌, ◌==◌, if◌then◌else◌, any_of,
}
use mathlib.Core.List.{reverse, foldl}
use zoa.Base.Text.{Text, codes, text_eq, is_empty, has_prefix}
use zoa.Base.Sql.{Result, ok, err}
use zoa.Tools.Truncate.{cons_first}
use zoa.Tools.Bytes.{trim_space}
use zoa.Tools.Args.{Checked, ◌>>=◌}

-- A path after filepath.Clean.
pub record FilePath : Type 0 where
  pub rooted : Bool
  pub segments : List Text

unfoldable pub split_path : Text → List Text
split_path [] = [] ∷ []
split_path (c ∷ s) = let rest = split_path s in if c == b'/' then [] ∷ rest else cons_first c rest

abbrev pub dot : Text
dot = b'.' ∷ []

abbrev pub dot_dot : Text
dot_dot = b'.' ∷ b'.' ∷ []

-- A segment `..` behind the segments of the list, the last one first.
abbrev pub up : Bool → List Text → List Text
up true [] = []
up false [] = dot_dot ∷ []
up rooted (s ∷ ss) = if text_eq s dot_dot then dot_dot ∷ s ∷ ss else ss

unfoldable pub clean_step : Bool → List Text → Text → List Text
clean_step rooted ss s =
    if is_empty s || text_eq s dot then ss else if text_eq s dot_dot then up rooted ss else s ∷ ss

-- filepath.IsAbs
abbrev pub is_abs : Text → Bool
is_abs s = has_prefix s (b'/' ∷ [])

-- filepath.Clean
unfoldable pub clean : Text → FilePath
clean s = record {
  rooted = is_abs s;
  segments = reverse (foldl (clean_step (is_abs s)) [] (split_path s));
}

abbrev pub join_segments : List Text → Text
join_segments [] = []
join_segments (s ∷ []) = s
join_segments (s ∷ t ∷ ss) = s ++ (b'/' ∷ join_segments (t ∷ ss))

abbrev pub print_segments : Bool → List Text → Text
print_segments true ss = b'/' ∷ join_segments ss
print_segments false [] = dot
print_segments false (s ∷ ss) = join_segments (s ∷ ss)

-- A clean path as the text that it is.
abbrev pub print_path : FilePath → Text
print_path p = print_segments p.rooted p.segments

-- filepath.Join of two texts
unfoldable pub join_path : Text → Text → Text
join_path s t =
    if is_empty s && is_empty t
    then []
    else if is_empty s
    then print_path (clean t)
    else if is_empty t
    then print_path (clean s)
    else print_path (clean (s ++ (b'/' ∷ t)))

abbrev pub ups : List Text → List Text
ups [] = []
ups (s ∷ ss) = dot_dot ∷ ups ss

unfoldable pub rel_segments : List Text → List Text → List Text
rel_segments [] ts = ts
rel_segments (s ∷ ss) [] = ups (s ∷ ss)
rel_segments (s ∷ ss) (t ∷ ts) =
    let rest = rel_segments ss ts in if text_eq s t then rest else ups (s ∷ ss) ++ (t ∷ ts)

abbrev pub same_root : Bool → Bool → Bool
same_root true b = b
same_root false b = not b

-- filepath.Rel, where the base has no segment `..`
unfoldable pub rel : FilePath → FilePath → Checked (List Text)
unfolding rel_segments
rel base target =
    if same_root base.rooted target.rooted
    then ok (rel_segments base.segments target.segments)
    else err (codes "compute relative path: Rel: can't make path relative to base")

-- The relative path is ".." or begins with "../".
abbrev pub goes_up : List Text → Bool
goes_up [] = false
goes_up (s ∷ ss) = text_eq s dot_dot

-- strings.TrimPrefix(path, "~/") where the prefix is there
abbrev pub after_tilde : Text → Text
after_tilde (_ ∷ _ ∷ s) = s
after_tilde s = s

-- expandPath; `home` is what os.UserHomeDir returns, empty on an error.
unfoldable pub expand_path : Text → Text → Text
expand_path home path =
    if text_eq path (b'~' ∷ [])
    then home
    else if has_prefix path (b'~' ∷ b'/' ∷ [])
    then join_path home (after_tilde path)
    else path

abbrev pub outside : Text → FilePath → List Text → Checked FilePath
outside path abs segments =
    if goes_up segments
    then err (codes "path " ++ (path ++ codes " is outside workspace root"))
    else ok abs

unfoldable pub absolute : FilePath → Text → FilePath
absolute root expanded =
    if is_abs expanded then clean expanded else clean (join_path (print_path root) expanded)

-- Resolve
unfoldable pub resolve : FilePath → Text → Text → Checked FilePath
unfolding absolute expand_path
resolve root home path =
    let expanded = expand_path home path in
    let abs = absolute root expanded in
    if is_empty (trim_space expanded)
    then err (codes "path is required")
    else rel root abs >>= outside path abs

-- NewPathResolver; `cwd` is what os.Getwd returns, which filepath.Abs asks for a relative path only.
unfoldable pub new_path_resolver : Checked Text → Text → Checked FilePath
new_path_resolver cwd root =
    if is_abs root
    then ok (clean (print_path (clean root)))
    else cwd >>= λ dir. ok (clean (join_path dir root))
