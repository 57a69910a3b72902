-- ===== src/Tools/Files.antt =====
-- The calls of package os that the tools of internal/agentloop/tools make on files. The state is the
-- files by their absolute paths; a call may fail, as `faults` says, and then changes nothing.
pub mod Steps
use zoa.Base.{
  ℕ, ◌≡◌, refl, Bool, true, false, Option, none, some, List, [], ◌∷◌, ◌++◌, if◌then◌else◌, length,
}
use zoa.Base.Text.{Text, codes, text_eq}
use zoa.Base.Sql.{Result, ok, err, Db, M, pure, raise, ◌>>=◌, exec, query}
use zoa.Tools.Args.{Checked}
use zoa.Tools.Paths.{FilePath, print_path}

abbrev pub Files : Type 0
Files = List (Text × Text)

abbrev pub Disk : Type 0 → Type 0
Disk = M Files Text

abbrev pub content_of : Text → Files → Option Text
content_of name [] = none
content_of name ((n, s) ∷ files) = if text_eq n name then some s else content_of name files

abbrev pub put_file : Text → Text → Files → Files
put_file name s [] = (name, s) ∷ []
put_file name s ((n, old) ∷ files) =
    let rest = put_file name s files in
    if text_eq n name then (name, s) ∷ files else (n, old) ∷ rest

-- A step that looks at no file.
abbrev pub lift : {A : Type 0} → Checked A → Disk A
lift r d = (r, d)

abbrev pub existing : Option Text → Disk Text
existing none = raise (codes "no such file or directory")
existing (some s) = pure s

abbrev pub existing_size : Option Text → Disk ℕ
existing_size none = raise (codes "no such file or directory")
existing_size (some s) = pure (length s)

-- os.ReadFile
unfoldable pub read_file : FilePath → Disk Text
read_file p = query (content_of (print_path p)) >>= existing

-- The size that os.Stat reports.
unfoldable pub file_size : FilePath → Disk ℕ
file_size p = query (content_of (print_path p)) >>= existing_size

-- os.WriteFile
unfoldable pub write_file : FilePath → Text → Disk (Unit {0})
write_file p s = exec λ files. (tt, put_file (print_path p) s files)

abbrev prefixed : {A : Type 0} → Text → Checked A → Checked A
prefixed text (ok a) = ok a
prefixed text (err e) = err (text ++ e)

-- fmt.Errorf("... %w", err) around a call that fails
unfoldable pub wrap : {A : Type 0} → Text → Disk A → Disk A
wrap text m d = let (r, d') = m d in (prefixed text r, d')
